-- ===== src/RemoteCounter/Live.antt =====
-- Whoever waits for a key can get one, as long as no request fails.
use telldb.Base.{
  ℕ, none, some, ◌∷◌, ◌+◌, ◌≤◌, ◌<◌, ◌≡◌, ◌≢◌, refl, ap, ◌∙◌, subst, Bool, true, false, ◌==◌,
  ==_refl, if◌then◌else◌, arith, Bool-cases, inl, inr,
}
use telldb.RemoteCounter.{Counter, Row, has_key, take_key, runs_low, batch_of, store_batch}
use telldb.RemoteCounter.System.{
  After, return_key, Position, idle, waiting, reading, writing, granted, requests, update, System,
  initial, version_of, same_version, write_row, Step, read_row, write, retry, store, take, Reach,
  here, next, Reach-before,
}
use telldb.RemoteCounter.Places.{carried, Fits, PositionFits, Inv, most_batches}
use telldb.RemoteCounter.Phase.{Phase, fresh, full, asking, stored, not_both}
use telldb.RemoteCounter.Reserve.{same_version-version}
use telldb.RemoteCounter.Unique.{Reach-Inv, initial-Inv}
use telldb.RemoteCounter.Kept.{Reach-Phases}

same_version_refl : (r : Row) → same_version r r ≡ true
same_version_refl none = refl
same_version_refl (some x) = ==_refl x.1

store_batch-has_key :
    (batch : ℕ) (n : Counter)
    → batch < 18446744073709551616
    → n.counter == n.reserved ≡ true
    → has_key (store_batch batch n) ≡ true
unfolding store_batch has_key
store_batch-has_key batch n b e = rw e (ground arith)

after_take-moved : (low : Bool) (k : ℕ) → (if low then reading (return_key k) else idle) ≢ waiting
after_take-moved true k = λ e. cc
after_take-moved false k = λ e. cc

module _ (owner : ℕ → ℕ) (f : ℕ) where
  -- A state that can be reached where fiber `f` still waits and its counter has a key.
  Served : System → Type 0
  Served s =
      (t : System) × Reach owner false s t
      × (t.issued ≡ s.issued)
      × (t.fibers f ≡ waiting)
      × (has_key (t.counters (owner f)) ≡ true)

  after_step : {s t : System} → Step owner false s t → t.issued ≡ s.issued → Served t → Served s
  unfolding Served
  after_step st e (t, r, k, i, h) = (t, Reach-before owner false st r, k ∙ e, i, h)

  module _ (g : ℕ) (other : g == f ≡ false) (same : owner g == owner f ≡ true) where
    granted-Served :
        (s : System) (batch : ℕ) (a : After)
        → s.fibers f ≡ waiting
        → s.fibers g ≡ granted batch a
        → batch < 18446744073709551616
        → (s.counters (owner f)).counter == (s.counters (owner f)).reserved ≡ true
        → Served s
    unfolding Served
    granted-Served s batch a i j b e =
        let o : owner f ≡ owner g = ground arith in
        let l : (s.counters (owner g)).counter == (s.counters (owner g)).reserved ≡ true =
          subst (λ c. (s.counters c).counter == (s.counters c).reserved ≡ true) o e in
        (
          _,
          next here (store g batch a j),
          refl,
          rw other i,
          rw same (store_batch-has_key batch (s.counters (owner g)) b l),
        )

    writing-Served :
        (s : System) (old : Row) (a : After)
        → s.fibers f ≡ waiting
        → s.fibers g ≡ writing old a
        → same_version old s.row ≡ true
        → batch_of old < 18446744073709551616
        → (s.counters (owner f)).counter == (s.counters (owner f)).reserved ≡ true
        → Served s
    writing-Served s old a i j v b e = after_step (write g old a j v) refl (
        granted-Served
          (record s { row = write_row old; fibers = update s.fibers g (granted (batch_of old) a) })
          (batch_of old) a (rw other i) (rw (==_refl g) refl) b e)

    reading-Served :
        (s : System) (a : After)
        → s.fibers f ≡ waiting
        → s.fibers g ≡ reading a
        → batch_of s.row < 18446744073709551616
        → (s.counters (owner f)).counter == (s.counters (owner f)).reserved ≡ true
        → Served s
    reading-Served s a i j b e = after_step (read_row g a j) refl (
        writing-Served (record s { fibers = update s.fibers g (writing s.row a) }) s.row a
          (rw other i) (rw (==_refl g) refl) (same_version_refl s.row) b e)

  batch_of-bound :
      (r : Row) → Fits r → version_of r ≤ most_batches → batch_of r < 18446744073709551616
  unfolding batch_of
  batch_of-bound none h b = omega arith
  batch_of-bound (some (value, version)) h b = omega (arith, h, b)

  module _ (s : System) (inv : Inv s) (small : version_of s.row ≤ most_batches)
      (at : s.fibers f ≡ waiting) where
    distinct : (g : ℕ) → requests (s.fibers g) ≡ true → g == f ≡ false
    distinct g r = elim (Bool-cases (g == f)) [
      | inl e ↦
          let j : g ≡ f = ground arith in
          not_both {b = requests (s.fibers f)} (rw at refl)
            (subst (λ h. requests (s.fibers h) ≡ true) j r)
      | inr e ↦ e
    ]

    request-Served :
        (g : ℕ) (p : Position)
        → s.fibers g ≡ p
        → requests p ≡ true
        → owner g == owner f ≡ true
        → (s.counters (owner f)).counter == (s.counters (owner f)).reserved ≡ true
        → Served s
    request-Served g idle i r o e = not_both refl r
    request-Served g waiting i r o e = not_both refl r
    request-Served g (reading a) i r o e =
        reading-Served g (distinct g (rw i r)) o s a at i (batch_of-bound s.row inv.row_fits small)
          e
    request-Served g (writing old a) i r o e = elim (Bool-cases (same_version old s.row)) [
      | inl v ↦
          let n = same_version-version old s.row v in
          writing-Served g (distinct g (rw i r)) o s old a at i v
            (batch_of-bound old (subst PositionFits i (inv.position_fits g))
              (omega (arith, n, small)))
            e
      | inr v ↦
          let d = distinct g (rw i r) in
          after_step (retry g old a i v) refl (
            reading-Served g d o (record s { fibers = update s.fibers g (reading a) }) a (rw d at)
              (rw (==_refl g) refl) (batch_of-bound s.row inv.row_fits small) e)
    ]
    request-Served g (granted batch a) i r o e =
        granted-Served g (distinct g (rw i r)) o s batch a at i
          (omega
            (arith, small, inv.below (carried g) (batch + 1000) (rw i (omega arith, omega arith))))
          e

    Phase-Served : Phase owner (owner f) (s.counters (owner f)) s.fibers s.row → Served s
    unfolding Served has_key
    Phase-Served (fresh e q) = let y : idle ≡ waiting = rw (q f refl) at at in cc
    Phase-Served (full i l z q) = (s, here, refl, at, ground (arith, l))
    Phase-Served (stored i l u z q) = (s, here, refl, at, ground (arith, z))
    Phase-Served (asking g i l u z w m) =
        elim (Bool-cases ((s.counters (owner f)).counter == (s.counters (owner f)).reserved)) [
          | inl e ↦ request-Served g (s.fibers g) refl w.asks (ground (arith, w.owned)) e
          | inr e ↦ (s, here, refl, at, rw e refl)
        ]

  -- From a state in which there is no row and no counter was used, as long as no request fails and the row was written 18446744073709551 times at most, a fiber
  -- that waits for a key can be given one: some further steps end with the fiber's key, which is
  -- the only key taken in them.
  pub waiting-Served :
      (s : System)
      → Reach owner false initial s
      → version_of s.row ≤ most_batches
      → s.fibers f ≡ waiting
      → (t : System) × (k : ℕ) × Reach owner false s t
        × (t.issued ≡ k ∷ s.issued)
        × (t.fibers f ≢ waiting)
  unfolding Served
  waiting-Served s r b at =
      let (t, w, e, i, h) =
        Phase-Served s (Reach-Inv owner false r b (initial-Inv owner false)) b at
          (Reach-Phases owner r b (owner f)) in
      (
        _,
        (take_key (t.counters (owner f))).counter,
        next w (take f i h),
        ap (λ ks. (take_key (t.counters (owner f))).counter ∷ ks) e,
        rw (==_refl f) (after_take-moved (runs_low (take_key (t.counters (owner f)))) _),
      )
