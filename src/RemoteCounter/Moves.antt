-- ===== src/RemoteCounter/Moves.antt =====
-- What each part of `incrementAndGet` and `requestNewBatch` does to the phase of its counter.
use telldb.Base.{
  ℕ, ◌+◌, ◌%◌, ◌≤◌, ◌<◌, ◌≡◌, ◌≢◌, refl, sym, ap, subst, true, false, ◌==◌, ==_refl, if◌then◌else◌,
  arith, Bool-cases, inl, inr,
}
use telldb.RemoteCounter.{
  Counter, Row, new_counter, has_key, starts, take_key, runs_low, store_batch,
}
use telldb.RemoteCounter.System.{
  After, wait_for_key, return_key, Position, idle, waiting, reading, granted, go_on, requests,
  update, System, version_of,
}
use telldb.RemoteCounter.Grant.{store_full, store_next, take_full, take_next}
use telldb.RemoteCounter.Phase.{
  Sees, Phase, fresh, full, asking, stored, frame, not_both, Quiet-move, Single-new, Single-self,
  Single-end, Single-other,
}

abbrev pub Phases : (ℕ → ℕ) → System → Type 0
Phases owner s = (c : ℕ) → Phase owner c (s.counters c) s.fibers s.row

pub started {ℓ} : {A : Type ℓ} (n : Counter) → n.init ≡ true → starts n ≡ true → A
unfolding starts
started n i e = ground (arith, i, e)

go_on-requests : (a : After) → requests (go_on a) ≡ false
go_on-requests wait_for_key = refl
go_on-requests (return_key k) = refl

module _ (owner : ℕ → ℕ) where
  -- A step of fiber `f` is seen by its own counter only.
  pub phases :
      (s t : System) (f : ℕ) (p : Position)
      → t.fibers ≡ update s.fibers f p
      → ((c : ℕ) → owner f == c ≡ false → t.counters c ≡ s.counters c)
      → version_of s.row ≤ version_of t.row
      → Phases owner s
      → Phase owner (owner f) (t.counters (owner f)) t.fibers t.row
      → Phases owner t
  phases s t f p fs cs r ph own c = elim (Bool-cases (owner f == c)) [
    | inl e ↦
        let d : owner f ≡ c = ground arith in
        subst (λ c. Phase owner c (t.counters c) t.fibers t.row) d own
    | inr e ↦ rw (cs c e) (frame owner c (same c e) r (ph c))
  ]
    where
      same : (c : ℕ) → owner f == c ≡ false → (g : ℕ) → owner g ≡ c → t.fibers g ≡ s.fibers g
      same c e g o = rw fs (elim (Bool-cases (f == g)) [
        | inl i ↦ let j : f ≡ g = ground arith in absurd (ground (arith, e, o, ap owner j))
        | inr i ↦ rw i refl
      ])

  module _ (c : ℕ) (n : Counter) (fibers : ℕ → Position) (f : ℕ) (o : owner f ≡ c) (r : Row) where
    pub start-Phase :
        starts n ≡ true
        → Phase owner c n fibers r
        → Phase owner c (record n { init = true }) (update fibers f (reading wait_for_key)) r
    unfolding starts
    start-Phase e (fresh i q) =
        asking f refl (rw i (omega arith)) (rw i (omega arith)) (rw i refl)
          (Single-new owner c fibers f (reading wait_for_key) (λ g l. rw (q g l) refl) o refl)
          (inl (rw i refl))
    start-Phase e (full i l z q) = started n i e
    start-Phase e (asking g i l u z s w) = started n i e
    start-Phase e (stored i l u z q) = started n i e

    -- A fiber that is not in a request, before or after.
    pub aside-Phase :
        (p : Position)
        → requests (fibers f) ≡ false
        → requests p ≡ false
        → ¬ (n ≡ new_counter)
        → Phase owner c n fibers r
        → Phase owner c n (update fibers f p) r
    aside-Phase p e h m (fresh i q) = absurd (m i)
    aside-Phase p e h m (full i l z q) = full i l z (Quiet-move owner c fibers f p q h)
    aside-Phase p e h m (asking g i l u z s w) =
        let (a, b) = Single-other owner c fibers f p g s e h in asking g i l u z a (rw b w)
    aside-Phase p e h m (stored i l u z q) = stored i l u z (Quiet-move owner c fibers f p q h)

    -- A fiber that stays in its request.
    pub request-Phase :
        (p : Position) (r' : Row)
        → requests (fibers f) ≡ true
        → requests p ≡ true
        → (Sees r (fibers f) → Sees r' p)
        → Phase owner c n fibers r
        → Phase owner c n (update fibers f p) r'
    request-Phase p r' e h m (fresh i q) = not_both (rw (q f o) refl) e
    request-Phase p r' e h m (full i l z q) = not_both (q f o) e
    request-Phase p r' e h m (asking g i l u z s w) =
        let k : f ≡ g = s.only f o e in
        asking f i l u z (Single-self owner c fibers f p (rw (sym k) at s) h)
          (elim w [ inl x ↦ inl x | inr x ↦ inr (rw (==_refl f) (m (rw k x))) ])
    request-Phase p r' e h m (stored i l u z q) = not_both (q f o) e

    pub store-Phase :
        (batch : ℕ) (a : After)
        → batch + 1000 < 18446744073709551616
        → fibers f ≡ granted batch a
        → Phase owner c n fibers r
        → Phase owner c (store_batch batch n) (update fibers f (go_on a)) r
    store-Phase batch a b e (fresh i q) =
        not_both {b = requests (fibers f)} (rw (q f o) refl) (rw e refl)
    store-Phase batch a b e (full i l z q) = not_both {b = requests (fibers f)} (q f o) (rw e refl)
    store-Phase batch a b e (stored i l u z q) =
        not_both {b = requests (fibers f)} (q f o) (rw e refl)
    store-Phase batch a b e (asking g i l u z s w) =
        let k : f ≡ g = s.only f o (rw e refl) in
        let q = Single-end owner c fibers f (go_on a) (rw (sym k) at s) (go_on-requests a) in
        elim (Bool-cases (n.counter == n.reserved)) [
          | inl x ↦ rw (store_full batch n b x) (full i (omega arith) z q)
          | inr x ↦
              let v : batch ≢ 0 = elim w [
                | inl y ↦ ground (arith, x, y)
                | inr y ↦ subst (Sees r) e (rw (sym k) at y)
              ] in
              rw (store_next batch n x) (stored i l u v q)
        ]

    pub take-Phase :
        n.next_counter + 1000 < 18446744073709551616
        → (n.counter < n.reserved → n.reserved + 101 < 18446744073709551616)
        → (n.counter < n.reserved → version_of r ≢ 0)
        → fibers f ≡ waiting
        → has_key n ≡ true
        → Phase owner c n fibers r
        → Phase owner c
            (take_key n)
            (update fibers f
              (if runs_low (take_key n) then reading (return_key (take_key n).counter) else idle))
            r
    unfolding has_key runs_low
    take-Phase b d v e h (fresh i q) = let y : idle ≡ waiting = rw (q f o) at e in cc
    take-Phase b d v e h (full i l z q) =
        let k = d (omega (arith, l)) in
        rw (take_next n (omega arith) (ground arith))
          (elim (Bool-cases ((n.counter + 1 + 100) % 18446744073709551616 == n.reserved)) [
            | inl x ↦ rw x (
                asking f i (omega (arith, l)) (ground (arith, k, x, l)) z
                  (Single-new owner c fibers f _ q o refl)
                  (inr (rw (==_refl f) (v (omega (arith, l))))))
            | inr x ↦
                rw x (full i (ground (arith, k, x, l)) z (Quiet-move owner c fibers f idle q refl))
          ])
    take-Phase b d v e h (asking g i l u z s w) =
        let x : n.counter == n.reserved ≡ false = ground arith in
        let m : n.counter < n.reserved = ground (arith, x, l) in
        let k = d m in
        let y : (n.counter + 1 + 100) % 18446744073709551616 == n.reserved ≡ false =
          ground (arith, k, u) in
        let (j, t) = Single-other owner c fibers f idle g s (rw e refl) refl in
        rw (take_next n (omega arith) x, y)
          (asking g i (omega (arith, m)) (omega (arith, u)) z j
            (elim w [ inl a ↦ ground (arith, x, a) | inr a ↦ inr (rw t a) ]))
    take-Phase b d v e h (stored i l u z q) = elim (Bool-cases (n.counter == n.reserved)) [
      | inl x ↦
          let y : (n.next_counter + 1 + 100) % 18446744073709551616 == n.next_counter + 1000
              ≡ false =
            ground arith in
          rw (take_full n b x, y)
            (full i (omega arith) refl (Quiet-move owner c fibers f idle q refl))
      | inr x ↦
          let m : n.counter < n.reserved = ground (arith, x, l) in
          let k = d m in
          let y : (n.counter + 1 + 100) % 18446744073709551616 == n.reserved ≡ false =
            ground (arith, k, u) in
          rw (take_next n (omega arith) x, y)
            (stored i (omega (arith, m)) (omega arith) z (Quiet-move owner c fibers f idle q refl))
    ]
