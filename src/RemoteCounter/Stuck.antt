-- ===== src/RemoteCounter/Stuck.antt =====
-- A counter whose only request has failed.
use telldb.Base.{
  ℕ, ◌≡◌, ◌≢◌, refl, sym, ap, ◌∙◌, subst, Bool, true, false, ◌==◌, if◌then◌else◌, arith, Bool-cases,
  inl, inr,
}
use telldb.RemoteCounter.{Counter, has_key, take_key, runs_low, store_batch, batch_of}
use telldb.RemoteCounter.System.{
  System, Position, idle, waiting, reading, writing, granted, requests, update, Step, start, enter,
  read_row, write, retry, fail_read, fail_write, store, take, Reach, here, next, return_key,
  wait_for_key, go_on, taken, write_row,
}
use telldb.RemoteCounter.Phase.{Quiet, not_both}
use telldb.RemoteCounter.Moves.{started}

-- The counter has asked for its first batch, has no key, and no fiber asks for one.
pub record Stuck (owner : ℕ → ℕ) (c : ℕ) (s : System) : Type 0 where
  pub asked : (s.counters c).init ≡ true
  pub empty : has_key (s.counters c) ≡ false
  pub quiet : Quiet owner c s.fibers

module _ (owner : ℕ → ℕ) (failing : Bool) (c : ℕ) where
  -- A step of a fiber that is in no request of the counter, before or after.
  kept :
      (s t : System) (f : ℕ) (p : Position)
      → t.fibers ≡ update s.fibers f p
      → t.counters c ≡ s.counters c
      → (owner f ≡ c → requests p ≡ false)
      → Stuck owner c s
      → Stuck owner c t
  kept s t f p fs cs r k = record {
    asked = rw cs k.asked;
    empty = rw cs k.empty;
    quiet = rw fs quiet;
  }
    where
      quiet : Quiet owner c (update s.fibers f p)
      quiet g o = elim (Bool-cases (f == g)) [
        | inl e ↦ let j : f ≡ g = ground arith in rw e (r (ap owner j ∙ o))
        | inr e ↦ rw e (k.quiet g o)
      ]

  elsewhere :
      (s : System) (f : ℕ) (n : Counter)
      → (owner f ≡ c → ⊥)
      → update s.counters (owner f) n c ≡ s.counters c
  elsewhere s f n d = elim (Bool-cases (owner f == c)) [
    | inl e ↦ absurd (d (ground arith))
    | inr e ↦ rw e refl
  ]

  -- A fiber in a request of the counter would not be quiet.
  asking-absurd :
      {s : System} {p : Position}
      → Stuck owner c s
      → (f : ℕ) → s.fibers f ≡ p
      → requests p ≡ true
      → ¬ (owner f ≡ c)
  asking-absurd {s} {p} k f i r o =
      not_both {b = requests (s.fibers f)} (k.quiet f o) (subst (λ q. requests q ≡ true) (sym i) r)

  Step-Stuck : {s t : System} → Step owner failing s t → Stuck owner c s → Stuck owner c t
  Step-Stuck {s} (start f i e) k =
      let d : owner f ≡ c → ⊥ = λ o. started (s.counters (owner f)) (rw (sym o) at k.asked) e in
      kept s
        (record s {
          counters = update s.counters (owner f) (record (s.counters (owner f)) { init = true });
          fibers = update s.fibers f (reading wait_for_key);
        })
        f (reading wait_for_key) refl (elsewhere s f _ d) (λ o. absurd (d o)) k
  Step-Stuck {s} (enter f i e) k =
      kept s (record s { fibers = update s.fibers f waiting }) f waiting refl refl (λ o. refl) k
  Step-Stuck {s} (read_row f a i) k =
      kept s (record s { fibers = update s.fibers f (writing s.row a) }) f (writing s.row a) refl
        refl (λ o. absurd (asking-absurd k f i refl o)) k
  Step-Stuck {s} (write f old a i e) k =
      kept s
        (record s { row = write_row old; fibers = update s.fibers f (granted (batch_of old) a) }) f
        (granted (batch_of old) a) refl refl (λ o. absurd (asking-absurd k f i refl o)) k
  Step-Stuck {s} (retry f old a i e) k =
      kept s (record s { fibers = update s.fibers f (reading a) }) f (reading a) refl refl
        (λ o. absurd (asking-absurd k f i refl o)) k
  Step-Stuck {s} (fail_read f a e i) k =
      kept s (record s { fibers = update s.fibers f idle }) f idle refl refl (λ o. refl) k
  Step-Stuck {s} (fail_write f old a e i) k =
      kept s (record s { fibers = update s.fibers f idle }) f idle refl refl (λ o. refl) k
  Step-Stuck {s} (store f batch a i) k =
      let n = store_batch batch (s.counters (owner f)) in
      kept s
        (record s {
          counters = update s.counters (owner f) n;
          fibers = update s.fibers f (go_on a);
        })
        f (go_on a) refl (elsewhere s f n (asking-absurd k f i refl))
        (λ o. absurd (asking-absurd k f i refl o)) k
  Step-Stuck {s} (take f i e) k =
      let n = take_key (s.counters (owner f)) in
      let d : owner f ≡ c → ⊥ = λ o.
        not_both {b = has_key (s.counters c)} k.empty
          (subst (λ d. has_key (s.counters d) ≡ true) o e) in
      kept s (taken s f (owner f) n) f (if runs_low n then reading (return_key n.counter) else idle)
        refl (elsewhere s f n d) (λ o. absurd (d o)) k

  Reach-Stuck : {s t : System} → Reach owner failing s t → Stuck owner c s → Stuck owner c t
  Reach-Stuck here k = k
  Reach-Stuck (next r st) k = Step-Stuck st (Reach-Stuck r k)

  -- When a request fails, its counter has no key, and no other fiber is in a request of this
  -- counter, then no fiber is in one in any later state, and the counter has no key in any, so
  -- that every later call waits for ever.
  pub failed-Stuck :
      (s t : System) (f : ℕ)
      → (s.counters c).init ≡ true
      → has_key (s.counters c) ≡ false
      → ((g : ℕ) → owner g ≡ c → g ≢ f → requests (s.fibers g) ≡ false)
      → Reach owner failing (record s { fibers = update s.fibers f idle }) t
      → Stuck owner c t
  failed-Stuck s t f a e q r = Reach-Stuck r (record { asked = a; empty = e; quiet = quiet })
    where
      quiet : Quiet owner c (update s.fibers f idle)
      quiet g o = elim (Bool-cases (f == g)) [
        | inl e ↦ rw e refl
        | inr e ↦ rw e (q g o (λ j. ground (arith, e, j)))
      ]
