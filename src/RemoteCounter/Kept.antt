-- ===== src/RemoteCounter/Kept.antt =====
-- Every step that does not fail keeps each counter in a phase.
use telldb.Base.{
  ℕ, none, some, List, ◌∷◌, ◌+◌, ◌≤◌, ◌<◌, ◌≡◌, ◌≢◌, refl, subst, true, false, ◌==◌, ==_refl,
  if◌then◌else◌, arith, Bool-cases, inl, inr,
}
use telldb.RemoteCounter.{Counter, Row, starts, take_key, runs_low, batch_of, store_batch}
use telldb.RemoteCounter.System.{
  After, wait_for_key, return_key, Position, idle, waiting, reading, writing, granted, go_on,
  update, System, initial, version_of, write_row, Step, start, enter, read_row, write, retry,
  fail_read, fail_write, store, take, Reach, here, next,
}
use telldb.RemoteCounter.Places.{
  carried, current, following, top, Fits, PositionFits, Inv, most_batches,
}
use telldb.RemoteCounter.Phase.{Phase, fresh, not_both}
use telldb.RemoteCounter.Moves.{
  Phases, phases, start-Phase, aside-Phase, request-Phase, store-Phase, take-Phase,
}
use telldb.RemoteCounter.Reserve.{same_version-version}
use telldb.RemoteCounter.Unique.{Reach-Inv, Step-version, initial-Inv}

batch-nonzero : (old : Row) → Fits old → version_of old ≢ 0 → batch_of old ≢ 0
unfolding batch_of
batch-nonzero none h n = absurd (n refl)
batch-nonzero (some (value, version)) h n = λ e. n (omega (arith, h, e))

module _ (owner : ℕ → ℕ) where
  module _ (s : System) (inv : Inv s) (small : version_of s.row ≤ most_batches)
      (ph : Phases owner s) where
    -- A step that leaves the counters alone.
    moves :
        (f : ℕ) (p : Position)
        → Phase owner (owner f) (s.counters (owner f)) (update s.fibers f p) s.row
        → Phases owner (record s { fibers = update s.fibers f p })
    moves f p =
        phases owner s (record s { fibers = update s.fibers f p }) f p refl (λ c e. refl)
          (omega arith) ph

    changes :
        (f : ℕ) (p : Position) (n : Counter) (keys : List ℕ)
        → Phase owner (owner f) n (update s.fibers f p) s.row
        → Phases owner (record s {
          counters = update s.counters (owner f) n;
          fibers = update s.fibers f p;
          issued = keys;
        })
    changes f p n keys h =
        phases owner s
          (record s {
            counters = update s.counters (owner f) n;
            fibers = update s.fibers f p;
            issued = keys;
          })
          f p refl (λ c e. rw e refl) (omega arith) ph (rw (==_refl (owner f)) h)

    granted-bound :
        (batch f : ℕ) (a : After)
        → s.fibers f ≡ granted batch a
        → batch + 1000 < 18446744073709551616
    granted-bound batch f a i =
        omega (arith, small, inv.below (carried f) (batch + 1000) (rw i (omega arith, omega arith)))

    next-bound : (c : ℕ) → (s.counters c).next_counter + 1000 < 18446744073709551616
    next-bound c = elim (Bool-cases ((s.counters c).next_counter == 0)) [
      | inl e ↦ ground (arith, e)
      | inr e ↦ omega (
        arith,
        small,
        inv.below (following c) ((s.counters c).next_counter + 1000)
            (ground (arith, e), omega arith, omega arith),
      )
    ]

    reserved-top :
        (c : ℕ) → (s.counters c).counter < (s.counters c).reserved → (s.counters c).reserved ≤ top s
    reserved-top c l = inv.below (current c) (s.counters c).reserved (l, omega arith)

    reserved-bound :
        (c : ℕ)
        → (s.counters c).counter < (s.counters c).reserved
        → (s.counters c).reserved + 101 < 18446744073709551616
    reserved-bound c l = omega (arith, small, reserved-top c l)

    row-nonzero : (c : ℕ) → (s.counters c).counter < (s.counters c).reserved → version_of s.row ≢ 0
    row-nonzero c l = λ e. omega (arith, l, reserved-top c l, e)

    Step-Phases : {t : System} → Step owner false s t → Phases owner t
    unfolding starts
    Step-Phases (start f i e) =
        changes f (reading wait_for_key) (record (s.counters (owner f)) { init = true }) s.issued
          (start-Phase owner (owner f) (s.counters (owner f)) s.fibers f refl s.row e
            (ph (owner f)))
    Step-Phases (enter f i e) = moves f waiting (
        aside-Phase owner (owner f) (s.counters (owner f)) s.fibers f refl s.row waiting (rw i refl)
          refl (λ n. not_both e (rw n refl)) (ph (owner f)))
    Step-Phases (read_row f a i) = moves f (writing s.row a) (
        request-Phase owner (owner f) (s.counters (owner f)) s.fibers f refl s.row (writing s.row a)
          s.row (rw i refl) refl (rw i (λ v. (v, v))) (ph (owner f)))
    Step-Phases (write f old a i e) =
        let v = same_version-version old s.row e in
        phases owner s
          (record s { row = write_row old; fibers = update s.fibers f (granted (batch_of old) a) })
          f (granted (batch_of old) a) refl (λ c e. refl) (omega (arith, v)) ph
          (request-Phase owner (owner f) (s.counters (owner f)) s.fibers f refl s.row
            (granted (batch_of old) a) (write_row old) (rw i refl) refl
            (rw i (λ v. batch-nonzero old (subst PositionFits i (inv.position_fits f)) v.0))
            (ph (owner f)))
    Step-Phases (retry f old a i e) = moves f (reading a) (
        request-Phase owner (owner f) (s.counters (owner f)) s.fibers f refl s.row (reading a) s.row
          (rw i refl) refl (rw i (λ v. v.1)) (ph (owner f)))
    Step-Phases (fail_read f a e i) = not_both refl e
    Step-Phases (fail_write f old a e i) = not_both refl e
    Step-Phases (store f batch a i) =
        changes f (go_on a) (store_batch batch (s.counters (owner f))) s.issued (
          store-Phase owner (owner f) (s.counters (owner f)) s.fibers f refl s.row batch a
            (granted-bound batch f a i) i (ph (owner f)))
    Step-Phases (take f i e) =
        let n = take_key (s.counters (owner f)) in
        changes f (if runs_low n then reading (return_key n.counter) else idle) n
          (n.counter ∷ s.issued)
          (take-Phase owner (owner f) (s.counters (owner f)) s.fibers f refl s.row
            (next-bound (owner f)) (reserved-bound (owner f)) (row-nonzero (owner f)) i e
            (ph (owner f)))

  pub Reach-Phases :
      {s : System} → Reach owner false initial s → version_of s.row ≤ most_batches → Phases owner s
  Reach-Phases here b = λ c. fresh refl (λ g o. refl)
  Reach-Phases (next {t} r st) b =
      let v = Step-version owner false st in
      let m : version_of t.row ≤ most_batches = omega (arith, v, b) in
      Step-Phases t (Reach-Inv owner false r m (initial-Inv owner false)) m (Reach-Phases r m) st
