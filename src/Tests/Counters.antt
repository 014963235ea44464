-- ===== src/Tests/Counters.antt =====
-- Two fibers that share one counter.
use telldb.Base.{
  ℕ, ◌≡◌, ◌≢◌, ◌≤◌, ◌∷◌, [], refl, All, AllDifferent, true, false, arith, ◌==◌, Bool-cases, inl,
  inr,
}
use telldb.RemoteCounter.{
  starts, has_key, take_key, runs_low, batch_of, value_to_write, store_batch, remote_value,
}
use telldb.RemoteCounter.System.{
  System, idle, waiting, reading, wait_for_key, update, requests, initial, start, enter, read_row,
  write, store, take, Reach, here, next,
}
use telldb.RemoteCounter.Unique.{issued-AllDifferent, issued-remote_value}
use telldb.RemoteCounter.Live.{waiting-Served}
use telldb.RemoteCounter.Stuck.{Stuck, failed-Stuck}

abbrev shared : ℕ → ℕ
shared f = 0

-- Fiber 0 asks for the first batch, fiber 1 waits.
abbrev asked : System
asked = record initial {
  counters = update initial.counters 0 (record (initial.counters 0) { init = true });
  fibers = update (update initial.fibers 0 (reading wait_for_key)) 1 waiting;
}

asked-Reach : Reach shared false initial asked
unfolding starts
asked-Reach = next (next here (start 0 refl refl)) (enter 1 refl refl)

two_keys :
    (s : System) × Reach shared false initial s
    × (s.issued ≡ 2 ∷ 1 ∷ [])
    × (remote_value s.row ≡ 1000)
unfolding starts has_key take_key runs_low batch_of value_to_write store_batch remote_value
two_keys = (
  _,
  next
      (next
        (next
          (next (next asked-Reach (read_row 0 wait_for_key refl))
            (write 0 _ wait_for_key refl refl))
          (store 0 0 wait_for_key refl))
        (take 0 refl refl))
      (take 1 refl refl),
  refl,
  refl,
)

issued-AllDifferent_example : AllDifferent two_keys.0.issued
unfolding two_keys starts has_key take_key runs_low batch_of value_to_write store_batch
issued-AllDifferent_example = issued-AllDifferent shared false two_keys.0 two_keys.1 (omega arith)

issued-remote_value_example : All (λ k. k ≤ remote_value two_keys.0.row) two_keys.0.issued
unfolding two_keys starts has_key take_key runs_low batch_of value_to_write store_batch
issued-remote_value_example = issued-remote_value shared false two_keys.0 two_keys.1 (omega arith)

waiting-Served_example :
    (t : System) × (k : ℕ) × Reach shared false asked t
    × (t.issued ≡ k ∷ [])
    × (t.fibers 1 ≢ waiting)
waiting-Served_example = waiting-Served shared 1 asked asked-Reach (omega arith) refl

-- Fiber 0 has failed, and then calls again.
abbrev failed : System
failed = record asked { fibers = update (update asked.fibers 0 idle) 0 waiting }

others-quiet : (g : ℕ) → shared g ≡ 0 → g ≢ 0 → requests (asked.fibers g) ≡ false
others-quiet g o n = elim (Bool-cases (1 == g)) [
  | inl e ↦ rw e refl
  | inr e ↦ let d : 0 == g ≡ false = ground (arith, n) in rw (e, d) refl
]

failed-Stuck_example : Stuck shared 0 failed
unfolding has_key starts
failed-Stuck_example =
    failed-Stuck shared true 0 asked failed 0 refl refl others-quiet (next here (enter 0 refl refl))
