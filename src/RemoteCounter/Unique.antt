-- ===== src/RemoteCounter/Unique.antt =====
-- No two keys that are taken are the same, whichever counters and fibers take them.
use telldb.Base.{
  ℕ, ◌*◌, ◌≤◌, ◌≡◌, refl, none, some, Bool, true, false, if◌then◌else◌, arith, All, AllDifferent,
}
use telldb.RemoteCounter.{remote_value, Row, take_key, runs_low}
use telldb.RemoteCounter.System.{
  return_key, Position, idle, waiting, reading, writing, System, initial, version_of, Step, start,
  enter, read_row, write, retry, fail_read, fail_write, store, take, Reach, here, next,
}
use telldb.RemoteCounter.Places.{
  Place, current, following, carried, In, PositionFits, Fits, Inv, InBatch, only_moves, start-Inv,
}
use telldb.RemoteCounter.Places.{most_batches}
use telldb.RemoteCounter.Grant.{store-Inv, take-Inv}
use telldb.RemoteCounter.Reserve.{written, write-Inv, same_version-version}

Fits-remote_value : (r : Row) → Fits r → remote_value r ≡ version_of r * 1000
unfolding remote_value
Fits-remote_value none h = omega arith
Fits-remote_value (some (value, version)) h = h

after_take : Bool → ℕ → Position
after_take low k = if low then reading (return_key k) else idle

after_take-free : (low : Bool) (n k : ℕ) → ¬ InBatch (after_take low n) k
unfolding after_take
after_take-free true n k h = h
after_take-free false n k h = h

after_take-PositionFits : (low : Bool) (n : ℕ) → PositionFits (after_take low n)
unfolding after_take
after_take-PositionFits true n = tt
after_take-PositionFits false n = tt

module _ (owner : ℕ → ℕ) (failing : Bool) where
  pub Step-version : {s t : System} → Step owner failing s t → version_of s.row ≤ version_of t.row
  Step-version {s} (start f i e) = omega arith
  Step-version {s} (enter f i e) = omega arith
  Step-version {s} (read_row f a i) = omega arith
  Step-version {s} (write f old a i e) = omega (arith, same_version-version old s.row e)
  Step-version {s} (retry f old a i e) = omega arith
  Step-version {s} (fail_read f a e i) = omega arith
  Step-version {s} (fail_write f old a e i) = omega arith
  Step-version {s} (store f batch a i) = omega arith
  Step-version {s} (take f i e) = omega arith

  Step-Inv :
      {s t : System} → Step owner failing s t → version_of t.row ≤ most_batches → Inv s → Inv t
  unfolding after_take written
  Step-Inv {s} (start f i e) b inv = start-Inv s inv f (owner f)
  Step-Inv {s} (enter f i e) b inv = only_moves s inv f waiting tt (λ k h. h)
  Step-Inv {s} (read_row f a i) b inv = only_moves s inv f (writing s.row a) inv.row_fits (λ k h. h)
  Step-Inv {s} (write f old a i e) b inv =
      let v = same_version-version old s.row e in write-Inv s inv f old a i e (omega (arith, v, b))
  Step-Inv {s} (retry f old a i e) b inv = only_moves s inv f (reading a) tt (λ k h. h)
  Step-Inv {s} (fail_read f a e i) b inv = only_moves s inv f idle tt (λ k h. h)
  Step-Inv {s} (fail_write f old a e i) b inv = only_moves s inv f idle tt (λ k h. h)
  Step-Inv {s} (store f batch a i) b inv = store-Inv s inv b f (owner f) batch a i
  Step-Inv {s} (take f i e) b inv =
      let c = take_key (s.counters (owner f)) in
      take-Inv s inv b f (owner f) e (after_take (runs_low c) c.counter)
        (after_take-free (runs_low c) c.counter) (after_take-PositionFits (runs_low c) c.counter)

  pub Reach-Inv :
      {s t : System} → Reach owner failing s t → version_of t.row ≤ most_batches → Inv s → Inv t
  Reach-Inv here b inv = inv
  Reach-Inv (next {t} r st) b inv =
      let v = Step-version st in Step-Inv st b (Reach-Inv r (omega (arith, v, b)) inv)

  pub initial-Inv : Inv initial
  initial-Inv = record {
    row_fits = tt;
    position_fits = λ f. tt;
    ordered = λ c. omega arith;
    below = λ p k h. absurd (nothing p k h);
    apart = λ p q k h l. absurd (nothing p k h);
    issued_below = tt;
    issued_apart = tt;
    different = tt;
  }
    where
      nothing : (p : Place) (k : ℕ) → ¬ In initial p k
      nothing (current c) k h = omega (arith, h)
      nothing (following c) k h = h.0 refl
      nothing (carried f) k h = h

  -- From a state in which there is no row and no counter was used, counters that share the row, used by fibers that take turns in any order and whose requests may
  -- fail, never hand out the same key twice, as long as the row was written 18446744073709551 times
  -- at most.
  pub issued-AllDifferent :
      (s : System)
      → Reach owner failing initial s
      → version_of s.row ≤ most_batches
      → AllDifferent s.issued
  issued-AllDifferent s r b = (Reach-Inv r b initial-Inv).different

  -- Under the same conditions, every key that was taken is at most the row's value.
  pub issued-remote_value :
      (s : System)
      → Reach owner failing initial s
      → version_of s.row ≤ most_batches
      → All (λ k. k ≤ remote_value s.row) s.issued
  issued-remote_value s r b =
      let inv = Reach-Inv r b initial-Inv in
      rw (Fits-remote_value s.row inv.row_fits) inv.issued_below
