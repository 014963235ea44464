-- ===== src/RemoteCounter/System.antt =====
-- Any number of counters for one row, used by any number of fibers. A fiber gives way only where it
-- waits for the store or for keys, so what it does between two waits is one step.
use telldb.Base.{ℕ, ◌+◌, ◌≡◌, List, [], ◌∷◌, none, some, Bool, true, false, ◌==◌, if◌then◌else◌}
use telldb.RemoteCounter.{
  Counter, Row, new_counter, starts, has_key, take_key, runs_low, batch_of, value_to_write,
  store_batch,
}

-- What a fiber does after `requestNewBatch`: it waits for its first key, or returns the key that it
-- has taken.
pub data After : Type 0 where
  wait_for_key : After
  return_key : ℕ → After

-- Where a fiber is: outside, waiting for a key, or in `requestNewBatch` before the row is read,
-- after it was read, and after the batch was written.
pub data Position : Type 0 where
  idle waiting : Position
  reading : After → Position
  writing : Row → After → Position
  granted : ℕ → After → Position

abbrev pub go_on : After → Position
go_on wait_for_key = waiting
go_on (return_key k) = idle

abbrev pub requests : Position → Bool
requests idle = false
requests waiting = false
requests _ = true

abbrev pub update {ℓ} : {A : Type ℓ} → (ℕ → A) → ℕ → A → ℕ → A
update f i a j = if i == j then a else f j

-- `issued` are the keys that were taken, the last one first.
pub record System : Type 0 where
  pub row : Row
  pub counters : ℕ → Counter
  pub fibers : ℕ → Position
  pub issued : List ℕ

abbrev pub initial : System
initial = record { row = none; counters = λ c. new_counter; fibers = λ f. idle; issued = [] }

abbrev pub version_of : Row → ℕ
version_of none = 0
version_of (some x) = x.1

-- The store accepts a write for the version that the writer has read: an insertion where there is
-- no row, an update of a row that has not changed.
abbrev pub same_version : Row → Row → Bool
same_version none none = true
same_version (some x) (some y) = x.1 == y.1
same_version _ _ = false

abbrev pub write_row : Row → Row
write_row old = some (value_to_write old, version_of old + 1)

-- Fiber `f` has taken a key: `c` is its counter then.
abbrev pub taken : System → ℕ → ℕ → Counter → System
taken s f o c = record s {
  counters = update s.counters o c;
  fibers = update s.fibers f (if runs_low c then reading (return_key c.counter) else idle);
  issued = c.counter ∷ s.issued;
}

-- Fiber `f` uses the counter `owner f`. Where `failing` is true a request may throw, which only
-- ends the call.
module _ (owner : ℕ → ℕ) (failing : Bool) where
  pub data Step (s : System) : System → Type 0 where
    start :
        (f : ℕ)
        → s.fibers f ≡ idle
        → starts (s.counters (owner f)) ≡ true
        → Step s (record s {
          counters = update s.counters (owner f) (record (s.counters (owner f)) { init = true });
          fibers = update s.fibers f (reading wait_for_key);
        })
    enter :
        (f : ℕ)
        → s.fibers f ≡ idle
        → starts (s.counters (owner f)) ≡ false
        → Step s (record s { fibers = update s.fibers f waiting })
    read_row :
        (f : ℕ) (a : After)
        → s.fibers f ≡ reading a
        → Step s (record s { fibers = update s.fibers f (writing s.row a) })
    write :
        (f : ℕ) (old : Row) (a : After)
        → s.fibers f ≡ writing old a
        → same_version old s.row ≡ true
        → Step s (record s {
          row = write_row old;
          fibers = update s.fibers f (granted (batch_of old) a);
        })
    retry :
        (f : ℕ) (old : Row) (a : After)
        → s.fibers f ≡ writing old a
        → same_version old s.row ≡ false
        → Step s (record s { fibers = update s.fibers f (reading a) })
    fail_read :
        (f : ℕ) (a : After)
        → failing ≡ true
        → s.fibers f ≡ reading a
        → Step s (record s { fibers = update s.fibers f idle })
    fail_write :
        (f : ℕ) (old : Row) (a : After)
        → failing ≡ true
        → s.fibers f ≡ writing old a
        → Step s (record s { fibers = update s.fibers f idle })
    store :
        (f batch : ℕ) (a : After)
        → s.fibers f ≡ granted batch a
        → Step s (record s {
          counters = update s.counters (owner f) (store_batch batch (s.counters (owner f)));
          fibers = update s.fibers f (go_on a);
        })
    take :
        (f : ℕ)
        → s.fibers f ≡ waiting
        → has_key (s.counters (owner f)) ≡ true
        → Step s (taken s f (owner f) (take_key (s.counters (owner f))))

  pub data Reach (s : System) : System → Type 0 where
    here : Reach s s
    next : {t u : System} → Reach s t → Step t u → Reach s u

  pub Reach-before : {s t u : System} → Step s t → Reach t u → Reach s u
  Reach-before st here = next here st
  Reach-before st (next r st') = next (Reach-before st r) st'
