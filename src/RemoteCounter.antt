-- ===== src/RemoteCounter.antt =====
-- `RemoteCounter` (src/RemoteCounter.hpp, src/RemoteCounter.cpp): the steps that its methods make
-- between two waits. Numbers have 64 bits.
pub mod System
pub mod Places
pub mod Exchange
pub mod Grant
pub mod Reserve
pub mod Unique
pub mod Phase
pub mod Moves
pub mod Kept
pub mod Live
pub mod Stuck
use telldb.Base.{
  ℕ, ◌+◌, ◌%◌, Option, none, some, Bool, true, false, not, ◌&&◌, ◌||◌, ◌==◌, if◌then◌else◌,
}

abbrev pub reserved_batch : ℕ
reserved_batch = 1000

abbrev pub threshold : ℕ
threshold = 100

abbrev pub add_64 : ℕ → ℕ → ℕ
add_64 a b = (a + b) % 18446744073709551616

-- `mInit`, `mCounter`, `mReserved` and `mNextCounter`.
pub record Counter : Type 0 where
  pub init : Bool
  pub counter : ℕ
  pub reserved : ℕ
  pub next_counter : ℕ

abbrev pub new_counter : Counter
new_counter = record { init = false; counter = 0; reserved = 0; next_counter = 0 }

-- The row of the counter table, if there is one: the value and its version.
abbrev pub Row : Type 0
Row = Option (ℕ × ℕ)

-- `incrementAndGet`: whether the first batch has to be requested.
unfoldable pub starts : Counter → Bool
starts c = c.counter == 0 && not c.init

-- The condition of `mFreshKeys.wait`.
unfoldable pub has_key : Counter → Bool
has_key c = not (c.counter == c.reserved) || not (c.next_counter == 0)

abbrev pub open_next : Counter → Counter
open_next c = record c {
  counter = c.next_counter;
  reserved = add_64 c.next_counter reserved_batch;
  next_counter = 0;
}

abbrev pub increment : Counter → Counter
increment c = record c { counter = add_64 c.counter 1 }

-- `incrementAndGet` from the wait on: the counter, whose value is the key.
unfoldable pub take_key : Counter → Counter
take_key c = increment (if c.counter == c.reserved then open_next c else c)

-- Whether the next batch has to be requested.
unfoldable pub runs_low : Counter → Bool
runs_low c = add_64 c.counter threshold == c.reserved

-- `requestNewBatch`: the batch that is asked for after the row was read, and the row to be written.
unfoldable pub batch_of : Row → ℕ
batch_of none = 0
batch_of (some (value, version)) = value

unfoldable pub value_to_write : Row → ℕ
value_to_write none = reserved_batch
value_to_write (some (value, version)) = add_64 value reserved_batch

-- `requestNewBatch` once the batch is written.
unfoldable pub store_batch : ℕ → Counter → Counter
store_batch batch c =
    if c.counter == c.reserved
    then record c { counter = batch; reserved = add_64 batch reserved_batch }
    else record c { next_counter = batch }

-- `remoteValue`: what the row says.
unfoldable pub remote_value : Row → ℕ
remote_value none = 0
remote_value (some (value, version)) = value
