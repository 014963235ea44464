-- ===== src/TableCache/State.antt =====
-- The members of `TableCache` (src/TableCache.hpp). Tuples live in the transaction's memory pool, a
-- heap of cells; a `Tuple*` and a `const Tuple&` are addresses. A destroyed tuple's cell is empty.
use telldb.Base.{ℕ, List, Option, Bool}
use telldb.Index.{IndexWrapper}

pub data Operation : Type 0 where
  insertion update deletion : Operation

-- The tuple of `ChangesMap`: the new tuple (no tuple for a deletion), the operation, and whether
-- the change was written to storage.
pub record Change : Type 0 where
  pub tuple : Option ℕ
  pub operation : Operation
  pub written : Bool

pub record Heap (T : Type 0) : Type 0 where
  pub cell : ℕ → Option T
  pub next : ℕ

-- `cache` holds the tuples read from storage and whether the version read is the newest.
pub record TableCache (T K B : Type 0) : Type 0 where
  pub cache : List (ℕ × (ℕ × Bool))
  pub changes : List (ℕ × Change)
  pub indexes : List (IndexWrapper T K B)

-- The table with the memory that its tuples live in.
pub record World (T K B : Type 0) : Type 0 where
  pub heap : Heap T
  pub table : TableCache T K B

-- What `get` hands out: a future that is already there, or one that waits for storage.
pub data Future : Type 0 where
  ready : ℕ → ℕ → Future
  remote : ℕ → Future
