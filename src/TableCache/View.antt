-- ===== src/TableCache/View.antt =====
-- What a table looks like to its transaction, and when the tuples that it points to are in order.
use telldb.Base.{ℕ, ◌≤◌, ◌≡◌, ◌≢◌, List, Option, none, some, Bool, lookup, Distinct}
use telldb.TableCache.State.{Operation, Change, Heap, World}

-- What the transaction did to a key. `broken` is a pointer to a tuple that is gone.
pub data Action (T : Type 0) : Type 0 where
  inserted updated : T → Action T
  deleted broken : Action T

-- One key: the tuple that was read and whether it was the newest version, and the pending change
-- with its flag whether it was written to storage.
pub record Slot (T : Type 0) : Type 0 where
  pub base : Option (Option T × Bool)
  pub pending : Option (Action T × Bool)

module _ {T : Type 0} where
  abbrev pub action_or : (T → Action T) → Option T → Action T
  action_or f none = broken
  action_or f (some t) = f t

  abbrev pub tuple_action : (T → Action T) → (ℕ → Option T) → Option ℕ → Action T
  tuple_action f cell none = broken
  tuple_action f cell (some p) = action_or f (cell p)

  abbrev pub action_of : (ℕ → Option T) → Operation → Option ℕ → Action T
  action_of cell Operation.insertion o = tuple_action inserted cell o
  action_of cell Operation.update o = tuple_action updated cell o
  action_of cell Operation.deletion o = deleted

  abbrev pub base_of : (ℕ → Option T) → Option (ℕ × Bool) → Option (Option T × Bool)
  base_of cell none = none
  base_of cell (some e) = some (cell e.0, e.1)

  abbrev pub pending_of : (ℕ → Option T) → Option Change → Option (Action T × Bool)
  pending_of cell none = none
  pending_of cell (some c) = some (action_of cell c.operation c.tuple, c.written)

  abbrev pub slot_of : (ℕ → Option T) → Option Change → Option (ℕ × Bool) → Slot T
  slot_of cell c e = record { base = base_of cell e; pending = pending_of cell c }

  -- A deletion holds no tuple, and any other change holds a tuple that lives.
  abbrev pub Owned : (ℕ → Option T) → Operation → Option ℕ → Type 0
  Owned cell Operation.insertion o = (p : ℕ) × (t : T) × (o ≡ some p) × (cell p ≡ some t)
  Owned cell Operation.update o = (p : ℕ) × (t : T) × (o ≡ some p) × (cell p ≡ some t)
  Owned cell Operation.deletion o = o ≡ none

  -- Every pointer leads to a living tuple, and no two entries share one.
  pub record Valid (heap : Heap T) (cache : List (ℕ × (ℕ × Bool))) (changes : List (ℕ × Change))
      : Type 0 where
    pub fresh : (p : ℕ) → heap.next ≤ p → heap.cell p ≡ none
    pub distinct : Distinct changes
    pub owned :
        (k : ℕ) (c : Change) → lookup k changes ≡ some c → Owned heap.cell c.operation c.tuple
    pub cached :
        (k : ℕ) (e : ℕ × Bool) → lookup k cache ≡ some e → (t : T) × (heap.cell e.0 ≡ some t)
    pub apart :
        (j k : ℕ) (c d : Change) (p : ℕ)
        → lookup j changes ≡ some c
        → lookup k changes ≡ some d
        → c.tuple ≡ some p
        → d.tuple ≡ some p
        → j ≡ k
    pub apart_cache :
        (j k : ℕ) (c : Change) (e : ℕ × Bool)
        → lookup j changes ≡ some c
        → lookup k cache ≡ some e
        → c.tuple ≢ some e.0

module _ {T K B : Type 0} where
  abbrev pub slot : World T K B → ℕ → Slot T
  slot w k = slot_of w.heap.cell (lookup k w.table.changes) (lookup k w.table.cache)

  abbrev pub IsValid : World T K B → Type 0
  IsValid w = Valid w.heap w.table.cache w.table.changes
