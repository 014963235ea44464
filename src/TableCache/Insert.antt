-- ===== src/TableCache/Insert.antt =====
-- `TableCache::insert` against its specification.
use telldb.Base.{ℕ, ◌≡◌, List, some, Bool}
use telldb.Errors.{Outcome}
use telldb.Index.{KeyOrder, IndexWrapper, index_insert}
use telldb.TableCache.State.{Operation, Change, World}
use telldb.TableCache.Memory.{with_new}
use telldb.TableCache.Ops.{with_changes, insert}
use telldb.TableCache.View.{Slot, IsValid}
use telldb.TableCache.Spec.{Implements, spec_insert}
use telldb.TableCache.Loop.{change_each}

module _ {T K B : Type 0} (order : KeyOrder K) (w : World T K B) (key r : ℕ) (t : T) (v : IsValid w)
    (readable : w.heap.cell r ≡ some t) where
  abbrev after_insert : Outcome (List (IndexWrapper T K B)) (Unit {0})
  after_insert = change_each (index_insert order key t) w.table.indexes

  abbrev put : List (ℕ × Change) → World T K B
  put new = with_changes (with_new w t) new

  abbrev Fulfils : Slot T → Type 0
  Fulfils s = Implements w key after_insert (spec_insert key t s) (insert order key r w)

  abbrev new_change : Operation → Bool → Change
  new_change op written = record { tuple = some w.heap.next; operation = op; written = written }
