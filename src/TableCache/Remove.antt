-- ===== src/TableCache/Remove.antt =====
-- `TableCache::remove` against its specification.
use telldb.Base.{
  ℕ, ◌≡◌, ◌≢◌, refl, sym, subst, List, Option, none, some, Bool, true, false, lookup, emplace,
  assign, erase, Distinct, arith, lookup-emplace, lookup-assign, lookup-erase, emplace-Distinct,
  assign-Distinct, erase-Distinct, ◌==◌, if◌then◌else◌,
}
use telldb.Errors.{Error, Outcome, done, raise, ok, tuple_does_not_exist, conflict}
use telldb.Index.{KeyOrder, IndexWrapper, index_remove}
use telldb.TableCache.State.{Operation, Change, Heap, World}
use telldb.TableCache.Memory.{without, deref}
use telldb.TableCache.Ops.{with_changes, remove_change, remove}
use telldb.TableCache.View.{
  Action, deleted, Slot, slot, slot_of, IsValid, base_of, action_of, pending_of, Owned,
}
use telldb.TableCache.Spec.{Pending, Implements, spec_remove}
use telldb.TableCache.Free.{Step-drop, Freed, Freed-nothing, Freed-tuple}
use telldb.TableCache.Loop.{change_each, each_index_ok, deref_ok}
use telldb.TableCache.Refine.{step-Implements, action_insertion, action_update}

module _ {T K B : Type 0} (order : KeyOrder K) (w : World T K B) (key r : ℕ) (t : T) (v : IsValid w)
    (readable : w.heap.cell r ≡ some t)
    (apart : (c : Change) → lookup key w.table.changes ≡ some c → c.tuple ≢ some r) where
  abbrev after_remove : Outcome (List (IndexWrapper T K B)) (Unit {0})
  after_remove = change_each (index_remove order key t) w.table.indexes

  abbrev put : Heap T → List (ℕ × Change) → World T K B
  put m new = with_changes (record w { heap = m }) new

  remove_raise : (e : Error) → remove_change key w ≡ raise w e → remove order key r w ≡ raise w e
  unfolding remove
  remove_raise e h = ground arith

  remove_at :
      (m : Heap T) (f : Freed w.heap m w.table.cache w.table.changes key) (new : List (ℕ × Change))
      (x : Option Change) (p : Pending T)
      → remove_change key w ≡ done (put m new) tt
      → ((j : ℕ) → lookup j new ≡ (if key == j then x else lookup j w.table.changes))
      → Distinct new
      → ((c : Change) → x ≡ some c → (c.tuple ≡ none) × (c.operation ≡ Operation.deletion))
      → pending_of m.cell x ≡ p
      → Implements w key after_remove (ok p) (remove order key r w)
  unfolding remove
  remove_at m f new x p e l d g ep =
      let y : m.cell r ≡ some t = f.kept r t apart readable in
      step-Implements w key m new after_remove x p _ v
        (Step-drop w.heap m w.table.cache w.table.changes new key v f x l d g) ep
        (ground (
          arith,
          each_index_ok (deref r) (index_remove order key) (put m new) t
              (deref_ok (put m new) r t y),
        ))

  abbrev Fulfils : Slot T → Type 0
  Fulfils s = Implements w key after_remove (spec_remove key s) (remove order key r w)

  abbrev deletion_change : Bool → Change
  deletion_change written = record {
    tuple = none;
    operation = Operation.deletion;
    written = written;
  }

  remove_absent :
      lookup key w.table.changes ≡ none
      → remove_change key w
        ≡ done (put w.heap (emplace key (deletion_change false) w.table.changes)) tt
      → Implements w key after_remove (ok (some (deleted, false))) (remove order key r w)
  remove_absent h e =
      let c : Change = deletion_change false in
      remove_at w.heap (Freed-nothing w.heap w.table.cache w.table.changes key v)
        (emplace key c w.table.changes) (some c) _ e (λ j. lookup-emplace key j c w.table.changes h)
        (emplace-Distinct key c w.table.changes h v.distinct)
        (λ c' e'. (ground arith, ground arith)) refl

  -- No change is pending.
  remove_none :
      (oe : Option (ℕ × Bool))
      → lookup key w.table.changes ≡ none
      → lookup key w.table.cache ≡ oe
      → Fulfils (record { base = base_of w.heap.cell oe; pending = none })
  unfolding remove_change
  remove_none none h k = remove_absent h (ground arith)
  remove_none (some (q, true)) h k = remove_absent h (ground arith)
  remove_none (some (q, false)) h k = remove_raise (conflict key) (ground arith)

  -- A change is pending: its tuple is destroyed.
  remove_some :
      (base : Option (Option T × Bool)) (op : Operation) (o : Option ℕ) (written : Bool)
      → lookup key w.table.changes ≡ some (record { tuple = o; operation = op; written = written })
      → Owned w.heap.cell op o
      → Fulfils (record { base = base; pending = some (action_of w.heap.cell op o, written) })
  unfolding remove_change
  remove_some base Operation.insertion o written h own =
      let (t', p, e, l, a) = action_insertion w.heap.cell o own in
      subst (λ (a : Action T). Fulfils (record { base = base; pending = some (a, written) }))
        (sym a)
        (remove_at (without w p).heap
          (Freed-tuple w.heap w.table.cache w.table.changes key _ p v h e)
          (erase key w.table.changes) none _ (ground arith)
          (λ j. lookup-erase key j w.table.changes v.distinct)
          (erase-Distinct key w.table.changes v.distinct) (λ c e'. absurd (ground arith)) refl)
  remove_some base Operation.update o written h own =
      let (t', p, e, l, a) = action_update w.heap.cell o own in
      let c : Change = deletion_change written in
      subst (λ (a : Action T). Fulfils (record { base = base; pending = some (a, written) }))
        (sym a)
        (remove_at (without w p).heap
          (Freed-tuple w.heap w.table.cache w.table.changes key _ p v h e)
          (assign key c w.table.changes) (some c) _ (ground arith)
          (λ j. lookup-assign key j c _ w.table.changes h)
          (assign-Distinct key c w.table.changes v.distinct) (λ c' e'. (ground arith, ground arith))
          refl)
  remove_some base Operation.deletion o written h own =
      remove_raise (tuple_does_not_exist key) (ground arith)

  remove_any :
      (oc : Option Change)
      → lookup key w.table.changes ≡ oc
      → Fulfils (slot_of w.heap.cell oc (lookup key w.table.cache))
  remove_any none h = remove_none (lookup key w.table.cache) h refl
  remove_any (some c) h =
      remove_some (base_of w.heap.cell (lookup key w.table.cache)) c.operation c.tuple c.written h
        (v.owned key c h)

  -- On a valid table, with a reference to a living tuple that is not the one that the table holds
  -- as the pending change of the key: `remove` does what the specification says of the slot of its
  -- key, on every branch. If it makes the change, the indexes cache the deletion one after the
  -- other, and the call throws exactly if one of them does: the change is then made, and the indexes
  -- behind have not cached it. Any other throw changes nothing.
  pub remove-Implements :
      Implements w key
        (change_each (index_remove order key t) w.table.indexes)
        (spec_remove key (slot w key))
        (remove order key r w)
  remove-Implements = remove_any (lookup key w.table.changes) refl
