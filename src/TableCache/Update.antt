-- ===== src/TableCache/Update.antt =====
-- `TableCache::update` against its specification.
use telldb.Base.{
  ℕ, ◌≡◌, ◌≢◌, refl, sym, subst, List, [], ◌∷◌, Option, none, some, Bool, true, false, lookup,
  emplace, assign, Distinct, arith, lookup-emplace, lookup-assign, emplace-Distinct,
  assign-Distinct, ◌==◌, if◌then◌else◌,
}
use telldb.Errors.{
  Error, Outcome, done, raise, ok, ◌>>=◌, tuple_does_not_exist, conflict, dangling, Method,
}
use telldb.Index.{KeyOrder, IndexWrapper, index_update}
use telldb.TableCache.State.{Operation, Change, Heap, World}
use telldb.TableCache.Memory.{with_new, without, deref}
use telldb.TableCache.Ops.{with_changes, put_indexes, update_change, update}
use telldb.TableCache.View.{Action, Slot, slot, slot_of, IsValid, base_of, action_of, Owned}
use telldb.TableCache.Spec.{Pending, Implements, spec_update}
use telldb.TableCache.Free.{Step-store, Freed, Freed-nothing, Freed-tuple}
use telldb.TableCache.Loop.{change_each, each_index_ok, each_index_fault}
use telldb.TableCache.Refine.{next_world, step-Implements, action_insertion, action_update}

abbrev read_both : {T K B : Type 0} → ℕ → ℕ → Method (World T K B) (T × T)
read_both from to = do a ← deref from; b ← deref to; λ w. done w (a, b)

module _ {T K B : Type 0} (w : World T K B) (from to : ℕ) where
  both_ok :
      (a b : T)
      → w.heap.cell from ≡ some a
      → w.heap.cell to ≡ some b
      → read_both from to w ≡ done w (a, b)
  unfolding deref
  both_ok a b h k = ground arith

  both_fault : w.heap.cell from ≡ none → read_both from to w ≡ raise w dangling
  unfolding deref
  both_fault h = ground arith

module _ {T K B : Type 0} (order : KeyOrder K) (w : World T K B) (key from to : ℕ) (a b : T)
    (v : IsValid w) (read_from : w.heap.cell from ≡ some a) (read_to : w.heap.cell to ≡ some b)
    (apart_from : (c : Change) → lookup key w.table.changes ≡ some c → c.tuple ≢ some from)
    (apart_to : (c : Change) → lookup key w.table.changes ≡ some c → c.tuple ≢ some to) where
  abbrev pair_update : T × T → Method (IndexWrapper T K B) (Unit {0})
  pair_update ts = index_update order key ts.0 ts.1

  abbrev after_update : Outcome (List (IndexWrapper T K B)) (Unit {0})
  after_update = change_each (pair_update (a, b)) w.table.indexes

  -- The table when the tuple stands in a new cell of the heap `m`.
  abbrev put : Heap T → List (ℕ × Change) → World T K B
  put m new = with_changes (with_new (record w { heap = m }) b) new

  module _ (m : Heap T) (f : Freed w.heap m w.table.cache w.table.changes key) where
    update_done :
        (new : List (ℕ × Change))
        → update_change key to w ≡ done (put m new) tt
        → update order key from to w
          ≡ put_indexes (next_world w key (put m new).heap new w.table.indexes) after_update
    unfolding update
    update_done new e =
        let x : m.cell from ≡ some a = f.kept from a apart_from read_from in
        let y : m.cell to ≡ some b = f.kept to b apart_to read_to in
        ground (
          arith,
          each_index_ok (read_both from to) pair_update (put m new) (a, b)
              (both_ok (put m new) from to a b (ground (arith, f.fresh from))
                (ground (arith, f.fresh to))),
        )

    update_at :
        (new : List (ℕ × Change)) (c : Change) (p : Pending T)
        → update_change key to w ≡ done (put m new) tt
        → ((j : ℕ) → lookup j new ≡ (if key == j then some c else lookup j w.table.changes))
        → Distinct new
        → c.tuple ≡ some m.next
        → c.operation ≢ Operation.deletion
        → some (action_of (put m new).heap.cell c.operation c.tuple, c.written) ≡ p
        → Implements w key after_update (ok p) (update order key from to w)
    update_at new c p e l d et op ep =
        step-Implements w key (put m new).heap new after_update (some c) p _ v
          (Step-store w.heap m w.table.cache w.table.changes new key v f b c l d et op) ep
          (update_done new e)

  update_raise :
      (e : Error) → update_change key to w ≡ raise w e → update order key from to w ≡ raise w e
  unfolding update
  update_raise e h = ground arith

  abbrev Fulfils : Slot T → Type 0
  Fulfils s = Implements w key after_update (spec_update key b s) (update order key from to w)

  abbrev new_change : Operation → Bool → Change
  new_change op written = record { tuple = some w.heap.next; operation = op; written = written }

  update_absent :
      (p : Option (ℕ × Bool))
      → lookup key w.table.changes ≡ none
      → update_change key to w
        ≡ done (put w.heap (emplace key (new_change Operation.update false) w.table.changes)) tt
      → Implements w key after_update
          (ok (some (Action.updated b, false)))
          (update order key from to w)
  update_absent p h e =
      let c : Change = new_change Operation.update false in
      update_at w.heap (Freed-nothing w.heap w.table.cache w.table.changes key v)
        (emplace key c w.table.changes) c _ e (λ j. lookup-emplace key j c w.table.changes h)
        (emplace-Distinct key c w.table.changes h v.distinct) refl (λ e. cc) (ground arith)

  -- No change is pending.
  update_none :
      (oe : Option (ℕ × Bool))
      → lookup key w.table.changes ≡ none
      → lookup key w.table.cache ≡ oe
      → Fulfils (record { base = base_of w.heap.cell oe; pending = none })
  unfolding update_change
  update_none none h k = update_absent none h (ground arith)
  update_none (some (q, true)) h k = update_absent none h (ground arith)
  update_none (some (q, false)) h k = update_raise (conflict key) (ground arith)

  -- A change with a tuple is pending: that tuple is destroyed.
  update_tuple :
      (op : Operation) (o : Option ℕ) (written : Bool) (p : ℕ) (q : Pending T)
      → lookup key w.table.changes ≡ some (record { tuple = o; operation = op; written = written })
      → o ≡ some p
      → op ≢ Operation.deletion
      → update_change key to w
        ≡ done (put (without w p).heap (assign key (new_change op written) w.table.changes)) tt
      → some (action_of (put (without w p).heap []).heap.cell op (some w.heap.next), written) ≡ q
      → Implements w key after_update (ok q) (update order key from to w)
  update_tuple op o written p q h e ne call eq =
      let c : Change = new_change op written in
      update_at (without w p).heap (Freed-tuple w.heap w.table.cache w.table.changes key _ p v h e)
        (assign key c w.table.changes) c q call (λ j. lookup-assign key j c _ w.table.changes h)
        (assign-Distinct key c w.table.changes v.distinct) refl ne eq

  update_some :
      (base : Option (Option T × Bool)) (op : Operation) (o : Option ℕ) (written : Bool)
      → lookup key w.table.changes ≡ some (record { tuple = o; operation = op; written = written })
      → Owned w.heap.cell op o
      → Fulfils (record { base = base; pending = some (action_of w.heap.cell op o, written) })
  unfolding update_change
  update_some base Operation.insertion o written h own =
      let (t, p, e, l, a) = action_insertion w.heap.cell o own in
      subst (λ (a : Action T). Fulfils (record { base = base; pending = some (a, written) }))
        (sym a)
        (update_tuple Operation.insertion o written p _ h e (λ x. cc) (ground (arith, apart_to _ h))
          (ground arith))
  update_some base Operation.update o written h own =
      let (t, p, e, l, a) = action_update w.heap.cell o own in
      subst (λ (a : Action T). Fulfils (record { base = base; pending = some (a, written) }))
        (sym a)
        (update_tuple Operation.update o written p _ h e (λ x. cc) (ground (arith, apart_to _ h))
          (ground arith))
  update_some base Operation.deletion o written h own =
      update_raise (tuple_does_not_exist key) (ground arith)

  update_any :
      (oc : Option Change)
      → lookup key w.table.changes ≡ oc
      → Fulfils (slot_of w.heap.cell oc (lookup key w.table.cache))
  update_any none h = update_none (lookup key w.table.cache) h refl
  update_any (some c) h =
      update_some (base_of w.heap.cell (lookup key w.table.cache)) c.operation c.tuple c.written h
        (v.owned key c h)

  -- On a valid table, with references to living tuples neither of which is the one that the table
  -- holds as the pending change of the key: `update` does what the specification says of the slot
  -- of its key, on every branch. If it makes the change, the indexes cache the change of their key
  -- one after the other, and the call throws exactly if one of them does: the change is then made,
  -- and the indexes behind have not cached it. Any other throw changes nothing.
  pub update-Implements :
      Implements w key
        (change_each (index_update order key a b) w.table.indexes)
        (spec_update key b (slot w key))
        (update order key from to w)
  update-Implements = update_any (lookup key w.table.changes) refl

-- The table when the call has destroyed the tuple at `from`, which the change `c` held, and has put
-- a copy of `b` in its place.
abbrev pub after_change : {T K B : Type 0} → World T K B → ℕ → ℕ → T → Change → World T K B
after_change w key from b c =
    with_changes (with_new (without w from) b)
      (assign key (record c { tuple = some w.heap.next }) w.table.changes)

-- The other case: the old tuple is passed as the reference into the table that `get` handed out
-- after an earlier update. The call destroys it and then reads it for the indexes.
module _ {T K B : Type 0} (order : KeyOrder K) (w : World T K B) (key from to : ℕ) (b : T)
    (v : IsValid w) (read_to : w.heap.cell to ≡ some b) where
  change_made :
      (op : Operation) (o : Option ℕ) (written : Bool)
      → lookup key w.table.changes ≡ some (record { tuple = o; operation = op; written = written })
      → Owned w.heap.cell op o
      → op ≢ Operation.deletion
      → o ≡ some from
      → from ≢ to
      → (update_change key to w
          ≡ done
              (after_change w key from b (record { tuple = o; operation = op; written = written }))
              tt)
        × (w.heap.next ≢ from)
  unfolding update_change
  change_made Operation.insertion o written h (p, t, e, l) op f ne =
      (ground arith, λ n. ground (arith, v.fresh p))
  change_made Operation.update o written h (p, t, e, l) op f ne =
      (ground arith, λ n. ground (arith, v.fresh p))
  change_made Operation.deletion o written h own op f ne = absurd (op refl)

  -- On a valid table with an index, when the old tuple passed is the pending one that the table
  -- holds for the key, as `get` hands it out, and the new one is another living tuple: `update`
  -- makes the change, destroys the old tuple and then reads it for the index, which is undefined.
  pub update_dangling :
      (c : Change) (i : IndexWrapper T K B) (is : List (IndexWrapper T K B))
      → lookup key w.table.changes ≡ some c
      → c.operation ≢ Operation.deletion
      → c.tuple ≡ some from
      → from ≢ to
      → w.table.indexes ≡ i ∷ is
      → update order key from to w ≡ raise (after_change w key from b c) dangling
  unfolding update
  update_dangling c i is h op e ne ix =
      let (call, n) = change_made c.operation c.tuple c.written h (v.owned key c h) op e ne in
      ground (
        arith,
        each_index_fault (read_both from to) (λ (ts : T × T). index_update order key ts.0 ts.1)
            (after_change w key from b c) i is ix
            (both_fault (after_change w key from b c) from to (ground arith)),
      )
