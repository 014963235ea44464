-- ===== src/TableCache/Read.antt =====
-- `TableCache::get` and `addTuple` against the slots of the table.
use telldb.Base.{
  ℕ, ◌≡◌, ◌≢◌, refl, sym, subst, Option, none, some, Bool, lookup, arith, lookup-emplace_any,
  emplace_cases, inl, inr, ap, ◌==◌, if◌then◌else◌,
}
use telldb.Errors.{Outcome, done, raise, Result, ok, err, after, tuple_exists, dangling}
use telldb.TableCache.State.{Operation, Change, World, Future, ready, remote}
use telldb.TableCache.Ops.{get, add_tuple}
use telldb.TableCache.View.{
  Action, inserted, updated, deleted, broken, Slot, slot, slot_of, IsValid, Owned, action_of,
  base_of, pending_of,
}
use telldb.TableCache.Memory.{with_new}
use telldb.TableCache.Step.{Owned-moved, Owned-live, action_moved}
use telldb.TableCache.Refine.{action_insertion, action_update}

module _ {T K B : Type 0} (w : World T K B) (key : ℕ) where
  -- The transaction sees its own changes first, then what it has read; `none` sends it to storage.
  abbrev pub spec_get : Slot T → Result (Option T)
  spec_get s = elim s.pending [
    | none ↦ elim s.base [
      | none ↦ ok none
      | some e ↦ elim e.0 [ some t ↦ ok (some t) | none ↦ err dangling ]
    ]
    | some (a, _) ↦ elim a [
      | inserted t ↦ ok (some t)
      | updated t ↦ ok (some t)
      | deleted ↦ err (tuple_exists key)
      | broken ↦ err dangling
    ]
  ]

  abbrev pub Reads : Result (Option T) → Outcome (World T K B) Future → Type 0
  Reads (ok none) o = o ≡ done w (remote key)
  Reads (ok (some t)) o = (p : ℕ) × (o ≡ done w (ready key p)) × (w.heap.cell p ≡ some t)
  Reads (err e) o = o ≡ raise w e

  module _ (v : IsValid w) where
    get-some :
        (base : Option (Option T × Bool)) (op : Operation) (o : Option ℕ) (written : Bool)
        → lookup key w.table.changes
          ≡ some (record { tuple = o; operation = op; written = written })
        → Owned w.heap.cell op o
        → Reads
            (spec_get
              (record { base = base; pending = some (action_of w.heap.cell op o, written) }))
            (get key w)
    unfolding get
    get-some base Operation.insertion o written h own =
        let (t, p, e, l, a) = action_insertion w.heap.cell o own in
        subst
          (λ (a : Action T).
            Reads (spec_get (record { base = base; pending = some (a, written) })) (get key w))
          (sym a) (p, ground arith, l)
    get-some base Operation.update o written h own =
        let (t, p, e, l, a) = action_update w.heap.cell o own in
        subst
          (λ (a : Action T).
            Reads (spec_get (record { base = base; pending = some (a, written) })) (get key w))
          (sym a) (p, ground arith, l)
    get-some base Operation.deletion o written h own = ground arith

    get-none :
        (oe : Option (ℕ × Bool))
        → lookup key w.table.changes ≡ none
        → lookup key w.table.cache ≡ oe
        → Reads (spec_get (slot_of w.heap.cell none oe)) (get key w)
    unfolding get
    get-none none h k = ground arith
    get-none (some e) h k =
        let (t, live) = v.cached key e k in
        subst
          (λ (o : Option T).
            Reads (spec_get (record { base = some (o, e.1); pending = none })) (get key w))
          (sym live) (e.0, ground arith, live)

    get_any :
        (oc : Option Change)
        → lookup key w.table.changes ≡ oc
        → Reads (spec_get (slot_of w.heap.cell oc (lookup key w.table.cache))) (get key w)
    get_any none h = get-none (lookup key w.table.cache) h refl
    get_any (some c) h =
        get-some (base_of w.heap.cell (lookup key w.table.cache)) c.operation c.tuple c.written h
          (v.owned key c h)

    -- On a valid table `get` changes nothing and answers from the slot of its key: the pending
    -- tuple, else the one that was read, each by a pointer to a living tuple that holds it, else a
    -- request to storage. For a key with a pending deletion it throws `TupleExistsException`.
    pub get-Reads : Reads (spec_get (slot w key)) (get key w)
    get-Reads = get_any (lookup key w.table.changes) refl

    live_kept : (t u : T) (p : ℕ) → w.heap.cell p ≡ some u → (with_new w t).heap.cell p ≡ some u
    live_kept t u p l = ground (arith, v.fresh p)

    not_next : (u : T) (p : ℕ) → w.heap.cell p ≡ some u → w.heap.next ≢ p
    not_next u p l e = ground (arith, v.fresh p)

    -- On a valid table `addTuple` leaves a valid table, also when the key was read before.
    pub add_tuple-IsValid : (t : T) (newest : Bool) → IsValid (after (add_tuple key t newest w))
    unfolding add_tuple
    add_tuple-IsValid t newest = record {
      fresh = λ p h. ground (arith, v.fresh p);
      distinct = v.distinct;
      owned = λ k c l.
          Owned-moved w.heap.cell (with_new w t).heap.cell c.tuple c.operation
            (λ p u _ live. live_kept t u p live) (v.owned k c l);
      cached = λ k e l. elim (emplace_cases key k (w.heap.next, newest) e w.table.cache l) [
        | inl o ↦ let (u, live) = v.cached k e o in (u, live_kept t u e.0 live)
        | inr o ↦ (t, ground arith)
      ];
      apart = v.apart;
      apart_cache = λ j k c e l m et.
          elim (emplace_cases key k (w.heap.next, newest) e w.table.cache m) [
            | inl o ↦ v.apart_cache j k c e l o et
            | inr o ↦
                let (u, live) =
                  Owned-live w.heap.cell w.heap.cell c.tuple c.operation e.0 (v.owned j c l) et in
                not_next u e.0 live (ground arith)
          ];
    }

    base_after :
        (t : T) (newest : Bool) (j : ℕ) (oe : Option (ℕ × Bool))
        → lookup j w.table.cache ≡ oe
        → base_of (with_new w t).heap.cell (elim oe [
          | some x ↦ some x
          | none ↦ if key == j then some (w.heap.next, newest) else none
        ])
          ≡ elim (base_of w.heap.cell oe) [
            | none ↦ if key == j then some (some t, newest) else none
            | some e ↦ some e
          ]
    base_after t newest j none h = ground arith
    base_after t newest j (some e) h =
        let (u, live) = v.cached j e h in ground (arith, live_kept t u e.0 live)

    pending_after :
        (t : T) (j : ℕ) (oc : Option Change)
        → lookup j w.table.changes ≡ oc
        → pending_of (with_new w t).heap.cell oc ≡ pending_of w.heap.cell oc
    pending_after t j none h = refl
    pending_after t j (some c) h =
        ap (λ (a : Action T). some (a, c.written))
          (action_moved w.heap.cell (with_new w t).heap.cell c.tuple c.operation
            (λ p u _ live. live_kept t u p live) (v.owned j c h))

    -- On a valid table `addTuple` fills the slot of its key, where no tuple was read before, with
    -- the tuple and whether it is the newest version, and changes no other slot and no pending
    -- change.
    pub slot-add_tuple :
        (t : T) (newest : Bool) (j : ℕ)
        → slot (after (add_tuple key t newest w)) j ≡ record {
          base = elim (slot w j).base [
            | none ↦ if key == j then some (some t, newest) else none
            | some e ↦ some e
          ];
          pending = (slot w j).pending;
        }
    unfolding add_tuple
    slot-add_tuple t newest j = rw (lookup-emplace_any key j (w.heap.next, newest) w.table.cache) (
        rw (
          base_after t newest j (lookup j w.table.cache) refl,
          pending_after t j (lookup j w.table.changes) refl,
        ))
