-- ===== src/TableCache/Calls.antt =====
-- The operations on tuples only note changes (src/TableCache.cpp): until a commit, none is written.
use telldb.Base.{
  ℕ, ◌≡◌, ◌≢◌, refl, sym, ap, subst, ◌∙◌, List, none, some, false, lookup, emplace, assign, erase,
  arith, Option-cases, inl, inr,
}
use telldb.Errors.{done, ◌>>=◌, ◌>>◌, after}
use telldb.Index.{KeyOrder, index_update}
use telldb.TableCache.State.{Operation, Change, World, Future, ready, remote}
use telldb.TableCache.Futures.{Response, found, not_found, failed, future_get}
use telldb.TableCache.Memory.{deref, new_tuple, delete_tuple}
use telldb.TableCache.Ops as Table
use telldb.TableCache.Ops.{
  set_changes, for_indexes, each_index, check_newest, insert_new, insert_over, insert_change,
  update_new, update_over, update_change, remove_new, remove_over, remove_change, get_changed,
  get_cached,
}
use telldb.TableCache.Unwritten.{
  Unwritten, emplace-Unwritten, assign-Unwritten, erase-Unwritten, lookup-Unwritten, Still,
  LeavesUnwritten, bind-LeavesUnwritten, then_Still, new_tuple-Still, delete_tuple-Still,
  check_newest-Still, each_index-Still,
}

module _ {T K B : Type 0} where
  set_changes-LeavesUnwritten :
      (f : List (ℕ × Change) → List (ℕ × Change)) (w : World T K B)
      → (Unwritten w.table.changes → Unwritten (f w.table.changes))
      → LeavesUnwritten (set_changes f) w
  unfolding set_changes
  set_changes-LeavesUnwritten f w h u = h u

  -- A change of a key that has none.
  emplaced :
      (k : ℕ) (c : Change) (v w : World T K B)
      → v.table.changes ≡ w.table.changes
      → lookup k w.table.changes ≡ none
      → c.written ≡ false
      → LeavesUnwritten (set_changes {T = T} {K = K} {B = B} (emplace k c)) v
  emplaced k c v w e l h =
      set_changes-LeavesUnwritten (emplace k c) v
        (emplace-Unwritten k c v.table.changes (ap (lookup k) e ∙ l) h)

  insert_new-LeavesUnwritten :
      (k r : ℕ) (w : World T K B)
      → lookup k w.table.changes ≡ none
      → LeavesUnwritten (insert_new k r) w
  unfolding insert_new
  insert_new-LeavesUnwritten k r w l = elim (Option-cases (lookup k w.table.cache)) [
    | inr (e, q) ↦ λ u. rw (q, insert_new) u
    | inl q ↦
        rw (q, insert_new)
          (bind-LeavesUnwritten (new_tuple r) _ w (new_tuple-Still r)
            (λ p v e. emplaced k _ v w e l refl))
  ]

  -- A change of a key that has one.
  assigned :
      (k : ℕ) (c : Change) (v : World T K B)
      → c.written ≡ false
      → LeavesUnwritten (set_changes {T = T} {K = K} {B = B} (assign k c)) v
  assigned k c v h =
      set_changes-LeavesUnwritten (assign k c) v (assign-Unwritten k c v.table.changes h)

  insert_over-LeavesUnwritten :
      (k r : ℕ) (c : Change) (w : World T K B)
      → c.written ≡ false
      → LeavesUnwritten (insert_over k r c) w
  unfolding insert_over
  insert_over-LeavesUnwritten k r c w h = go c.operation refl
    where
      go : (op : Operation) → c.operation ≡ op → LeavesUnwritten (insert_over k r c) w
      go Operation.deletion e =
          rw (e, insert_over)
            (bind-LeavesUnwritten (new_tuple r) _ w (new_tuple-Still r) (λ p v q. assigned k _ v h))
      go Operation.insertion e = λ u. rw (e, insert_over) u
      go Operation.update e = λ u. rw (e, insert_over) u

  update_over-LeavesUnwritten :
      (k r : ℕ) (c : Change) (w : World T K B)
      → c.written ≡ false
      → LeavesUnwritten (update_over k r c) w
  unfolding update_over
  update_over-LeavesUnwritten k r c w h = go c.operation refl
    where
      replaced :
          LeavesUnwritten
            (do
              delete_tuple c.tuple
              p ← new_tuple r
              set_changes (assign k (record c { tuple = some p })))
            w
      replaced =
          bind-LeavesUnwritten (delete_tuple c.tuple) _ w (delete_tuple-Still c.tuple) (λ u v q.
            bind-LeavesUnwritten (new_tuple r) _ v (new_tuple-Still r) (λ p x q'. assigned k _ x h))

      go : (op : Operation) → c.operation ≡ op → LeavesUnwritten (update_over k r c) w
      go Operation.deletion e = λ u. rw (e, update_over) u
      go Operation.insertion e = rw (e, update_over) replaced
      go Operation.update e = rw (e, update_over) replaced

  update_new-LeavesUnwritten :
      (k r : ℕ) (w : World T K B)
      → lookup k w.table.changes ≡ none
      → LeavesUnwritten (update_new k r) w
  unfolding update_new
  update_new-LeavesUnwritten k r w l =
      bind-LeavesUnwritten (check_newest k) _ w (check_newest-Still k) (λ u v q.
        bind-LeavesUnwritten (new_tuple r) _ v (new_tuple-Still r)
          (λ p x q'. emplaced k _ x w (q' ∙ q) l refl))

  remove_over-LeavesUnwritten :
      (k : ℕ) (c : Change) (w : World T K B)
      → c.written ≡ false
      → LeavesUnwritten (remove_over k c) w
  unfolding remove_over
  remove_over-LeavesUnwritten k c w h = go c.operation refl
    where
      go : (op : Operation) → c.operation ≡ op → LeavesUnwritten (remove_over k c) w
      go Operation.deletion e = λ u. rw (e, remove_over) u
      go Operation.insertion e =
          rw (e, remove_over)
            (bind-LeavesUnwritten (delete_tuple c.tuple) _ w (delete_tuple-Still c.tuple) (λ p v q.
              set_changes-LeavesUnwritten (erase k) v (erase-Unwritten k v.table.changes)))
      go Operation.update e =
          rw (e, remove_over)
            (bind-LeavesUnwritten (delete_tuple c.tuple) _ w (delete_tuple-Still c.tuple)
              (λ p v q. assigned k _ v h))

  remove_new-LeavesUnwritten :
      (k : ℕ) (w : World T K B) → lookup k w.table.changes ≡ none → LeavesUnwritten (remove_new k) w
  unfolding remove_new
  remove_new-LeavesUnwritten k w l =
      bind-LeavesUnwritten (check_newest k) _ w (check_newest-Still k)
        (λ u v q. emplaced k _ v w q l refl)

  -- `insert`, `update` and `remove` of a table, on every branch.
  insert_change-LeavesUnwritten :
      (k r : ℕ) (w : World T K B) → LeavesUnwritten (insert_change k r) w
  unfolding insert_change
  insert_change-LeavesUnwritten k r w u = elim (Option-cases (lookup k w.table.changes)) [
    | inl e ↦ rw (e, insert_change) (insert_new-LeavesUnwritten k r w e u)
    | inr (c, e) ↦
        rw (e, insert_change)
          (insert_over-LeavesUnwritten k r c w (lookup-Unwritten k c w.table.changes u e) u)
  ]

  update_change-LeavesUnwritten :
      (k r : ℕ) (w : World T K B) → LeavesUnwritten (update_change k r) w
  unfolding update_change
  update_change-LeavesUnwritten k r w u = elim (Option-cases (lookup k w.table.changes)) [
    | inl e ↦ rw (e, update_change) (update_new-LeavesUnwritten k r w e u)
    | inr (c, e) ↦
        rw (e, update_change)
          (update_over-LeavesUnwritten k r c w (lookup-Unwritten k c w.table.changes u e) u)
  ]

  remove_change-LeavesUnwritten : (k : ℕ) (w : World T K B) → LeavesUnwritten (remove_change k) w
  unfolding remove_change
  remove_change-LeavesUnwritten k w u = elim (Option-cases (lookup k w.table.changes)) [
    | inl e ↦ rw (e, remove_change) (remove_new-LeavesUnwritten k w e u)
    | inr (c, e) ↦
        rw (e, remove_change)
          (remove_over-LeavesUnwritten k c w (lookup-Unwritten k c w.table.changes u e) u)
  ]

  get_changed-Still : (k : ℕ) (c : Change) → Still (get_changed {T = T} {K = K} {B = B} k c)
  unfolding get_changed
  get_changed-Still k c w = go c.operation refl
    where
      held :
          (op : Operation)
          → c.operation ≡ op
          → op ≢ Operation.deletion
          → (after (get_changed k c w)).table.changes ≡ w.table.changes
      held op e ne = elim (Option-cases c.tuple) [
        | inl q ↦ ground (arith, e, q)
        | inr (p, q) ↦ ground (arith, e, q)
      ]

      go :
          (op : Operation)
          → c.operation ≡ op
          → (after (get_changed k c w)).table.changes ≡ w.table.changes
      go Operation.deletion e = rw (e, get_changed) refl
      go Operation.insertion e = held Operation.insertion e (ground arith)
      go Operation.update e = held Operation.update e (ground arith)

  pub get-LeavesUnwritten : (k : ℕ) (w : World T K B) → LeavesUnwritten (Table.get k) w
  unfolding Table.get get_cached
  get-LeavesUnwritten k w u = elim (Option-cases (lookup k w.table.changes)) [
    | inr (c, e) ↦ rw (e, Table.get) (subst Unwritten (sym (get_changed-Still k c w)) u)
    | inl e ↦ elim (Option-cases (lookup k w.table.cache)) [
      | inl q ↦ rw (e, q, Table.get, get_cached) u
      | inr (x, q) ↦ rw (e, q, Table.get, get_cached) u
    ]
  ]

  pub future_get-LeavesUnwritten :
      (o : Response T) (f : Future) (w : World T K B) → LeavesUnwritten (future_get o f) w
  unfolding future_get Table.add_tuple
  future_get-LeavesUnwritten o (ready k p) w u = u
  future_get-LeavesUnwritten not_found (remote k) w u = u
  future_get-LeavesUnwritten (failed e) (remote k) w u = u
  future_get-LeavesUnwritten (found t newest) (remote k) w u = u

module _ {T K B : Type 0} (order : KeyOrder K) where
  pub insert-LeavesUnwritten :
      (k r : ℕ) (w : World T K B) → LeavesUnwritten (Table.insert order k r) w
  unfolding Table.insert
  insert-LeavesUnwritten k r w =
      then_Still (insert_change k r) _ w (insert_change-LeavesUnwritten k r w)
        (λ u. each_index-Still (deref r) _)

  pub update-LeavesUnwritten :
      (k from to : ℕ) (w : World T K B) → LeavesUnwritten (Table.update order k from to) w
  unfolding Table.update
  update-LeavesUnwritten k from to w =
      then_Still (update_change k to) _ w (update_change-LeavesUnwritten k to w) (λ u.
        each_index-Still {A = T × T} (do a ← deref from; b ← deref to; λ w. done w (a, b))
          (λ (ts : T × T). index_update order k ts.0 ts.1))

  pub remove-LeavesUnwritten :
      (k r : ℕ) (w : World T K B) → LeavesUnwritten (Table.remove order k r) w
  unfolding Table.remove
  remove-LeavesUnwritten k r w =
      then_Still (remove_change k) _ w (remove_change-LeavesUnwritten k w)
        (λ u. each_index-Still (deref r) _)
