-- ===== src/Transaction/Exec.antt =====
-- What a handler that `exec` runs leaves in storage (telldb/TellDB.hpp).
use telldb.Base.{
  emplace_any-Distinct, ℕ, ◌≡◌, refl, sym, ap, subst, ◌∙◌, List, [], ◌∷◌, map, Option, none, some,
  Bool, true, false, Option-cases, ◌⊎◌, inl, inr, lookup, assign-Distinct, Distinct, arith,
}
use telldb.Errors.{Error, Outcome, done, raise, after, Method}
use telldb.Index.{KeyOrder}
use telldb.Index.Tree.{BdTree}
use telldb.TableCache.State.{World, TableCache}
use telldb.TableCache.Futures.{future_get}
use telldb.TableCache.Ops as Table
use telldb.TableCache.Unwritten.{
  Unwritten, AllValues, lookup-All, All-emplace, All-assign, LeavesUnwritten,
}
use telldb.TableCache.Calls.{
  get-LeavesUnwritten, future_get-LeavesUnwritten, insert-LeavesUnwritten, update-LeavesUnwritten,
  remove-LeavesUnwritten,
}
use telldb.Transaction.Commit.{Server, Transaction, commit, destroy}
use telldb.Transaction.Clean.{ServerLaws, CleanTable, Kept}
use telldb.Transaction.Atomic.{Kept-Stable, Ends, destroy_lem}
use telldb.Transaction.Through.{KeptOpen, commit-KeptOpen}
use telldb.Transaction.Session.{
  Session, Call, open_table, create_tuple, get_tuple, receive_tuple, insert_tuple, update_tuple,
  remove_tuple, transaction, put_table, on_table, add_table, new_tuple, get, receive, insert,
  update, remove, perform, run, exec, calls_then,
}

module _ {A C : Type 0} (g : A → C) where
  pub lookup-map :
      (k : ℕ) (m : List (ℕ × A))
      → lookup k (map (λ a. (a.0, g a.1)) m)
        ≡ elim (lookup k m) [ none ↦ none | some x ↦ some (g x) ]
  unfolding lookup
  lookup-map k [] = refl
  lookup-map k ((j, x) ∷ m) = ground (arith, lookup-map k m)

  pub map-Distinct : (m : List (ℕ × A)) → Distinct m → Distinct (map (λ a. (a.0, g a.1)) m)
  map-Distinct [] d = tt
  map-Distinct ((j, x) ∷ m) d = (
    lookup-map j m ∙ ap (λ o. elim o [ none ↦ none | some x ↦ some (g x) ]) d.0,
    map-Distinct m d.1,
  )

module _ {T K B : Type 0} where
  -- The transaction is open, no table is there twice, and no change is written.
  abbrev pub IsReady : Session T K B → Type 0
  IsReady s =
      (s.committed ≡ false)
      × Distinct s.tables
      × AllValues (λ (c : TableCache T K B). Unwritten c.changes) s.tables

  pub lookup-IsReady :
      (k : ℕ) (c : TableCache T K B) (s : Session T K B)
      → IsReady s
      → lookup k s.tables ≡ some c
      → Unwritten c.changes
  lookup-IsReady k c s r l =
      lookup-All (λ (c : TableCache T K B). Unwritten c.changes) k c s.tables r.2 l

  on_table-IsReady :
      {A : Type 0} (id : ℕ) (f : Method (World T K B) A) (s : Session T K B)
      → ((w : World T K B) → LeavesUnwritten f w)
      → IsReady s
      → IsReady (after (on_table id f s))
  unfolding on_table
  on_table-IsReady {A = A} id f s h r = elim (Option-cases (lookup id s.tables)) [
    | inl e ↦ rw (e, on_table) r
    | inr (c, e) ↦
        let w : World T K B = record { heap = s.heap; table = c } in
        rw (e, on_table) (go (f w) (h w (lookup-IsReady id c s r e)))
  ]
    where
      go :
          (o : Outcome (World T K B) A)
          → Unwritten (after o).table.changes
          → IsReady (after (put_table id s o))
      go (done w a) u = (
        r.0,
        assign-Distinct id w.table s.tables r.1,
        All-assign (λ (c : TableCache T K B). Unwritten c.changes) id w.table s.tables r.2 u,
      )
      go (raise w e) u = (
        r.0,
        assign-Distinct id w.table s.tables r.1,
        All-assign (λ (c : TableCache T K B). Unwritten c.changes) id w.table s.tables r.2 u,
      )

module _ {T K B : Type 0} (order : KeyOrder K) where
  perform-IsReady : (c : Call T K B) (s : Session T K B) → IsReady s → IsReady (perform order c s)
  unfolding perform add_table new_tuple get receive insert update remove
  perform-IsReady (open_table id is) s r = (
    r.0,
    emplace_any-Distinct id (record { cache = []; changes = []; indexes = is }) s.tables r.1,
    All-emplace (λ (c : TableCache T K B). Unwritten c.changes) id
        (record { cache = []; changes = []; indexes = is }) s.tables r.2 (tt, tt),
  )
  perform-IsReady (create_tuple t) s r = r
  perform-IsReady (get_tuple id k) s r =
      on_table-IsReady id (Table.get k) s (get-LeavesUnwritten k) r
  perform-IsReady (receive_tuple id o f) s r =
      on_table-IsReady id (future_get o f) s (future_get-LeavesUnwritten o f) r
  perform-IsReady (insert_tuple id k p) s r =
      on_table-IsReady id (Table.insert order k p) s (insert-LeavesUnwritten order k p) r
  perform-IsReady (update_tuple id k from to) s r =
      on_table-IsReady id (Table.update order k from to) s (update-LeavesUnwritten order k from to)
        r
  perform-IsReady (remove_tuple id k p) s r =
      on_table-IsReady id (Table.remove order k p) s (remove-LeavesUnwritten order k p) r

  pub run-IsReady :
      (cs : List (Call T K B)) (s : Session T K B) → IsReady s → IsReady (run order cs s)
  unfolding run
  run-IsReady [] s r = r
  run-IsReady (c ∷ cs) s r = run-IsReady cs (perform order c s) (perform-IsReady c s r)

module _ {S T K B V : Type 0} (server : Server S T) (laws : ServerLaws V server)
    (order : KeyOrder K) (tree_of : Bool → BdTree B K)
    (undo_log : Bool → List (ℕ × World T K B) → List ℕ) where
  -- Storage has nothing of the transaction.
  abbrev pub IsUntouched : S → Type 0
  IsUntouched s = (i j : ℕ) → (laws.table i).value s j ≡ (laws.table i).committed s j

  untouched-CleanTable :
      (i : ℕ) (s : S) (o : Option (World T K B)) → IsUntouched s → CleanTable server laws i s o
  untouched-CleanTable i s none h = h i
  untouched-CleanTable i s (some w) h = record {
    none_clean = λ j l. h i j;
    unwritten_clean = λ j c l n. h i j;
  }

  untouched-KeptOpen :
      (i : ℕ) (s : S) (session : Session T K B)
      → IsUntouched s
      → IsReady session
      → KeptOpen server tree_of i
          (Kept server laws i (λ j. (laws.table i).committed s j))
          (s, transaction session)
  unfolding transaction
  untouched-KeptOpen i s session h r = (
    r.0,
    (
      map-Distinct (λ (c : TableCache T K B). record { heap = session.heap; table = c })
          session.tables r.1,
      (untouched-CleanTable i s (lookup i (transaction session).tables) h, λ j. refl),
    ),
  )

  -- On a transaction that has nothing in storage a handler makes calls on tuples, on however many
  -- tables, also after calls that threw, and at most one commit, as its last call. If it does not
  -- commit, or if the commit throws, then the destructor returns and every key of every table has
  -- the value that it has without the transaction, or an assertion fails in the destructor and
  -- the server has refused to revert a key.
  pub exec-Atomic :
      (s : S) (session : Session T K B) (calls : List (Call T K B)) (commits : Bool)
      → IsUntouched s
      → IsReady session
      → ((commits ≡ false)
          ⊎ ((y : S × Transaction T K B) × (e : Error) × (commit server tree_of undo_log
                  (s, transaction (run order calls session))
                ≡ raise y e)))
      → (i j : ℕ)
      → Ends server laws tree_of i
          (λ (y : S × Transaction T K B). (laws.table i).value y.0 j ≡ (laws.table i).committed s j)
          (exec server order tree_of undo_log
            (calls_then server order tree_of undo_log calls commits)
            (s, session))
  unfolding exec calls_then
  exec-Atomic s session calls false h r f i j =
      let x = run order calls session in
      destroy_lem server laws tree_of i (λ j. (laws.table i).committed s j) s (transaction x) j
        (untouched-KeptOpen i s x h (run-IsReady order calls session r))
  exec-Atomic s session calls true h r (inl e) i j = absurd (ground arith)
  exec-Atomic s session calls true h r (inr (y, e, q)) i j =
      let x = run order calls session in
      let k = untouched-KeptOpen i s x h (run-IsReady order calls session r) in
      let c : ℕ → V = λ j. (laws.table i).committed s j in
      subst
        (λ (o : Outcome (S × Transaction T K B) (Unit {0})).
          Ends server laws tree_of i
            (λ (y : S × Transaction T K B). (laws.table i).value y.0 j ≡ c j)
            (destroy server tree_of (after o)))
        (sym q)
        (destroy_lem server laws tree_of i c y.0 y.1 j (
          commit-KeptOpen server tree_of i (Kept server laws i c)
            (Kept-Stable server laws tree_of i c) undo_log s (transaction x) y e q k))
