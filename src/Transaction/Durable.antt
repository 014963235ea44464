-- ===== src/Transaction/Durable.antt =====
-- What a handler that commits leaves in storage (telldb/TellDB.hpp, src/Transaction.cpp).
use telldb.Base.{ℕ, ◌≡◌, refl, ap, ◌∙◌, List, Option, none, some, Bool, true, lookup, All, arith}
use telldb.Errors.{done, after}
use telldb.Index.{KeyOrder}
use telldb.Index.Tree.{BdTree}
use telldb.TableCache.State.{Change, World, TableCache}
use telldb.TableCache.Storage.{tuple_at, issue}
use telldb.TableCache.Stored.{StoreLaws, IsDue, DueAt, issue-IsDue}
use telldb.TableCache.Unwritten.{Unwritten, lookup-All, lookup-Unwritten}
use telldb.TableCache.Written.{AllWritten}
use telldb.Transaction.Commit.{
  Server, Transaction, commit, destroy, write_back_step, write_indexes_step,
}
use telldb.Transaction.Written.{TableWritten, commit-TableWritten}
use telldb.Transaction.Clean.{ServerLaws, Same, issue-Same}
use telldb.Transaction.Loop.{Keeps}
use telldb.Transaction.Steps.{after-write_back_step, after-write_indexes_step}
use telldb.Transaction.Through.{Stable, KeptOpen, commit_done}
use telldb.Transaction.Session.{Session, Call, transaction, run, exec, calls_then}
use telldb.Transaction.Exec.{
  IsReady, IsUntouched, run-IsReady, lookup-IsReady, lookup-map, map-Distinct,
}

module _ {S T K B V : Type 0} (server : Server S T) (laws : ServerLaws V server)
    (stores : (id : ℕ) → StoreLaws (server.storage id) (laws.table id))
    (tree_of : Bool → BdTree B K) (i : ℕ) (x : ℕ → V) where
  -- The table is on the way to the values `x`.
  abbrev pub IsOnTheWay : S → Option (World T K B) → Type 0
  IsOnTheWay s none = (j : ℕ) → (laws.table i).value s j ≡ x j
  IsOnTheWay s (some w) =
      IsDue (server.storage i) (laws.table i) (stores i) w.heap.cell x s w.table.changes

  due_moved :
      (o : Option Change) (cell : ℕ → Option T) (v v' y : V)
      → v' ≡ v
      → DueAt (server.storage i) (laws.table i) (stores i) cell o v y
      → DueAt (server.storage i) (laws.table i) (stores i) cell o v' y
  due_moved o cell v v' y e d = rw e d

  way-Same :
      (s s' : S) (o : Option (World T K B))
      → Same server laws i s s'
      → IsOnTheWay s o
      → IsOnTheWay s' o
  way-Same s s' none m p = λ j. (m j).0 ∙ p j
  way-Same s s' (some w) m p = (
    p.0,
    λ j.
        due_moved (lookup j w.table.changes) w.heap.cell ((laws.table i).value s j)
          ((laws.table i).value s' j) (x j) (m j).0 (p.1 j),
  )

  tables-Keeps : Keeps i IsOnTheWay (write_back_step server tree_of)
  tables-Keeps = record {
    key = λ s k w. rw (after-write_back_step server tree_of s k w) refl;
    other = λ s k w o ne p. rw (after-write_back_step server tree_of s k w) (
        way-Same s (issue (server.storage k) w.heap.cell s w.table.changes).0 o
          (issue-Same server laws i k w.heap.cell s w.table.changes ne) p);
    self = λ s k w same p. rw (after-write_back_step server tree_of s k w) (
        rw same (
          issue-IsDue (server.storage i) (laws.table i) (stores i) w.heap.cell x s w.table.changes
            p));
  }

  indexes-Keeps : Keeps i IsOnTheWay (write_indexes_step server tree_of)
  indexes-Keeps = record {
    key = λ s k w. rw ((after-write_indexes_step server tree_of s k w).1) refl;
    other = λ s k w o ne p. rw ((after-write_indexes_step server tree_of s k w).1) p;
    self = λ s k w same p. rw ((after-write_indexes_step server tree_of s k w).1) p;
  }

  way-Stable : Stable server tree_of i IsOnTheWay
  way-Stable = record {
    tables = tables-Keeps;
    indexes = indexes-Keeps;
    insert_log =
        λ s k v o. way-Same s (server.insert_log s k v) o (λ j. laws.insert_log_apart s i j k v);
    remove_log = λ s k o. way-Same s (server.remove_log s k) o (λ j. laws.remove_log_apart s i j k);
  }

  -- All is written: the table has arrived.
  arrived :
      (s : S) (ts : List (ℕ × World T K B)) (j : ℕ)
      → All (TableWritten server tree_of) ts
      → IsOnTheWay s (lookup i ts)
      → (laws.table i).value s j ≡ x j
  arrived s ts j a p = go (lookup i ts) refl p
    where
      due :
          (w : World T K B) (o : Option Change)
          → lookup j w.table.changes ≡ o
          → AllWritten w.table.changes
          → DueAt
              (server.storage i)
              (laws.table i)
              (stores i)
              w.heap.cell
              o
              ((laws.table i).value s j)
              (x j)
          → (laws.table i).value s j ≡ x j
      due w none e h d = d
      due w (some c) e h d = let f = h j c e in ground (arith, d, f)

      go :
          (o : Option (World T K B))
          → lookup i ts ≡ o
          → IsOnTheWay s o
          → (laws.table i).value s j ≡ x j
      go none e q = q j
      go (some w) e q =
          due w (lookup j w.table.changes) refl
            (lookup-All (λ (w : World T K B). AllWritten w.table.changes) i w ts a e) (q.1 j)

  commit_arrives :
      (undo_log : Bool → List (ℕ × World T K B) → List ℕ) (s : S) (t : Transaction T K B)
      (y : S × Transaction T K B) (j : ℕ)
      → commit server tree_of undo_log (s, t) ≡ done y tt
      → KeptOpen server tree_of i IsOnTheWay (s, t)
      → ((laws.table i).value y.0 j ≡ x j) × (y.1.committed ≡ true)
  commit_arrives undo_log s t y j h k =
      let (z, p, e, c) = commit_done server tree_of i IsOnTheWay way-Stable undo_log s t y h k in
      let all = commit-TableWritten server tree_of undo_log s y.0 t y.1 h in
      (
        ap (λ v. (laws.table i).value v j) e
            ∙ laws.end_value z i j
            ∙ arrived z y.1.tables j all.1 p.1,
        c,
      )

module _ {S T K B V : Type 0} (server : Server S T) (laws : ServerLaws V server)
    (stores : (id : ℕ) → StoreLaws (server.storage id) (laws.table id)) (order : KeyOrder K)
    (tree_of : Bool → BdTree B K) (undo_log : Bool → List (ℕ × World T K B) → List ℕ) where
  -- The value that a change gives to a key whose value was `v`.
  abbrev pub changed_value : ℕ → (ℕ → Option T) → V → Option Change → V
  changed_value i cell v none = v
  changed_value i cell v (some c) = (stores i).put c.operation (tuple_at cell c.tuple)

  abbrev pub table_value : ℕ → ℕ → (ℕ → Option T) → V → Option (TableCache T K B) → V
  table_value i j cell v none = v
  table_value i j cell v (some c) = changed_value i cell v (lookup j c.changes)

  -- The value that the transaction gives to a key of a table.
  abbrev pub final_value : ℕ → ℕ → S → Session T K B → V
  final_value i j s x =
      table_value i j x.heap.cell ((laws.table i).committed s j) (lookup i x.tables)

  ready-IsOnTheWay :
      (i : ℕ) (s : S) (x : Session T K B)
      → IsUntouched server laws order tree_of undo_log s
      → IsReady x
      → KeptOpen server tree_of i
          (IsOnTheWay server laws stores tree_of i (λ j. final_value i j s x))
          (s, transaction x)
  unfolding transaction
  ready-IsOnTheWay i s x h r = (
    r.0,
    (
      map-Distinct {C = World T K B} (λ (c : TableCache T K B). record { heap = x.heap; table = c })
          x.tables r.1,
      rw
          (lookup-map {C = World T K B}
            (λ (c : TableCache T K B). record { heap = x.heap; table = c }) i x.tables)
          (go (lookup i x.tables) refl),
    ),
  )
    where
      due :
          (c : TableCache T K B) (j : ℕ) (o : Option Change)
          → lookup j c.changes ≡ o
          → Unwritten c.changes
          → DueAt
              (server.storage i)
              (laws.table i)
              (stores i)
              x.heap.cell
              o
              ((laws.table i).value s j)
              (changed_value i x.heap.cell ((laws.table i).committed s j) o)
      due c j none e u = h i j
      due c j (some d) e u = rw (lookup-Unwritten j d c.changes u e) refl

      go :
          (o : Option (TableCache T K B))
          → lookup i x.tables ≡ o
          → IsOnTheWay server laws stores tree_of i
              (λ j. table_value i j x.heap.cell ((laws.table i).committed s j) o)
              s
              (elim o as (λ _. Option (World T K B)) [
                | none ↦ none
                | some c ↦ some (record { heap = x.heap; table = c })
              ])
      go none e = h i
      go (some c) e =
          let u = lookup-IsReady i c x r e in (u.1, λ j. due c j (lookup j c.changes) refl u)

  -- On a transaction that has nothing in storage a handler makes calls on tuples, also after calls
  -- that threw, and then its only commit, which returns. Then the destructor returns, and every key
  -- that has a change in the end has the value that this change gives it, and every other key of
  -- every table has the value that it has without the transaction.
  pub exec-Durable :
      (s : S) (session : Session T K B) (calls : List (Call T K B)) (y : S × Transaction T K B)
      → IsUntouched server laws order tree_of undo_log s
      → IsReady session
      → commit server tree_of undo_log (s, transaction (run order calls session)) ≡ done y tt
      → (exec server order tree_of undo_log
            (calls_then server order tree_of undo_log calls true)
            (s, session)
          ≡ done y tt)
        × ((i j : ℕ) → (laws.table i).value y.0 j ≡ final_value i j s (run order calls session))
  unfolding exec calls_then
  exec-Durable s session calls y h r q = ((go 0 0).1, λ i j. (go i j).0)
    where
      x : Session T K B
      x = run order calls session

      go :
          (i j : ℕ)
          → ((laws.table i).value y.0 j ≡ final_value i j s x)
            × (destroy server tree_of (after (commit server tree_of undo_log (s, transaction x)))
                ≡ done y tt)
      go i j =
          let k = ready-IsOnTheWay i s x h (run-IsReady order calls session r) in
          let a =
            commit_arrives server laws stores tree_of i (λ j. final_value i j s x) undo_log s
              (transaction x) y j q k in
          (a.0, rw q (rw (a.1, destroy) refl))
