-- ===== src/Transaction/Session.antt =====
-- The calls that the code of a transaction makes on tuples: `TransactionCache` (src/TransactionCache.cpp)
-- hands them to the table (src/TableCache.cpp). `exec` (telldb/TellDB.hpp) runs a handler on a
-- transaction, which its destructor ends. The tables share the memory pool of the transaction.

use telldb.Base.{ℕ, List, [], ◌∷◌, map, none, some, Bool, lookup, emplace, assign, if◌then◌else◌}
use telldb.Errors.{Outcome, done, raise, Method, after, out_of_range}
use telldb.Index.{KeyOrder, IndexWrapper}
use telldb.Index.Tree.{BdTree}
use telldb.TableCache.State.{Heap, TableCache, World, Future}
use telldb.TableCache.Ops as Table
use telldb.TableCache.Futures.{Response, future_get}
use telldb.TableCache.Memory as Memory
use telldb.Transaction.Commit.{Server, Transaction, TransactionType, destroy, commit}

pub record Session (T K B : Type 0) : Type 0 where
  pub heap : Heap T
  pub committed : Bool
  pub kind : TransactionType
  pub version : ℕ
  pub tables : List (ℕ × TableCache T K B)

module _ {T K B : Type 0} where
  -- The transaction as its commit and its rollback see it.
  unfoldable pub transaction : Session T K B → Transaction T K B
  transaction s = record {
    committed = s.committed;
    kind = s.kind;
    version = s.version;
    tables = map (λ a. (a.0, record { heap = s.heap; table = a.1 })) s.tables;
  }

  abbrev pub put_table :
      {A : Type 0} → ℕ → Session T K B → Outcome (World T K B) A → Outcome (Session T K B) A
  put_table id s (done w a) =
      done (record s { heap = w.heap; tables = assign id w.table s.tables }) a
  put_table id s (raise w e) =
      raise (record s { heap = w.heap; tables = assign id w.table s.tables }) e

  -- `mTables.at(table)`, and the call on the table.
  unfoldable pub on_table : {A : Type 0} → ℕ → Method (World T K B) A → Method (Session T K B) A
  on_table id f s = elim (lookup id s.tables) [
    | none ↦ raise s out_of_range
    | some c ↦ put_table id s (f (record { heap = s.heap; table = c }))
  ]

  -- `mTables.emplace` of a new table cache.
  unfoldable pub add_table : ℕ → List (IndexWrapper T K B) → Session T K B → Session T K B
  add_table id indexes s = record s {
    tables = emplace id (record { cache = []; changes = []; indexes = indexes }) s.tables;
  }

  -- `newTuple`, or a tuple that the handler copies into the pool.
  unfoldable pub new_tuple : T → Session T K B → Session T K B
  new_tuple t s = record s {
    heap =
        (Memory.with_new {K = K} {B = B}
          (record { heap = s.heap; table = record { cache = []; changes = []; indexes = [] } })
          t).heap;
  }

-- A call, with what storage answers where the call waits for it.
pub data Call (T K B : Type 0) : Type 0 where
  open_table : ℕ → List (IndexWrapper T K B) → Call T K B
  create_tuple : T → Call T K B
  get_tuple : ℕ → ℕ → Call T K B
  receive_tuple : ℕ → Response T → Future → Call T K B
  insert_tuple : ℕ → ℕ → ℕ → Call T K B
  update_tuple : ℕ → ℕ → ℕ → ℕ → Call T K B
  remove_tuple : ℕ → ℕ → ℕ → Call T K B

module _ {T K B : Type 0} (order : KeyOrder K) where
  unfoldable pub get : ℕ → ℕ → Method (Session T K B) Future
  unfolding on_table
  get table key = on_table table (Table.get key)

  -- `get` of the future, when the answer has come.
  unfoldable pub receive : ℕ → Response T → Future → Method (Session T K B) Future
  unfolding on_table
  receive table response future = on_table table (future_get response future)

  unfoldable pub insert : ℕ → ℕ → ℕ → Method (Session T K B) (Unit {0})
  unfolding on_table
  insert table key tuple = on_table table (Table.insert order key tuple)

  unfoldable pub update : ℕ → ℕ → ℕ → ℕ → Method (Session T K B) (Unit {0})
  unfolding on_table
  update table key from to = on_table table (Table.update order key from to)

  unfoldable pub remove : ℕ → ℕ → ℕ → Method (Session T K B) (Unit {0})
  unfolding on_table
  remove table key tuple = on_table table (Table.remove order key tuple)

  -- The transaction after a call, also after one that threw and whose exception the handler caught.
  unfoldable pub perform : Call T K B → Session T K B → Session T K B
  unfolding add_table new_tuple get receive insert update remove
  perform (open_table table indexes) s = add_table table indexes s
  perform (create_tuple t) s = new_tuple t s
  perform (get_tuple table key) s = after (get table key s)
  perform (receive_tuple table response future) s = after (receive table response future s)
  perform (insert_tuple table key tuple) s = after (insert table key tuple s)
  perform (update_tuple table key from to) s = after (update table key from to s)
  perform (remove_tuple table key tuple) s = after (remove table key tuple s)

  unfoldable pub run : List (Call T K B) → Session T K B → Session T K B
  unfolding perform
  run [] s = s
  run (c ∷ cs) s = run cs (perform c s)

module _ {S T K B : Type 0} (server : Server S T) (order : KeyOrder K) (tree_of : Bool → BdTree B K)
    (undo_log : Bool → List (ℕ × World T K B) → List ℕ) where
  -- `exec`: any handler. It leaves the transaction, perhaps by a throw, which is caught, after the
  -- destructor.
  unfoldable pub exec :
      (S × Session T K B → Outcome (S × Transaction T K B) (Unit {0}))
      → S × Session T K B
      → Outcome (S × Transaction T K B) (Unit {0})
  unfolding destroy
  exec handler x = destroy server tree_of (after (handler x))

  -- The handlers that make calls, go on after those that throw, and at most commit, as the last.
  unfoldable pub calls_then :
      List (Call T K B) → Bool → S × Session T K B → Outcome (S × Transaction T K B) (Unit {0})
  unfolding run transaction commit
  calls_then calls commits (s, session) =
      let t = transaction (run order calls session) in
      if commits then commit server tree_of undo_log (s, t) else done (s, t) tt
