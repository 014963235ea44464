-- ===== src/Transaction/Commit.antt =====
-- `commit`, `rollback` and the destructor of `Transaction` (src/Transaction.cpp), with the loops of
-- `TransactionCache` over the tables (src/TransactionCache.cpp). A table here has its tuples with
-- it: the loops only read them. The serialized undo log and the server's answers are parameters.
use telldb.Base.{ℕ, List, [], ◌∷◌, Bool, true, false, not, if◌then◌else◌, length}
use telldb.Errors.{ok, err, Outcome, done, raise, logic_error}
use telldb.Index.{IndexWrapper}
use telldb.Index.Tree.{BdTree}
use telldb.Index.WriteBack as Index
use telldb.TableCache.State.{World}
use telldb.TableCache.Storage as Table
use telldb.TableCache.Storage.{Storage}
use telldb.Transaction.UndoLog.{write_undo_log, remove_undo_log}

-- `store::TransactionType`
pub data TransactionType : Type 0 where
  read_write read_only analytical : TransactionType

-- The requests of a transaction: those to the tables, the insertion and the removal of a part of
-- an undo log, and the end of the transaction.
pub record Server (S T : Type 0) : Type 0 where
  pub storage : ℕ → Storage S T
  pub insert_log : S → ℕ → List ℕ → S
  pub remove_log : S → ℕ → S
  pub end : S → S

pub record Transaction (T K B : Type 0) : Type 0 where
  pub committed : Bool
  pub kind : TransactionType
  pub version : ℕ
  pub tables : List (ℕ × World T K B)

-- A loop with side effects on a state and on what it goes through; an exception ends it.
module _ {S A : Type 0} where
  abbrev pub put_first : A → Outcome (S × List A) (Unit {0}) → Outcome (S × List A) (Unit {0})
  put_first a (done s u) = done (s.0, a ∷ s.1) tt
  put_first a (raise s e) = raise (s.0, a ∷ s.1) e

  unfoldable pub each :
      (S × A → Outcome (S × A) (Unit {0})) → S → List A → Outcome (S × List A) (Unit {0})
  each f s [] = done (s, []) tt
  each f s (a ∷ rest) = elim (f (s, a)) [
    | raise x e ↦ raise (x.0, x.1 ∷ rest) e
    | done x u ↦ put_first x.1 (each f x.0 rest)
  ]

module _ {S T K B : Type 0} (server : Server S T) (tree_of : Bool → BdTree B K) where
  -- One index, and one table, in the loops.
  abbrev pub index_step : S × IndexWrapper T K B → Outcome (S × IndexWrapper T K B) (Unit {0})
  index_step x = elim (Index.write_back (tree_of x.1.unique) x.1) [
    | done i u ↦ done (x.0, i) tt
    | raise i e ↦ raise (x.0, i) e
  ]

  abbrev pub replace_indexes : ℕ × World T K B → List (IndexWrapper T K B) → ℕ × World T K B
  replace_indexes a is = (a.0, record a.1 { table = record a.1.table { indexes = is } })

  -- `TableCache::writeIndexes`
  unfoldable pub write_indexes_step :
      S × (ℕ × World T K B) → Outcome (S × (ℕ × World T K B)) (Unit {0})
  unfolding each
  write_indexes_step x = elim (each index_step x.0 x.1.1.table.indexes) [
    | done y u ↦ done (y.0, replace_indexes x.1 y.1) tt
    | raise y e ↦ raise (y.0, replace_indexes x.1 y.1) e
  ]

  unfoldable pub write_back_step :
      S × (ℕ × World T K B) → Outcome (S × (ℕ × World T K B)) (Unit {0})
  write_back_step x = elim (Table.write_back (server.storage x.1.0) (x.0, x.1.1)) [
    | done y u ↦ done (y.0, (x.1.0, y.1)) tt
    | raise y e ↦ raise (y.0, (x.1.0, y.1)) e
  ]

  -- `TransactionCache::rollback`
  unfoldable pub rollback_tables : S → List (ℕ × World T K B) → Outcome S (Unit {0})
  rollback_tables s [] = done s tt
  rollback_tables s ((k, w) ∷ ts) = elim (Table.rollback (server.storage k) (s, w)) [
    | raise y e ↦ raise y.0 e
    | done y u ↦ rollback_tables y.0 ts
  ]

  -- `TransactionCache::hasChanges`
  unfoldable pub has_changes : List (ℕ × World T K B) → Bool
  has_changes [] = false
  has_changes ((k, w) ∷ ts) = elim w.table.changes [ [] ↦ has_changes ts | _ ↦ true ]

  abbrev pub insert_parts : S → List (ℕ × List ℕ) → S
  insert_parts s [] = s
  insert_parts s ((k, v) ∷ rs) = insert_parts (server.insert_log s k v) rs

  abbrev pub remove_parts : S → List ℕ → S
  remove_parts s [] = s
  remove_parts s (k ∷ ks) = remove_parts (server.remove_log s k) ks

  abbrev pub with_tables : Transaction T K B → S × List (ℕ × World T K B) → S × Transaction T K B
  with_tables t x = (x.0, record t { tables = x.1 })

  -- `mCache->writeBack` and `mCache->writeIndexes`.
  unfoldable pub write_tables :
      Bool → S → List (ℕ × World T K B) → Outcome (S × List (ℕ × World T K B)) (Unit {0})
  unfolding each write_back_step write_indexes_step
  write_tables with_indexes s ts = elim (each write_back_step s ts) [
    | raise x e ↦ raise x e
    | done x u ↦ if with_indexes then each write_indexes_step x.0 x.1 else done x tt
  ]

  module _ (undo_log : Bool → List (ℕ × World T K B) → List ℕ) where
    -- `removeUndoLog`
    unfoldable pub remove_step :
        Transaction T K B
        → List ℕ
        → S × List (ℕ × World T K B)
        → Outcome (S × Transaction T K B) (Unit {0})
    unfolding remove_undo_log
    remove_step t log x = elim (remove_undo_log t.version (length log)) [
      | err e ↦ raise (with_tables t x) e
      | ok ks ↦ done (with_tables t (remove_parts x.0 ks, x.1)) tt
    ]

    abbrev pub after_tables :
        Transaction T K B
        → List ℕ
        → Outcome (S × List (ℕ × World T K B)) (Unit {0})
        → Outcome (S × Transaction T K B) (Unit {0})
    after_tables t log (raise x e) = raise (with_tables t x) e
    after_tables t log (done x u) = remove_step t log x

    -- `writeBack`, once there is something to write.
    unfoldable pub write_logged :
        Bool → S × Transaction T K B → Outcome (S × Transaction T K B) (Unit {0})
    unfolding write_undo_log write_tables remove_step
    write_logged with_indexes (s, t) =
        let log = undo_log with_indexes t.tables in
        elim (write_undo_log t.version log) [
          | err e ↦ raise (s, t) e
          | ok rs ↦ after_tables t log (write_tables with_indexes (insert_parts s rs) t.tables)
        ]

    unfoldable pub write_back :
        Bool → S × Transaction T K B → Outcome (S × Transaction T K B) (Unit {0})
    unfolding write_logged has_changes
    write_back with_indexes (s, t) =
        if t.committed
        then raise (s, t) logic_error
        else if not (has_changes t.tables)
        then done (s, t) tt
        else elim t.kind [
          | TransactionType.read_write ↦ write_logged with_indexes (s, t)
          | _ ↦ raise (s, t) logic_error
        ]

    abbrev pub ended : S × Transaction T K B → S × Transaction T K B
    ended (s, t) = (server.end s, record t { committed = true })

    unfoldable pub commit : S × Transaction T K B → Outcome (S × Transaction T K B) (Unit {0})
    unfolding write_back
    commit x = elim (write_back true x) [ raise y e ↦ raise y e | done y u ↦ done (ended y) tt ]

  unfoldable pub rollback : S × Transaction T K B → Outcome (S × Transaction T K B) (Unit {0})
  unfolding rollback_tables
  rollback (s, t) =
      if t.committed then raise (s, t) logic_error else elim (rollback_tables s t.tables) [
        | raise s' e ↦ raise (s', t) e
        | done s' u ↦ done (server.end s', record t { committed = true }) tt
      ]

  -- The destructor.
  unfoldable pub destroy : S × Transaction T K B → Outcome (S × Transaction T K B) (Unit {0})
  unfolding rollback
  destroy (s, t) = if t.committed then done (s, t) tt else rollback (s, t)
