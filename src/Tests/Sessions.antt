-- ===== src/Tests/Sessions.antt =====
-- Handlers on two tables.
use telldb.Base.{
  ℕ, ◌≡◌, refl, List, [], ◌∷◌, Option, none, some, Bool, true, false, inr, lookup, assign, emplace,
  ◌==◌, if◌then◌else◌, arith,
}
use telldb.Errors.{done, Outcome, after, conflicts}
use telldb.TableCache.State.{World}
use telldb.TableCache.Storage.{Storage, issue, settle, mark}
use telldb.TableCache.Rollback.{Laws}
use telldb.TableCache.Stored.{StoreLaws}
use telldb.Transaction.Commit.{Server, Transaction, TransactionType, commit}
use telldb.Transaction.Clean.{ServerLaws}
use telldb.Transaction.Session.{
  Session, Call, open_table, create_tuple, insert_tuple, transaction, run, exec, calls_then,
}
use telldb.Transaction.Atomic.{Ends}
use telldb.Transaction.Exec.{IsUntouched, exec-Atomic}
use telldb.Transaction.Durable.{final_value, exec-Durable}
use telldb.Tests.Data.{Cell, cell_value, set_own, by_number}
use telldb.Tests.Table.{sample_index}
use telldb.Tests.Commits.{empty_tree}

-- A storage of tables. Requests for a key of the table that is locked fail.
abbrev put_cell : (ℕ → ℕ → Cell) → ℕ → ℕ → Option (Option ℕ) → ℕ → ℕ → Cell
put_cell s id k o i = if id == i then set_own (s i) k o else s i

module _ (locked : ℕ) where
  abbrev shelves : Server (ℕ → ℕ → Cell) ℕ
  shelves = record {
    storage = λ id. record {
      modify = λ s k op t. if locked == id then (s, false) else (put_cell s id k (some t), true);
      revert = λ s k. (put_cell s id k none, true);
    };
    insert_log = λ s k v. s;
    remove_log = λ s k. s;
    end = λ s. s;
  }

  unfoldable shelf_laws : (id : ℕ) → Laws (Option ℕ) (shelves.storage id)
  shelf_laws id = record {
    value = λ s k. cell_value (s id k);
    committed = λ s k. (s id k).old;
    modify_other = λ s j k op t ne. ground arith;
    modify_failed = λ s k op t h. ground arith;
    modify_committed = λ s j k op t. ground arith;
    revert_self = λ s k h. ground arith;
    revert_other = λ s j k ne. ground arith;
    revert_committed = λ s j k. ground arith;
  }

  unfoldable shelves_laws : ServerLaws (Option ℕ) shelves
  unfolding shelf_laws
  shelves_laws = record {
    table = shelf_laws;
    modify_apart = λ s i id j k op t ne. (ground arith, ground arith);
    revert_apart = λ s i id j k ne. (ground arith, ground arith);
    insert_log_apart = λ s i j k v. (refl, refl);
    remove_log_apart = λ s i j k. (refl, refl);
    end_value = λ s i j. refl;
  }

  unfoldable shelf_stores : (id : ℕ) → StoreLaws (shelves.storage id) (shelves_laws.table id)
  unfolding shelves_laws shelf_laws
  shelf_stores id = record { put = λ op t. t; modify_done = λ s k op t h. ground arith }

abbrev empty_session : Session ℕ ℕ (Unit {0})
empty_session = record {
  heap = record { cell = λ p. none; next = 0 };
  committed = false;
  kind = TransactionType.read_write;
  version = 12;
  tables = [];
}

-- A tuple is inserted into each of two tables.
abbrev handler : List (Call ℕ ℕ (Unit {0}))
handler =
    open_table 1 (sample_index ∷ [])
    ∷ create_tuple 42
    ∷ insert_tuple 1 7 0
    ∷ open_table 2 []
    ∷ create_tuple 43
    ∷ insert_tuple 2 9 2
    ∷ []

abbrev old_shelves : ℕ → ℕ → Cell
old_shelves i j = record { old = none; own = none }

abbrev sample_log : Bool → List (ℕ × World ℕ ℕ (Unit {0})) → List ℕ
sample_log b ts = 1 ∷ 2 ∷ []

old-IsUntouched :
    (locked : ℕ)
    → IsUntouched (shelves locked) (shelves_laws locked) by_number empty_tree sample_log old_shelves
unfolding shelves_laws shelf_laws
old-IsUntouched locked i j = refl

-- The second table refuses: the insertion into the first, which was written, is taken back.
abbrev refused : Outcome ((ℕ → ℕ → Cell) × Transaction ℕ ℕ (Unit {0})) (Unit {0})
refused =
    commit (shelves 2) empty_tree sample_log
      (old_shelves, transaction (run by_number handler empty_session))

exec-Atomic_example :
    Ends
      (shelves 2)
      (shelves_laws 2)
      empty_tree
      1
      (λ (y : (ℕ → ℕ → Cell) × Transaction ℕ ℕ (Unit {0})).
        ((shelves_laws 2).table 1).value y.0 7 ≡ ((shelves_laws 2).table 1).committed old_shelves 7)
      (exec
        (shelves 2)
        by_number
        empty_tree
        sample_log
        (calls_then (shelves 2) by_number empty_tree sample_log handler true)
        (old_shelves, empty_session))
unfolding commit run transaction lookup emplace telldb.TableCache.Ops.insert assign
    telldb.TableCache.Storage.write_back telldb.Index.index_insert
exec-Atomic_example =
    exec-Atomic (shelves 2) (shelves_laws 2) by_number empty_tree sample_log old_shelves
      empty_session handler true (old-IsUntouched 2) (refl, tt, tt)
      (inr (after refused, conflicts (9 ∷ []), refl)) 1 7

abbrev accepted : (ℕ → ℕ → Cell) × Transaction ℕ ℕ (Unit {0})
accepted = after (
    commit (shelves 0) empty_tree sample_log
      (old_shelves, transaction (run by_number handler empty_session)))

exec-Durable_example :
    (exec
        (shelves 0)
        by_number
        empty_tree
        sample_log
        (calls_then (shelves 0) by_number empty_tree sample_log handler true)
        (old_shelves, empty_session)
      ≡ done accepted tt)
    × ((i j : ℕ)
        → ((shelves_laws 0).table i).value accepted.0 j
          ≡ final_value
              (shelves 0)
              (shelves_laws 0)
              (shelf_stores 0)
              by_number
              empty_tree
              sample_log
              i
              j
              old_shelves
              (run by_number handler empty_session))
unfolding commit run transaction lookup emplace telldb.TableCache.Ops.insert assign
    telldb.TableCache.Storage.write_back telldb.Index.WriteBack.write_back telldb.Index.index_insert
    telldb.Index.cache_emplace
exec-Durable_example =
    exec-Durable (shelves 0) (shelves_laws 0) (shelf_stores 0) by_number empty_tree sample_log
      old_shelves empty_session handler accepted (old-IsUntouched 0) (refl, tt, tt) refl
