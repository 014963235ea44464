-- ===== src/Transaction/Tables.antt =====
-- The tables of a transaction (src/TransactionCache.cpp): how they are opened and created, with the
-- tables and names that all transactions share.
use Prim.Native.String.{String}
use telldb.Base.{ℕ, List, none, some, lookup, emplace}
use telldb.Errors.{Result, ok, err, Outcome, done, raise, dangling, out_of_range}
use telldb.Index.Registry.{
  IndexDescriptor, Opened, Response, Registry, find_name, emplace_name, open_indexes,
  create_indexes,
}

-- What a `TableCache` is constructed from, but the snapshot, the client and the pool.
pub record TableOf (T : Type 0) : Type 0 where
  pub table : T
  pub indexes : List (String × Opened T)

-- `openTable` has the table, or has asked the store for it.
pub data FutureTable (T : Type 0) : Type 0 where
  ready : ℕ → FutureTable T
  requested : Result T → FutureTable T

module _ {T : Type 0} (table_id : T → ℕ) (table_name : T → String)
    (indexes_of : T → List (String × IndexDescriptor)) where
  -- `tableNames`, `tables` and the registry of the shared context, and `mTables`.
  pub record Context : Type 0 where
    pub table_names : List (String × ℕ)
    pub tables : List (ℕ × T)
    pub registry : Registry table_id
    pub caches : List (ℕ × TableOf T)

  -- `mTables.emplace` of a new table cache.
  abbrev pub add_cache : T → List (String × Opened T) → Context → Context
  add_cache t indexes s = record s {
    caches = emplace (table_id t) (record { table = t; indexes = indexes }) s.caches;
  }

  -- `addTable` of a table that the store has sent.
  unfoldable pub add_table : (String → Response T) → T → Context → Outcome Context ℕ
  add_table answers t s =
      elim (open_indexes table_id answers (table_id t) (indexes_of t) s.registry) [
        | raise r e ↦ raise (record s { registry = r }) e
        | done r indexes ↦ elim (lookup (table_id t) s.tables) [
          | some u ↦ done (add_cache u indexes (record s { registry = r })) (table_id u)
          | none ↦
              done
                (add_cache t indexes (record s {
                  registry = r;
                  table_names = emplace_name (table_name t) (table_id t) s.table_names;
                  tables = emplace (table_id t) t s.tables;
                }))
                (table_id t)
        ]
      ]

  -- A table that is known and not yet in `mTables`.
  unfoldable pub open_known :
      (String → Response T) → ℕ → T → Context → Outcome Context (FutureTable T)
  open_known answers id t s =
      elim (open_indexes table_id answers (table_id t) (indexes_of t) s.registry) [
        | raise r e ↦ raise (record s { registry = r }) e
        | done r indexes ↦ done (add_cache t indexes (record s { registry = r })) (ready id)
      ]

  -- `openTable`: the table of a name that is known has to be there.
  unfoldable pub open_table :
      (String → Response T) → Result T → String → Context → Outcome Context (FutureTable T)
  unfolding open_known
  open_table answers response name s = elim (find_name name s.table_names) [
    | none ↦ done s (requested response)
    | some id ↦ elim (lookup id s.caches) [
      | some c ↦ done s (ready id)
      | none ↦ elim (lookup id s.tables) [
        | none ↦ raise s dangling
        | some t ↦ open_known answers id t s
      ]
    ]
  ]

  -- `Future<table_t>::get`
  unfoldable pub get_table : (String → Response T) → FutureTable T → Context → Outcome Context ℕ
  unfolding add_table
  get_table answers (ready id) s = done s id
  get_table answers (requested (err e)) s = raise s e
  get_table answers (requested (ok t)) s = add_table answers t s

  -- `createTable`: `created` is the answer of the store.
  unfoldable pub create_table :
      (String → Result T) → Result T → String → Context → Outcome Context ℕ
  create_table index_tables (err e) name s = raise s e
  create_table index_tables (ok t) name s =
      let s' : Context = record s {
        table_names = emplace_name name (table_id t) s.table_names;
        tables = emplace (table_id t) t s.tables;
      } in
      elim (create_indexes table_id index_tables (table_id t) (indexes_of t) s.registry) [
        | raise r e ↦ raise (record s' { registry = r }) e
        | done r indexes ↦ done (add_cache t indexes (record s' { registry = r })) (table_id t)
      ]

  -- `mTables.at`, with which the operations on tuples begin.
  unfoldable pub table_at : ℕ → Context → Result (TableOf T)
  table_at id s = elim (lookup id s.caches) [ some c ↦ ok c | none ↦ err out_of_range ]
