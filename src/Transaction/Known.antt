-- ===== src/Transaction/Known.antt =====
-- Every name that is known has a table, whatever is opened and created.
use Prim.Native.String.{String}
use telldb.Base.{
  ℕ, ◌≡◌, ◌≢◌, sym, ap, subst, ◌∙◌, List, [], ◌∷◌, Option, none, some, lookup, emplace,
  lookup-emplace_any, arith, ◌⊎◌, inl, inr, Option-cases,
}
use telldb.Errors.{Result, ok, err, Outcome, done, raise}
use telldb.Index.Registry.{
  IndexDescriptor, Opened, Response, Registry, find_name, emplace_name, open_indexes,
  create_indexes,
}
use telldb.Transaction.Tables.{
  Context, FutureTable, ready, requested, add_cache, add_table, open_known, open_table, get_table,
  create_table,
}

pub find_name-emplace_name :
    {V : Type 0} (j k : String) (v x : V) (m : List (String × V))
    → find_name j (emplace_name k v m) ≡ some x
    → (find_name j m ≡ some x) ⊎ (v ≡ x)
find_name-emplace_name j k v x [] h = ground (arith, h)
find_name-emplace_name j k v x ((i, w) ∷ m) h = ground (arith, h, find_name-emplace_name j k v x m)

lookup-emplace_some :
    {V : Type 0} (id k : ℕ) (v : V) (m : List (ℕ × V))
    → lookup id m ≢ none
    → lookup id (emplace k v m) ≢ none
lookup-emplace_some id k v m h = ground (arith, h, lookup-emplace_any k id v m)

lookup-emplace_new :
    {V : Type 0} (k : ℕ) (v : V) (m : List (ℕ × V)) → lookup k (emplace k v m) ≢ none
lookup-emplace_new k v m = ground (arith, lookup-emplace_any k k v m)

lookup-emplace_at :
    {V : Type 0} (k id : ℕ) (v : V) (m : List (ℕ × V)) → k ≡ id → lookup id (emplace k v m) ≢ none
lookup-emplace_at k id v m e = ground (arith, e, lookup-emplace_any k id v m)

lookup-emplace_cases :
    {V : Type 0} (id k : ℕ) (v t : V) (m : List (ℕ × V))
    → lookup id (emplace k v m) ≡ some t
    → (lookup id m ≡ some t) ⊎ ((v ≡ t) × (k ≡ id))
lookup-emplace_cases id k v t m h = ground (arith, h, lookup-emplace_any k id v m)

module _ {T : Type 0} (table_id : T → ℕ) (table_name : T → String)
    (indexes_of : T → List (String × IndexDescriptor)) where
  -- A known name has a table, and a table is found under its number.
  pub record Known (names : List (String × ℕ)) (tables : List (ℕ × T)) : Type 0 where
    pub named : (name : String) (id : ℕ) → find_name name names ≡ some id → lookup id tables ≢ none
    pub keyed : (id : ℕ) (t : T) → lookup id tables ≡ some t → table_id t ≡ id

  abbrev pub KnownIn : Context table_id table_name indexes_of → Type 0
  KnownIn s = Known s.table_names s.tables

  Known-emplace :
      (name : String) (t : T) (names : List (String × ℕ)) (tables : List (ℕ × T))
      → Known names tables
      → Known (emplace_name name (table_id t) names) (emplace (table_id t) t tables)
  Known-emplace name t names tables k = record { named = named; keyed = keyed }
    where
      named :
          (n : String) (id : ℕ)
          → find_name n (emplace_name name (table_id t) names) ≡ some id
          → lookup id (emplace (table_id t) t tables) ≢ none
      named n id h = elim (find_name-emplace_name n name (table_id t) id names h) [
        | inl e ↦ lookup-emplace_some id (table_id t) t tables (k.named n id e)
        | inr e ↦
            subst (λ i. lookup i (emplace (table_id t) t tables) ≢ none) e
              (lookup-emplace_new (table_id t) t tables)
      ]

      keyed :
          (id : ℕ) (u : T) → lookup id (emplace (table_id t) t tables) ≡ some u → table_id u ≡ id
      keyed id u h = elim (lookup-emplace_cases id (table_id t) t u tables h) [
        | inl e ↦ k.keyed id u e
        | inr e ↦ ap table_id (sym e.0) ∙ e.1
      ]

  -- A call keeps what is known, and the table that it returns is in `mTables`.
  abbrev pub Kept : Outcome (Context table_id table_name indexes_of) ℕ → Type 0
  Kept (raise s e) = KnownIn s
  Kept (done s id) = KnownIn s × (lookup id s.caches ≢ none)

  -- A future that is ready is that of a table in `mTables`.
  abbrev pub KeptFuture : Outcome (Context table_id table_name indexes_of) (FutureTable T) → Type 0
  KeptFuture (raise s e) = KnownIn s
  KeptFuture (done s (ready id)) = KnownIn s × (lookup id s.caches ≢ none)
  KeptFuture (done s (requested r)) = KnownIn s

  add_table-Kept :
      (answers : String → Response T) (t : T) (s : Context table_id table_name indexes_of)
      → KnownIn s
      → Kept (add_table table_id table_name indexes_of answers t s)
  unfolding add_table
  add_table-Kept answers t s k =
      go (open_indexes table_id answers (table_id t) (indexes_of t) s.registry)
        (lookup (table_id t) s.tables)
    where
      go :
          (x : Outcome (Registry table_id) (List (String × Opened T))) (o : Option T)
          → Kept (elim x [
            | raise r e ↦ raise (record s { registry = r }) e
            | done r indexes ↦ elim o [
              | some u ↦
                  done
                    (add_cache table_id table_name indexes_of u indexes (record s { registry = r }))
                    (table_id u)
              | none ↦
                  done
                    (add_cache table_id table_name indexes_of t indexes (record s {
                      registry = r;
                      table_names = emplace_name (table_name t) (table_id t) s.table_names;
                      tables = emplace (table_id t) t s.tables;
                    }))
                    (table_id t)
            ]
          ])
      go (raise r e) o = k
      go (done r indexes) (some u) = (k, lookup-emplace_new (table_id u) _ s.caches)
      go (done r indexes) none = (
        Known-emplace (table_name t) t s.table_names s.tables k,
        lookup-emplace_new (table_id t) _ s.caches,
      )

  open_known-Kept :
      (answers : String → Response T) (id : ℕ) (t : T) (s : Context table_id table_name indexes_of)
      → table_id t ≡ id
      → KnownIn s
      → KeptFuture (open_known table_id table_name indexes_of answers id t s)
  unfolding open_known
  open_known-Kept answers id t s same k =
      go (open_indexes table_id answers (table_id t) (indexes_of t) s.registry)
    where
      go :
          (x : Outcome (Registry table_id) (List (String × Opened T)))
          → KeptFuture (elim x [
            | raise r e ↦ raise (record s { registry = r }) e
            | done r indexes ↦
                done
                  (add_cache table_id table_name indexes_of t indexes (record s { registry = r }))
                  (ready id)
          ])
      go (raise r e) = k
      go (done r indexes) = (k, lookup-emplace_at (table_id t) id _ s.caches same)

  open_table-Kept :
      (answers : String → Response T) (response : Result T) (name : String)
      (s : Context table_id table_name indexes_of)
      → KnownIn s
      → KeptFuture (open_table table_id table_name indexes_of answers response name s)
  unfolding open_table
  open_table-Kept answers response name s k = elim (Option-cases (find_name name s.table_names)) [
    | inl e ↦ rw (e, open_table) k
    | inr x ↦ elim (Option-cases (lookup x.0 s.caches)) [
      | inr c ↦ rw (x.1, c.1, open_table) (k, ground (arith, c.1))
      | inl n ↦ elim (Option-cases (lookup x.0 s.tables)) [
        | inl m ↦ absurd (k.named name x.0 x.1 m)
        | inr t ↦
            rw (x.1, n, t.1, open_table) (open_known-Kept answers x.0 t.0 s (k.keyed x.0 t.0 t.1) k)
      ]
    ]
  ]

  create_table-Kept :
      (index_tables : String → Result T) (created : Result T) (name : String)
      (s : Context table_id table_name indexes_of)
      → KnownIn s
      → Kept (create_table table_id table_name indexes_of index_tables created name s)
  unfolding create_table
  create_table-Kept index_tables (err e) name s k = k
  create_table-Kept index_tables (ok t) name s k =
      go (create_indexes table_id index_tables (table_id t) (indexes_of t) s.registry)
    where
      s' : Context table_id table_name indexes_of
      s' = record s {
        table_names = emplace_name name (table_id t) s.table_names;
        tables = emplace (table_id t) t s.tables;
      }

      go :
          (x : Outcome (Registry table_id) (List (String × Opened T)))
          → Kept (elim x [
            | raise r e ↦ raise (record s' { registry = r }) e
            | done r indexes ↦
                done
                  (add_cache table_id table_name indexes_of t indexes (record s' { registry = r }))
                  (table_id t)
          ])
      go (raise r e) = Known-emplace name t s.table_names s.tables k
      go (done r indexes) = (
        Known-emplace name t s.table_names s.tables k,
        lookup-emplace_new (table_id t) _ s.caches,
      )

  -- In a context where every known name has a table, found under its number: after `openTable`, after
  -- `get` of the future that asked the store, and after `createTable`, also where these throw, this
  -- is so again; the table that is returned, or whose future is ready, is in `mTables`.
  pub tables-Kept :
      (answers : String → Response T) (index_tables : String → Result T) (response : Result T)
      (name : String) (s : Context table_id table_name indexes_of)
      → KnownIn s
      → KeptFuture (open_table table_id table_name indexes_of answers response name s)
        × Kept (get_table table_id table_name indexes_of answers (requested response) s)
        × Kept (create_table table_id table_name indexes_of index_tables response name s)
  unfolding get_table
  tables-Kept answers index_tables (err e) name s k =
      (open_table-Kept answers (err e) name s k, k, create_table-Kept index_tables (err e) name s k)
  tables-Kept answers index_tables (ok t) name s k = (
    open_table-Kept answers (ok t) name s k,
    add_table-Kept answers t s k,
    create_table-Kept index_tables (ok t) name s k,
  )
