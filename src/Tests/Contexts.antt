-- ===== src/Tests/Contexts.antt =====
-- A context with one table, and a table that the store has.
use Prim.Native.String.{String}
use telldb.Base.{ℕ, [], ◌∷◌, none, lookup, arith}
use telldb.Errors.{ok}
use telldb.Transaction.Tables.{Context, requested, open_table, get_table, create_table}
use telldb.Transaction.Known.{KnownIn, Kept, KeptFuture, tables-Kept}

abbrev pub table_id : ℕ → ℕ
table_id t = t

abbrev pub table_name : ℕ → String
table_name t = "orders"

abbrev pub one_name : Context table_id table_name (λ t. [])
one_name = record {
  table_names = ("people", 7) ∷ [];
  tables = (7, 7) ∷ [];
  registry = [];
  caches = [];
}

one_name-Known : KnownIn table_id table_name (λ t. []) one_name
unfolding lookup
one_name-Known = record {
  named = λ name id h. ground (arith, h);
  keyed = λ id t h. ground (arith, h);
}

-- The table `people` is opened, and `orders`, number 8, is sent by the store or created.
tables-Kept_example :
    KeptFuture table_id table_name
      (λ t. [])
      (open_table table_id table_name
        (λ t. [])
        (λ n. record { error = none; get = ok 0 })
        (ok 8)
        "people"
        one_name)
    × Kept table_id table_name
        (λ t. [])
        (get_table table_id table_name
          (λ t. [])
          (λ n. record { error = none; get = ok 0 })
          (requested (ok 8))
          one_name)
    × Kept table_id table_name
        (λ t. [])
        (create_table table_id table_name (λ t. []) (λ n. ok 0) (ok 8) "people" one_name)
tables-Kept_example =
    tables-Kept table_id table_name (λ t. []) (λ n. record { error = none; get = ok 0 }) (λ n. ok 0)
      (ok 8) "people" one_name one_name-Known
