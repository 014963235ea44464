-- ===== src/Tests/Registries.antt =====
-- A table with one index, whose tables have the numbers 5 and 6.
use Prim.Native.Nat.{Ordering}
use Prim.Native.String.{String, compare}
use telldb.Base.{ℕ, ◌≡◌, refl, List, [], ◌∷◌, map, some, none, true, false, emplace, lookup}
use telldb.Errors.{ok, done}
use telldb.Index.Registry.{
  IndexDescriptor, IndexTables, Registry, Response, table_data, wrapper, open_indexes,
  create_indexes, open_each, create_each,
}
use telldb.Index.Reopen.{open_indexes-again, open_indexes-create, initialized}

abbrev number : ℕ → ℕ
number t = t

abbrev indexes : List (String × IndexDescriptor)
indexes = ("name", record { unique = true; fields = 1 ∷ [] }) ∷ []

-- The table for the pointers is number 5, that for the nodes number 6.
abbrev table_of : String → ℕ
table_of name = elim (compare name "__index_ptrs_name") [ Ordering.eq ↦ 5 | _ ↦ 6 ]

abbrev answers : String → Response ℕ
answers name = record { error = none; get = ok (table_of name) }

abbrev name_tables : IndexTables ℕ
name_tables = record {
  fields = record { unique = true; fields = 1 ∷ [] };
  ptr_table = table_data number 5;
  node_table = table_data number 6;
}

abbrev one_table : Registry number
one_table = (3, ("name", name_tables) ∷ []) ∷ []

open_indexes-again_example :
    open_indexes number (λ name. record { error = some "none"; get = ok 0 }) 3 [] one_table
    ≡ done one_table (("name", wrapper number false "name" name_tables.fields name_tables) ∷ [])
unfolding open_indexes open_each lookup emplace
open_indexes-again_example =
    open_indexes-again number answers (λ name. record { error = some "none"; get = ok 0 }) 3 indexes
      [] [] one_table (("name", wrapper number false "name" name_tables.fields name_tables) ∷ [])
      refl

open_indexes-create_example :
    open_indexes number answers 3 [] one_table
    ≡ done one_table (
        map
          (initialized number)
          (("name", wrapper number true "name" name_tables.fields name_tables) ∷ []))
unfolding create_indexes create_each lookup emplace
open_indexes-create_example =
    open_indexes-create number (λ name. ok (table_of name)) answers 3 indexes [] [] one_table
      (("name", wrapper number true "name" name_tables.fields name_tables) ∷ []) refl refl
