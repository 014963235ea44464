-- ===== src/Index/Registry.antt =====
-- `Indexes` (src/Indexes.hpp, src/Indexes.cpp) and `TableData` (src/TableData.hpp): the indexes of
-- the tables that have been opened, shared by all transactions.
use Prim.Native.Nat.{Ordering}
use Prim.Native.String.{String, compare, ◌++◌}
use telldb.Base.{
  ℕ, List, [], ◌∷◌, map, reverse, Option, some, none, Bool, true, false, if◌then◌else◌, lookup,
  emplace,
}
use telldb.Errors.{Result, ok, err, Outcome, done, raise, open_table}
use telldb.RemoteCounter.{Counter, new_counter}

abbrev pub same_name : String → String → Bool
same_name a b = elim (compare a b) [ Ordering.eq ↦ true | _ ↦ false ]

-- `find` and `emplace` of a hash map with names as keys.
module _ {V : Type 0} where
  abbrev pub find_name : String → List (String × V) → Option V
  find_name k [] = none
  find_name k ((j, v) ∷ m) = if same_name j k then some v else find_name k m

  abbrev pub emplace_name : String → V → List (String × V) → List (String × V)
  emplace_name k v [] = (k, v) ∷ []
  emplace_name k v ((j, w) ∷ m) = if same_name j k then (j, w) ∷ m else (j, w) ∷ emplace_name k v m

-- Whether an index is unique, and its fields.
pub record IndexDescriptor : Type 0 where
  pub unique : Bool
  pub fields : List ℕ

-- The answer to `getTable`: the message of its error, and what its `get` returns or throws.
pub record Response (T : Type 0) : Type 0 where
  pub error : Option String
  pub get : Result T

-- A table with its counter.
pub record TableData (T : Type 0) : Type 0 where
  pub table : T
  pub counter_id : ℕ
  pub counter : Counter

pub record IndexTables (T : Type 0) : Type 0 where
  pub fields : IndexDescriptor
  pub ptr_table : TableData T
  pub node_table : TableData T

-- What an `IndexWrapper` is constructed from, but the snapshot and the client.
pub record Opened (T : Type 0) : Type 0 where
  pub name : String
  pub unique : Bool
  pub fields : List ℕ
  pub ptr_table : TableData T
  pub node_table : TableData T
  pub init : Bool

module _ {T : Type 0} (table_id : T → ℕ) where
  abbrev pub Registry : Type 0
  Registry = List (ℕ × List (String × IndexTables T))

  abbrev pub table_data : T → TableData T
  table_data t = record { table = t; counter_id = table_id t; counter = new_counter }

  abbrev pub wrapper : Bool → String → IndexDescriptor → IndexTables T → Opened T
  wrapper init name d t = record {
    name = name;
    unique = d.unique;
    fields = d.fields;
    ptr_table = t.ptr_table;
    node_table = t.node_table;
    init = init;
  }

  abbrev pub reopen : String × IndexTables T → String × Opened T
  reopen (name, t) = (name, wrapper false name t.fields t)

  -- The entry that `emplace` leaves for a name.
  abbrev pub entry : String → IndexTables T → List (String × IndexTables T) → IndexTables T
  entry name t index_map = elim (find_name name index_map) [ some u ↦ u | none ↦ t ]

  -- The body of a loop once the tables of an index are there: `indexMap` and `res`.
  abbrev pub add_index :
      Bool
      → String
      → IndexDescriptor
      → T
      → T
      → List (String × IndexTables T) × List (String × Opened T)
      → List (String × IndexTables T) × List (String × Opened T)
  add_index init name d ptr node (index_map, res) =
      let t : IndexTables T = record {
        fields = d;
        ptr_table = table_data ptr;
        node_table = table_data node;
      } in
      (
        emplace_name name t index_map,
        emplace_name name (wrapper init name d (entry name t index_map)) res,
      )

  -- A response's error is thrown. Both tests are of the response for the node table.
  abbrev pub check_error : Response T → Result (Unit {0})
  check_error r = elim r.error [ none ↦ ok tt | some e ↦ err (open_table e) ]

  -- The two tables of an index, for the pointers and for the nodes.
  abbrev pub open_tables : Response T → Response T → Result (T × T)
  open_tables node ptr = elim (check_error node) [
    | err e ↦ err e
    | ok u ↦ elim (check_error node) [
      | err e ↦ err e
      | ok u ↦ elim ptr.get [
        | err e ↦ err e
        | ok p ↦ elim node.get [ err e ↦ err e | ok n ↦ ok (p, n) ]
      ]
    ]
  ]

  unfoldable pub open_each :
      List (String × IndexDescriptor × Response T × Response T)
      → List (String × IndexTables T) × List (String × Opened T)
      → Result (List (String × IndexTables T) × List (String × Opened T))
  open_each [] maps = ok maps
  open_each ((name, d, node, ptr) ∷ rs) maps = elim (open_tables node ptr) [
    | err e ↦ err e
    | ok t ↦ open_each rs (add_index false name d t.0 t.1 maps)
  ]

  abbrev pub node_name : String → String
  node_name name = "__index_nodes_" ++ name

  abbrev pub ptr_name : String → String
  ptr_name name = "__index_ptrs_" ++ name

  abbrev pub request :
      (String → Response T)
      → String × IndexDescriptor
      → String × IndexDescriptor × Response T × Response T
  request get_table (name, d) = (name, d, get_table (node_name name), get_table (ptr_name name))

  -- `openIndexes` of the table `id` with the indexes `indexes` of its schema.
  unfoldable pub open_indexes :
      (String → Response T)
      → ℕ
      → List (String × IndexDescriptor)
      → Registry
      → Outcome Registry (List (String × Opened T))
  unfolding open_each
  open_indexes get_table id indexes registry = elim (lookup id registry) [
    | some index_map ↦ done registry (map reopen index_map)
    | none ↦ elim (open_each (reverse (map (request get_table) indexes)) ([], [])) [
      | err e ↦ raise registry e
      | ok maps ↦ done (emplace id maps.0 registry) maps.1
    ]
  ]

  -- `createIndexes`: a table is created for the pointers first, then one for the nodes.
  abbrev pub create_tables : (String → Result T) → String → Result (T × T)
  create_tables create_table name = elim (create_table (ptr_name name)) [
    | err e ↦ err e
    | ok p ↦ elim (create_table (node_name name)) [ err e ↦ err e | ok n ↦ ok (p, n) ]
  ]

  unfoldable pub create_each :
      (String → Result T)
      → List (String × IndexDescriptor)
      → List (String × IndexTables T) × List (String × Opened T)
      → Result (List (String × IndexTables T) × List (String × Opened T))
  create_each create_table [] maps = ok maps
  create_each create_table ((name, d) ∷ indexes) maps = elim (create_tables create_table name) [
    | err e ↦ err e
    | ok t ↦ create_each create_table indexes (add_index true name d t.0 t.1 maps)
  ]

  unfoldable pub create_indexes :
      (String → Result T)
      → ℕ
      → List (String × IndexDescriptor)
      → Registry
      → Outcome Registry (List (String × Opened T))
  unfolding create_each
  create_indexes create_table id indexes registry =
      elim (create_each create_table indexes ([], [])) [
        | err e ↦ raise registry e
        | ok maps ↦ done (emplace id maps.0 registry) maps.1
      ]

  -- The constructor's counter table, opened or created.
  unfoldable pub counter_table : Response T → Result T → Result T
  counter_table response created = elim response.error [ some e ↦ created | none ↦ response.get ]
