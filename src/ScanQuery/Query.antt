-- ===== src/ScanQuery/Query.antt =====
-- The queries themselves (telldb/ScanQuery.hpp, src/ScanQuery.cpp): how they are built, `verify` and
-- `serializeQuery`, and `Transaction::scan` (src/Transaction.cpp). A field of a schema is looked up by
-- the store, `field_at`, and an aggregation's type takes `width` bytes.
use telldb.Base.{
  ℕ, ◌*◌, ◌%◌, List, [], ◌∷◌, ◌++◌, none, some, Bool, true, false, ltb, if◌then◌else◌, length,
  lookup,
}
use telldb.Errors.{Result, ok, err, runtime_error, out_of_range, wrong_field_type}
use telldb.Field.{FieldType, type_of, same_type}
use telldb.ScanQuery.{Encoding, Predicate, Selection, bytes, serialize_selection}
use telldb.Transaction.Values.{SchemaField}
use telldb.Transaction.Commit.{TransactionType}

-- `store::ScanQueryType`
pub data ScanQueryType : Type 0 where
  full projection aggregation : ScanQueryType

pub record ScanQuery (F D S : Type 0) : Type 0 where
  pub table : ℕ
  pub do_partition : Bool
  pub key_shift : ℕ
  pub partition_key : ℕ
  pub partition_value : ℕ
  pub query_type : ScanQueryType
  pub projected_fields : List ℕ
  pub aggregations : List (ℕ × ℕ)
  pub conjuncts : List (List (Predicate F D S))

-- The switch of the second loop of `verify`.
unfoldable pub aggregable : FieldType → Bool
aggregable FieldType.blob_string = false
aggregable FieldType.text_string = false
aggregable _ = true

unfoldable pub verify_aggregations : (ℕ → SchemaField) → List (ℕ × ℕ) → Result (Unit {0})
unfolding aggregable
verify_aggregations field_at [] = ok tt
verify_aggregations field_at (a ∷ rest) =
    let others = verify_aggregations field_at rest in
    if aggregable (field_at a.1).type
    then others
    else err (wrong_field_type "Can not aggregate over string and blob types")

module _ {F D S : Type 0} where
  -- The three constructors.
  unfoldable pub full_scan : ℕ → ScanQuery F D S
  full_scan table = record {
    table = table;
    do_partition = false;
    key_shift = 0;
    partition_key = 0;
    partition_value = 0;
    query_type = ScanQueryType.full;
    projected_fields = [];
    aggregations = [];
    conjuncts = [];
  }

  unfoldable pub projection_of : ℕ → List ℕ → ScanQuery F D S
  unfolding full_scan
  projection_of table fields = record (full_scan table) {
    query_type = ScanQueryType.projection;
    projected_fields = fields;
  }

  unfoldable pub aggregation_of : ℕ → List (ℕ × ℕ) → ScanQuery F D S
  unfolding full_scan
  aggregation_of table aggregations = record (full_scan table) {
    query_type = ScanQueryType.aggregation;
    aggregations = aggregations;
  }

  unfoldable pub set_partition : ℕ → ℕ → ℕ → ScanQuery F D S → ScanQuery F D S
  set_partition shift key value q = record q {
    do_partition = true;
    key_shift = shift;
    partition_key = key;
    partition_value = value;
  }

  -- `Conjunct::operator||` with a predicate and with another conjunct, and `ScanQuery::operator&&`.
  unfoldable pub or_predicate : List (Predicate F D S) → Predicate F D S → List (Predicate F D S)
  or_predicate c p = c ++ p ∷ []

  unfoldable pub or_conjunct :
      List (Predicate F D S) → List (Predicate F D S) → List (Predicate F D S)
  unfolding or_predicate
  or_conjunct c [] = c
  or_conjunct c (p ∷ ps) = or_conjunct (or_predicate c p) ps

  unfoldable pub and_conjunct : ScanQuery F D S → List (Predicate F D S) → ScanQuery F D S
  and_conjunct q c = record q { conjuncts = q.conjuncts ++ c ∷ [] }

  abbrev pub selection : ScanQuery F D S → Selection F D S
  selection q = record {
    conjuncts = q.conjuncts;
    key_shift = q.key_shift;
    partition_key = q.partition_key;
    partition_value = q.partition_value;
  }

  module _ (field_at : ℕ → SchemaField) where
    unfoldable pub verify_conjunct : List (Predicate F D S) → Result (Unit {0})
    unfolding same_type type_of
    verify_conjunct [] = ok tt
    verify_conjunct (p ∷ ps) =
        let rest = verify_conjunct ps in
        let f = field_at p.column in
        if same_type f.type (type_of p.field) then rest else err (wrong_field_type f.name)

    unfoldable pub verify_conjuncts : List (List (Predicate F D S)) → Result (Unit {0})
    unfolding verify_conjunct
    verify_conjuncts [] = ok tt
    verify_conjuncts (c ∷ cs) = elim (verify_conjunct c) [
      | err e ↦ err e
      | ok u ↦ verify_conjuncts cs
    ]

    unfoldable pub verify : ScanQuery F D S → Result (Unit {0})
    unfolding verify_conjuncts verify_aggregations
    verify q = elim (verify_conjuncts q.conjuncts) [
      | err e ↦ err e
      | ok u ↦ verify_aggregations field_at q.aggregations
    ]

-- `std::sort` of numbers.
unfoldable pub sorted_insert : ℕ → List ℕ → List ℕ
sorted_insert x [] = x ∷ []
sorted_insert x (y ∷ ys) = let rest = sorted_insert x ys in if ltb y x then y ∷ rest else x ∷ y ∷ ys

unfoldable pub sort : List ℕ → List ℕ
unfolding sorted_insert
sort [] = []
sort (x ∷ xs) = sorted_insert x (sort xs)

unfoldable pub write_fields : List ℕ → List ℕ
write_fields [] = []
write_fields (f ∷ fs) = bytes 2 f ++ write_fields fs

unfoldable pub write_aggregations : ℕ → List (ℕ × ℕ) → List ℕ
write_aggregations width [] = []
write_aggregations width (a ∷ rest) =
    bytes 2 a.1 ++ bytes width a.0 ++ write_aggregations width rest

module _ {F D S : Type 0} (width : ℕ) where
  -- The bytes, and the size that the buffer has.
  unfoldable pub serialize_query : ScanQuery F D S → List ℕ × ℕ
  unfolding sort write_fields write_aggregations
  serialize_query q = elim q.query_type [
    | ScanQueryType.full ↦ ([], 0)
    | ScanQueryType.projection ↦
        (write_fields (sort q.projected_fields), length q.projected_fields * 2 % 4294967296)
    | ScanQueryType.aggregation ↦
        (write_aggregations width q.aggregations, length q.aggregations * 4 % 4294967296)
  ]

-- What `scan` asks of the store.
pub record ScanRequest : Type 0 where
  pub table : ℕ
  pub query_type : ScanQueryType
  pub selection_length : ℕ
  pub selection : List ℕ
  pub query_length : ℕ
  pub query : List ℕ

module _ {F D S : Type 0} (encoding : Encoding F D S) (width : ℕ) where
  abbrev pub scan_request : ScanQuery F D S → Result (List ℕ × ℕ) → Result ScanRequest
  scan_request q (err e) = err e
  scan_request q (ok (content, size)) = ok (record {
    table = q.table;
    query_type = q.query_type;
    selection_length = size;
    selection = content;
    query_length = (serialize_query width q).1;
    query = (serialize_query width q).0;
  })

  -- A table is known by its fields here.
  unfoldable pub scan :
      TransactionType → List (ℕ × (ℕ → SchemaField)) → ScanQuery F D S → Result ScanRequest
  unfolding verify serialize_selection serialize_query
  scan TransactionType.analytical tables q = elim (lookup q.table tables) [
    | none ↦ err out_of_range
    | some field_at ↦ elim (verify field_at q) [
      | err e ↦ err e
      | ok u ↦ scan_request q (serialize_selection encoding (selection q))
    ]
  ]
  scan _ tables q = err runtime_error
