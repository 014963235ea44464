-- ===== src/Tests/Scans.antt =====
-- A projection with a predicate.
use telldb.Base.{ℕ, ◌≡◌, refl, List, [], ◌∷◌, some, true, lookup, arith}
use telldb.Errors.{ok}
use telldb.Field.{FieldType, normalint}
use telldb.ScanQuery.{Encoding, serialize_selection}
use telldb.ScanQuery.Query.{
  ScanQuery, ScanQueryType, ScanRequest, projection_of, and_conjunct, selection, serialize_query,
  scan,
}
use telldb.ScanQuery.Verified.{IsSmall, IsVerified, QuerySent, scan-QuerySent}
use telldb.Transaction.Commit.{TransactionType}
use telldb.Transaction.Values.{SchemaField}

abbrev plain_numbers : Encoding ℕ ℕ (List ℕ)
plain_numbers = record { float_bits = λ a. a; double_bits = λ a. a; string_bytes = λ s. s }

abbrev query : ScanQuery ℕ ℕ (List ℕ)
query =
    and_conjunct (projection_of 3 (5 ∷ 1 ∷ 300 ∷ []))
      (record { kind = 0; column = 1; field = normalint 7 } ∷ [])

abbrev all_numbers : ℕ → SchemaField
all_numbers i = record { name = "number"; type = FieldType.normal_int; not_null = true }

abbrev request : ScanRequest
request = elim (scan plain_numbers 2 TransactionType.analytical ((3, all_numbers) ∷ []) query) [
  | ok r ↦ r
  | _ ↦ record {
    table = 0;
    query_type = ScanQueryType.full;
    selection_length = 0;
    selection = [];
    query_length = 0;
    query = [];
  }
]

query-IsSmall : IsSmall 2 query
unfolding and_conjunct projection_of
query-IsSmall = record {
  projected = omega arith;
  aggregated = omega arith;
  fields = (omega arith, (omega arith, (omega arith, tt)));
  type_width = omega arith;
}

scan-QuerySent_example :
    (TransactionType.analytical ≡ TransactionType.analytical)
    × ((field_at : ℕ → SchemaField) × (lookup query.table ((3, all_numbers) ∷ []) ≡ some field_at)
        × IsVerified field_at query)
    × (serialize_selection plain_numbers (selection query)
        ≡ ok (request.selection, request.selection_length))
    × ((request.query, request.query_length) ≡ serialize_query 2 query)
    × QuerySent 2 query
unfolding scan and_conjunct projection_of lookup
scan-QuerySent_example =
    scan-QuerySent plain_numbers 2 TransactionType.analytical ((3, all_numbers) ∷ []) query request
      query-IsSmall refl
