-- ===== src/ScanQuery/Verified.antt =====
-- What a scan that is sent has passed, and what it sends (src/ScanQuery.cpp, src/Transaction.cpp).
use telldb.Base.{
  ℕ, zero, suc, ◌+◌, ◌*◌, ◌%◌, ◌/◌, ◌≤◌, ◌<◌, ◌≡◌, refl, ap, ◌∙◌, List, [], ◌∷◌, Option, none, some,
  true, false, ltb, ◌==◌, if◌then◌else◌, length, length-append, lookup, All, arith, Bool-cases, inl,
  inr,
}
use telldb.Errors.{Result, ok, err}
use telldb.Field.{FieldType, type_of, same_type}
use telldb.Field.Union.{is_string}
use telldb.ScanQuery.{Encoding, Predicate, bytes, serialize_selection}
use telldb.ScanQuery.Query.{
  ScanQuery, ScanQueryType, ScanRequest, verify_conjunct, verify_conjuncts, verify_aggregations,
  verify, aggregable, sorted_insert, sort, write_fields, write_aggregations, serialize_query, scan,
  scan_request, selection,
}
use telldb.Transaction.Commit.{TransactionType}
use telldb.Transaction.Values.{SchemaField}

-- How often a number occurs, and that the numbers ascend.
abbrev pub occurrences : ℕ → List ℕ → ℕ
occurrences x [] = 0
occurrences x (y ∷ ys) = (if x == y then 1 else 0) + occurrences x ys

abbrev pub IsAscending : List ℕ → Type 0
IsAscending [] = Unit
IsAscending (x ∷ xs) = All (λ y. x ≤ y) xs × IsAscending xs

occurrences-sorted_insert :
    (x y : ℕ) (ys : List ℕ) → occurrences x (sorted_insert y ys) ≡ occurrences x (y ∷ ys)
unfolding sorted_insert
occurrences-sorted_insert x y [] = refl
occurrences-sorted_insert x y (z ∷ ys) = ground (arith, occurrences-sorted_insert x y ys)

pub occurrences-sort : (x : ℕ) (ys : List ℕ) → occurrences x (sort ys) ≡ occurrences x ys
unfolding sort
occurrences-sort x [] = refl
occurrences-sort x (y ∷ ys) =
    ground (arith, occurrences-sorted_insert x y (sort ys), occurrences-sort x ys)

All-sorted_insert :
    (P : ℕ → Type 0) (y : ℕ) (ys : List ℕ) → P y → All P ys → All P (sorted_insert y ys)
unfolding sorted_insert
All-sorted_insert P y [] p a = (p, tt)
All-sorted_insert P y (z ∷ ys) p a = elim (Bool-cases (ltb z y)) [
  | inl e ↦ rw (e, sorted_insert) (a.0, All-sorted_insert P y ys p a.1)
  | inr e ↦ rw (e, sorted_insert) (p, a)
]

All-weaken : (x y : ℕ) (ys : List ℕ) → x ≤ y → All (λ z. y ≤ z) ys → All (λ z. x ≤ z) ys
All-weaken x y [] h a = tt
All-weaken x y (z ∷ ys) h a = (ground (arith, a.0), All-weaken x y ys h a.1)

sorted_insert-IsAscending :
    (y : ℕ) (ys : List ℕ) → IsAscending ys → IsAscending (sorted_insert y ys)
unfolding sorted_insert
sorted_insert-IsAscending y [] a = (tt, tt)
sorted_insert-IsAscending y (z ∷ ys) a = elim (Bool-cases (ltb z y)) [
  | inl e ↦
      rw (e, sorted_insert)
        (All-sorted_insert (λ x. z ≤ x) y ys (ground arith) a.0, sorted_insert-IsAscending y ys a.1)
  | inr e ↦ let h : y ≤ z = ground arith in rw (e, sorted_insert) ((h, All-weaken y z ys h a.0), a)
]

sort-IsAscending : (ys : List ℕ) → IsAscending (sort ys)
unfolding sort
sort-IsAscending [] = tt
sort-IsAscending (y ∷ ys) = sorted_insert-IsAscending y (sort ys) (sort-IsAscending ys)

length-sorted_insert : (y : ℕ) (ys : List ℕ) → length (sorted_insert y ys) ≡ length (y ∷ ys)
unfolding sorted_insert
length-sorted_insert y [] = refl
length-sorted_insert y (z ∷ ys) = ground (arith, length-sorted_insert y ys)

length-sort : (ys : List ℕ) → length (sort ys) ≡ length ys
unfolding sort
length-sort [] = refl
length-sort (y ∷ ys) = ground (arith, length-sorted_insert y (sort ys), length-sort ys)

-- The numbers of two bytes that the store reads.
abbrev pub read_fields : List ℕ → List ℕ
read_fields [] = []
read_fields (a ∷ []) = []
read_fields (a ∷ b ∷ bs) = (a + b * 256) ∷ read_fields bs

read_fields-write_fields :
    (fs : List ℕ) → All (λ f. f < 65536) fs → read_fields (write_fields fs) ≡ fs
unfolding write_fields
read_fields-write_fields [] a = refl
read_fields-write_fields (f ∷ fs) a =
    let e : f % 256 + f / 256 % 256 * 256 ≡ f = omega (arith, a.0) in
    ground (arith, e, read_fields-write_fields fs a.1)

length-write_fields : (fs : List ℕ) → length (write_fields fs) ≡ length fs * 2
unfolding write_fields
length-write_fields [] = refl
length-write_fields (f ∷ fs) = ground (arith, length-write_fields fs)

sort-All : (P : ℕ → Type 0) (fs : List ℕ) → All P fs → All P (sort fs)
unfolding sort
sort-All P [] a = tt
sort-All P (f ∷ fs) a = All-sorted_insert P f (sort fs) a.0 (sort-All P fs a.1)

length-bytes : (n v : ℕ) → length (bytes n v) ≡ n
length-bytes zero v = refl
length-bytes (suc n) v = ap suc (length-bytes n (v / 256))

length-write_aggregations :
    (width : ℕ) (xs : List (ℕ × ℕ))
    → width ≤ 2
    → length (write_aggregations width xs) ≤ length xs * 4
unfolding write_aggregations
length-write_aggregations width [] h = omega arith
length-write_aggregations width (a ∷ rest) h =
    let e = length-append (bytes width a.0) (write_aggregations width rest) in
    let l = length-bytes width a.0 in
    let ih = length-write_aggregations width rest h in omega (arith, e, l, ih)

module _ {F D S : Type 0} (width : ℕ) where
  -- The bytes of a query lie in the buffer that is reserved for them, and say what the query says:
  -- a projection is sent as its fields in ascending order, each as often as it was given.
  abbrev pub QuerySent : ScanQuery F D S → Type 0
  QuerySent q = elim q.query_type [
    | ScanQueryType.full ↦ serialize_query width q ≡ ([], 0)
    | ScanQueryType.projection ↦
        (length (serialize_query width q).0 ≡ (serialize_query width q).1)
        × IsAscending (read_fields (serialize_query width q).0)
        × ((x : ℕ)
            → occurrences x (read_fields (serialize_query width q).0)
              ≡ occurrences x q.projected_fields)
    | ScanQueryType.aggregation ↦ length (serialize_query width q).0 ≤ (serialize_query width q).1
  ]

  -- The query fits into 32 bits, its fields into 16, and an aggregation's type into 2 bytes.
  pub record IsSmall (q : ScanQuery F D S) : Type 0 where
    pub projected : length q.projected_fields < 2147483648
    pub aggregated : length q.aggregations < 1073741824
    pub fields : All (λ f. f < 65536) q.projected_fields
    pub type_width : width ≤ 2

  serialize_query-QuerySent : (q : ScanQuery F D S) → IsSmall q → QuerySent q
  unfolding serialize_query
  serialize_query-QuerySent q h = go q.query_type refl
    where
      go : (t : ScanQueryType) → q.query_type ≡ t → QuerySent q
      go ScanQueryType.full e = rw (e, serialize_query) refl
      go ScanQueryType.projection e =
          let back =
            read_fields-write_fields (sort q.projected_fields)
              (sort-All (λ f. f < 65536) q.projected_fields h.fields) in
          rw (e, serialize_query)
            (
              ground (
                arith,
                length-write_fields (sort q.projected_fields),
                length-sort q.projected_fields,
                h.projected,
              ),
              rw back (sort-IsAscending q.projected_fields),
              λ x. ap (occurrences x) back ∙ occurrences-sort x q.projected_fields,
            )
      go ScanQueryType.aggregation e =
          let l = length-write_aggregations width q.aggregations h.type_width in
          rw (e, serialize_query) (ground (arith, l, h.aggregated))

aggregable-string : (t : FieldType) → aggregable t ≡ true → is_string t ≡ false
unfolding aggregable
aggregable-string FieldType.text_string h = ground arith
aggregable-string FieldType.blob_string h = ground arith
aggregable-string _ h = ground arith

aggregations_string :
    (field_at : ℕ → SchemaField) (xs : List (ℕ × ℕ))
    → verify_aggregations field_at xs ≡ ok tt
    → All (λ (a : ℕ × ℕ). is_string (field_at a.1).type ≡ false) xs
unfolding verify_aggregations
aggregations_string field_at [] h = tt
aggregations_string field_at (a ∷ xs) h = elim (Bool-cases (aggregable (field_at a.1).type)) [
  | inl e ↦
      (aggregable-string (field_at a.1).type e, aggregations_string field_at xs (ground arith))
  | inr e ↦ absurd (ground arith)
]

module _ {F D S : Type 0} (field_at : ℕ → SchemaField) where
  -- Every predicate compares with a value of its field's type, and no string is aggregated.
  abbrev pub Fits : Predicate F D S → Type 0
  Fits p = same_type (field_at p.column).type (type_of p.field) ≡ true

  abbrev pub IsVerified : ScanQuery F D S → Type 0
  IsVerified q =
      All (λ c. All Fits c) q.conjuncts
      × All (λ (a : ℕ × ℕ). is_string (field_at a.1).type ≡ false) q.aggregations

  conjunct-Fits : (ps : List (Predicate F D S)) → verify_conjunct field_at ps ≡ ok tt → All Fits ps
  unfolding verify_conjunct
  conjunct-Fits [] h = tt
  conjunct-Fits (p ∷ ps) h =
      elim (Bool-cases (same_type (field_at p.column).type (type_of p.field))) [
        | inl e ↦ (e, conjunct-Fits ps (ground arith))
        | inr e ↦ absurd (ground arith)
      ]

  conjuncts-Fits :
      (cs : List (List (Predicate F D S)))
      → verify_conjuncts field_at cs ≡ ok tt
      → All (λ c. All Fits c) cs
  unfolding verify_conjuncts
  conjuncts-Fits [] h = tt
  conjuncts-Fits (c ∷ cs) h = go (verify_conjunct field_at c) refl (conjuncts-Fits cs)
    where
      go :
          (r : Result (Unit {0}))
          → verify_conjunct field_at c ≡ r
          → (verify_conjuncts field_at cs ≡ ok tt → All (λ c. All Fits c) cs)
          → All (λ c. All Fits c) (c ∷ cs)
      go (ok u) e ih = (conjunct-Fits c e, ih (ground arith))
      go (err x) e ih = absurd (ground arith)

  verify-IsVerified : (q : ScanQuery F D S) → verify field_at q ≡ ok tt → IsVerified q
  unfolding verify
  verify-IsVerified q h = go (verify_conjuncts field_at q.conjuncts) refl
    where
      go : (r : Result (Unit {0})) → verify_conjuncts field_at q.conjuncts ≡ r → IsVerified q
      go (ok u) e =
          (conjuncts-Fits q.conjuncts e, aggregations_string field_at q.aggregations (ground arith))
      go (err x) e = absurd (ground arith)

module _ {F D S : Type 0} (encoding : Encoding F D S) (width : ℕ) where
  -- A scan of a query of a size that fits is only sent for an analytical transaction and a known
  -- table on whose fields the query is verified: its predicates compare with values of the types of
  -- their fields, and no string is aggregated. What is sent has the bytes of the selection and a
  -- query that lies within its buffer; a projection has its fields in ascending order there, each
  -- as often as it was given.
  pub scan-QuerySent :
      (kind : TransactionType) (tables : List (ℕ × (ℕ → SchemaField))) (q : ScanQuery F D S)
      (r : ScanRequest)
      → IsSmall width q
      → scan encoding width kind tables q ≡ ok r
      → (kind ≡ TransactionType.analytical)
        × ((field_at : ℕ → SchemaField) × (lookup q.table tables ≡ some field_at)
            × IsVerified field_at q)
        × (serialize_selection encoding (selection q) ≡ ok (r.selection, r.selection_length))
        × ((r.query, r.query_length) ≡ serialize_query width q)
        × QuerySent width q
  unfolding scan
  scan-QuerySent TransactionType.analytical tables q r s h =
      let (v, m, n) = go (lookup q.table tables) refl in
      (refl, v, m, n, serialize_query-QuerySent width q s)
    where
      Sent : Type 0
      Sent =
          ((field_at : ℕ → SchemaField) × (lookup q.table tables ≡ some field_at)
            × IsVerified field_at q)
          × (serialize_selection encoding (selection q) ≡ ok (r.selection, r.selection_length))
          × ((r.query, r.query_length) ≡ serialize_query width q)

      sent :
          (f : ℕ → SchemaField)
          → lookup q.table tables ≡ some f
          → IsVerified f q
          → (o : Result (List ℕ × ℕ)) → serialize_selection encoding (selection q) ≡ o
          → scan_request encoding width q o ≡ ok r
          → Sent
      sent f l v (ok x) e g = ((f, l, v), ground arith, ground arith)
      sent f l v (err x) e g = absurd (ground arith)

      verified :
          (f : ℕ → SchemaField)
          → lookup q.table tables ≡ some f
          → (o : Result (Unit {0})) → verify f q ≡ o
          → Sent
      verified f l (ok u) e =
          sent f l (verify-IsVerified f q e) (serialize_selection encoding (selection q)) refl
            (ground arith)
      verified f l (err x) e = absurd (ground arith)

      go : (o : Option (ℕ → SchemaField)) → lookup q.table tables ≡ o → Sent
      go none e = absurd (ground arith)
      go (some f) e = verified f e (verify f q) refl
  scan-QuerySent TransactionType.read_write tables q r s h = absurd (ground arith)
  scan-QuerySent TransactionType.read_only tables q r s h = absurd (ground arith)
