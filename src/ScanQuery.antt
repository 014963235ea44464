-- ===== src/ScanQuery.antt =====
-- `ScanQuery` (telldb/ScanQuery.hpp, src/ScanQuery.cpp): the selection of a scan as the bytes that
-- are sent. `Encoding` is the memory of floating point numbers and strings; a number of a predicate
-- type takes one byte, a column two.
pub mod Size
pub mod Query
pub mod Verified
use telldb.Base.{
  ℕ, suc, zero, ◌+◌, ◌-◌, ◌/◌, ◌%◌, List, [], ◌∷◌, ◌++◌, Bool, true, false, ◌==◌, if◌then◌else◌,
  length,
}
use telldb.Errors.{Result, ok, err, runtime_error}
use telldb.Field.{Field, untyped, null, smallint, normalint, bigint, float, double, text, blob}

pub record Encoding (F D S : Type 0) : Type 0 where
  pub float_bits : F → ℕ
  pub double_bits : D → ℕ
  pub string_bytes : S → List ℕ

-- `Conjunct::Predicate`
pub record Predicate (F D S : Type 0) : Type 0 where
  pub kind : ℕ
  pub column : ℕ
  pub field : Field F D S

-- What `serializeSelection` reads of a query: `mConjuncts`, `mKeyShift`, `mPartitionKey` and
-- `mPartitionValue`.
pub record Selection (F D S : Type 0) : Type 0 where
  pub conjuncts : List (List (Predicate F D S))
  pub key_shift : ℕ
  pub partition_key : ℕ
  pub partition_value : ℕ

-- `predicateMap`: for each column its predicates with the numbers of their conjuncts.
abbrev pub PredicateMap : Type 0 → Type 0
PredicateMap P = List (ℕ × List (ℕ × P))

module _ {P : Type 0} where
  abbrev pub has_column : ℕ → PredicateMap P → Bool
  has_column k [] = false
  has_column k ((j, ps) ∷ m) = if j == k then true else has_column k m

  -- `emplace`, and `emplace_back` on what it returns.
  unfoldable pub push : ℕ → ℕ × P → PredicateMap P → PredicateMap P
  push k p [] = (k, p ∷ []) ∷ []
  push k p ((j, ps) ∷ m) =
      let rest = push k p m in if j == k then (j, ps ++ p ∷ []) ∷ m else (j, ps) ∷ rest

-- `w.write` of a number of so many bytes, and `w.set(0, n)`.
abbrev pub bytes : ℕ → ℕ → List ℕ
bytes zero v = []
bytes (suc n) v = v % 256 ∷ bytes n (v / 256)

-- `size += n` on 32 bits.
abbrev pub add_size : ℕ → ℕ → ℕ
add_size size n = (size + n) % 4294967296

abbrev pub padding : ℕ → ℕ
padding n = if n % 8 == 0 then 0 else 8 - n % 8

module _ {F D S : Type 0} (encoding : Encoding F D S) where
  open encoding use {float_bits, double_bits, string_bytes}

  -- The first switch: the size with that of the predicate's value.
  unfoldable pub add_value : ℕ → Field F D S → Result ℕ
  add_value size (smallint a) = ok size
  add_value size (normalint a) = ok size
  add_value size (float a) = ok size
  add_value size (bigint a) = ok (add_size size 8)
  add_value size (double a) = ok (add_size size 8)
  add_value size (text s) =
      let size' = add_size size (length (string_bytes s)) in ok (add_size size' (padding size'))
  add_value size (blob s) =
      let size' = add_size size (length (string_bytes s)) in ok (add_size size' (padding size'))
  add_value size null = err runtime_error
  add_value size untyped = err runtime_error

  abbrev pub with_map :
      PredicateMap (Predicate F D S) → Result ℕ → Result (ℕ × PredicateMap (Predicate F D S))
  with_map m (ok size) = ok (size, m)
  with_map m (err e) = err e

  -- The body of the inner loop.
  unfoldable pub collect_one :
      ℕ
      → Predicate F D S
      → ℕ
      → PredicateMap (Predicate F D S)
      → Result (ℕ × PredicateMap (Predicate F D S))
  unfolding push add_value
  collect_one num p size m =
      let size' = if has_column p.column m then size else add_size size 8 in
      with_map (push p.column (num, p) m) (add_value (add_size size' 8) p.field)

  -- The loops over the predicates of a conjunct and over the conjuncts.
  unfoldable pub collect_conjunct :
      ℕ
      → List (Predicate F D S)
      → ℕ
      → PredicateMap (Predicate F D S)
      → Result (ℕ × PredicateMap (Predicate F D S))
  unfolding collect_one
  collect_conjunct num [] size m = ok (size, m)
  collect_conjunct num (p ∷ ps) size m = elim (collect_one num p size m) [
    | err e ↦ err e
    | ok x ↦ collect_conjunct num ps x.0 x.1
  ]

  unfoldable pub collect :
      ℕ
      → List (List (Predicate F D S))
      → ℕ
      → PredicateMap (Predicate F D S)
      → Result (ℕ × PredicateMap (Predicate F D S))
  unfolding collect_conjunct
  collect num [] size m = ok (size, m)
  collect num (c ∷ cs) size m = elim (collect_conjunct num c size m) [
    | err e ↦ err e
    | ok x ↦ collect ((num + 1) % 256) cs x.0 x.1
  ]

  -- The second switch. A value without a type has been refused before.
  unfoldable pub write_value : Field F D S → List ℕ
  write_value (smallint a) = bytes 2 a ++ bytes 4 0
  write_value (normalint a) = bytes 2 0 ++ bytes 4 a
  write_value (float a) = bytes 2 0 ++ bytes 4 (float_bits a)
  write_value (bigint a) = bytes 4 0 ++ bytes 8 a
  write_value (double a) = bytes 4 0 ++ bytes 8 (double_bits a)
  write_value (text s) =
      bytes 2 0
      ++ bytes 4 (length (string_bytes s))
      ++ string_bytes s
      ++ bytes (padding (length (string_bytes s))) 0
  write_value (blob s) =
      bytes 2 0
      ++ bytes 4 (length (string_bytes s))
      ++ string_bytes s
      ++ bytes (padding (length (string_bytes s))) 0
  write_value null = []
  write_value untyped = []

  unfoldable pub write_predicates : List (ℕ × Predicate F D S) → List ℕ
  unfolding write_value
  write_predicates [] = []
  write_predicates ((num, p) ∷ ps) =
      bytes 1 p.kind ++ bytes 1 num ++ write_value p.field ++ write_predicates ps

  unfoldable pub write_columns : PredicateMap (Predicate F D S) → List ℕ
  unfolding write_predicates
  write_columns [] = []
  write_columns ((k, ps) ∷ m) =
      bytes 2 k ++ bytes 2 (length ps) ++ bytes 4 0 ++ write_predicates ps ++ write_columns m

  abbrev pub write_selection :
      Selection F D S → Result (ℕ × PredicateMap (Predicate F D S)) → Result (List ℕ × ℕ)
  write_selection q (err e) = err e
  write_selection q (ok (size, m)) = ok (
    bytes 4 (length m)
        ++ bytes 2 (length q.conjuncts)
        ++ bytes 2 q.key_shift
        ++ bytes 4 q.partition_key
        ++ bytes 4 q.partition_value
        ++ write_columns m,
    size,
  )

  -- The bytes, and the size that the buffer has.
  unfoldable pub serialize_selection : Selection F D S → Result (List ℕ × ℕ)
  unfolding collect write_columns
  serialize_selection q = write_selection q (collect 0 q.conjuncts 16 [])
