-- ===== src/Field/Order.antt =====
-- The comparisons of fields.
use telldb.Base.{
  ℕ, ltb, ◌<◌, ◌≡◌, refl, sym, ◌∙◌, arith, ◌==◌, Bool, true, false, not, ◌&&◌, Bool-cases, inl, inr,
  if◌then◌else◌,
}
use telldb.Errors.{ok, err, invalid_argument}
use telldb.Field.{
  Field, FieldType, Primitives, less_signed, same_type, type_of, less, less_equal, greater,
  greater_equal, equal, smallint, normalint, bigint, float, double, text, blob, untyped, null,
}

less_signed_asym : (half a b : ℕ) → less_signed half a b ≡ true → less_signed half b a ≡ false
unfolding less_signed
less_signed_asym half a b h = ground arith

-- The order of the integers that two's complements stand for: one that is at least `half` is
-- negative, and less than every one that is not.
abbrev pub signed_before : ℕ → ℕ → ℕ → Bool
signed_before half a b =
    if ltb a half
    then (if ltb b half then ltb a b else false)
    else if ltb b half
    then true
    else ltb a b

signed-16 : (a b : ℕ) → a < 65536 → b < 65536 → less_signed 32768 a b ≡ signed_before 32768 a b
unfolding less_signed
signed-16 a b h k = ground arith

signed-32 :
    (a b : ℕ)
    → a < 4294967296
    → b < 4294967296
    → less_signed 2147483648 a b ≡ signed_before 2147483648 a b
unfolding less_signed
signed-32 a b h k = ground arith

signed-64 :
    (a b : ℕ)
    → a < 18446744073709551616
    → b < 18446744073709551616
    → less_signed 9223372036854775808 a b ≡ signed_before 9223372036854775808 a b
unfolding less_signed
signed-64 a b h k = ground arith

-- What is asked of `<` on floating point numbers and on strings.
pub record Asymmetric {F D S : Type 0} (prim : Primitives F D S) : Type 0 where
  pub of_float : (a b : F) → prim.float_less a b ≡ true → prim.float_less b a ≡ false
  pub of_double : (a b : D) → prim.double_less a b ≡ true → prim.double_less b a ≡ false
  pub of_string : (a b : S) → prim.string_less a b ≡ true → prim.string_less b a ≡ false

abbrev pub comparable : FieldType → Bool
comparable FieldType.no_type = false
comparable FieldType.blob_string = false
comparable _ = true

module _ {F D S : Type 0} (prim : Primitives F D S) where
  -- The integers of a field lie in the range of its type.
  abbrev pub InRange : Field F D S → Type 0
  InRange (smallint a) = a < 65536
  InRange (normalint a) = a < 4294967296
  InRange (bigint a) = a < 18446744073709551616
  InRange _ = Unit

  -- Which of two values of one type is the smaller.
  abbrev pub value_before : Field F D S → Field F D S → Bool
  value_before (smallint a) (smallint b) = signed_before 32768 a b
  value_before (normalint a) (normalint b) = signed_before 2147483648 a b
  value_before (bigint a) (bigint b) = signed_before 9223372036854775808 a b
  value_before (float a) (float b) = prim.float_less a b
  value_before (double a) (double b) = prim.double_less a b
  value_before (text a) (text b) = prim.string_less a b
  value_before _ _ = false

  -- All comparisons of two fields answer, and from the order of their values.
  abbrev pub Agree : Field F D S → Field F D S → Type 0
  Agree a b =
      (x y : Bool) × (x ≡ value_before a b)
      × (y ≡ value_before b a)
      × (less prim a b ≡ ok x)
      × (less prim b a ≡ ok y)
      × (x && y ≡ false)
      × (less_equal prim a b ≡ ok (not y))
      × (greater prim a b ≡ ok y)
      × (greater_equal prim a b ≡ ok (not x))
      × (equal prim a b ≡ ok (not x && not y))

  abbrev pub Refuse : Field F D S → Field F D S → Type 0
  Refuse a b =
      (less prim a b ≡ err invalid_argument)
      × (less_equal prim a b ≡ err invalid_argument)
      × (greater prim a b ≡ err invalid_argument)
      × (greater_equal prim a b ≡ err invalid_argument)
      × (equal prim a b ≡ err invalid_argument)

  agree :
      (a b : Field F D S) (x y : Bool)
      → less prim a b ≡ ok x
      → less prim b a ≡ ok y
      → x ≡ value_before a b
      → y ≡ value_before b a
      → (x ≡ true → y ≡ false)
      → Agree a b
  unfolding less_equal greater greater_equal equal
  agree a b true true h k v w f = absurd (ground (arith, f refl))
  agree a b true false h k v w f =
      (true, false, v, w, h, k, refl, ground arith, k, ground arith, ground arith)
  agree a b false true h k v w f =
      (false, true, v, w, h, k, refl, ground arith, k, ground arith, ground arith)
  agree a b false false h k v w f =
      (false, false, v, w, h, k, refl, ground arith, k, ground arith, ground arith)

  refuse :
      (a b : Field F D S)
      → less prim a b ≡ err invalid_argument
      → less prim b a ≡ err invalid_argument
      → Refuse a b
  unfolding less_equal greater greater_equal equal
  refuse a b h k = (h, ground arith, k, ground arith, ground arith)

  same_type-sym : (s t : FieldType) → same_type s t ≡ same_type t s
  unfolding same_type
  same_type-sym s t = ground arith

  Agree-same :
      (laws : Asymmetric prim) (a b : Field F D S)
      → same_type (type_of a) (type_of b) ≡ true
      → comparable (type_of a) ≡ true
      → InRange a
      → InRange b
      → Agree a b
  unfolding less same_type type_of
  Agree-same laws null null h k p q = agree null null false false refl refl refl refl (λ e. cc)
  Agree-same laws (smallint a) (smallint b) h k p q =
      agree (smallint a) (smallint b) _ _ refl refl (signed-16 a b p q) (signed-16 b a q p)
        (less_signed_asym 32768 a b)
  Agree-same laws (normalint a) (normalint b) h k p q =
      agree (normalint a) (normalint b) _ _ refl refl (signed-32 a b p q) (signed-32 b a q p)
        (less_signed_asym 2147483648 a b)
  Agree-same laws (bigint a) (bigint b) h k p q =
      agree (bigint a) (bigint b) _ _ refl refl (signed-64 a b p q) (signed-64 b a q p)
        (less_signed_asym 9223372036854775808 a b)
  Agree-same laws (float a) (float b) h k p q =
      agree (float a) (float b) _ _ refl refl refl refl (laws.of_float a b)
  Agree-same laws (double a) (double b) h k p q =
      agree (double a) (double b) _ _ refl refl refl refl (laws.of_double a b)
  Agree-same laws (text a) (text b) h k p q =
      agree (text a) (text b) _ _ refl refl refl refl (laws.of_string a b)
  Agree-same laws _ _ h k p q = absurd (ground arith)

  same_comparable : (s t : FieldType) → same_type s t ≡ true → comparable s ≡ comparable t
  unfolding same_type
  same_comparable FieldType.no_type FieldType.no_type h = refl
  same_comparable s t h = ground arith

  refuse_first :
      (a b : Field F D S) → comparable (type_of a) ≡ false → less prim a b ≡ err invalid_argument
  unfolding less type_of
  refuse_first untyped b h = ground arith
  refuse_first (blob a) b h = ground arith
  refuse_first _ b h = absurd (ground arith)

  differ :
      (a b : Field F D S)
      → same_type (type_of a) (type_of b) ≡ false
      → less prim a b ≡ err invalid_argument
  unfolding less
  differ a b h = rw h

  -- Where `<` on floating point numbers and on strings is asymmetric, and integers lie in the range
  -- of their type: for two fields of one type that is not NOTYPE or BLOB, `<` is the order of their
  -- values, integers with their signs, and never holds both ways, and the other four operators answer
  -- what it demands; any other two fields are refused by all five.
  pub comparisons :
      Asymmetric prim
      → (a b : Field F D S) → InRange a
      → InRange b
      → if same_type (type_of a) (type_of b) && comparable (type_of a)
        then Agree a b
        else Refuse a b
  comparisons laws a b p q = elim (Bool-cases (same_type (type_of a) (type_of b))) [
    | inl e ↦ elim (Bool-cases (comparable (type_of a))) [
      | inl f ↦ rw (e, f) (Agree-same laws a b e f p q)
      | inr f ↦
          rw (e, f)
            (refuse a b (refuse_first a b f)
              (refuse_first b a (sym (same_comparable (type_of a) (type_of b) e) ∙ f)))
    ]
    | inr e ↦
        rw e (refuse a b (differ a b e) (differ b a (same_type-sym (type_of b) (type_of a) ∙ e)))
  ]

module _ {F D S : Type 0} (prim : Primitives F D S) where
  -- For 64-bit integers within their range `==`, which the code computes from `<`, is equality.
  pub equal-bigint :
      (a b : ℕ)
      → a < 18446744073709551616
      → b < 18446744073709551616
      → equal prim (bigint a) (bigint b) ≡ ok (a == b)
  unfolding equal less_signed
  equal-bigint a b h k = ground arith
