-- ===== src/Field/View.antt =====
-- The value that a raw field holds, and the strings that the value owns (telldb/Field.hpp).
use telldb.Base.{
  ℕ, ◌≡◌, refl, sym, ap, Option, none, some, Bool, true, false, arith, if◌then◌else◌, ◌⊎◌, inl, inr,
}
use telldb.Field.{
  FieldType, same_type, Field, untyped, null, smallint, normalint, bigint, float, double, text,
  blob,
}
use telldb.Field.Union.{
  Content, of_string, of_smallint, of_normalint, of_bigint, of_float, of_double, RawField,
  is_string,
}

pub same_type-eq : (a b : FieldType) → same_type a b ≡ true → a ≡ b
unfolding same_type
same_type-eq FieldType.no_type FieldType.no_type h = refl
same_type-eq FieldType.null_type FieldType.null_type h = refl
same_type-eq FieldType.small_int FieldType.small_int h = refl
same_type-eq FieldType.normal_int FieldType.normal_int h = refl
same_type-eq FieldType.big_int FieldType.big_int h = refl
same_type-eq FieldType.float_nr FieldType.float_nr h = refl
same_type-eq FieldType.double_nr FieldType.double_nr h = refl
same_type-eq FieldType.text_string FieldType.text_string h = refl
same_type-eq FieldType.blob_string FieldType.blob_string h = refl
same_type-eq _ _ h = absurd (ground arith)

module _ {F D S : Type 0} where
  abbrev pub holds_string : Content F D S → Bool
  holds_string (of_string s) = true
  holds_string _ = false

  -- The value of a field whose union holds the member of its type, and no string without the type of
  -- one; `none` for any other.
  abbrev pub view_of : FieldType → Content F D S → Option (Field F D S)
  view_of FieldType.no_type c = if holds_string c then none else some untyped
  view_of FieldType.null_type c = if holds_string c then none else some null
  view_of FieldType.small_int (of_smallint a) = some (smallint a)
  view_of FieldType.normal_int (of_normalint a) = some (normalint a)
  view_of FieldType.big_int (of_bigint a) = some (bigint a)
  view_of FieldType.float_nr (of_float a) = some (float a)
  view_of FieldType.double_nr (of_double a) = some (double a)
  view_of FieldType.text_string (of_string s) = some (text s)
  view_of FieldType.blob_string (of_string s) = some (blob s)
  view_of _ _ = none

  abbrev pub view : RawField F D S → Option (Field F D S)
  view f = view_of f.type f.content

  -- The strings that a value owns.
  abbrev pub strings : Field F D S → ℕ
  strings (text s) = 1
  strings (blob s) = 1
  strings _ = 0

  -- What a field of a value holds.
  pub string_or_not :
      (t : FieldType) (c : Content F D S) (v : Field F D S)
      → view_of t c ≡ some v
      → ((s : S) × (is_string t ≡ true) × (c ≡ of_string s) × (strings v ≡ 1))
        ⊎ ((is_string t ≡ false) × (holds_string c ≡ false) × (strings v ≡ 0))
  string_or_not FieldType.text_string (of_string s) v h =
      let e : text s ≡ v = ground arith in inl (s, refl, refl, ap strings (sym e))
  string_or_not FieldType.blob_string (of_string s) v h =
      let e : blob s ≡ v = ground arith in inl (s, refl, refl, ap strings (sym e))
  string_or_not FieldType.no_type c v h =
      let e : untyped ≡ v = ground arith in inr (refl, ground (arith, h), ap strings (sym e))
  string_or_not FieldType.null_type c v h =
      let e : null ≡ v = ground arith in inr (refl, ground (arith, h), ap strings (sym e))
  string_or_not FieldType.small_int (of_smallint a) v h =
      let e : smallint a ≡ v = ground arith in inr (refl, refl, ap strings (sym e))
  string_or_not FieldType.normal_int (of_normalint a) v h =
      let e : normalint a ≡ v = ground arith in inr (refl, refl, ap strings (sym e))
  string_or_not FieldType.big_int (of_bigint a) v h =
      let e : bigint a ≡ v = ground arith in inr (refl, refl, ap strings (sym e))
  string_or_not FieldType.float_nr (of_float a) v h =
      let e : float a ≡ v = ground arith in inr (refl, refl, ap strings (sym e))
  string_or_not FieldType.double_nr (of_double a) v h =
      let e : double a ≡ v = ground arith in inr (refl, refl, ap strings (sym e))
  string_or_not _ _ v h = absurd (ground arith)
