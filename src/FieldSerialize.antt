-- ===== src/FieldSerialize.antt =====
-- The serialization of fields (src/FieldSerialize.hpp). `Codec` is what the archives of crossbow do
-- with a value that is not a field: its bytes, and reading it off the front of bytes, for values in
-- the range of their C++ type.
use mathlib.Core.List.{append_assoc}
use telldb.Base.{
  ℕ, ◌+◌, ◌≡◌, refl, ap, ◌∙◌, List, [], ◌++◌, Option, none, some, arith, length, length-append,
}
use telldb.Field.{
  Field, FieldType, type_of, untyped, null, smallint, normalint, bigint, float, double, text, blob,
}

pub record Codec (A : Type 0) : Type 1 where
  pub write : A → List ℕ
  pub read : List ℕ → Option (A × List ℕ)
  pub size : A → ℕ
  pub InRange : A → Type 0
  pub read-write : (a : A) → InRange a → (rest : List ℕ) → read (write a ++ rest) ≡ some (a, rest)
  pub length-write : (a : A) → length (write a) ≡ size a

-- The codecs that the policies for fields use. The sizes are those that `size_policy` adds up.
pub record Codecs (F D S : Type 0) : Type 1 where
  pub type : Codec FieldType
  pub int_16 : Codec ℕ
  pub int_32 : Codec ℕ
  pub int_64 : Codec ℕ
  pub float_codec : Codec F
  pub double_codec : Codec D
  pub string : Codec S
  pub string_size : S → ℕ
  pub type_size : ℕ
  pub every_type : (t : FieldType) → type.InRange t
  pub size_type : (t : FieldType) → type.size t ≡ type_size
  pub size_16 : (a : ℕ) → int_16.size a ≡ 2
  pub size_32 : (a : ℕ) → int_32.size a ≡ 4
  pub size_64 : (a : ℕ) → int_64.size a ≡ 8
  pub size_float : (a : F) → float_codec.size a ≡ 4
  pub size_double : (a : D) → double_codec.size a ≡ 8
  pub size_string : (s : S) → string.size s ≡ 4 + string_size s

module _ {F D S : Type 0} (codecs : Codecs F D S) where
  open codecs use {
    type, int_16, int_32, int_64, float_codec, double_codec, string, string_size, type_size,
  }

  -- `size_policy`
  unfoldable pub field_size : Field F D S → ℕ
  field_size untyped = type_size
  field_size null = type_size
  field_size (smallint a) = type_size + 2
  field_size (normalint a) = type_size + 4
  field_size (bigint a) = type_size + 8
  field_size (float a) = type_size + 4
  field_size (double a) = type_size + 8
  field_size (text s) = type_size + 4 + string_size s
  field_size (blob s) = type_size + 4 + string_size s

  abbrev pub serialize_value : Field F D S → List ℕ
  serialize_value untyped = []
  serialize_value null = []
  serialize_value (smallint a) = int_16.write a
  serialize_value (normalint a) = int_32.write a
  serialize_value (bigint a) = int_64.write a
  serialize_value (float a) = float_codec.write a
  serialize_value (double a) = double_codec.write a
  serialize_value (text s) = string.write s
  serialize_value (blob s) = string.write s

  -- `serialize_policy`
  unfoldable pub serialize_field : Field F D S → List ℕ
  unfolding type_of
  serialize_field f = type.write (type_of f) ++ serialize_value f

  abbrev pub assigned :
      {A : Type 0} → (A → Field F D S) → Option (A × List ℕ) → Option (Field F D S × List ℕ)
  assigned f none = none
  assigned f (some (a, rest)) = some (f a, rest)

  -- The switch of `deserialize_policy`, on a field that has a value already.
  unfoldable pub deserialize_value :
      Field F D S → FieldType → List ℕ → Option (Field F D S × List ℕ)
  deserialize_value old FieldType.no_type input = some (old, input)
  deserialize_value old FieldType.null_type input = some (null, input)
  deserialize_value old FieldType.small_int input = assigned smallint (int_16.read input)
  deserialize_value old FieldType.normal_int input = assigned normalint (int_32.read input)
  deserialize_value old FieldType.big_int input = assigned bigint (int_64.read input)
  deserialize_value old FieldType.float_nr input = assigned float (float_codec.read input)
  deserialize_value old FieldType.double_nr input = assigned double (double_codec.read input)
  deserialize_value old FieldType.text_string input = assigned text (string.read input)
  deserialize_value old FieldType.blob_string input = assigned text (string.read input)

  abbrev pub deserialize_rest :
      Field F D S → Option (FieldType × List ℕ) → Option (Field F D S × List ℕ)
  deserialize_rest old none = none
  deserialize_rest old (some (t, rest)) = deserialize_value old t rest

  -- `deserialize_policy`
  unfoldable pub deserialize_field : Field F D S → List ℕ → Option (Field F D S × List ℕ)
  unfolding deserialize_value
  deserialize_field old input = deserialize_rest old (type.read input)

  -- What a field comes back as.
  abbrev pub read_back : Field F D S → Field F D S → Field F D S
  read_back old untyped = old
  read_back old (blob s) = text s
  read_back old f = f

  -- The value of the field is in the range of its type.
  abbrev pub FieldInRange : Field F D S → Type 0
  FieldInRange untyped = Unit
  FieldInRange null = Unit
  FieldInRange (smallint a) = int_16.InRange a
  FieldInRange (normalint a) = int_32.InRange a
  FieldInRange (bigint a) = int_64.InRange a
  FieldInRange (float a) = float_codec.InRange a
  FieldInRange (double a) = double_codec.InRange a
  FieldInRange (text s) = string.InRange s
  FieldInRange (blob s) = string.InRange s

  deserialize-serialize_value :
      (old f : Field F D S) (rest : List ℕ)
      → FieldInRange f
      → deserialize_value old (type_of f) (serialize_value f ++ rest) ≡ some (read_back old f, rest)
  unfolding deserialize_value type_of
  deserialize-serialize_value old untyped rest v = refl
  deserialize-serialize_value old null rest v = refl
  deserialize-serialize_value old (smallint a) rest v =
      ap (assigned smallint) (int_16.read-write a v rest)
  deserialize-serialize_value old (normalint a) rest v =
      ap (assigned normalint) (int_32.read-write a v rest)
  deserialize-serialize_value old (bigint a) rest v =
      ap (assigned bigint) (int_64.read-write a v rest)
  deserialize-serialize_value old (float a) rest v =
      ap (assigned float) (float_codec.read-write a v rest)
  deserialize-serialize_value old (double a) rest v =
      ap (assigned double) (double_codec.read-write a v rest)
  deserialize-serialize_value old (text s) rest v = ap (assigned text) (string.read-write s v rest)
  deserialize-serialize_value old (blob s) rest v = ap (assigned text) (string.read-write s v rest)

  -- Where every codec reads back what it writes of a value in range: a serialized field whose value
  -- is in range is read back and what follows it is left, except that a BLOB comes back as a TEXT,
  -- and that a field without a type leaves the field that is read into as it was.
  pub deserialize-serialize :
      (old f : Field F D S) (rest : List ℕ)
      → FieldInRange f
      → deserialize_field old (serialize_field f ++ rest) ≡ some (read_back old f, rest)
  unfolding deserialize_field serialize_field
  deserialize-serialize old f rest v =
      ap (deserialize_field old) (append_assoc (type.write (type_of f)) (serialize_value f) rest)
      ∙ ap (deserialize_rest old)
          (type.read-write (type_of f) (codecs.every_type (type_of f)) (serialize_value f ++ rest))
      ∙ deserialize-serialize_value old f rest v

  -- Where every codec writes as many bytes as its size says, and the sizes are those of the C++
  -- types: a serialized field has as many bytes as `size_policy` says.
  pub length-serialize_field : (f : Field F D S) → length (serialize_field f) ≡ field_size f
  unfolding serialize_field field_size
  length-serialize_field f =
      length-append (type.write (type_of f)) (serialize_value f)
      ∙ go f (type.length-write (type_of f) ∙ codecs.size_type (type_of f))
    where
      go :
          (g : Field F D S)
          → length (type.write (type_of f)) ≡ type_size
          → length (type.write (type_of f)) + length (serialize_value g) ≡ field_size g
      go untyped e = omega (arith, e)
      go null e = omega (arith, e)
      go (smallint a) e = omega (arith, e, int_16.length-write a, codecs.size_16 a)
      go (normalint a) e = omega (arith, e, int_32.length-write a, codecs.size_32 a)
      go (bigint a) e = omega (arith, e, int_64.length-write a, codecs.size_64 a)
      go (float a) e = omega (arith, e, float_codec.length-write a, codecs.size_float a)
      go (double a) e = omega (arith, e, double_codec.length-write a, codecs.size_double a)
      go (text s) e = omega (arith, e, string.length-write s, codecs.size_string s)
      go (blob s) e = omega (arith, e, string.length-write s, codecs.size_string s)
