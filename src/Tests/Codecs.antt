-- ===== src/Tests/Codecs.antt =====
-- Codecs that write a value followed by zeros.

use telldb.Base.{
  ℕ, ◌≡◌, ◌<◌, refl, List, [], ◌∷◌, ◌++◌, Option, some, none, ◌==◌, if◌then◌else◌, arith,
}
use telldb.Field.{FieldType, blob, text, null}
use telldb.FieldSerialize.{Codec, Codecs, serialize_field, deserialize_field, deserialize-serialize}

abbrev read_2 : List ℕ → Option (ℕ × List ℕ)
read_2 (a ∷ _ ∷ rest) = some (a, rest)
read_2 _ = none

abbrev read_4 : List ℕ → Option (ℕ × List ℕ)
read_4 (a ∷ _ ∷ _ ∷ _ ∷ rest) = some (a, rest)
read_4 _ = none

abbrev read_8 : List ℕ → Option (ℕ × List ℕ)
read_8 (a ∷ _ ∷ _ ∷ _ ∷ _ ∷ _ ∷ _ ∷ _ ∷ rest) = some (a, rest)
read_8 _ = none

abbrev int_16 : Codec ℕ
int_16 = record {
  write = λ a. a ∷ 0 ∷ [];
  read = read_2;
  size = λ a. 2;
  InRange = λ a. a < 65536;
  read-write = λ a h rest. refl;
  length-write = λ a. refl;
}

abbrev int_32 : Codec ℕ
int_32 = record {
  write = λ a. a ∷ 0 ∷ 0 ∷ 0 ∷ [];
  read = read_4;
  size = λ a. 4;
  InRange = λ a. a < 4294967296;
  read-write = λ a h rest. refl;
  length-write = λ a. refl;
}

abbrev int_64 : Codec ℕ
int_64 = record {
  write = λ a. a ∷ 0 ∷ 0 ∷ 0 ∷ 0 ∷ 0 ∷ 0 ∷ 0 ∷ [];
  read = read_8;
  size = λ a. 8;
  InRange = λ a. a < 18446744073709551616;
  read-write = λ a h rest. refl;
  length-write = λ a. refl;
}

abbrev type_number : FieldType → ℕ
type_number FieldType.no_type = 0
type_number FieldType.null_type = 1
type_number FieldType.small_int = 2
type_number FieldType.normal_int = 3
type_number FieldType.big_int = 4
type_number FieldType.float_nr = 5
type_number FieldType.double_nr = 6
type_number FieldType.text_string = 7
type_number FieldType.blob_string = 8

abbrev type_of_number : ℕ → FieldType
type_of_number n =
    if n == 0
    then FieldType.no_type
    else if n == 1
    then FieldType.null_type
    else if n == 2
    then FieldType.small_int
    else if n == 3
    then FieldType.normal_int
    else if n == 4
    then FieldType.big_int
    else if n == 5
    then FieldType.float_nr
    else if n == 6
    then FieldType.double_nr
    else if n == 7
    then FieldType.text_string
    else FieldType.blob_string

abbrev read_type : List ℕ → Option (FieldType × List ℕ)
read_type [] = none
read_type (n ∷ rest) = some (type_of_number n, rest)

read_type_number :
    (t : FieldType) (rest : List ℕ) → read_type (type_number t ∷ rest) ≡ some (t, rest)
read_type_number FieldType.no_type rest = refl
read_type_number t rest = refl

abbrev types : Codec FieldType
types = record {
  write = λ t. type_number t ∷ [];
  read = read_type;
  size = λ t. 1;
  InRange = λ t. Unit;
  read-write = λ t h rest. read_type_number t rest;
  length-write = λ t. refl;
}

abbrev plain_codecs : Codecs ℕ ℕ ℕ
plain_codecs = record {
  type = types;
  int_16 = int_16;
  int_32 = int_32;
  int_64 = int_64;
  float_codec = int_32;
  double_codec = int_64;
  string = int_32;
  string_size = λ s. 0;
  type_size = 1;
  every_type = λ t. tt;
  size_type = λ t. refl;
  size_16 = λ a. refl;
  size_32 = λ a. refl;
  size_64 = λ a. refl;
  size_float = λ a. refl;
  size_double = λ a. refl;
  size_string = λ s. omega arith;
}

-- A BLOB comes back as a TEXT.
deserialize-serialize_example :
    deserialize_field plain_codecs null (serialize_field plain_codecs (blob 5) ++ 77 ∷ [])
    ≡ some (text 5, 77 ∷ [])
deserialize-serialize_example =
    deserialize-serialize plain_codecs null (blob 5) (77 ∷ []) (omega arith)
