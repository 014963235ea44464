-- ===== src/Tuple/Layout.antt =====
-- What a record promises of its fields, and what one round of `serialize` does by these promises.
use telldb.Base.{
  ℕ, zero, suc, All, ◌+◌, ◌≤◌, ◌<◌, ◌≡◌, ◌≢◌, List, [], ◌∷◌, true, false, not, length, ◌⊎◌, ◌-◌,
}
use telldb.Errors.{ok}
use telldb.Field.{Field, FieldType, null, smallint, normalint, bigint, float, double, text, blob}
use telldb.Transaction.Values.{SchemaField}
use telldb.Field.Union.{is_string}
use telldb.Tuple.{Record, FieldMeta, Bytes, write_field, read_field}
use telldb.Tuple.Buffer.{Memory, load, decode, HasBytes}

-- The bytes of a value, or of the offset of a string.
abbrev pub width : FieldType → ℕ
width FieldType.small_int = 2
width FieldType.normal_int = 4
width FieldType.big_int = 8
width FieldType.float_nr = 4
width FieldType.double_nr = 8
width FieldType.text_string = 4
width FieldType.blob_string = 4
width _ = 0

-- A null bit belongs to one field; fields that may not be null have none.
abbrev pub Apart : FieldMeta → FieldMeta → Type 0
Apart a b = a.field.not_null ≡ false → b.field.not_null ≡ false → a.null_idx ≢ b.null_idx

pub record Laws (r : Record) : Type 0 where
  pub data_type : (m : Memory) (a : FieldMeta) → (r.data_of m a).1 ≡ a.field.type
  pub data_offset : (m : Memory) (a : FieldMeta) → (r.data_of m a).2 ≡ a.offset
  pub data_header :
      (m m' : Memory) (a : FieldMeta)
      → ((y : ℕ) → y < r.header_size → m' y ≡ m y)
      → (r.data_of m' a).0 ≡ (r.data_of m a).0
  pub data_not_null :
      (m : Memory) (a : FieldMeta) → a.field.not_null ≡ true → (r.data_of m a).0 ≡ false
  pub data_zeros :
      (m : Memory) (a : FieldMeta)
      → ((y : ℕ) → y < r.header_size → m y ≡ 0)
      → (r.data_of m a).0 ≡ false
  pub all_is : r.all_not_null ≡ true → All (λ a. a.field.not_null ≡ true) r.fields
  pub null_set :
      (m : Memory) (a : FieldMeta)
      → a.null_idx < r.null_bits
      → a.field.not_null ≡ false
      → (r.data_of (r.set_field_null m a.null_idx) a).0 ≡ true
  pub null_other :
      (m : Memory) (a b : FieldMeta)
      → a.null_idx < r.null_bits
      → a.field.not_null ≡ false
      → b.field.not_null ≡ false
      → a.null_idx ≢ b.null_idx
      → (r.data_of (r.set_field_null m a.null_idx) b).0 ≡ (r.data_of m b).0
  pub null_header :
      (m : Memory) (i y : ℕ) → i < r.null_bits → r.header_size ≤ y → r.set_field_null m i y ≡ m y
  pub fixed_is : (f : SchemaField) → r.is_fixed_sized f ≡ not (is_string f.type)
  pub size_is : (f : SchemaField) → r.is_fixed_sized f ≡ true → r.field_size f ≡ width f.type
  pub align_≤ : (n : ℕ) → n ≤ r.align n 8

pub record ByteLaws {F D S : Type 0} (bytes : Bytes F D S) : Type 0 where
  pub float_length : (a : F) → length (bytes.float_bytes a) ≡ 4
  pub float_back : (a : F) → bytes.bytes_float (bytes.float_bytes a) ≡ a
  pub double_length : (a : D) → length (bytes.double_bytes a) ≡ 8
  pub double_back : (a : D) → bytes.bytes_double (bytes.double_bytes a) ≡ a
  pub string_back : (a : S) → bytes.bytes_string (bytes.string_bytes a) ≡ a

module _ {F D S : Type 0} (bytes : Bytes F D S) where
  -- A value of a type, an integer in its range.
  abbrev pub Holds : FieldType → Field F D S → Type 0
  Holds FieldType.small_int (smallint a) = HasBytes 2 a
  Holds FieldType.normal_int (normalint a) = HasBytes 4 a
  Holds FieldType.big_int (bigint a) = HasBytes 8 a
  Holds FieldType.float_nr (float a) = Unit
  Holds FieldType.double_nr (double a) = Unit
  Holds FieldType.text_string (text a) = Unit
  Holds FieldType.blob_string (blob a) = Unit
  Holds _ _ = ⊥

  abbrev pub Fits : SchemaField → Field F D S → Type 0
  Fits f v = ((v ≡ null) × (f.not_null ≡ false)) ⊎ Holds f.type v

  abbrev pub string_size : Field F D S → ℕ
  string_size (text s) = length (bytes.string_bytes s)
  string_size (blob s) = length (bytes.string_bytes s)
  string_size _ = 0

  -- What a field is read back as.
  abbrev pub read_as : Field F D S → Field F D S
  read_as (blob s) = text s
  read_as v = v

  -- What a round has done to the buffer, and that the field is read back from any buffer that
  -- agrees with it where the field lies.
  pub record RoundOf (r : Record) (a : FieldMeta) (v : Field F D S) (m : Memory) (heap : ℕ)
      (m' : Memory) : Type 0 where
    pub result : write_field r bytes a (m, heap) v ≡ ok (m', heap + string_size v)
    pub low : (y : ℕ) → r.header_size ≤ y → y < a.offset → m' y ≡ m y
    pub mid : (y : ℕ) → a.offset + width a.field.type ≤ y → y < heap → m' y ≡ m y
    pub high : (y : ℕ) → heap + string_size v ≤ y → m' y ≡ m y
    pub others : (b : FieldMeta) → Apart a b → (r.data_of m' b).0 ≡ (r.data_of m b).0
    pub offset_of : is_string a.field.type ≡ true → decode (load 4 m' a.offset) ≡ heap
    pub back :
        (M : Memory)
        → ((y : ℕ) → a.offset ≤ y → y < a.offset + width a.field.type → M y ≡ m' y)
        → ((y : ℕ) → heap ≤ y → y < heap + string_size v → M y ≡ m' y)
        → ((r.data_of M a).0 ≡ (r.data_of m' a).0)
        → (is_string a.field.type ≡ true → decode (load 4 M (a.offset + 4)) ≡ heap + string_size v)
        → read_field r bytes M a ≡ ok (read_as v)

module _ (r : Record) where
  -- Where the first offset lies, that of the end after all fields.
  abbrev pub next_slot : List FieldMeta → ℕ
  next_slot [] = r.static_size - 4
  next_slot (a ∷ as') = a.offset

  abbrev pub AllStrings : List FieldMeta → Type 0
  AllStrings = All (λ a. is_string a.field.type ≡ true)

  -- The fields lie one after the other from `start` to the end of the static part, and those of
  -- variable size are last and leave no gaps.
  abbrev pub Slots : ℕ → List FieldMeta → Type 0
  Slots start [] = (start ≤ r.static_size) × (r.has_var_fields ≡ true → start + 4 ≤ r.static_size)
  Slots start (a ∷ as') =
      (start ≤ a.offset)
      × (is_string a.field.type ≡ true
          → (next_slot as' ≡ a.offset + 4) × (r.has_var_fields ≡ true) × AllStrings as')
      × Slots (a.offset + width a.field.type) as'

-- The fields of fixed size come first.
abbrev pub FixedFirst : ℕ → List FieldMeta → Type 0
FixedFirst zero as' = All (λ a. is_string a.field.type ≡ true) as'
FixedFirst (suc n) [] = Unit
FixedFirst (suc n) (a ∷ as') = (is_string a.field.type ≡ false) × FixedFirst n as'

abbrev pub AllApart : Record → List FieldMeta → Type 0
AllApart r [] = Unit
AllApart r (a ∷ as') =
    All (Apart a) as' × AllApart r as' × (a.field.not_null ≡ false → a.null_idx < r.null_bits)

module _ {F D S : Type 0} (bytes : Bytes F D S) where
  abbrev pub FitsAll : List FieldMeta → List (Field F D S) → Type 0
  FitsAll [] [] = Unit
  FitsAll (a ∷ as') (v ∷ vs) = Fits bytes a.field v × FitsAll as' vs
  FitsAll _ _ = ⊥

  abbrev pub strings_size : List (Field F D S) → ℕ
  strings_size [] = 0
  strings_size (v ∷ vs) = string_size bytes v + strings_size vs
