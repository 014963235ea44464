-- ===== src/Tuple.antt =====
-- `Tuple` (telldb/Tuple.hpp, src/Tuple.cpp): the fields of a tuple, their serialization into a
-- buffer and their deserialization. What a failed serialization leaves in the buffer is not kept,
-- and the assertions that addresses are aligned are not modelled.
pub mod Buffer
pub mod Layout
pub mod Steps
pub mod Strings
pub mod Round
pub mod Serialize
pub mod RoundTrip
pub mod Errors
use telldb.Base.{
  ℕ, ◌+◌, ◌-◌, ◌%◌, List, [], ◌∷◌, Bool, true, false, not, if◌then◌else◌, length, drop,
}
use telldb.Errors.{Result, ok, err, invalid_argument, out_of_range, dangling, assertion}
use telldb.Field.{
  Field, FieldType, type_of, same_type, untyped, null, smallint, normalint, bigint, float, double,
  text, blob,
}
use telldb.Transaction.Values.{SchemaField}
use telldb.Tuple.Buffer.{Memory, load, store, zeros, decode, encode}

-- `Record::FieldMetaData`: the field of the schema, where its value is, and its bit in the header.
pub record FieldMeta : Type 0 where
  pub field : SchemaField
  pub offset : ℕ
  pub null_idx : ℕ

-- `store::Record`, of which the code reads its sizes, its fields, the number of fields of fixed
-- size, whether there are others, and the number of null bits. `set_field_null` and `data` are its methods; `data` says of a
-- field whether it is null, its type, and where it is.
pub record Record : Type 0 where
  pub static_size : ℕ
  pub header_size : ℕ
  pub all_not_null : Bool
  pub fields : List FieldMeta
  pub fixed_fields : ℕ
  pub has_var_fields : Bool
  pub null_bits : ℕ
  pub is_fixed_sized : SchemaField → Bool
  pub field_size : SchemaField → ℕ
  pub set_field_null : Memory → ℕ → Memory
  pub data_of : Memory → FieldMeta → Bool × FieldType × ℕ
  pub align : ℕ → ℕ → ℕ

-- Floating point numbers and strings in memory.
pub record Bytes (F D S : Type 0) : Type 0 where
  pub float_bytes : F → List ℕ
  pub bytes_float : List ℕ → F
  pub double_bytes : D → List ℕ
  pub bytes_double : List ℕ → D
  pub string_bytes : S → List ℕ
  pub bytes_string : List ℕ → S

abbrev pub prepend : {A : Type 0} → Result A → Result (List A) → Result (List A)
prepend (err e) rest = err e
prepend (ok a) (err e) = err e
prepend (ok a) (ok as') = ok (a ∷ as')

module _ {F D S : Type 0} (r : Record) (bytes : Bytes F D S) where
  open bytes use {float_bytes, bytes_float, double_bytes, bytes_double, string_bytes, bytes_string}

  -- The characters between two offsets.
  abbrev pub string_at : Memory → ℕ → ℕ → S
  string_at m offset end = bytes_string (load ((end + (4294967296 - offset)) % 4294967296) m offset)

  unfoldable pub read_string : Memory → ℕ → S
  read_string m field = string_at m (decode (load 4 m field)) (decode (load 4 m (field + 4)))

  -- `deserialize`
  unfoldable pub deserialize : Memory → FieldType → ℕ → Result (Field F D S)
  unfolding read_string
  deserialize m FieldType.null_type field = ok null
  deserialize m FieldType.small_int field = ok (smallint (decode (load 2 m field)))
  deserialize m FieldType.normal_int field = ok (normalint (decode (load 4 m field)))
  deserialize m FieldType.big_int field = ok (bigint (decode (load 8 m field)))
  deserialize m FieldType.float_nr field = ok (float (bytes_float (load 4 m field)))
  deserialize m FieldType.double_nr field = ok (double (bytes_double (load 8 m field)))
  deserialize m FieldType.text_string field = ok (text (read_string m field))
  deserialize m FieldType.blob_string field = ok (text (read_string m field))
  deserialize m FieldType.no_type field = err assertion

  -- The constructor that reads the fields of a stored tuple, and that of an empty tuple.
  unfoldable pub read_field : Memory → FieldMeta → Result (Field F D S)
  unfolding deserialize
  read_field m meta =
      let (is_null, type, field) = r.data_of m meta in
      if is_null then ok null else deserialize m type field

  unfoldable pub read_fields : Memory → List FieldMeta → Result (List (Field F D S))
  unfolding read_field
  read_fields m [] = ok []
  read_fields m (meta ∷ metas) = let rest = read_fields m metas in prepend (read_field m meta) rest

  unfoldable pub read_tuple : Memory → Result (List (Field F D S))
  unfolding read_fields
  read_tuple m = read_fields m r.fields

  unfoldable pub empty_tuple : List FieldMeta → List (Field F D S)
  empty_tuple [] = []
  empty_tuple (meta ∷ metas) = null ∷ empty_tuple metas

  -- `value<crossbow::string>` of the fields from the first one of variable size on. That of a field
  -- which is neither a string nor null is undefined.
  abbrev pub add_strings : ℕ → List (Field F D S) → Result ℕ
  add_strings n [] = ok n
  add_strings n (null ∷ fs) = add_strings n fs
  add_strings n (text s ∷ fs) = add_strings (n + length (string_bytes s)) fs
  add_strings n (blob s ∷ fs) = add_strings (n + length (string_bytes s)) fs
  add_strings n (_ ∷ fs) = err dangling

  -- `size`
  unfoldable pub size : List (Field F D S) → Result ℕ
  size fields = elim (add_strings r.static_size (drop r.fixed_fields fields)) [
    | ok n ↦ ok (r.align n 8)
    | err e ↦ err e
  ]

  -- The buffer and `varHeapOffset`.
  abbrev pub write_null : FieldMeta → Memory × ℕ → Result (Memory × ℕ)
  write_null meta (m, heap) =
      if meta.field.not_null
      then err invalid_argument
      else let m' = r.set_field_null m meta.null_idx in
        if r.is_fixed_sized meta.field
        then ok (store (zeros (r.field_size meta.field)) m' meta.offset, heap)
        else ok (store (encode 4 heap) m' meta.offset, heap)

  abbrev pub write_string : FieldMeta → Memory × ℕ → S → Result (Memory × ℕ)
  write_string meta (m, heap) s = ok (
    store (string_bytes s) (store (encode 4 heap) m meta.offset) heap,
    heap + length (string_bytes s),
  )

  -- The switch.
  abbrev pub write_value : FieldMeta → Memory × ℕ → Field F D S → Result (Memory × ℕ)
  write_value meta (m, heap) untyped = err invalid_argument
  write_value meta (m, heap) null = err invalid_argument
  write_value meta (m, heap) (smallint a) = ok (store (encode 2 a) m meta.offset, heap)
  write_value meta (m, heap) (normalint a) = ok (store (encode 4 a) m meta.offset, heap)
  write_value meta (m, heap) (bigint a) = ok (store (encode 8 a) m meta.offset, heap)
  write_value meta (m, heap) (float a) = ok (store (float_bytes a) m meta.offset, heap)
  write_value meta (m, heap) (double a) = ok (store (double_bytes a) m meta.offset, heap)
  write_value meta (m, heap) (text s) = write_string meta (m, heap) s
  write_value meta (m, heap) (blob s) = write_string meta (m, heap) s

  -- One round of the loop of `serialize`.
  unfoldable pub write_field : FieldMeta → Memory × ℕ → Field F D S → Result (Memory × ℕ)
  unfolding same_type type_of
  write_field meta s value =
      if same_type (type_of value) FieldType.null_type
      then write_null meta s
      else if same_type (type_of value) meta.field.type
      then write_value meta s value
      else err invalid_argument

  -- The last offset, that of the end.
  abbrev pub write_end : Memory × ℕ → Memory
  write_end (m, heap) = if r.has_var_fields then store (encode 4 heap) m (r.static_size - 4) else m

  -- The rest of `serialize` from the round of a field on. `mFields` has a value for each field.
  unfoldable pub serialize_from : List FieldMeta → List (Field F D S) → Memory × ℕ → Result Memory
  serialize_from [] values s = ok (write_end s)
  serialize_from (meta ∷ metas) [] s = err dangling
  serialize_from (meta ∷ metas) (value ∷ values) s = elim (write_field meta s value) [
    | ok s' ↦ serialize_from metas values s'
    | err e ↦ err e
  ]

  -- `serialize`
  unfoldable pub serialize : List (Field F D S) → Memory → Result Memory
  unfolding serialize_from
  serialize values m =
      serialize_from r.fields values
        (if r.all_not_null then m else store (zeros r.header_size) m 0, r.static_size)
