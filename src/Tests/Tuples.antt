-- ===== src/Tests/Tuples.antt =====
-- A record of an integer, a text and a blob.
use Prim.Native.Nat.{Ordering}
use Prim.Native.String.{String, compare}
use telldb.Base.{
  ℕ, ◌+◌, ◌*◌, ◌/◌, ◌≤◌, ◌≡◌, refl, List, [], ◌∷◌, map, Bool, true, false, not, ◌||◌, leb, ◌==◌,
  if◌then◌else◌, arith, Option, some, none, Bool-cases, inl, inr,
}
use telldb.Errors.{ok, err, invalid_argument}
use telldb.Field.{Field, FieldType, same_type, type_of, normalint, text, null}
use telldb.Transaction.Values.{Schema, SchemaField, build_tuple}
use telldb.Tuple.{Record, FieldMeta, Bytes, size, serialize, read_tuple}
use telldb.Tuple.Buffer.{Memory, put}
use telldb.Field.Union.{is_string}
use telldb.Tuple.Layout.{Slots, AllApart, Laws, ByteLaws, width, read_as}
use telldb.Tuple.RoundTrip.{read_tuple-serialize}
use telldb.Tuple.Errors.{serialize-OkIf, build_tuple-serialize}

abbrev Value : Type 0
Value = Field (Unit {0}) (Unit {0}) (List ℕ)

abbrev schema_field : String → FieldType → Bool → SchemaField
schema_field name type not_null = record { name = name; type = type; not_null = not_null }

abbrev meta : String → FieldType → Bool → ℕ → ℕ → FieldMeta
meta name type not_null offset i = record {
  field = schema_field name type not_null;
  offset = offset;
  null_idx = i;
}

abbrev metas : List FieldMeta
metas =
    meta "id" FieldType.normal_int true 4 0
    ∷ meta "name" FieldType.text_string false 8 0
    ∷ meta "photo" FieldType.blob_string false 12 1
    ∷ []

abbrev person : Record
person = record {
  static_size = 20;
  header_size = 2;
  all_not_null = false;
  fields = metas;
  fixed_fields = 1;
  has_var_fields = true;
  null_bits = 2;
  is_fixed_sized = λ f. not (is_string f.type);
  field_size = λ f. width f.type;
  set_field_null = λ m i. put 1 m i;
  data_of = λ m a. (
    if leb 2 a.null_idx || a.field.not_null then false else not (m a.null_idx == 0),
    a.field.type,
    a.offset,
  );
  align = λ n k. (n + 7) / 8 * 8;
}

abbrev list_bytes : Bytes (Unit {0}) (Unit {0}) (List ℕ)
list_bytes = record {
  float_bytes = λ a. 0 ∷ 0 ∷ 0 ∷ 0 ∷ [];
  bytes_float = λ bs. tt;
  double_bytes = λ a. 0 ∷ 0 ∷ 0 ∷ 0 ∷ 0 ∷ 0 ∷ 0 ∷ 0 ∷ [];
  bytes_double = λ bs. tt;
  string_bytes = λ s. s;
  bytes_string = λ s. s;
}

list_bytes-ByteLaws : ByteLaws list_bytes
list_bytes-ByteLaws = record {
  float_length = λ a. refl;
  float_back = λ a. refl;
  double_length = λ a. refl;
  double_back = λ a. refl;
  string_back = λ a. refl;
}

person-Laws : Laws person
person-Laws = record {
  data_type = λ m a. refl;
  data_offset = λ m a. refl;
  data_header = λ m m' a h. elim (Bool-cases (leb 2 a.null_idx)) [
    | inl e ↦ rw e refl
    | inr e ↦ rw (h a.null_idx (ground (arith, e))) refl
  ];
  data_not_null = λ m a h. ground (arith, h);
  data_zeros = λ m a h. elim (Bool-cases (leb 2 a.null_idx)) [
    | inl e ↦ rw e refl
    | inr e ↦ let z = h a.null_idx (ground (arith, e)) in ground (arith, z)
  ];
  all_is = λ h. cc;
  null_set = λ m a i n. ground (arith, i, n);
  null_other = λ m a b i n k d. ground (arith, i, n, k, d);
  null_header = λ m i y h g. ground (arith, h, g);
  fixed_is = λ f. refl;
  size_is = λ f h. refl;
  align_≤ = λ n. omega arith;
}

metas-Slots : Slots person 2 metas
metas-Slots = (
  omega arith,
  (λ e. cc),
  (
    omega arith,
    (λ e. (refl, refl, (refl, tt))),
    (omega arith, (λ e. (refl, refl, tt)), (omega arith, (λ e. omega arith))),
  ),
)

metas-AllApart : AllApart person metas
metas-AllApart = (
  ((λ n k. cc), ((λ n k. cc), tt)),
  (((λ n k e. omega (arith, e)), tt), (tt, tt, (λ e. omega arith)), (λ e. omega arith)),
  (λ n. cc),
)

-- A person without a photo.
abbrev values : List Value
values = normalint 7 ∷ text (104 ∷ 105 ∷ []) ∷ null ∷ []

read_tuple-serialize_example :
    (n : ℕ) × (m : Memory) × (size person list_bytes values ≡ ok n)
    × (serialize person list_bytes values (λ y. 255) ≡ ok m)
    × ((y : ℕ) → n ≤ y → m y ≡ 255)
    × (read_tuple person list_bytes m ≡ ok (map (read_as list_bytes) values))
read_tuple-serialize_example =
    read_tuple-serialize person list_bytes person-Laws list_bytes-ByteLaws values (λ y. 255)
      metas-Slots (refl, (refl, (refl, tt))) metas-AllApart
      (inr refl, (inr tt, (inl (refl, refl), tt))) (omega arith)

serialize-OkIf_example :
    serialize person list_bytes (null ∷ null ∷ null ∷ []) (λ y. 0) ≡ err invalid_argument
serialize-OkIf_example = serialize-OkIf person list_bytes (null ∷ null ∷ null ∷ []) (λ y. 0) refl

abbrev person_schema : Schema
person_schema = record {
  fixed_size_fields = schema_field "id" FieldType.normal_int true ∷ [];
  var_size_fields =
      schema_field "name" FieldType.text_string false
      ∷ schema_field "photo" FieldType.blob_string false
      ∷ [];
}

abbrev only_id : String → Option Value
only_id name = elim (compare name "id") [ Ordering.eq ↦ some (normalint 7) | _ ↦ none ]

build_tuple-serialize_example :
    (m : Memory) × (serialize person list_bytes (normalint 7 ∷ null ∷ null ∷ []) (λ y. 0) ≡ ok m)
unfolding build_tuple same_type type_of
build_tuple-serialize_example =
    build_tuple-serialize person list_bytes only_id person_schema (normalint 7 ∷ null ∷ null ∷ [])
      (λ y. 0) refl ((refl, refl), ((refl, refl), ((refl, refl), tt))) refl
