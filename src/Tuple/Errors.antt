-- ===== src/Tuple/Errors.antt =====
-- The tuples that `serialize` refuses.
use Prim.Native.String.{String}
use telldb.Base.{
  Option, sym, subst, All, map, ◌++◌, ℕ, suc, ◌≡◌, refl, ap, ◌∙◌, List, [], ◌∷◌, Bool, true, false,
  not, ◌&&◌, arith, length, inl, inr, if◌then◌else◌,
}
use telldb.Errors.{Result, ok, err, invalid_argument}
use telldb.Field.{
  Field, FieldType, type_of, same_type, untyped, null, smallint, normalint, bigint, float, double,
  text, blob,
}
use telldb.Transaction.Values.{
  Schema, SchemaField, FitsField, FitsFields, build_tuple, build_tuple-FitsFields,
}
use telldb.Tuple.{Record, FieldMeta, Bytes, write_field, serialize, serialize_from}
use telldb.Tuple.Buffer.{Memory}

-- A result that is an error exactly if a test fails.
abbrev pub OkIf : {A : Type 0} → Bool → Result A → Type 0
OkIf {A} true x = (a : A) × (x ≡ ok a)
OkIf false x = x ≡ err invalid_argument

if-OkIf : {A : Type 0} (b : Bool) (x : A) → OkIf b (if b then ok x else err invalid_argument)
if-OkIf true x = (x, refl)
if-OkIf false x = refl

if_same : {A : Type 0} (b : Bool) (x : A) → (if b then x else x) ≡ x
if_same true x = refl
if_same false x = refl

nullable-OkIf :
    {A : Type 0} (not_null fixed : Bool) (x y : A)
    → OkIf (not not_null) (if not_null then err invalid_argument else if fixed then ok x else ok y)
nullable-OkIf true fixed x y = refl
nullable-OkIf false true x y = (x, refl)
nullable-OkIf false false x y = (y, refl)

module _ {F D S : Type 0} where
  -- A value of the type of its field, or null where the field may be.
  abbrev pub accepts : FieldMeta → Field F D S → Bool
  accepts a null = not a.field.not_null
  accepts a untyped = false
  accepts a v = same_type (type_of v) a.field.type

  abbrev pub accepts_all : List FieldMeta → List (Field F D S) → Bool
  accepts_all [] vs = true
  accepts_all (a ∷ metas) [] = false
  accepts_all (a ∷ metas) (v ∷ vs) = accepts a v && accepts_all metas vs

module _ {F D S : Type 0} (r : Record) (bytes : Bytes F D S) where
  write_field-OkIf :
      (a : FieldMeta) (v : Field F D S) (m : Memory) (heap : ℕ)
      → OkIf (accepts a v) (write_field r bytes a (m, heap) v)
  unfolding write_field same_type type_of
  write_field-OkIf a null m heap = nullable-OkIf a.field.not_null (r.is_fixed_sized a.field) _ _
  write_field-OkIf a untyped m heap =
      if_same (same_type FieldType.no_type a.field.type) (err invalid_argument)
  write_field-OkIf a (smallint x) m heap = if-OkIf (same_type FieldType.small_int a.field.type) _
  write_field-OkIf a (normalint x) m heap = if-OkIf (same_type FieldType.normal_int a.field.type) _
  write_field-OkIf a (bigint x) m heap = if-OkIf (same_type FieldType.big_int a.field.type) _
  write_field-OkIf a (float x) m heap = if-OkIf (same_type FieldType.float_nr a.field.type) _
  write_field-OkIf a (double x) m heap = if-OkIf (same_type FieldType.double_nr a.field.type) _
  write_field-OkIf a (text x) m heap = if-OkIf (same_type FieldType.text_string a.field.type) _
  write_field-OkIf a (blob x) m heap = if-OkIf (same_type FieldType.blob_string a.field.type) _

  serialize_from-OkIf :
      (metas : List FieldMeta) (vs : List (Field F D S)) (m : Memory) (heap : ℕ)
      → length vs ≡ length metas
      → OkIf (accepts_all metas vs) (serialize_from r bytes metas vs (m, heap))
  unfolding serialize_from
  serialize_from-OkIf [] vs m heap l = (_, refl)
  serialize_from-OkIf (a ∷ metas) [] m heap l = absurd (omega (arith, l))
  serialize_from-OkIf (a ∷ metas) (v ∷ vs) m heap l =
      go (accepts a v) (write_field r bytes a (m, heap) v) (write_field-OkIf a v m heap)
        (λ m' heap'. serialize_from-OkIf metas vs m' heap' (omega (arith, l)))
    where
      go :
          (b : Bool) (x : Result (Memory × ℕ))
          → OkIf b x
          → ((m' : Memory) (heap' : ℕ)
              → OkIf (accepts_all metas vs) (serialize_from r bytes metas vs (m', heap')))
          → OkIf
              (b && accepts_all metas vs)
              (elim x [ ok s' ↦ serialize_from r bytes metas vs s' | err e ↦ err e ])
      go true x o ih = rw o.1 (ih o.0.0 o.0.1)
      go false x o ih = rw o refl

  -- A tuple with a value for each field of its record is serialized if each value is of the type of
  -- its field, or is null and the field may be; otherwise `serialize` throws an `invalid_argument`.
  pub serialize-OkIf :
      (values : List (Field F D S)) (m : Memory)
      → length values ≡ length r.fields
      → OkIf (accepts_all r.fields values) (serialize r bytes values m)
  unfolding serialize
  serialize-OkIf values m l = serialize_from-OkIf r.fields values _ r.static_size l

-- A type that fields of a schema have.
abbrev pub Typed : SchemaField → Type 0
Typed f =
    (same_type f.type FieldType.no_type ≡ false) × (same_type f.type FieldType.null_type ≡ false)

same_type_comm : (s t : FieldType) → same_type s t ≡ same_type t s
unfolding same_type
same_type_comm FieldType.no_type FieldType.no_type = refl
same_type_comm FieldType.null_type FieldType.null_type = refl
same_type_comm FieldType.small_int FieldType.small_int = refl
same_type_comm FieldType.normal_int FieldType.normal_int = refl
same_type_comm FieldType.big_int FieldType.big_int = refl
same_type_comm FieldType.float_nr FieldType.float_nr = refl
same_type_comm FieldType.double_nr FieldType.double_nr = refl
same_type_comm FieldType.text_string FieldType.text_string = refl
same_type_comm FieldType.blob_string FieldType.blob_string = refl
same_type_comm _ _ = refl

module _ {F D S : Type 0} where
  FitsField-accepts :
      (find : String → Option (Field F D S)) (a : FieldMeta) (v : Field F D S)
      → Typed a.field
      → FitsField find a.field v
      → accepts a v ≡ true
  unfolding type_of
  FitsField-accepts find a null t (inl z) = rw z.1 refl
  FitsField-accepts find a v t (inl z) = cc
  FitsField-accepts find a null t (inr h) = cc
  FitsField-accepts find a untyped t (inr h) = cc
  FitsField-accepts find a v t (inr h) = same_type_comm (type_of v) a.field.type ∙ h

  FitsFields-accepts_all :
      (find : String → Option (Field F D S)) (metas : List FieldMeta) (vs : List (Field F D S))
      → All (λ a. Typed a.field) metas
      → FitsFields find (map (λ a. a.field) metas) vs
      → (accepts_all metas vs ≡ true) × (length vs ≡ length metas)
  FitsFields-accepts_all find [] [] t h = (refl, refl)
  FitsFields-accepts_all find [] (v ∷ vs) t h = absurd h
  FitsFields-accepts_all find (a ∷ metas) [] t h = absurd h
  FitsFields-accepts_all find (a ∷ metas) (v ∷ vs) t h =
      let (b, l) = FitsFields-accepts_all find metas vs t.1 h.1 in
      (rw (FitsField-accepts find a v t.0 h.0, b) refl, ap suc l)

  -- A tuple that `insert` builds of named values is serialized without an error by the record of
  -- its schema, whose fields have types.
  pub build_tuple-serialize :
      (r : Record) (bytes : Bytes F D S) (find : String → Option (Field F D S)) (schema : Schema)
      (values : List (Field F D S)) (m : Memory)
      → map (λ a. a.field) r.fields ≡ schema.fixed_size_fields ++ schema.var_size_fields
      → All (λ a. Typed a.field) r.fields
      → build_tuple find schema ≡ ok values
      → (M : Memory) × (serialize r bytes values m ≡ ok M)
  build_tuple-serialize r bytes find schema values m same typed b =
      let fit = build_tuple-FitsFields find schema values b in
      let (h, l) =
        FitsFields-accepts_all find r.fields values typed
          (subst (λ fs. FitsFields find fs values) (sym same) fit.0) in
      subst (λ x. OkIf x (serialize r bytes values m)) h (serialize-OkIf r bytes values m l)
