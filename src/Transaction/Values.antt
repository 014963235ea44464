-- ===== src/Transaction/Values.antt =====
-- `insert` of values by the names of their fields (src/Transaction.cpp): the tuple that it builds.
use Prim.Native.String.{String}
use telldb.Base.{
  ◌≡◌, refl, ap, subst, ◌∙◌, List, [], ◌∷◌, ◌++◌, map, Option, none, some, Bool, true, false, arith,
  Bool-cases, inl, inr, if◌then◌else◌, ◌⊎◌,
}
use telldb.Errors.{Result, ok, err, field_not_set, wrong_field_type}
use telldb.Field.{Field, FieldType, type_of, same_type, null}

-- `store::Field`, of which the code reads the name, the type and whether it may be null.
pub record SchemaField : Type 0 where
  pub name : String
  pub type : FieldType
  pub not_null : Bool

-- `store::Schema`
pub record Schema : Type 0 where
  pub fixed_size_fields : List SchemaField
  pub var_size_fields : List SchemaField

module _ {F D S : Type 0} (find : String → Option (Field F D S)) where
  abbrev pub set_null : SchemaField → Result (Field F D S)
  set_null f = if f.not_null then err (field_not_set f.name) else ok null

  -- `setField`: what becomes of the tuple's field.
  unfoldable pub set_field : SchemaField → Result (Field F D S)
  unfolding same_type type_of
  set_field f = elim (find f.name) [
    | none ↦ set_null f
    | some v ↦
        if same_type (type_of v) FieldType.null_type
        then set_null f
        else if same_type f.type (type_of v)
        then ok v
        else err (wrong_field_type f.name)
  ]

  abbrev pub followed_by :
      Result (Field F D S) → Result (List (Field F D S)) → Result (List (Field F D S))
  followed_by (err e) r = err e
  followed_by (ok v) (err e) = err e
  followed_by (ok v) (ok vs) = ok (v ∷ vs)

  unfoldable pub set_fields : List SchemaField → Result (List (Field F D S))
  unfolding set_field
  set_fields [] = ok []
  set_fields (f ∷ fs) = let rest = set_fields fs in followed_by (set_field f) rest

  -- The two loops, over the fields of fixed size and over the others.
  unfoldable pub build_tuple : Schema → Result (List (Field F D S))
  unfolding set_fields
  build_tuple schema = set_fields (schema.fixed_size_fields ++ schema.var_size_fields)

  -- A tuple fits its schema: a value has the type of its field, and null stands only where it may.
  abbrev pub FitsField : SchemaField → Field F D S → Type 0
  FitsField f v = ((v ≡ null) × (f.not_null ≡ false)) ⊎ (same_type f.type (type_of v) ≡ true)

  abbrev pub FitsFields : List SchemaField → List (Field F D S) → Type 0
  FitsFields [] [] = Unit
  FitsFields (f ∷ fs) (v ∷ vs) = FitsField f v × FitsFields fs vs
  FitsFields _ _ = ⊥

  -- The value that was given for a field, or null.
  abbrev pub given : SchemaField → Field F D S
  given f = elim (find f.name) [ none ↦ null | some v ↦ v ]

  null_only : (v : Field F D S) → same_type (type_of v) FieldType.null_type ≡ true → v ≡ null
  unfolding same_type type_of
  null_only null h = refl
  null_only _ h = absurd (ground arith)

  set_null-ok :
      (f : SchemaField) (v : Field F D S) → set_null f ≡ ok v → (null ≡ v) × (f.not_null ≡ false)
  set_null-ok f v h = elim (Bool-cases f.not_null) [
    | inl e ↦ absurd (ground arith)
    | inr e ↦ (ground arith, e)
  ]

  set_field-FitsField :
      (f : SchemaField) (v : Field F D S) → set_field f ≡ ok v → FitsField f v × (v ≡ given f)
  unfolding set_field
  set_field-FitsField f v h = go (find f.name) refl
    where
      go : (o : Option (Field F D S)) → find f.name ≡ o → FitsField f v × (v ≡ given f)
      go none e = let n = set_null-ok f v (ground arith) in (inl (ground arith, n.1), ground arith)
      go (some u) e = elim (Bool-cases (same_type (type_of u) FieldType.null_type)) [
        | inl q ↦
            let n = set_null-ok f v (ground arith) in
            let z = null_only u q in (inl (ground arith, n.1), ground arith)
        | inr q ↦ elim (Bool-cases (same_type f.type (type_of u))) [
          | inl t ↦
              let same : u ≡ v = ground arith in
              (inr (subst (λ x. same_type f.type (type_of x) ≡ true) same t), ground arith)
          | inr t ↦ absurd (ground arith)
        ]
      ]

  set_fields-FitsFields :
      (fs : List SchemaField) (vs : List (Field F D S))
      → set_fields fs ≡ ok vs
      → FitsFields fs vs × (vs ≡ map given fs)
  unfolding set_fields
  set_fields-FitsFields [] [] h = (tt, refl)
  set_fields-FitsFields [] (v ∷ vs) h = absurd (ground arith)
  set_fields-FitsFields (f ∷ fs) vs h =
      go (set_fields-FitsFields fs) (set_field f) (set_fields fs) refl refl
    where
      go :
          ((us : List (Field F D S))
            → set_fields fs ≡ ok us
            → FitsFields fs us × (us ≡ map given fs))
          → (r : Result (Field F D S)) (q : Result (List (Field F D S))) → set_field f ≡ r
          → set_fields fs ≡ q
          → FitsFields (f ∷ fs) vs × (vs ≡ map given (f ∷ fs))
      go ih (err e) q k l = absurd (ground arith)
      go ih (ok v) (err e) k l = absurd (ground arith)
      go ih (ok v) (ok us) k l =
          let same : v ∷ us ≡ vs = ground arith in
          let a = set_field-FitsField f v k in
          let b = ih us l in
          subst (λ ws. FitsFields (f ∷ fs) ws × (ws ≡ map given (f ∷ fs))) same
            ((a.0, b.0), ap (λ x. x ∷ us) a.1 ∙ ap (λ xs. given f ∷ xs) b.1)

  -- A tuple that `insert` builds of named values fits its schema: it has a value for each field in
  -- order, each is of the type of its field or is null where the field may be, and each is the value
  -- that was given for the name of the field, or null where none was.
  pub build_tuple-FitsFields :
      (schema : Schema) (tuple : List (Field F D S))
      → build_tuple schema ≡ ok tuple
      → FitsFields (schema.fixed_size_fields ++ schema.var_size_fields) tuple
        × (tuple ≡ map given (schema.fixed_size_fields ++ schema.var_size_fields))
  unfolding build_tuple
  build_tuple-FitsFields schema tuple h =
      set_fields-FitsFields (schema.fixed_size_fields ++ schema.var_size_fields) tuple h
