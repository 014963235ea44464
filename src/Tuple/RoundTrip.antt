-- ===== src/Tuple/RoundTrip.antt =====
-- The size of a tuple, and its whole serialization, which is read back.
use telldb.Base.{
  ℕ, zero, suc, drop, All, map, ◌+◌, ◌≤◌, ◌<◌, ◌≡◌, refl, ap, ◌∙◌, List, [], ◌∷◌, true, false,
  arith, Bool-cases, inl, inr, if◌then◌else◌,
}
use telldb.Errors.{ok}
use telldb.Field.{Field, FieldType, smallint, normalint, bigint, float, double, text, blob}
use telldb.Tuple.{Record, FieldMeta, Bytes, read_tuple, serialize, size, add_strings}
use telldb.Tuple.Buffer.{Memory, store, zeros, length-zeros, store-above}
use telldb.Field.Union.{is_string}
use telldb.Tuple.Layout.{
  Slots, AllApart, FixedFirst, FitsAll, strings_size, Laws, ByteLaws, Holds, string_size, read_as,
}
use telldb.Tuple.Serialize.{serialize_from-Written, Slots-≤}
use telldb.Tuple.Buffer.{store-zeros}

module _ {F D S : Type 0} (r : Record) (bytes : Bytes F D S) where
  string_value :
      (n : ℕ) (t : FieldType) (v : Field F D S) (vs : List (Field F D S))
      → is_string t ≡ true
      → Holds bytes t v
      → add_strings r bytes n (v ∷ vs) ≡ add_strings r bytes (n + string_size bytes v) vs
  string_value n FieldType.text_string (text x) vs s h = refl
  string_value n FieldType.blob_string (blob x) vs s h = refl
  string_value n FieldType.text_string _ vs s h = absurd h
  string_value n FieldType.blob_string _ vs s h = absurd h
  string_value n _ v vs s h = cc

  number_value :
      (t : FieldType) (v : Field F D S)
      → is_string t ≡ false
      → Holds bytes t v
      → string_size bytes v ≡ 0
  number_value FieldType.small_int (smallint a) s h = refl
  number_value FieldType.normal_int (normalint a) s h = refl
  number_value FieldType.big_int (bigint a) s h = refl
  number_value FieldType.float_nr (float a) s h = refl
  number_value FieldType.double_nr (double a) s h = refl
  number_value FieldType.text_string v s h = cc
  number_value FieldType.blob_string v s h = cc
  number_value _ _ s h = absurd h

  add_strings-strings_size :
      (n : ℕ) (metas : List FieldMeta) (vs : List (Field F D S))
      → All (λ a. is_string a.field.type ≡ true) metas
      → FitsAll bytes metas vs
      → add_strings r bytes n vs ≡ ok (n + strings_size bytes vs)
  add_strings-strings_size n [] [] s f = ap ok (omega arith)
  add_strings-strings_size n [] (v ∷ vs) s f = absurd f
  add_strings-strings_size n (a ∷ metas) [] s f = absurd f
  add_strings-strings_size n (a ∷ metas) (v ∷ vs) s f = elim f.0 [
    | inl z ↦ rw z.0 (add_strings-strings_size n metas vs s.1 f.1 ∙ ap ok (omega arith))
    | inr h ↦
        string_value n a.field.type v vs s.0 h
        ∙ add_strings-strings_size (n + string_size bytes v) metas vs s.1 f.1
        ∙ ap ok (omega arith)
  ]

  drop-add_strings :
      (k n : ℕ) (metas : List FieldMeta) (vs : List (Field F D S))
      → FixedFirst k metas
      → FitsAll bytes metas vs
      → add_strings r bytes n (drop k vs) ≡ ok (n + strings_size bytes vs)
  drop-add_strings zero n metas vs h f = add_strings-strings_size n metas vs h f
  drop-add_strings (suc k) n [] [] h f = ap ok (omega arith)
  drop-add_strings (suc k) n [] (v ∷ vs) h f = absurd f
  drop-add_strings (suc k) n (a ∷ metas) [] h f = absurd f
  drop-add_strings (suc k) n (a ∷ metas) (v ∷ vs) h f =
      let z : string_size bytes v ≡ 0 = elim f.0 [
        | inl e ↦ rw e.0 refl
        | inr q ↦ number_value a.field.type v h.0 q
      ] in
      drop-add_strings k n metas vs h.1 f.1 ∙ ap ok (omega (arith, z))

  module _ (laws : Laws r) (byte_laws : ByteLaws bytes) where
    cleared : Memory → Memory
    cleared m = if r.all_not_null then m else store (zeros r.header_size) m 0

    not_null-fresh :
        (m : Memory) (metas : List FieldMeta)
        → All (λ a. a.field.not_null ≡ true) metas
        → All (λ a. (r.data_of m a).0 ≡ false) metas
    not_null-fresh m [] h = tt
    not_null-fresh m (a ∷ metas) h = (laws.data_not_null m a h.0, not_null-fresh m metas h.1)

    zeros-fresh :
        (m : Memory) (metas : List FieldMeta)
        → All (λ a. (r.data_of (store (zeros r.header_size) m 0) a).0 ≡ false) metas
    zeros-fresh m [] = tt
    zeros-fresh m (a ∷ metas) = (
      laws.data_zeros (store (zeros r.header_size) m 0) a
          (λ y h. store-zeros r.header_size m 0 y (omega arith) (omega (arith, h))),
      zeros-fresh m metas,
    )

    cleared-fresh : (m : Memory) → All (λ a. (r.data_of (cleared m) a).0 ≡ false) r.fields
    unfolding cleared
    cleared-fresh m = elim (Bool-cases r.all_not_null) [
      | inl e ↦ rw e (not_null-fresh m r.fields (laws.all_is e))
      | inr e ↦ rw e (zeros-fresh m r.fields)
    ]

    cleared_above : (m : Memory) (y : ℕ) → r.header_size ≤ y → cleared m y ≡ m y
    unfolding cleared
    cleared_above m y h = elim (Bool-cases r.all_not_null) [
      | inl e ↦ rw e refl
      | inr e ↦
          rw e
            (store-above (zeros r.header_size) m 0 y (omega (arith, h, length-zeros r.header_size)))
    ]

    -- For a record and bytes that keep their laws, and a record whose fields lie one after the other behind its header, those of variable size
    -- last and without gaps, and each with a null bit of its own where it may be null: a tuple whose
    -- values fit its fields, of less than 2 ^ 32 bytes, has a size and is serialized without an
    -- error, nothing is written to the buffer at or after the size, and the buffer is read back as
    -- the same values, but a BLOB as a TEXT.
    pub read_tuple-serialize :
        (values : List (Field F D S)) (m : Memory)
        → Slots r r.header_size r.fields
        → FixedFirst r.fixed_fields r.fields
        → AllApart r r.fields
        → FitsAll bytes r.fields values
        → r.static_size + strings_size bytes values < 4294967296
        → (n : ℕ) × (M : Memory) × (size r bytes values ≡ ok n)
          × (serialize r bytes values m ≡ ok M)
          × ((y : ℕ) → n ≤ y → M y ≡ m y)
          × (read_tuple r bytes M ≡ ok (map (read_as bytes) values))
    unfolding size serialize read_tuple cleared
    read_tuple-serialize values m sl ff apart ft small =
        let room = Slots-≤ r bytes laws byte_laws r.header_size r.fields sl in
        let (M, w) =
          serialize_from-Written r bytes laws byte_laws r.fields values r.header_size (cleared m)
            r.static_size sl (omega arith) ft apart (cleared-fresh m) (omega arith) small in
        let al = laws.align_≤ (r.static_size + strings_size bytes values) in
        (
          r.align (r.static_size + strings_size bytes values) 8,
          M,
          rw (drop-add_strings r.fixed_fields r.static_size r.fields values ff ft, size) refl,
          w.result,
          (λ y h. w.high y (omega (arith, h, al)) ∙ cleared_above m y (omega (arith, room, h, al))),
          w.reads,
        )
