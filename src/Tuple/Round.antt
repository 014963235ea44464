-- ===== src/Tuple/Round.antt =====
-- One round of `serialize`, for any value.
use telldb.Base.{
  ℕ, ◌+◌, ◌≤◌, ◌<◌, ◌≡◌, refl, sym, ap, ◌∙◌, true, false, arith, Bool-cases, inl, inr,
}
use telldb.Errors.{ok}
use telldb.Field.{Field, FieldType, type_of, same_type, null, text, blob}
use telldb.Tuple.{Record, FieldMeta, Bytes, write_field, deserialize}
use telldb.Tuple.Buffer.{Memory, zeros, encode, length-encode, length-zeros, decode-encode}
use telldb.Field.Union.{is_string}
use telldb.Tuple.Layout.{width, Laws, ByteLaws, Holds, Fits, string_size, RoundOf}
use telldb.Tuple.Steps.{number-RoundOf}
use telldb.Tuple.Strings.{string-RoundOf, null-RoundOf}

pub width_string : (t : FieldType) → is_string t ≡ true → width t ≡ 4
width_string FieldType.text_string s = refl
width_string FieldType.blob_string s = refl
width_string _ s = cc

module _ {F D S : Type 0} (r : Record) (bytes : Bytes F D S) (laws : Laws r)
    (byte_laws : ByteLaws bytes) where
  module _ (a : FieldMeta) (m : Memory) (heap : ℕ) (header : r.header_size ≤ a.offset)
      (room : a.offset + width a.field.type ≤ heap) (fresh : (r.data_of m a).0 ≡ false) where
    string_round :
        (t : FieldType) (v : Field F D S)
        → heap + string_size bytes v < 4294967296
        → a.field.type ≡ t
        → is_string t ≡ true
        → Holds bytes t v
        → (m' : Memory) × RoundOf bytes r a v m heap m'
    unfolding write_field same_type type_of deserialize
    string_round FieldType.text_string (text x) small e s h = (
      _,
      string-RoundOf r bytes laws byte_laws a m heap header room (text x) x (rw e refl) small fresh
          refl (rw e refl) (λ M q. rw e (ap (λ y. ok (text y)) q)) (rw e refl),
    )
    string_round FieldType.blob_string (blob x) small e s h = (
      _,
      string-RoundOf r bytes laws byte_laws a m heap header room (blob x) x (rw e refl) small fresh
          refl (rw e refl) (λ M q. rw e (ap (λ y. ok (text y)) q)) (rw e refl),
    )
    string_round FieldType.no_type v small e s h = cc
    string_round FieldType.null_type v small e s h = cc
    string_round FieldType.small_int v small e s h = cc
    string_round FieldType.normal_int v small e s h = cc
    string_round FieldType.big_int v small e s h = cc
    string_round FieldType.float_nr v small e s h = cc
    string_round FieldType.double_nr v small e s h = cc
    string_round _ _ small e s h = absurd h

    null_round :
        heap < 4294967296
        → a.field.not_null ≡ false
        → a.null_idx < r.null_bits
        → (m' : Memory) × RoundOf bytes r a null m heap m'
    unfolding write_field same_type type_of
    null_round small n bit = elim (Bool-cases (r.is_fixed_sized a.field)) [
      | inl e ↦ (
        _,
        null-RoundOf r bytes laws byte_laws a m heap header room n bit
            (zeros (r.field_size a.field))
            (length-zeros (r.field_size a.field) ∙ laws.size_is a.field e) (ground (arith, n, e))
            (λ s. absurd (ground (arith, laws.fixed_is a.field, e, s))),
      )
      | inr e ↦ (
        _,
        null-RoundOf r bytes laws byte_laws a m heap header room n bit (encode 4 heap)
            (length-encode 4 heap
              ∙ sym (width_string a.field.type (ground (arith, laws.fixed_is a.field, e))))
            (ground (arith, n, e))
            (λ s. (width_string a.field.type s, decode-encode 4 heap (omega (arith, small)))),
      )
    ]

    pub round :
        (v : Field F D S)
        → heap + string_size bytes v < 4294967296
        → Fits bytes a.field v
        → (a.field.not_null ≡ false → a.null_idx < r.null_bits)
        → (m' : Memory) × RoundOf bytes r a v m heap m'
    round v small fits bit = elim fits [
      | inl z ↦
          let (m', x) = null_round (omega (arith, small)) z.1 (bit z.1) in (m', rw (sym z.0) at x)
      | inr h ↦ elim (Bool-cases (is_string a.field.type)) [
        | inl s ↦ string_round a.field.type v small refl s h
        | inr s ↦
            number-RoundOf r bytes laws byte_laws a m heap header room fresh a.field.type v refl s h
      ]
    ]
