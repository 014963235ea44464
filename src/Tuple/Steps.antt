-- ===== src/Tuple/Steps.antt =====
-- One round of `serialize` for a number.
use telldb.Base.{ℕ, ◌+◌, ◌≤◌, ◌≡◌, refl, ap, subst, ◌∙◌, List, true, false, arith, length}
use telldb.Errors.{ok}
use telldb.Field.{
  Field, FieldType, type_of, same_type, null, smallint, normalint, bigint, float, double, text,
  blob,
}
use telldb.Tuple.{Record, FieldMeta, Bytes, write_field, read_field, deserialize}
use telldb.Tuple.Buffer.{
  Memory, load, store, encode, decode, decode-encode, store-below, store-above, load-same,
  load-store,
}
use telldb.Field.Union.{is_string}
use telldb.Tuple.Layout.{width, Laws, ByteLaws, Holds, string_size, read_as, RoundOf}

module _ {F D S : Type 0} (r : Record) (bytes : Bytes F D S) (laws : Laws r)
    (byte_laws : ByteLaws bytes) where
  pub read_present :
      (M : Memory) (a : FieldMeta)
      → (r.data_of M a).0 ≡ false
      → read_field r bytes M a ≡ deserialize r bytes M a.field.type a.offset
  unfolding read_field
  read_present M a e = rw (e, laws.data_type M a, laws.data_offset M a) refl

  pub read_absent :
      (M : Memory) (a : FieldMeta) → (r.data_of M a).0 ≡ true → read_field r bytes M a ≡ ok null
  unfolding read_field
  read_absent M a e = rw e refl

  module _ (a : FieldMeta) (m : Memory) (heap : ℕ) (header : r.header_size ≤ a.offset)
      (room : a.offset + width a.field.type ≤ heap) (fresh : (r.data_of m a).0 ≡ false) where
    same_header :
        (bs : List ℕ) (b : FieldMeta) → (r.data_of (store bs m a.offset) b).0 ≡ (r.data_of m b).0
    same_header bs b =
        laws.data_header m (store bs m a.offset) b
          (λ y h. store-below bs m a.offset y (omega (arith, h, header)))

    scalar-RoundOf :
        (v : Field F D S) (bs : List ℕ)
        → string_size bytes v ≡ 0
        → length bs ≡ width a.field.type
        → is_string a.field.type ≡ false
        → write_field r bytes a (m, heap) v ≡ ok (store bs m a.offset, heap)
        → ((M : Memory)
            → load (width a.field.type) M a.offset ≡ bs
            → deserialize r bytes M a.field.type a.offset ≡ ok (read_as bytes v))
        → RoundOf bytes r a v m heap (store bs m a.offset)
    scalar-RoundOf v bs z l s w rd = record {
      result = w ∙ ap (λ n. ok (store bs m a.offset, n)) (omega (arith, z));
      low = λ y h g. store-below bs m a.offset y g;
      mid = λ y h g. store-above bs m a.offset y (omega (arith, l, h));
      high = λ y h. store-above bs m a.offset y (omega (arith, l, h, room, z));
      others = λ b p. same_header bs b;
      offset_of = λ e. cc;
      back = λ M h g d t.
          read_present M a (d ∙ same_header bs a ∙ fresh)
          ∙ rd M (
              load-same (width a.field.type) (store bs m a.offset) M a.offset h
              ∙ subst (λ n. load n (store bs m a.offset) a.offset ≡ bs) l
                  (load-store bs m a.offset));
    }

    pub number-RoundOf :
        (t : FieldType) (v : Field F D S)
        → a.field.type ≡ t
        → is_string t ≡ false
        → Holds bytes t v
        → (m' : Memory) × RoundOf bytes r a v m heap m'
    unfolding write_field same_type type_of deserialize
    number-RoundOf FieldType.small_int (smallint x) e s h = (
      _,
      scalar-RoundOf (smallint x) (encode 2 x) refl (rw e refl) (rw e refl) (rw e refl) (λ M q.
          rw e (
            ap (λ bs. ok (smallint (decode bs))) (rw e at q)
            ∙ ap (λ n. ok (smallint n)) (decode-encode 2 x h))),
    )
    number-RoundOf FieldType.normal_int (normalint x) e s h = (
      _,
      scalar-RoundOf (normalint x) (encode 4 x) refl (rw e refl) (rw e refl) (rw e refl) (λ M q.
          rw e (
            ap (λ bs. ok (normalint (decode bs))) (rw e at q)
            ∙ ap (λ n. ok (normalint n)) (decode-encode 4 x h))),
    )
    number-RoundOf FieldType.big_int (bigint x) e s h = (
      _,
      scalar-RoundOf (bigint x) (encode 8 x) refl (rw e refl) (rw e refl) (rw e refl) (λ M q. rw e (
          ap (λ bs. ok (bigint (decode bs))) (rw e at q)
          ∙ ap (λ n. ok (bigint n)) (decode-encode 8 x h))),
    )
    number-RoundOf FieldType.float_nr (float x) e s h = (
      _,
      scalar-RoundOf (float x) (bytes.float_bytes x) refl (byte_laws.float_length x ∙ rw e refl)
          (rw e refl) (rw e refl)
          (λ M q. rw e (
            ap (λ bs. ok (float (bytes.bytes_float bs))) (rw e at q)
            ∙ ap (λ n. ok (float n)) (byte_laws.float_back x))),
    )
    number-RoundOf FieldType.double_nr (double x) e s h = (
      _,
      scalar-RoundOf (double x) (bytes.double_bytes x) refl (byte_laws.double_length x ∙ rw e refl)
          (rw e refl) (rw e refl)
          (λ M q. rw e (
            ap (λ bs. ok (double (bytes.bytes_double bs))) (rw e at q)
            ∙ ap (λ n. ok (double n)) (byte_laws.double_back x))),
    )
    number-RoundOf FieldType.text_string (text x) e s h = cc
    number-RoundOf FieldType.blob_string (blob x) e s h = cc
    number-RoundOf _ _ e s h = absurd h
