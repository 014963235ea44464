-- ===== src/Tuple/Strings.antt =====
-- One round of `serialize` for a string and for a null.
use telldb.Base.{
  ℕ, ◌+◌, ◌≤◌, ◌<◌, ◌≡◌, sym, ap, subst, ◌∙◌, List, true, false, arith, Bool-cases, length, inl,
  inr, ◌%◌, ◌-◌,
}
use telldb.Errors.{ok}
use telldb.Field.{Field, null}
use telldb.Tuple.{Record, FieldMeta, Bytes, write_field, read_string, string_at, deserialize}
use telldb.Tuple.Buffer.{
  Memory, load, store, encode, decode, decode-encode, store-below, store-above, load-same,
  load-store,
}
use telldb.Field.Union.{is_string}
use telldb.Tuple.Layout.{width, Apart, Laws, ByteLaws, string_size, read_as, RoundOf}
use telldb.Tuple.Steps.{read_present, read_absent}

module _ {F D S : Type 0} (r : Record) (bytes : Bytes F D S) (laws : Laws r)
    (byte_laws : ByteLaws bytes) where
  module _ (a : FieldMeta) (m : Memory) (heap : ℕ) (header : r.header_size ≤ a.offset)
      (room : a.offset + width a.field.type ≤ heap) where
    module _ (v : Field F D S) (x : S) (four : width a.field.type ≡ 4)
        (small : heap + length (bytes.string_bytes x) < 4294967296)
        (fresh : (r.data_of m a).0 ≡ false) where
      abbrev with_offset : Memory
      with_offset = store (encode 4 heap) m a.offset

      abbrev with_string : Memory
      with_string = store (bytes.string_bytes x) with_offset heap

      string_header : (b : FieldMeta) → (r.data_of with_string b).0 ≡ (r.data_of m b).0
      string_header b = laws.data_header m with_string b (λ y h.
          store-below (bytes.string_bytes x) with_offset heap y (omega (arith, h, header, room))
          ∙ store-below (encode 4 heap) m a.offset y (omega (arith, h, header)))

      string_offset : decode (load 4 with_string a.offset) ≡ heap
      string_offset =
          ap decode (
            load-same 4 with_offset with_string a.offset (λ y h g.
              store-below (bytes.string_bytes x) with_offset heap y (omega (arith, g, room, four)))
            ∙ load-store (encode 4 heap) m a.offset)
          ∙ decode-encode 4 heap (omega (arith, small))

      read_string-back :
          (M : Memory)
          → decode (load 4 M a.offset) ≡ heap
          → decode (load 4 M (a.offset + 4)) ≡ heap + length (bytes.string_bytes x)
          → load (length (bytes.string_bytes x)) M heap ≡ bytes.string_bytes x
          → read_string r bytes M a.offset ≡ x
      unfolding read_string
      read_string-back M e f g =
          let n : (heap + length (bytes.string_bytes x) + (4294967296 - heap)) % 4294967296
              ≡ length (bytes.string_bytes x) =
            omega (arith, small) in
          ap (λ o. string_at r bytes M o (decode (load 4 M (a.offset + 4)))) e
          ∙ ap (string_at r bytes M heap) f
          ∙ ap (λ k. bytes.bytes_string (load k M heap)) n
          ∙ ap bytes.bytes_string g
          ∙ byte_laws.string_back x

      pub string-RoundOf :
          string_size bytes v ≡ length (bytes.string_bytes x)
          → write_field r bytes a (m, heap) v
            ≡ ok (with_string, heap + length (bytes.string_bytes x))
          → ((M : Memory)
              → read_string r bytes M a.offset ≡ x
              → deserialize r bytes M a.field.type a.offset ≡ ok (read_as bytes v))
          → is_string a.field.type ≡ true
          → RoundOf bytes r a v m heap with_string
      string-RoundOf z w rd s = record {
        result = w ∙ ap (λ n. ok (with_string, n)) (omega (arith, z));
        low = λ y h g.
            store-below (bytes.string_bytes x) with_offset heap y (omega (arith, g, room))
            ∙ store-below (encode 4 heap) m a.offset y g;
        mid = λ y h g.
            store-below (bytes.string_bytes x) with_offset heap y g
            ∙ store-above (encode 4 heap) m a.offset y (omega (arith, h, four));
        high = λ y h.
            store-above (bytes.string_bytes x) with_offset heap y (omega (arith, h, z))
            ∙ store-above (encode 4 heap) m a.offset y (omega (arith, h, four, room));
        others = λ b p. string_header b;
        offset_of = λ e. string_offset;
        back = λ M h g d t.
            read_present r bytes laws byte_laws M a (d ∙ string_header a ∙ fresh)
            ∙ rd M (
                read_string-back M
                  (ap decode
                      (load-same 4 with_string M a.offset (λ y k l. h y k (omega (arith, l, four))))
                    ∙ string_offset)
                  (t s ∙ omega (arith, z))
                  (load-same (length (bytes.string_bytes x)) with_string M heap
                      (λ y k l. g y k (omega (arith, l, z)))
                    ∙ load-store (bytes.string_bytes x) with_offset heap));
      }

    module _ (nullable : a.field.not_null ≡ false) (bit : a.null_idx < r.null_bits) where
      null_header :
          (bs : List ℕ) (b : FieldMeta)
          → (r.data_of (store bs (r.set_field_null m a.null_idx) a.offset) b).0
            ≡ (r.data_of (r.set_field_null m a.null_idx) b).0
      null_header bs b = laws.data_header (r.set_field_null m a.null_idx) _ b (λ y h.
          store-below bs (r.set_field_null m a.null_idx) a.offset y (omega (arith, h, header)))

      null_others :
          (bs : List ℕ) (b : FieldMeta)
          → Apart a b
          → (r.data_of (store bs (r.set_field_null m a.null_idx) a.offset) b).0 ≡ (r.data_of m b).0
      null_others bs b p = null_header bs b ∙ elim (Bool-cases b.field.not_null) [
        | inl e ↦ laws.data_not_null _ b e ∙ sym (laws.data_not_null m b e)
        | inr e ↦ laws.null_other m a b bit nullable e (p nullable e)
      ]

      pub null-RoundOf :
          (bs : List ℕ)
          → length bs ≡ width a.field.type
          → write_field r bytes a (m, heap) null
            ≡ ok (store bs (r.set_field_null m a.null_idx) a.offset, heap)
          → (is_string a.field.type ≡ true → (width a.field.type ≡ 4) × (decode bs ≡ heap))
          → RoundOf bytes r a null m heap (store bs (r.set_field_null m a.null_idx) a.offset)
      null-RoundOf bs l w s = record {
        result =
            w ∙ ap (λ n. ok (store bs (r.set_field_null m a.null_idx) a.offset, n)) (omega arith);
        low = λ y h g. store-below bs _ a.offset y g ∙ laws.null_header m a.null_idx y bit h;
        mid = λ y h g.
            store-above bs _ a.offset y (omega (arith, h, l))
            ∙ laws.null_header m a.null_idx y bit (omega (arith, h, header));
        high = λ y h.
            store-above bs _ a.offset y (omega (arith, h, l, room))
            ∙ laws.null_header m a.null_idx y bit (omega (arith, h, header, room));
        others = null_others bs;
        offset_of = λ e.
            let (four, d) = s e in
            ap decode (
              subst (λ n. load n (store bs (r.set_field_null m a.null_idx) a.offset) a.offset ≡ bs)
                (l ∙ four) (load-store bs (r.set_field_null m a.null_idx) a.offset))
            ∙ d;
        back = λ M h g d t.
            read_absent r bytes laws byte_laws M a
              (d ∙ null_header bs a ∙ laws.null_set m a bit nullable);
      }
