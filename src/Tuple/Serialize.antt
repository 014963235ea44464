-- ===== src/Tuple/Serialize.antt =====
-- The rounds of `serialize` one after the other.
use telldb.Base.{
  ℕ, All, map, ◌+◌, ◌≤◌, ◌<◌, ◌≡◌, refl, sym, ap, ◌∙◌, List, [], ◌∷◌, true, false, arith,
  Bool-cases, inl, inr, ◌-◌,
}
use telldb.Errors.{ok}
use telldb.Field.{Field}
use telldb.Tuple.{Record, FieldMeta, Bytes, read_field, read_fields, serialize_from}
use telldb.Tuple.Buffer.{
  Memory, load, store, encode, decode, decode-encode, store-below, store-above, load-same,
  load-store,
}
use telldb.Tuple.Layout.{
  Slots, AllStrings, AllApart, FitsAll, strings_size, next_slot, width, Apart, Laws, ByteLaws,
  string_size, read_as, RoundOf,
}
use telldb.Tuple.Round.{round, width_string}

Apart-sym : (a : FieldMeta) (bs : List FieldMeta) → All (Apart a) bs → All (λ b. Apart b a) bs
Apart-sym a [] h = tt
Apart-sym a (b ∷ bs) h = ((λ n k e. h.0 k n (sym e)), Apart-sym a bs h.1)

module _ {F D S : Type 0} (r : Record) (bytes : Bytes F D S) (laws : Laws r)
    (byte_laws : ByteLaws bytes) where
  pub Slots-≤ : (start : ℕ) (metas : List FieldMeta) → Slots r start metas → start ≤ r.static_size
  Slots-≤ start [] h = h.0
  Slots-≤ start (a ∷ metas) h =
      let l = Slots-≤ (a.offset + width a.field.type) metas h.2 in omega (arith, l, h.0)

  -- What the rest of `serialize` has done to the buffer.
  pub record Written (start : ℕ) (metas : List FieldMeta) (vs : List (Field F D S)) (m : Memory)
      (heap : ℕ) (M : Memory) : Type 0 where
    pub result : serialize_from r bytes metas vs (m, heap) ≡ ok M
    pub low : (y : ℕ) → r.header_size ≤ y → y < start → M y ≡ m y
    pub mid : (y : ℕ) → r.static_size ≤ y → y < heap → M y ≡ m y
    pub high : (y : ℕ) → heap + strings_size bytes vs ≤ y → M y ≡ m y
    pub nulls : (b : FieldMeta) → All (λ a. Apart a b) metas → (r.data_of M b).0 ≡ (r.data_of m b).0
    pub next :
        r.has_var_fields ≡ true → AllStrings r metas → decode (load 4 M (next_slot r metas)) ≡ heap
    pub reads : read_fields r bytes M metas ≡ ok (map (read_as bytes) vs)

  module _ (m : Memory) (heap : ℕ) (inside : r.static_size ≤ heap) where
    ended :
        (start : ℕ)
        → Slots r start []
        → r.header_size ≤ start
        → heap < 4294967296
        → (M : Memory) × Written start [] [] m heap M
    unfolding serialize_from read_fields
    ended start slots header small = elim (Bool-cases r.has_var_fields) [
      | inl e ↦
          let room = slots.1 e in
          (
            store (encode 4 heap) m (r.static_size - 4),
            record {
              result = rw e refl;
              low = λ y h g.
                  store-below (encode 4 heap) m (r.static_size - 4) y (omega (arith, room, g));
              mid = λ y h g.
                  store-above (encode 4 heap) m (r.static_size - 4) y (omega (arith, room, h));
              high = λ y h.
                  store-above (encode 4 heap) m (r.static_size - 4) y
                    (omega (arith, room, h, inside));
              nulls = λ b p.
                  laws.data_header m (store (encode 4 heap) m (r.static_size - 4)) b (λ y h.
                    store-below (encode 4 heap) m (r.static_size - 4) y
                      (omega (arith, h, header, room)));
              next = λ h p.
                  ap decode (load-store (encode 4 heap) m (r.static_size - 4))
                  ∙ decode-encode 4 heap (omega (arith, small));
              reads = refl;
            },
          )
      | inr e ↦ (
        m,
        record {
          result = rw e refl;
          low = λ y h g. refl;
          mid = λ y h g. refl;
          high = λ y h. refl;
          nulls = λ b p. refl;
          next = λ h p. cc;
          reads = refl;
        },
      )
    ]

    module _ (start : ℕ) (a : FieldMeta) (metas : List FieldMeta) (v : Field F D S)
        (vs : List (Field F D S)) (slots : Slots r start (a ∷ metas))
        (header : r.header_size ≤ start) (apart : AllApart r (a ∷ metas)) (m' M : Memory)
        (x : RoundOf bytes r a v m heap m')
        (w : Written
          (a.offset + width a.field.type)
          metas
          vs
          m'
          (heap + string_size bytes v)
          M) where
      first_reads : read_field r bytes M a ≡ ok (read_as bytes v)
      first_reads =
          x.back M (λ y h g. w.low y (omega (arith, h, header, slots.0)) g)
            (λ y h g. w.mid y (omega (arith, h, inside)) g) (w.nulls a (Apart-sym a metas apart.0))
            (λ s.
              let (n, has, all) = slots.1 s in
              ap (λ k. decode (load 4 M k)) (sym n) ∙ w.next has all)

      preceded : Written start (a ∷ metas) (v ∷ vs) m heap M
      unfolding serialize_from read_fields
      preceded = record {
        result = ground (arith, x.result, w.result);
        low =
            λ y h g. w.low y h (omega (arith, g, slots.0)) ∙ x.low y h (omega (arith, g, slots.0));
        mid = λ y h g.
            w.mid y h (omega (arith, g))
            ∙ x.mid y (omega (arith, h, Slots-≤ (a.offset + width a.field.type) metas slots.2)) g;
        high = λ y h. w.high y (omega (arith, h)) ∙ x.high y (omega (arith, h));
        nulls = λ b p. w.nulls b p.1 ∙ x.others b p.0;
        next = λ h p.
            ap decode (
              load-same 4 m' M a.offset (λ y k g.
                w.low y (omega (arith, k, header, slots.0))
                  (omega (arith, g, width_string a.field.type p.0))))
            ∙ x.offset_of p.0;
        reads = rw (first_reads, w.reads) refl;
      }

  fresh_rest :
      (a : FieldMeta) (bs : List FieldMeta) (m m' : Memory)
      → ((b : FieldMeta) → Apart a b → (r.data_of m' b).0 ≡ (r.data_of m b).0)
      → All (Apart a) bs
      → All (λ b. (r.data_of m b).0 ≡ false) bs
      → All (λ b. (r.data_of m' b).0 ≡ false) bs
  fresh_rest a [] m m' o p f = tt
  fresh_rest a (b ∷ bs) m m' o p f = (o b p.0 ∙ f.0, fresh_rest a bs m m' o p.1 f.1)

  pub serialize_from-Written :
      (metas : List FieldMeta) (vs : List (Field F D S)) (start : ℕ) (m : Memory) (heap : ℕ)
      → Slots r start metas
      → r.header_size ≤ start
      → FitsAll bytes metas vs
      → AllApart r metas
      → All (λ a. (r.data_of m a).0 ≡ false) metas
      → r.static_size ≤ heap
      → heap + strings_size bytes vs < 4294967296
      → (M : Memory) × Written start metas vs m heap M
  serialize_from-Written [] [] start m heap sl hd ft apart fr ins sm =
      ended m heap ins start sl hd (omega (arith, sm))
  serialize_from-Written [] (v ∷ vs) start m heap sl hd ft apart fr ins sm = absurd ft
  serialize_from-Written (a ∷ metas) [] start m heap sl hd ft apart fr ins sm = absurd ft
  serialize_from-Written (a ∷ metas) (v ∷ vs) start m heap sl hd ft apart fr ins sm =
      let room = Slots-≤ (a.offset + width a.field.type) metas sl.2 in
      let (m', x) =
        round r bytes laws byte_laws a m heap (omega (arith, hd, sl.0)) (omega (arith, room, ins))
          fr.0 v (omega (arith, sm)) ft.0 apart.2 in
      let (M, w) =
        serialize_from-Written metas vs (a.offset + width a.field.type) m'
          (heap + string_size bytes v) sl.2 (omega (arith, hd, sl.0)) ft.1 apart.1
          (fresh_rest a metas m m' x.others apart.0 fr.1) (omega (arith, ins))
          (omega (arith, sm)) in
      (M, preceded m heap ins start a metas v vs sl hd apart m' M x w)
