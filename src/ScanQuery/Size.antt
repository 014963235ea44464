-- ===== src/ScanQuery/Size.antt =====
-- The size of a serialized selection.
use telldb.Base.{
  ℕ, suc, zero, ◌+◌, ◌*◌, ◌/◌, ◌%◌, ◌≡◌, refl, sym, ap, subst, ◌∙◌, List, [], ◌∷◌, ◌++◌, arith,
  if◌then◌else◌, length, length-append,
}
use telldb.Errors.{Result, ok, err}
use telldb.Field.{Field, untyped, null, smallint, normalint, bigint, float, double, text, blob}
use telldb.ScanQuery.{
  Encoding, Predicate, Selection, PredicateMap, has_column, push, bytes, add_size, padding,
  add_value, collect_one, collect_conjunct, collect, write_value, write_predicates, write_columns,
  write_selection, serialize_selection,
}

-- A sum over the predicates of a map, with a summand for each column.
module _ {P : Type 0} (c : ℕ) (f : P → ℕ) where
  abbrev sum_list : List (ℕ × P) → ℕ
  sum_list [] = 0
  sum_list (x ∷ xs) = f x.1 + sum_list xs

  abbrev total : PredicateMap P → ℕ
  total [] = 0
  total ((k, ps) ∷ m) = c + sum_list ps + total m

  sum_list-append : (xs ys : List (ℕ × P)) → sum_list (xs ++ ys) ≡ sum_list xs + sum_list ys
  sum_list-append [] ys = omega arith
  sum_list-append (x ∷ xs) ys = omega (arith, sum_list-append xs ys)

  total-push :
      (k n : ℕ) (p : P) (m : PredicateMap P)
      → total (push k (n, p) m) ≡ total m + f p + (if has_column k m then 0 else c)
  unfolding push
  total-push k n p [] = omega arith
  total-push k n p ((j, ps) ∷ m) =
      ground (arith, total-push k n p m, sum_list-append ps ((n, p) ∷ []))

length-bytes : (n v : ℕ) → length (bytes n v) ≡ n
length-bytes zero v = refl
length-bytes (suc n) v = ap suc (length-bytes n (v / 256))

padded_size :
    (a size t : ℕ)
    → size ≡ (t + 8) % 4294967296
    → t % 8 ≡ 0
    → (add_size (add_size size a) (padding (add_size size a))
        ≡ (t + 8 + (a + padding a)) % 4294967296)
      × ((t + 8 + (a + padding a)) % 8 ≡ 0)
padded_size a size t h k = (ground arith, ground arith)

-- The values of eight bytes.
abbrev pub wide : {F D S : Type 0} → Field F D S → ℕ
wide (bigint a) = 1
wide (double a) = 1
wide _ = 0

abbrev pub wides : {F D S : Type 0} → List (Predicate F D S) → ℕ
wides [] = 0
wides (p ∷ ps) = wide p.field + wides ps

abbrev pub all_wides : {F D S : Type 0} → List (List (Predicate F D S)) → ℕ
all_wides [] = 0
all_wides (c ∷ cs) = wides c + all_wides cs

module _ {F D S : Type 0} (encoding : Encoding F D S) where
  -- What a predicate takes, with two bytes more than are written where its value is wide.
  abbrev weight : Predicate F D S → ℕ
  weight p = length (write_value encoding p.field) + 2 + 2 * wide p.field

  text_size :
      (s : List ℕ) (size t size' : ℕ)
      → size ≡ (t + 8) % 4294967296
      → t % 8 ≡ 0
      → add_size (add_size size (length s)) (padding (add_size size (length s))) ≡ size'
      → let n = length (bytes 2 0 ++ bytes 4 (length s) ++ s ++ bytes (padding (length s)) 0) + 2 in
        (size' ≡ (t + n) % 4294967296) × ((t + n) % 8 ≡ 0)
  text_size s size t size' h k e =
      let l =
        length-append s (bytes (padding (length s)) 0)
        ∙ ap (λ n. length s + n) (length-bytes (padding (length s)) 0) in
      let a = padded_size (length s) size t h k in rw l (ground arith)

  add_value-weight :
      (v : Field F D S) (size t size' : ℕ)
      → size ≡ (t + 8) % 4294967296
      → t % 8 ≡ 0
      → add_value encoding size v ≡ ok size'
      → let n = length (write_value encoding v) + 2 + 2 * wide v in
        (size' ≡ (t + n) % 4294967296) × ((t + n) % 8 ≡ 0)
  unfolding add_value write_value
  add_value-weight (smallint a) size t size' h k e = ground arith
  add_value-weight (normalint a) size t size' h k e = ground arith
  add_value-weight (bigint a) size t size' h k e = ground arith
  add_value-weight (float a) size t size' h k e = ground arith
  add_value-weight (double a) size t size' h k e = ground arith
  add_value-weight (text s) size t size' h k e =
      let r = text_size (encoding.string_bytes s) size t size' h k (cc) in ground arith
  add_value-weight (blob s) size t size' h k e =
      let r = text_size (encoding.string_bytes s) size t size' h k (cc) in ground arith
  add_value-weight null size t size' h k e = absurd (ground arith)
  add_value-weight untyped size t size' h k e = absurd (ground arith)

  -- What has been collected in the map: the size, and the wide values.
  abbrev Counts : ℕ → ℕ × PredicateMap (Predicate F D S) → Type 0
  Counts w x =
      (x.0 ≡ (16 + total 8 weight x.1) % 4294967296)
      × ((16 + total 8 weight x.1) % 8 ≡ 0)
      × (total 0 (λ p. wide p.field) x.1 ≡ w)

  collect_one-Counts :
      (num : ℕ) (p : Predicate F D S) (w : ℕ) (x y : ℕ × PredicateMap (Predicate F D S))
      → Counts w x
      → collect_one encoding num p x.0 x.1 ≡ ok y
      → Counts (w + wide p.field) y
  unfolding collect_one
  collect_one-Counts num p w (size, m) y (a, b, d) e = go (add_value encoding size' p.field) refl
    where
      size' : ℕ
      size' = add_size (if has_column p.column m then size else add_size size 8) 8

      go : (r : Result ℕ) → add_value encoding size' p.field ≡ r → Counts (w + wide p.field) y
      go (err z) q = absurd (ground arith)
      go (ok n) q =
          let t = 16 + total 8 weight m + (if has_column p.column m then 0 else 8) in
          let r = add_value-weight p.field size' t n (ground arith) (ground arith) q in
          let l = total-push 8 weight p.column num p m in
          let k = total-push 0 (λ o. wide o.field) p.column num p m in
          let same : (n, push p.column (num, p) m) ≡ y = ground arith in
          subst (λ z. Counts (w + wide p.field) z) same
            (
              rw l (r.0 ∙ ap (λ i. i % 4294967296) (omega arith)),
              rw l (ap (λ i. i % 8) (omega arith) ∙ r.1),
              ground arith,
            )

  collect_conjunct-Counts :
      (num : ℕ) (ps : List (Predicate F D S)) (w : ℕ) (x y : ℕ × PredicateMap (Predicate F D S))
      → Counts w x
      → collect_conjunct encoding num ps x.0 x.1 ≡ ok y
      → Counts (w + wides ps) y
  unfolding collect_conjunct
  collect_conjunct-Counts num [] w x y c e =
      let same : x ≡ y = ground arith in
      subst (λ z. Counts (w + 0) z) same (c.0, c.1, c.2 ∙ omega arith)
  collect_conjunct-Counts num (p ∷ ps) w x y c e =
      go (λ z d. collect_conjunct-Counts num ps (w + wide p.field) z y d)
        (collect_one encoding num p x.0 x.1) refl
    where
      go :
          ((z : ℕ × PredicateMap (Predicate F D S))
            → Counts (w + wide p.field) z
            → collect_conjunct encoding num ps z.0 z.1 ≡ ok y
            → Counts (w + wide p.field + wides ps) y)
          → (r : Result (ℕ × PredicateMap (Predicate F D S)))
          → collect_one encoding num p x.0 x.1 ≡ r
          → Counts (w + wides (p ∷ ps)) y
      go ih (err z) q = absurd (ground arith)
      go ih (ok z) q =
          let d = ih z (collect_one-Counts num p w x z c q) (ground arith) in
          (d.0, d.1, d.2 ∙ omega arith)

  collect-Counts :
      (num : ℕ) (cs : List (List (Predicate F D S))) (w : ℕ)
      (x y : ℕ × PredicateMap (Predicate F D S))
      → Counts w x
      → collect encoding num cs x.0 x.1 ≡ ok y
      → Counts (w + all_wides cs) y
  unfolding collect
  collect-Counts num [] w x y c e =
      let same : x ≡ y = ground arith in
      subst (λ z. Counts (w + 0) z) same (c.0, c.1, c.2 ∙ omega arith)
  collect-Counts num (ps ∷ cs) w x y c e =
      go (λ z d. collect-Counts ((num + 1) % 256) cs (w + wides ps) z y d)
        (collect_conjunct encoding num ps x.0 x.1) refl
    where
      go :
          ((z : ℕ × PredicateMap (Predicate F D S))
            → Counts (w + wides ps) z
            → collect encoding ((num + 1) % 256) cs z.0 z.1 ≡ ok y
            → Counts (w + wides ps + all_wides cs) y)
          → (r : Result (ℕ × PredicateMap (Predicate F D S)))
          → collect_conjunct encoding num ps x.0 x.1 ≡ r
          → Counts (w + all_wides (ps ∷ cs)) y
      go ih (err z) q = absurd (ground arith)
      go ih (ok z) q =
          let d = ih z (collect_conjunct-Counts num ps w x z c q) (ground arith) in
          (d.0, d.1, d.2 ∙ omega arith)

  write_predicates-total :
      (ps : List (ℕ × Predicate F D S))
      → length (write_predicates encoding ps) + 2 * sum_list 0 (λ p. wide p.field) ps
        ≡ sum_list 8 weight ps
  unfolding write_predicates
  write_predicates-total [] = refl
  write_predicates-total ((num, p) ∷ ps) = omega (
    arith,
    write_predicates-total ps,
    length-append (write_value encoding p.field) (write_predicates encoding ps),
  )

  write_columns-total :
      (m : PredicateMap (Predicate F D S))
      → length (write_columns encoding m) + 2 * total 0 (λ p. wide p.field) m ≡ total 8 weight m
  unfolding write_columns
  write_columns-total [] = refl
  write_columns-total ((k, ps) ∷ m) = omega (
    arith,
    write_columns-total m,
    write_predicates-total ps,
    length-append (write_predicates encoding ps) (write_columns encoding m),
  )

  abbrev written_length : Result (List ℕ × ℕ) → ℕ
  written_length (ok x) = length x.0
  written_length (err e) = 0

  -- When a selection is serialized without an error, the size that it reserves and sends is, on 32
  -- bits, what it writes and two bytes more for each predicate on a BIGINT or DOUBLE.
  pub serialize_selection-size :
      (q : Selection F D S) (out : List ℕ) (size : ℕ)
      → serialize_selection encoding q ≡ ok (out, size)
      → size ≡ (length out + 2 * all_wides q.conjuncts) % 4294967296
  unfolding serialize_selection
  serialize_selection-size q out size h = go (collect encoding 0 q.conjuncts 16 []) refl
    where
      go :
          (r : Result (ℕ × PredicateMap (Predicate F D S)))
          → collect encoding 0 q.conjuncts 16 [] ≡ r
          → size ≡ (length out + 2 * all_wides q.conjuncts) % 4294967296
      go (err e) k = absurd (ground arith)
      go (ok x) k =
          let c = collect-Counts 0 q.conjuncts 0 (16, []) x (refl, refl, refl) k in
          let w = write_columns-total x.1 in
          let same : size ≡ x.0 = ground arith in
          let written : length out ≡ 16 + length (write_columns encoding x.1) =
            sym (
              ap (λ r. written_length (write_selection encoding q r)) (sym k) ∙ ap written_length h)
            ∙ omega arith in
          same ∙ c.0 ∙ ap (λ i. i % 4294967296) (omega arith)
