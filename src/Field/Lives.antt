-- ===== src/Field/Lives.antt =====
-- A field never loses a string and never destroys one twice (telldb/Field.hpp).
use telldb.Base.{
  ℕ, subst, ◌+◌, ◌-◌, ◌≤◌, ◌≡◌, refl, sym, ap, ◌∙◌, some, true, false, arith, inl, inr, Bool-cases,
}
use telldb.Errors.{Outcome, done, raise}
use telldb.Field.{
  FieldType, same_type, Field, untyped, null, smallint, normalint, bigint, float, double, text,
  blob,
}
use telldb.Field.Union.{
  Content, blank, of_string, of_smallint, of_normalint, of_bigint, of_float, of_double, RawField,
  is_string, copy_content, fill, copy_field, destroy_field, assign_field, destroy_string,
  read_string,
}
use telldb.Field.View.{same_type-eq, holds_string, view_of, view, strings, string_or_not}

module _ {F D S : Type 0} where
  -- The call returns a field that holds the value, and leaves so many strings alive.
  abbrev pub Holds : Field F D S → ℕ → Outcome ℕ (RawField F D S) → Type 0
  Holds v n o = (r : RawField F D S) × (o ≡ done n r) × (view r ≡ some v)

  value_is :
      (u v : Field F D S) (t : FieldType) (n : ℕ) (o : Outcome ℕ (Content F D S))
      (r : Content F D S)
      → u ≡ v
      → o ≡ done (n + strings u) r
      → view_of t r ≡ some u
      → (r : Content F D S) × (o ≡ done (n + strings v) r) × (view_of t r ≡ some v)
  value_is u v t n o r e p q =
      subst (λ v. (r : Content F D S) × (o ≡ done (n + strings v) r) × (view_of t r ≡ some v)) e
        (r, p, q)

  -- The switch, on a target that holds no string.
  filled :
      (t : FieldType) (c old : Content F D S) (v : Field F D S) (n : ℕ)
      → view_of t c ≡ some v
      → holds_string old ≡ false
      → (r : Content F D S) × (copy_content t old c n ≡ done (n + strings v) r)
        × (view_of t r ≡ some v)
  unfolding copy_content
  filled FieldType.no_type c old v n h k =
      value_is (untyped) v FieldType.no_type n (copy_content FieldType.no_type old c n) old
        (ground arith) (ap (λ m. done m old) (omega arith)) (ground (arith, k))
  filled FieldType.null_type c old v n h k =
      value_is (null) v FieldType.null_type n (copy_content FieldType.null_type old c n) old
        (ground arith) (ap (λ m. done m old) (omega arith)) (ground (arith, k))
  filled FieldType.small_int (of_smallint a) old v n h k =
      value_is (smallint a) v FieldType.small_int n
        (copy_content FieldType.small_int old (of_smallint a) n) (of_smallint a) (ground arith)
        (ap (λ m. done m (of_smallint a)) (omega arith)) refl
  filled FieldType.normal_int (of_normalint a) old v n h k =
      value_is (normalint a) v FieldType.normal_int n
        (copy_content FieldType.normal_int old (of_normalint a) n) (of_normalint a) (ground arith)
        (ap (λ m. done m (of_normalint a)) (omega arith)) refl
  filled FieldType.big_int (of_bigint a) old v n h k =
      value_is (bigint a) v FieldType.big_int n (copy_content FieldType.big_int old (of_bigint a) n)
        (of_bigint a) (ground arith) (ap (λ m. done m (of_bigint a)) (omega arith)) refl
  filled FieldType.float_nr (of_float a) old v n h k =
      value_is (float a) v FieldType.float_nr n (copy_content FieldType.float_nr old (of_float a) n)
        (of_float a) (ground arith) (ap (λ m. done m (of_float a)) (omega arith)) refl
  filled FieldType.double_nr (of_double a) old v n h k =
      value_is (double a) v FieldType.double_nr n
        (copy_content FieldType.double_nr old (of_double a) n) (of_double a) (ground arith)
        (ap (λ m. done m (of_double a)) (omega arith)) refl
  filled FieldType.text_string (of_string a) old v n h k =
      value_is (text a) v FieldType.text_string n
        (copy_content FieldType.text_string old (of_string a) n) (of_string a) (ground arith)
        (ap (λ m. done m (of_string a)) (omega arith)) refl
  filled FieldType.blob_string (of_string a) old v n h k =
      value_is (blob a) v FieldType.blob_string n
        (copy_content FieldType.blob_string old (of_string a) n) (of_string a) (ground arith)
        (ap (λ m. done m (of_string a)) (omega arith)) refl
  filled _ _ old v n h k = absurd (ground arith)

  fill_lem :
      (other : RawField F D S) (old : Content F D S) (v : Field F D S) (n : ℕ)
      → view other ≡ some v
      → holds_string old ≡ false
      → Holds v (n + strings v) (fill other old n)
  fill_lem other old v n h k =
      let (r, e, f) = filled other.type other.content old v n h k in
      (
        record { type = other.type; content = r },
        ap
            (λ (o : Outcome ℕ (Content F D S)). elim o as (λ _. Outcome ℕ (RawField F D S)) [
              | done m c ↦ done m (record { type = other.type; content = c })
              | raise m e ↦ raise m e
            ])
            e,
        f,
      )

  destroy_lem :
      (f : RawField F D S) (v : Field F D S) (n : ℕ)
      → view f ≡ some v
      → destroy_field f n ≡ done (n - strings v) tt
  unfolding destroy_field
  destroy_lem f v n h = elim (string_or_not f.type f.content v h) [
    | inl (s, p, q, one) ↦ rw (p, destroy_field) (rw q (ap (λ k. done (n - k) tt) (sym one)))
    | inr (p, q, zero_strings) ↦
        rw (p, destroy_field) (ap (λ m. done m tt) (omega (arith, zero_strings)))
  ]

  -- The string is assigned.
  same_string :
      (f other : RawField F D S) (u v : Field F D S) (s : S) (n : ℕ)
      → view f ≡ some u
      → view other ≡ some v
      → strings u ≤ n
      → is_string f.type ≡ true
      → f.content ≡ of_string s
      → strings u ≡ 1
      → same_type other.type f.type ≡ true
      → Holds v (n - strings u + strings v) (assign_field f other n)
  unfolding assign_field
  same_string f other u v s n h k le p q one b = elim (string_or_not other.type other.content v k) [
    | inr (p', q', none_there) ↦
        absurd (ground (arith, p, ap is_string (same_type-eq other.type f.type b), p'))
    | inl (s', p', q', one') ↦
        let m : n ≡ n - strings u + strings v = omega (arith, one, one', le) in
        let t = same_type-eq other.type f.type b in
        let o : assign_field f other n ≡ done n (record f { content = of_string s' }) =
          rw (p, b, q, q', assign_field, read_string) refl in
        (
          record f { content = of_string s' },
          o ∙ ap (λ j. done j (record f { content = of_string s' })) m,
          ap (λ t. view_of t (of_string s')) (sym t) ∙ ap (view_of other.type) (sym q') ∙ k,
        )
  ]

  assign_lem :
      (f other : RawField F D S) (u v : Field F D S) (n : ℕ)
      → view f ≡ some u
      → view other ≡ some v
      → strings u ≤ n
      → Holds v (n - strings u + strings v) (assign_field f other n)
  unfolding assign_field
  assign_lem f other u v n h k le = elim (string_or_not f.type f.content u h) [
    | inr (p, q, no_string) ↦
        let e : n - strings u + strings v ≡ n + strings v = omega (arith, no_string) in
        rw (p, assign_field) (rw e (fill_lem other f.content v n k q))
    | inl (s, p, q, one) ↦ elim (Bool-cases (same_type other.type f.type)) [
      | inl b ↦ same_string f other u v s n h k le p q one b
      | inr b ↦
          let (r, e, w) = fill_lem other blank v (n - 1) k refl in
          let m : n - 1 + strings v ≡ n - strings u + strings v = omega (arith, one) in
          let o : assign_field f other n ≡ fill other blank (n - 1) =
            rw (p, b, q, assign_field, destroy_string) refl in
          (r, o ∙ e ∙ ap (λ j. done j r) m, w)
    ]
  ]

  -- For fields whose unions hold the members of their types: a copy and an assignment return a field
  -- that holds the value of the other, and the destructor returns. A copy makes as many strings
  -- as the value owns, the destructor destroys those of its field, and an assignment both: no string
  -- is lost, none is destroyed twice, and no member is read that was not written.
  pub fields_lem :
      (f other : RawField F D S) (u v : Field F D S) (n : ℕ)
      → view f ≡ some u
      → view other ≡ some v
      → strings u ≤ n
      → Holds v (n + strings v) (copy_field other n)
        × Holds v (n - strings u + strings v) (assign_field f other n)
        × (destroy_field f n ≡ done (n - strings u) tt)
  unfolding copy_field
  fields_lem f other u v n h k le =
      (fill_lem other blank v n k refl, assign_lem f other u v n h k le, destroy_lem f u n h)
