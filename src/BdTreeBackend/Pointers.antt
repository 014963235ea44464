-- ===== src/BdTreeBackend/Pointers.antt =====
-- The table of pointers keeps the pointers with the versions that it returns.
use telldb.Base.{
  ℕ, ◌+◌, ◌%◌, ◌<◌, ◌≡◌, ◌≢◌, refl, sym, ap, ◌∙◌, Option, none, some, ◌==◌, if◌then◌else◌, arith,
  Bool-cases, Option-cases, inl, inr, ◌⊎◌,
}
use telldb.BdTreeBackend.{
  Code, found, missing, Store, do_read, do_insert, do_update, ptr_read, ptr_insert, ptr_update,
}

-- A table of the store: each key has a row with a version, or none. An insertion makes a row of
-- version 1; an update of the version that the row has advances it; all else is refused and
-- changes nothing.
pub record Laws {S : Type 0} (store : Store S ℕ) : Type 1 where
  pub row : S → ℕ → Option (ℕ × ℕ)
  pub get_row : (s : S) (k v n : ℕ) → row s k ≡ some (v, n) → store.get s k ≡ found v n
  pub get_none : (s : S) (k : ℕ) → row s k ≡ none → store.get s k ≡ missing Code.not_found
  pub insert_none :
      (s : S) (k v : ℕ)
      → row s k ≡ none
      → ((store.insert s k 0 v).1 ≡ none)
        × ((j : ℕ) → row (store.insert s k 0 v).0 j ≡ (if k == j then some (v, 1) else row s j))
  pub insert_row :
      (s : S) (k v : ℕ)
      → row s k ≢ none
      → (((store.insert s k 0 v).1 ≡ some Code.invalid_write)
          ⊎ ((store.insert s k 0 v).1 ≡ some Code.not_in_snapshot))
        × ((j : ℕ) → row (store.insert s k 0 v).0 j ≡ row s j)
  pub update_row :
      (s : S) (k v w n : ℕ)
      → row s k ≡ some (w, n)
      → ((store.update s k n v).1 ≡ none)
        × ((j : ℕ) → row (store.update s k n v).0 j ≡ (if k == j then some (v, n + 1) else row s j))
  pub update_none :
      (s : S) (k v m : ℕ)
      → row s k ≡ none
      → ((store.update s k m v).1 ≡ some Code.invalid_write)
        × ((j : ℕ) → row (store.update s k m v).0 j ≡ row s j)
  pub update_stale :
      (s : S) (k v w n m : ℕ)
      → row s k ≡ some (w, n)
      → m ≢ n
      → ((store.update s k m v).1 ≡ some Code.not_in_snapshot)
        × ((j : ℕ) → row (store.update s k m v).0 j ≡ row s j)

module _ {S : Type 0} (store : Store S ℕ) (laws : Laws store) where
  open laws use {row}

  -- What `read` answers for a row.
  abbrev pub answer : Option (ℕ × ℕ) → (ℕ × ℕ) × Option Code
  answer none = ((0, 0), some Code.object_doesnt_exist)
  answer (some x) = (x, none)

  ptr_read-answer : (s : S) (k : ℕ) → ptr_read store s k ≡ answer (row s k)
  unfolding ptr_read do_read
  ptr_read-answer s k = elim (Option-cases (row s k)) [
    | inl e ↦ rw (e, laws.get_none s k e, ptr_read) refl
    | inr x ↦ rw (x.1, laws.get_row s k x.0.0 x.0.1 x.1, ptr_read) refl
  ]

  -- A write that succeeds returns the version with which its pointer is read from then on, and
  -- leaves the other pointers; one that is refused returns 0 with the code, and leaves all.
  abbrev pub WriteOf : S → ℕ → ℕ → Option Code → S × ℕ × Option Code → Type 0
  WriteOf s k v none r =
      (r.2 ≡ none)
      × (r.1 ≢ 0)
      × ((j : ℕ) → ptr_read store r.0 j ≡ (if k == j then ((v, r.1), none) else ptr_read store s j))
  WriteOf s k v (some e) r =
      (r.2 ≡ some e) × (r.1 ≡ 0) × ((j : ℕ) → ptr_read store r.0 j ≡ ptr_read store s j)

  abbrev pub insert_refused : Option (ℕ × ℕ) → Option Code
  insert_refused none = none
  insert_refused (some x) = some Code.object_exists

  abbrev pub update_refused : ℕ → Option (ℕ × ℕ) → Option Code
  update_refused m none = some Code.object_doesnt_exist
  update_refused m (some x) = if x.1 == m then none else some Code.wrong_version

  same_rows :
      (s s' : S)
      → ((j : ℕ) → row s' j ≡ row s j)
      → (j : ℕ) → ptr_read store s' j ≡ ptr_read store s j
  same_rows s s' h j = ptr_read-answer s' j ∙ ap answer (h j) ∙ sym (ptr_read-answer s j)

  new_row :
      (s s' : S) (k v n : ℕ)
      → ((j : ℕ) → row s' j ≡ (if k == j then some (v, n) else row s j))
      → (j : ℕ) → ptr_read store s' j ≡ (if k == j then ((v, n), none) else ptr_read store s j)
  new_row s s' k v n h j =
      ptr_read-answer s' j
      ∙ ap answer (h j)
      ∙ elim (Bool-cases (k == j)) [ inl e ↦ rw e refl | inr e ↦ rw e (sym (ptr_read-answer s j)) ]

  ptr_insert-WriteOf :
      (s : S) (k v : ℕ) → WriteOf s k v (insert_refused (row s k)) (ptr_insert store s k v)
  unfolding ptr_insert do_insert
  ptr_insert-WriteOf s k v = elim (Option-cases (row s k)) [
    | inl e ↦
        let (a, b) = laws.insert_none s k v e in
        rw (e, a, ptr_insert)
          (refl, (λ z. omega (arith, z)), new_row s (store.insert s k 0 v).0 k v 1 b)
    | inr x ↦
        let (a, b) = laws.insert_row s k v (ground (arith, x.1)) in
        let same = same_rows s (store.insert s k 0 v).0 b in
        elim a [
          | inl c ↦ rw (x.1, c, ptr_insert) (refl, refl, same)
          | inr c ↦ rw (x.1, c, ptr_insert) (refl, refl, same)
        ]
  ]

  ptr_update-WriteOf :
      (s : S) (k v m : ℕ)
      → m + 1 < 18446744073709551616
      → WriteOf s k v (update_refused m (row s k)) (ptr_update store s k v m)
  unfolding ptr_update do_update
  ptr_update-WriteOf s k v m small = elim (Option-cases (row s k)) [
    | inl e ↦
        let (a, b) = laws.update_none s k v m e in
        rw (e, a, ptr_update) (refl, refl, same_rows s (store.update s k m v).0 b)
    | inr x ↦ elim (Bool-cases (x.0.1 == m)) [
      | inl y ↦
          let d : x.0.1 ≡ m = ground (arith, y) in
          let (a, b) = laws.update_row s k v x.0.0 m (x.1 ∙ ap (λ n. some (x.0.0, n)) d) in
          let c : (m + 1) % 18446744073709551616 ≡ m + 1 = omega (arith, small) in
          rw (x.1, y, a, c, ptr_update)
            (refl, (λ z. omega (arith, z)), new_row s (store.update s k m v).0 k v (m + 1) b)
      | inr y ↦
          let (a, b) = laws.update_stale s k v x.0.0 x.0.1 m x.1 (λ z. ground (arith, y, z)) in
          rw (x.1, y, a, ptr_update) (refl, refl, same_rows s (store.update s k m v).0 b)
    ]
  ]

  -- Over a table of the store, `read` answers what the row has or `object_doesnt_exist`; `insert`
  -- refuses a pointer that is there with `object_exists`, and `update`, for a version below
  -- 2 ^ 64 - 1, refuses one that is missing with `object_doesnt_exist` and another version with
  -- `wrong_version`. A write that is refused returns 0 and changes nothing; any other returns the
  -- version with which its pointer is read from then on, and leaves the other pointers.
  pub pointers_lem :
      (s : S) (k v m : ℕ)
      → m + 1 < 18446744073709551616
      → (ptr_read store s k ≡ answer (row s k))
        × WriteOf s k v (insert_refused (row s k)) (ptr_insert store s k v)
        × WriteOf s k v (update_refused m (row s k)) (ptr_update store s k v m)
  pointers_lem s k v m small =
      (ptr_read-answer s k, ptr_insert-WriteOf s k v, ptr_update-WriteOf s k v m small)
