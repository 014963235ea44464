-- ===== src/Tests/Pointers.antt =====
-- A table of the store as a list of rows, with one row.
use telldb.Base.{
  ℕ, ◌+◌, ◌≡◌, refl, Option, some, none, false, ◌==◌, ==_refl, if◌then◌else◌, arith, Option-cases,
  inl, inr,
}
use telldb.BdTreeBackend.{Code, found, missing, Store, ptr_read, ptr_insert, ptr_update}
use telldb.BdTreeBackend.Pointers.{Laws, WriteOf, pointers_lem}

abbrev Rows : Type 0
Rows = ℕ → Option (ℕ × ℕ)

abbrev set : ℕ → ℕ × ℕ → Rows → Rows
set k x s j = if k == j then some x else s j

abbrev rows : Store Rows ℕ
rows = record {
  get = λ s k. elim (s k) [ none ↦ missing Code.not_found | some x ↦ found x.0 x.1 ];
  insert = λ s k m v. elim (s k) [
    | none ↦ (set k (v, 1) s, none)
    | some x ↦ (s, some Code.invalid_write)
  ];
  update = λ s k m v. elim (s k) [
    | none ↦ (s, some Code.invalid_write)
    | some x ↦ if x.1 == m then (set k (v, m + 1) s, none) else (s, some Code.not_in_snapshot)
  ];
  remove = λ s k m. (s, none);
}

rows-Laws : Laws rows
rows-Laws = record {
  row = λ s. s;
  get_row = λ s k v n e. rw e refl;
  get_none = λ s k e. rw e refl;
  insert_none = λ s k v e. rw e (refl, λ j. refl);
  insert_row = λ s k v h. elim (Option-cases (s k)) [
    | inl e ↦ absurd (h e)
    | inr x ↦ rw x.1 (inl refl, λ j. refl)
  ];
  update_row = λ s k v w n e. rw (e, ==_refl n) (refl, λ j. refl);
  update_none = λ s k v m e. rw e (refl, λ j. refl);
  update_stale =
      λ s k v w n m e d. let q : n == m ≡ false = ground (arith, d) in rw (e, q) (refl, λ j. refl);
}

abbrev one_row : Rows
one_row = set 3 (40, 1) (λ k. none)

pointers_lem_example :
    (ptr_read rows one_row 3 ≡ ((40, 1), none))
    × WriteOf rows rows-Laws one_row 3 50 (some Code.object_exists) (ptr_insert rows one_row 3 50)
    × WriteOf rows rows-Laws one_row 3 50 none (ptr_update rows one_row 3 50 1)
unfolding rows-Laws
pointers_lem_example = pointers_lem rows rows-Laws one_row 3 50 1 (omega arith)
