-- ===== src/Tests/Iterators.antt =====
-- Iterators over small trees and caches.
use telldb.Base.{
  ℕ, ◌++◌, Bool, true, Bool-cases, inl, inr, ◌≡◌, refl, List, [], ◌∷◌, false, arith, ltb, not,
  reverse, All, ◌≤◌,
}
use telldb.Index.{Cache, cached, insertion}
use telldb.Index.Tree.{max_version}
use telldb.Index.Iterate.{
  Snapshot, TreeEntry, read, from_tree, read_merged, lower_bound, reverse_lower_bound,
}
use telldb.Index.Ranges.{
  OrderedMap, select, before, behind, before_value, behind_value, unique_lower_bound,
  unique_reverse_lower_bound, non_unique_lower_bound, non_unique_reverse_lower_bound, seen_from,
  seen_back_from, trees_seen,
}
use telldb.Index.Ends.{reverse_lower_bound_past}
use telldb.Index.Merge.{Merges, lower_bound-Merges}
use telldb.Tests.Data.{by_number}

-- Versions below 10 are in the read set, and every transaction that is active started at 7 or later.
abbrev at_ten : Snapshot
at_ten = record { lowest_active = 7; in_read_set = λ v. ltb v 10 }

abbrev in_tree : ℕ → ℕ → TreeEntry ℕ
in_tree k n = record { key = k; value = k; valid_to = n }

-- An entry that is old, one deleted in the snapshot, one deleted after it, and one not deleted.
abbrev four : List (TreeEntry ℕ)
four = in_tree 1 3 ∷ in_tree 2 8 ∷ in_tree 3 12 ∷ in_tree 4 max_version ∷ []

abbrev committed : List (ℕ × ℕ)
committed = (2, 20) ∷ (5, 50) ∷ []

abbrev own : Cache ℕ
own = (1, cached insertion 11) ∷ (3, cached insertion 31) ∷ []

lower_bound-Merges_example :
    Merges by_number committed
      ((3, cached insertion 31) ∷ [])
      (read_merged by_number 4 (lower_bound by_number committed own 2))
lower_bound-Merges_example =
    lower_bound-Merges by_number 4 committed own 2 (omega arith) ((refl, tt), (tt, tt))
      ((refl, tt), (tt, tt))
      (refl, (omega arith, (omega arith, tt)), (refl, (omega arith, (omega arith, tt)), tt))

reverse_lower_bound_past_example :
    reverse_lower_bound by_number committed own 9 ≡ from_tree by_number committed [] false
reverse_lower_bound_past_example =
    reverse_lower_bound_past by_number committed own 9 (refl, (refl, tt))

-- A tree of the four entries, with either kind of key, that begins at the largest.
abbrev tree_of_four : OrderedMap (Unit {0}) (ℕ × ℕ) ℕ
tree_of_four = record {
  entries = λ m. four;
  find = λ m k. select (λ e. not (before by_number k e)) four;
  find_last = λ m k.
      select (λ e. behind by_number k e) four
      ++ reverse (select (λ e. not (behind by_number k e)) four);
}

abbrev tree_of_values : OrderedMap (Unit {0}) (ℕ × ℕ × ℕ) ℕ
tree_of_values = record {
  entries = λ m. four;
  find = λ m k. select (λ e. not (before_value by_number k e)) four;
  find_last = λ m k.
      select (λ e. behind_value by_number k e) four
      ++ reverse (select (λ e. not (behind_value by_number k e)) four);
}

four_bounded : All (λ (e : TreeEntry ℕ). (e.valid_to ≤ max_version) × (e.value ≤ max_version)) four
four_bounded = (
  (omega arith, omega arith),
  ((omega arith, omega arith), ((omega arith, omega arith), ((omega arith, omega arith), tt))),
)

chosen_bounds :
    (p : TreeEntry ℕ → Bool) (es : List (TreeEntry ℕ))
    → All (λ e. (e.valid_to ≤ max_version) × (e.value ≤ max_version)) es
    → All (λ e. (p e ≡ true) × (e.valid_to ≤ max_version) × (e.value ≤ max_version)) (select p es)
chosen_bounds p [] a = tt
chosen_bounds p (e ∷ es) a = elim (Bool-cases (p e)) [
  | inl h ↦ rw (h, select) ((h, a.0.0, a.0.1), chosen_bounds p es a.1)
  | inr h ↦ rw (h, select) (chosen_bounds p es a.1)
]

trees_seen_example :
    ((read at_ten 4 (unique_lower_bound by_number at_ten tree_of_four tt 3)).0
      ≡ seen_from by_number at_ten 3 four)
    × ((read at_ten 4 (unique_reverse_lower_bound by_number at_ten tree_of_four tt 3)).0
        ≡ seen_back_from by_number at_ten 3 four)
    × ((read at_ten 4 (non_unique_lower_bound by_number at_ten tree_of_values tt 3)).0
        ≡ seen_from by_number at_ten 3 four)
    × ((read at_ten 4 (non_unique_reverse_lower_bound by_number at_ten tree_of_values tt 3)).0
        ≡ seen_back_from by_number at_ten 3 four)
trees_seen_example =
    trees_seen by_number at_ten (λ v h. ground arith) (omega arith) tree_of_four tree_of_values
      (record {
        find_from = λ m k. refl;
        find_last_from = λ m k. (
          select (λ e. behind by_number k e) four,
          chosen_bounds (λ e. behind by_number k e) four four_bounded,
          refl,
        );
        bounded = λ m. four_bounded;
      })
      (record {
        find_from = λ m k. refl;
        find_last_from = λ m k. (
          select (λ e. behind_value by_number k e) four,
          chosen_bounds (λ e. behind_value by_number k e) four four_bounded,
          refl,
        );
        bounded = λ m. four_bounded;
      })
      4 tt 3 (omega arith) (omega arith)
