-- ===== src/Tests/Trees.antt =====
-- Indexes over trees that are functions, in a transaction of version 5.
use native.Mathlib.Decide.{ℕ_discrete}
use telldb.Base.{ℕ, ◌≡◌, refl, ap, [], ◌∷◌, Option, none, some, true, arith}
use telldb.Errors.{done, after}
use telldb.Index.{IndexWrapper, Cache, cached, insertion, deletion}
use telldb.Index.Tree.{max_version, unique_tree, non_unique_tree}
use telldb.Index.WriteBack.{write_back, undo}
use telldb.Index.Undo.{Apart}
use telldb.Index.Cells.{versioned_cells}
use telldb.Index.Rollback.{
  unique_cells, non_unique_cells, unique_undo, unique_undo_loses, non_unique_undo,
}
use telldb.Tests.Data.{put, function_map, function_laws}

abbrev pair_discrete : Discrete (ℕ × ℕ)
pair_discrete = hlevel ℕ_discrete

abbrev triple_discrete : Discrete (ℕ × ℕ × ℕ)
triple_discrete = hlevel ℕ_discrete

abbrev index : {V : Type 0} → V → Cache ℕ → IndexWrapper ℕ ℕ V
index t c = record { name = "by_number"; unique = true; key_of = λ t. t; cache = c; tree = t }

-- Key 3 leads to tuple 30.
abbrev unique_entries : ℕ × ℕ → Option ℕ
unique_entries = put pair_discrete (λ _. none) (3, max_version) (some 30)

abbrev moved : Cache ℕ
moved = (3, cached deletion 30) ∷ (4, cached insertion 30) ∷ []

abbrev replaced : Cache ℕ
replaced = (3, cached deletion 30) ∷ (3, cached insertion 40) ∷ []

abbrev unique_index : Cache ℕ → IndexWrapper ℕ ℕ (ℕ × ℕ → Option ℕ)
unique_index c = index unique_entries c

moved-Apart :
    Apart
      (unique_tree (function_map pair_discrete) 5)
      (unique_cells
        (function_map pair_discrete)
        (function_laws pair_discrete)
        ℕ_discrete
        pair_discrete
        5
        (omega arith))
      ℕ_discrete
      unique_entries
      moved
unfolding unique_cells versioned_cells ℕ_discrete
moved-Apart = ((omega arith, tt), refl, λ _. refl, (tt, refl, λ h. cc, tt))

unique_undo_example :
    (undo
        (unique_tree (function_map pair_discrete) 5)
        (after (write_back (unique_tree (function_map pair_discrete) 5) (unique_index moved)))).tree
      (3, max_version)
    ≡ some 30
unfolding ℕ_discrete
unique_undo_example =
    unique_undo (function_map pair_discrete) (function_laws pair_discrete) ℕ_discrete pair_discrete
      5 (omega arith) (unique_index moved) moved-Apart 3 max_version

unique_undo_loses_example :
    let w =
      after (write_back (unique_tree (function_map pair_discrete) 5) (unique_index replaced)) in
    (write_back (unique_tree (function_map pair_discrete) 5) (unique_index replaced) ≡ done w tt)
    × ((undo (unique_tree (function_map pair_discrete) 5) w).tree (3, max_version) ≡ none)
unfolding ℕ_discrete
unique_undo_loses_example =
    unique_undo_loses (function_map pair_discrete) (function_laws pair_discrete) ℕ_discrete
      pair_discrete 5 (omega arith) (unique_index replaced) 3 30 40 refl refl refl

-- Key 3 leads to tuples 30 and 31.
abbrev shared_entries : ℕ × ℕ × ℕ → Option (Unit {0})
shared_entries =
    put triple_discrete (put triple_discrete (λ _. none) (3, max_version, 30) (some tt))
      (3, max_version, 31) (some tt)

abbrev left : Cache ℕ
left = (3, cached deletion 30) ∷ (4, cached insertion 30) ∷ []

left-Apart :
    Apart
      (non_unique_tree (function_map triple_discrete) 5)
      (non_unique_cells
        (function_map triple_discrete)
        (function_laws triple_discrete)
        pair_discrete
        triple_discrete
        5
        (omega arith))
      pair_discrete
      shared_entries
      left
unfolding non_unique_cells versioned_cells ℕ_discrete
left-Apart = (
  (λ e. absurd (omega (arith, ap (λ (p : ℕ × ℕ). p.0) e)), tt),
  refl,
  λ _. refl,
  (tt, refl, λ h. cc, tt),
)

non_unique_undo_example :
    (undo (non_unique_tree (function_map triple_discrete) 5) (
        after (
          write_back
            (non_unique_tree (function_map triple_discrete) 5)
            (index shared_entries left)))).tree
      (3, max_version, 30)
    ≡ some tt
unfolding ℕ_discrete
non_unique_undo_example =
    non_unique_undo (function_map triple_discrete) (function_laws triple_discrete) pair_discrete
      triple_discrete 5 (omega arith) (index shared_entries left) left-Apart 3 max_version 30
