-- ===== src/Index/Visible.antt =====
-- What a reader of `BaseIterator` sees.
use telldb.Base.{
  ℕ, zero, suc, ◌≤◌, ◌<◌, ◌≡◌, refl, sym, ap, ◌∙◌, List, [], ◌∷◌, ◌++◌, Bool, true, not, ◌==◌, ◌&&◌,
  if◌then◌else◌, arith, Bool-cases, inl, inr, length,
}
use mathlib.Core.List.{append-nil, append_assoc}
use telldb.Index.Tree.{max_version}
use telldb.Index.Iterate.{Snapshot, TreeEntry, is_garbage, stops_at, skip, init, read}

module _ {K : Type 0} (snapshot : Snapshot) where
  -- An entry is seen if it is not deleted, or its deletion is neither old enough to be cleaned up
  -- nor in the read set.
  abbrev pub visible : List (TreeEntry K) → List (TreeEntry K)
  visible [] = []
  visible (x ∷ xs) =
      if not (is_garbage snapshot x) && stops_at snapshot x then x ∷ visible xs else visible xs

  abbrev pub obsolete : List (TreeEntry K) → List (TreeEntry K)
  obsolete [] = []
  obsolete (x ∷ xs) = if is_garbage snapshot x then x ∷ obsolete xs else obsolete xs

  read_skip :
      (n : ℕ) (xs garbage : List (TreeEntry K))
      → length xs ≤ n
      → ((read snapshot n (skip snapshot xs garbage)).0 ≡ visible xs)
        × ((read snapshot n (skip snapshot xs garbage)).1
            ≡ record { rest = []; garbage = garbage ++ obsolete xs })
  unfolding skip read
  read_skip zero [] garbage h =
      (refl, ap (λ g. record { rest = []; garbage = g }) (sym (append-nil garbage)))
  read_skip (suc n) [] garbage h =
      (refl, ap (λ g. record { rest = []; garbage = g }) (sym (append-nil garbage)))
  read_skip zero (x ∷ xs) garbage h = absurd (omega arith)
  read_skip (suc n) (x ∷ xs) garbage h = elim (Bool-cases (is_garbage snapshot x)) [
    | inl g ↦
        let ih = read_skip (suc n) xs (garbage ++ x ∷ []) (omega arith) in
        let a = append_assoc garbage (x ∷ []) (obsolete xs) in ground arith
    | inr g ↦ elim (Bool-cases (stops_at snapshot x)) [
      | inl s ↦ let ih = read_skip n xs garbage (omega arith) in ground arith
      | inr s ↦ let ih = read_skip (suc n) xs garbage (omega arith) in ground arith
    ]
  ]

  -- An entry is deleted in the snapshot if it has the version of a deletion, and the snapshot reads
  -- that version. The entries that are not.
  abbrev pub is_deleted : TreeEntry K → Bool
  is_deleted x = not (x.valid_to == max_version) && snapshot.in_read_set x.valid_to

  abbrev pub alive : List (TreeEntry K) → List (TreeEntry K)
  alive [] = []
  alive (x ∷ xs) = if is_deleted x then alive xs else x ∷ alive xs

  module _ (closed : (v : ℕ) → v < snapshot.lowest_active → snapshot.in_read_set v ≡ true)
      (below : snapshot.lowest_active ≤ max_version) where
    visible-eq-alive : (xs : List (TreeEntry K)) → visible xs ≡ alive xs
    visible-eq-alive [] = refl
    visible-eq-alive (x ∷ xs) = ground (arith, visible-eq-alive xs, closed x.valid_to)

    -- Where every version below the lowest active one is in the read set, and the lowest active one
    -- is at most the largest: a client that reads as many entries as there are gets exactly those
    -- that are not deleted in its snapshot, in the order of the tree, ends at the end, and the
    -- entries collected to be erased are exactly those deleted before the lowest active version.
    pub read-init :
        (n : ℕ) (xs : List (TreeEntry K))
        → length xs ≤ n
        → ((read snapshot n (init snapshot xs)).0 ≡ alive xs)
          × ((read snapshot n (init snapshot xs)).1 ≡ record { rest = []; garbage = obsolete xs })
    unfolding init
    read-init n xs h = let r = read_skip n xs [] h in (r.0 ∙ visible-eq-alive xs, r.1)
