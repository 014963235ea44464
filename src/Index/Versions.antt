-- ===== src/Index/Versions.antt =====
-- How `erase` and its revert move an entry of a tree from its active key to its deleted key, for
-- both kinds of trees.
use telldb.Base.{
  ◌≡◌, ◌≢◌, sym, ◌∙◌, none, some, Bool, true, false, not, if◌then◌else◌, arith, subst,
}
use telldb.Index.Tree.{TreeMap, TreeLaws}

-- The common form of `UniqueBdTree::erase` and `NonUniqueBdTree::erase`.
abbrev pub move : {M K V : Type 0} → TreeMap M K V → K → K → M → V → M × Bool
move map active dead m v =
    let marked = map.insert m dead v in
    let erased = map.erase marked.0 active in
    if not marked.1
    then (marked.0, false)
    else if not erased.1
    then ((map.erase erased.0 dead).0, false)
    else (erased.0, true)

module _ {M K V : Type 0} (map : TreeMap M K V) (laws : TreeLaws map) (discrete : Discrete K)
    (active dead : K) (apart : active ≢ dead) (m : M) (v : V) where
  abbrev moved : M × Bool
  moved = move map active dead m v

  -- An insertion that finds an entry changes nothing.
  pub insert_kept :
      (k : K) (x : V) (j : K)
      → map.find m k ≡ some x
      → map.find (map.insert m k v).0 j ≡ map.find m j
  insert_kept k x j h = elim (discrete k j) [
    | yes e ↦
        subst (λ i. map.find (map.insert m k v).0 i ≡ map.find m i) e
          ((laws.insert_old m k v x h).1 ∙ sym h)
    | no ne ↦ laws.insert_other m k j v ne
  ]

  pub move_blocked :
      (x : V) (j : K)
      → map.find m dead ≡ some x
      → (moved.1 ≡ false) × (map.find moved.0 j ≡ map.find m j)
  move_blocked x j h =
      let o = laws.insert_old m dead v x h in
      let k = insert_kept dead x j h in (ground arith, ground arith)

  pub move_missing :
      (j : K)
      → map.find m dead ≡ none
      → map.find m active ≡ none
      → (moved.1 ≡ false) × (map.find moved.0 j ≡ map.find m j)
  move_missing j d a =
      let marked = map.insert m dead v in
      let erased = map.erase marked.0 active in
      let o = laws.insert_new m dead v d in
      let g : map.find marked.0 active ≡ none =
        laws.insert_other m dead active v (λ e. apart (sym e)) ∙ a in
      let f : erased.1 ≡ false = laws.erase_missing marked.0 active g in
      let same : map.find (map.erase erased.0 dead).0 j ≡ map.find m j = elim (discrete dead j) [
        | yes e ↦
            subst (λ i. map.find (map.erase erased.0 dead).0 i ≡ map.find m i) e
              (laws.erase_self erased.0 dead ∙ sym d)
        | no ne ↦ laws.erase_other erased.0 dead j ne ∙ elim (discrete active j) [
          | yes e ↦
              subst (λ i. map.find erased.0 i ≡ map.find m i) e
                (laws.erase_self marked.0 active ∙ sym a)
          | no na ↦ laws.erase_other marked.0 active j na ∙ laws.insert_other m dead j v ne
        ]
      ] in
      (ground arith, ground arith)

  pub move_done :
      (x : V)
      → map.find m dead ≡ none
      → map.find m active ≡ some x
      → (moved.1 ≡ true)
        × (map.find moved.0 dead ≡ some v)
        × (map.find moved.0 active ≡ none)
        × ((j : K) → dead ≢ j → active ≢ j → map.find moved.0 j ≡ map.find m j)
  move_done x d a =
      let marked = map.insert m dead v in
      let erased = map.erase marked.0 active in
      let o = laws.insert_new m dead v d in
      let g : map.find marked.0 active ≡ some x =
        laws.insert_other m dead active v (λ e. apart (sym e)) ∙ a in
      let f : erased.1 ≡ true = laws.erase_found marked.0 active x g in
      let at_dead : map.find erased.0 dead ≡ some v =
        laws.erase_other marked.0 active dead apart ∙ o.1 in
      let at_active : map.find erased.0 active ≡ none = laws.erase_self marked.0 active in
      (
        ground arith,
        ground arith,
        ground arith,
        λ j nd na.
            let other : map.find erased.0 j ≡ map.find m j =
              laws.erase_other marked.0 active j na ∙ laws.insert_other m dead j v nd in
            ground arith,
      )
