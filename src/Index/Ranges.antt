-- ===== src/Index/Ranges.antt =====
-- `lower_bound` and `reverse_lower_bound` of the two trees (src/Indexes.cpp): where they begin in
-- `bdtree::map`, which is not part of this program, and what a reader sees from there.
use mathlib.Core.List.{reverse-cons}
use telldb.Base.{
  ℕ, ◌≤◌, ◌<◌, ◌≡◌, refl, ap, ◌∙◌, List, [], ◌∷◌, ◌++◌, reverse, Bool, true, not, ◌&&◌, ◌||◌, ltb,
  ◌==◌, if◌then◌else◌, arith, length, length-append, All, All-append, Bool-cases, inl, inr,
}
use telldb.Index.{KeyOrder}
use telldb.Index.Tree.{max_version}
use telldb.Index.Iterate.{Snapshot, TreeEntry, BaseIterator, init, read}
use telldb.Index.Visible.{alive, read-init}

abbrev pub select : {A : Type 0} → (A → Bool) → List A → List A
select p [] = []
select p (x ∷ xs) = if p x then x ∷ select p xs else select p xs

-- `find` and `find_last_smaller_equal` of a map: the entries from there on, in ascending and in
-- descending order. `E` is a key of the map.
pub record OrderedMap (M E K : Type 0) : Type 0 where
  pub entries : M → List (TreeEntry K)
  pub find : M → E → List (TreeEntry K)
  pub find_last : M → E → List (TreeEntry K)

-- The loop of `reverse_lower_bound`.
module _ {K : Type 0} (order : KeyOrder K) where
  unfoldable pub drop_larger : K → List (TreeEntry K) → List (TreeEntry K)
  drop_larger key [] = []
  drop_larger key (e ∷ es) =
      let rest = drop_larger key es in if order.less key e.key then rest else e ∷ es

module _ {M K : Type 0} (order : KeyOrder K) (snapshot : Snapshot) where
  module _ (map : OrderedMap M (K × ℕ) K) where
    unfoldable pub unique_lower_bound : M → K → BaseIterator K
    unfolding init
    unique_lower_bound m key = init snapshot (map.find m (key, 0))

    unfoldable pub unique_reverse_lower_bound : M → K → BaseIterator K
    unfolding init drop_larger
    unique_reverse_lower_bound m key =
        init snapshot (drop_larger order key (map.find_last m (key, max_version)))

  module _ (map : OrderedMap M (K × ℕ × ℕ) K) where
    unfoldable pub non_unique_lower_bound : M → K → BaseIterator K
    unfolding init
    non_unique_lower_bound m key = init snapshot (map.find m (key, 0, 0))

    unfoldable pub non_unique_reverse_lower_bound : M → K → BaseIterator K
    unfolding init drop_larger
    non_unique_reverse_lower_bound m key =
        init snapshot (drop_larger order key (map.find_last m (key, max_version, max_version)))

module _ {K : Type 0} (order : KeyOrder K) where
  -- An entry is before, or after, a key of the map.
  abbrev pub before : K × ℕ → TreeEntry K → Bool
  before (k, v) e = order.less e.key k || not (order.less k e.key) && ltb e.valid_to v

  abbrev pub behind : K × ℕ → TreeEntry K → Bool
  behind (k, v) e = order.less k e.key || not (order.less e.key k) && ltb v e.valid_to

  abbrev pub before_value : K × ℕ × ℕ → TreeEntry K → Bool
  before_value (k, v, x) e =
      order.less e.key k
      || not (order.less k e.key) && (ltb e.valid_to v || e.valid_to == v && ltb e.value x)

  abbrev pub behind_value : K × ℕ × ℕ → TreeEntry K → Bool
  behind_value (k, v, x) e =
      order.less k e.key
      || not (order.less e.key k) && (ltb v e.valid_to || e.valid_to == v && ltb x e.value)

-- The map is sorted and its iterators go through it; versions and values have 64 bits. Other fibers
-- change the map, and `find_last` may begin at entries that are behind the key.
pub record OrderedLaws {M E K : Type 0} (map : OrderedMap M E K)
    (before behind : E → TreeEntry K → Bool) : Type 0 where
  pub find_from : (m : M) (k : E) → map.find m k ≡ select (λ e. not (before k e)) (map.entries m)
  pub find_last_from :
      (m : M) (k : E)
      → (larger : List (TreeEntry K)) × All
          (λ e. (behind k e ≡ true) × (e.valid_to ≤ max_version) × (e.value ≤ max_version))
          larger
        × (map.find_last m k ≡ larger ++ reverse (select (λ e. not (behind k e)) (map.entries m)))
  pub bounded :
      (m : M) → All (λ e. (e.valid_to ≤ max_version) × (e.value ≤ max_version)) (map.entries m)

module _ {A : Type 0} where
  select_same :
      (P : A → Type 0) (p q : A → Bool) (xs : List A)
      → All P xs
      → ((x : A) → P x → p x ≡ q x)
      → select p xs ≡ select q xs
  select_same P p q [] a h = refl
  select_same P p q (x ∷ xs) (b, a) h =
      let e = h x b in let ih = select_same P p q xs a h in ground (arith, e, ih)

  length-select : (p : A → Bool) (xs : List A) → length (select p xs) ≤ length xs
  length-select p [] = omega arith
  length-select p (x ∷ xs) = ground (arith, length-select p xs)

  length-reverse : (xs : List A) → length (reverse xs) ≡ length xs
  length-reverse [] = refl
  length-reverse (x ∷ xs) =
      ap length (reverse-cons x xs)
      ∙ length-append (reverse xs) (x ∷ [])
      ∙ omega (arith, length-reverse xs)

  select-All : (p : A → Bool) (xs : List A) → All (λ x. p x ≡ true) (select p xs)
  select-All p [] = tt
  select-All p (x ∷ xs) = elim (Bool-cases (p x)) [
    | inl e ↦ rw (e, select) (e, select-All p xs)
    | inr e ↦ rw (e, select) (select-All p xs)
  ]

  reverse-All : (P : A → Type 0) (xs : List A) → All P xs → All P (reverse xs)
  reverse-All P [] a = tt
  reverse-All P (x ∷ xs) a =
      rw (reverse-cons x xs) (All-append P (reverse xs) (x ∷ []) (reverse-All P xs a.1) (a.0, tt))

module _ {K : Type 0} (order : KeyOrder K) (snapshot : Snapshot) where
  drop_larger_none :
      (key : K) (es : List (TreeEntry K))
      → All (λ e. not (order.less key e.key) ≡ true) es
      → drop_larger order key es ≡ es
  unfolding drop_larger
  drop_larger_none key [] a = refl
  drop_larger_none key (e ∷ es) a = let h = a.0 in ground (arith, h)

  drop_larger_first :
      (key : K) (ls es : List (TreeEntry K))
      → All (λ e. order.less key e.key ≡ true) ls
      → drop_larger order key (ls ++ es) ≡ drop_larger order key es
  unfolding drop_larger
  drop_larger_first key [] es a = refl
  drop_larger_first key (e ∷ ls) es a =
      let h = a.0 in ground (arith, h, drop_larger_first key ls es a.1)

  weaken_each :
      {P Q : TreeEntry K → Type 0} (es : List (TreeEntry K))
      → ((e : TreeEntry K) → P e → Q e)
      → All P es
      → All Q es
  weaken_each [] f a = tt
  weaken_each (e ∷ es) f a = (f e a.0, weaken_each es f a.1)

  -- The entries that a reader is to see from a key on, in each direction.
  abbrev pub seen_from : K → List (TreeEntry K) → List (TreeEntry K)
  seen_from key es = alive snapshot (select (λ e. not (order.less e.key key)) es)

  abbrev pub seen_back_from : K → List (TreeEntry K) → List (TreeEntry K)
  seen_back_from key es = alive snapshot (reverse (select (λ e. not (order.less key e.key)) es))

  module _ (closed : (v : ℕ) → v < snapshot.lowest_active → snapshot.in_read_set v ≡ true)
      (below : snapshot.lowest_active ≤ max_version) where
    read_from :
        (n : ℕ) (key : K) (es xs : List (TreeEntry K))
        → length es ≤ n
        → xs ≡ select (λ e. not (order.less e.key key)) es
        → (read snapshot n (init snapshot xs)).0 ≡ seen_from key es
    read_from n key es xs h e =
        let l = length-select (λ e. not (order.less e.key key)) es in
        rw e (
          (read-init snapshot closed below n (select (λ e. not (order.less e.key key)) es)
            (omega (arith, l, h))).0)

    read_back :
        (n : ℕ) (key : K) (es xs : List (TreeEntry K))
        → length es ≤ n
        → (larger : List (TreeEntry K)) × All (λ e. order.less key e.key ≡ true) larger
          × (xs ≡ larger ++ reverse (select (λ e. not (order.less key e.key)) es))
        → (read snapshot n (init snapshot (drop_larger order key xs))).0 ≡ seen_back_from key es
    read_back n key es xs h (larger, behind_all, e) =
        let chosen = select (λ e. not (order.less key e.key)) es in
        let l = length-select (λ e. not (order.less key e.key)) es in
        let r = length-reverse chosen in
        let a =
          reverse-All (λ e. not (order.less key e.key) ≡ true) chosen
            (select-All (λ e. not (order.less key e.key)) es) in
        rw e (
          rw
            (
              drop_larger_first key larger (reverse chosen) behind_all,
              drop_larger_none key (reverse chosen) a,
            )
            ((read-init snapshot closed below n (reverse chosen) (omega (arith, l, r, h))).0))

    -- In both kinds of trees, whose maps are sorted by key, version and, in a tree of an index that is
    -- not unique, value, and have numbers of 64 bits: a client that reads from `lower_bound` to the end
    -- sees exactly the entries from the key on that are not deleted in its snapshot, in ascending
    -- order, and from `reverse_lower_bound` those up to the key, in descending order. Every version
    -- below the lowest active one is in the read set, and the lowest active one is at most the largest.
    pub trees_seen :
        {M : Type 0} (map : OrderedMap M (K × ℕ) K) (map_of_values : OrderedMap M (K × ℕ × ℕ) K)
        → OrderedLaws map (before order) (behind order)
        → OrderedLaws map_of_values (before_value order) (behind_value order)
        → (n : ℕ) (m : M) (key : K) → length (map.entries m) ≤ n
        → length (map_of_values.entries m) ≤ n
        → ((read snapshot n (unique_lower_bound order snapshot map m key)).0
            ≡ seen_from key (map.entries m))
          × ((read snapshot n (unique_reverse_lower_bound order snapshot map m key)).0
              ≡ seen_back_from key (map.entries m))
          × ((read snapshot n (non_unique_lower_bound order snapshot map_of_values m key)).0
              ≡ seen_from key (map_of_values.entries m))
          × ((read snapshot n (non_unique_reverse_lower_bound order snapshot map_of_values m key)).0
              ≡ seen_back_from key (map_of_values.entries m))
    unfolding unique_lower_bound unique_reverse_lower_bound non_unique_lower_bound
        non_unique_reverse_lower_bound
    trees_seen map values laws value_laws n m key h k =
        let small : TreeEntry K → Type 0 =
          λ e. (e.valid_to ≤ max_version) × (e.value ≤ max_version) in
        (
          read_from n key (map.entries m) (map.find m (key, 0)) h (
              laws.find_from m (key, 0)
              ∙ select_same small _ _ (map.entries m) (laws.bounded m) (λ e b. ground arith)),
          read_back n key (map.entries m) (map.find_last m (key, max_version)) h (
              let (larger, a, f) = laws.find_last_from m (key, max_version) in
              (
                larger,
                weaken_each larger (λ e b. let c = b.1 in let d = b.0 in ground (arith, c, d)) a,
                f
                    ∙ ap (λ es. larger ++ reverse es)
                        (select_same small _ _ (map.entries m) (laws.bounded m)
                          (λ e b. let c = b.0 in ground (arith, c))),
              )),
          read_from n key (values.entries m) (values.find m (key, 0, 0)) k (
              value_laws.find_from m (key, 0, 0)
              ∙ select_same small _ _ (values.entries m) (value_laws.bounded m)
                  (λ e b. ground arith)),
          read_back n key (values.entries m) (values.find_last m (key, max_version, max_version)) k
              (let (larger, a, f) = value_laws.find_last_from m (key, max_version, max_version) in
                (
                  larger,
                  weaken_each larger
                      (λ e b. let c = b.1 in let d = b.2 in let g = b.0 in ground (arith, c, d, g))
                      a,
                  f
                      ∙ ap (λ es. larger ++ reverse es)
                          (select_same small _ _ (values.entries m) (value_laws.bounded m)
                            (λ e b. let c = b.0 in let d = b.1 in ground (arith, c, d))),
                )),
        )
