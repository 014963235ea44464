-- ===== src/Index/Tree.antt =====
-- `UniqueBdTree` and `NonUniqueBdTree` (src/Indexes.cpp) over `bdtree::map`, which is not part of
-- this program: `TreeMap` is its operations, and `TreeLaws` that they are those of a map whose
-- `insert` keeps an entry that is there. The trees hold a key with the version in which it was
-- deleted, or the largest number while it is not.
use telldb.Base.{ℕ, ◌-◌, ◌^◌, ◌≡◌, ◌≢◌, Option, none, some, Bool, true, false, not, if◌then◌else◌}

pub record TreeMap (M K V : Type 0) : Type 0 where
  pub find : M → K → Option V
  pub insert : M → K → V → M × Bool
  pub erase : M → K → M × Bool

pub record TreeLaws {M K V : Type 0} (t : TreeMap M K V) : Type 0 where
  pub insert_other : (m : M) (k j : K) (v : V) → k ≢ j → t.find (t.insert m k v).0 j ≡ t.find m j
  pub insert_new :
      (m : M) (k : K) (v : V)
      → t.find m k ≡ none
      → ((t.insert m k v).1 ≡ true) × (t.find (t.insert m k v).0 k ≡ some v)
  pub insert_old :
      (m : M) (k : K) (v x : V)
      → t.find m k ≡ some x
      → ((t.insert m k v).1 ≡ false) × (t.find (t.insert m k v).0 k ≡ some x)
  pub erase_other : (m : M) (k j : K) → k ≢ j → t.find (t.erase m k).0 j ≡ t.find m j
  pub erase_self : (m : M) (k : K) → t.find (t.erase m k).0 k ≡ none
  pub erase_found : (m : M) (k : K) (x : V) → t.find m k ≡ some x → (t.erase m k).1 ≡ true
  pub erase_missing : (m : M) (k : K) → t.find m k ≡ none → (t.erase m k).1 ≡ false

-- `std::numeric_limits<uint64_t>::max()`
abbrev pub max_version : ℕ
max_version = 2 ^ 64 - 1

-- The virtual functions of `BdTree` that change it.
pub record BdTree (B K : Type 0) : Type 0 where
  pub insert : B → K → ℕ → B × Bool
  pub erase : B → K → ℕ → B × Bool
  pub revert_insert : B → K → ℕ → B
  pub revert_erase : B → K → ℕ → B

module _ {M K : Type 0} (map : TreeMap M (K × ℕ) ℕ) (version : ℕ) where
  unfoldable pub unique_insert : M → K → ℕ → M × Bool
  unique_insert m key value = map.insert m (key, max_version) value

  unfoldable pub unique_erase : M → K → ℕ → M × Bool
  unique_erase m key value =
      let marked = map.insert m (key, version) value in
      let erased = map.erase marked.0 (key, max_version) in
      if not marked.1
      then (marked.0, false)
      else if not erased.1
      then ((map.erase erased.0 (key, version)).0, false)
      else (erased.0, true)

  unfoldable pub unique_revert_insert : M → K → ℕ → M
  unique_revert_insert m key value = (map.erase m (key, max_version)).0

  unfoldable pub unique_revert_erase : M → K → ℕ → M
  unique_revert_erase m key value =
      (map.erase (map.insert m (key, max_version) value).0 (key, version)).0

  abbrev pub unique_tree : BdTree M K
  unique_tree = record {
    insert = unique_insert;
    erase = unique_erase;
    revert_insert = unique_revert_insert;
    revert_erase = unique_revert_erase;
  }

-- The key of a tuple is part of the key of the map, whose values are empty.
module _ {M K : Type 0} (map : TreeMap M (K × ℕ × ℕ) (Unit {0})) (version : ℕ) where
  unfoldable pub non_unique_insert : M → K → ℕ → M × Bool
  non_unique_insert m key value = map.insert m (key, max_version, value) tt

  unfoldable pub non_unique_erase : M → K → ℕ → M × Bool
  non_unique_erase m key value =
      let marked = map.insert m (key, version, value) tt in
      let erased = map.erase marked.0 (key, max_version, value) in
      if not marked.1
      then (marked.0, false)
      else if not erased.1
      then ((map.erase erased.0 (key, version, value)).0, false)
      else (erased.0, true)

  unfoldable pub non_unique_revert_insert : M → K → ℕ → M
  non_unique_revert_insert m key value = (map.erase m (key, max_version, value)).0

  unfoldable pub non_unique_revert_erase : M → K → ℕ → M
  non_unique_revert_erase m key value =
      (map.erase (map.insert m (key, max_version, value) tt).0 (key, version, value)).0

  abbrev pub non_unique_tree : BdTree M K
  non_unique_tree = record {
    insert = non_unique_insert;
    erase = non_unique_erase;
    revert_insert = non_unique_revert_insert;
    revert_erase = non_unique_revert_erase;
  }
