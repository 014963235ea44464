-- ===== src/Index/Iterate.antt =====
-- The iterators of src/Indexes.hpp. An iterator of `bdtree::map` or `std::multimap` is the list of
-- the entries from its position on, in its direction.
use telldb.Base.{
  ℕ, suc, zero, List, [], ◌∷◌, ◌++◌, Option, none, some, Bool, true, false, not, ◌||◌, ltb, ◌==◌,
  if◌then◌else◌, reverse,
}
use telldb.Errors.{Result, ok, err, dangling, assertion}
use telldb.Index.{KeyOrder, insertion, deletion, Cache}
use telldb.Index.Tree.{max_version}

-- What the iterators ask of a snapshot, which the commit manager hands out.
pub record Snapshot : Type 0 where
  pub lowest_active : ℕ
  pub in_read_set : ℕ → Bool

-- An entry of a tree: `KeyOf`, `ValueOf` and `ValidTo` read its parts.
pub record TreeEntry (K : Type 0) : Type 0 where
  pub key : K
  pub value : ℕ
  pub valid_to : ℕ

-- `BaseIterator`: the position, and the entries that `TreeCleaner` will erase.
pub record BaseIterator (K : Type 0) : Type 0 where
  pub rest : List (TreeEntry K)
  pub garbage : List (TreeEntry K)

module _ {K : Type 0} (snapshot : Snapshot) where
  abbrev pub is_garbage : TreeEntry K → Bool
  is_garbage x = ltb x.valid_to snapshot.lowest_active

  abbrev pub stops_at : TreeEntry K → Bool
  stops_at x = x.valid_to == max_version || not (snapshot.in_read_set x.valid_to)

  -- The loop that `init` and `next` share.
  unfoldable pub skip : List (TreeEntry K) → List (TreeEntry K) → BaseIterator K
  skip [] garbage = record { rest = []; garbage = garbage }
  skip (x ∷ xs) garbage =
      let later = skip xs (if is_garbage x then garbage ++ x ∷ [] else garbage) in
      if is_garbage x
      then later
      else if stops_at x
      then record { rest = x ∷ xs; garbage = garbage }
      else later

  unfoldable pub init : List (TreeEntry K) → BaseIterator K
  unfolding skip
  init xs = skip xs []

  -- At the end there is nothing to go forward from.
  unfoldable pub next : BaseIterator K → BaseIterator K
  unfolding skip
  next it = elim it.rest [ [] ↦ it | x ∷ xs ↦ skip xs it.garbage ]

  -- A client that reads at most so many entries: what it has read, and the iterator then.
  unfoldable pub read : ℕ → BaseIterator K → List (TreeEntry K) × BaseIterator K
  unfolding next
  read zero it = ([], it)
  read (suc n) it =
      let later = read n (next it) in
      elim it.rest [ [] ↦ ([], it) | x ∷ xs ↦ (x ∷ later.0, later.1) ]

-- `IndexWrapper::Iterator`: the visible entries of the tree, those of the cache, and which of the
-- two the current entry is read from.
pub record MergeIterator (K : Type 0) : Type 0 where
  pub tree : List (K × ℕ)
  pub cache : Cache K
  pub read_from_cache : Bool

module _ {K : Type 0} (order : KeyOrder K) where
  open order use {less}

  abbrev pub from_tree : List (K × ℕ) → Cache K → Bool → Result (MergeIterator K)
  from_tree t c b = ok (record { tree = t; cache = c; read_from_cache = b })

  -- The last test of `doSet`. It reads both iterators without a test for their ends.
  unfoldable pub compare_heads : List (K × ℕ) → Cache K → Result (MergeIterator K)
  compare_heads [] c = err dangling
  compare_heads (x ∷ t) [] = err dangling
  compare_heads (x ∷ t) (y ∷ c) = from_tree (x ∷ t) (y ∷ c) (less y.0 x.0)

  unfoldable pub do_set : List (K × ℕ) → Cache K → Result (MergeIterator K)
  unfolding compare_heads
  do_set t [] = from_tree t [] false
  do_set [] (y ∷ c) = elim y.1.operation [
    | insertion ↦ from_tree [] (y ∷ c) true
    | deletion ↦ err assertion
  ]
  do_set (x ∷ t) (y ∷ c) =
      if y.1.value == x.1
      then elim y.1.operation [ deletion ↦ compare_heads t c | insertion ↦ err assertion ]
      else compare_heads (x ∷ t) (y ∷ c)

  unfoldable pub advance : MergeIterator K → Result (MergeIterator K)
  unfolding do_set
  advance it =
      if it.read_from_cache
      then elim it.cache [ [] ↦ err dangling | y ∷ c ↦ do_set it.tree c ]
      else elim it.tree [ [] ↦ err dangling | x ∷ t ↦ do_set t it.cache ]

  -- `key` and `value` of the current entry.
  unfoldable pub current : MergeIterator K → Option (K × ℕ)
  current it =
      if it.read_from_cache
      then elim it.cache [ [] ↦ none | y ∷ c ↦ some (y.0, y.1.value) ]
      else elim it.tree [ [] ↦ none | x ∷ t ↦ some x ]

  unfoldable pub is_done : MergeIterator K → Bool
  is_done it = elim it.tree [ [] ↦ elim it.cache [ [] ↦ true | _ ↦ false ] | _ ↦ false ]

  abbrev pub cons_current : Option (K × ℕ) → Result (List (K × ℕ)) → Result (List (K × ℕ))
  cons_current none r = err dangling
  cons_current (some x) (ok xs) = ok (x ∷ xs)
  cons_current (some x) (err e) = err e

  -- A client that reads at most so many entries.
  unfoldable pub read_merged : ℕ → Result (MergeIterator K) → Result (List (K × ℕ))
  unfolding advance current is_done
  read_merged n (err e) = err e
  read_merged zero (ok it) = ok []
  read_merged (suc n) (ok it) =
      let later = read_merged n (advance it) in
      if is_done it then ok [] else cons_current (current it) later

  -- Where `lower_bound` and `reverse_lower_bound` start in the cache: `std::multimap::lower_bound`
  -- is the first entry that is not less.
  unfoldable pub cache_lower_bound : K → Cache K → Cache K
  cache_lower_bound k [] = []
  cache_lower_bound k ((j, e) ∷ c) = if less j k then cache_lower_bound k c else (j, e) ∷ c

  unfoldable pub cache_before : K → Cache K → Cache K
  cache_before k [] = []
  cache_before k ((j, e) ∷ c) = if less j k then (j, e) ∷ cache_before k c else []

  unfoldable pub cache_reverse_lower_bound : K → Cache K → Cache K
  unfolding cache_lower_bound cache_before
  cache_reverse_lower_bound k c = elim (cache_lower_bound k c) [
    | [] ↦ []
    | _ ↦ reverse (cache_before k c)
  ]

  unfoldable pub lower_bound : List (K × ℕ) → Cache K → K → Result (MergeIterator K)
  unfolding do_set cache_lower_bound
  lower_bound tree cache k = do_set tree (cache_lower_bound k cache)

  unfoldable pub reverse_lower_bound : List (K × ℕ) → Cache K → K → Result (MergeIterator K)
  unfolding do_set cache_reverse_lower_bound
  reverse_lower_bound tree cache k = do_set tree (cache_reverse_lower_bound k cache)
