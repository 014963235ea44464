-- ===== src/Index/Ends.antt =====
-- Where the iterators of an index show too much or too little (src/Indexes.hpp, src/Indexes.cpp).

use mathlib.Core.Logic.{◌⊎◌}
use telldb.Base.{ℕ, ◌≡◌, refl, List, [], ◌∷◌, map, true, false, arith, inl, inr, All}
use telldb.Errors.{err, dangling}
use telldb.Index.{KeyOrder, deletion, CacheEntry, Cache}
use telldb.Index.Iterate.{from_tree, do_set, cache_lower_bound, reverse_lower_bound}
use telldb.Index.Merge.{entry_of}

module _ {K : Type 0} (order : KeyOrder K) where
  open order use {less}

  -- When the heads are a deletion and the entry of the tree with its tuple, and either of them was
  -- the last, `doSet` reads an iterator at its end: after it skips both it does not test again.
  pub do_set_deletion_end :
      (t : List (K × ℕ)) (c : Cache K) (k : K) (x : K × ℕ) (e : CacheEntry)
      → e.operation ≡ deletion
      → e.value ≡ x.1
      → (t ≡ []) ⊎ (c ≡ [])
      → do_set order (x ∷ t) ((k, e) ∷ c) ≡ err dangling
  unfolding do_set
  do_set_deletion_end t c k x e op same (inl h) = ground arith
  do_set_deletion_end [] c k x e op same (inr h) = ground arith
  do_set_deletion_end (z ∷ t) c k x e op same (inr h) = ground arith

  -- When the tree starts with two entries and the cache with the deletions of both under their
  -- keys, `doSet` skips the first pair only: it stops at the second entry of the tree, which is
  -- deleted.
  pub do_set_deletion_twice :
      (t : List (K × ℕ)) (c : Cache K) (x y : K × ℕ) (e f : CacheEntry)
      → e.operation ≡ deletion
      → f.operation ≡ deletion
      → e.value ≡ x.1
      → f.value ≡ y.1
      → do_set order (x ∷ y ∷ t) ((x.0, e) ∷ (y.0, f) ∷ c)
        ≡ from_tree order (y ∷ t) ((y.0, f) ∷ c) false
  unfolding do_set
  do_set_deletion_twice t c x y e f op oq same also = let i = order.irrefl y.0 in ground arith

  cache_lower_bound_past :
      (k : K) (c : Cache K)
      → All (λ z. less z.0 k ≡ true) (map (entry_of order) c)
      → cache_lower_bound order k c ≡ []
  unfolding cache_lower_bound
  cache_lower_bound_past k [] a = refl
  cache_lower_bound_past k (y ∷ c) a = let e = a.0 in ground (arith, cache_lower_bound_past k c a.1)

  -- Where all cached keys are less than the given one, the iterator of `reverse_lower_bound` holds
  -- nothing of the cache.
  pub reverse_lower_bound_past :
      (t : List (K × ℕ)) (c : Cache K) (k : K)
      → All (λ z. less z.0 k ≡ true) (map (entry_of order) c)
      → reverse_lower_bound order t c k ≡ from_tree order t [] false
  unfolding reverse_lower_bound do_set
  reverse_lower_bound_past [] c k a = let e = cache_lower_bound_past k c a in ground arith
  reverse_lower_bound_past (x ∷ t) c k a = let e = cache_lower_bound_past k c a in ground arith
