-- ===== src/Index/Merge.antt =====
-- What a reader of `IndexWrapper::Iterator` sees.
use mathlib.Core.List.{Perm, perm_middle, append-nil}
use mathlib.Core.List.Perm
use telldb.Base.{
  ℕ, zero, suc, ◌+◌, ◌≤◌, ◌≡◌, ◌≢◌, refl, ◌∙◌, List, [], ◌∷◌, ◌++◌, map, true, false, if◌then◌else◌,
  arith, Bool-cases, inl, inr, length, All,
}
use telldb.Errors.{Result, ok}
use telldb.Index.{KeyOrder, insertion, CacheEntry, Cache}
use telldb.Index.Iterate.{do_set, read_merged, cache_lower_bound, lower_bound}

module _ {K : Type 0} (order : KeyOrder K) where
  open order use {less}

  -- The key and the tuple that an entry of the cache stands for.
  abbrev pub entry_of : K × CacheEntry → K × ℕ
  entry_of y = (y.0, y.1.value)

  abbrev pub NotBefore : K → K → Type 0
  NotBefore a b = less b a ≡ false

  abbrev pub IsSorted : List (K × ℕ) → Type 0
  IsSorted [] = Unit
  IsSorted (x ∷ xs) = All (λ y. NotBefore x.0 y.0) xs × IsSorted xs

  -- Only insertions, of tuples that the tree does not hold.
  abbrev pub IsNew : List (K × ℕ) → Cache K → Type 0
  IsNew t [] = Unit
  IsNew t (y ∷ c) = (y.1.operation ≡ insertion) × All (λ x. y.1.value ≢ x.1) t × IsNew t c

  NotBefore-trans : (a b c : K) → NotBefore a b → NotBefore b c → NotBefore a c
  NotBefore-trans a b c h k = elim (Bool-cases (less c a)) [
    | inr e ↦ e
    | inl e ↦ elim (Bool-cases (less b c)) [
      | inl f ↦ absurd (ground (arith, order.trans b c a f e))
      | inr f ↦ absurd (ground (arith, order.total b c f k))
    ]
  ]

  before_trans : (a b c : K) → less a b ≡ true → NotBefore b c → NotBefore a c
  before_trans a b c h k = elim (Bool-cases (less c a)) [
    | inr e ↦ e
    | inl e ↦ absurd (ground (arith, order.trans c a b e h))
  ]

  All-map :
      {P Q : K × ℕ → Type 0} (xs : List (K × ℕ)) → ((x : K × ℕ) → P x → Q x) → All P xs → All Q xs
  All-map [] f a = tt
  All-map (x ∷ xs) f a = (f x a.0, All-map xs f a.1)

  IsNew-tail : (x : K × ℕ) (t : List (K × ℕ)) (c : Cache K) → IsNew (x ∷ t) c → IsNew t c
  IsNew-tail x t [] h = tt
  IsNew-tail x t (y ∷ c) h = (h.0, h.1.1, IsNew-tail x t c h.2)

  -- What a reader gets: a sorted list of all entries. `All` carries the bounds of the heads.
  pub record Merges (t : List (K × ℕ)) (c : Cache K) (r : Result (List (K × ℕ))) : Type 1 where
    pub read : List (K × ℕ)
    pub success : r ≡ ok read
    pub perm : Perm read (t ++ map entry_of c)
    pub sorted : IsSorted read
    pub bounds : (P : K × ℕ → Type 0) → All P t → All P (map entry_of c) → All P read

  read_tree :
      (n : ℕ) (t : List (K × ℕ))
      → length t ≤ n
      → IsSorted t
      → read_merged order n (ok (record { tree = t; cache = []; read_from_cache = false })) ≡ ok t
  unfolding read_merged do_set
  read_tree zero [] h s = refl
  read_tree (suc n) [] h s = refl
  read_tree zero (x ∷ t) h s = absurd (omega arith)
  read_tree (suc n) (x ∷ t) h s = ground (arith, read_tree n t (omega arith) s.1)

  read_new :
      (n : ℕ) (t : List (K × ℕ)) (c : Cache K)
      → length t + length c ≤ n
      → IsSorted t
      → IsSorted (map entry_of c)
      → IsNew t c
      → Merges t c (read_merged order n (do_set order t c))
  unfolding read_merged do_set
  read_new n t [] h s u f = record {
    read = t;
    success = start t ∙ read_tree n t (omega arith) s;
    perm = rw (append-nil t) (Perm.refl t);
    sorted = s;
    bounds = λ P a b. a;
  }
    where
      start :
          (t : List (K × ℕ))
          → read_merged order n (do_set order t [])
            ≡ read_merged order n (ok (record { tree = t; cache = []; read_from_cache = false }))
      start [] = refl
      start (x ∷ t) = refl
  read_new zero [] (y ∷ c) h s u f = absurd (omega arith)
  read_new zero (x ∷ t) (y ∷ c) h s u f = absurd (omega arith)
  read_new (suc n) [] (y ∷ c) h s u f =
      let ih = read_new n [] c (omega arith) s u.1 f.2 in
      record {
        read = entry_of y ∷ ih.read;
        success = let e = ih.success in ground arith;
        perm = Perm.cons (entry_of y) ih.perm;
        sorted = (ih.bounds _ tt u.0, ih.sorted);
        bounds = λ P a b. (b.0, ih.bounds P a b.1);
      }
  read_new (suc n) (x ∷ t) (y ∷ c) h s u f = elim (Bool-cases (less y.0 x.0)) [
    | inl l ↦
        let ih = read_new n (x ∷ t) c (omega arith) s u.1 f.2 in
        record {
          read = entry_of y ∷ ih.read;
          success = let e = ih.success in ground arith;
          perm =
              Perm.trans (Perm.cons (entry_of y) ih.perm)
                (Perm.symm (perm_middle (x ∷ t) (map entry_of c)));
          sorted = (
            ih.bounds _
                (
                  before_trans y.0 x.0 x.0 l (order.irrefl x.0),
                  All-map t (λ z. before_trans y.0 x.0 z.0 l) s.0,
                )
                u.0,
            ih.sorted,
          );
          bounds = λ P a b. (b.0, ih.bounds P a b.1);
        }
    | inr l ↦
        let ih = read_new n t (y ∷ c) (omega arith) s.1 u (IsNew-tail x t (y ∷ c) f) in
        record {
          read = x ∷ ih.read;
          success = let e = ih.success in ground arith;
          perm = Perm.cons x ih.perm;
          sorted = (
            ih.bounds _ s.0 (l, All-map (map entry_of c) (λ z. NotBefore-trans x.0 y.0 z.0 l) u.0),
            ih.sorted,
          );
          bounds = λ P a b. (a.0, ih.bounds P a.1 b);
        }
  ]

  -- The cached entries from a key on.
  abbrev pub at_least : K → Cache K → Cache K
  at_least k [] = []
  at_least k (y ∷ c) = if less y.0 k then at_least k c else y ∷ at_least k c

  at_least-All :
      (k : K) (c : Cache K) → All (λ z. NotBefore k z.0) (map entry_of c) → at_least k c ≡ c
  at_least-All k [] a = refl
  at_least-All k (y ∷ c) a = let e = a.0 in ground (arith, at_least-All k c a.1)

  cache_lower_bound-at_least :
      (k : K) (c : Cache K) → IsSorted (map entry_of c) → cache_lower_bound order k c ≡ at_least k c
  unfolding cache_lower_bound
  cache_lower_bound-at_least k [] s = refl
  cache_lower_bound-at_least k (y ∷ c) s = elim (Bool-cases (less y.0 k)) [
    | inl l ↦ ground (arith, cache_lower_bound-at_least k c s.1)
    | inr l ↦
        let e =
          at_least-All k c (All-map (map entry_of c) (λ z. NotBefore-trans k y.0 z.0 l) s.0) in
        ground arith
  ]

  All-at_least :
      (P : K × ℕ → Type 0) (k : K) (c : Cache K)
      → All P (map entry_of c)
      → All P (map entry_of (at_least k c))
  All-at_least P k [] a = tt
  All-at_least P k (y ∷ c) a = elim (Bool-cases (less y.0 k)) [
    | inl l ↦ rw l (All-at_least P k c a.1)
    | inr l ↦ rw l (a.0, All-at_least P k c a.1)
  ]

  at_least-IsSorted :
      (k : K) (c : Cache K) → IsSorted (map entry_of c) → IsSorted (map entry_of (at_least k c))
  at_least-IsSorted k [] s = tt
  at_least-IsSorted k (y ∷ c) s = elim (Bool-cases (less y.0 k)) [
    | inl l ↦ rw l (at_least-IsSorted k c s.1)
    | inr l ↦ rw l (All-at_least _ k c s.0, at_least-IsSorted k c s.1)
  ]

  at_least-IsNew : (k : K) (t : List (K × ℕ)) (c : Cache K) → IsNew t c → IsNew t (at_least k c)
  at_least-IsNew k t [] f = tt
  at_least-IsNew k t (y ∷ c) f = elim (Bool-cases (less y.0 k)) [
    | inl l ↦ rw l (at_least-IsNew k t c f.2)
    | inr l ↦ rw l (f.0, f.1, at_least-IsNew k t c f.2)
  ]

  length-at_least : (k : K) (c : Cache K) → length (at_least k c) ≤ length c
  length-at_least k [] = omega arith
  length-at_least k (y ∷ c) = ground (arith, length-at_least k c)

  -- Where the visible entries of the tree are sorted, the cache is sorted and holds only insertions
  -- of tuples that the tree does not have: a client that reads as many entries as there are from
  -- `lower_bound` on gets no error, and a sorted permutation of the entries of the tree and of the
  -- cached ones whose keys are not less than the given one.
  pub lower_bound-Merges :
      (n : ℕ) (t : List (K × ℕ)) (c : Cache K) (k : K)
      → length t + length c ≤ n
      → IsSorted t
      → IsSorted (map entry_of c)
      → IsNew t c
      → Merges t (at_least k c) (read_merged order n (lower_bound order t c k))
  unfolding lower_bound
  lower_bound-Merges n t c k h s u f = rw (cache_lower_bound-at_least k c u) (
      read_new n t (at_least k c) (omega (arith, length-at_least k c)) s (at_least-IsSorted k c u)
        (at_least-IsNew k t c f))
