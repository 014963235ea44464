-- ===== src/TableCache/Freeing.antt =====
-- The destructor of a table frees every tuple that it owns, once (src/TableCache.cpp).
use telldb.Base.{
  ℕ, ◌≡◌, ◌≢◌, refl, sym, ap, subst, ◌∙◌, List, [], ◌∷◌, ◌++◌, Option, none, some, Bool, lookup,
  Distinct, All, All-append, AllDifferent, arith, ◌⊎◌, inl, inr, emplace, lookup-emplace_any,
  emplace_any-Distinct,
}
use telldb.Errors.{after}
use telldb.TableCache.Ops.{add_tuple}
use telldb.TableCache.State.{Operation, Change, World}
use telldb.TableCache.View.{IsValid}
use telldb.TableCache.Step.{Owned-live}
use telldb.TableCache.Lifetime.{
  destroy_table, destroy_table-eq, delete_all-Freed, Freed, tuple_of, cached_tuples, changed_tuples,
  own_tuples,
}

AllDifferent-append :
    (ps qs : List ℕ)
    → AllDifferent ps
    → AllDifferent qs
    → All (λ p. All (λ q. p ≢ q) qs) ps
    → AllDifferent (ps ++ qs)
AllDifferent-append [] qs d e a = e
AllDifferent-append (p ∷ ps) qs d e a =
    (All-append (λ q. p ≢ q) ps qs d.0 a.0, AllDifferent-append ps qs d.1 e a.1)

module _ {V : Type 0} where
  -- A part of a map.
  abbrev IsPart : List (ℕ × V) → List (ℕ × V) → Type 0
  IsPart m part = All (λ a. lookup a.0 m ≡ some a.1) part

  IsPart-behind :
      (k : ℕ) (v : V) (m part : List (ℕ × V))
      → lookup k m ≡ none
      → IsPart m part
      → IsPart ((k, v) ∷ m) part
  unfolding lookup
  IsPart-behind k v m [] n a = tt
  IsPart-behind k v m ((j, w) ∷ rest) n (l, a) = (ground arith, IsPart-behind k v m rest n a)

  whole-IsPart : (m : List (ℕ × V)) → Distinct m → IsPart m m
  unfolding lookup
  whole-IsPart [] d = tt
  whole-IsPart ((k, v) ∷ m) d = (ground arith, IsPart-behind k v m m d.0 (whole-IsPart m d.1))

tuple_cases :
    (c : Change)
    → (tuple_of c ≡ [])
      ⊎ ((p : ℕ) × (tuple_of c ≡ p ∷ []) × (c.tuple ≡ some p) × (c.operation ≢ Operation.deletion))
tuple_cases c = go c.operation c.tuple refl refl
  where
    go :
        (op : Operation) (o : Option ℕ)
        → c.operation ≡ op
        → c.tuple ≡ o
        → (tuple_of c ≡ [])
          ⊎ ((p : ℕ) × (tuple_of c ≡ p ∷ [])
              × (c.tuple ≡ some p)
              × (c.operation ≢ Operation.deletion))
    go Operation.deletion o e q = inl (rw e refl)
    go Operation.insertion none e q = inl (ground arith)
    go Operation.update none e q = inl (ground arith)
    go Operation.insertion (some p) e q = inr (p, ground arith, q, ground arith)
    go Operation.update (some p) e q = inr (p, ground arith, q, ground arith)

module _ {T K B : Type 0} (w : World T K B) where
  -- No two keys share a tuple that was read.
  pub record CacheApart : Type 0 where
    pub distinct : Distinct w.table.cache
    pub apart :
        (j k : ℕ) (e f : ℕ × Bool)
        → lookup j w.table.cache ≡ some e
        → lookup k w.table.cache ≡ some f
        → e.0 ≡ f.0
        → j ≡ k

  module _ (v : IsValid w) (c : CacheApart) where
    cached_live :
        (m : List (ℕ × (ℕ × Bool)))
        → IsPart w.table.cache m
        → All (λ p. (t : T) × (w.heap.cell p ≡ some t)) (cached_tuples m)
    cached_live [] a = tt
    cached_live ((k, e) ∷ m) (l, a) = (v.cached k e l, cached_live m a)

    cached_other :
        (k : ℕ) (e : ℕ × Bool) (m : List (ℕ × (ℕ × Bool)))
        → lookup k w.table.cache ≡ some e
        → IsPart w.table.cache m
        → lookup k m ≡ none
        → All (λ q. e.0 ≢ q) (cached_tuples m)
    unfolding lookup
    cached_other k e [] h a n = tt
    cached_other k e ((j, f) ∷ m) h (l, a) n = (
      (λ same. let s = c.apart k j e f h l same in ground (arith, s)),
      cached_other k e m h a (ground arith),
    )

    cached_different :
        (m : List (ℕ × (ℕ × Bool)))
        → IsPart w.table.cache m
        → Distinct m
        → AllDifferent (cached_tuples m)
    cached_different [] a d = tt
    cached_different ((k, e) ∷ m) (l, a) (n, d) = (cached_other k e m l a n, cached_different m a d)

    tuple_All :
        (P : ℕ → Type 0) (d : Change) → ((p : ℕ) → d.tuple ≡ some p → P p) → All P (tuple_of d)
    tuple_All P d h = elim (tuple_cases d) [
      | inl e ↦ subst (All P) (sym e) tt
      | inr (p, e, q, ne) ↦ subst (All P) (sym e) (h p q, tt)
    ]

    changed_live :
        (cs : List (ℕ × Change))
        → IsPart w.table.changes cs
        → All (λ p. (t : T) × (w.heap.cell p ≡ some t)) (changed_tuples cs)
    changed_live [] a = tt
    changed_live ((k, d) ∷ cs) (l, a) =
        All-append (λ p. (t : T) × (w.heap.cell p ≡ some t)) (tuple_of d) (changed_tuples cs)
          (tuple_All (λ p. (t : T) × (w.heap.cell p ≡ some t)) d
            (λ p q. Owned-live w.heap.cell w.heap.cell d.tuple d.operation p (v.owned k d l) q))
          (changed_live cs a)

    changed_other :
        (k : ℕ) (d : Change) (p : ℕ) (cs : List (ℕ × Change))
        → lookup k w.table.changes ≡ some d
        → d.tuple ≡ some p
        → IsPart w.table.changes cs
        → lookup k cs ≡ none
        → All (λ q. p ≢ q) (changed_tuples cs)
    unfolding lookup
    changed_other k d p [] h q a n = tt
    changed_other k d p ((j, f) ∷ cs) h q (l, a) n =
        All-append (λ r. p ≢ r) (tuple_of f) (changed_tuples cs)
          (tuple_All (λ r. p ≢ r) f
            (λ r e same.
              let s = v.apart k j d f p h l q (e ∙ ap some (sym same)) in ground (arith, s)))
          (changed_other k d p cs h q a (ground arith))

    changed_different :
        (cs : List (ℕ × Change))
        → IsPart w.table.changes cs
        → Distinct cs
        → AllDifferent (changed_tuples cs)
    changed_different [] a d = tt
    changed_different ((k, f) ∷ cs) (l, a) (n, d) =
        let rest = changed_different cs a d in
        elim (tuple_cases f) [
          | inl e ↦ subst (λ ps. AllDifferent (ps ++ changed_tuples cs)) (sym e) rest
          | inr (p, e, q, ne) ↦
              subst (λ ps. AllDifferent (ps ++ changed_tuples cs)) (sym e)
                (changed_other k f p cs l q a n, rest)
        ]

    changed_apart :
        (k : ℕ) (e : ℕ × Bool) (cs : List (ℕ × Change))
        → lookup k w.table.cache ≡ some e
        → IsPart w.table.changes cs
        → All (λ q. e.0 ≢ q) (changed_tuples cs)
    changed_apart k e [] h a = tt
    changed_apart k e ((j, f) ∷ cs) h (l, a) =
        All-append (λ q. e.0 ≢ q) (tuple_of f) (changed_tuples cs)
          (tuple_All (λ q. e.0 ≢ q) f
            (λ q t same. v.apart_cache j k f e l h (t ∙ ap some (sym same))))
          (changed_apart k e cs h a)

    cached_apart :
        (m : List (ℕ × (ℕ × Bool)))
        → IsPart w.table.cache m
        → All (λ p. All (λ q. p ≢ q) (changed_tuples w.table.changes)) (cached_tuples m)
    cached_apart [] a = tt
    cached_apart ((k, e) ∷ m) (l, a) = (
      changed_apart k e w.table.changes l (whole-IsPart w.table.changes v.distinct),
      cached_apart m a,
    )

    -- On a valid table of which no two keys share a tuple that was read, the destructor returns: it
    -- deletes every tuple of the cache and of the changes, none of them twice, and no other tuple.
    pub destroy_table-Freed : Freed (own_tuples w) w (destroy_table w)
    destroy_table-Freed =
        let m = whole-IsPart w.table.cache c.distinct in
        let cs = whole-IsPart w.table.changes v.distinct in
        rw (destroy_table-eq w) (
          delete_all-Freed (own_tuples w) w
            (AllDifferent-append (cached_tuples w.table.cache) (changed_tuples w.table.changes)
              (cached_different w.table.cache m c.distinct)
              (changed_different w.table.changes cs v.distinct) (cached_apart w.table.cache m))
            (All-append (λ p. (t : T) × (w.heap.cell p ≡ some t)) (cached_tuples w.table.cache)
              (changed_tuples w.table.changes) (cached_live w.table.cache m)
              (changed_live w.table.changes cs)))

module _ {T K B : Type 0} (w : World T K B) (v : IsValid w) (c : CacheApart w) where
  live_other : (e : ℕ × Bool) (k : ℕ) → lookup k w.table.cache ≡ some e → e.0 ≢ w.heap.next
  live_other e k l same =
      let (t, live) = v.cached k e l in let n = v.fresh w.heap.next (omega arith) in ground arith

  emplaced :
      (key j : ℕ) (x e : ℕ × Bool)
      → lookup j (emplace key x w.table.cache) ≡ some e
      → (lookup j w.table.cache ≡ some e) ⊎ ((x ≡ e) × (key ≡ j))
  emplaced key j x e l = ground (arith, l, lookup-emplace_any key j x w.table.cache)

  -- A tuple that is read is in memory of its own, so no two keys share one then either.
  pub add_tuple-CacheApart :
      (key : ℕ) (t : T) (newest : Bool) → CacheApart (after (add_tuple key t newest w))
  unfolding add_tuple
  add_tuple-CacheApart key t newest = record {
    distinct = emplace_any-Distinct key (w.heap.next, newest) w.table.cache c.distinct;
    apart = λ j k e f l m same. elim (emplaced key j (w.heap.next, newest) e l) [
      | inl o ↦ elim (emplaced key k (w.heap.next, newest) f m) [
        | inl u ↦ c.apart j k e f o u same
        | inr u ↦ let n = live_other e j o in absurd (n (same ∙ ap (λ z. z.0) (sym u.0)))
      ]
      | inr o ↦ elim (emplaced key k (w.heap.next, newest) f m) [
        | inl u ↦ let n = live_other f k u in absurd (n (sym same ∙ ap (λ z. z.0) (sym o.0)))
        | inr u ↦ sym o.1 ∙ u.1
      ]
    ];
  }
