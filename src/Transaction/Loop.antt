-- ===== src/Transaction/Loop.antt =====
-- The loops over the tables of a transaction (src/TransactionCache.cpp), also where an exception
-- ends one.
use native.Mathlib.Decide.{ℕ_discrete}
use telldb.Base.{
  ℕ, ◌≡◌, ◌≢◌, refl, subst, List, [], ◌∷◌, Option, none, some, ◌⊎◌, inl, inr, lookup, Distinct,
  arith,
}
use telldb.Errors.{Outcome, done, raise, after}
use telldb.Transaction.Commit.{put_first, each}

module _ {S A : Type 0} (f : S × A → Outcome (S × A) (Unit {0})) where
  pub each_nil : (s : S) → after (each f s []) ≡ (s, [])
  unfolding each
  each_nil s = refl

  -- After the first element the loop has ended, or it goes on.
  pub each_cons :
      (s : S) (a : A) (ts : List A)
      → let x = after (f (s, a)) in
        let rest = after (each f x.0 ts) in
        (after (each f s (a ∷ ts)) ≡ (x.0, x.1 ∷ ts))
        ⊎ (after (each f s (a ∷ ts)) ≡ (rest.0, x.1 ∷ rest.1))
  unfolding each
  each_cons s a ts = go (f (s, a)) refl
    where
      put :
          (b : A) (o : Outcome (S × List A) (Unit {0}))
          → after (put_first b o) ≡ ((after o).0, b ∷ (after o).1)
      put b (done s u) = refl
      put b (raise s e) = refl

      go :
          (o : Outcome (S × A) (Unit {0}))
          → f (s, a) ≡ o
          → (after (each f s (a ∷ ts)) ≡ ((after (f (s, a))).0, (after (f (s, a))).1 ∷ ts))
            ⊎ (after (each f s (a ∷ ts)) ≡ (
              (after (each f (after (f (s, a))).0 ts)).0,
              (after (f (s, a))).1 ∷ (after (each f (after (f (s, a))).0 ts)).1,
            ))
      go (raise x e) q = inl (rw (q, each) refl)
      go (done x u) q = inr (rw (q, each) (put x.1 (each f x.0 ts)))

-- What a loop over tables keeps of one table, if each step keeps it, of this table and of others.
module _ {S W : Type 0} (i : ℕ) (P : S → Option W → Type 0)
    (f : S × (ℕ × W) → Outcome (S × (ℕ × W)) (Unit {0})) where
  pub record Keeps : Type 0 where
    pub key : (s : S) (k : ℕ) (w : W) → (after (f (s, (k, w)))).1.0 ≡ k
    pub other :
        (s : S) (k : ℕ) (w : W) (o : Option W) → k ≢ i → P s o → P (after (f (s, (k, w)))).0 o
    pub self :
        (s : S) (k : ℕ) (w : W)
        → k ≡ i
        → P s (some w)
        → P (after (f (s, (k, w)))).0 (some (after (f (s, (k, w)))).1.1)

  module _ (keeps : Keeps) where
    -- The keys stay.
    each-lookup :
        (s : S) (ts : List (ℕ × W)) (j : ℕ)
        → lookup j ts ≡ none
        → lookup j (after (each f s ts)).1 ≡ none
    unfolding lookup
    each-lookup s [] j h = rw (each_nil f s) h
    each-lookup s ((k, w) ∷ ts) j h =
        let key = keeps.key s k w in
        elim (each_cons f s (k, w) ts) [
          | inl e ↦ rw e (ground arith)
          | inr e ↦ rw e (ground (arith, each-lookup (after (f (s, (k, w)))).0 ts j))
        ]

    pub each-Distinct : (s : S) (ts : List (ℕ × W)) → Distinct ts → Distinct (after (each f s ts)).1
    each-Distinct s [] d = rw (each_nil f s) tt
    each-Distinct s ((k, w) ∷ ts) d =
        let x = after (f (s, (k, w))) in
        let key = keeps.key s k w in
        elim (each_cons f s (k, w) ts) [
          | inl e ↦ rw e (rw key d.0, d.1)
          | inr e ↦ rw e (rw key (each-lookup x.0 ts k d.0), each-Distinct x.0 ts d.1)
        ]

    each_other :
        (s : S) (ts : List (ℕ × W)) (o : Option W)
        → lookup i ts ≡ none
        → P s o
        → P (after (each f s ts)).0 o
    unfolding lookup
    each_other s [] o h p = rw (each_nil f s) p
    each_other s ((k, w) ∷ ts) o h p =
        let here = keeps.other s k w o (ground arith) p in
        elim (each_cons f s (k, w) ts) [
          | inl e ↦ rw e here
          | inr e ↦ rw e (each_other (after (f (s, (k, w)))).0 ts o (ground arith) here)
        ]

    -- The loop keeps it.
    pub each_keeps :
        (s : S) (ts : List (ℕ × W))
        → Distinct ts
        → P s (lookup i ts)
        → P (after (each f s ts)).0 (lookup i (after (each f s ts)).1)
    unfolding lookup
    each_keeps s [] d p = rw (each_nil f s) p
    each_keeps s ((k, w) ∷ ts) d p = elim (ℕ_discrete k i) [
      | yes same ↦
          let x = after (f (s, (k, w))) in
          let key = keeps.key s k w in
          let there : lookup i ((k, w) ∷ ts) ≡ some w = ground arith in
          let here = keeps.self s k w same (subst (P s) there p) in
          elim (each_cons f s (k, w) ts) [
            | inl e ↦ let l : lookup i (x.1 ∷ ts) ≡ some x.1.1 = ground arith in rw e (rw l here)
            | inr e ↦
                let l : lookup i (x.1 ∷ (after (each f x.0 ts)).1) ≡ some x.1.1 = ground arith in
                rw e (
                  rw l (
                    each_other x.0 ts (some x.1.1) (subst (λ j. lookup j ts ≡ none) same d.0) here))
          ]
      | no ne ↦
          let x = after (f (s, (k, w))) in
          let key = keeps.key s k w in
          let there : lookup i ((k, w) ∷ ts) ≡ lookup i ts = ground arith in
          let here = keeps.other s k w (lookup i ts) ne (subst (P s) there p) in
          elim (each_cons f s (k, w) ts) [
            | inl e ↦ let l : lookup i (x.1 ∷ ts) ≡ lookup i ts = ground arith in rw e (rw l here)
            | inr e ↦
                let l : lookup i (x.1 ∷ (after (each f x.0 ts)).1)
                    ≡ lookup i (after (each f x.0 ts)).1 =
                  ground arith in
                rw e (rw l (each_keeps x.0 ts d.1 here))
          ]
    ]
