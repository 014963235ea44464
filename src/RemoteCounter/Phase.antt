-- ===== src/RemoteCounter/Phase.antt =====
-- What one counter does: it is fresh, has keys enough, asks for a batch, or has the next one.
use telldb.Base.{
  ℕ, ◌+◌, ◌≤◌, ◌<◌, ◌≡◌, ◌≢◌, refl, sym, subst, Bool, true, false, ◌==◌, ==_refl, arith, Bool-cases,
  inl, inr, ◌⊎◌,
}
use telldb.RemoteCounter.{Counter, Row, new_counter}
use telldb.RemoteCounter.System.{
  Position, idle, waiting, reading, writing, granted, requests, update, version_of,
}

-- Whether the batch of a request that has come this far is not the first one.
abbrev pub Sees : Row → Position → Type 0
Sees r (reading a) = version_of r ≢ 0
Sees r (writing old a) = (version_of old ≢ 0) × (version_of r ≢ 0)
Sees r (granted batch a) = batch ≢ 0
Sees r _ = Unit

Sees-≤ : (p : Position) (r r' : Row) → version_of r ≤ version_of r' → Sees r p → Sees r' p
Sees-≤ idle r r' h w = tt
Sees-≤ waiting r r' h w = tt
Sees-≤ (reading a) r r' h w = λ e. w (omega (arith, h, e))
Sees-≤ (writing old a) r r' h w = (w.0, λ e. w.1 (omega (arith, h, e)))
Sees-≤ (granted batch a) r r' h w = w

pub not_both {ℓ} : {A : Type ℓ} {b : Bool} → b ≡ false → b ≡ true → A
not_both e i = cc

module _ (owner : ℕ → ℕ) (c : ℕ) where
  -- No fiber of the counter is in a request, and only `g` is.
  abbrev pub Quiet : (ℕ → Position) → Type 0
  Quiet fibers = (g : ℕ) → owner g ≡ c → requests (fibers g) ≡ false

  pub record Single (fibers : ℕ → Position) (g : ℕ) : Type 0 where
    pub owned : owner g ≡ c
    pub asks : requests (fibers g) ≡ true
    pub only : (h : ℕ) → owner h ≡ c → requests (fibers h) ≡ true → h ≡ g

  pub data Phase (n : Counter) (fibers : ℕ → Position) (r : Row) : Type 0 where
    fresh : n ≡ new_counter → ((g : ℕ) → owner g ≡ c → fibers g ≡ idle) → Phase n fibers r
    full :
        n.init ≡ true
        → n.counter + 100 < n.reserved
        → n.next_counter ≡ 0
        → Quiet fibers
        → Phase n fibers r
    asking :
        (g : ℕ)
        → n.init ≡ true
        → n.counter ≤ n.reserved
        → n.reserved ≤ n.counter + 100
        → n.next_counter ≡ 0
        → Single fibers g
        → (n.counter ≡ n.reserved) ⊎ Sees r (fibers g)
        → Phase n fibers r
    stored :
        n.init ≡ true
        → n.counter ≤ n.reserved
        → n.reserved ≤ n.counter + 100
        → n.next_counter ≢ 0
        → Quiet fibers
        → Phase n fibers r

  -- Fibers of other counters, and rows that are written, leave the phase as it is.
  pub frame :
      {n : Counter} {fibers fibers' : ℕ → Position} {r r' : Row}
      → ((g : ℕ) → owner g ≡ c → fibers' g ≡ fibers g)
      → version_of r ≤ version_of r'
      → Phase n fibers r
      → Phase n fibers' r'
  frame same h (fresh e q) = fresh e (λ g o. rw (same g o) (q g o))
  frame same h (full i l z q) = full i l z (λ g o. rw (same g o) (q g o))
  frame {n} {fibers} {fibers'} {r} {r'} same h (asking g i l u z s w) =
      asking g i l u z
        (record {
          owned = s.owned;
          asks = rw (same g s.owned) s.asks;
          only = λ k o e. s.only k o (rw (same k o) at e);
        })
        (elim w [ inl e ↦ inl e | inr v ↦ inr (rw (same g s.owned) (Sees-≤ (fibers g) r r' h v)) ])
  frame same h (stored i l u z q) = stored i l u z (λ g o. rw (same g o) (q g o))

  module _ (fibers : ℕ → Position) (f : ℕ) (p : Position) where
    pub Quiet-move : Quiet fibers → requests p ≡ false → Quiet (update fibers f p)
    Quiet-move q e g o = elim (Bool-cases (f == g)) [ inl i ↦ rw i e | inr i ↦ rw i (q g o) ]

    pub Single-new : Quiet fibers → owner f ≡ c → requests p ≡ true → Single (update fibers f p) f
    Single-new q o e = record { owned = o; asks = rw (==_refl f) e; only = only }
      where
        only : (h : ℕ) → owner h ≡ c → requests (update fibers f p h) ≡ true → h ≡ f
        only h l r = elim (Bool-cases (f == h)) [
          | inl i ↦ ground arith
          | inr i ↦ not_both (q h l) (rw i at r)
        ]

    pub Single-self : Single fibers f → requests p ≡ true → Single (update fibers f p) f
    Single-self s e = record { owned = s.owned; asks = rw (==_refl f) e; only = only }
      where
        only : (h : ℕ) → owner h ≡ c → requests (update fibers f p h) ≡ true → h ≡ f
        only h l r = elim (Bool-cases (f == h)) [
          | inl i ↦ ground arith
          | inr i ↦ s.only h l (rw i at r)
        ]

    pub Single-end : Single fibers f → requests p ≡ false → Quiet (update fibers f p)
    Single-end s e g o = elim (Bool-cases (f == g)) [
      | inl i ↦ rw i e
      | inr i ↦ elim (Bool-cases (requests (fibers g))) [
        | inl r ↦ let l = s.only g o r in ground (arith, i, l)
        | inr r ↦ rw i r
      ]
    ]

    pub Single-other :
        (g : ℕ)
        → Single fibers g
        → requests (fibers f) ≡ false
        → requests p ≡ false
        → Single (update fibers f p) g × (update fibers f p g ≡ fibers g)
    Single-other g s e r = elim (Bool-cases (f == g)) [
      | inl i ↦
          let j : f ≡ g = ground arith in
          not_both e (subst (λ h. requests (fibers h) ≡ true) (sym j) s.asks)
      | inr i ↦ (record { owned = s.owned; asks = rw i s.asks; only = only }, rw i refl)
    ]
      where
        only : (h : ℕ) → owner h ≡ c → requests (update fibers f p h) ≡ true → h ≡ g
        only h o t = elim (Bool-cases (f == h)) [
          | inl i ↦ not_both r (rw i at t)
          | inr i ↦ s.only h o (rw i at t)
        ]
