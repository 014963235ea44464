-- ===== src/RemoteCounter/Exchange.antt =====
-- A step that moves keys between a counter and a fiber keeps the invariant.
use telldb.Base.{
  ℕ, ◌+◌, ◌≤◌, ◌<◌, ◌≡◌, ◌≢◌, refl, sym, ap, subst, ◌∙◌, ◌==◌, if◌then◌else◌, arith, Bool-cases,
  inl, inr, ◌⊎◌,
}
use telldb.RemoteCounter.{Counter}
use telldb.RemoteCounter.System.{Position, update, System}
use telldb.RemoteCounter.Places.{
  Place, current, following, carried, In, PositionFits, Inv, InBatch, Moved, moved_fits,
  moved_batch,
}

-- A place of counter `c` or of fiber `f`.
abbrev Of : ℕ → ℕ → Place → Type 0
Of c f (current d) = d ≡ c
Of c f (following d) = d ≡ c
Of c f (carried g) = g ≡ f

-- A step that changes the counter `c` to `c'` and moves the fiber `f`, which holds no batch then.
-- The keys that `c'` has in its batch and in its next one come from two places of `c` and `f`.
pub record Exchange (s : System) (f c : ℕ) (c' : Counter) (p : Position) : Type 0 where
  pub from_current : Place
  pub from_following : Place
  pub current_of : Of c f from_current
  pub following_of : Of c f from_following
  pub two : (from_current ≢ from_following) ⊎ (c'.next_counter ≡ 0)
  pub current_in : (k : ℕ) → c'.counter < k → k ≤ c'.reserved → In s from_current k
  pub following_in :
      (k : ℕ)
      → c'.next_counter ≢ 0
      → c'.next_counter < k
      → k ≤ c'.next_counter + 1000
      → In s from_following k
  pub free : (k : ℕ) → ¬ InBatch p k
  pub fits : PositionFits p
  pub counter_ordered : c'.counter ≤ c'.reserved

module _ (s t : System) (inv : Inv s) (f c : ℕ) (c' : Counter) (p : Position)
    (x : Exchange s f c c' p) (row_same : t.row ≡ s.row)
    (t_counters : t.counters ≡ update s.counters c c')
    (t_fibers : t.fibers ≡ update s.fibers f p) where
  origin : Place → Place
  origin (current d) = if c == d then x.from_current else current d
  origin (following d) = if c == d then x.from_following else following d
  origin (carried g) = carried g

  counter_at : (d : ℕ) → t.counters d ≡ (if c == d then c' else s.counters d)
  counter_at d = ap (λ (h : ℕ → Counter). h d) t_counters

  from : (q : Place) (k : ℕ) → In t q k → In s (origin q) k
  unfolding origin
  from (current d) k h = elim (Bool-cases (c == d)) [
    | inl e ↦
        let a : t.counters d ≡ c' = ground (arith, counter_at d) in
        rw e (x.current_in k (rw a at h.0) (rw a at h.1))
    | inr e ↦ let a : t.counters d ≡ s.counters d = ground (arith, counter_at d) in rw e (rw a at h)
  ]
  from (following d) k h = elim (Bool-cases (c == d)) [
    | inl e ↦
        let a : t.counters d ≡ c' = ground (arith, counter_at d) in
        rw e (x.following_in k (rw a at h.0) (rw a at h.1) (rw a at h.2))
    | inr e ↦ let a : t.counters d ≡ s.counters d = ground (arith, counter_at d) in rw e (rw a at h)
  ]
  from (carried g) k h = moved_batch s inv f p x.fits x.free g k (rw t_fibers at h)

  -- The places of the step's counter, and the others that hold a key after it.
  data Kind (q : Place) : Type 0 where
    is_current : q ≡ current c → origin q ≡ x.from_current → Kind q
    is_following : q ≡ following c → origin q ≡ x.from_following → c'.next_counter ≢ 0 → Kind q
    is_other : origin q ≡ q → ¬ Of c f q → Kind q

  classify : (q : Place) (k : ℕ) → In t q k → Kind q
  unfolding origin
  classify (current d) k h = elim (Bool-cases (c == d)) [
    | inl e ↦ is_current (ap current (ground arith)) (rw e refl)
    | inr e ↦ is_other (rw e refl) (λ o. ground (arith, o, e))
  ]
  classify (following d) k h = elim (Bool-cases (c == d)) [
    | inl e ↦ is_following (ap following (ground arith)) (rw e refl) (rw (counter_at d, e) at h.0)
    | inr e ↦ is_other (rw e refl) (λ o. ground (arith, o, e))
  ]
  classify (carried g) k h = elim (Bool-cases (f == g)) [
    | inl e ↦ absurd (x.free k (rw (t_fibers, e) at h))
    | inr e ↦ is_other refl (λ o. ground (arith, o, e))
  ]

  apart_of : (q r : Place) → Kind q → Kind r → origin q ≡ origin r → q ≡ r
  apart_of q r (is_current a b) (is_current a' b') o = cc
  apart_of q r (is_current a b) (is_following a' b' n) o = elim x.two [
    | inl d ↦ absurd (d (sym b ∙ o ∙ b'))
    | inr z ↦ absurd (n z)
  ]
  apart_of q r (is_current a b) (is_other b' n) o =
      absurd (n (subst (Of c f) (sym b ∙ o ∙ b') x.current_of))
  apart_of q r (is_following a b m) (is_current a' b') o = elim x.two [
    | inl d ↦ absurd (d (sym b' ∙ sym o ∙ b))
    | inr z ↦ absurd (m z)
  ]
  apart_of q r (is_following a b m) (is_following a' b' n) o = cc
  apart_of q r (is_following a b m) (is_other b' n) o =
      absurd (n (subst (Of c f) (sym b ∙ o ∙ b') x.following_of))
  apart_of q r (is_other b n) (is_current a' b') o =
      absurd (n (subst (Of c f) (sym b' ∙ sym o ∙ b) x.current_of))
  apart_of q r (is_other b n) (is_following a' b' m) o =
      absurd (n (subst (Of c f) (sym b' ∙ sym o ∙ b) x.following_of))
  apart_of q r (is_other b n) (is_other b' n') o = sym b ∙ o ∙ b'

  positions_fit : (g : ℕ) → PositionFits (t.fibers g)
  positions_fit g = rw t_fibers (moved_fits s inv f p x.fits g)

  all_ordered : (d : ℕ) → (t.counters d).counter ≤ (t.counters d).reserved
  all_ordered d = elim (Bool-cases (c == d)) [
    | inl e ↦ rw (counter_at d, e) x.counter_ordered
    | inr e ↦ rw (counter_at d, e) (inv.ordered d)
  ]

  pub exchanged : Moved s t
  exchanged = record {
    origin = origin;
    from = from;
    injective = λ q r k h l. apart_of q r (classify q k h) (classify r k l);
    row_same = row_same;
    positions = positions_fit;
    counters_ordered = all_ordered;
  }

  -- The first key of the new batch is taken: it is in no place then.
  pub key_free : In s x.from_current c'.counter → (q : Place) → ¬ In t q c'.counter
  key_free h q l =
      absurd_kind q (classify q c'.counter l) l
        (inv.apart (origin q) x.from_current c'.counter (from q c'.counter l) h)
    where
      absurd_kind : (q : Place) → Kind q → In t q c'.counter → origin q ≡ x.from_current → ⊥
      absurd_kind q (is_current a b) l o =
          let e : t.counters c ≡ c' = ground (arith, counter_at c) in
          let m : In t (current c) c'.counter = subst (λ r. In t r c'.counter) a l in
          omega (arith, ap (λ (z : Counter). z.counter) e, m.0)
      absurd_kind q (is_following a b n) l o = elim x.two [
        | inl d ↦ absurd (d (sym o ∙ b))
        | inr z ↦ absurd (n z)
      ]
      absurd_kind q (is_other b n) l o = n (subst (Of c f) (sym o ∙ b) x.current_of)
