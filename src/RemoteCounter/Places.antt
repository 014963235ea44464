-- ===== src/RemoteCounter/Places.antt =====
-- Where the keys are that are reserved and not taken, and what every step keeps of it.
use telldb.Base.{
  ℕ, ◌+◌, ◌*◌, ◌≤◌, ◌<◌, ◌≡◌, ◌≢◌, refl, sym, subst, List, [], ◌∷◌, none, some, true, ◌==◌, arith,
  All, AllDifferent, Bool-cases, inl, inr,
}
use telldb.RemoteCounter.{Row}
use telldb.RemoteCounter.System.{
  After, Position, reading, writing, granted, update, System, version_of,
}

-- Where a key can be that is reserved and not taken: with a counter, in its batch or in its next
-- one, or with a fiber that was granted a batch.
pub data Place : Type 0 where
  current following carried : ℕ → Place

abbrev pub InBatch : Position → ℕ → Type 0
InBatch (granted batch a) k = (batch < k) × (k ≤ batch + 1000)
InBatch _ k = ⊥

-- The keys up to here have 64 bits.
abbrev pub most_batches : ℕ
most_batches = 18446744073709551

abbrev pub In : System → Place → ℕ → Type 0
In s (current c) k = ((s.counters c).counter < k) × (k ≤ (s.counters c).reserved)
In s (following c) k =
    ((s.counters c).next_counter ≢ 0)
    × ((s.counters c).next_counter < k)
    × (k ≤ (s.counters c).next_counter + 1000)
In s (carried f) k = InBatch (s.fibers f) k

-- All keys up to here have been reserved.
abbrev pub top : System → ℕ
top s = version_of s.row * 1000

-- A row says how many batches there were.
abbrev pub Fits : Row → Type 0
Fits none = Unit
Fits (some (value, version)) = value ≡ version * 1000

abbrev pub PositionFits : Position → Type 0
PositionFits (writing old a) = Fits old
PositionFits _ = Unit

pub record Inv (s : System) : Type 0 where
  pub row_fits : Fits s.row
  pub position_fits : (f : ℕ) → PositionFits (s.fibers f)
  pub ordered : (c : ℕ) → (s.counters c).counter ≤ (s.counters c).reserved
  pub below : (p : Place) (k : ℕ) → In s p k → k ≤ top s
  pub apart : (p q : Place) (k : ℕ) → In s p k → In s q k → p ≡ q
  pub issued_below : All (λ k. k ≤ top s) s.issued
  pub issued_apart : All (λ k. (p : Place) → ¬ In s p k) s.issued
  pub different : AllDifferent s.issued

-- The keys of a place come from one place, different places from different ones.
pub record Moved (s t : System) : Type 0 where
  pub origin : Place → Place
  pub from : (p : Place) (k : ℕ) → In t p k → In s (origin p) k
  pub injective : (p q : Place) (k : ℕ) → In t p k → In t q k → origin p ≡ origin q → p ≡ q
  pub row_same : t.row ≡ s.row
  pub positions : (f : ℕ) → PositionFits (t.fibers f)
  pub counters_ordered : (c : ℕ) → (t.counters c).counter ≤ (t.counters c).reserved

pub All-imp : {P Q : ℕ → Type 0} (ks : List ℕ) → ((k : ℕ) → P k → Q k) → All P ks → All Q ks
All-imp [] f a = tt
All-imp (k ∷ ks) f a = (f k a.0, All-imp ks f a.1)

pub Moved-Inv : (s t : System) → Inv s → Moved s t → t.issued ≡ s.issued → Inv t
Moved-Inv s t inv m e = record {
  row_fits = subst Fits (sym m.row_same) inv.row_fits;
  position_fits = m.positions;
  ordered = m.counters_ordered;
  below = λ p k h. rw m.row_same (inv.below (m.origin p) k (m.from p k h));
  apart = λ p q k h l.
      m.injective p q k h l (inv.apart (m.origin p) (m.origin q) k (m.from p k h) (m.from q k l));
  issued_below = rw (e, m.row_same) inv.issued_below;
  issued_apart =
      rw e (All-imp s.issued (λ k f p h. f (m.origin p) (m.from p k h)) inv.issued_apart);
  different = rw e inv.different;
}

module _ (s : System) (inv : Inv s) where
  pub quiet :
      (t : System)
      → t.row ≡ s.row
      → t.issued ≡ s.issued
      → ((c : ℕ)
          → ((t.counters c).counter ≡ (s.counters c).counter)
            × ((t.counters c).reserved ≡ (s.counters c).reserved)
            × ((t.counters c).next_counter ≡ (s.counters c).next_counter))
      → ((f k : ℕ) → InBatch (t.fibers f) k → InBatch (s.fibers f) k)
      → ((f : ℕ) → PositionFits (t.fibers f))
      → Inv t
  quiet t r e same batch fits =
      Moved-Inv s t inv
        (record {
          origin = λ p. p;
          from = from;
          injective = λ p q k h l o. o;
          row_same = r;
          positions = fits;
          counters_ordered = λ c. let (a, b, d) = same c in rw (a, b) (inv.ordered c);
        })
        e
    where
      from : (p : Place) (k : ℕ) → In t p k → In s p k
      from (current c) k h = let (a, b, d) = same c in omega (arith, h)
      from (following c) k h = let (a, b, d) = same c in ground arith
      from (carried f) k h = batch f k h

  module _ (f : ℕ) (p : Position) (fits : PositionFits p) where
    pub moved_fits : (g : ℕ) → PositionFits (update s.fibers f p g)
    moved_fits g = elim (Bool-cases (f == g)) [
      | inl e ↦ rw e fits
      | inr e ↦ rw e (inv.position_fits g)
    ]

    module _ (free : (k : ℕ) → ¬ InBatch p k) where
      pub moved_batch : (g k : ℕ) → InBatch (update s.fibers f p g) k → InBatch (s.fibers g) k
      moved_batch g k h = elim (Bool-cases (f == g)) [
        | inl e ↦ absurd (free k (rw e at h))
        | inr e ↦ rw e at h
      ]

      -- A step that moves a fiber only.
      pub only_moves : Inv (record s { fibers = update s.fibers f p })
      only_moves =
          quiet (record s { fibers = update s.fibers f p }) refl refl (λ c. (refl, refl, refl))
            moved_batch moved_fits

  pub start-Inv :
      (f c : ℕ)
      → Inv (record s {
        counters = update s.counters c (record (s.counters c) { init = true });
        fibers = update s.fibers f (reading After.wait_for_key);
      })
  start-Inv f c =
      quiet _ refl refl (λ d. ground arith)
        (moved_batch f (reading After.wait_for_key) tt (λ k h. h))
        (moved_fits f (reading After.wait_for_key) tt)
