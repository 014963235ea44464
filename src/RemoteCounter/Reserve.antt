-- ===== src/RemoteCounter/Reserve.antt =====
-- `requestNewBatch` that writes the row, and so reserves the keys of the next batch.
use telldb.Base.{
  ℕ, ◌+◌, ◌*◌, ◌≤◌, ◌<◌, ◌≡◌, refl, sym, ap, subst, ◌∙◌, List, [], ◌∷◌, none, some, true, ◌==◌,
  arith, All, Bool-cases, inl, inr,
}
use telldb.RemoteCounter.{Row, batch_of, value_to_write}
use telldb.RemoteCounter.System.{
  After, writing, granted, update, System, version_of, same_version, write_row,
}
use telldb.RemoteCounter.Places.{
  Place, current, following, carried, In, top, PositionFits, Fits, Inv, InBatch, moved_fits,
  All-imp,
}
use telldb.RemoteCounter.Places.{most_batches}

All-both :
    {P Q R : ℕ → Type 0} (ks : List ℕ)
    → ((k : ℕ) → P k → Q k → R k)
    → All P ks
    → All Q ks
    → All R ks
All-both [] f a b = tt
All-both (k ∷ ks) f a b = (f k a.0 b.0, All-both ks f a.1 b.1)

pub same_version-version :
    (old now : Row) → same_version old now ≡ true → version_of old ≡ version_of now
same_version-version none none e = refl
same_version-version none (some y) e = cc
same_version-version (some x) none e = cc
same_version-version (some x) (some y) e = ground (arith, e)

-- The row that is written, and the batch, for the version that was read.
row_facts :
    (old now : Row)
    → Fits old
    → same_version old now ≡ true
    → version_of now < most_batches
    → Fits (write_row old)
      × (batch_of old ≡ version_of now * 1000)
      × (version_of (write_row old) ≡ version_of now + 1)
unfolding batch_of value_to_write
row_facts none none f e h = (omega arith, omega arith, omega arith)
row_facts none (some y) f e h = cc
row_facts (some (value, version)) none f e h = cc
row_facts (some (value, version)) (some (x, y)) f e h = ground (arith, f, e, h)

module _ (s : System) (inv : Inv s) (f : ℕ) (old : Row) (a : After)
    (at : s.fibers f ≡ writing old a) (same : same_version old s.row ≡ true)
    (less : version_of s.row < most_batches) where
  unfoldable pub written : System
  written = record s { row = write_row old; fibers = update s.fibers f (granted (batch_of old) a) }

  write_facts : Fits (write_row old) × (batch_of old ≡ top s) × (top written ≡ top s + 1000)
  unfolding written
  write_facts =
      let (a, b, c) = row_facts old s.row (subst PositionFits at (inv.position_fits f)) same less in
      (a, b, omega (arith, c))

  data Where (q : Place) (k : ℕ) : Type 0 where
    granted_now : q ≡ carried f → top s < k → k ≤ top s + 1000 → Where q k
    before : In s q k → Where q k

  locate : (q : Place) (k : ℕ) → In written q k → Where q k
  unfolding written
  locate (current d) k h = before h
  locate (following d) k h = before h
  locate (carried g) k h = elim (Bool-cases (f == g)) [
    | inl e ↦
        let (r, b, n) = write_facts in
        let m : InBatch (granted (batch_of old) a) k = rw e at h in
        granted_now (ap carried (ground arith)) (omega (arith, b, m)) (omega (arith, b, m))
    | inr e ↦ before (rw e at h)
  ]

  Where-≤ : (q : Place) (k : ℕ) → Where q k → k ≤ top written
  Where-≤ q k (granted_now e l m) = let (a, b, c) = write_facts in omega arith
  Where-≤ q k (before h) = let (a, b, c) = write_facts in omega (arith, inv.below q k h)

  Where-apart : (q r : Place) (k : ℕ) → Where q k → Where r k → q ≡ r
  Where-apart q r k (granted_now e l m) (granted_now e' l' m') = e ∙ sym e'
  Where-apart q r k (granted_now e l m) (before h) = absurd (omega (arith, inv.below r k h))
  Where-apart q r k (before h) (granted_now e l m) = absurd (omega (arith, inv.below q k h))
  Where-apart q r k (before h) (before h') = inv.apart q r k h h'

  Where-free : (q : Place) (k : ℕ) → k ≤ top s → ((p : Place) → ¬ In s p k) → ¬ Where q k
  Where-free q k b n (granted_now e l m) = omega arith
  Where-free q k b n (before h) = n q h

  pub write-Inv : Inv written
  unfolding written
  write-Inv =
      let (r, b, n) = write_facts in
      record {
        row_fits = r;
        position_fits = moved_fits s inv f (granted (batch_of old) a) tt;
        ordered = inv.ordered;
        below = λ q k h. Where-≤ q k (locate q k h);
        apart = λ q r k h l. Where-apart q r k (locate q k h) (locate r k l);
        issued_below = All-imp s.issued (λ k h. omega (arith, n, h)) inv.issued_below;
        issued_apart =
            All-both s.issued (λ k b n q h. Where-free q k b n (locate q k h)) inv.issued_below
              inv.issued_apart;
        different = inv.different;
      }
