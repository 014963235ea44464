-- ===== src/TableCache/Step.antt =====
-- The one argument behind every operation of the table: a call that puts one change at one key,
-- frees at most the tuple of the change that was there, and takes a cell that was free.
use telldb.Base.{
  ℕ, ◌≤◌, ◌≡◌, ◌≢◌, refl, sym, ◌∙◌, List, Option, none, some, Bool, lookup, Distinct, arith, ◌==◌,
  if◌then◌else◌, inl, inr,
}
use mathlib.Core.Logic.{◌⊎◌}
use native.Mathlib.Decide.{ℕ_discrete}
use telldb.TableCache.State.{Operation, Change, Heap}
use telldb.TableCache.View.{Valid, Owned, action_of, base_of, pending_of, slot_of}

module _ {T : Type 0} (cell cell' : ℕ → Option T) (o : Option ℕ) where
  abbrev pub Moves : Type 0
  Moves = (p : ℕ) (t : T) → o ≡ some p → cell p ≡ some t → cell' p ≡ some t

  pub Owned-moved : (op : Operation) → Moves → Owned cell op o → Owned cell' op o
  Owned-moved Operation.insertion m (p, t, e, l) = (p, t, e, m p t e l)
  Owned-moved Operation.update m (p, t, e, l) = (p, t, e, m p t e l)
  Owned-moved Operation.deletion m e = e

  pub action_moved :
      (op : Operation) → Moves → Owned cell op o → action_of cell' op o ≡ action_of cell op o
  action_moved Operation.insertion m (p, t, e, l) = ground (arith, m p t e l)
  action_moved Operation.update m (p, t, e, l) = ground (arith, m p t e l)
  action_moved Operation.deletion m e = refl

  -- The pointer of a change that owns it leads to a living tuple.
  pub Owned-live :
      (op : Operation) (p : ℕ) → Owned cell op o → o ≡ some p → (t : T) × (cell p ≡ some t)
  Owned-live Operation.insertion p (q, t, e, l) f = (t, ground arith)
  Owned-live Operation.update p (q, t, e, l) f = (t, ground arith)
  Owned-live Operation.deletion p e f = absurd (ground arith)

module _ {T : Type 0} (h h' : Heap T) (cache : List (ℕ × (ℕ × Bool))) (old new : List (ℕ × Change))
    (key : ℕ) (x : Option Change) where
  pub record Step : Type 0 where
    pub lookups : (j : ℕ) → lookup j new ≡ (if key == j then x else lookup j old)
    pub distinct : Distinct new
    pub kept :
        (p : ℕ) (t : T)
        → ((c : Change) → lookup key old ≡ some c → c.tuple ≢ some p)
        → h.cell p ≡ some t
        → h'.cell p ≡ some t
    pub fresh : (p : ℕ) → h'.next ≤ p → h'.cell p ≡ none
    pub owned : (c : Change) → x ≡ some c → Owned h'.cell c.operation c.tuple
    pub newly : (c : Change) (p : ℕ) → x ≡ some c → c.tuple ≡ some p → h.cell p ≡ none

  module _ (v : Valid h cache old) (s : Step) where
    lookup_self : lookup key new ≡ x
    lookup_self = s.lookups key ∙ ground arith

    lookup_other : (j : ℕ) → j ≢ key → lookup j new ≡ lookup j old
    lookup_other j ne = s.lookups j ∙ ground arith

    other_kept :
        (j : ℕ) (c : Change) (p : ℕ) (t : T)
        → j ≢ key
        → lookup j old ≡ some c
        → c.tuple ≡ some p
        → h.cell p ≡ some t
        → h'.cell p ≡ some t
    other_kept j c p t ne l e live = s.kept p t (λ d ld ed. ne (v.apart j key c d p l ld e ed)) live

    cached_kept :
        (k : ℕ) (e : ℕ × Bool) (t : T)
        → lookup k cache ≡ some e
        → h.cell e.0 ≡ some t
        → h'.cell e.0 ≡ some t
    cached_kept k e t l live = s.kept e.0 t (λ d ld. v.apart_cache key k d e ld l) live

    Owned-other :
        (j : ℕ) (c : Change) → j ≢ key → lookup j old ≡ some c → Owned h'.cell c.operation c.tuple
    Owned-other j c ne l =
        Owned-moved h.cell h'.cell c.tuple c.operation (λ p t. other_kept j c p t ne l)
          (v.owned j c l)

    base_same :
        (oe : Option (ℕ × Bool)) (k : ℕ)
        → lookup k cache ≡ oe
        → base_of h'.cell oe ≡ base_of h.cell oe
    base_same none k m = refl
    base_same (some e) k m = let (t, live) = v.cached k e m in rw (live, cached_kept k e t m live)

    pending_other :
        (oc : Option Change) (j : ℕ)
        → j ≢ key
        → lookup j old ≡ oc
        → pending_of h'.cell oc ≡ pending_of h.cell oc
    pending_other none j ne l = refl
    pending_other (some c) j ne l = rw (
        action_moved h.cell h'.cell c.tuple c.operation (λ p t. other_kept j c p t ne l)
          (v.owned j c l))

    -- The key looks as the new change says, and every other key as before.
    pub step-slot :
        (j : ℕ)
        → slot_of h'.cell (lookup j new) (lookup j cache) ≡ (
            if key == j
            then record { base = base_of h.cell (lookup j cache); pending = pending_of h'.cell x }
            else slot_of h.cell (lookup j old) (lookup j cache))
    step-slot j = elim (ℕ_discrete j key) [
      | yes e ↦ rw (base_same (lookup j cache) j refl, s.lookups j) (ground arith)
      | no ne ↦
          rw
            (
              base_same (lookup j cache) j refl,
              lookup_other j ne,
              pending_other (lookup j old) j ne refl,
            )
            (ground arith)
    ]

    -- A change that the step leaves in place, or puts there.
    new_cases :
        (j : ℕ) (c : Change)
        → lookup j new ≡ some c
        → ((j ≡ key) × (x ≡ some c)) ⊎ ((j ≢ key) × (lookup j old ≡ some c))
    new_cases j c l = elim (ℕ_discrete j key) [
      | yes e ↦ inl (e, sym lookup_self ∙ ground arith)
      | no ne ↦ inr (ne, sym (lookup_other j ne) ∙ l)
    ]

    Owned-all : (j : ℕ) (c : Change) → lookup j new ≡ some c → Owned h'.cell c.operation c.tuple
    Owned-all j c l = elim (new_cases j c l) [
      | inl (e, ex) ↦ s.owned c ex
      | inr (ne, lo) ↦ Owned-other j c ne lo
    ]

    -- The cell that the step takes belonged to nobody.
    newly_apart :
        (j : ℕ) (c d : Change) (p : ℕ)
        → x ≡ some c
        → lookup j old ≡ some d
        → c.tuple ≡ some p
        → d.tuple ≡ some p
        → ⊥
    newly_apart j c d p ex l ec ed =
        let (t, live) = Owned-live h.cell h'.cell d.tuple d.operation p (v.owned j d l) ed in
        ground (arith, s.newly c p ex ec)

    apart_all :
        (j k : ℕ) (c d : Change) (p : ℕ)
        → lookup j new ≡ some c
        → lookup k new ≡ some d
        → c.tuple ≡ some p
        → d.tuple ≡ some p
        → j ≡ k
    apart_all j k c d p lj lk ec ed = elim (new_cases j c lj) [
      | inl (e, ex) ↦ elim (new_cases k d lk) [
        | inl (f, fx) ↦ e ∙ sym f
        | inr (nf, lo) ↦ absurd (newly_apart k c d p ex lo ec ed)
      ]
      | inr (ne, lo) ↦ elim (new_cases k d lk) [
        | inl (f, fx) ↦ absurd (newly_apart j d c p fx lo ed ec)
        | inr (nf, lp) ↦ v.apart j k c d p lo lp ec ed
      ]
    ]

    apart_cache_all :
        (j k : ℕ) (c : Change) (e : ℕ × Bool)
        → lookup j new ≡ some c
        → lookup k cache ≡ some e
        → c.tuple ≢ some e.0
    apart_cache_all j k c e l m et = elim (new_cases j c l) [
      | inl (_, ex) ↦ let (t, live) = v.cached k e m in ground (arith, s.newly c e.0 ex et)
      | inr (_, lo) ↦ v.apart_cache j k c e lo m et
    ]

    -- The step keeps every pointer in order.
    pub step-Valid : Valid h' cache new
    step-Valid = record {
      fresh = s.fresh;
      distinct = s.distinct;
      owned = Owned-all;
      cached = λ k e l. let (t, live) = v.cached k e l in (t, cached_kept k e t l live);
      apart = apart_all;
      apart_cache = apart_cache_all;
    }
