-- ===== src/TableCache/Free.antt =====
-- What the destruction of a pending tuple leaves of a valid table.
use telldb.Base.{
  ℕ, ◌+◌, ◌≤◌, ◌≡◌, ◌≢◌, refl, ap, ◌∙◌, subst, List, Option, none, some, Bool, lookup, Distinct,
  arith, ◌==◌, if◌then◌else◌,
}
use mathlib.Core.Option.{some-injective}
use telldb.TableCache.State.{Operation, Change, Heap}
use telldb.TableCache.View.{Valid, Owned}
use telldb.TableCache.Step.{Step}

Owned-some :
    {T : Type 0} (cell : ℕ → Option T) (op : Operation) (o : Option ℕ) (p : ℕ) (t : T)
    → op ≢ Operation.deletion
    → o ≡ some p
    → cell p ≡ some t
    → Owned cell op o
Owned-some cell Operation.insertion o p t ne e l = (p, t, e, l)
Owned-some cell Operation.update o p t ne e l = (p, t, e, l)
Owned-some cell Operation.deletion o p t ne e l = absurd (ne refl)

-- What a call may have done to the heap `h` of a valid table when it stands at `m`: it has freed
-- nothing, or the tuple of the change at the key.
pub record Freed {T : Type 0} (h m : Heap T) (cache : List (ℕ × (ℕ × Bool)))
    (old : List (ℕ × Change)) (key : ℕ) : Type 0 where
  pub next : m.next ≡ h.next
  pub kept :
      (p : ℕ) (t : T)
      → ((c : Change) → lookup key old ≡ some c → c.tuple ≢ some p)
      → h.cell p ≡ some t
      → m.cell p ≡ some t
  pub fresh : (p : ℕ) → m.next ≤ p → m.cell p ≡ none

module _ {T : Type 0} (h m : Heap T) (cache : List (ℕ × (ℕ × Bool))) (old new : List (ℕ × Change))
    (key : ℕ) (v : Valid h cache old) (f : Freed h m cache old key) where
  -- Then it stores a tuple in a new cell and a change that points to it.
  pub Step-store :
      (t : T) (c : Change)
      → ((j : ℕ) → lookup j new ≡ (if key == j then some c else lookup j old))
      → Distinct new
      → c.tuple ≡ some m.next
      → c.operation ≢ Operation.deletion
      → Step h
          (record { cell = λ p. if m.next == p then some t else m.cell p; next = m.next + 1 })
          cache
          old
          new
          key
          (some c)
  Step-store t c l d e op = record {
    lookups = l;
    distinct = d;
    kept = λ p t' ne live. ground (arith, f.kept p t' ne live, f.fresh p);
    fresh = λ p le. ground (arith, f.fresh p);
    owned = λ c' e'.
        subst
          (λ (x : Change).
            Owned (λ p. if m.next == p then some t else m.cell p) x.operation x.tuple)
          (some-injective c c' e') (Owned-some _ c.operation c.tuple m.next t op e (ground arith));
    newly = λ c' p e' g. let n : h.next ≤ p = ground (arith, f.next) in v.fresh p n;
  }

  -- Or it leaves no tuple at the key: a deletion, or nothing.
  pub Step-drop :
      (x : Option Change)
      → ((j : ℕ) → lookup j new ≡ (if key == j then x else lookup j old))
      → Distinct new
      → ((c : Change) → x ≡ some c → (c.tuple ≡ none) × (c.operation ≡ Operation.deletion))
      → Step h m cache old new key x
  Step-drop x l d none_at = record {
    lookups = l;
    distinct = d;
    kept = f.kept;
    fresh = f.fresh;
    owned = λ c e. rw ((none_at c e).1) ((none_at c e).0);
    newly = λ c p e g. absurd (ground (arith, none_at c e));
  }

-- A call that has not freed anything yet.
pub Freed-nothing :
    {T : Type 0} (h : Heap T) (cache : List (ℕ × (ℕ × Bool))) (old : List (ℕ × Change)) (key : ℕ)
    → Valid h cache old
    → Freed h h cache old key
Freed-nothing h cache old key v = record {
  next = refl;
  kept = λ p t ne live. live;
  fresh = v.fresh;
}

-- `delete` of the tuple of the change at the key.
pub Freed-tuple :
    {T : Type 0} (h : Heap T) (cache : List (ℕ × (ℕ × Bool))) (old : List (ℕ × Change)) (key : ℕ)
    (c : Change) (p : ℕ)
    → Valid h cache old
    → lookup key old ≡ some c
    → c.tuple ≡ some p
    → Freed h (record h { cell = λ q. if p == q then none else h.cell q }) cache old key
Freed-tuple h cache old key c p v l e = record {
  next = refl;
  kept = λ q t ne live. let other : p ≢ q = λ pq. ne c l (e ∙ ap some pq) in ground arith;
  fresh = λ q le. ground (arith, v.fresh q);
}
