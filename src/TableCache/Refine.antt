-- ===== src/TableCache/Refine.antt =====
-- From a step to what the specification asks of a call.
use telldb.Base.{ℕ, ◌≡◌, refl, List, Option, some, lookup, arith, ◌==◌, if◌then◌else◌, ◌∙◌, ap}
use telldb.Errors.{Outcome, done, raise, after, ok}
use telldb.TableCache.Ops.{put_indexes}
use telldb.Index.{IndexWrapper}
use telldb.TableCache.State.{Operation, Change, Heap, World}
use telldb.TableCache.View.{inserted, updated, slot, IsValid, action_of, base_of, pending_of, Owned}
use telldb.TableCache.Spec.{Pending, ended_as, Implements}
use telldb.TableCache.Step.{Step, step-Valid, step-slot}

module _ {T K B : Type 0} (w : World T K B) (key : ℕ) where
  -- The table after a call that wrote these changes and indexes.
  abbrev pub next_world : Heap T → List (ℕ × Change) → List (IndexWrapper T K B) → World T K B
  next_world h new is = record { heap = h; table = record w.table { changes = new; indexes = is } }

  ends :
      (h : Heap T) (new : List (ℕ × Change)) (ix : Outcome (List (IndexWrapper T K B)) (Unit {0}))
      → put_indexes (next_world h new w.table.indexes) ix
        ≡ ended_as (next_world h new (after ix)) ix
  ends h new (done is u) = refl
  ends h new (raise is e) = refl

  pub step-Implements :
      (h : Heap T) (new : List (ℕ × Change)) (ix : Outcome (List (IndexWrapper T K B)) (Unit {0}))
      (x : Option Change) (p : Pending T) (o : Outcome (World T K B) (Unit {0}))
      → IsValid w
      → Step w.heap h w.table.cache w.table.changes new key x
      → pending_of h.cell x ≡ p
      → o ≡ put_indexes (next_world h new w.table.indexes) ix
      → Implements w key ix (ok p) o
  step-Implements h new ix x p o v s e f = (
    next_world h new (after ix),
    f ∙ ends h new ix,
    step-Valid w.heap h w.table.cache w.table.changes new key x v s,
    λ j.
        step-slot w.heap h w.table.cache w.table.changes new key x v s j
        ∙ ap
            (λ (q : Pending T).
              if key == j
              then record { base = base_of w.heap.cell (lookup j w.table.cache); pending = q }
              else slot w j)
            e,
    refl,
  )

module _ {T : Type 0} (cell : ℕ → Option T) (o : Option ℕ) where
  -- What a change that owns its tuple did to its key.
  pub action_insertion :
      Owned cell Operation.insertion o
      → (t : T) × (p : ℕ) × (o ≡ some p)
        × (cell p ≡ some t)
        × (action_of cell Operation.insertion o ≡ inserted t)
  action_insertion (p, t, e, l) = (t, p, e, l, ground arith)

  pub action_update :
      Owned cell Operation.update o
      → (t : T) × (p : ℕ) × (o ≡ some p)
        × (cell p ≡ some t)
        × (action_of cell Operation.update o ≡ updated t)
  action_update (p, t, e, l) = (t, p, e, l, ground arith)
