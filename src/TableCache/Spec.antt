-- ===== src/TableCache/Spec.antt =====
-- What the operations of a table promise, key by key: functions on slots that know of no pointers.
use telldb.Base.{ℕ, ◌≡◌, List, Option, none, some, Bool, false, ◌==◌, if◌then◌else◌}
use telldb.Errors.{
  Result, ok, err, Outcome, done, raise, after, tuple_exists, tuple_does_not_exist, conflict,
  dangling,
}
use telldb.Index.{IndexWrapper}
use telldb.TableCache.State.{World}
use telldb.TableCache.View.{Action, inserted, updated, deleted, broken, Slot, slot, IsValid}

abbrev pub Pending : Type 0 → Type 0
Pending T = Option (Action T × Bool)

module _ {T : Type 0} where
  -- A key that was read, or has a change other than a deletion, cannot be inserted.
  abbrev pub spec_insert : ℕ → T → Slot T → Result (Pending T)
  spec_insert key t s = elim s.pending [
    | none ↦ elim s.base [ none ↦ ok (some (inserted t, false)) | some _ ↦ err (tuple_exists key) ]
    | some (a, written) ↦ elim a [
      | deleted ↦ ok (some (updated t, written))
      | _ ↦ err (tuple_exists key)
    ]
  ]

  -- A tuple that was read in an old version cannot be changed.
  abbrev pub spec_check : ℕ → Slot T → Pending T → Result (Pending T)
  spec_check key s p = elim s.base [
    | none ↦ ok p
    | some e ↦ if e.1 then ok p else err (conflict key)
  ]

  abbrev pub spec_update : ℕ → T → Slot T → Result (Pending T)
  spec_update key t s = elim s.pending [
    | none ↦ spec_check key s (some (updated t, false))
    | some (a, written) ↦ elim a [
      | inserted _ ↦ ok (some (inserted t, written))
      | updated _ ↦ ok (some (updated t, written))
      | deleted ↦ err (tuple_does_not_exist key)
      | broken ↦ err dangling
    ]
  ]

  -- The removal of an insertion forgets the key.
  abbrev pub spec_remove : ℕ → Slot T → Result (Pending T)
  spec_remove key s = elim s.pending [
    | none ↦ spec_check key s (some (deleted, false))
    | some (a, written) ↦ elim a [
      | inserted _ ↦ ok none
      | updated _ ↦ ok (some (deleted, written))
      | deleted ↦ err (tuple_does_not_exist key)
      | broken ↦ err dangling
    ]
  ]

module _ {T K B : Type 0} where
  -- The end of a call whose loop over the indexes ended so.
  abbrev pub ended_as :
      World T K B
      → Outcome (List (IndexWrapper T K B)) (Unit {0})
      → Outcome (World T K B) (Unit {0})
  ended_as w (done is u) = done w tt
  ended_as w (raise is e) = raise w e

  -- A call does what the specification says. Either it sets the pending change of its key and no
  -- other, keeps the pointers in order and leaves the indexes as the loop `ix` over them does, and
  -- throws exactly what that loop throws; or it throws before and has changed nothing.
  abbrev pub Implements :
      World T K B
      → ℕ
      → Outcome (List (IndexWrapper T K B)) (Unit {0})
      → Result (Pending T)
      → Outcome (World T K B) (Unit {0})
      → Type 0
  Implements w key ix (ok p) o =
      (w' : World T K B) × (o ≡ ended_as w' ix)
      × IsValid w'
      × ((j : ℕ)
          → slot w' j
            ≡ (if key == j then record { base = (slot w j).base; pending = p } else slot w j))
      × (w'.table.indexes ≡ after ix)
  Implements w key ix (err e) o = o ≡ raise w e
