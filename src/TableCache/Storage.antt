-- ===== src/TableCache/Storage.antt =====
-- `TableCache::writeBack` and `rollback` (src/TableCache.cpp): the requests to storage, which is
-- not part of this program. `modify` and `revert` are its answers: its state after a request and
-- whether the request succeeded.
use telldb.Base.{
  ℕ, List, [], ◌∷◌, ◌++◌, Option, none, some, Bool, true, false, lookup, assign, if◌then◌else◌,
}
use telldb.Errors.{Outcome, done, raise, conflicts, assertion}
use telldb.TableCache.State.{Operation, Change, World}

pub record Storage (S T : Type 0) : Type 0 where
  pub modify : S → ℕ → Operation → Option T → S × Bool
  pub revert : S → ℕ → S × Bool

-- `*tuple`, for a change that has one.
abbrev pub tuple_at : {T : Type 0} → (ℕ → Option T) → Option ℕ → Option T
tuple_at cell none = none
tuple_at cell (some p) = cell p

-- `std::get<2>(i->second->second) = true`
unfoldable pub mark : ℕ → List (ℕ × Change) → List (ℕ × Change)
mark k cs = elim (lookup k cs) [ none ↦ cs | some c ↦ assign k (record c { written = true }) cs ]

module _ {S T : Type 0} (storage : Storage S T) where
  open storage use {modify, revert}

  -- The first loop: a request for each change that is not written, in the order of the map. The
  -- responses are kept with their keys.
  unfoldable pub issue : (ℕ → Option T) → S → List (ℕ × Change) → S × List (ℕ × Bool)
  issue cell s [] = (s, [])
  issue cell s ((k, c) ∷ cs) =
      let sent = modify s k c.operation (tuple_at cell c.tuple) in
      let rest = issue cell (if c.written then s else sent.0) cs in
      if c.written then rest else (rest.0, (k, sent.1) ∷ rest.1)

  -- The loop of `rollback`: a request for each change that is written.
  unfoldable pub issue_reverts : S → List (ℕ × Change) → S × List Bool
  issue_reverts s [] = (s, [])
  issue_reverts s ((k, c) ∷ cs) =
      let sent = revert s k in
      let rest = issue_reverts (if c.written then sent.0 else s) cs in
      if c.written then (rest.0, sent.1 ∷ rest.1) else rest

-- The second loop of `rollback`.
unfoldable pub all_succeeded : List Bool → Bool
all_succeeded [] = true
all_succeeded (true ∷ rs) = all_succeeded rs
all_succeeded (false ∷ rs) = false

-- The second loop, from the last response to the first: a key is marked as written or noted as
-- a conflict.
unfoldable pub settle : List (ℕ × Bool) → List (ℕ × Change) → List (ℕ × Change) × List ℕ
unfolding mark
settle [] cs = (cs, [])
settle ((k, success) ∷ rs) cs =
    let (marked, keys) = settle rs cs in
    if success then (mark k marked, keys) else (marked, keys ++ k ∷ [])

module _ {S T K B : Type 0} (storage : Storage S T) where
  abbrev pub finish : S × World T K B → List ℕ → Outcome (S × World T K B) (Unit {0})
  finish s [] = done s tt
  finish s (k ∷ ks) = raise s (conflicts (k ∷ ks))

  unfoldable pub write_back : S × World T K B → Outcome (S × World T K B) (Unit {0})
  unfolding issue settle
  write_back (s, w) =
      let sent = issue storage w.heap.cell s w.table.changes in
      let settled = settle sent.1 w.table.changes in
      finish (sent.0, record w { table = record w.table { changes = settled.0 } }) settled.1

  -- `assert(false)` for a request that was refused.
  unfoldable pub rollback : S × World T K B → Outcome (S × World T K B) (Unit {0})
  unfolding issue_reverts all_succeeded
  rollback (s, w) =
      let sent = issue_reverts storage s w.table.changes in
      if all_succeeded sent.1 then done (sent.0, w) tt else raise (sent.0, w) assertion
