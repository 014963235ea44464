-- ===== src/TableCache/Rollback.antt =====
-- What `rollback` after `writeBack` leaves in storage.

use telldb.Base.{
  ℕ, ◌≡◌, ◌≢◌, refl, sym, ap, ◌∙◌, List, [], ◌∷◌, Option, none, some, true, false, lookup, arith,
  Bool-cases, Option-cases, inl, inr,
}
use telldb.Errors.{done, after}
use telldb.TableCache.State.{Operation, Change, World}
use telldb.TableCache.Storage.{
  Storage, tuple_at, issue, issue_reverts, all_succeeded, settle, write_back, rollback,
}
use telldb.TableCache.Commit.{succeeded, settle-lookup, issue_absent, after-write_back}

-- What TellStore promises of a transaction's requests. `value` is what the transaction would see
-- of a key in storage, `committed` what it would see without its own requests.
pub record Laws {S T : Type 0} (V : Type 0) (storage : Storage S T) : Type 0 where
  pub value : S → ℕ → V
  pub committed : S → ℕ → V
  pub modify_other :
      (s : S) (j k : ℕ) (op : Operation) (t : Option T)
      → k ≢ j
      → value (storage.modify s k op t).0 j ≡ value s j
  pub modify_failed :
      (s : S) (k : ℕ) (op : Operation) (t : Option T)
      → (storage.modify s k op t).1 ≡ false
      → value (storage.modify s k op t).0 k ≡ value s k
  pub modify_committed :
      (s : S) (j k : ℕ) (op : Operation) (t : Option T)
      → committed (storage.modify s k op t).0 j ≡ committed s j
  pub revert_self :
      (s : S) (k : ℕ)
      → (storage.revert s k).1 ≡ true
      → value (storage.revert s k).0 k ≡ committed s k
  pub revert_other : (s : S) (j k : ℕ) → k ≢ j → value (storage.revert s k).0 j ≡ value s j
  pub revert_committed : (s : S) (j k : ℕ) → committed (storage.revert s k).0 j ≡ committed s j

module _ {S T V : Type 0} (storage : Storage S T) (laws : Laws V storage) where
  open laws use {value, committed}

  -- Where no change is marked as written, storage holds nothing of the transaction.
  pub record IsClean (s : S) (cs : List (ℕ × Change)) : Type 0 where
    pub none_clean : (j : ℕ) → lookup j cs ≡ none → value s j ≡ committed s j
    pub unwritten_clean :
        (j : ℕ) (c : Change) → lookup j cs ≡ some c → c.written ≡ false → value s j ≡ committed s j

  pub issue-committed :
      (cell : ℕ → Option T) (j : ℕ) (s : S) (cs : List (ℕ × Change))
      → committed (issue storage cell s cs).0 j ≡ committed s j
  unfolding issue
  issue-committed cell j s [] = refl
  issue-committed cell j s ((k, c) ∷ cs) = elim (Bool-cases c.written) [
    | inl e ↦ ground (arith, issue-committed cell j s cs)
    | inr e ↦ ground (
      arith,
      issue-committed cell j (storage.modify s k c.operation (tuple_at cell c.tuple)).0 cs,
      laws.modify_committed s j k c.operation (tuple_at cell c.tuple),
    )
  ]

  pub issue-value :
      (cell : ℕ → Option T) (j : ℕ) (s : S) (cs : List (ℕ × Change))
      → succeeded j (issue storage cell s cs).1 ≡ false
      → value (issue storage cell s cs).0 j ≡ value s j
  unfolding issue
  issue-value cell j s [] h = refl
  issue-value cell j s ((k, c) ∷ cs) h = elim (Bool-cases c.written) [
    | inl e ↦ ground (arith, issue-value cell j s cs)
    | inr e ↦ ground (
      arith,
      issue-value cell j (storage.modify s k c.operation (tuple_at cell c.tuple)).0 cs,
      laws.modify_other s j k c.operation (tuple_at cell c.tuple),
      laws.modify_failed s k c.operation (tuple_at cell c.tuple),
    )
  ]

  pub reverts-committed :
      (j : ℕ) (s : S) (cs : List (ℕ × Change))
      → committed (issue_reverts storage s cs).0 j ≡ committed s j
  unfolding issue_reverts
  reverts-committed j s [] = refl
  reverts-committed j s ((k, c) ∷ cs) = elim (Bool-cases c.written) [
    | inl e ↦
        ground (arith, reverts-committed j (storage.revert s k).0 cs, laws.revert_committed s j k)
    | inr e ↦ ground (arith, reverts-committed j s cs)
  ]

  reverts_stay :
      (j : ℕ) (s : S) (cs : List (ℕ × Change))
      → all_succeeded (issue_reverts storage s cs).1 ≡ true
      → value s j ≡ committed s j
      → value (issue_reverts storage s cs).0 j ≡ committed s j
  unfolding issue_reverts all_succeeded
  reverts_stay j s [] ok h = h
  reverts_stay j s ((k, c) ∷ cs) ok h = elim (Bool-cases c.written) [
    | inl e ↦ ground (
      arith,
      reverts_stay j (storage.revert s k).0 cs,
      laws.revert_committed s j k,
      laws.revert_other s j k,
      laws.revert_self s k,
    )
    | inr e ↦ ground (arith, reverts_stay j s cs)
  ]

  reverts_written :
      (j : ℕ) (s : S) (cs : List (ℕ × Change)) (d : Change)
      → lookup j cs ≡ some d
      → d.written ≡ true
      → all_succeeded (issue_reverts storage s cs).1 ≡ true
      → value (issue_reverts storage s cs).0 j ≡ committed s j
  unfolding issue_reverts lookup all_succeeded
  reverts_written j s [] d h w ok = ground arith
  reverts_written j s ((k, c) ∷ cs) d h w ok = elim (Bool-cases c.written) [
    | inl e ↦ ground (
      arith,
      reverts_stay j (storage.revert s k).0 cs,
      reverts_written j (storage.revert s k).0 cs d,
      laws.revert_committed s j k,
      laws.revert_self s k,
    )
    | inr e ↦ ground (arith, reverts_written j s cs d)
  ]

  -- `writeBack` leaves no request of the transaction in storage that is not marked as written.
  pub issue-IsClean :
      (cell : ℕ → Option T) (s : S) (cs : List (ℕ × Change))
      → IsClean s cs
      → let sent = issue storage cell s cs in IsClean sent.0 (settle sent.1 cs).0
  issue-IsClean cell s cs clean = record {
    none_clean = λ j h. elim (Option-cases (lookup j cs)) [
      | inl e ↦
          issue-value cell j s cs (issue_absent storage cell j s cs e)
          ∙ clean.none_clean j e
          ∙ sym (issue-committed cell j s cs)
      | inr (c, e) ↦ absurd (ground (arith, settle-lookup (issue storage cell s cs).1 j cs))
    ];
    unwritten_clean = λ j d h w. elim (Option-cases (lookup j cs)) [
      | inl e ↦ absurd (ground (arith, settle-lookup (issue storage cell s cs).1 j cs))
      | inr (c, e) ↦
          let l = settle-lookup (issue storage cell s cs).1 j cs in
          issue-value cell j s cs (ground (arith, l))
          ∙ clean.unwritten_clean j c e (ground (arith, l))
          ∙ sym (issue-committed cell j s cs)
    ];
  }

  -- The requests of `rollback` then leave nothing, if none is refused.
  pub reverts_clean :
      (j : ℕ) (s : S) (cs : List (ℕ × Change))
      → IsClean s cs
      → all_succeeded (issue_reverts storage s cs).1 ≡ true
      → value (issue_reverts storage s cs).0 j ≡ committed s j
  reverts_clean j s cs clean ok = elim (Option-cases (lookup j cs)) [
    | inl e ↦ reverts_stay j s cs ok (clean.none_clean j e)
    | inr (c, e) ↦ elim (Bool-cases c.written) [
      | inl w ↦ reverts_written j s cs c e w ok
      | inr w ↦ reverts_stay j s cs ok (clean.unwritten_clean j c e w)
    ]
  ]

-- On a storage that keeps a transaction's version apart from the committed one, changes a key by
-- a request only if it succeeds, and for a table whose unwritten keys have no version of this
-- transaction in storage: after `writeBack`, whether it threw or not, and a `rollback` that returns,
-- every key has the value that it has without the transaction.
pub rollback-write_back :
    {S T K B V : Type 0} (storage : Storage S T) (laws : Laws V storage) (s : S) (w : World T K B)
    (y : S × World T K B)
    → IsClean storage laws s w.table.changes
    → rollback storage (after (write_back storage (s, w))) ≡ done y tt
    → (j : ℕ) → laws.value y.0 j ≡ laws.committed s j
unfolding rollback
rollback-write_back storage laws s w y clean h j =
    let cs = w.table.changes in
    let sent = issue storage w.heap.cell s cs in
    let x = after (write_back storage (s, w)) in
    let e : (x.0 ≡ sent.0) × (x.1.table.changes ≡ (settle sent.1 cs).0) =
      rw (after-write_back storage s w) (refl, refl) in
    elim (Bool-cases (all_succeeded (issue_reverts storage x.0 x.1.table.changes).1)) [
      | inr bad ↦ absurd (ground arith)
      | inl ok ↦
          let same : (issue_reverts storage x.0 x.1.table.changes).0 ≡ y.0 = ground arith in
          sym (ap (λ z. laws.value z j) same)
          ∙ reverts_clean storage laws j x.0 x.1.table.changes
              (rw (e.0, e.1) (issue-IsClean storage laws w.heap.cell s cs clean)) ok
          ∙ ap (λ z. laws.committed z j) e.0
          ∙ issue-committed storage laws w.heap.cell j s cs
    ]
