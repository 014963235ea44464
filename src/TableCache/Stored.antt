-- ===== src/TableCache/Stored.antt =====
-- What `writeBack` has stored (src/TableCache.cpp), key by key.
use telldb.Base.{
  ℕ, ◌≡◌, refl, ◌∙◌, List, [], ◌∷◌, Option, none, some, Bool, true, false, lookup, Distinct,
  assign-Distinct, if◌then◌else◌, arith, ◌==◌, Bool-cases, Option-cases, inl, inr,
}
use telldb.TableCache.State.{Operation, Change}
use telldb.TableCache.Storage.{Storage, tuple_at, issue, mark, settle}
use telldb.TableCache.Commit.{succeeded, settle-lookup, issue_absent}
use telldb.TableCache.Rollback.{Laws, issue-value}

-- A request that succeeds stores what it says: `put` is the value of a key after it.
pub record StoreLaws {S T V : Type 0} (storage : Storage S T) (laws : Laws V storage) : Type 0 where
  pub put : Operation → Option T → V
  pub modify_done :
      (s : S) (k : ℕ) (op : Operation) (t : Option T)
      → (storage.modify s k op t).1 ≡ true
      → laws.value (storage.modify s k op t).0 k ≡ put op t

mark-Distinct : (k : ℕ) (cs : List (ℕ × Change)) → Distinct cs → Distinct (mark k cs)
unfolding mark
mark-Distinct k cs d = elim (Option-cases (lookup k cs)) [
  | inl e ↦ rw (e, mark) d
  | inr (c, e) ↦ rw (e, mark) (assign-Distinct k (record c { written = true }) cs d)
]

pub settle-Distinct :
    (rs : List (ℕ × Bool)) (cs : List (ℕ × Change)) → Distinct cs → Distinct (settle rs cs).0
unfolding settle
settle-Distinct [] cs d = d
settle-Distinct ((k, true) ∷ rs) cs d = mark-Distinct k (settle rs cs).0 (settle-Distinct rs cs d)
settle-Distinct ((k, false) ∷ rs) cs d = settle-Distinct rs cs d

module _ {S T V : Type 0} (storage : Storage S T) (laws : Laws V storage)
    (stores : StoreLaws storage laws) (cell : ℕ → Option T) where
  -- A key whose change is written gets no request.
  issue_written :
      (j : ℕ) (c : Change) (s : S) (cs : List (ℕ × Change))
      → Distinct cs
      → lookup j cs ≡ some c
      → c.written ≡ true
      → succeeded j (issue storage cell s cs).1 ≡ false
  unfolding issue lookup
  issue_written j c s [] d l h = refl
  issue_written j c s ((k, b) ∷ cs) d l h = elim (Bool-cases b.written) [
    | inl e ↦ elim (Bool-cases (k == j)) [
      | inl q ↦
          let gone : lookup j cs ≡ none = ground arith in
          ground (arith, issue_absent storage cell j s cs gone)
      | inr q ↦ ground (arith, issue_written j c s cs d.1 (ground arith) h)
    ]
    | inr e ↦
        let sent = storage.modify s k b.operation (tuple_at cell b.tuple) in
        ground (arith, issue_written j c sent.0 cs d.1)
  ]

  -- A request that succeeds stays stored.
  issue_stored :
      (j : ℕ) (c : Change) (s : S) (cs : List (ℕ × Change))
      → Distinct cs
      → lookup j cs ≡ some c
      → succeeded j (issue storage cell s cs).1 ≡ true
      → laws.value (issue storage cell s cs).0 j ≡ stores.put c.operation (tuple_at cell c.tuple)
  unfolding issue lookup
  issue_stored j c s [] d l h = absurd (ground arith)
  issue_stored j c s ((k, b) ∷ cs) d l h = elim (Bool-cases b.written) [
    | inl e ↦ elim (Bool-cases (k == j)) [
      | inl q ↦
          let gone : lookup j cs ≡ none = ground arith in
          absurd (ground (arith, issue_absent storage cell j s cs gone))
      | inr q ↦ ground (arith, issue_stored j c s cs d.1 (ground arith))
    ]
    | inr e ↦
        let sent = storage.modify s k b.operation (tuple_at cell b.tuple) in
        elim (Bool-cases (k == j)) [
          | inl q ↦
              let gone : lookup j cs ≡ none = ground arith in
              let none_later = issue_absent storage cell j sent.0 cs gone in
              ground (
                arith,
                none_later,
                issue-value storage laws cell j sent.0 cs none_later,
                stores.modify_done s k b.operation (tuple_at cell b.tuple),
              )
          | inr q ↦ ground (arith, issue_stored j c sent.0 cs d.1 (ground arith))
        ]
  ]

  -- On the way to the values `x`: what is written has its value, and what is not is a change that
  -- gives it.
  abbrev pub DueAt : Option Change → V → V → Type 0
  DueAt none v x = v ≡ x
  DueAt (some c) v x =
      if c.written then v ≡ x else stores.put c.operation (tuple_at cell c.tuple) ≡ x

  abbrev pub IsDue : (ℕ → V) → S → List (ℕ × Change) → Type 0
  IsDue x s cs = Distinct cs × ((j : ℕ) → DueAt (lookup j cs) (laws.value s j) (x j))

  pub issue-IsDue :
      (x : ℕ → V) (s : S) (cs : List (ℕ × Change))
      → IsDue x s cs
      → let sent = issue storage cell s cs in IsDue x sent.0 (settle sent.1 cs).0
  issue-IsDue x s cs due =
      (settle-Distinct (issue storage cell s cs).1 cs due.0, λ j. go j (lookup j cs) refl (due.1 j))
    where
      go :
          (j : ℕ) (o : Option Change)
          → lookup j cs ≡ o
          → DueAt o (laws.value s j) (x j)
          → let sent = issue storage cell s cs in
            DueAt (lookup j (settle sent.1 cs).0) (laws.value sent.0 j) (x j)
      go j none e p =
          rw (settle-lookup (issue storage cell s cs).1 j cs, e)
            (issue-value storage laws cell j s cs (issue_absent storage cell j s cs e) ∙ p)
      go j (some c) e p = elim (Bool-cases c.written) [
        | inl w ↦
            let quiet = issue_written j c s cs due.0 e w in
            let stays = issue-value storage laws cell j s cs quiet in
            rw (settle-lookup (issue storage cell s cs).1 j cs, e, w) (ground (arith, stays, p))
        | inr w ↦ elim (Bool-cases (succeeded j (issue storage cell s cs).1)) [
          | inl q ↦
              let stored = issue_stored j c s cs due.0 e q in
              rw (settle-lookup (issue storage cell s cs).1 j cs, e, w, q)
                (ground (arith, stored, p))
          | inr q ↦ rw (settle-lookup (issue storage cell s cs).1 j cs, e, w, q) (ground (arith, p))
        ]
      ]
