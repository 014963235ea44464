-- ===== src/TableCache/Commit.antt =====
-- What `writeBack` does to the changes.
use mathlib.Core.List.{reverse-cons}
use telldb.Base.{
  ℕ, ◌≡◌, ◌≢◌, ◌++◌, refl, ap, List, [], ◌∷◌, map, reverse, Option, none, some, Bool, true, false,
  ◌&&◌, ◌||◌, lookup, arith, ◌==◌, if◌then◌else◌, Bool-cases, Option-cases, inl, inr, lookup-assign,
}
use telldb.Errors.{Outcome, done, raise, after, conflicts}
use telldb.TableCache.State.{Change, World}
use telldb.TableCache.Storage.{Storage, tuple_at, mark, issue, settle, finish, write_back}

-- Whether a request for the key succeeded, and the keys whose requests failed.
abbrev pub succeeded : ℕ → List (ℕ × Bool) → Bool
succeeded j [] = false
succeeded j ((k, success) ∷ rs) = (k == j && success) || succeeded j rs

abbrev pub failures : List (ℕ × Bool) → List ℕ
failures [] = []
failures ((k, success) ∷ rs) = if success then failures rs else k ∷ failures rs

abbrev pub unwritten : List (ℕ × Change) → List ℕ
unwritten [] = []
unwritten ((k, c) ∷ cs) = if c.written then unwritten cs else k ∷ unwritten cs

lookup-mark :
    (k j : ℕ) (cs : List (ℕ × Change))
    → lookup j (mark k cs) ≡ elim (lookup j cs) [
      | none ↦ none
      | some c ↦ some (record c { written = c.written || k == j })
    ]
unfolding mark
lookup-mark k j cs = elim (Option-cases (lookup k cs)) [
  | inl e ↦ ground arith
  | inr (c, e) ↦ ground (arith, lookup-assign k j (record c { written = true }) c cs)
]

pub settle-lookup :
    (rs : List (ℕ × Bool)) (j : ℕ) (cs : List (ℕ × Change))
    → lookup j (settle rs cs).0 ≡ elim (lookup j cs) [
      | none ↦ none
      | some c ↦ some (record c { written = c.written || succeeded j rs })
    ]
unfolding settle
settle-lookup [] j cs = ground arith
settle-lookup ((k, true) ∷ rs) j cs =
    ground (arith, lookup-mark k j (settle rs cs).0, settle-lookup rs j cs)
settle-lookup ((k, false) ∷ rs) j cs = ground (arith, settle-lookup rs j cs)

settle-failures :
    (rs : List (ℕ × Bool)) (cs : List (ℕ × Change)) → (settle rs cs).1 ≡ reverse (failures rs)
unfolding settle
settle-failures [] cs = refl
settle-failures ((k, true) ∷ rs) cs = settle-failures rs cs
settle-failures ((k, false) ∷ rs) cs = rw (reverse-cons k (failures rs), settle-failures rs cs)

module _ {S T : Type 0} (storage : Storage S T) (cell : ℕ → Option T) where
  issue-unwritten :
      (s : S) (cs : List (ℕ × Change)) → map (λ r. r.0) (issue storage cell s cs).1 ≡ unwritten cs
  unfolding issue
  issue-unwritten s [] = refl
  issue-unwritten s ((k, c) ∷ cs) = elim (Bool-cases c.written) [
    | inl e ↦ ground (arith, issue-unwritten s cs)
    | inr e ↦
        ground
          (arith, issue-unwritten (storage.modify s k c.operation (tuple_at cell c.tuple)).0 cs)
  ]

  pub issue_absent :
      (j : ℕ) (s : S) (cs : List (ℕ × Change))
      → lookup j cs ≡ none
      → succeeded j (issue storage cell s cs).1 ≡ false
  unfolding issue lookup
  issue_absent j s [] h = refl
  issue_absent j s ((k, c) ∷ cs) h = elim (Bool-cases c.written) [
    | inl e ↦ ground (arith, issue_absent j s cs)
    | inr e ↦
        ground (arith, issue_absent j (storage.modify s k c.operation (tuple_at cell c.tuple)).0 cs)
  ]

module _ {S T K B : Type 0} (storage : Storage S T) where
  after-finish : (s : S × World T K B) (ks : List ℕ) → after (finish storage s ks) ≡ s
  after-finish s [] = refl
  after-finish s (k ∷ ks) = refl

  -- The state that `writeBack` leaves, whether it throws or not.
  abbrev pub written_back : S → World T K B → S × World T K B
  written_back s w =
      let sent = issue storage w.heap.cell s w.table.changes in
      (sent.0, record w { table = record w.table { changes = (settle sent.1 w.table.changes).0 } })

  pub after-write_back :
      (s : S) (w : World T K B) → after (write_back storage (s, w)) ≡ written_back s w
  unfolding write_back
  after-write_back s w = after-finish (written_back s w) _

  write_back-finish :
      (s : S) (w : World T K B)
      → write_back storage (s, w)
        ≡ finish storage
            (written_back s w)
            (reverse (failures (issue storage w.heap.cell s w.table.changes).1))
  unfolding write_back
  write_back-finish s w =
      ap (finish storage (written_back s w))
        (settle-failures (issue storage w.heap.cell s w.table.changes).1 w.table.changes)

  finish-behind :
      (x : S × World T K B) (ks : List ℕ) (k : ℕ)
      → finish storage x (ks ++ k ∷ []) ≡ raise x (conflicts (ks ++ k ∷ []))
  finish-behind x [] k = refl
  finish-behind x (j ∷ ks) k = refl

  -- It throws all the keys, or none.
  abbrev pub Throws : S × World T K B → List ℕ → Outcome (S × World T K B) (Unit {0}) → Type 0
  Throws x ks o = (ks ≡ [] → o ≡ done x tt) × (ks ≢ [] → o ≡ raise x (conflicts (reverse ks)))

  finish-Throws : (x : S × World T K B) (ks : List ℕ) → Throws x ks (finish storage x (reverse ks))
  finish-Throws x [] = (λ e. refl, λ ne. absurd (ne refl))
  finish-Throws x (k ∷ ks) =
      (λ e. absurd (ground arith), λ ne. rw (reverse-cons k ks) (finish-behind x (reverse ks) k))

  write_back-Throws :
      (s : S) (w : World T K B)
      → Throws
          (written_back s w)
          (failures (issue storage w.heap.cell s w.table.changes).1)
          (write_back storage (s, w))
  write_back-Throws s w =
      rw (write_back-finish s w) (
        finish-Throws (written_back s w) (failures (issue storage w.heap.cell s w.table.changes).1))

-- `writeBack` sends one request for each change that is not written, in order. It ends well if all
-- succeed, and otherwise throws the keys that failed, the last one first. Either way a change is
-- marked as written if it was or if its request succeeded, and nothing else of the changes differs.
pub write_back_lem :
    {S T K B : Type 0} (storage : Storage S T) (s : S) (w : World T K B)
    → let o = write_back storage (s, w) in
      let sent = issue storage w.heap.cell s w.table.changes in
      (map (λ r. r.0) sent.1 ≡ unwritten w.table.changes)
      × ((failures sent.1 ≡ [] → o ≡ done (after o) tt)
          × (failures sent.1 ≢ [] → o ≡ raise (after o) (conflicts (reverse (failures sent.1)))))
      × ((after o).0 ≡ sent.0)
      × ((j : ℕ)
          → lookup j (after o).1.table.changes ≡ elim (lookup j w.table.changes) [
            | none ↦ none
            | some c ↦ some (record c { written = c.written || succeeded j sent.1 })
          ])
write_back_lem storage s w = rw (after-write_back storage s w) (
  issue-unwritten storage w.heap.cell s w.table.changes,
  write_back-Throws storage s w,
  refl,
  λ j. settle-lookup (issue storage w.heap.cell s w.table.changes).1 j w.table.changes,
)
