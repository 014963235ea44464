-- ===== src/TableCache/Written.antt =====
-- A `writeBack` that does not throw has written every change.
use telldb.Base.{
  ℕ, ◌≡◌, ◌≢◌, refl, sym, ap, ◌∙◌, List, [], ◌∷◌, Option, some, true, ◌||◌, lookup, arith, ◌==◌,
  Bool-cases, Option-cases, inl, inr, Option,
}
use telldb.Errors.{Error, Outcome, done, raise, after}
use telldb.TableCache.State.{Change, World}
use telldb.TableCache.Storage.{Storage, tuple_at, issue, write_back}
use telldb.TableCache.Commit.{succeeded, failures, write_back_lem}

-- Every change is marked as written.
abbrev pub AllWritten : List (ℕ × Change) → Type 0
AllWritten cs = (j : ℕ) (c : Change) → lookup j cs ≡ some c → c.written ≡ true

module _ {S T : Type 0} (storage : Storage S T) (cell : ℕ → Option T) where
  issue_all :
      (s : S) (cs : List (ℕ × Change)) (j : ℕ) (c : Change)
      → failures (issue storage cell s cs).1 ≡ []
      → lookup j cs ≡ some c
      → c.written || succeeded j (issue storage cell s cs).1 ≡ true
  unfolding issue lookup
  issue_all s [] j c f h = absurd (ground arith)
  issue_all s ((k, d) ∷ cs) j c f h = elim (Bool-cases d.written) [
    | inl e ↦ elim (Bool-cases (k == j)) [
      | inl q ↦ ground arith
      | inr q ↦ ground (arith, issue_all s cs j c (ground arith) (ground arith))
    ]
    | inr e ↦
        let sent = storage.modify s k d.operation (tuple_at cell d.tuple) in
        elim (Bool-cases sent.1) [
          | inr u ↦ absurd (ground arith)
          | inl u ↦ elim (Bool-cases (k == j)) [
            | inl q ↦ ground arith
            | inr q ↦ ground (arith, issue_all sent.0 cs j c (ground arith) (ground arith))
          ]
        ]
  ]

none_failed :
    {X : Type 0} (o : Outcome X (Unit {0})) (x y : X) (e : Error) (ks : List ℕ)
    → o ≡ done x tt
    → (ks ≢ [] → o ≡ raise y e)
    → ks ≡ []
none_failed o x y e [] h k = refl
none_failed o x y e (j ∷ ks) h k = absurd (ground (arith, sym h ∙ k (λ q. ground arith)))

pub write_back-AllWritten :
    {S T K B : Type 0} (storage : Storage S T) (s s' : S) (w w' : World T K B)
    → write_back storage (s, w) ≡ done (s', w') tt
    → AllWritten w'.table.changes
write_back-AllWritten {S = S} {T = T} {K = K} {B = B} storage s s' w w' h j c l =
    let r = write_back_lem storage s w in
    let o = write_back storage (s, w) in
    let sent = issue storage w.heap.cell s w.table.changes in
    let f = none_failed o (s', w') (after o) _ (failures sent.1) h (r.1.1) in
    let e : after o ≡ (s', w') = ap (λ (x : Outcome (S × World T K B) (Unit {0})). after x) h in
    let at : lookup j (after o).1.table.changes ≡ some c =
      ap (λ (x : S × World T K B). lookup j x.1.table.changes) e ∙ l in
    elim (Option-cases (lookup j w.table.changes)) [
      | inl n ↦ absurd (ground (arith, r.3 j))
      | inr (d, m) ↦
          let all = issue_all storage w.heap.cell s w.table.changes j d f m in ground (arith, r.3 j)
    ]
