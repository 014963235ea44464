-- ===== src/Transaction/Through.antt =====
-- What a commit keeps of one table in storage (src/Transaction.cpp), whether it throws or not, if the
-- steps on the tables keep it.

use telldb.Base.{
  ℕ, ◌≡◌, refl, subst, List, [], ◌∷◌, Option, Bool, true, false, lookup, Distinct, length, not,
  if◌then◌else◌, arith,
}
use telldb.Transaction.UndoLog.{write_undo_log, remove_undo_log}
use telldb.Errors.{Result, ok, err, Error, logic_error, Outcome, done, raise, after}
use telldb.Index.Tree.{BdTree}
use telldb.TableCache.State.{World}
use telldb.Transaction.Loop.{Keeps, each_keeps, each-Distinct}
use telldb.Transaction.Commit.{
  Server, Transaction, each, write_back_step, write_indexes_step, write_tables, insert_parts,
  remove_parts, remove_step, with_tables, TransactionType, has_changes, after_tables, write_logged,
  write_back, commit, ended,
}

module _ {S T K B : Type 0} (server : Server S T) (tree_of : Bool → BdTree B K) (i : ℕ)
    (P : S → Option (World T K B) → Type 0) where
  pub record Stable : Type 0 where
    pub tables : Keeps i P (write_back_step server tree_of)
    pub indexes : Keeps i P (write_indexes_step server tree_of)
    pub insert_log :
        (s : S) (k : ℕ) (v : List ℕ) (o : Option (World T K B))
        → P s o
        → P (server.insert_log s k v) o
    pub remove_log :
        (s : S) (k : ℕ) (o : Option (World T K B)) → P s o → P (server.remove_log s k) o

  -- No table is there twice, and the one table is kept.
  abbrev pub KeptIn : S × List (ℕ × World T K B) → Type 0
  KeptIn x = Distinct x.1 × P x.0 (lookup i x.1)

  -- And the transaction is open.
  abbrev pub KeptOpen : S × Transaction T K B → Type 0
  KeptOpen y = (y.1.committed ≡ false) × KeptIn (y.0, y.1.tables)

module _ {S T K B : Type 0} (server : Server S T) (tree_of : Bool → BdTree B K) (i : ℕ)
    (P : S → Option (World T K B) → Type 0) (stable : Stable server tree_of i P) where
  each-KeptIn :
      (f : S × (ℕ × World T K B) → Outcome (S × (ℕ × World T K B)) (Unit {0}))
      → Keeps i P f
      → (x : S × List (ℕ × World T K B)) → KeptIn server tree_of i P x
      → KeptIn server tree_of i P (after (each f x.0 x.1))
  each-KeptIn f keeps x k =
      (each-Distinct i P f keeps x.0 x.1 k.0, each_keeps i P f keeps x.0 x.1 k.0 k.1)

  write_tables-KeptIn :
      (b : Bool) (s : S) (ts : List (ℕ × World T K B))
      → KeptIn server tree_of i P (s, ts)
      → KeptIn server tree_of i P (after (write_tables server tree_of b s ts))
  unfolding write_tables
  write_tables-KeptIn b s ts k =
      go b (each (write_back_step server tree_of) s ts)
        (each-KeptIn (write_back_step server tree_of) (stable.tables) (s, ts) k)
    where
      go :
          (b : Bool) (o : Outcome (S × List (ℕ × World T K B)) (Unit {0}))
          → KeptIn server tree_of i P (after o)
          → KeptIn server tree_of i P (
              after (elim o [
                | raise x e ↦ raise x e
                | done x u ↦
                    if b then each (write_indexes_step server tree_of) x.0 x.1 else done x tt
              ]))
      go b (raise x e) p = p
      go true (done x u) p = each-KeptIn (write_indexes_step server tree_of) (stable.indexes) x p
      go false (done x u) p = p

  insert_parts-KeptIn :
      (rs : List (ℕ × List ℕ)) (s : S) (ts : List (ℕ × World T K B))
      → KeptIn server tree_of i P (s, ts)
      → KeptIn server tree_of i P (insert_parts server tree_of s rs, ts)
  insert_parts-KeptIn [] s ts k = k
  insert_parts-KeptIn ((j, v) ∷ rs) s ts k =
      insert_parts-KeptIn rs (server.insert_log s j v) ts
        (k.0, stable.insert_log s j v (lookup i ts) k.1)

  remove_parts-KeptIn :
      (ks : List ℕ) (s : S) (ts : List (ℕ × World T K B))
      → KeptIn server tree_of i P (s, ts)
      → KeptIn server tree_of i P (remove_parts server tree_of s ks, ts)
  remove_parts-KeptIn [] s ts k = k
  remove_parts-KeptIn (j ∷ ks) s ts k =
      remove_parts-KeptIn ks (server.remove_log s j) ts
        (k.0, stable.remove_log s j (lookup i ts) k.1)

  module _ (undo_log : Bool → List (ℕ × World T K B) → List ℕ) where
    remove_step-KeptOpen :
        (t : Transaction T K B) (log : List ℕ) (x : S × List (ℕ × World T K B))
        → t.committed ≡ false
        → KeptIn server tree_of i P x
        → let y = after (remove_step server tree_of undo_log t log x) in
          KeptOpen server tree_of i P y
    unfolding remove_step
    remove_step-KeptOpen t log x h k = go (remove_undo_log t.version (length log))
      where
        go :
            (r : Result (List ℕ))
            → let y = after (elim r as (λ _. Outcome (S × Transaction T K B) (Unit {0})) [
              | err e ↦ raise (with_tables server tree_of t x) e
              | ok ks ↦
                  done (with_tables server tree_of t (remove_parts server tree_of x.0 ks, x.1)) tt
            ]) in
              KeptOpen server tree_of i P y
        go (err e) = (h, k)
        go (ok ks) = (h, remove_parts-KeptIn ks x.0 x.1 k)

    after_tables-KeptOpen :
        (t : Transaction T K B) (log : List ℕ) (o : Outcome (S × List (ℕ × World T K B)) (Unit {0}))
        → t.committed ≡ false
        → KeptIn server tree_of i P (after o)
        → let y = after (after_tables server tree_of undo_log t log o) in
          KeptOpen server tree_of i P y
    after_tables-KeptOpen t log (raise x e) h k = (h, k)
    after_tables-KeptOpen t log (done x u) h k = remove_step-KeptOpen t log x h k

    write_logged-KeptOpen :
        (b : Bool) (s : S) (t : Transaction T K B)
        → KeptOpen server tree_of i P (s, t)
        → let y = after (write_logged server tree_of undo_log b (s, t)) in
          KeptOpen server tree_of i P y
    unfolding write_logged
    write_logged-KeptOpen b s t k = go (write_undo_log t.version (undo_log b t.tables))
      where
        log : List ℕ
        log = undo_log b t.tables

        go :
            (r : Result (List (ℕ × List ℕ)))
            → let y = after (elim r as (λ _. Outcome (S × Transaction T K B) (Unit {0})) [
              | err e ↦ raise (s, t) e
              | ok rs ↦
                  after_tables server tree_of undo_log t log
                    (write_tables server tree_of b (insert_parts server tree_of s rs) t.tables)
            ]) in
              KeptOpen server tree_of i P y
        go (err e) = k
        go (ok rs) =
            after_tables-KeptOpen t log
              (write_tables server tree_of b (insert_parts server tree_of s rs) t.tables) k.0
              (write_tables-KeptIn b (insert_parts server tree_of s rs) t.tables
                (insert_parts-KeptIn rs s t.tables k.1))

    write_back-KeptOpen :
        (b : Bool) (s : S) (t : Transaction T K B)
        → KeptOpen server tree_of i P (s, t)
        → let y = after (write_back server tree_of undo_log b (s, t)) in
          KeptOpen server tree_of i P y
    unfolding write_back
    write_back-KeptOpen b s t k = go t.committed (not (has_changes server tree_of t.tables)) t.kind
      where
        go :
            (c n : Bool) (q : TransactionType)
            → let o : Outcome (S × Transaction T K B) (Unit {0}) =
                if c then raise (s, t) logic_error else if n then done (s, t) tt else elim q [
                  | TransactionType.read_write ↦ write_logged server tree_of undo_log b (s, t)
                  | _ ↦ raise (s, t) logic_error
                ] in
              KeptOpen server tree_of i P (after o)
        go true n q = k
        go false true q = k
        go false false TransactionType.read_write = write_logged-KeptOpen b s t k
        go false false TransactionType.read_only = k
        go false false TransactionType.analytical = k

    -- A commit that throws.
    pub commit-KeptOpen :
        (s : S) (t : Transaction T K B) (y : S × Transaction T K B) (e : Error)
        → commit server tree_of undo_log (s, t) ≡ raise y e
        → KeptOpen server tree_of i P (s, t)
        → KeptOpen server tree_of i P y
    unfolding commit
    commit-KeptOpen s t y e h k =
        go (write_back server tree_of undo_log true (s, t)) h (write_back-KeptOpen true s t k)
      where
        go :
            (o : Outcome (S × Transaction T K B) (Unit {0}))
            → elim o as (λ _. Outcome (S × Transaction T K B) (Unit {0})) [
              | raise x e ↦ raise x e
              | done x u ↦ done (ended server tree_of undo_log x) tt
            ]
              ≡ raise y e
            → KeptOpen server tree_of i P (after o)
            → KeptOpen server tree_of i P y
        go (raise x e') q p =
            let same : x ≡ y = ground arith in
            subst (λ (z : S × Transaction T K B). KeptOpen server tree_of i P z) same p
        go (done x u) q p = absurd (ground arith)

    -- A commit that returns.
    pub commit_done :
        (s : S) (t : Transaction T K B) (y : S × Transaction T K B)
        → commit server tree_of undo_log (s, t) ≡ done y tt
        → KeptOpen server tree_of i P (s, t)
        → (x : S) × KeptIn server tree_of i P (x, y.1.tables)
          × (y.0 ≡ server.end x)
          × (y.1.committed ≡ true)
    unfolding commit
    commit_done s t y h k =
        go (write_back server tree_of undo_log true (s, t)) h (write_back-KeptOpen true s t k)
      where
        go :
            (o : Outcome (S × Transaction T K B) (Unit {0}))
            → elim o as (λ _. Outcome (S × Transaction T K B) (Unit {0})) [
              | raise x e ↦ raise x e
              | done x u ↦ done (ended server tree_of undo_log x) tt
            ]
              ≡ done y tt
            → KeptOpen server tree_of i P (after o)
            → (x : S) × KeptIn server tree_of i P (x, y.1.tables)
              × (y.0 ≡ server.end x)
              × (y.1.committed ≡ true)
        go (raise x e) q p = absurd (ground arith)
        go (done x u) q p =
            let same : ended server tree_of undo_log x ≡ y = ground arith in
            subst
              (λ (z : S × Transaction T K B).
                (v : S) × KeptIn server tree_of i P (v, z.1.tables)
                × (z.0 ≡ server.end v)
                × (z.1.committed ≡ true))
              same (x.0, p.1, refl, refl)
