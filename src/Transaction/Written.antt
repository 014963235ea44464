-- ===== src/Transaction/Written.antt =====
-- A commit that succeeds has written everything.
use telldb.Base.{
  ℕ, ◌≡◌, refl, ap, subst, List, [], ◌∷◌, Bool, true, false, arith, All, Bool-cases, inl, inr,
  length, lookup,
}
use telldb.Errors.{Result, ok, err, Outcome, done, raise, after}
use telldb.Index.{IndexWrapper}
use telldb.Index.Tree.{BdTree}
use telldb.TableCache.State.{Change, World}
use telldb.TableCache.Storage as Table
use telldb.TableCache.Written.{AllWritten, write_back-AllWritten}
use telldb.Transaction.UndoLog.{write_undo_log, remove_undo_log}
use telldb.Transaction.Commit.{
  TransactionType, Server, Transaction, put_first, each, index_step, write_indexes_step,
  write_back_step, has_changes, write_tables, remove_step, after_tables, write_logged, write_back,
  commit, ended, insert_parts,
}

-- What a loop that does not throw has made of every element.
each-All :
    {S A : Type 0} (P Q : A → Type 0) (f : S × A → Outcome (S × A) (Unit {0}))
    → ((s s' : S) (a a' : A) → P a → f (s, a) ≡ done (s', a') tt → Q a')
    → (s s' : S) (xs ys : List A) → All P xs
    → each f s xs ≡ done (s', ys) tt
    → All Q ys
unfolding each
each-All P Q f h s s' [] [] p e = tt
each-All P Q f h s s' [] (y ∷ ys) p e = absurd (ground arith)
each-All {S = S} {A = A} P Q f h s s' (x ∷ xs) ys p e =
    go (λ t t' zs. each-All P Q f h t t' xs zs p.1) (f (s, x)) refl
  where
    rest :
        ((t t' : S) (zs : List A) → each f t xs ≡ done (t', zs) tt → All Q zs)
        → (o : Outcome (S × List A) (Unit {0})) (t : S) (a : A) → f (s, x) ≡ done (t, a) tt
        → each f t xs ≡ o
        → put_first a o ≡ done (s', ys) tt
        → All Q ys
    rest ih (done z u) t a k l m =
        subst (λ zs. All Q zs) (ap (λ (o : Outcome (S × List A) (Unit {0})). (after o).1) m)
          (h s t x a p.0 k, ih t z.0 z.1 l)
    rest ih (raise z u) t a k l m = absurd (ground arith)

    go :
        ((t t' : S) (zs : List A) → each f t xs ≡ done (t', zs) tt → All Q zs)
        → (o : Outcome (S × A) (Unit {0})) → f (s, x) ≡ o
        → All Q ys
    go ih (raise z u) k = absurd (ground arith)
    go ih (done z u) k = rest ih (each f z.0 xs) z.0 z.1 k refl (ground arith)

All-trivial : {A : Type 0} (xs : List A) → All (λ _. Unit {0}) xs
All-trivial [] = tt
All-trivial (x ∷ xs) = (tt, All-trivial xs)

module _ {S T K B : Type 0} (server : Server S T) (tree_of : Bool → BdTree B K) where
  -- Every change of the table is written.
  abbrev pub TableWritten : ℕ × World T K B → Type 0
  TableWritten a = AllWritten a.1.table.changes

  write_back_step-TableWritten :
      (s s' : S) (a a' : ℕ × World T K B)
      → write_back_step server tree_of (s, a) ≡ done (s', a') tt
      → TableWritten a'
  unfolding write_back_step
  write_back_step-TableWritten s s' a a' h =
      go (Table.write_back (server.storage a.0) (s, a.1)) refl
    where
      go :
          (o : Outcome (S × World T K B) (Unit {0}))
          → Table.write_back (server.storage a.0) (s, a.1) ≡ o
          → TableWritten a'
      go (raise y e) k = absurd (ground arith)
      go (done y u) k =
          let e : y.1 ≡ a'.1 = ground arith in
          subst (λ (w : World T K B). AllWritten w.table.changes) e
            (write_back-AllWritten (server.storage a.0) s y.0 a.1 y.1 k)

  write_indexes_step-TableWritten :
      (s s' : S) (a a' : ℕ × World T K B)
      → TableWritten a
      → write_indexes_step server tree_of (s, a) ≡ done (s', a') tt
      → TableWritten a'
  unfolding write_indexes_step
  write_indexes_step-TableWritten s s' a a' w h =
      go (each (index_step server tree_of) s a.1.table.indexes) refl
    where
      go :
          (o : Outcome (S × List (IndexWrapper T K B)) (Unit {0}))
          → each (index_step server tree_of) s a.1.table.indexes ≡ o
          → TableWritten a'
      go (raise y e) k = absurd (ground arith)
      go (done y u) k =
          let e : a.1.table.changes ≡ a'.1.table.changes = ground arith in
          subst (λ cs. AllWritten cs) e w

  write_tables-TableWritten :
      (s s' : S) (ts us : List (ℕ × World T K B))
      → write_tables server tree_of true s ts ≡ done (s', us) tt
      → All TableWritten us
  unfolding write_tables
  write_tables-TableWritten s s' ts us h = go (each (write_back_step server tree_of) s ts) refl
    where
      go :
          (o : Outcome (S × List (ℕ × World T K B)) (Unit {0}))
          → each (write_back_step server tree_of) s ts ≡ o
          → All TableWritten us
      go (raise y e) k = absurd (ground arith)
      go (done y u) k =
          each-All TableWritten TableWritten (write_indexes_step server tree_of)
            write_indexes_step-TableWritten y.0 s' y.1 us
            (each-All (λ _. Unit) TableWritten (write_back_step server tree_of)
              (λ t t' a a' p e. write_back_step-TableWritten t t' a a' e) s y.0 ts y.1
              (All-trivial ts) k)
            (ground arith)

  unchanged-TableWritten :
      (ts : List (ℕ × World T K B)) → has_changes server tree_of ts ≡ false → All TableWritten ts
  unfolding has_changes lookup
  unchanged-TableWritten [] h = tt
  unchanged-TableWritten ((k, w) ∷ ts) h = go (unchanged-TableWritten ts) w.table.changes refl
    where
      go :
          (has_changes server tree_of ts ≡ false → All TableWritten ts)
          → (cs : List (ℕ × Change)) → w.table.changes ≡ cs
          → All TableWritten ((k, w) ∷ ts)
      go ih [] e = (λ j c l. absurd (ground arith), ih (ground arith))
      go ih (c ∷ cs) e = absurd (ground arith)

  module _ (undo_log : Bool → List (ℕ × World T K B) → List ℕ) where
    write_logged-TableWritten :
        (s s' : S) (t t' : Transaction T K B)
        → write_logged server tree_of undo_log true (s, t) ≡ done (s', t') tt
        → All TableWritten t'.tables
    unfolding write_logged remove_step
    write_logged-TableWritten s s' t t' h =
        logged (write_undo_log t.version (undo_log true t.tables)) refl
      where
        removed :
            (r : Result (List ℕ)) (us : S × List (ℕ × World T K B))
            → remove_undo_log t.version (length (undo_log true t.tables)) ≡ r
            → remove_step server tree_of undo_log t (undo_log true t.tables) us ≡ done (s', t') tt
            → us.1 ≡ t'.tables
        removed (err e) us q m = absurd (ground arith)
        removed (ok ks) us q m = ground arith

        written :
            (rs : List (ℕ × List ℕ)) (o : Outcome (S × List (ℕ × World T K B)) (Unit {0}))
            → write_tables server tree_of true (insert_parts server tree_of s rs) t.tables ≡ o
            → after_tables server tree_of undo_log t (undo_log true t.tables) o ≡ done (s', t') tt
            → All TableWritten t'.tables
        written rs (raise y e) q m = absurd (ground arith)
        written rs (done y u) q m =
            subst (λ us. All TableWritten us) (removed _ y refl m)
              (write_tables-TableWritten (insert_parts server tree_of s rs) y.0 t.tables y.1 q)

        logged :
            (r : Result (List (ℕ × List ℕ)))
            → write_undo_log t.version (undo_log true t.tables) ≡ r
            → All TableWritten t'.tables
        logged (err e) q = absurd (ground arith)
        logged (ok rs) q = written rs _ refl (ground arith)

    write_back-TableWritten :
        (s s' : S) (t t' : Transaction T K B)
        → write_back server tree_of undo_log true (s, t) ≡ done (s', t') tt
        → All TableWritten t'.tables
    unfolding write_back
    write_back-TableWritten s s' t t' h = elim (Bool-cases t.committed) [
      | inl e ↦ absurd (ground arith)
      | inr e ↦ elim (Bool-cases (has_changes server tree_of t.tables)) [
        | inr f ↦
            let same : t ≡ t' = ground arith in
            subst (λ (u : Transaction T K B). All TableWritten u.tables) same
              (unchanged-TableWritten t.tables f)
        | inl f ↦ write_logged-TableWritten s s' t t' (go t.kind refl e f)
      ]
    ]
      where
        go :
            (k : TransactionType)
            → t.kind ≡ k
            → t.committed ≡ false
            → has_changes server tree_of t.tables ≡ true
            → write_logged server tree_of undo_log true (s, t) ≡ done (s', t') tt
        go TransactionType.read_write q e f = ground arith
        go _ q e f = absurd (ground arith)

    -- A commit that does not throw leaves the transaction committed, with every change of every
    -- table marked as written to storage.
    pub commit-TableWritten :
        (s s' : S) (t t' : Transaction T K B)
        → commit server tree_of undo_log (s, t) ≡ done (s', t') tt
        → (t'.committed ≡ true) × All TableWritten t'.tables
    unfolding commit
    commit-TableWritten s s' t t' h = go (write_back server tree_of undo_log true (s, t)) refl
      where
        go :
            (o : Outcome (S × Transaction T K B) (Unit {0}))
            → write_back server tree_of undo_log true (s, t) ≡ o
            → (t'.committed ≡ true) × All TableWritten t'.tables
        go (raise y e) k = absurd (ground arith)
        go (done y u) k =
            let w = write_back-TableWritten s y.0 t y.1 k in
            let e : ended server tree_of undo_log y ≡ (s', t') = ground arith in
            subst
              (λ (z : S × Transaction T K B). (z.1.committed ≡ true) × All TableWritten z.1.tables)
              e (refl, w)
