-- ===== src/Transaction/Steps.antt =====
-- One table in the loops of a commit (src/TransactionCache.cpp): the state that its step leaves,
-- whether it throws or not.

use telldb.Base.{ℕ, ◌≡◌, refl, sym, ap, ◌∙◌, List, [], ◌∷◌, Bool, inl, inr}
use telldb.Errors.{Outcome, done, raise, after}
use telldb.Index.{IndexWrapper}
use telldb.Index.Tree.{BdTree}
use telldb.Index.WriteBack as Index
use telldb.TableCache.State.{World}
use telldb.TableCache.Storage as Table
use telldb.TableCache.Storage.{Storage, issue, issue_reverts, settle}
use telldb.TableCache.Commit.{written_back, after-write_back}
use telldb.Transaction.Loop.{each_nil, each_cons}
use telldb.Transaction.Commit.{
  Server, each, index_step, replace_indexes, write_back_step, write_indexes_step,
}

module _ {S T K B : Type 0} (server : Server S T) (tree_of : Bool → BdTree B K) where
  index-state : (s : S) (x : IndexWrapper T K B) → (after (index_step server tree_of (s, x))).0 ≡ s
  index-state s x = go (Index.write_back (tree_of x.unique) x) refl
    where
      go :
          (o : Outcome (IndexWrapper T K B) (Unit {0}))
          → Index.write_back (tree_of x.unique) x ≡ o
          → (after (index_step server tree_of (s, x))).0 ≡ s
      go (done y u) q = rw (q, after) refl
      go (raise y e) q = rw (q, after) refl

  pub after-write_back_step :
      (s : S) (k : ℕ) (w : World T K B)
      → let x = written_back (server.storage k) s w in
        after (write_back_step server tree_of (s, (k, w))) ≡ (x.0, (k, x.1))
  unfolding write_back_step
  after-write_back_step s k w = go (Table.write_back (server.storage k) (s, w)) refl
    where
      go :
          (o : Outcome (S × World T K B) (Unit {0}))
          → Table.write_back (server.storage k) (s, w) ≡ o
          → after (write_back_step server tree_of (s, (k, w))) ≡ (
            (written_back (server.storage k) s w).0,
            (k, (written_back (server.storage k) s w).1),
          )
      go (done y u) q =
          rw (q, write_back_step)
            (ap (λ z. (z.0, (k, z.1)))
              (sym (ap (λ o. after o) q) ∙ after-write_back (server.storage k) s w))
      go (raise y e) q =
          rw (q, write_back_step)
            (ap (λ z. (z.0, (k, z.1)))
              (sym (ap (λ o. after o) q) ∙ after-write_back (server.storage k) s w))

  indexes-state :
      (s : S) (is : List (IndexWrapper T K B))
      → (after (each (index_step server tree_of) s is)).0 ≡ s
  indexes-state s [] = ap (λ z. z.0) (each_nil (index_step server tree_of) s)
  indexes-state s (x ∷ is) = elim (each_cons (index_step server tree_of) s x is) [
    | inl e ↦ rw e (index-state s x)
    | inr e ↦ rw e (indexes-state (after (index_step server tree_of (s, x))).0 is ∙ index-state s x)
  ]

  pub after-write_indexes_step :
      (s : S) (k : ℕ) (w : World T K B)
      → (is : List (IndexWrapper T K B)) × (after (write_indexes_step server tree_of (s, (k, w)))
          ≡ (s, replace_indexes server tree_of (k, w) is))
  unfolding write_indexes_step
  after-write_indexes_step s k w = go (each (index_step server tree_of) s w.table.indexes) refl
    where
      go :
          (o : Outcome (S × List (IndexWrapper T K B)) (Unit {0}))
          → each (index_step server tree_of) s w.table.indexes ≡ o
          → (is : List (IndexWrapper T K B)) × (after
                (write_indexes_step server tree_of (s, (k, w)))
              ≡ (s, replace_indexes server tree_of (k, w) is))
      go (done y u) q = (
        y.1,
        rw (q, write_indexes_step)
            (ap (λ x. (x, replace_indexes server tree_of (k, w) y.1))
              (sym (ap (λ (o : Outcome (S × List (IndexWrapper T K B)) (Unit {0})). (after o).0) q)
                ∙ indexes-state s w.table.indexes)),
      )
      go (raise y e) q = (
        y.1,
        rw (q, write_indexes_step)
            (ap (λ x. (x, replace_indexes server tree_of (k, w) y.1))
              (sym (ap (λ (o : Outcome (S × List (IndexWrapper T K B)) (Unit {0})). (after o).0) q)
                ∙ indexes-state s w.table.indexes)),
      )
