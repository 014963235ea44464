-- ===== src/Transaction/Atomic.antt =====
-- What a transaction leaves in storage that is rolled back: by its destructor, also after a commit
-- that threw.
use native.Mathlib.Decide.{ℕ_discrete}
use telldb.Base.{
  ℕ, ◌≡◌, refl, sym, subst, ◌∙◌, List, [], ◌∷◌, none, some, Bool, true, false, Bool-cases, ◌⊎◌, inl,
  inr, lookup, arith,
}
use telldb.Errors.{Outcome, done, raise, assertion}
use telldb.Index.Tree.{BdTree}
use telldb.TableCache.State.{Change, World}
use telldb.TableCache.Storage as Table
use telldb.TableCache.Storage.{Storage, issue, issue_reverts, all_succeeded, settle}
use telldb.TableCache.Rollback.{issue-IsClean, issue-committed, reverts_clean}
use telldb.Transaction.Loop.{Keeps}
use telldb.Transaction.Commit.{
  Server, Transaction, write_back_step, write_indexes_step, rollback_tables, rollback, destroy,
}
use telldb.Transaction.Clean.{
  ServerLaws, Same, Kept, Kept-Same, issue-Same, reverts-Same, Same-trans,
}
use telldb.Transaction.Steps.{after-write_back_step, after-write_indexes_step}
use telldb.Transaction.Through.{Stable, KeptIn, KeptOpen}

module _ {S T K B V : Type 0} (server : Server S T) (laws : ServerLaws V server)
    (tree_of : Bool → BdTree B K) (i : ℕ) where
  module _ (c : ℕ → V) where
    tables-Keeps : Keeps i (Kept server laws i c) (write_back_step server tree_of)
    tables-Keeps = record {
      key = λ s k w. rw (after-write_back_step server tree_of s k w) refl;
      other = λ s k w o ne p. rw (after-write_back_step server tree_of s k w) (
          Kept-Same server laws i c s (issue (server.storage k) w.heap.cell s w.table.changes).0 o
            (issue-Same server laws i k w.heap.cell s w.table.changes ne) p);
      self = λ s k w same p. rw (after-write_back_step server tree_of s k w) (
          rw same (
            issue-IsClean (server.storage i) (laws.table i) w.heap.cell s w.table.changes p.0,
            λ j.
                issue-committed (server.storage i) (laws.table i) w.heap.cell j s w.table.changes
                ∙ p.1 j,
          ));
    }

    indexes-Keeps : Keeps i (Kept server laws i c) (write_indexes_step server tree_of)
    indexes-Keeps = record {
      key = λ s k w. rw ((after-write_indexes_step server tree_of s k w).1) refl;
      other = λ s k w o ne p. rw ((after-write_indexes_step server tree_of s k w).1) p;
      self = λ s k w same p. rw ((after-write_indexes_step server tree_of s k w).1) p;
    }

    pub Kept-Stable : Stable server tree_of i (Kept server laws i c)
    Kept-Stable = record {
      tables = tables-Keeps;
      indexes = indexes-Keeps;
      insert_log = λ s k v o.
          Kept-Same server laws i c s (server.insert_log s k v) o
            (λ j. laws.insert_log_apart s i j k v);
      remove_log = λ s k o.
          Kept-Same server laws i c s (server.remove_log s k) o
            (λ j. laws.remove_log_apart s i j k);
    }

  -- The server has refused to revert a key.
  abbrev pub Refuses : Type 0
  Refuses = (id : ℕ) × (s : S) × (k : ℕ) × (((server.storage id).revert s k).1 ≡ false)

  refused :
      (id : ℕ) (s : S) (cs : List (ℕ × Change))
      → all_succeeded (issue_reverts (server.storage id) s cs).1 ≡ false
      → Refuses
  unfolding issue_reverts all_succeeded
  refused id s [] h = absurd (ground arith)
  refused id s ((k, c) ∷ cs) h = elim (Bool-cases c.written) [
    | inr e ↦ refused id s cs (ground arith)
    | inl e ↦ elim (Bool-cases ((server.storage id).revert s k).1) [
      | inr f ↦ (id, s, k, f)
      | inl f ↦ refused id ((server.storage id).revert s k).0 cs (ground arith)
    ]
  ]

  -- `rollback` of a table.
  rollback_cases :
      (k : ℕ) (s : S) (w : World T K B)
      → let sent = issue_reverts (server.storage k) s w.table.changes in
        ((Table.rollback (server.storage k) (s, w) ≡ done (sent.0, w) tt)
          × (all_succeeded sent.1 ≡ true))
        ⊎ ((Table.rollback (server.storage k) (s, w) ≡ raise (sent.0, w) assertion) × Refuses)
  unfolding Table.rollback
  rollback_cases k s w =
      elim (Bool-cases (all_succeeded (issue_reverts (server.storage k) s w.table.changes).1)) [
        | inl e ↦ inl (rw (e, Table.rollback) refl, e)
        | inr e ↦ inr (rw (e, Table.rollback) refl, refused k s w.table.changes e)
      ]

  -- The call returns, or an assertion fails as the server has refused to revert a key.
  abbrev pub Ends : {A : Type 0} → (A → Type 0) → Outcome A (Unit {0}) → Type 0
  Ends P (done y u) = P y
  Ends P (raise y e) = (e ≡ assertion) × Refuses

  Ends-map :
      {A : Type 0} (P Q : A → Type 0) (o : Outcome A (Unit {0}))
      → ((y : A) → P y → Q y)
      → Ends P o
      → Ends Q o
  Ends-map P Q (done y u) f p = f y p
  Ends-map P Q (raise y e) f p = p

  rollback_tables-Same :
      (s : S) (ts : List (ℕ × World T K B))
      → lookup i ts ≡ none
      → Ends (Same server laws i s) (rollback_tables server tree_of s ts)
  unfolding rollback_tables lookup
  rollback_tables-Same s [] h = λ j. (refl, refl)
  rollback_tables-Same s ((k, w) ∷ ts) h =
      let s' = (issue_reverts (server.storage k) s w.table.changes).0 in
      elim (rollback_cases k s w) [
        | inr (e, f) ↦ rw (e, rollback_tables) (refl, f)
        | inl (e, f) ↦
            rw (e, rollback_tables)
              (Ends-map (Same server laws i s') (Same server laws i s)
                (rollback_tables server tree_of s' ts)
                (λ y m.
                  Same-trans server laws i s s' y
                    (reverts-Same server laws i k s w.table.changes (ground arith)) m)
                (rollback_tables-Same s' ts (ground arith)))
      ]

  -- `rollback` of the tables.
  rollback_tables_lem :
      (c : ℕ → V) (s : S) (ts : List (ℕ × World T K B)) (j : ℕ)
      → KeptIn server tree_of i (Kept server laws i c) (s, ts)
      → Ends (λ y. (laws.table i).value y j ≡ c j) (rollback_tables server tree_of s ts)
  unfolding rollback_tables lookup
  rollback_tables_lem c s [] j k = k.1.0 j ∙ k.1.1 j
  rollback_tables_lem c s ((k, w) ∷ ts) j ((absent, d), p) =
      let s' = (issue_reverts (server.storage k) s w.table.changes).0 in
      elim (rollback_cases k s w) [
        | inr (e, f) ↦ rw (e, rollback_tables) (refl, f)
        | inl (e, good) ↦
            rw (e, rollback_tables)
              (elim (ℕ_discrete k i) [
                | yes same ↦
                    let there : lookup i ((k, w) ∷ ts) ≡ some w = ground arith in
                    let here = subst (Kept server laws i c s) there p in
                    let gone : lookup i ts ≡ none = subst (λ x. lookup x ts ≡ none) same absent in
                    Ends-map (Same server laws i s') (λ y. (laws.table i).value y j ≡ c j)
                      (rollback_tables server tree_of s' ts)
                      (λ y m. (m j).0 ∙ own_table c s w j k same good here)
                      (rollback_tables-Same s' ts gone)
                | no ne ↦
                    let there : lookup i ((k, w) ∷ ts) ≡ lookup i ts = ground arith in
                    rollback_tables_lem c s' ts j (
                      d,
                      Kept-Same server laws i c s s' (lookup i ts)
                          (reverts-Same server laws i k s w.table.changes ne)
                          (subst (Kept server laws i c s) there p),
                    )
              ])
      ]
    where
      own_table :
          (c : ℕ → V) (s : S) (w : World T K B) (j k : ℕ)
          → k ≡ i
          → all_succeeded (issue_reverts (server.storage k) s w.table.changes).1 ≡ true
          → Kept server laws i c s (some w)
          → (laws.table i).value (issue_reverts (server.storage k) s w.table.changes).0 j ≡ c j
      own_table c s w j k same good here =
          subst
            (λ x.
              all_succeeded (issue_reverts (server.storage x) s w.table.changes).1 ≡ true
              → (laws.table i).value (issue_reverts (server.storage x) s w.table.changes).0 j ≡ c j)
            (sym same)
            (λ g.
              reverts_clean (server.storage i) (laws.table i) j s w.table.changes here.0 g
              ∙ here.1 j)
            good

  -- The destructor of a transaction that is not committed.
  pub destroy_lem :
      (c : ℕ → V) (s : S) (t : Transaction T K B) (j : ℕ)
      → KeptOpen server tree_of i (Kept server laws i c) (s, t)
      → Ends
          (λ (y : S × Transaction T K B). (laws.table i).value y.0 j ≡ c j)
          (destroy server tree_of (s, t))
  unfolding destroy rollback
  destroy_lem c s t j k =
      rw (k.0, destroy, rollback)
        (go (rollback_tables server tree_of s t.tables) (rollback_tables_lem c s t.tables j k.1))
    where
      go :
          (o : Outcome S (Unit {0}))
          → Ends (λ y. (laws.table i).value y j ≡ c j) o
          → Ends
              (λ (y : S × Transaction T K B). (laws.table i).value y.0 j ≡ c j)
              (elim o as (λ _. Outcome (S × Transaction T K B) (Unit {0})) [
                | raise s' e ↦ raise (s', t) e
                | done s' u ↦ done (server.end s', record t { committed = true }) tt
              ])
      go (raise s' e) p = p
      go (done s' u) p = laws.end_value s' i j ∙ p
