-- ===== src/Transaction/Clean.antt =====
-- What a transaction has of its own in storage: the tables together.
use telldb.Base.{
  ℕ, ◌≡◌, ◌≢◌, refl, sym, ◌∙◌, List, [], ◌∷◌, Option, none, some, Bool-cases, inl, inr, arith,
}
use telldb.TableCache.State.{Operation, Change, World}
use telldb.TableCache.Storage.{tuple_at, issue, issue_reverts}
use telldb.TableCache.Rollback.{Laws, IsClean}
use telldb.Transaction.Commit.{Server}

-- What TellStore promises of the requests of a transaction: `Laws` for each table, and a request
-- changes no other table. The end of the transaction and its undo log change no table.
pub record ServerLaws {S T : Type 0} (V : Type 0) (server : Server S T) : Type 0 where
  pub table : (id : ℕ) → Laws V (server.storage id)
  pub modify_apart :
      (s : S) (i id j k : ℕ) (op : Operation) (t : Option T)
      → id ≢ i
      → ((table i).value ((server.storage id).modify s k op t).0 j ≡ (table i).value s j)
        × ((table i).committed ((server.storage id).modify s k op t).0 j ≡ (table i).committed s j)
  pub revert_apart :
      (s : S) (i id j k : ℕ)
      → id ≢ i
      → ((table i).value ((server.storage id).revert s k).0 j ≡ (table i).value s j)
        × ((table i).committed ((server.storage id).revert s k).0 j ≡ (table i).committed s j)
  pub insert_log_apart :
      (s : S) (i j k : ℕ) (v : List ℕ)
      → ((table i).value (server.insert_log s k v) j ≡ (table i).value s j)
        × ((table i).committed (server.insert_log s k v) j ≡ (table i).committed s j)
  pub remove_log_apart :
      (s : S) (i j k : ℕ)
      → ((table i).value (server.remove_log s k) j ≡ (table i).value s j)
        × ((table i).committed (server.remove_log s k) j ≡ (table i).committed s j)
  pub end_value : (s : S) (i j : ℕ) → (table i).value (server.end s) j ≡ (table i).value s j

module _ {S T V : Type 0} (server : Server S T) (laws : ServerLaws V server) (i : ℕ) where
  -- The table looks the same in both states.
  abbrev pub Same : S → S → Type 0
  Same s s' =
      (j : ℕ)
      → ((laws.table i).value s' j ≡ (laws.table i).value s j)
        × ((laws.table i).committed s' j ≡ (laws.table i).committed s j)

  pub Same-trans : (a b c : S) → Same a b → Same b c → Same a c
  Same-trans a b c p q j = ((q j).0 ∙ (p j).0, (q j).1 ∙ (p j).1)

  pub issue-Same :
      (id : ℕ) (cell : ℕ → Option T) (s : S) (cs : List (ℕ × Change))
      → id ≢ i
      → Same s (issue (server.storage id) cell s cs).0
  unfolding issue
  issue-Same id cell s [] ne j = (refl, refl)
  issue-Same id cell s ((k, c) ∷ cs) ne j = elim (Bool-cases c.written) [
    | inl e ↦ ground (arith, issue-Same id cell s cs ne j)
    | inr e ↦
        let sent = (server.storage id).modify s k c.operation (tuple_at cell c.tuple) in
        ground (
          arith,
          issue-Same id cell sent.0 cs ne j,
          laws.modify_apart s i id j k c.operation (tuple_at cell c.tuple) ne,
        )
  ]

  pub reverts-Same :
      (id : ℕ) (s : S) (cs : List (ℕ × Change))
      → id ≢ i
      → Same s (issue_reverts (server.storage id) s cs).0
  unfolding issue_reverts
  reverts-Same id s [] ne j = (refl, refl)
  reverts-Same id s ((k, c) ∷ cs) ne j = elim (Bool-cases c.written) [
    | inl e ↦ ground (
      arith,
      reverts-Same id ((server.storage id).revert s k).0 cs ne j,
      laws.revert_apart s i id j k ne,
    )
    | inr e ↦ ground (arith, reverts-Same id s cs ne j)
  ]

  -- Storage has of the transaction what is marked as written: in a table of the transaction, and
  -- nothing in a table that it has not opened.
  abbrev pub CleanTable : {K B : Type 0} → S → Option (World T K B) → Type 0
  CleanTable s none = (j : ℕ) → (laws.table i).value s j ≡ (laws.table i).committed s j
  CleanTable s (some w) = IsClean (server.storage i) (laws.table i) s w.table.changes

  pub CleanTable-Same :
      {K B : Type 0} (s s' : S) (o : Option (World T K B))
      → Same s s'
      → CleanTable s o
      → CleanTable s' o
  CleanTable-Same s s' none m c = λ j. (m j).0 ∙ c j ∙ sym (m j).1
  CleanTable-Same s s' (some w) m c = record {
    none_clean = λ j h. (m j).0 ∙ c.none_clean j h ∙ sym (m j).1;
    unwritten_clean = λ j d h e. (m j).0 ∙ c.unwritten_clean j d h e ∙ sym (m j).1;
  }

  -- The table is clean, and what it holds without the transaction is `c`.
  abbrev pub Kept : {K B : Type 0} → (ℕ → V) → S → Option (World T K B) → Type 0
  Kept c s o = CleanTable s o × ((j : ℕ) → (laws.table i).committed s j ≡ c j)

  pub Kept-Same :
      {K B : Type 0} (c : ℕ → V) (s s' : S) (o : Option (World T K B))
      → Same s s'
      → Kept c s o
      → Kept c s' o
  Kept-Same c s s' o m k = (CleanTable-Same s s' o m k.0, λ j. (m j).1 ∙ k.1 j)
