-- ===== src/Index/Cells.antt =====
-- Both kinds of trees as cells: a cell holds the entries that differ in the version only.
use telldb.Base.{
  ℕ, ◌≡◌, ◌≢◌, sym, ap, ◌∙◌, Option, some, true, false, Option-cases, inl, inr, subst, fun_ext,
}
use mathlib.Core.Bool.{false≢true}
use native.Mathlib.Decide.{ℕ_discrete}
use telldb.Index.Tree.{TreeMap, TreeLaws, BdTree, max_version}
use telldb.Index.Undo.{Cells}
use telldb.Index.Versions.{move, insert_kept, move_blocked, move_missing, move_done}

module _ {M K L E V : Type 0} (map : TreeMap M E V) (laws : TreeLaws map) (discrete : Discrete E)
    (locus : K → ℕ → L) (value_of : ℕ → V) (entry : L → ℕ → E)
    (entry_injective : (l l' : L) (n n' : ℕ) → entry l n ≡ entry l' n' → (l ≡ l') × (n ≡ n'))
    (version : ℕ) (deleted_before : version ≢ max_version) where
  abbrev pub active : K → ℕ → E
  active k v = entry (locus k v) max_version

  abbrev pub dead : K → ℕ → E
  dead k v = entry (locus k v) version

  active-ne-dead : (k : K) (v : ℕ) → active k v ≢ dead k v
  active-ne-dead k v e = deleted_before (sym ((entry_injective _ _ _ _ e).1))

  -- What the two kinds of trees have in common.
  abbrev pub versioned_tree : BdTree M K
  versioned_tree = record {
    insert = λ m k v. map.insert m (active k v) (value_of v);
    erase = λ m k v. move map (active k v) (dead k v) m (value_of v);
    revert_insert = λ m k v. (map.erase m (active k v)).0;
    revert_erase = λ m k v. (map.erase (map.insert m (active k v) (value_of v)).0 (dead k v)).0;
  }

  -- The entries of a cell, by version.
  abbrev pub entries : M → L → ℕ → Option V
  entries m l n = map.find m (entry l n)

  -- A deletion fits if it names what the tree holds.
  abbrev pub Holds : (ℕ → Option V) → ℕ → Type 0
  Holds x v = x max_version ≡ some (value_of v)

  pub entry-ne : (l l' : L) (n n' : ℕ) → l ≢ l' → entry l n ≢ entry l' n'
  entry-ne l l' n n' ne e = ne ((entry_injective l l' n n' e).0)

  -- On the tree with the deletion done, or one that looks the same, the revert brings the entry back.
  pub erase_reverted :
      (b b' : M) (k : K) (v : ℕ)
      → Holds (entries b (locus k v)) v
      → (versioned_tree.erase b k v).1 ≡ true
      → entries b' (locus k v) ≡ entries (versioned_tree.erase b k v).0 (locus k v)
      → (n : ℕ)
      → entries (versioned_tree.revert_erase b' k v) (locus k v) n ≡ entries b (locus k v) n
  erase_reverted b b' k v holds did same n = elim (Option-cases (map.find b (dead k v))) [
    | inr (x, e) ↦ absurd (
        false≢true (
          sym (
            (move_blocked map laws discrete (active k v) (dead k v) (active-ne-dead k v) b
              (value_of v) x (dead k v) e).0)
          ∙ did))
    | inl e ↦
        let m =
          move_done map laws discrete (active k v) (dead k v) (active-ne-dead k v) b (value_of v)
            (value_of v) e holds in
        let at : (i : ℕ)
            → map.find b' (entry (locus k v) i)
              ≡ map.find (versioned_tree.erase b k v).0 (entry (locus k v) i) =
          λ i. ap (λ (f : ℕ → Option V). f i) same in
        let back = (map.insert b' (active k v) (value_of v)).0 in
        let i = laws.insert_new b' (active k v) (value_of v) (at max_version ∙ m.2) in
        elim (ℕ_discrete version n) [
          | yes q ↦
              subst
                (λ j.
                  entries (versioned_tree.revert_erase b' k v) (locus k v) j
                  ≡ entries b (locus k v) j)
                q (laws.erase_self back (dead k v) ∙ sym e)
          | no q ↦
              laws.erase_other back (dead k v) (entry (locus k v) n)
                (λ f. q ((entry_injective _ _ _ _ f).1))
              ∙ elim (ℕ_discrete max_version n) [
                | yes r ↦
                    subst (λ j. map.find back (entry (locus k v) j) ≡ entries b (locus k v) j) r
                      (i.1 ∙ sym holds)
                | no r ↦
                    laws.insert_other b' (active k v) _ (value_of v)
                      (λ f. r ((entry_injective _ _ _ _ f).1))
                    ∙ at n
                    ∙ m.3 _ (λ f. q ((entry_injective _ _ _ _ f).1))
                        (λ f. r ((entry_injective _ _ _ _ f).1))
              ]
        ]
  ]

  pub insert_reverted :
      (b b' : M) (k : K) (v : ℕ)
      → (versioned_tree.insert b k v).1 ≡ true
      → entries b' (locus k v) ≡ entries (versioned_tree.insert b k v).0 (locus k v)
      → (n : ℕ)
      → entries (versioned_tree.revert_insert b' k v) (locus k v) n ≡ entries b (locus k v) n
  insert_reverted b b' k v did same n = elim (Option-cases (map.find b (active k v))) [
    | inr (x, e) ↦
        absurd (false≢true (sym ((laws.insert_old b (active k v) (value_of v) x e).0) ∙ did))
    | inl e ↦ elim (ℕ_discrete max_version n) [
      | yes r ↦
          subst
            (λ j.
              entries (versioned_tree.revert_insert b' k v) (locus k v) j ≡ entries b (locus k v) j)
            r (laws.erase_self b' (active k v) ∙ sym e)
      | no r ↦
          laws.erase_other b' (active k v) _ (λ f. r ((entry_injective _ _ _ _ f).1))
          ∙ ap (λ (f : ℕ → Option V). f n) same
          ∙ laws.insert_other b (active k v) _ (value_of v) (λ f. r ((entry_injective _ _ _ _ f).1))
    ]
  ]

  pub insert_failed :
      (b : M) (k : K) (v : ℕ) (l : L)
      → (versioned_tree.insert b k v).1 ≡ false
      → (n : ℕ) → entries (versioned_tree.insert b k v).0 l n ≡ entries b l n
  insert_failed b k v l did n = elim (Option-cases (map.find b (active k v))) [
    | inl e ↦ absurd (false≢true (sym did ∙ (laws.insert_new b (active k v) (value_of v) e).0))
    | inr (x, e) ↦
        insert_kept map laws discrete (active k v) (dead k v) (active-ne-dead k v) b (value_of v)
          (active k v) x (entry l n) e
  ]

  pub erase_failed :
      (b : M) (k : K) (v : ℕ) (l : L)
      → (versioned_tree.erase b k v).1 ≡ false
      → (n : ℕ) → entries (versioned_tree.erase b k v).0 l n ≡ entries b l n
  erase_failed b k v l did n = elim (Option-cases (map.find b (dead k v))) [
    | inr (x, e) ↦
        (move_blocked map laws discrete (active k v) (dead k v) (active-ne-dead k v) b (value_of v)
          x (entry l n) e).1
    | inl e ↦ elim (Option-cases (map.find b (active k v))) [
      | inl f ↦
          (move_missing map laws discrete (active k v) (dead k v) (active-ne-dead k v) b
            (value_of v) (entry l n) e f).1
      | inr (x, f) ↦ absurd (
          false≢true (
            sym did
            ∙ (move_done map laws discrete (active k v) (dead k v) (active-ne-dead k v) b
                (value_of v) x e f).0))
    ]
  ]

  pub erase_other :
      (b : M) (k : K) (v : ℕ) (l : L)
      → locus k v ≢ l
      → (n : ℕ) → entries (versioned_tree.erase b k v).0 l n ≡ entries b l n
  erase_other b k v l ne n = elim (Option-cases (map.find b (dead k v))) [
    | inr (x, e) ↦
        (move_blocked map laws discrete (active k v) (dead k v) (active-ne-dead k v) b (value_of v)
          x (entry l n) e).1
    | inl e ↦ elim (Option-cases (map.find b (active k v))) [
      | inl f ↦
          (move_missing map laws discrete (active k v) (dead k v) (active-ne-dead k v) b
            (value_of v) (entry l n) e f).1
      | inr (x, f) ↦
          (move_done map laws discrete (active k v) (dead k v) (active-ne-dead k v) b (value_of v) x
              e f).3
            _ (entry-ne _ _ _ _ ne) (entry-ne _ _ _ _ ne)
    ]
  ]

  -- Each operation works on the entries of one cell, and the reverts take it back.
  unfoldable pub versioned_cells : Cells L (ℕ → Option V) versioned_tree
  versioned_cells = record {
    locus = locus;
    view = entries;
    Fits = Holds;
    insert_other = λ b k v l ne.
        fun_ext
          (λ n. laws.insert_other b (active k v) (entry l n) (value_of v) (entry-ne _ _ _ _ ne));
    erase_other = λ b k v l ne. fun_ext (erase_other b k v l ne);
    revert_insert_other = λ b k v l ne.
        fun_ext (λ n. laws.erase_other b (active k v) (entry l n) (entry-ne _ _ _ _ ne));
    revert_erase_other = λ b k v l ne. fun_ext (λ n.
        laws.erase_other _ (dead k v) (entry l n) (entry-ne _ _ _ _ ne)
        ∙ laws.insert_other b (active k v) (entry l n) (value_of v) (entry-ne _ _ _ _ ne));
    insert_failed = λ b k v l h. fun_ext (insert_failed b k v l h);
    erase_failed = λ b k v l h. fun_ext (erase_failed b k v l h);
    insert_reverted = λ b b' k v h s. fun_ext (insert_reverted b b' k v h s);
    erase_reverted = λ b b' k v f h s. fun_ext (erase_reverted b b' k v f h s);
  }
