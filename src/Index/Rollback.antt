-- ===== src/Index/Rollback.antt =====
-- `undo` after `writeBack` for the two trees of src/Indexes.cpp.
use telldb.Base.{ℕ, ◌≡◌, ◌≢◌, sym, ap, [], ◌∷◌, Option, none, some, true, arith}
use telldb.Errors.{done, after}
use telldb.Index.{insertion, deletion, IndexWrapper, cached}
use telldb.Index.Tree.{
  TreeMap, TreeLaws, max_version, unique_tree, unique_insert, unique_erase, unique_revert_insert,
  unique_revert_erase, non_unique_tree, non_unique_insert, non_unique_erase,
  non_unique_revert_insert, non_unique_revert_erase,
}
use telldb.Index.WriteBack.{write_back, undo}
use telldb.Index.Undo.{Cells, Apart, undo-write_back}
use telldb.Index.Versions.{move_done}
use telldb.Index.Cells.{versioned_cells}

module _ {M K : Type 0} (map : TreeMap M (K × ℕ) ℕ) (laws : TreeLaws map) (discrete : Discrete K)
    (discrete_entry : Discrete (K × ℕ)) (version : ℕ) (deleted_before : version ≢ max_version) where
  -- A unique tree has a cell for each key.
  unfoldable pub unique_cells : Cells K (ℕ → Option ℕ) (unique_tree map version)
  unfolding unique_insert unique_erase unique_revert_insert unique_revert_erase
  unique_cells =
      versioned_cells map laws discrete_entry (λ (k : K) v. k) (λ v. v) (λ k n. (k, n))
        (λ l l' n n' e. (ap (λ p. p.0) e, ap (λ p. p.1) e)) version deleted_before

  -- In a unique tree, for operations that work on different keys, none written yet, where each
  -- deletion names the tuple that the tree has under its key: `undo` after `writeBack`, which may
  -- have stopped at a conflict, gives back every entry of every version.
  pub unique_undo :
      {T : Type 0} (w : IndexWrapper T K M)
      → Apart (unique_tree map version) unique_cells discrete w.tree w.cache
      → (k : K) (n : ℕ)
      → map.find
          (undo (unique_tree map version) (after (write_back (unique_tree map version) w))).tree
          (k, n)
        ≡ map.find w.tree (k, n)
  unfolding unique_cells versioned_cells
  unique_undo w a k n =
      ap (λ (f : ℕ → Option ℕ). f n)
        (undo-write_back (unique_tree map version) unique_cells discrete w a k)

  erased :
      (m : M) (k : K) (v : ℕ)
      → map.find m (k, max_version) ≡ some v
      → map.find m (k, version) ≡ none
      → ((unique_erase map version m k v).1 ≡ true)
        × (map.find (unique_erase map version m k v).0 (k, max_version) ≡ none)
  unfolding unique_erase
  erased m k v e f =
      let d =
        move_done map laws discrete_entry (k, max_version) (k, version)
          (λ q. deleted_before (sym (ap (λ p. p.1) q))) m v v f e in
      (d.0, d.2)

  inserted :
      (m : M) (k : K) (v : ℕ)
      → map.find m (k, max_version) ≡ none
      → (unique_insert map version m k v).1 ≡ true
  unfolding unique_insert
  inserted m k v e = (laws.insert_new m (k, max_version) v e).0

  reverted :
      (m : M) (k : K) (v : ℕ)
      → map.find (unique_revert_insert map version m k v) (k, max_version) ≡ none
  unfolding unique_revert_insert
  reverted m k v = laws.erase_self m (k, max_version)

  -- In a unique tree, when one tuple gives up a key that it has and another takes it, and the
  -- tree has no entry of this transaction's version under the key: `writeBack` succeeds, and
  -- `undo`, which goes through the operations in the order in which they were done, leaves the key
  -- with no entry that is not deleted.
  pub unique_undo_loses :
      {T : Type 0} (w : IndexWrapper T K M) (k : K) (old new : ℕ)
      → w.cache ≡ (k, cached deletion old) ∷ (k, cached insertion new) ∷ []
      → map.find w.tree (k, max_version) ≡ some old
      → map.find w.tree (k, version) ≡ none
      → let w' = after (write_back (unique_tree map version) w) in
        (write_back (unique_tree map version) w ≡ done w' tt)
        × (map.find (undo (unique_tree map version) w').tree (k, max_version) ≡ none)
  unfolding write_back undo
  unique_undo_loses w k old new c e f =
      let d = erased w.tree k old e f in
      let t1 = (unique_erase map version w.tree k old).0 in
      let i = inserted t1 k new d.1 in
      let t2 = (unique_insert map version t1 k new).0 in
      let r = reverted (unique_revert_erase map version t2 k old) k new in
      (ground arith, ground arith)

module _ {M K : Type 0} (map : TreeMap M (K × ℕ × ℕ) (Unit {0})) (laws : TreeLaws map)
    (discrete : Discrete (K × ℕ)) (discrete_entry : Discrete (K × ℕ × ℕ)) (version : ℕ)
    (deleted_before : version ≢ max_version) where
  -- A tree that is not unique has a cell for each key and tuple.
  unfoldable pub non_unique_cells :
      Cells (K × ℕ) (ℕ → Option (Unit {0})) (non_unique_tree map version)
  unfolding non_unique_insert non_unique_erase non_unique_revert_insert non_unique_revert_erase
  non_unique_cells =
      versioned_cells map laws discrete_entry (λ (k : K) v. (k, v)) (λ v. tt) (λ l n. (l.0, n, l.1))
        (λ l l' n n' e. (ap (λ p. (p.0, p.2)) e, ap (λ p. p.1) e)) version deleted_before

  -- In a tree that is not unique, for operations that work on different pairs of key and tuple,
  -- none written yet, where each deletion names an entry that the tree has: `undo` after
  -- `writeBack`, which may have stopped at a conflict, gives back every entry of every version.
  pub non_unique_undo :
      {T : Type 0} (w : IndexWrapper T K M)
      → Apart (non_unique_tree map version) non_unique_cells discrete w.tree w.cache
      → (k : K) (n v : ℕ)
      → map.find
          (undo
            (non_unique_tree map version)
            (after (write_back (non_unique_tree map version) w))).tree
          (k, n, v)
        ≡ map.find w.tree (k, n, v)
  unfolding non_unique_cells versioned_cells
  non_unique_undo w a k n v =
      ap (λ (f : ℕ → Option (Unit {0})). f n)
        (undo-write_back (non_unique_tree map version) non_unique_cells discrete w a (k, v))
