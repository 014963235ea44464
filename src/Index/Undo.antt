-- ===== src/Index/Undo.antt =====
-- When `undo` takes back what `writeBack` did to a tree, and when it does not.

use telldb.Base.{
  ℕ, ◌≡◌, ◌≢◌, refl, sym, ap, ◌∙◌, [], ◌∷◌, Option, none, some, true, false, arith, Bool-cases, inl,
  inr,
}
use telldb.Errors.{after}
use telldb.Index.{IndexOperation, insertion, deletion, CacheEntry, Cache, IndexWrapper}
use telldb.Index.Tree.{BdTree}
use telldb.Index.WriteBack.{apply, unapply, write_entries, undo_entries, stop_at, write_back, undo}

-- A tree as cells: each operation works on one cell, that of its key and value, an operation that
-- fails changes nothing, and one that succeeds is taken back by its revert.
-- `Fits` is what a deletion asks of the cell that it deletes from.
pub record Cells {B K : Type 0} (L X : Type 0) (tree : BdTree B K) : Type 1 where
  pub locus : K → ℕ → L
  pub view : B → L → X
  pub Fits : X → ℕ → Type 0
  pub insert_other :
      (b : B) (k : K) (v : ℕ) (l : L) → locus k v ≢ l → view (tree.insert b k v).0 l ≡ view b l
  pub erase_other :
      (b : B) (k : K) (v : ℕ) (l : L) → locus k v ≢ l → view (tree.erase b k v).0 l ≡ view b l
  pub revert_insert_other :
      (b : B) (k : K) (v : ℕ) (l : L) → locus k v ≢ l → view (tree.revert_insert b k v) l ≡ view b l
  pub revert_erase_other :
      (b : B) (k : K) (v : ℕ) (l : L) → locus k v ≢ l → view (tree.revert_erase b k v) l ≡ view b l
  pub insert_failed :
      (b : B) (k : K) (v : ℕ) (l : L)
      → (tree.insert b k v).1 ≡ false
      → view (tree.insert b k v).0 l ≡ view b l
  pub erase_failed :
      (b : B) (k : K) (v : ℕ) (l : L)
      → (tree.erase b k v).1 ≡ false
      → view (tree.erase b k v).0 l ≡ view b l
  pub insert_reverted :
      (b b' : B) (k : K) (v : ℕ)
      → (tree.insert b k v).1 ≡ true
      → view b' (locus k v) ≡ view (tree.insert b k v).0 (locus k v)
      → view (tree.revert_insert b' k v) (locus k v) ≡ view b (locus k v)
  pub erase_reverted :
      (b b' : B) (k : K) (v : ℕ)
      → Fits (view b (locus k v)) v
      → (tree.erase b k v).1 ≡ true
      → view b' (locus k v) ≡ view (tree.erase b k v).0 (locus k v)
      → view (tree.revert_erase b' k v) (locus k v) ≡ view b (locus k v)

module _ {B K L X : Type 0} (tree : BdTree B K) (cells : Cells L X tree)
    (discrete : Discrete L) where
  open cells use {locus, view, Fits}

  -- No entry works on the cell.
  abbrev pub Untouched : L → Cache K → Type 0
  Untouched l [] = Unit
  Untouched l ((k, e) ∷ cs) = (locus k e.value ≢ l) × Untouched l cs

  -- No two entries work on one cell, none is written yet, and each deletion fits what the tree
  -- holds in its cell.
  abbrev pub Apart : B → Cache K → Type 0
  Apart b [] = Unit
  Apart b ((k, e) ∷ cs) =
      Untouched (locus k e.value) cs
      × (e.written ≡ false)
      × (e.operation ≡ deletion → Fits (view b (locus k e.value)) e.value)
      × Apart b cs

  apply_other :
      (b : B) (k : K) (e : CacheEntry) (l : L)
      → locus k e.value ≢ l
      → view (apply tree b k e).0 l ≡ view b l
  apply_other b k e l ne = go e.operation
    where
      go :
          (op : IndexOperation) → view (apply tree b k (record e { operation = op })).0 l ≡ view b l
      go insertion = cells.insert_other b k e.value l ne
      go deletion = cells.erase_other b k e.value l ne

  unapply_other :
      (b : B) (k : K) (e : CacheEntry) (l : L)
      → locus k e.value ≢ l
      → view (unapply tree b k e) l ≡ view b l
  unapply_other b k e l ne = go e.operation
    where
      go :
          (op : IndexOperation) → view (unapply tree b k (record e { operation = op })) l ≡ view b l
      go insertion = cells.revert_insert_other b k e.value l ne
      go deletion = cells.revert_erase_other b k e.value l ne

  apply_failed :
      (op : IndexOperation) (b : B) (k : K) (e : CacheEntry) (l : L)
      → (apply tree b k (record e { operation = op })).1 ≡ false
      → view (apply tree b k (record e { operation = op })).0 l ≡ view b l
  apply_failed insertion b k e l h = cells.insert_failed b k e.value l h
  apply_failed deletion b k e l h = cells.erase_failed b k e.value l h

  applied_reverted :
      (op : IndexOperation) (b b' : B) (k : K) (e : CacheEntry)
      → (op ≡ deletion → Fits (view b (locus k e.value)) e.value)
      → (apply tree b k (record e { operation = op })).1 ≡ true
      → view b' (locus k e.value)
        ≡ view (apply tree b k (record e { operation = op })).0 (locus k e.value)
      → view (unapply tree b' k (record e { operation = op })) (locus k e.value)
        ≡ view b (locus k e.value)
  applied_reverted insertion b b' k e f h same = cells.insert_reverted b b' k e.value h same
  applied_reverted deletion b b' k e f h same = cells.erase_reverted b b' k e.value (f refl) h same

  write-Untouched :
      (l : L) (b : B) (cs : Cache K)
      → Untouched l cs
      → (view (write_entries tree b cs).0 l ≡ view b l) × Untouched l (write_entries tree b cs).1
  unfolding write_entries
  write-Untouched l b [] u = (refl, tt)
  write-Untouched l b ((k, e) ∷ cs) u = elim (Bool-cases e.written) [
    | inl w ↦ let ih = write-Untouched l b cs u.1 in ground arith
    | inr w ↦
        let o = apply_other b k e l u.0 in
        let ih = write-Untouched l (apply tree b k e).0 cs u.1 in
        elim (Bool-cases (apply tree b k e).1) [ inl d ↦ ground arith | inr d ↦ ground arith ]
  ]

  undo-Untouched :
      (l : L) (b : B) (cs : Cache K) → Untouched l cs → view (undo_entries tree b cs) l ≡ view b l
  unfolding undo_entries
  undo-Untouched l b [] u = refl
  undo-Untouched l b ((k, e) ∷ cs) u = elim (Bool-cases e.written) [
    | inl w ↦
        let o = unapply_other b k e l u.0 in
        ground (arith, undo-Untouched l (unapply tree b k e) cs u.1)
    | inr w ↦ ground (arith, undo-Untouched l b cs u.1)
  ]

  Apart-moved :
      (l : L) (b b' : B) (cs : Cache K)
      → ((m : L) → l ≢ m → view b' m ≡ view b m)
      → Untouched l cs
      → Apart b cs
      → Apart b' cs
  Apart-moved l b b' [] same u a = tt
  Apart-moved l b b' ((k, e) ∷ cs) same u a = (
    a.0,
    a.1,
    λ h. rw (same (locus k e.value) (λ q. u.0 (sym q))) (a.2 h),
    Apart-moved l b b' cs same u.1 a.3,
  )

  undo_unwritten : (b b' : B) (cs : Cache K) → Apart b' cs → undo_entries tree b cs ≡ b
  unfolding undo_entries
  undo_unwritten b b' [] a = refl
  undo_unwritten b b' ((k, e) ∷ cs) a = ground (arith, undo_unwritten b b' cs a.3)

  write_ok :
      (b : B) (k : K) (e : CacheEntry) (cs : Cache K)
      → e.written ≡ false
      → (apply tree b k e).1 ≡ true
      → let rest = write_entries tree (apply tree b k e).0 cs in
        write_entries tree b ((k, e) ∷ cs)
        ≡ (rest.0, (k, record e { written = true }) ∷ rest.1, rest.2)
  unfolding write_entries
  write_ok b k e cs w d = ground arith

  write_stop :
      (b : B) (k : K) (e : CacheEntry) (cs : Cache K)
      → e.written ≡ false
      → (apply tree b k e).1 ≡ false
      → write_entries tree b ((k, e) ∷ cs) ≡ ((apply tree b k e).0, (k, e) ∷ cs, some e.value)
  unfolding write_entries
  write_stop b k e cs w d = ground arith

  undo_write :
      (l : L) (b b' : B) (cs : Cache K)
      → Apart b cs
      → view b' l ≡ view (write_entries tree b cs).0 l
      → view (undo_entries tree b' (write_entries tree b cs).1) l ≡ view b l
  unfolding undo_entries
  undo_write l b b' [] a h = unfold write_entries in h
  undo_write l b b' ((k, e) ∷ cs) a h = elim (Bool-cases (apply tree b k e).1) [
    | inr d ↦ rw (write_stop b k e cs a.1 d) (
        ap (λ c. view c l) (undo_unwritten b' b ((k, e) ∷ cs) a)
        ∙ (rw (write_stop b k e cs a.1 d) at h)
        ∙ apply_failed e.operation b k e l d)
    | inl d ↦ elim (discrete (locus k e.value) l) [
      | yes q ↦
          let w = write-Untouched (locus k e.value) (apply tree b k e).0 cs a.0 in
          rw (write_ok b k e cs a.1 d) (
            ap (view _) (sym q)
            ∙ undo-Untouched (locus k e.value) (unapply tree b' k e) _ w.1
            ∙ applied_reverted e.operation b b' k e a.2 d
                (ap (view b') q ∙ (rw (write_ok b k e cs a.1 d) at h) ∙ ap (view _) (sym q) ∙ w.0)
            ∙ ap (view b) q)
      | no q ↦ rw (write_ok b k e cs a.1 d) (
          undo_write l (apply tree b k e).0 (unapply tree b' k e) cs
            (Apart-moved (locus k e.value) b _ cs (apply_other b k e) a.0 a.3)
            (unapply_other b' k e l q ∙ (rw (write_ok b k e cs a.1 d) at h))
          ∙ apply_other b k e l q)
    ]
  ]

module _ {T B K L X : Type 0} (tree : BdTree B K) (cells : Cells L X tree) (discrete : Discrete L)
    (w : IndexWrapper T K B) where
  after_stop : (w : IndexWrapper T K B) (o : Option ℕ) → after (stop_at tree w o) ≡ w
  after_stop w none = refl
  after_stop w (some v) = refl

  after-write_back : after (write_back tree w) ≡ record w {
    tree = (write_entries tree w.tree w.cache).0;
    cache = (write_entries tree w.tree w.cache).1;
  }
  unfolding write_back
  after-write_back = after_stop _ (write_entries tree w.tree w.cache).2

  -- If no two cached operations work on one cell of the tree, and each deletion names the value
  -- that the tree holds, `undo` after `writeBack` leaves every cell as it was, also when `writeBack`
  -- stopped at a conflict.
  pub undo-write_back :
      Apart tree cells discrete w.tree w.cache
      → (l : L) → cells.view (undo tree (after (write_back tree w))).tree l ≡ cells.view w.tree l
  unfolding undo
  undo-write_back a l =
      rw after-write_back (undo_write tree cells discrete l w.tree _ w.cache a refl)
