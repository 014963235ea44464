-- ===== src/Index/WriteBack.antt =====
-- `IndexWrapper::writeBack` and `undo` (src/Indexes.cpp).
use telldb.Base.{ℕ, [], ◌∷◌, Option, none, some, Bool, true, if◌then◌else◌}
use telldb.Errors.{Outcome, done, raise, index_conflict}
use telldb.Index.{insertion, deletion, CacheEntry, Cache, IndexWrapper}
use telldb.Index.Tree.{BdTree}

module _ {B K : Type 0} (tree : BdTree B K) where
  abbrev pub apply : B → K → CacheEntry → B × Bool
  apply b k e = elim e.operation [
    | insertion ↦ tree.insert b k e.value
    | deletion ↦ tree.erase b k e.value
  ]

  abbrev pub unapply : B → K → CacheEntry → B
  unapply b k e = elim e.operation [
    | insertion ↦ tree.revert_insert b k e.value
    | deletion ↦ tree.revert_erase b k e.value
  ]

  -- The loop of `writeBack`: the tree, the entries with their flags, and the value of the entry
  -- at which it stopped.
  unfoldable pub write_entries : B → Cache K → B × Cache K × Option ℕ
  write_entries b [] = (b, [], none)
  write_entries b ((k, e) ∷ cs) =
      let did = apply b k e in
      let rest = write_entries (if e.written then b else did.0) cs in
      if e.written
      then (rest.0, (k, e) ∷ rest.1, rest.2)
      else if did.1
      then (rest.0, (k, record e { written = true }) ∷ rest.1, rest.2)
      else (did.0, (k, e) ∷ cs, some e.value)

  -- The loop of `undo`, in the order of the entries.
  unfoldable pub undo_entries : B → Cache K → B
  undo_entries b [] = b
  undo_entries b ((k, e) ∷ cs) = undo_entries (if e.written then unapply b k e else b) cs

module _ {T K B : Type 0} (tree : BdTree B K) where
  -- `throw IndexConflict(std::get<1>(op.second), mName)`
  abbrev pub stop_at : IndexWrapper T K B → Option ℕ → Outcome (IndexWrapper T K B) (Unit {0})
  stop_at w none = done w tt
  stop_at w (some v) = raise w (index_conflict v w.name)

  unfoldable pub write_back : IndexWrapper T K B → Outcome (IndexWrapper T K B) (Unit {0})
  unfolding write_entries
  write_back w =
      let (b, cs, stop) = write_entries tree w.tree w.cache in
      let w' : IndexWrapper T K B = record w { tree = b; cache = cs } in stop_at w' stop

  unfoldable pub undo : IndexWrapper T K B → IndexWrapper T K B
  unfolding undo_entries
  undo w = record w { tree = undo_entries tree w.tree w.cache }
