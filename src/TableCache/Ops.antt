-- ===== src/TableCache/Ops.antt =====
-- `TableCache::get`, `insert`, `update`, `remove` and `addTuple` (src/TableCache.cpp).
use telldb.Base.{
  ℕ, List, [], ◌∷◌, none, some, Bool, false, lookup, emplace, assign, erase, if◌then◌else◌,
}
use telldb.Errors.{
  Outcome, done, raise, Method, ◌>>=◌, ◌>>◌, tuple_exists, tuple_does_not_exist, conflict, dangling,
}
use telldb.Index.{KeyOrder, IndexWrapper, index_insert, index_update, index_remove}
use telldb.TableCache.State.{Operation, Change, World, Future, ready, remote}
use telldb.TableCache.Memory.{with_new, deref, new_tuple, delete_tuple}

module _ {T K B : Type 0} where
  abbrev pub with_changes : World T K B → List (ℕ × Change) → World T K B
  with_changes w cs = record w { table = record w.table { changes = cs } }

  abbrev pub with_indexes : World T K B → List (IndexWrapper T K B) → World T K B
  with_indexes w is = record w { table = record w.table { indexes = is } }

  unfoldable pub set_changes :
      (List (ℕ × Change) → List (ℕ × Change)) → Method (World T K B) (Unit {0})
  set_changes f w = done (with_changes w (f w.table.changes)) tt

  -- `for (auto& idx : mIndexes)`: what the body reads is read again for each index, and an exception
  -- ends the loop.
  abbrev pub behind_index :
      IndexWrapper T K B
      → Outcome (List (IndexWrapper T K B)) (Unit {0})
      → Outcome (List (IndexWrapper T K B)) (Unit {0})
  behind_index i (done is u) = done (i ∷ is) tt
  behind_index i (raise is e) = raise (i ∷ is) e

  abbrev pub index_or_throw :
      List (IndexWrapper T K B)
      → Outcome (List (IndexWrapper T K B)) (Unit {0})
      → Outcome (IndexWrapper T K B) (Unit {0})
      → Outcome (List (IndexWrapper T K B)) (Unit {0})
  index_or_throw is rest (done i u) = behind_index i rest
  index_or_throw is rest (raise i e) = raise (i ∷ is) e

  unfoldable pub for_indexes :
      {A : Type 0}
      → Method (World T K B) A
      → (A → Method (IndexWrapper T K B) (Unit {0}))
      → World T K B
      → Method (List (IndexWrapper T K B)) (Unit {0})
  for_indexes read f w [] = done [] tt
  for_indexes read f w (i ∷ is) =
      let rest = for_indexes read f w is in
      elim (read w) [ raise _ e ↦ raise (i ∷ is) e | done _ a ↦ index_or_throw is rest (f a i) ]

  -- The world with the indexes that a loop leaves, and what it throws.
  abbrev pub put_indexes :
      World T K B
      → Outcome (List (IndexWrapper T K B)) (Unit {0})
      → Outcome (World T K B) (Unit {0})
  put_indexes w (done is u) = done (with_indexes w is) tt
  put_indexes w (raise is e) = raise (with_indexes w is) e

  unfoldable pub each_index :
      {A : Type 0}
      → Method (World T K B) A
      → (A → Method (IndexWrapper T K B) (Unit {0}))
      → Method (World T K B) (Unit {0})
  unfolding for_indexes
  each_index read f w = put_indexes w (for_indexes read f w w.table.indexes)

  unfoldable pub get_changed : ℕ → Change → Method (World T K B) Future
  get_changed key c w = elim c.operation [
    | Operation.deletion ↦ raise w (tuple_exists key)
    | _ ↦ elim c.tuple [ some p ↦ done w (ready key p) | none ↦ raise w dangling ]
  ]

  unfoldable pub get_cached : ℕ → Method (World T K B) Future
  get_cached key w = elim (lookup key w.table.cache) [
    | some e ↦ done w (ready key e.0)
    | none ↦ done w (remote key)
  ]

  unfoldable pub get : ℕ → Method (World T K B) Future
  unfolding get_changed get_cached
  get key w = elim (lookup key w.table.changes) [
    | some c ↦ get_changed key c w
    | none ↦ get_cached key w
  ]

  -- `addTuple`, when the answer `t` from storage has come: an entry that is there stays.
  unfoldable pub add_tuple : ℕ → T → Bool → Method (World T K B) ℕ
  add_tuple key t newest w =
      let p = w.heap.next in
      let w' = with_new w t in
      done (record w' { table = record w'.table { cache = emplace key (p, newest) w.table.cache } })
        p

  -- The test on a cached tuple that `update` and `remove` make.
  unfoldable pub check_newest : ℕ → Method (World T K B) (Unit {0})
  check_newest key w = elim (lookup key w.table.cache) [
    | some e ↦ if e.1 then done w tt else raise w (conflict key)
    | none ↦ done w tt
  ]

  unfoldable pub insert_new : ℕ → ℕ → Method (World T K B) (Unit {0})
  unfolding new_tuple set_changes
  insert_new key r w = elim (lookup key w.table.cache) [
    | some e ↦ raise w (tuple_exists key)
    | none ↦
        (do
          p ← new_tuple r
          set_changes (
              emplace key
                (record { tuple = some p; operation = Operation.insertion; written = false })))
          w
  ]

  unfoldable pub insert_over : ℕ → ℕ → Change → Method (World T K B) (Unit {0})
  unfolding new_tuple set_changes
  insert_over key r c w = elim c.operation [
    | Operation.deletion ↦
        (do
          p ← new_tuple r
          set_changes (assign key (record c { tuple = some p; operation = Operation.update })))
          w
    | _ ↦ raise w (tuple_exists key)
  ]

  unfoldable pub insert_change : ℕ → ℕ → Method (World T K B) (Unit {0})
  unfolding insert_new insert_over
  insert_change key r w = elim (lookup key w.table.changes) [
    | none ↦ insert_new key r w
    | some c ↦ insert_over key r c w
  ]

  unfoldable pub update_over : ℕ → ℕ → Change → Method (World T K B) (Unit {0})
  unfolding new_tuple delete_tuple set_changes
  update_over key to c w = elim c.operation [
    | Operation.deletion ↦ raise w (tuple_does_not_exist key)
    | _ ↦
        (do
          delete_tuple c.tuple
          p ← new_tuple to
          set_changes (assign key (record c { tuple = some p })))
          w
  ]

  unfoldable pub update_new : ℕ → ℕ → Method (World T K B) (Unit {0})
  unfolding check_newest new_tuple set_changes
  update_new key to = do
    check_newest key
    p ← new_tuple to
    set_changes
        (emplace key (record { tuple = some p; operation = Operation.update; written = false }))

  unfoldable pub update_change : ℕ → ℕ → Method (World T K B) (Unit {0})
  unfolding update_over update_new
  update_change key to w = elim (lookup key w.table.changes) [
    | some c ↦ update_over key to c w
    | none ↦ update_new key to w
  ]

  unfoldable pub remove_over : ℕ → Change → Method (World T K B) (Unit {0})
  unfolding delete_tuple set_changes
  remove_over key c w = elim c.operation [
    | Operation.deletion ↦ raise w (tuple_does_not_exist key)
    | Operation.insertion ↦ (do delete_tuple c.tuple; set_changes (erase key)) w
    | Operation.update ↦
        (do
          delete_tuple c.tuple
          set_changes (assign key (record c { tuple = none; operation = Operation.deletion })))
          w
  ]

  unfoldable pub remove_new : ℕ → Method (World T K B) (Unit {0})
  unfolding check_newest set_changes
  remove_new key = do
    check_newest key
    set_changes
        (emplace key (record { tuple = none; operation = Operation.deletion; written = false }))

  unfoldable pub remove_change : ℕ → Method (World T K B) (Unit {0})
  unfolding remove_over remove_new
  remove_change key w = elim (lookup key w.table.changes) [
    | some c ↦ remove_over key c w
    | none ↦ remove_new key w
  ]

module _ {T K B : Type 0} (order : KeyOrder K) where
  unfoldable pub insert : ℕ → ℕ → Method (World T K B) (Unit {0})
  unfolding insert_change each_index deref
  insert key tuple = do insert_change key tuple; each_index (deref tuple) (index_insert order key)

  unfoldable pub update : ℕ → ℕ → ℕ → Method (World T K B) (Unit {0})
  unfolding update_change each_index deref
  update key from to = do
    update_change key to
    each_index (do a ← deref from; b ← deref to; λ w. done w (a, b))
        (λ (ts : T × T). index_update order key ts.0 ts.1)

  unfoldable pub remove : ℕ → ℕ → Method (World T K B) (Unit {0})
  unfolding remove_change each_index deref
  remove key tuple = do remove_change key; each_index (deref tuple) (index_remove order key)
