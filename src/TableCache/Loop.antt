-- ===== src/TableCache/Loop.antt =====
-- The loop over the indexes that ends `insert`, `update` and `remove`.
use telldb.Base.{ℕ, ◌≡◌, refl, sym, ap, ◌∙◌, List, [], ◌∷◌, none, some, arith}
use telldb.Errors.{Outcome, done, raise, Method, dangling}
use telldb.Index.{IndexWrapper}
use telldb.TableCache.State.{World}
use telldb.TableCache.Memory.{deref}
use telldb.TableCache.Ops.{with_indexes, for_indexes, each_index, index_or_throw, put_indexes}

module _ {T K B : Type 0} where
  -- The indexes in their order, until one throws.
  unfoldable pub change_each :
      Method (IndexWrapper T K B) (Unit {0}) → Method (List (IndexWrapper T K B)) (Unit {0})
  change_each f [] = done [] tt
  change_each f (i ∷ is) =
      let rest = change_each f is in
      elim (f i) [
        | raise j e ↦ raise (j ∷ is) e
        | done j u ↦ elim rest [ raise js e ↦ raise (j ∷ js) e | done js u ↦ done (j ∷ js) tt ]
      ]

module _ {T K B A : Type 0} (read : Method (World T K B) A)
    (f : A → Method (IndexWrapper T K B) (Unit {0})) (w : World T K B) where
  for_indexes_ok :
      (a : A) (is : List (IndexWrapper T K B))
      → read w ≡ done w a
      → for_indexes read f w is ≡ change_each (f a) is
  unfolding for_indexes change_each
  for_indexes_ok a [] h = refl
  for_indexes_ok a (i ∷ is) h =
      rw (h, for_indexes, for_indexes_ok a is h) (go (f a i) (change_each (f a) is))
    where
      go :
          (o : Outcome (IndexWrapper T K B) (Unit {0}))
          (x : Outcome (List (IndexWrapper T K B)) (Unit {0}))
          → index_or_throw is x o
            ≡ (elim o as (λ _. Outcome (List (IndexWrapper T K B)) (Unit {0})) [
              | raise j e ↦ raise (j ∷ is) e
              | done j u ↦ elim x as (λ _. Outcome (List (IndexWrapper T K B)) (Unit {0})) [
                | raise js e ↦ raise (j ∷ js) e
                | done js u ↦ done (j ∷ js) tt
              ]
            ])
      go (raise j e) x = refl
      go (done j u) (raise js e) = refl
      go (done j u) (done js v) = refl

  -- Where the tuples can be read, each index is changed by them.
  pub each_index_ok :
      (a : A)
      → read w ≡ done w a
      → each_index read f w ≡ put_indexes w (change_each (f a) w.table.indexes)
  unfolding each_index
  each_index_ok a h = ap (put_indexes w) (for_indexes_ok a w.table.indexes h)

  -- A tuple that is gone is noticed only if there is an index to read it.
  pub each_index_fault :
      (i : IndexWrapper T K B) (is : List (IndexWrapper T K B))
      → w.table.indexes ≡ i ∷ is
      → read w ≡ raise w dangling
      → each_index read f w ≡ raise w dangling
  unfolding each_index for_indexes
  each_index_fault i is e h =
      ap (λ x. put_indexes w (for_indexes read f w x)) e
      ∙ (rw (h, for_indexes) refl ∙ ap (λ x. raise (with_indexes w x) dangling) (sym e))

module _ {T K B : Type 0} (w : World T K B) (r : ℕ) where
  pub deref_ok : (t : T) → w.heap.cell r ≡ some t → deref r w ≡ done w t
  unfolding deref
  deref_ok t h = ground arith

  pub deref_fault : w.heap.cell r ≡ none → deref r w ≡ raise w dangling
  unfolding deref
  deref_fault h = ground arith
