-- ===== src/TableCache/Memory.antt =====
-- Creation, destruction and reading of tuples (`new (&mPool) Tuple(tuple)`, `delete`, `const Tuple&`).
use telldb.Base.{ℕ, ◌+◌, Option, none, some, ◌==◌, if◌then◌else◌}
use telldb.Errors.{done, raise, Method, ◌>>=◌, dangling}
use telldb.TableCache.State.{World}

module _ {T K B : Type 0} where
  -- Reading through a reference.
  unfoldable pub deref : ℕ → Method (World T K B) T
  deref p w = elim (w.heap.cell p) [ none ↦ raise w dangling | some t ↦ done w t ]

  abbrev pub with_new : World T K B → T → World T K B
  with_new w t = record w {
    heap = record {
      cell = λ p. if w.heap.next == p then some t else w.heap.cell p;
      next = w.heap.next + 1;
    };
  }

  -- `new (&mPool) Tuple(tuple)`: a copy of the tuple that the reference names.
  unfoldable pub new_tuple : ℕ → Method (World T K B) ℕ
  unfolding deref
  new_tuple r = do t ← deref r; λ w. done (with_new w t) w.heap.next

  abbrev pub without : World T K B → ℕ → World T K B
  without w p = record w {
    heap = record w.heap { cell = λ q. if p == q then none else w.heap.cell q };
  }

  -- `delete`: nothing happens to the null pointer.
  unfoldable pub delete_tuple : Option ℕ → Method (World T K B) (Unit {0})
  delete_tuple none w = done w tt
  delete_tuple (some p) w = elim (w.heap.cell p) [
    | none ↦ raise w dangling
    | some t ↦ done (without w p) tt
  ]
