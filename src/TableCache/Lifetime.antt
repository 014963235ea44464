-- ===== src/TableCache/Lifetime.antt =====
-- The constructor and the destructor of `TableCache` (src/TableCache.cpp), and of its tuples.
use Prim.Native.String.{String}
use telldb.Base.{
  fun_ext, ℕ, ◌+◌, ◌≡◌, ◌≢◌, refl, sym, ap, ◌∙◌, List, [], ◌∷◌, ◌++◌, none, some, Bool, All,
  AllDifferent, arith, Option-cases, inl, inr,
}
use telldb.Errors.{Outcome, done, raise, Method, ◌>>=◌, ◌>>◌}
use telldb.Index.{IndexWrapper}
use telldb.Index.Registry.{emplace_name}
use telldb.TableCache.State.{Operation, Change, World, TableCache}
use telldb.TableCache.Memory.{delete_tuple, without}

-- `mSchema`: the fields of the table by their names, in order.
unfoldable pub number_fields : ℕ → List String → List (String × ℕ) → List (String × ℕ)
number_fields id [] m = m
number_fields id (name ∷ names) m = number_fields (id + 1) names (emplace_name name id m)

unfoldable pub schema_of : List String → List String → List (String × ℕ)
unfolding number_fields
schema_of fixed variable = number_fields 0 (fixed ++ variable) []

abbrev pub new_table : {T K B : Type 0} → List (IndexWrapper T K B) → TableCache T K B
new_table indexes = record { cache = []; changes = []; indexes = indexes }

-- The tuples that the table owns.
abbrev pub tuple_of : Change → List ℕ
tuple_of c = elim c.operation [
  | Operation.deletion ↦ []
  | _ ↦ elim c.tuple [ none ↦ [] | some p ↦ p ∷ [] ]
]

abbrev pub cached_tuples : List (ℕ × (ℕ × Bool)) → List ℕ
cached_tuples [] = []
cached_tuples ((k, e) ∷ m) = e.0 ∷ cached_tuples m

abbrev pub changed_tuples : List (ℕ × Change) → List ℕ
changed_tuples [] = []
changed_tuples ((k, c) ∷ cs) = tuple_of c ++ changed_tuples cs

All-flip : (p : ℕ) (ps : List ℕ) → All (λ q. p ≢ q) ps → All (λ q. q ≢ p) ps
All-flip p [] a = tt
All-flip p (q ∷ qs) a = (λ e. a.0 (sym e), All-flip p qs a.1)

module _ {T K B : Type 0} where
  -- The two loops of the destructor.
  unfoldable pub delete_cached : List (ℕ × (ℕ × Bool)) → Method (World T K B) (Unit {0})
  unfolding delete_tuple
  delete_cached [] = λ w. done w tt
  delete_cached ((k, e) ∷ m) = let rest = delete_cached m in do delete_tuple (some e.0); rest

  unfoldable pub delete_changed : List (ℕ × Change) → Method (World T K B) (Unit {0})
  unfolding delete_tuple
  delete_changed [] = λ w. done w tt
  delete_changed ((k, c) ∷ cs) =
      let rest = delete_changed cs in
      elim c.operation [ Operation.deletion ↦ rest | _ ↦ (do delete_tuple c.tuple; rest) ]

  unfoldable pub destroy_table : Method (World T K B) (Unit {0})
  unfolding delete_cached delete_changed
  destroy_table w = (do delete_cached w.table.cache; delete_changed w.table.changes) w

  unfoldable pub delete_all : List ℕ → Method (World T K B) (Unit {0})
  delete_all [] = λ w. done w tt
  delete_all (p ∷ ps) = let rest = delete_all ps in do delete_tuple (some p); rest

  -- Every tuple of the list is deleted, and no other.
  abbrev pub Freed : List ℕ → World T K B → Outcome (World T K B) (Unit {0}) → Type 0
  Freed ps w o =
      (x : World T K B) × (o ≡ done x tt)
      × All (λ p. x.heap.cell p ≡ none) ps
      × ((q : ℕ) → All (λ p. p ≢ q) ps → x.heap.cell q ≡ w.heap.cell q)

  Live-without :
      (w : World T K B) (p : ℕ) (ps : List ℕ)
      → All (λ q. p ≢ q) ps
      → All (λ q. (t : T) × (w.heap.cell q ≡ some t)) ps
      → All (λ q. (t : T) × ((without w p).heap.cell q ≡ some t)) ps
  Live-without w p [] d a = tt
  Live-without w p (q ∷ qs) (ne, d) ((t, l), a) = ((t, ground arith), Live-without w p qs d a)

  delete_live :
      (p : ℕ) (t : T) (w : World T K B)
      → w.heap.cell p ≡ some t
      → delete_tuple (some p) w ≡ done (without w p) tt
  unfolding delete_tuple
  delete_live p t w l = rw (l, delete_tuple) refl

  delete_next :
      (p : ℕ) (t : T) (ps : List ℕ) (w : World T K B)
      → w.heap.cell p ≡ some t
      → delete_all (p ∷ ps) w ≡ delete_all ps (without w p)
  unfolding delete_all
  delete_next p t ps w l =
      ap
        (λ (o : Outcome (World T K B) (Unit {0})).
          elim o as (λ _. Outcome (World T K B) (Unit {0})) [
            | done s a ↦ delete_all ps s
            | raise s e ↦ raise s e
          ])
        (delete_live p t w l)

  pub delete_all-Freed :
      (ps : List ℕ) (w : World T K B)
      → AllDifferent ps
      → All (λ p. (t : T) × (w.heap.cell p ≡ some t)) ps
      → Freed ps w (delete_all ps w)
  unfolding delete_all
  delete_all-Freed [] w d a = (w, refl, tt, λ q h. refl)
  delete_all-Freed (p ∷ ps) w (ne, d) ((t, l), a) =
      let (x, e, f, g) = delete_all-Freed ps (without w p) d (Live-without w p ps ne a) in
      (
        x,
        delete_next p t ps w l ∙ e,
        (g p (All-flip p ps ne) ∙ ground arith, f),
        λ q h. let k = h.0 in g q h.1 ∙ ground (arith, k),
      )

  -- The loops delete the tuples that the table owns.
  delete_changed-eq :
      (cs : List (ℕ × Change)) (w : World T K B)
      → delete_changed cs w ≡ delete_all (changed_tuples cs) w
  unfolding delete_changed delete_all delete_tuple
  delete_changed-eq [] w = refl
  delete_changed-eq ((k, c) ∷ cs) w = go c.operation refl (fun_ext (delete_changed-eq cs))
    where
      go :
          (op : Operation)
          → c.operation ≡ op
          → delete_changed cs ≡ delete_all (changed_tuples cs)
          → delete_changed ((k, c) ∷ cs) w ≡ delete_all (changed_tuples ((k, c) ∷ cs)) w
      go Operation.deletion e ih = rw (e, delete_changed) (ap (λ f. f w) ih)
      go Operation.insertion e ih = elim (Option-cases c.tuple) [
        | inl q ↦ rw (e, q, delete_changed, delete_tuple) (ap (λ f. f w) ih)
        | inr (p, q) ↦
            rw (e, q, delete_changed, delete_all) (ap (λ f. (delete_tuple (some p) >> f) w) ih)
      ]
      go Operation.update e ih = elim (Option-cases c.tuple) [
        | inl q ↦ rw (e, q, delete_changed, delete_tuple) (ap (λ f. f w) ih)
        | inr (p, q) ↦
            rw (e, q, delete_changed, delete_all) (ap (λ f. (delete_tuple (some p) >> f) w) ih)
      ]

  delete_cached-eq :
      (m : List (ℕ × (ℕ × Bool))) (w : World T K B)
      → delete_cached m w ≡ delete_all (cached_tuples m) w
  unfolding delete_cached delete_all
  delete_cached-eq [] w = refl
  delete_cached-eq ((k, e) ∷ m) w =
      ap (λ f. (delete_tuple (some e.0) >> f) w) (fun_ext (delete_cached-eq m))

  delete_all-append :
      (ps qs : List ℕ) (w : World T K B)
      → (delete_all ps >> delete_all qs) w ≡ delete_all (ps ++ qs) w
  unfolding delete_all
  delete_all-append [] qs w = refl
  delete_all-append (p ∷ ps) qs w = go (delete_tuple (some p) w) (fun_ext (delete_all-append ps qs))
    where
      go :
          (o : Outcome (World T K B) (Unit {0}))
          → (delete_all ps >> delete_all qs) ≡ delete_all (ps ++ qs)
          → ((λ v. o) >>= (λ _. delete_all ps) >>= (λ _. delete_all qs)) w
            ≡ ((λ v. o) >>= (λ _. delete_all (ps ++ qs))) w
      go (done v u) ih = ap (λ f. f v) ih
      go (raise v e) ih = refl

  -- The tuples of the cache and those of the changes.
  abbrev pub own_tuples : World T K B → List ℕ
  own_tuples w = cached_tuples w.table.cache ++ changed_tuples w.table.changes

  pub destroy_table-eq : (w : World T K B) → destroy_table w ≡ delete_all (own_tuples w) w
  unfolding destroy_table
  destroy_table-eq w =
      ap (λ f. (f >> delete_changed w.table.changes) w) (fun_ext (delete_cached-eq w.table.cache))
      ∙ ap (λ f. (delete_all (cached_tuples w.table.cache) >> f) w)
          (fun_ext (delete_changed-eq w.table.changes))
      ∙ delete_all-append (cached_tuples w.table.cache) (changed_tuples w.table.changes) w
