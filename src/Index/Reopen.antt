-- ===== src/Index/Reopen.antt =====
-- A table that was opened or created is opened again from the registry, with the same indexes.

use Prim.Native.String.{String}
use telldb.Base.{
  ℕ, ◌≡◌, refl, sym, ap, subst, ◌∙◌, List, [], ◌∷◌, map, reverse, Option, some, none, Bool, true,
  false, lookup, emplace, lookup-emplace, ==_refl, Bool-cases, inl, inr,
}
use telldb.Errors.{Error, Result, ok, err, done, raise}
use telldb.Index.Registry.{
  same_name, find_name, emplace_name, IndexDescriptor, Response, IndexTables, Opened, Registry,
  table_data, wrapper, reopen, entry, add_index, open_tables, create_tables, open_each, request,
  open_indexes, create_each, create_indexes,
}

-- `emplace` of an entry and of what is made of it.
map-emplace_name :
    {V W : Type 0} (f : String × V → W) (k : String) (v : V) (w : W) (m : List (String × V))
    → (find_name k m ≡ none → f (k, v) ≡ w)
    → map (λ e. (e.0, f e)) (emplace_name k v m) ≡ emplace_name k w (map (λ e. (e.0, f e)) m)
map-emplace_name f k v w [] h = ap (λ x. (k, x) ∷ []) (h refl)
map-emplace_name f k v w ((j, u) ∷ m) h = elim (Bool-cases (same_name j k)) [
  | inl e ↦ rw e refl
  | inr e ↦ rw e (ap (λ r. (j, f (j, u)) ∷ r) (map-emplace_name f k v w m (λ q. h (rw e q))))
]

ok_injective : {A : Type 0} {a b : A} → ok a ≡ ok b → a ≡ b
ok_injective e = cc

err_ok : {A : Type 0} {a : A} {e : Error} → ¬ (err e ≡ ok a)
err_ok h = cc

done_injective : {S A : Type 0} {s t : S} {a b : A} → done s a ≡ done t b → (s ≡ t) × (a ≡ b)
done_injective e = (cc, cc)

raise_done : {S A : Type 0} {s t : S} {e : Error} {a : A} → ¬ (raise s e ≡ done t a)
raise_done h = cc

module _ {T : Type 0} (table_id : T → ℕ) where
  -- The two maps that are built agree, up to the flag `init`.
  abbrev Agree : Bool → List (String × IndexTables T) × List (String × Opened T) → Type 0
  Agree init maps = maps.1 ≡ map (λ e. (e.0, wrapper table_id init e.0 e.1.fields e.1)) maps.0

  add_index-Agree :
      (init : Bool) (name : String) (d : IndexDescriptor) (p n : T)
      (maps : List (String × IndexTables T) × List (String × Opened T))
      → Agree init maps
      → Agree init (add_index table_id init name d p n maps)
  add_index-Agree init name d p n maps h =
      let t : IndexTables T = record {
        fields = d;
        ptr_table = table_data table_id p;
        node_table = table_data table_id n;
      } in
      ap (emplace_name name (wrapper table_id init name d (entry table_id name t maps.0))) h
      ∙ sym (
          map-emplace_name (λ e. wrapper table_id init e.0 e.1.fields e.1) name t
            (wrapper table_id init name d (entry table_id name t maps.0)) maps.0
            (λ q. rw (q, entry) refl))

  open_each-Agree :
      (rs : List (String × IndexDescriptor × Response T × Response T))
      (maps made : List (String × IndexTables T) × List (String × Opened T))
      → Agree false maps
      → open_each table_id rs maps ≡ ok made
      → Agree false made
  unfolding open_each
  open_each-Agree [] maps made h e = subst (Agree false) (ok_injective e) h
  open_each-Agree ((name, d, node, ptr) ∷ rs) maps made h e =
      go (open_tables table_id node ptr) (λ m. open_each-Agree rs m made) e
    where
      go :
          (x : Result (T × T))
          → ((m : List (String × IndexTables T) × List (String × Opened T))
              → Agree false m
              → open_each table_id rs m ≡ ok made
              → Agree false made)
          → elim x [
            | err e ↦ err e
            | ok t ↦ open_each table_id rs (add_index table_id false name d t.0 t.1 maps)
          ]
            ≡ ok made
          → Agree false made
      go (err f) ih e = absurd (err_ok e)
      go (ok t) ih e = ih _ (add_index-Agree false name d t.0 t.1 maps h) e

  create_each-Agree :
      (create_table : String → Result T) (indexes : List (String × IndexDescriptor))
      (maps made : List (String × IndexTables T) × List (String × Opened T))
      → Agree true maps
      → create_each table_id create_table indexes maps ≡ ok made
      → Agree true made
  unfolding create_each
  create_each-Agree create_table [] maps made h e = subst (Agree true) (ok_injective e) h
  create_each-Agree create_table ((name, d) ∷ indexes) maps made h e =
      go (create_tables table_id create_table name)
        (λ m. create_each-Agree create_table indexes m made) e
    where
      go :
          (x : Result (T × T))
          → ((m : List (String × IndexTables T) × List (String × Opened T))
              → Agree true m
              → create_each table_id create_table indexes m ≡ ok made
              → Agree true made)
          → elim x [
            | err e ↦ err e
            | ok t ↦
                create_each table_id create_table indexes
                  (add_index table_id true name d t.0 t.1 maps)
          ]
            ≡ ok made
          → Agree true made
      go (err f) ih e = absurd (err_ok e)
      go (ok t) ih e = ih _ (add_index-Agree true name d t.0 t.1 maps h) e

  -- The index without the flag that its tree has to be initialized.
  abbrev pub initialized : String × Opened T → String × Opened T
  initialized e = (e.0, record e.1 { init = false })

  known :
      (get_table : String → Response T) (id : ℕ) (indexes : List (String × IndexDescriptor))
      (registry : Registry table_id) (index_map : List (String × IndexTables T))
      → lookup id registry ≡ some index_map
      → open_indexes table_id get_table id indexes registry
        ≡ done registry (map (reopen table_id) index_map)
  unfolding open_indexes
  known get_table id indexes registry index_map e = rw (e, open_indexes) refl

  stored :
      (id : ℕ) (registry : Registry table_id) (index_map : List (String × IndexTables T))
      → lookup id registry ≡ none
      → lookup id (emplace id index_map registry) ≡ some index_map
  stored id registry index_map e = lookup-emplace id id index_map registry e ∙ rw (==_refl id) refl

  -- A table whose indexes were opened without an error is opened again, in any later call and
  -- without a request to the store, with the same indexes, and the registry stays as it is.
  pub open_indexes-again :
      (get_table get_table' : String → Response T) (id : ℕ)
      (indexes indexes' : List (String × IndexDescriptor)) (registry registry' : Registry table_id)
      (res : List (String × Opened T))
      → open_indexes table_id get_table id indexes registry ≡ done registry' res
      → open_indexes table_id get_table' id indexes' registry' ≡ done registry' res
  unfolding open_indexes
  open_indexes-again get_table get_table' id indexes indexes' registry registry' res e =
      go (lookup id registry) refl e
    where
      loaded :
          (x : Result (List (String × IndexTables T) × List (String × Opened T)))
          → open_each table_id (reverse (map (request table_id get_table) indexes)) ([], []) ≡ x
          → lookup id registry ≡ none
          → elim x [ err f ↦ raise registry f | ok maps ↦ done (emplace id maps.0 registry) maps.1 ]
            ≡ done registry' res
          → open_indexes table_id get_table' id indexes' registry' ≡ done registry' res
      loaded (err f) k l e = absurd (raise_done e)
      loaded (ok maps) k l e =
          let (a, b) = done_injective e in
          let agree =
            open_each-Agree (reverse (map (request table_id get_table) indexes)) ([], []) maps refl
              k in
          known get_table' id indexes' registry' maps.0
            (ap (lookup id) (sym a) ∙ stored id registry maps.0 l)
          ∙ ap (done registry') (sym agree ∙ b)

      go :
          (o : Option (List (String × IndexTables T)))
          → lookup id registry ≡ o
          → elim o [
            | some index_map ↦ done registry (map (reopen table_id) index_map)
            | none ↦
                elim (open_each table_id
                  (reverse (map (request table_id get_table) indexes))
                  ([], [])) [
                    | err f ↦ raise registry f
                    | ok maps ↦ done (emplace id maps.0 registry) maps.1
                  ]
          ]
            ≡ done registry' res
          → open_indexes table_id get_table' id indexes' registry' ≡ done registry' res
      go (some index_map) l e =
          let (a, b) = done_injective e in
          known get_table' id indexes' registry' index_map (ap (lookup id) (sym a) ∙ l)
          ∙ ap (done registry') b
      go none l e =
          loaded (open_each table_id (reverse (map (request table_id get_table) indexes)) ([], []))
            refl l e

  -- When the indexes of a table that was not opened before have been created without an error, the
  -- table is opened, without a request to the store, with the same indexes, whose trees are not
  -- initialized again.
  pub open_indexes-create :
      (create_table : String → Result T) (get_table : String → Response T) (id : ℕ)
      (indexes indexes' : List (String × IndexDescriptor)) (registry registry' : Registry table_id)
      (res : List (String × Opened T))
      → lookup id registry ≡ none
      → create_indexes table_id create_table id indexes registry ≡ done registry' res
      → open_indexes table_id get_table id indexes' registry' ≡ done registry' (map initialized res)
  unfolding create_indexes
  open_indexes-create create_table get_table id indexes indexes' registry registry' res l e =
      go (create_each table_id create_table indexes ([], [])) refl e
    where
      closed :
          (m : List (String × IndexTables T))
          → map (reopen table_id) m
            ≡ map initialized (map (λ e. (e.0, wrapper table_id true e.0 e.1.fields e.1)) m)
      closed [] = refl
      closed (x ∷ m) = ap (λ r. (x.0, wrapper table_id false x.0 x.1.fields x.1) ∷ r) (closed m)

      go :
          (x : Result (List (String × IndexTables T) × List (String × Opened T)))
          → create_each table_id create_table indexes ([], []) ≡ x
          → elim x [ err f ↦ raise registry f | ok maps ↦ done (emplace id maps.0 registry) maps.1 ]
            ≡ done registry' res
          → open_indexes table_id get_table id indexes' registry'
            ≡ done registry' (map initialized res)
      go (err f) k e = absurd (raise_done e)
      go (ok maps) k e =
          let (a, b) = done_injective e in
          let agree = create_each-Agree create_table indexes ([], []) maps refl k in
          known get_table id indexes' registry' maps.0
            (ap (lookup id) (sym a) ∙ stored id registry maps.0 l)
          ∙ ap (done registry') (closed maps.0 ∙ ap (map initialized) (sym agree ∙ b))
