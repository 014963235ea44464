-- ===== src/Transaction/Counters.antt =====
-- The global counters (src/Transaction.cpp): all transactions of a context share one `CounterImpl` for
-- each name. A `CounterImpl*` is an address in a heap.
use Prim.Native.String.{String, ◌++◌}
use telldb.Base.{ℕ, ◌+◌, List, ◌∷◌, none, some, lookup, erase}
use telldb.Errors.{Result, ok, err, Outcome, done, raise, out_of_range}
use telldb.Index.Registry.{IndexDescriptor, Response, find_name, emplace_name}
use telldb.RemoteCounter.{Counter, new_counter}
use telldb.Transaction.Tables.{Context, open_table, get_table}

-- `CounterImpl`, with the members of its `RemoteCounter`.
pub record CounterImpl (T : Type 0) : Type 0 where
  pub table : T
  pub counter_id : ℕ
  pub counter : Counter

abbrev pub global_counter_name : String → String
global_counter_name name = "__global_counter_" ++ name

module _ {T : Type 0} (table_id : T → ℕ) (table_name : T → String)
    (indexes_of : T → List (String × IndexDescriptor)) where
  -- The context with its `counters`, and the memory of the counters.
  pub record Counters : Type 0 where
    pub context : Context table_id table_name indexes_of
    pub counters : List (String × ℕ)
    pub objects : List (ℕ × CounterImpl T)
    pub next : ℕ

  -- `openTable(name).get()`
  unfoldable pub open_now :
      (String → Response T)
      → Result T
      → String
      → Context table_id table_name indexes_of
      → Outcome (Context table_id table_name indexes_of) ℕ
  unfolding open_table get_table
  open_now answers response name c =
      elim (open_table table_id table_name indexes_of answers response name c) [
        | raise x e ↦ raise x e
        | done x future ↦ get_table table_id table_name indexes_of answers future x
      ]

  -- `counters.emplace` of a new counter, which is deleted if the name has one by now.
  unfoldable pub share : String → T → Counters → Outcome Counters ℕ
  share name t s =
      let s' : Counters = record s {
        objects = (s.next, record { table = t; counter_id = 1; counter = new_counter }) ∷ s.objects;
        next = s.next + 1;
      } in
      elim (find_name name s.counters) [
        | none ↦ done (record s' { counters = emplace_name name s.next s.counters }) s.next
        | some p ↦ done (record s' { objects = erase s.next s'.objects }) p
      ]

  -- `getCounter`. Other fibers of the context run while it waits for the table: `meanwhile`.
  unfoldable pub get_counter :
      (String → Response T)
      → Result T
      → (Counters → Counters)
      → String
      → Counters
      → Outcome Counters ℕ
  unfolding open_now share
  get_counter answers response meanwhile name s = elim (find_name name s.counters) [
    | some p ↦ done s p
    | none ↦ elim (open_now answers response (global_counter_name name) s.context) [
      | raise c e ↦ raise (meanwhile (record s { context = c })) e
      | done c id ↦
          let w = meanwhile (record s { context = c }) in
          elim (lookup id w.context.tables) [
            | none ↦ raise w out_of_range
            | some t ↦ share name t w
          ]
    ]
  ]

  -- `createCounter`: `created` is the answer to the creation of the table.
  unfoldable pub create_counter :
      Result T
      → (String → Response T)
      → Result T
      → (Counters → Counters)
      → String
      → Counters
      → Outcome Counters ℕ
  unfolding get_counter
  create_counter created answers response meanwhile name s = elim created [
    | err e ↦ raise s e
    | ok t ↦ get_counter answers response meanwhile name s
  ]
