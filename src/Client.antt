-- ===== src/Client.antt =====
-- `ClientTable::init` (telldb/TellDB.hpp, src/TellDB.cpp): a client enters itself into the table of
-- clients under a random number and creates the table of its transactions. The store and the printing
-- of a number are parameters; the numbers are drawn from a list, which is the fuel of the second loop.
pub mod Register
use Prim.Native.String.{String, ◌++◌}
use telldb.Base.{ℕ, zero, suc, List, [], ◌∷◌, Option, none, some, Bool, true, false}
use telldb.Errors.{Result, ok, err, Error, Outcome, done, raise, system_error}

-- The requests of `init`: `insert` says whether it had no error.
pub record ClientStore (S T : Type 0) : Type 0 where
  pub get_table : S → String → S × Result T
  pub create_table : S → String → S × Result T
  pub insert : S → T → ℕ → S × Bool

pub record ClientTable (T : Type 0) : Type 0 where
  pub client_id : ℕ
  pub clients_table : T
  pub transactions_table : T

module _ {S T : Type 0} (store : ClientStore S T) (show : ℕ → String) where
  -- The first loop; `none` if the fuel is used up. Only a `system_error` is caught.
  unfoldable pub open_clients : ℕ → S → Outcome S (Option T)
  open_clients zero s = done s none
  open_clients (suc n) s =
      let got = store.get_table s "__clients" in
      let made = store.create_table got.0 "__clients" in
      elim got.1 [
        | ok t ↦ done got.0 (some t)
        | err e ↦ elim made.1 [
          | ok t ↦ done made.0 (some t)
          | err (system_error code) ↦ open_clients n made.0
          | err e ↦ raise made.0 e
        ]
      ]

  -- The second loop: the number under which the client was entered; `none` if all were taken.
  unfoldable pub register : T → List ℕ → S → S × Option ℕ
  register t [] s = (s, none)
  register t (id ∷ ids) s =
      let entered = store.insert s t id in
      elim entered.1 [ true ↦ (entered.0, some id) | false ↦ register t ids entered.0 ]

  abbrev pub transactions_name : ℕ → String
  transactions_name id = "__transactions_" ++ show id

  unfoldable pub create_transactions : T → S × Option ℕ → Outcome S (Option (ClientTable T))
  create_transactions t (s, none) = done s none
  create_transactions t (s, some id) =
      let made = store.create_table s (transactions_name id) in
      elim made.1 [
        | err e ↦ raise made.0 e
        | ok u ↦
            done made.0
              (some (record { client_id = id; clients_table = t; transactions_table = u }))
      ]

  unfoldable pub init : ℕ → List ℕ → S → Outcome S (Option (ClientTable T))
  unfolding open_clients register create_transactions
  init fuel draws s = elim (open_clients fuel s) [
    | raise x e ↦ raise x e
    | done x none ↦ done x none
    | done x (some t) ↦ create_transactions t (register t draws x)
  ]
