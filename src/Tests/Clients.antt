-- ===== src/Tests/Clients.antt =====
-- Two clients that register one after the other, and a counter.
use Prim.Native.String.{String}
use telldb.Base.{
  ℕ, ◌≡◌, ◌≢◌, refl, [], ◌∷◌, none, Bool, true, false, ◌==◌, ◌||◌, ◌&&◌, if◌then◌else◌, lookup,
  arith,
}
use telldb.Errors.{ok, err, system_error, out_of_range}
use telldb.Index.Registry.{same_name}
use telldb.Client.{ClientStore, ClientTable, init}
use telldb.Client.Register.{ClientLaws, init-Unique}
use telldb.Transaction.Counters.{Counters, get_counter, create_counter}
use telldb.Transaction.Shared.{IsSound, Shares, counters-Shares}
use telldb.Tests.Contexts.{table_id, table_name, one_name}

-- The numbers that are taken, and whether the table of clients is there.
abbrev State : Type 0
State = (ℕ → Bool) × Bool

abbrev numbers : ClientStore State ℕ
numbers = record {
  get_table = λ s name. (s, if s.1 then ok 0 else err out_of_range);
  create_table = λ s name.
      ((s.0, true), if s.1 && same_name name "__clients" then err (system_error 17) else ok 1);
  insert = λ s t id. if s.0 id then (s, false) else ((λ j. s.0 j || id == j, s.1), true);
}

unfoldable numbers_laws : ClientLaws numbers
numbers_laws = record {
  Exists = λ s. s.1 ≡ true;
  Taken = λ s id. s.0 id ≡ true;
  get_found = λ s h. (0, ground (arith, h));
  get_kept = λ s name id h. h;
  create_failed = λ s code h. refl;
  create_kept = λ s name id h. h;
  insert_new = λ s t id h. (ground (arith, h), ground (arith, h));
  insert_taken = λ s t id h. ground (arith, h);
  insert_kept = λ s t id j h. ground (arith, h);
}

abbrev no_clients : State
no_clients = (λ id. false, false)

abbrev print : ℕ → String
print id = "number"

abbrev one_client : State
one_client = (λ j. false || 7 == j, true)

abbrev two_clients : State
two_clients = (λ j. (false || 7 == j) || 8 == j, true)

abbrev client : ℕ → ℕ → ClientTable ℕ
client id t = record { client_id = id; clients_table = t; transactions_table = 1 }

init-Unique_example : (client 7 1).client_id ≢ (client 8 0).client_id
unfolding init numbers_laws
init-Unique_example =
    init-Unique numbers numbers_laws print 0 0 (7 ∷ 8 ∷ []) (7 ∷ 8 ∷ []) no_clients one_client
      one_client two_clients (client 7 1) (client 8 0) refl (λ j h. h) refl

-- A context without counters; no other fiber does anything.
abbrev no_counters : Counters table_id table_name (λ t. [])
no_counters = record { context = one_name; counters = []; objects = []; next = 0 }

no_counters-IsSound : IsSound table_id table_name (λ t. []) no_counters
unfolding lookup
no_counters-IsSound = record { alive = λ name p h. absurd (ground (arith, h)); fresh = λ p h. refl }

counters-Shares_example :
    Shares table_id table_name
      (λ t. [])
      "visits"
      no_counters
      (get_counter table_id table_name
        (λ t. [])
        (λ n. record { error = none; get = ok 0 })
        (ok 8)
        (λ s. s)
        "visits"
        no_counters)
    × Shares table_id table_name
        (λ t. [])
        "visits"
        no_counters
        (create_counter table_id table_name
          (λ t. [])
          (ok 8)
          (λ n. record { error = none; get = ok 0 })
          (ok 8)
          (λ s. s)
          "visits"
          no_counters)
counters-Shares_example =
    counters-Shares table_id table_name (λ t. []) (λ s. s) (λ s h. h) (λ s n p f. f) (ok 8)
      (λ n. record { error = none; get = ok 0 }) (ok 8) "visits" no_counters no_counters-IsSound
