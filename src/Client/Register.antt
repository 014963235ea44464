-- ===== src/Client/Register.antt =====
-- Clients that register get different numbers, and `init` comes to an end (src/TellDB.cpp).
use Prim.Native.String.{String}
use telldb.Base.{
  ℕ, suc, ◌≡◌, ◌≢◌, refl, subst, List, [], ◌∷◌, Option, none, some, true, false, All, Bool-cases,
  inl, inr, arith,
}
use telldb.Errors.{Result, ok, err, Error, Outcome, done, raise, system_error}
use telldb.Client.{
  ClientStore, ClientTable, open_clients, register, transactions_name, create_transactions, init,
}

-- What the store promises: the table of clients is found once it is there, and a creation fails with
-- a `system_error` only if it is; a row is inserted exactly if its number was not taken, and stays.
pub record ClientLaws {S T : Type 0} (store : ClientStore S T) : Type 1 where
  pub Exists : S → Type 0
  pub Taken : S → ℕ → Type 0
  pub get_found : (s : S) → Exists s → (t : T) × ((store.get_table s "__clients").1 ≡ ok t)
  pub get_kept : (s : S) (name : String) (id : ℕ) → Taken s id → Taken (store.get_table s name).0 id
  pub create_failed :
      (s : S) (code : ℕ)
      → (store.create_table s "__clients").1 ≡ err (system_error code)
      → Exists (store.create_table s "__clients").0
  pub create_kept :
      (s : S) (name : String) (id : ℕ) → Taken s id → Taken (store.create_table s name).0 id
  pub insert_new :
      (s : S) (t : T) (id : ℕ)
      → (store.insert s t id).1 ≡ true
      → ¬ Taken s id × Taken (store.insert s t id).0 id
  pub insert_taken : (s : S) (t : T) (id : ℕ) → (store.insert s t id).1 ≡ false → Taken s id
  pub insert_kept : (s : S) (t : T) (id j : ℕ) → Taken s j → Taken (store.insert s t id).0 j

module _ {S T : Type 0} (store : ClientStore S T) (laws : ClientLaws store)
    (show : ℕ → String) where
  open laws use {Taken, Exists}

  register_kept :
      (t : T) (ids : List ℕ) (s : S) (j : ℕ) → Taken s j → Taken (register store show t ids s).0 j
  unfolding register
  register_kept t [] s j h = h
  register_kept t (id ∷ ids) s j h = elim (Bool-cases (store.insert s t id).1) [
    | inl e ↦ rw (e, register) (laws.insert_kept s t id j h)
    | inr e ↦
        rw (e, register)
          (register_kept t ids (store.insert s t id).0 j (laws.insert_kept s t id j h))
  ]

  -- What a registration answers.
  abbrev Registers : List ℕ → S → S × Option ℕ → Type 0
  Registers ids s (x, none) = All (λ id. Taken x id) ids
  Registers ids s (x, some id) = ¬ Taken s id × Taken x id

  register-Registers :
      (t : T) (ids : List ℕ) (s : S) → Registers ids s (register store show t ids s)
  unfolding register
  register-Registers t [] s = tt
  register-Registers t (id ∷ ids) s = elim (Bool-cases (store.insert s t id).1) [
    | inl e ↦ rw (e, register) (laws.insert_new s t id e)
    | inr e ↦
        let x = (store.insert s t id).0 in
        rw (e, register)
          (go (register store show t ids x) (register-Registers t ids x)
            (register_kept t ids x id (laws.insert_kept s t id id (laws.insert_taken s t id e))))
  ]
    where
      go :
          (r : S × Option ℕ)
          → Registers ids (store.insert s t id).0 r
          → Taken r.0 id
          → Registers (id ∷ ids) s r
      go (x, none) h k = (k, h)
      go (x, some j) h k = (λ old. h.0 (laws.insert_kept s t id j old), h.1)

  -- A table of clients was found or created, whatever was taken stays, or an error that is no
  -- `system_error` came.
  abbrev Opens : S → Outcome S (Option T) → Type 0
  Opens s (raise x e) = (code : ℕ) → e ≢ system_error code
  Opens s (done x none) = ⊥
  Opens s (done x (some t)) = (j : ℕ) → Taken s j → Taken x j

  opened :
      (n : ℕ) (s : S) (t : T)
      → (store.get_table s "__clients").1 ≡ ok t
      → Opens s (open_clients store show (suc n) s)
  unfolding open_clients
  opened n s t e = rw (e, open_clients) (λ j. laws.get_kept s "__clients" j)

  Opens-weaken :
      (s x : S) (o : Outcome S (Option T))
      → ((j : ℕ) → Taken s j → Taken x j)
      → Opens x o
      → Opens s o
  Opens-weaken s x (raise y e) h k = k
  Opens-weaken s x (done y none) h k = k
  Opens-weaken s x (done y (some t)) h k = λ j old. k j (h j old)

  -- The creation, when the table was not found.
  created :
      (n : ℕ) (s : S) (e : Error) (r : Result T)
      → (store.get_table s "__clients").1 ≡ err e
      → (store.create_table (store.get_table s "__clients").0 "__clients").1 ≡ r
      → Opens s (open_clients store show (suc (suc n)) s)
  unfolding open_clients
  created n s e (ok t) p q =
      rw (p, q, open_clients)
        (λ j h.
          laws.create_kept (store.get_table s "__clients").0 "__clients" j
            (laws.get_kept s "__clients" j h))
  created n s e (err (system_error code)) p q =
      let x = (store.create_table (store.get_table s "__clients").0 "__clients").0 in
      let (t, found) =
        laws.get_found x (laws.create_failed (store.get_table s "__clients").0 code q) in
      rw (p, q, open_clients)
        (Opens-weaken s x (open_clients store show (suc n) x)
          (λ j h.
            laws.create_kept (store.get_table s "__clients").0 "__clients" j
              (laws.get_kept s "__clients" j h))
          (opened n x t found))
  created n s e (err other) p q = rw (p, q, open_clients) (λ code. ground arith)

  open_clients-Opens : (n : ℕ) (s : S) → Opens s (open_clients store show (suc (suc n)) s)
  open_clients-Opens n s = go (store.get_table s "__clients").1 refl
    where
      go :
          (r : Result T)
          → (store.get_table s "__clients").1 ≡ r
          → Opens s (open_clients store show (suc (suc n)) s)
      go (ok t) q = opened (suc n) s t q
      go (err e) q =
          created n s e (store.create_table (store.get_table s "__clients").0 "__clients").1 q refl

  -- What `init` promises. It has no result only if every number that it drew was taken.
  abbrev pub Inits : List ℕ → S → Outcome S (Option (ClientTable T)) → Type 0
  Inits draws s (raise x e) = Unit
  Inits draws s (done x none) = All (λ id. Taken x id) draws
  Inits draws s (done x (some c)) =
      ¬ Taken s c.client_id × Taken x c.client_id × ((j : ℕ) → Taken s j → Taken x j)

  created-Inits :
      (t : T) (draws : List ℕ) (s x : S) (r : S × Option ℕ)
      → ((j : ℕ) → Taken s j → Taken x j)
      → Registers draws x r
      → ((j : ℕ) → Taken x j → Taken r.0 j)
      → Inits draws s (create_transactions store show t r)
  unfolding create_transactions
  created-Inits t draws s x (y, none) old h kept = h
  created-Inits t draws s x (y, some id) old h kept =
      go (store.create_table y (transactions_name store show id)).1 refl
    where
      go :
          (m : Result T)
          → (store.create_table y (transactions_name store show id)).1 ≡ m
          → Inits draws s (create_transactions store show t (y, some id))
      go (err e) q = rw (q, create_transactions) tt
      go (ok u) q =
          rw (q, create_transactions)
            (
              (λ taken. h.0 (old id taken)),
              laws.create_kept y (transactions_name store show id) id h.1,
              λ j taken.
                  laws.create_kept y (transactions_name store show id) j (kept j (old j taken)),
            )

  -- With fuel for two rounds of its first loop `init` either throws, or has registered the client
  -- under a number that was not taken before and has not freed any number, or every number that it
  -- drew was taken in the end.
  pub init-Inits :
      (n : ℕ) (draws : List ℕ) (s : S) → Inits draws s (init store show (suc (suc n)) draws s)
  unfolding init
  init-Inits n draws s = go (open_clients store show (suc (suc n)) s) (open_clients-Opens n s)
    where
      go :
          (o : Outcome S (Option T))
          → Opens s o
          → Inits draws s (elim o [
            | raise x e ↦ raise x e
            | done x none ↦ done x none
            | done x (some t) ↦ create_transactions store show t (register store show t draws x)
          ])
      go (raise x e) h = tt
      go (done x none) h = absurd h
      go (done x (some t)) h =
          created-Inits t draws s x (register store show t draws x) h (register-Registers t draws x)
            (register_kept t draws x)

  -- Two clients that the table of clients has let in have different numbers, whatever other requests
  -- came between them, as long as these have not removed a row of that table.
  pub init-Unique :
      (m n : ℕ) (draws more : List ℕ) (s x y z : S) (c d : ClientTable T)
      → init store show (suc (suc m)) draws s ≡ done x (some c)
      → ((j : ℕ) → Taken x j → Taken y j)
      → init store show (suc (suc n)) more y ≡ done z (some d)
      → c.client_id ≢ d.client_id
  init-Unique m n draws more s x y z c d h between k same =
      let first = subst (Inits draws s) h (init-Inits m draws s) in
      let second = subst (Inits more y) k (init-Inits n more y) in
      second.0 (subst (λ j. Taken y j) same (between c.client_id (first.1)))
