-- ===== src/Errors.antt =====
-- The exceptions of telldb/Exceptions.hpp and of the standard library that the code throws, and the
-- outcome of a call: the state it leaves behind, with a result or with what it threw.
-- `dangling` stands for undefined behaviour, the use of a tuple after its destruction or of an
-- iterator at its end; `assertion` for a failed `assert`.
use Prim.Native.String.{String}
use telldb.Base.{ℕ, List}

pub data Error : Type 0 where
  tuple_exists tuple_does_not_exist conflict : ℕ → Error
  conflicts : List ℕ → Error
  index_conflict : ℕ → String → Error
  field_not_set wrong_field_type open_table : String → Error
  invalid_argument logic_error runtime_error range_error out_of_range : Error
  system_error : ℕ → Error
  dangling assertion : Error

pub data Result {ℓ} (A : Type ℓ) : Type ℓ where
  ok : A → Result A
  err : Error → Result A

pub data Outcome {ℓ κ} (S : Type ℓ) (A : Type κ) : Type (ℓ ⊔ κ) where
  done : S → A → Outcome S A
  raise : S → Error → Outcome S A

-- The state after a call, also after one that threw.
abbrev pub after {ℓ κ} : {S : Type ℓ} {A : Type κ} → Outcome S A → S
after (done s a) = s
after (raise s e) = s

-- A method: from the state to its outcome.
abbrev pub Method {ℓ κ} : Type ℓ → Type κ → Type (ℓ ⊔ κ)
Method S A = S → Outcome S A

infixl 5 ◌>>=◌ ◌>>◌
abbrev pub ◌>>=◌ {ℓ κ ι} :
    {S : Type ℓ} {A : Type κ} {B : Type ι} → Method S A → (A → Method S B) → Method S B
◌>>=◌ m f s = elim (m s) [ done s' a ↦ f a s' | raise s' e ↦ raise s' e ]

abbrev pub ◌>>◌ {ℓ κ} : {S : Type ℓ} {B : Type κ} → Method S (Unit {0}) → Method S B → Method S B
m >> k = m >>= λ _. k

abbrev pub throw {ℓ κ} : {S : Type ℓ} {A : Type κ} → Error → Method S A
throw e s = raise s e
