-- ===== src/Tests/Data.antt =====
-- Concrete parameters: numbers as index keys and as tuples, a map as a function, and a storage that
-- keeps a version of its own for each key.

use telldb.Base.{
  ℕ, ◌%◌, ◌≡◌, ◌≢◌, refl, List, [], ◌∷◌, Option, none, some, Bool, true, false, arith, ltb, ◌==◌,
  if◌then◌else◌,
}
use telldb.Errors.{Error, invalid_argument}
use telldb.Index.{KeyOrder}
use telldb.Index.Tree.{TreeMap, TreeLaws}
use telldb.TableCache.Storage.{Storage}

pub ltb_trans : (a b c : ℕ) → ltb a b ≡ true → ltb b c ≡ true → ltb a c ≡ true
ltb_trans a b c h k = ground arith

pub ltb_total : (a b : ℕ) → ltb a b ≡ false → ltb b a ≡ false → a ≡ b
ltb_total a b h k = ground arith

pub ltb_asym : (a b : ℕ) → ltb a b ≡ true → ltb b a ≡ false
ltb_asym a b h = ground arith

pub ltb_irrefl : (a : ℕ) → ltb a a ≡ false
ltb_irrefl a = ground arith

abbrev pub by_number : KeyOrder ℕ
by_number = record {
  less = ltb;
  irrefl = ltb_irrefl;
  trans = ltb_trans;
  total = ltb_total;
  emplace_error = λ k ks. none;
  differ_error = λ a b. none;
}

-- Even and odd numbers stand for fields of different types, whose comparison throws.
abbrev type_error : ℕ → ℕ → Option Error
type_error a b = if a % 2 == b % 2 then none else some invalid_argument

abbrev first_error : ℕ → List ℕ → Option Error
first_error k [] = none
first_error k (j ∷ js) = elim (type_error k j) [ some e ↦ some e | none ↦ first_error k js ]

abbrev pub by_type : KeyOrder ℕ
by_type = record {
  less = ltb;
  irrefl = ltb_irrefl;
  trans = ltb_trans;
  total = ltb_total;
  emplace_error = first_error;
  differ_error = type_error;
}

-- Maps as functions.
module _ {E V : Type 0} (discrete : Discrete E) where
  abbrev pub put : (E → Option V) → E → Option V → E → Option V
  put m k o j = elim (discrete k j) [ yes _ ↦ o | no _ ↦ m j ]

  abbrev pub function_insert : (E → Option V) → E → V → (E → Option V) × Bool
  function_insert m k v = elim (m k) [ none ↦ (put m k (some v), true) | some _ ↦ (m, false) ]

  abbrev pub function_erase : (E → Option V) → E → (E → Option V) × Bool
  function_erase m k = elim (m k) [ none ↦ (m, false) | some _ ↦ (put m k none, true) ]

  abbrev pub function_map : TreeMap (E → Option V) E V
  function_map = record { find = λ m k. m k; insert = function_insert; erase = function_erase }

  put_self : (m : E → Option V) (k : E) (o : Option V) → put m k o k ≡ o
  put_self m k o = elim (discrete k k) as (λ d. elim d [ yes _ ↦ o | no _ ↦ m k ] ≡ o) [
    | yes e ↦ refl
    | no ne ↦ absurd (ne refl)
  ]

  put_other : (m : E → Option V) (k j : E) (o : Option V) → k ≢ j → put m k o j ≡ m j
  put_other m k j o n = elim (discrete k j) as (λ d. elim d [ yes _ ↦ o | no _ ↦ m j ] ≡ m j) [
    | yes e ↦ absurd (n e)
    | no ne ↦ refl
  ]

  insert_other :
      (m : E → Option V) (k j : E) (v : V) (o : Option V)
      → m k ≡ o
      → k ≢ j
      → (function_insert m k v).0 j ≡ m j
  insert_other m k j v none e n = rw (e, function_insert) (put_other m k j (some v) n)
  insert_other m k j v (some x) e n = rw (e, function_insert)

  inserted : (m : E → Option V) (k : E) (v : V) → m k ≡ none → (function_insert m k v).0 k ≡ some v
  inserted m k v e = rw (e, function_insert) (put_self m k (some v))

  erase_other :
      (m : E → Option V) (k j : E) (o : Option V) → m k ≡ o → k ≢ j → (function_erase m k).0 j ≡ m j
  erase_other m k j none e n = rw (e, function_erase)
  erase_other m k j (some x) e n = rw (e, function_erase) (put_other m k j none n)

  erase_self : (m : E → Option V) (k : E) (o : Option V) → m k ≡ o → (function_erase m k).0 k ≡ none
  erase_self m k none e = ground arith
  erase_self m k (some x) e = rw (e, function_erase) (put_self m k none)

  pub function_laws : TreeLaws function_map
  function_laws = record {
    insert_other = λ m k j v. insert_other m k j v (m k) refl;
    insert_new = λ m k v e. (ground arith, inserted m k v e);
    insert_old = λ m k v x e. (ground arith, ground arith);
    erase_other = λ m k j. erase_other m k j (m k) refl;
    erase_self = λ m k. erase_self m k (m k) refl;
    erase_found = λ m k x e. ground arith;
    erase_missing = λ m k e. ground arith;
  }

-- A storage: for each key the committed version and the transaction's own, if there is one.
-- Requests for the keys of `locked` fail.
pub record Cell : Type 0 where
  pub old : Option ℕ
  pub own : Option (Option ℕ)

abbrev pub cell_value : Cell → Option ℕ
cell_value c = elim c.own [ none ↦ c.old | some o ↦ o ]

abbrev pub set_own : (ℕ → Cell) → ℕ → Option (Option ℕ) → ℕ → Cell
set_own s k o j = if k == j then record (s j) { own = o } else s j

module _ (locked : ℕ → Bool) where
  abbrev pub versions : Storage (ℕ → Cell) ℕ
  versions = record {
    modify = λ s k op t. if locked k then (s, false) else (set_own s k (some t), true);
    revert = λ s k. (set_own s k none, true);
  }
