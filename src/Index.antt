-- ===== src/Index.antt =====
-- src/Indexes.hpp and src/Indexes.cpp: the cached operations of an index. Keys are any type with an
-- order; `KeyOrder` is what `std::multimap` and the tree ask of the comparison of key vectors.
pub mod Registry
pub mod Reopen
pub mod Tree
pub mod WriteBack
pub mod Undo
pub mod Versions
pub mod Cells
pub mod Rollback
pub mod Iterate
pub mod Visible
pub mod Merge
pub mod Ends
pub mod Ranges
use Prim.Native.String.{String}
use telldb.Base.{
  ℕ, ◌≡◌, List, [], ◌∷◌, map, Option, none, some, Bool, true, false, not, ◌&&◌, if◌then◌else◌,
}
use telldb.Errors.{Error, Outcome, done, raise, Method, ◌>>=◌, ◌>>◌}

-- The comparison of key vectors. `Field::operator<` throws for fields of different types, thus for a
-- null against a value, and `less` is meant for keys for which it does not. What `std::multimap`
-- throws when it looks for the place of a key among those that it has, and what the test for
-- inequality of two keys throws, is up to which fields they compare: `emplace_error` and `differ_error`.
pub record KeyOrder (K : Type 0) : Type 0 where
  pub less : K → K → Bool
  pub irrefl : (a : K) → less a a ≡ false
  pub trans : (a b c : K) → less a b ≡ true → less b c ≡ true → less a c ≡ true
  pub total : (a b : K) → less a b ≡ false → less b a ≡ false → a ≡ b
  pub emplace_error : K → List K → Option Error
  pub differ_error : K → K → Option Error

pub data IndexOperation : Type 0 where
  insertion deletion : IndexOperation

-- The tuple of `Cache`: the operation, the key of the tuple, and whether it was written.
pub record CacheEntry : Type 0 where
  pub operation : IndexOperation
  pub value : ℕ
  pub written : Bool

-- `std::multimap`: sorted by key, equal keys in the order of insertion.
abbrev pub Cache : Type 0 → Type 0
Cache K = List (K × CacheEntry)

-- `T` are tuples, `K` keys and `B` the state of a tree. `key_of` stands for `keyOf`.
pub record IndexWrapper (T K B : Type 0) : Type 0 where
  pub name : String
  pub unique : Bool
  pub key_of : T → K
  pub cache : Cache K
  pub tree : B

abbrev pub cached : IndexOperation → ℕ → CacheEntry
cached op key = record { operation = op; value = key; written = false }

module _ {K : Type 0} (order : KeyOrder K) where
  open order use {less, emplace_error, differ_error}

  -- `multimap::emplace`: behind the last entry that is not greater.
  unfoldable pub cache_emplace : K → CacheEntry → Cache K → Cache K
  cache_emplace k e [] = (k, e) ∷ []
  cache_emplace k e ((j, f) ∷ m) =
      if less k j then (k, e) ∷ (j, f) ∷ m else (j, f) ∷ cache_emplace k e m

  -- `operator!=` of key vectors, by the comparison both ways.
  unfoldable pub keys_differ : K → K → Bool
  keys_differ a b = not (not (less a b) && not (less b a))

  module _ {T B : Type 0} where
    -- `mCache.emplace`: a comparison that throws leaves the cache as it is.
    unfoldable pub emplace_entry : K → CacheEntry → Method (IndexWrapper T K B) (Unit {0})
    unfolding cache_emplace
    emplace_entry k e w = elim (emplace_error k (map (λ a. a.0) w.cache)) [
      | some x ↦ raise w x
      | none ↦ done (record w { cache = cache_emplace k e w.cache }) tt
    ]

    unfoldable pub index_insert : ℕ → T → Method (IndexWrapper T K B) (Unit {0})
    unfolding emplace_entry
    index_insert key tuple w = emplace_entry (w.key_of tuple) (cached insertion key) w

    -- `oldKey != newKey`
    unfoldable pub test_keys : K → K → Method (IndexWrapper T K B) Bool
    unfolding keys_differ
    test_keys a b w = elim (differ_error a b) [
      | some x ↦ raise w x
      | none ↦ done w (keys_differ a b)
    ]

    unfoldable pub index_update : ℕ → T → T → Method (IndexWrapper T K B) (Unit {0})
    unfolding emplace_entry test_keys
    index_update key old next w =
        (do
          differ ← test_keys (w.key_of old) (w.key_of next)
          if differ
              then (do
                emplace_entry (w.key_of old) (cached deletion key)
                emplace_entry (w.key_of next) (cached insertion key))
              else λ v. done v tt)
          w

    unfoldable pub index_remove : ℕ → T → Method (IndexWrapper T K B) (Unit {0})
    unfolding emplace_entry
    index_remove key tuple w = emplace_entry (w.key_of tuple) (cached deletion key) w
