-- ===== src/BdTreeBackend.antt =====
-- `BdTreeBackend` (src/BdTreeBackend.hpp, src/BdTreeBackend.cpp): the tables of pointers and of
-- nodes of a tree in TellStore, and the errors that the tree is told.
pub mod Pointers
use telldb.Base.{
  ℕ, List, ◌+◌, ◌-◌, ◌%◌, Option, none, some, Bool, true, false, not, ◌==◌, ◌||◌, if◌then◌else◌,
}
use telldb.Errors.{Result, ok, err, logic_error}
use telldb.Field.{FieldType, same_type}
use telldb.Tuple.Buffer.{Memory, load, decode}

-- The errors of the store that the code names, any other by its number, and those of the tree.
pub data Code : Type 0 where
  not_found invalid_write not_in_snapshot : Code
  other : ℕ → Code
  object_doesnt_exist object_exists wrong_version : Code

abbrev pub is_invalid_write : Code → Bool
is_invalid_write Code.invalid_write = true
is_invalid_write _ = false

abbrev pub is_not_in_snapshot : Code → Bool
is_not_in_snapshot Code.not_in_snapshot = true
is_not_in_snapshot _ = false

abbrev pub is_not_found : Code → Bool
is_not_found Code.not_found = true
is_not_found _ = false

-- Requests to one table of the store, whose tuples are of type `V`, and their answers: the tuple
-- and its version, or an error.
pub data Answer (V : Type 0) : Type 0 where
  found : V → ℕ → Answer V
  missing : Code → Answer V

pub record Store (S V : Type 0) : Type 0 where
  pub get : S → ℕ → Answer V
  pub insert : S → ℕ → ℕ → V → S × Option Code
  pub update : S → ℕ → ℕ → V → S × Option Code
  pub remove : S → ℕ → ℕ → S × Option Code

abbrev pub adapt : {S : Type 0} → (Code → Code) → S × Option Code → S × Option Code
adapt f (s, none) = (s, none)
adapt f (s, some e) = (s, some (f e))

-- The version that a write returns, 0 where it failed.
abbrev pub version_or_zero : {S : Type 0} → ℕ → S × Option Code → S × ℕ × Option Code
version_or_zero n (s, none) = (s, n, none)
version_or_zero n (s, some e) = (s, 0, some e)

module _ {S V : Type 0} (store : Store S V) where
  -- The code that `doRead` leaves in `ec`, if there is no tuple.
  unfoldable pub do_read : S → ℕ → Answer V
  do_read s key = elim (store.get s key) [
    | found v version ↦ found v version
    | missing e ↦ missing (if is_not_found e then Code.object_doesnt_exist else e)
  ]

  -- The results of the other three say what is in `ec`: nothing where they return true.
  abbrev pub insert_error : Code → Code
  insert_error e = if is_invalid_write e || is_not_in_snapshot e then Code.object_exists else e

  unfoldable pub do_insert : S → ℕ → V → S × Option Code
  do_insert s key v = adapt insert_error (store.insert s key 0 v)

  abbrev pub write_error : Code → Code
  write_error e =
      if is_invalid_write e
      then Code.object_doesnt_exist
      else if is_not_in_snapshot e
      then Code.wrong_version
      else e

  unfoldable pub do_update : S → ℕ → V → ℕ → S × Option Code
  do_update s key v version = adapt write_error (store.update s key version v)

  unfoldable pub do_remove : S → ℕ → ℕ → S × Option Code
  do_remove s key version = adapt write_error (store.remove s key version)

-- `BdTreePointerTable`: the field of a tuple is the pointer, a number of 64 bits.
module _ {S : Type 0} (store : Store S ℕ) where
  unfoldable pub ptr_read : S → ℕ → (ℕ × ℕ) × Option Code
  unfolding do_read
  ptr_read s lptr = elim (do_read store s lptr) [
    | missing e ↦ ((0, 0), some e)
    | found pptr version ↦ ((pptr, version), none)
  ]

  unfoldable pub ptr_insert : S → ℕ → ℕ → S × ℕ × Option Code
  unfolding do_insert
  ptr_insert s lptr pptr = version_or_zero 1 (do_insert store s lptr pptr)

  unfoldable pub ptr_update : S → ℕ → ℕ → ℕ → S × ℕ × Option Code
  unfolding do_update
  ptr_update s lptr pptr version =
      version_or_zero ((version + 1) % 18446744073709551616) (do_update store s lptr pptr version)

  abbrev pub removed_version : ℕ → ℕ
  removed_version version =
      if version == 18446744073709551615 then 18446744073709551615 - 2 else version

  unfoldable pub ptr_remove : S → ℕ → ℕ → S × Option Code
  unfolding do_remove
  ptr_remove s lptr version = do_remove store s lptr (removed_version version)

-- `BdTreeNodeData`: what `Record::data` says of the field with the node's data, in the tuple.
pub record NodeTuple : Type 0 where
  pub bytes : Memory
  pub is_null : Bool
  pub type : FieldType
  pub field : ℕ

-- The size of a node, and where its data begins.
abbrev pub extent : Memory → ℕ → ℕ × ℕ
extent m field =
    let offset = decode (load 4 m field) in
    ((decode (load 4 m (field + 4)) + (4294967296 - offset)) % 4294967296, offset)

unfoldable pub node_data : NodeTuple → Result (ℕ × ℕ)
unfolding same_type
node_data t =
    if t.is_null || not (same_type t.type FieldType.blob_string)
    then err logic_error
    else ok (extent t.bytes t.field)

-- `BdTreeNodeTable`. A node is read with its size and the place of its data, and removed with the
-- version of an insertion. `tuple_of` is the tuple with the bytes of a node.
module _ {S : Type 0} (store : Store S NodeTuple) where
  unfoldable pub node_read : S → ℕ → Result ((ℕ × ℕ) × Option Code)
  unfolding do_read node_data
  node_read s pptr = elim (do_read store s pptr) [
    | missing e ↦ ok ((0, 0), some e)
    | found t version ↦ elim (node_data t) [ err e ↦ err e | ok x ↦ ok (x, none) ]
  ]

  unfoldable pub node_insert : (List ℕ → NodeTuple) → S → ℕ → List ℕ → S × Option Code
  unfolding do_insert
  node_insert tuple_of s pptr bytes = do_insert store s pptr (tuple_of bytes)

  unfoldable pub node_remove : S → ℕ → S × Option Code
  unfolding do_remove
  node_remove s pptr = do_remove store s pptr 1
