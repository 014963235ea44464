-- ===== src/Tests/Table.antt =====
-- A table with a tuple read in an old version (key 5), a pending update (key 7) and a pending
-- deletion (key 9). The caller's tuples stand in the cells 0 and 1.
use mathlib.Core.Logic.{◌⊎◌}
use telldb.Base.{
  ℕ, ◌≡◌, ◌≢◌, refl, [], ◌∷◌, none, some, Bool, true, false, arith, lookup, ◌==◌, if◌then◌else◌,
  map, inl, inr, reverse, ◌||◌,
}
use telldb.Errors.{done, conflicts, raise, after, dangling, ok, conflict}
use telldb.Index.{IndexWrapper, index_update}
use telldb.TableCache.State.{Operation, Change, World}
use telldb.TableCache.View.{Action, IsValid}
use telldb.TableCache.Spec.{Implements}
use telldb.TableCache.Ops.{get, add_tuple, update, remove}
use telldb.TableCache.Update.{after_change, update-Implements, update_dangling}
use telldb.TableCache.Remove.{remove-Implements}
use telldb.TableCache.Read.{get-Reads, Reads, add_tuple-IsValid}
use telldb.TableCache.Storage.{issue, write_back}
use telldb.TableCache.Commit.{write_back_lem, succeeded, failures, unwritten}
use telldb.TableCache.Lifetime.{Freed, destroy_table}
use telldb.TableCache.Freeing.{CacheApart, destroy_table-Freed}
use telldb.TableCache.Loop.{change_each}
use telldb.Tests.Data.{by_number, by_type, Cell, versions}

abbrev pub sample_index : IndexWrapper ℕ ℕ (Unit {0})
sample_index = record { name = "by value"; unique = false; key_of = λ t. t; cache = []; tree = tt }

abbrev pub pending_update : Change
pending_update = record { tuple = some 2; operation = Operation.update; written = false }

abbrev pub pending_deletion : Change
pending_deletion = record { tuple = none; operation = Operation.deletion; written = false }

abbrev pub sample : World ℕ ℕ (Unit {0})
sample = record {
  heap = record {
    cell = λ p.
        if p == 0
        then some 10
        else if p == 1
        then some 11
        else if p == 2
        then some 20
        else if p == 3
        then some 50
        else none;
    next = 4;
  };
  table = record {
    cache = (5, (3, false)) ∷ [];
    changes = (7, pending_update) ∷ (9, pending_deletion) ∷ [];
    indexes = sample_index ∷ [];
  };
}

changes_cases :
    (k : ℕ) (c : Change)
    → lookup k sample.table.changes ≡ some c
    → ((k ≡ 7) × (c ≡ pending_update)) ⊎ ((k ≡ 9) × (c ≡ pending_deletion))
unfolding lookup
changes_cases k c h = ground arith

cache_cases : (k : ℕ) (e : ℕ × Bool) → lookup k sample.table.cache ≡ some e → e ≡ (3, false)
unfolding lookup
cache_cases k e h = ground arith

sample-IsValid : IsValid sample
unfolding lookup
sample-IsValid = record {
  fresh = λ p h. ground arith;
  distinct = (refl, (refl, tt));
  owned = λ k c h. elim (changes_cases k c h) [
    | inl (_, e) ↦ rw e (2, 20, refl, refl)
    | inr (_, e) ↦ rw e refl
  ];
  cached = λ k e h. (50, ground (arith, cache_cases k e h));
  apart = λ j k c d p h i a b. ground (arith, changes_cases j c h, changes_cases k d i);
  apart_cache = λ j k c e h i a. ground (arith, changes_cases j c h, cache_cases k e i);
}

key_apart :
    (k r : ℕ) → 2 ≢ r → (c : Change) → lookup k sample.table.changes ≡ some c → c.tuple ≢ some r
key_apart k r ne c h e = ground (arith, changes_cases k c h)

-- A pending update is overwritten, and the index throws at the comparison of the keys.
update-Implements_example :
    Implements sample 7
      (change_each (index_update by_type 7 11 10) sample.table.indexes)
      (ok (some (Action.updated 10, false)))
      (update by_type 7 1 0 sample)
unfolding lookup
update-Implements_example =
    update-Implements by_type sample 7 1 0 11 10 sample-IsValid refl refl
      (key_apart 7 1 (omega arith)) (key_apart 7 0 (omega arith))

-- A tuple that was read in an old version cannot be removed.
remove-Implements_example : remove by_number 5 0 sample ≡ raise sample (conflict 5)
unfolding lookup
remove-Implements_example =
    remove-Implements by_number sample 5 0 10 sample-IsValid refl (key_apart 5 0 (omega arith))

-- The old tuple is the one that the table holds for the key.
update_dangling_example :
    update by_number 7 2 0 sample ≡ raise (after_change sample 7 2 10 pending_update) dangling
unfolding lookup
update_dangling_example =
    update_dangling by_number sample 7 2 0 10 sample-IsValid refl pending_update sample_index []
      refl (λ e. cc) refl (omega arith) refl

get-Reads_example : Reads sample 7 (ok (some 20)) (get 7 sample)
unfolding lookup
get-Reads_example = get-Reads sample 7 sample-IsValid

-- The answer for key 4 arrives.
add_tuple-IsValid_example : IsValid (after (add_tuple 4 40 true sample))
add_tuple-IsValid_example = add_tuple-IsValid sample 4 sample-IsValid 40 true

-- Key 9 is locked by another transaction.
abbrev locked : ℕ → Bool
locked k = k == 9

abbrev start : ℕ → Cell
start k = record { old = some k; own = none }

write_back_lem_example :
    let o = write_back (versions locked) (start, sample) in
    let sent = issue (versions locked) sample.heap.cell start sample.table.changes in
    (map (λ r. r.0) sent.1 ≡ unwritten sample.table.changes)
    × ((failures sent.1 ≡ [] → o ≡ done (after o) tt)
        × (failures sent.1 ≢ [] → o ≡ raise (after o) (conflicts (reverse (failures sent.1)))))
    × ((after o).0 ≡ sent.0)
    × ((j : ℕ)
        → lookup j (after o).1.table.changes ≡ elim (lookup j sample.table.changes) [
          | none ↦ none
          | some c ↦ some (record c { written = c.written || succeeded j sent.1 })
        ])
write_back_lem_example = write_back_lem (versions locked) start sample

sample-CacheApart : CacheApart sample
unfolding lookup
sample-CacheApart = record {
  distinct = (refl, tt);
  apart = λ j k e f h i same. ground (arith, h, i);
}

destroy_table-Freed_example : Freed (3 ∷ 2 ∷ []) sample (destroy_table sample)
destroy_table-Freed_example = destroy_table-Freed sample sample-IsValid sample-CacheApart
