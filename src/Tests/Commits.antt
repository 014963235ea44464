-- ===== src/Tests/Commits.antt =====
-- Transactions over the table of Tests/Table and undo logs of three chunks.
use telldb.Base.{
  ℕ, zero, suc, ◌≤◌, ◌<◌, ◌≡◌, ◌%◌, refl, sym, subst, ap, List, [], ◌∷◌, All, AllDifferent, arith,
  Bool, true, length, concat,
}
use telldb.Errors.{ok, err}
use telldb.Index.Tree.{BdTree}
use telldb.Transaction.UndoLog.{write_undo_log, remove_undo_log, remove_chunks, log_key, chunk_key}
use telldb.Transaction.Chunks.{
  keys, values, remove_undo_log-keys, write_undo_log-whole, remove_undo_log-AllDifferent,
}

abbrev zeros : ℕ → List ℕ
zeros zero = []
zeros (suc n) = 0 ∷ zeros n

length-zeros : (n : ℕ) → length (zeros n) ≡ n
length-zeros zero = refl
length-zeros (suc n) = ap suc (length-zeros n)

abbrev log : List ℕ
log = zeros 40000

remove_undo_log-keys_example :
    remove_undo_log 12 (length log)
    ≡ elim (write_undo_log 12 log) [ ok rs ↦ ok (keys rs) | err e ↦ err e ]
remove_undo_log-keys_example = remove_undo_log-keys 12 log

write_undo_log-whole_example :
    (rs : List (ℕ × List ℕ)) × (write_undo_log 12 log ≡ ok rs)
    × (concat (values rs) ≡ log)
    × All (λ v. length v ≤ 16384) (values rs)
write_undo_log-whole_example =
    write_undo_log-whole 12 log
      (subst (λ n. n < 1073725440) (sym (length-zeros 40000)) (omega arith))

abbrev three_keys : List ℕ
three_keys = 12 ∷ 281474976710668 ∷ 562949953421324 ∷ []

remove_undo_log-AllDifferent_example :
    AllDifferent three_keys × All (λ k. k % 281474976710656 ≡ 12 % 281474976710656) three_keys
unfolding remove_undo_log remove_chunks log_key chunk_key
remove_undo_log-AllDifferent_example = remove_undo_log-AllDifferent 12 40000 three_keys refl

abbrev pub empty_tree : Bool → BdTree (Unit {0}) ℕ
empty_tree u = record {
  insert = λ b k v. (b, true);
  erase = λ b k v. (b, true);
  revert_insert = λ b k v. b;
  revert_erase = λ b k v. b;
}
