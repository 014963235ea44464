-- ===== src/Transaction/Chunks.antt =====
-- What the undo log is split into, and that it is removed again.
use mathlib.Core.List.{append-nil}
use telldb.Base.{
  ℕ, suc, zero, ◌+◌, ◌*◌, ◌/◌, ◌%◌, ◌≤◌, ◌<◌, ◌≡◌, ◌≢◌, refl, sym, subst, ap, ◌∙◌, List, [], ◌∷◌,
  ◌++◌, map, arith, Bool-cases, inl, inr, ltb, leb, length, take, drop, concat, take-drop,
  drop-drop, drop_all, length-take, All, AllDifferent,
}
use telldb.Errors.{ok, err}
use telldb.Transaction.UndoLog.{
  max_undo_log_size, log_key, chunk_key, chunk_size, write_chunks, remove_chunks, chunk_fuel,
  write_undo_log, remove_undo_log,
}

abbrev pub keys : List (ℕ × List ℕ) → List ℕ
keys rs = map (λ r. r.0) rs

abbrev pub values : List (ℕ × List ℕ) → List (List ℕ)
values rs = map (λ r. r.1) rs

write_chunks-values :
    (fuel key : ℕ) (log : List ℕ) (n written : ℕ)
    → length log ≤ written + fuel * 16384
    → concat (values (write_chunks fuel key log n written)) ≡ drop written log
unfolding write_chunks
write_chunks-values zero key log n written h = sym (drop_all written log (omega arith))
write_chunks-values (suc fuel) key log n written h = elim (Bool-cases (ltb written (length log))) [
  | inl e ↦
      let to_write = chunk_size (length log) written in
      let ih = write_chunks-values fuel key log (n + 1) (written + to_write) (ground arith) in
      rw e (
        ap (λ ys. take to_write (drop written log) ++ ys) (ih ∙ drop-drop written to_write log)
        ∙ take-drop to_write (drop written log))
  | inr e ↦ rw e (sym (drop_all written log (ground arith)))
]

write_chunks-keys :
    (fuel key : ℕ) (log : List ℕ) (n written : ℕ)
    → remove_chunks fuel key (length log) n written ≡ keys (write_chunks fuel key log n written)
unfolding write_chunks remove_chunks
write_chunks-keys zero key log n written = refl
write_chunks-keys (suc fuel) key log n written =
    ground
      (arith, write_chunks-keys fuel key log (n + 1) (written + chunk_size (length log) written))

write_chunks-small :
    (fuel key : ℕ) (log : List ℕ) (n written : ℕ)
    → All (λ v. length v ≤ max_undo_log_size) (values (write_chunks fuel key log n written))
unfolding write_chunks
write_chunks-small zero key log n written = tt
write_chunks-small (suc fuel) key log n written = elim (Bool-cases (ltb written (length log))) [
  | inl e ↦ rw e (
    ground (arith, length-take (chunk_size (length log) written) (drop written log)),
    write_chunks-small fuel key log (n + 1) (written + chunk_size (length log) written),
  )
  | inr e ↦ rw e tt
]

chunk_key-bounds :
    (key n : ℕ)
    → key < 281474976710656
    → n < 65536
    → (chunk_key key n ≡ key + n * 281474976710656) × (chunk_key key n % 281474976710656 ≡ key)
unfolding chunk_key
chunk_key-bounds key n h k = (omega arith, omega arith)

-- The keys from a chunk on belong to the key of the log and are not below that of the chunk.
abbrev From : ℕ → ℕ → ℕ → Type 0
From key n j = (j % 281474976710656 ≡ key) × (key + n * 281474976710656 ≤ j)

From-later : (key n : ℕ) (js : List ℕ) → All (From key (n + 1)) js → All (From key n) js
From-later key n [] a = tt
From-later key n (j ∷ js) a = ((a.0.0, omega (arith, a.0.1)), From-later key n js a.1)

From-differ :
    (key n : ℕ) (js : List ℕ)
    → All (From key (n + 1)) js
    → All (λ j. key + n * 281474976710656 ≢ j) js
From-differ key n [] a = tt
From-differ key n (j ∷ js) a = (λ e. omega (arith, a.0.1), From-differ key n js a.1)

From-key : (key n : ℕ) (js : List ℕ) → All (From key n) js → All (λ j. j % 281474976710656 ≡ key) js
From-key key n [] a = tt
From-key key n (j ∷ js) a = (a.0.0, From-key key n js a.1)

remove_chunks-keys :
    (fuel key size n written : ℕ)
    → key < 281474976710656
    → n + fuel ≤ 65536
    → All (From key n) (remove_chunks fuel key size n written)
      × AllDifferent (remove_chunks fuel key size n written)
unfolding remove_chunks
remove_chunks-keys zero key size n written h k = (tt, tt)
remove_chunks-keys (suc fuel) key size n written h k = elim (Bool-cases (ltb written size)) [
  | inl e ↦
      let ih =
        remove_chunks-keys fuel key size (n + 1) (written + chunk_size size written) h
          (omega arith) in
      let (b, m) = chunk_key-bounds key n h (omega arith) in
      rw (e, b)
        (((rw b at m, omega arith), From-later key n _ ih.0), (From-differ key n _ ih.0, ih.1))
  | inr e ↦ rw e (tt, tt)
]

-- The two functions refuse the same logs, and what `removeUndoLog` removes is what `writeUndoLog`
-- has inserted, in the same order.
pub remove_undo_log-keys :
    (version : ℕ) (log : List ℕ)
    → remove_undo_log version (length log)
      ≡ elim (write_undo_log version log) [ ok rs ↦ ok (keys rs) | err e ↦ err e ]
unfolding remove_undo_log write_undo_log
remove_undo_log-keys version log =
    ground (arith, write_chunks-keys (chunk_fuel (length log)) (log_key version) log 0 0)

-- A log of less than 65535 * 16384 bytes is written, in pieces of at most 16384 bytes that make up
-- the log; the number of chunks that the loop is given is enough for that.
pub write_undo_log-whole :
    (version : ℕ) (log : List ℕ)
    → length log < 1073725440
    → (rs : List (ℕ × List ℕ)) × (write_undo_log version log ≡ ok rs)
      × (concat (values rs) ≡ log)
      × All (λ v. length v ≤ 16384) (values rs)
unfolding write_undo_log
write_undo_log-whole version log h = elim (Bool-cases (ltb max_undo_log_size (length log))) [
  | inl e ↦ (
    write_chunks (chunk_fuel (length log)) (log_key version) log 0 0,
    ground arith,
    write_chunks-values (chunk_fuel (length log)) (log_key version) log 0 0 (omega arith),
    write_chunks-small (chunk_fuel (length log)) (log_key version) log 0 0,
  )
  | inr e ↦ ((log_key version, log) ∷ [], ground arith, append-nil log, (ground arith, tt))
]

-- All keys of a log are different and agree with the version in their lower 48 bits, so that logs
-- of versions that differ there share no key.
pub remove_undo_log-AllDifferent :
    (version size : ℕ) (ks : List ℕ)
    → remove_undo_log version size ≡ ok ks
    → AllDifferent ks × All (λ k. k % 281474976710656 ≡ version % 281474976710656) ks
unfolding remove_undo_log log_key
remove_undo_log-AllDifferent version size ks h = elim (Bool-cases (ltb max_undo_log_size size)) [
  | inl e ↦ elim (Bool-cases (leb 65535 (size / max_undo_log_size))) [
    | inl f ↦ absurd (ground arith)
    | inr f ↦
        let k =
          remove_chunks-keys (chunk_fuel size) (log_key version) size 0 0 (omega arith)
            (ground arith) in
        let same : remove_chunks (chunk_fuel size) (log_key version) size 0 0 ≡ ks = ground arith in
        subst
          (λ js. AllDifferent js × All (λ j. j % 281474976710656 ≡ version % 281474976710656) js)
          same (k.1, From-key (log_key version) 0 _ k.0)
  ]
  | inr e ↦
      let same : log_key version ∷ [] ≡ ks = ground arith in
      subst (λ js. AllDifferent js × All (λ j. j % 281474976710656 ≡ version % 281474976710656) js)
        same ((tt, tt), (omega arith, tt))
]
