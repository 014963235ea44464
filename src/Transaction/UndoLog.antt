-- ===== src/Transaction/UndoLog.antt =====
-- `writeUndoLog` and `removeUndoLog` (src/Transaction.cpp): the requests that they send to the
-- transaction table. That the requests succeed is only asserted there.
use telldb.Base.{
  ℕ, suc, zero, ◌+◌, ◌-◌, ◌*◌, ◌/◌, ◌%◌, List, [], ◌∷◌, ltb, leb, if◌then◌else◌, length, take, drop,
}
use telldb.Errors.{Result, ok, err, runtime_error}

-- `gMaxUndoLogSize`
abbrev pub max_undo_log_size : ℕ
max_undo_log_size = 16384

-- `mSnapshot->version() & ~(max << 48)`
unfoldable pub log_key : ℕ → ℕ
log_key version = version % 281474976710656

-- `key | (chunkNum << 48)` on 64 bits. The bits of the key are below those of the number.
unfoldable pub chunk_key : ℕ → ℕ → ℕ
chunk_key key chunk_num = key + chunk_num % 65536 * 281474976710656

-- `std::min(log.first - sizeWritten, gMaxUndoLogSize)`
abbrev pub chunk_size : ℕ → ℕ → ℕ
chunk_size size written =
    if ltb (size - written) max_undo_log_size then size - written else max_undo_log_size

-- The loops. They end when everything is written; the fuel is the number of chunks there can be.
unfoldable pub write_chunks : ℕ → ℕ → List ℕ → ℕ → ℕ → List (ℕ × List ℕ)
unfolding chunk_key
write_chunks zero key log chunk_num written = []
write_chunks (suc fuel) key log chunk_num written =
    let to_write = chunk_size (length log) written in
    let rest = write_chunks fuel key log (chunk_num + 1) (written + to_write) in
    if ltb written (length log)
    then (chunk_key key chunk_num, take to_write (drop written log)) ∷ rest
    else []

unfoldable pub remove_chunks : ℕ → ℕ → ℕ → ℕ → ℕ → List ℕ
unfolding chunk_key
remove_chunks zero key size chunk_num written = []
remove_chunks (suc fuel) key size chunk_num written =
    let rest = remove_chunks fuel key size (chunk_num + 1) (written + chunk_size size written) in
    if ltb written size then chunk_key key chunk_num ∷ rest else []

abbrev pub chunk_fuel : ℕ → ℕ
chunk_fuel size = size / max_undo_log_size + 1

-- The keys and the values of the insertions.
unfoldable pub write_undo_log : ℕ → List ℕ → Result (List (ℕ × List ℕ))
unfolding log_key write_chunks
write_undo_log version log =
    if ltb max_undo_log_size (length log)
    then if leb 65535 (length log / max_undo_log_size)
      then err runtime_error
      else ok (write_chunks (chunk_fuel (length log)) (log_key version) log 0 0)
    else ok ((log_key version, log) ∷ [])

-- The keys of the removals.
unfoldable pub remove_undo_log : ℕ → ℕ → Result (List ℕ)
unfolding log_key remove_chunks
remove_undo_log version size =
    if ltb max_undo_log_size size
    then if leb 65535 (size / max_undo_log_size)
      then err runtime_error
      else ok (remove_chunks (chunk_fuel size) (log_key version) size 0 0)
    else ok (log_key version ∷ [])
