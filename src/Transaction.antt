-- ===== src/Transaction.antt =====
-- `Transaction` (src/Transaction.cpp): the undo log of a commit.
pub mod Tables
pub mod Known
pub mod Counters
pub mod Shared
pub mod UndoLog
pub mod Chunks
pub mod Values
pub mod Commit
pub mod Written
pub mod Loop
pub mod Clean
pub mod Steps
pub mod Through
pub mod Atomic
pub mod Session
pub mod Exec
pub mod Durable
