-- ===== src/TableCache.antt =====
-- src/TableCache.hpp and src/TableCache.cpp: the changes and the reads of one table within a
-- transaction. The children are the state, the memory that tuples live in, the operations, the
-- writes to storage, and what is proved of each.
pub mod State
pub mod Memory
pub mod Ops
pub mod Futures
pub mod Lifetime
pub mod Freeing
pub mod View
pub mod Spec
pub mod Step
pub mod Free
pub mod Loop
pub mod Refine
pub mod Insert
pub mod Update
pub mod Remove
pub mod Read
pub mod Storage
pub mod Commit
pub mod Rollback
pub mod Written
pub mod Unwritten
pub mod Calls
pub mod Stored
