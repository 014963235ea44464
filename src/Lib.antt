-- ===== src/Lib.antt =====
-- TellDB: the transaction layer of a distributed database on top of TellStore. A transaction
-- keeps its changes in caches: one for each table (src/TableCache.cpp), which also caches what
-- was read, and one for each index of a table (src/Indexes.cpp), whose operations go to a B-tree
-- when the transaction commits. This library models these parts and proves what they promise.
--
-- The parts and their files:
-- - Base: tests on numbers, lists and association lists. Errors: the exceptions of
--   telldb/Exceptions.hpp as values, and the outcome of a method, which leaves a state also when it
--   throws. Undefined behaviour is the error `dangling`, and a failed assertion is `assertion`.
-- - TableCache (src/TableCache.hpp, src/TableCache.cpp): State has the members, Memory the tuples
--   in the memory pool as a heap of cells, so that a destroyed tuple and two references to one tuple
--   are visible. Ops has get, insert, update, remove and addTuple, Storage has writeBack and
--   rollback. View and Spec are the abstract view, a slot for each key, and what the operations
--   promise on it. Step, Free, Loop and Refine carry the proofs of Insert, Update, Remove and Read. Commit,
--   Written, Rollback and Stored are about writeBack and rollback, Unwritten and Calls about what the
--   operations leave for them. Futures has the future of a tuple, and Lifetime
--   the constructor and the destructor, which Freeing is about.
-- - Index (src/Indexes.hpp, src/Indexes.cpp): the operations of IndexWrapper on its cache. Tree has
--   the two kinds of trees, WriteBack has writeBack and undo, Iterate has BaseIterator and the
--   iterator that merges a tree with the cache. Undo, Versions, Cells and Rollback are about undo,
--   Visible, Merge and Ends about the iterators. Ranges has lower_bound and reverse_lower_bound of the
--   trees and what is seen from there.
--   Registry has the class Indexes and TableData (src/TableData.hpp), which all transactions share, and Reopen is about it.
-- - Transaction (src/Transaction.cpp, src/TransactionCache.cpp): Tables has the opening and the
--   creation of tables, and Known is about it. UndoLog has writeUndoLog and
--   removeUndoLog, Commit has commit, rollback and the destructor with the loops over the tables.
--   Values has the tuple that insert builds of named values. Chunks is about the undo log, Written
--   about a commit that succeeds. Session has the calls on tuples as a handler makes them on any
--   number of tables, and `exec` (telldb/TellDB.hpp), which runs a handler and destroys its
--   transaction. Clean, Loop, Steps and Through follow one table through a commit; Atomic, Exec and
--   Durable are about what a handler leaves. Counters has getCounter and createCounter, and Shared is
--   about them.
-- - Client (telldb/TellDB.hpp, src/TellDB.cpp): ClientTable::init; Register is about it.
-- - Field (telldb/Field.hpp, src/Field.cpp): comparison and arithmetic of fields; Order and Arith
--   are about them. Union: the union of a field with its constructors, copy, assignment and destructor;
--   View: the value that it holds; Lives is about the life of its string.
-- - FieldSerialize (src/FieldSerialize.hpp): the size, the serialization and the deserialization of
--   fields.
-- - ScanQuery (telldb/ScanQuery.hpp, src/ScanQuery.cpp): serializeSelection; Size is about the size
--   that it reserves. Query has the queries, verify, serializeQuery and Transaction::scan, and
--   Verified is about them.
-- - RemoteCounter (src/RemoteCounter.hpp, src/RemoteCounter.cpp): what a counter does between two
--   waits. System has any number of counters and fibers on one row of the counter table, as a step
--   relation. Places, Exchange, Grant and Reserve follow the keys that are reserved, for Unique;
--   Phase, Moves and Kept follow the requests, for Live. Stuck is about a request that fails.
-- - BdTreeBackend (src/BdTreeBackend.hpp, src/BdTreeBackend.cpp): the tables of pointers and nodes of
--   a tree, over the requests to one table of the store; Pointers is about the table of pointers.
-- - Tuple (src/Tuple.cpp): both constructors, `size` and `serialize`, on a buffer of bytes, for which
--   Buffer has the lemmas. Layout says what a record promises; Steps, Strings and Round are about one
--   round of the loop, Serialize and RoundTrip about all, and Errors about the tuples it refuses.
-- - Tests: concrete tables, trees and iterators at which the theorems are applied.
--
-- The code calls TellStore, the commit manager and bdtree::map, whose sources are not in the
-- repository. They are parameters: `Storage` with `Laws` and `StoreLaws` (requests and their
-- answers), `Snapshot`, `TreeMap` with `TreeLaws`, `OrderedMap` with `OrderedLaws`, `KeyOrder`
-- for the comparison of key vectors and for which comparisons `std::multimap` makes that throw,
-- `key_of`, `Server` with `ServerLaws` for the requests of a transaction, `ClientStore` with
-- `ClientLaws` for those of a client that registers, `Store` with `Laws` for those of a tree,
-- `Response` for the answers about tables, `Record` with `Laws` for the layout of a tuple,
-- `Bytes` with `ByteLaws` for the bytes of floating point numbers and strings, `Primitives` and
-- `Encoding` for floating point numbers and strings, and `Codecs` for the archives of crossbow.
-- The row of a counter in the store is part of System: a write is accepted exactly if the row
-- still has the version that was read, and advances it. `exec` runs any handler. `calls_then`
-- are the handlers that make a list of calls, also after calls that threw, and commit at most
-- once, at the end; what they compute between the calls is their own. A table's hash maps are
-- association lists in the order in which the code iterates over them.
--
-- The loops of the undo log have fuel for one chunk more than the quotient of its size by that
-- of a chunk, which is enough. The loop of requestNewBatch is a step for each round. The first
-- loop of ClientTable::init has fuel; its second round finds the table that another client has
-- created meanwhile. The second loop goes through the numbers that are drawn. Every other loop
-- is structural recursion on what it goes through. A client that reads an iterator reads at most
-- so many entries as it is given; a bound of at least the number of entries that there are is
-- enough.
--
-- Not modelled: messages of exceptions, fibers but those of RemoteCounter, the network, the
-- allocator, and the parts that the list above does not name.
pub mod Base
pub mod Errors
pub mod Index
pub mod TableCache
pub mod BdTreeBackend
pub mod Client
pub mod Field
pub mod FieldSerialize
pub mod RemoteCounter
pub mod ScanQuery
pub mod Transaction
pub mod Tuple
pub mod Tests
