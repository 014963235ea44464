-- ===== src/Tests.antt =====
-- The theorems at concrete inputs, and the inputs.
mod Data
mod Table
mod Trees
mod Iterators
mod Fields
mod Commits
mod Counters
mod Selections
mod Codecs
mod Values
mod Tuples
mod Pointers
mod Contexts
mod Registries
mod Sessions
mod Scans
mod Clients
