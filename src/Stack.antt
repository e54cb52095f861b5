-- ===== src/Stack.antt =====
-- c/stack.c: reading the list of tables, and choosing the tables that are compacted.
pub mod Segments
pub mod UpToDate
pub mod Os
pub mod Types
pub mod Reload
pub mod Retry
pub mod Text
pub mod Addition
pub mod Check
pub mod Env
pub mod NewTable
pub mod Compact
pub mod Range
pub mod Locks
pub mod Compaction
pub mod Add
pub mod Clean
pub mod Left
pub mod Frame
pub mod Release
pub mod TryAdd
pub mod Commit
pub mod Begin
pub mod Loaded
pub mod Names
pub mod Spares
pub mod Overwrites
pub mod Install
pub mod Finish
pub mod Kept
mod Memory
mod Sample
mod Runs
mod Examples
