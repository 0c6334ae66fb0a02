-- ===== src/Tests.antt =====
-- Small databases, on which the theorems are applied and the operations are run.
mod Data
mod Shop
mod Inserts
mod Deletes
mod Slots
mod Commits
mod Reads
mod Searches
mod Watches
mod Changes
mod Corpses
mod Interleavings
mod Indexes
mod Waits
mod Sessions
mod Lives
mod Connects
