-- ===== src/Tests.antt =====
-- The theorems at concrete inputs.
mod Packfile
mod Memory
mod Sorted
mod Caches
mod Locks
mod Maintenance
mod TreeCache
mod Storage
mod State
mod Vfs
mod Reader
mod BTree
mod Versioning
mod Caching
