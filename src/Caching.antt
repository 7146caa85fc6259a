-- ===== src/Caching.antt =====
-- caching/: the caches that back a state.
pub mod StateCache
pub mod Database
pub mod Keys
pub mod Repository
pub mod Scan
pub mod Store
pub mod Maintenance
