-- ===== src/Vfs.antt =====
-- snapshot/vfs/: the file tree of a snapshot.
pub mod Summary
pub mod Reader
