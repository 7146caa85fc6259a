-- ===== src/Lib.antt =====
-- Plakar, a deduplicating backup: its packfiles, the state of a repository, the B+tree and the
-- summaries that a snapshot stores, as functions, and what holds of them.
--
-- A repository stores blobs in packfiles. A packfile (packfile/packfile.go) is the blobs end to end, an
-- index of records of 56 bytes, and a footer with the index's MAC. The state of the repository
-- (repository/state/state.go) says which packfile holds a blob: delta entries, packfile entries,
-- deletion marks and configuration entries, kept in a local cache (the interface of
-- caching/state.go) and exchanged as streams, which a client merges into its cache. A snapshot
-- stores its files in a B+tree (btree/) over the repository, with a summary for each directory
-- (snapshot/vfs/summary.go). The types of resources and their versions are in resources/ and
-- versioning/.
--
-- Prelude, Wire: Booleans, lists and results; little-endian integers and reads, as Go's
--   encoding/binary, io and bytes have them. A result is a value (`ok`), an error (`err`), a panic
--   (`panic`), or a loop that ran out of rounds (`stuck`).
-- Resources: resources/resources.go.
-- Versioning: versioning/versioning.go, `NewVersion`, `Register`, `GetCurrentVersion`.
-- Packfile: packfile/packfile.go. `new`, `new_from_bytes`, `serialize`, `serialize_data`,
--   `serialize_index`, `serialize_footer`, `add_blob`, `get_blob` are the functions of these names;
--   `read_index` is the loop of `NewFromBytes`, `check_mac` its end. The hasher is the bytes written
--   since its last reset; what `Sum` makes of them is a parameter, and so is the longest slice
--   that can be allocated.
-- Text: keys of a database as text, with what they take from Go's strings, bytes, fmt and
--   encoding/hex.
-- Caching.StateCache: caching/state.go, the interface as a record. Caching.Database: the database
--   under the caches (goleveldb) as an interface, and `Works`, the behaviour that it documents.
--   Caching.Keys: the operations on prefixed keys that each cache repeats. Caching.Repository:
--   caching/repository.go, one definition for each method; `repository_cache` is the cache as a
--   StateCache. Caching.Scan: caching/scan.go. Caching.Maintenance: caching/maintenance.go.
--   Caching.Store: caching/store.go, nodes of a tree in a database. An iterator is the list of what it
--   yields. In the child modules of Caching.Repository the keys are a data type, and Backs has a state
--   over such a cache.
-- State: repository/state/state.go, the entries and their encodings. State.Local: the lookups.
--   State.Updates: packfiles, deletion marks, configurations, the serial. State.Listing: the
--   iterators, as the lists of what they yield. State.Stream: `SerializeToStream`,
--   `deserializeFromStream`, `InsertState`. A method that changes the state gives the state back
--   beside its error, as what was written before an error stays written. The msgpack encoding of
--   the metadata is a parameter.
-- BTree: btree/btree.go, over the interface `Storer`, with the store passed along; BTree.Verify:
--   btree/verify.go. Nodes are values that `Update` writes back. The keys' order is a parameter.
--   BTree.Cache: btree/cache.go, the cache of nodes in front of a store, which the tree sees as a
--   `Storer` of its own. BTree.Scan: btree/iter.go, `ScanAll` and its iterator; the descent has a bound
--   on the depth.
-- Vfs.Summary: snapshot/vfs/summary.go. Floating-point numbers are a parameter. Vfs.Reader:
--   snapshot/vfs/reader.go, `Read`, and `Seek` from the start; the repository's `GetBlob` is a parameter.
-- Maintenance: cmd/plakar/subcommands/maintenance/maintenance.go, `updateCache` and `colourPass`;
--   Maintenance.Sweep: `sweepPass`. What they ask of the repository is a record, but for the state that
--   they change and the database that says which snapshot uses which packfile.
-- Locks: repository/lock.go, and `Lock` of the maintenance and of snapshot/snapshot.go, over a store of
--   locks. Locks.World: operations that take locks at once, as steps of a relation; a look at the locks
--   of the others is one step.
-- Storage: storage/serialization.go, `Serialize` and `Deserialize`, as readers over a reader that is a
--   parameter; Storage.Delivery is what io.Reader documents of one that delivers bytes. The hasher is
--   as in Packfile. `Read` of the serializer takes at most four turns of its loop, and `Read` of the
--   deserializer at most as many as the reads that are left of the stream, and the buffer's size more.
-- Tests: the theorems at concrete inputs, with a cache in memory.
--
-- Integers are natural numbers with their wrap-around written out; a signed time is the bit pattern
-- of its nanoseconds. Loops over a list are recursion on the list. The loop of `NewFromBytes` has as
-- many rounds as bytes remain, that of `NewIndexFromBytes` as many as there are bytes, and that of
-- `deserializeFromStream` one more; each round reads a byte or ends. The binary search has as many
-- rounds as there are keys. The descent in a tree and its verification have a bound on the depth
-- as an argument.
--
-- Not modelled: the locks of Go and what they exclude, except that of the repository; log lines and
-- error texts; msgpack and JSON encodings; encryption, compression, hashing and chunking, which are
-- libraries; the opening of the caches on disk; the other iterators of a tree; the backends of
-- storage/; the rest of repository/, the pipelines of snapshot/, the other commands of cmd/, and
-- all of api/, ui/, agent/ and plakarfs/.
pub mod Prelude
pub mod Wire
pub mod Text
pub mod Resources
pub mod Versioning
pub mod Packfile
pub mod Caching
pub mod State
pub mod Vfs
pub mod BTree
pub mod Maintenance
pub mod Locks
pub mod Storage
pub mod Tests
