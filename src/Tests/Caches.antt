-- ===== src/Tests/Caches.antt =====
-- caching/maintenance.go, caching/scan.go and caching/store.go over a database in memory.
use plakar.Prelude.{
  ℕ, ◌≡◌, refl, true, false, not, ◌&&◌, none, [], ◌∷◌, ◌++◌, map, reverse, arith, ok, if◌then◌else◌,
  ◌==◌, ◌+◌,
}
use plakar.Text.{codes, hex, digits, lt_bytes}
use plakar.Wire.{beq_bytes}
use plakar.Caching.Database.{Table, with_prefix}
use plakar.Caching.Maintenance.{delete_packfiles}
use plakar.Caching.Maintenance.Names.{snapshot_key, packfile_key, of_snapshot, of_packfile, Tidy}
use plakar.Caching.Maintenance.Deletes.{held, delete_packfiles-forgets}
use plakar.Caching.Scan.{put_summary, get_summary, enumerate_keys_with_prefix, trim_slash}
use plakar.Caching.Scan.Keys.{prepend, enumerate_keys_with_prefix-order}
use plakar.Caching.Scan.Paths.{get_summary-put_summary}
use plakar.Caching.Store.{Msgpack, DbStore, get_node, put_node, update_node}
use plakar.Caching.Store.Nodes.{get_node-put_node}
use plakar.BTree.{Node}
use plakar.Tests.Sorted.{sorted, sorted_works, mac_of, mac_of-IsMac}

-- A snapshot that uses one packfile.
abbrev pub used : Table
used = (packfile_key (mac_of 8) (mac_of 1), mac_of 8) ∷ (snapshot_key (mac_of 1), []) ∷ []

pub used-Tidy : Tidy used
unfolding lt_bytes hex digits
used-Tidy = record {
  increasing = ((refl, tt), (tt, tt));
  names = (
    of_packfile (mac_of 8) (mac_of 1) (mac_of-IsMac 8 (omega arith)) (mac_of-IsMac 1 (omega arith))
        refl,
    (of_snapshot (mac_of 1) (mac_of-IsMac 1 (omega arith)) refl, tt),
  );
}

delete_packfiles-forgets_example :
    ((delete_packfiles sorted (mac_of 1) used).1 ≡ ok tt)
    × (held sorted sorted_works
          (packfile_key (mac_of 8) (mac_of 1))
          (delete_packfiles sorted (mac_of 1) used).0
        ≡ (held sorted sorted_works (packfile_key (mac_of 8) (mac_of 1)) used
            && not (beq_bytes (mac_of 1) (mac_of 1))))
    × (held sorted sorted_works
          (snapshot_key (mac_of 1))
          (delete_packfiles sorted (mac_of 1) used).0
        ≡ (held sorted sorted_works (snapshot_key (mac_of 1)) used
            && not (beq_bytes (mac_of 1) (mac_of 1))))
delete_packfiles-forgets_example =
    delete_packfiles-forgets sorted sorted_works (mac_of 1) (mac_of 8) (mac_of 1) used
      (mac_of-IsMac 1 (omega arith)) (mac_of-IsMac 1 (omega arith)) used-Tidy

abbrev files : Table
files = (codes "__file__:/a", 1 ∷ []) ∷ (codes "__file__:/b", 2 ∷ []) ∷ []

enumerate_keys_with_prefix-order_example :
    (map
        (prepend (codes "__file__:"))
        (enumerate_keys_with_prefix sorted (codes "__file__:") false files)
      ≡ with_prefix (codes "__file__:") files)
    × (enumerate_keys_with_prefix sorted (codes "__file__:") true files
        ≡ reverse (enumerate_keys_with_prefix sorted (codes "__file__:") false files))
enumerate_keys_with_prefix-order_example =
    enumerate_keys_with_prefix-order sorted sorted_works (codes "__file__:") files

get_summary-put_summary_example :
    (get_summary sorted (codes "/a") (put_summary sorted (codes "/a" ++ b'/' ∷ []) (7 ∷ []) files).0
      ≡ ok (7 ∷ []))
    × (get_summary sorted
          (codes "/a" ++ b'/' ∷ [])
          (put_summary sorted (codes "/a") (7 ∷ []) files).0
        ≡ ok (7 ∷ []))
    × (get_summary sorted (codes "/a") (put_summary sorted (codes "/a") (7 ∷ []) files).0
        ≡ ok (7 ∷ []))
unfolding trim_slash
get_summary-put_summary_example =
    get_summary-put_summary sorted sorted_works (codes "/a") (7 ∷ []) files refl

-- Nodes of one kind, which are encoded as no bytes.
abbrev leaf : Node ℕ ℕ ℕ
leaf = record {
  version = 0;
  keys = 1 ∷ [];
  pointers = [];
  values = 2 ∷ [];
  prev = none;
  next = none;
}

abbrev pack : Msgpack (Node ℕ ℕ ℕ)
pack = record { marshal = λ n. ok []; unmarshal = λ b. (leaf, none) }

abbrev nodes : DbStore Table
nodes = record { prefix = codes "p"; idx = 0; cache = [] }

get_node-put_node_example :
    (ds' : DbStore Table) × (put_node sorted pack leaf nodes ≡ (ds', ok (nodes.idx + 1)))
    × (get_node sorted pack 1 ds'
        ≡ (if 1 == nodes.idx + 1 then ok leaf else get_node sorted pack 1 nodes))
    × (ds'' : DbStore Table) × (update_node sorted pack 5 leaf nodes ≡ ok ds'')
    × (get_node sorted pack 1 ds'' ≡ (if 1 == 5 then ok leaf else get_node sorted pack 1 nodes))
get_node-put_node_example = get_node-put_node sorted sorted_works pack leaf [] 5 1 nodes refl refl
