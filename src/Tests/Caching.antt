-- ===== src/Tests/Caching.antt =====
-- caching/repository.go: the cache of a repository over a database in memory.
use plakar.Prelude.{◌≡◌, refl, false, some, [], ◌∷◌, arith, ok}
use plakar.Text.{codes, decimal, lt_bytes, hex, digits, has_prefix}
use plakar.Wire.{beq_bytes}
use plakar.Caching.Database.{Table, has_key, from_key}
use plakar.Caching.Database.Prefix.{run_of}
use plakar.Caching.Keys.{get_objects, has, yielded}
use plakar.Caching.Repository.{
  put_state, has_state, get_state, get_delta, has_delta, put_delta, get_deltas_by_type, get_deltas,
  put_deleted, has_deleted, get_deleteds, get_deleteds_by_type, put_packfile, has_packfile,
  get_packfiles, put_configuration, get_configuration, repository_cache,
}
use plakar.Caching.Repository.Entries.{
  state_key, delta_key, deleted_key, packfile_key, configuration_key, Entries, encode_all, select,
  delta_of, delta_typed, any_delta, any_deleted, deleted_typed, any_packfile, Holds,
}
use plakar.Caching.Repository.Selects.{iterators-select}
use plakar.Caching.Repository.Points.{is_some, or_nil, value_of, lookups-value_of, has_delta-misses}
use plakar.Caching.Repository.Writes.{Writes, puts-Writes}
use plakar.Caching.Repository.Backs.{get_subpart_for_blob-put_delta}
use plakar.Tests.Sorted.{sorted, sorted_works, mac_of, mac_of-IsMac}
use plakar.State.{DeltaEntry, delta_entry_to_bytes}
use plakar.State.Entries.{IsDeltaEntry}
use plakar.State.Local
use plakar.State.Local.{LocalState, new_local_state, get_subpart_for_blob}

abbrev delta : DeltaEntry
delta = record {
  type = 5;
  version = 65536;
  blob = mac_of 1;
  location = record { packfile = mac_of 8; offset = 100; length = 20 };
  flags = 0;
}

delta-IsDeltaEntry : IsDeltaEntry delta
delta-IsDeltaEntry = record {
  type_range = omega arith;
  version_range = omega arith;
  blob_size = refl;
  packfile_size = refl;
  offset_range = omega arith;
  length_range = omega arith;
  flags_range = omega arith;
}

-- A packfile that is marked as deleted, another one, and a state.
abbrev es : Entries
es =
    (deleted_key 4 (mac_of 9), [])
    ∷ (packfile_key (mac_of 8), 7 ∷ [])
    ∷ (state_key (mac_of 3), 6 ∷ [])
    ∷ []

-- The same with a delta.
abbrev more : Entries
more =
    (deleted_key 4 (mac_of 9), [])
    ∷ (delta_key 5 (mac_of 1) (mac_of 8), delta_entry_to_bytes delta)
    ∷ (packfile_key (mac_of 8), 7 ∷ [])
    ∷ (state_key (mac_of 3), 6 ∷ [])
    ∷ []

es-Holds : Holds sorted sorted_works (encode_all es) es
unfolding lt_bytes hex digits
es-Holds = record {
  entries_are = refl;
  increasing = ((refl, (refl, tt)), ((refl, tt), (tt, tt)));
  keys_are = (
    mac_of-IsMac 9 (omega arith),
    (mac_of-IsMac 8 (omega arith), (mac_of-IsMac 3 (omega arith), tt)),
  );
}

more-Holds : Holds sorted sorted_works (encode_all more) more
unfolding lt_bytes hex digits
more-Holds = record {
  entries_are = refl;
  increasing = ((refl, (refl, (refl, tt))), ((refl, (refl, tt)), ((refl, tt), (tt, tt))));
  keys_are = (
    mac_of-IsMac 9 (omega arith),
    (
      (mac_of-IsMac 1 (omega arith), mac_of-IsMac 8 (omega arith)),
      (mac_of-IsMac 8 (omega arith), (mac_of-IsMac 3 (omega arith), tt)),
    ),
  );
}

iterators-select_example :
    (get_delta sorted 5 (mac_of 1) (encode_all more) ≡ select (delta_of 5 (mac_of 1)) more)
    × (get_deltas_by_type sorted 5 (encode_all more) ≡ select (delta_typed 5) more)
    × (get_deltas sorted (encode_all more) ≡ select any_delta more)
    × (get_deleteds_by_type sorted 5 (encode_all more) ≡ select (deleted_typed 5) more)
    × (get_deleteds sorted (encode_all more) ≡ select any_deleted more)
    × (get_packfiles sorted (encode_all more) ≡ select any_packfile more)
iterators-select_example =
    iterators-select sorted sorted_works (encode_all more) more 5 (mac_of 1) more-Holds
      (mac_of-IsMac 1 (omega arith))

selects_one : select (delta_of 5 (mac_of 1)) more ≡ (mac_of 8, delta_entry_to_bytes delta) ∷ []
unfolding select beq_bytes
selects_one = refl

lookups-value_of_example :
    (has_state sorted (mac_of 3) (encode_all more)
      ≡ ok (is_some (value_of (state_key (mac_of 3)) more)))
    × (get_state sorted (mac_of 3) (encode_all more)
        ≡ ok (or_nil (value_of (state_key (mac_of 3)) more)))
    × (has_deleted sorted 4 (mac_of 9) (encode_all more)
        ≡ ok (is_some (value_of (deleted_key 4 (mac_of 9)) more)))
    × (has_packfile sorted (mac_of 8) (encode_all more)
        ≡ ok (is_some (value_of (packfile_key (mac_of 8)) more)))
    × (get_configuration sorted (codes "k") (encode_all more)
        ≡ ok (or_nil (value_of (configuration_key (codes "k")) more)))
lookups-value_of_example =
    lookups-value_of sorted sorted_works (encode_all more) more more-Holds (mac_of 3) (mac_of 9)
      (mac_of 8) (codes "k") 4 (mac_of-IsMac 3 (omega arith)) (mac_of-IsMac 9 (omega arith))
      (mac_of-IsMac 8 (omega arith))

has_delta-misses_example : has_delta sorted 5 (mac_of 1) (encode_all more) ≡ ok false
has_delta-misses_example =
    has_delta-misses sorted sorted_works (encode_all more) more more-Holds 5 (mac_of 1)
      (mac_of-IsMac 1 (omega arith))

puts-Writes_example :
    Writes sorted sorted_works
      (encode_all es)
      es
      (5 ∷ [])
      es-Holds
      (put_state sorted (mac_of 2) (5 ∷ []))
      (state_key (mac_of 2))
    × Writes sorted sorted_works
        (encode_all es)
        es
        (5 ∷ [])
        es-Holds
        (put_delta sorted 5 (mac_of 1) (mac_of 8) (5 ∷ []))
        (delta_key 5 (mac_of 1) (mac_of 8))
    × Writes sorted sorted_works
        (encode_all es)
        es
        (5 ∷ [])
        es-Holds
        (put_deleted sorted 5 (mac_of 1) (5 ∷ []))
        (deleted_key 5 (mac_of 1))
    × Writes sorted sorted_works
        (encode_all es)
        es
        (5 ∷ [])
        es-Holds
        (put_packfile sorted (mac_of 8) (5 ∷ []))
        (packfile_key (mac_of 8))
    × Writes sorted sorted_works
        (encode_all es)
        es
        (5 ∷ [])
        es-Holds
        (put_configuration sorted (codes "k") (5 ∷ []))
        (configuration_key (codes "k"))
puts-Writes_example =
    puts-Writes sorted sorted_works (encode_all es) es (5 ∷ []) es-Holds (mac_of 2) (mac_of 1)
      (mac_of 8) (codes "k") 5 (mac_of-IsMac 2 (omega arith)) (mac_of-IsMac 1 (omega arith))
      (mac_of-IsMac 8 (omega arith))

abbrev ls : LocalState Table
ls = new_local_state (encode_all es) 10

get_subpart_for_blob-put_delta_example :
    ((Local.put_delta (repository_cache sorted) delta ls).1 ≡ ok tt)
    × (get_subpart_for_blob
          (repository_cache sorted)
          5
          (mac_of 1)
          (Local.put_delta (repository_cache sorted) delta ls).0
        ≡ ok (some delta.location))
unfolding get_delta get_objects run_of has_packfile has_deleted has has_key beq_bytes hex digits
    has_prefix from_key lt_bytes yielded new_local_state decimal
get_subpart_for_blob-put_delta_example =
    get_subpart_for_blob-put_delta sorted sorted_works ls es delta es-Holds delta-IsDeltaEntry
      (mac_of-IsMac 1 (omega arith)) (mac_of-IsMac 8 (omega arith)) refl refl refl
