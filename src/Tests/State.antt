-- ===== src/Tests/State.antt =====
-- repository/state/state.go: concrete states over the cache in memory.
use plakar.Prelude.{
  ℕ, ◌≡◌, refl, ◌≢◌, Bool, true, none, some, List, [], ◌∷◌, ◌++◌, arith, All, Result, ok, err,
  ◌>>=◌, Any, short_read,
}
use plakar.Wire.{Bytes, beq_bytes}
use plakar.Resources.{rt_packfile}
use plakar.State.{
  zeros, DeltaEntry, DeletedEntry, PackfileEntry, ConfigurationEntry, Metadata,
  deleted_entry_to_bytes, packfile_entry_to_bytes, configuration_entry_to_bytes,
  configuration_entry_from_bytes,
}
use plakar.State.Entries.{
  encoded, IsDeltaEntry, IsDeletedEntry, IsPackfileEntry, IsConfigurationEntry,
}
use plakar.State.Local.{LocalState, get_subpart_for_blob, blob_exists}
use plakar.State.Local.Blobs.{
  Live, Answers, written, is_some, first_live, get_subpart_for_blob-first_live,
  get_subpart_for_blob-Live,
}
use plakar.State.Updates.{delete_resource, insert_or_update_configuration, update_serial_or}
use plakar.State.Updates.Serial.{NotBefore, with_serial, update_serial_or-latest}
use plakar.State.Updates.Configuration.{
  get_subpart_for_blob-delete_resource, insert_or_update_configuration-overwrites,
}
use plakar.State.Listing.{list_snapshots}
use plakar.State.Listing.Snapshots.{live_snapshots, list_snapshots-live_snapshots}
use plakar.State.Stream.{serialize_to_stream, deserialize_from_stream}
use plakar.State.Stream.Merge.{Quiet, Holds}
use plakar.Packfile.Accepts.{Ends}
use plakar.State.Stream.Ending.{deserialize_from_stream-Ends}
use plakar.State.Stream.Whole.{merged, deserialize_from_stream-serialize_to_stream}
use plakar.Tests.Memory.{Memory, empty, has, has_put, get_put, memory}

abbrev mac_of : ℕ → Bytes
mac_of n = n ∷ zeros 31

abbrev delta : ℕ → ℕ → DeltaEntry
delta n p = record {
  type = 5;
  version = 65536;
  blob = mac_of n;
  location = record { packfile = mac_of p; offset = 100; length = 20 };
  flags = 0;
}

delta-IsDeltaEntry : (n p : ℕ) → IsDeltaEntry (delta n p)
delta-IsDeltaEntry n p = record {
  type_range = omega arith;
  version_range = omega arith;
  blob_size = refl;
  packfile_size = refl;
  offset_range = omega arith;
  length_range = omega arith;
  flags_range = omega arith;
}

abbrev deletion : DeletedEntry
deletion = record { type = 4; blob = mac_of 9; when = 77 }

deletion-IsDeletedEntry : IsDeletedEntry deletion
deletion-IsDeletedEntry = record {
  type_range = omega arith;
  blob_size = refl;
  when_range = omega arith;
}

abbrev pack : PackfileEntry
pack = record { packfile = mac_of 8; state_id = mac_of 3; timestamp = 66 }

pack-IsPackfileEntry : IsPackfileEntry pack
pack-IsPackfileEntry = record {
  packfile_size = refl;
  state_id_size = refl;
  timestamp_range = omega arith;
}

abbrev setting : ConfigurationEntry
setting = record { key = 1 ∷ 2 ∷ []; value = 3 ∷ []; created_at = 10 }

setting-IsConfigurationEntry : IsConfigurationEntry setting
setting-IsConfigurationEntry = record {
  key_size = omega arith;
  value_size = omega arith;
  created_at_range = omega arith;
}

-- Two deltas of the snapshot 1, the first in a packfile that is marked as deleted.
abbrev two : List (Bytes × DeltaEntry)
two = (5 ∷ (mac_of 1 ++ mac_of 9), delta 1 9) ∷ (5 ∷ (mac_of 1 ++ mac_of 8), delta 1 8) ∷ []

two-IsDeltaEntry : All (λ e. IsDeltaEntry e.1) two
two-IsDeltaEntry = (delta-IsDeltaEntry 1 9, (delta-IsDeltaEntry 1 8, tt))

abbrev cache : Memory
cache = record empty {
  deltas = written two;
  deleteds = (4 ∷ mac_of 9, deleted_entry_to_bytes deletion) ∷ [];
  packfiles =
      (mac_of 9, packfile_entry_to_bytes pack) ∷ (mac_of 8, packfile_entry_to_bytes pack) ∷ [];
  configurations = (1 ∷ 2 ∷ [], configuration_entry_to_bytes setting) ∷ [];
}

abbrev state : LocalState Memory
state = record {
  metadata = record { version = 65536; timestamp = 50; serial = zeros 16 };
  cache = cache;
}

abbrev present : Bytes → Bool
present m = has m cache.packfiles

abbrev deleted : ℕ → Bytes → Bool
deleted t m = has (t ∷ m) cache.deleteds

state_Answers : Answers memory cache present (deleted 4)
state_Answers = record { has_packfile = λ m. refl; has_deleted = λ m. refl }

subpart_here : get_subpart_for_blob memory 5 (mac_of 1) state ≡ ok (some (delta 1 8).location)
unfolding encoded first_live beq_bytes
subpart_here =
    (get_subpart_for_blob-first_live memory state 5 (mac_of 1) two present (deleted 4) state_Answers
      refl two-IsDeltaEntry).0

get_subpart_for_blob-first_live_example :
    (get_subpart_for_blob memory 5 (mac_of 1) state ≡ ok (first_live present (deleted 4) two))
    × (blob_exists memory 5 (mac_of 1) state ≡ ok (is_some (first_live present (deleted 4) two)))
unfolding encoded beq_bytes
get_subpart_for_blob-first_live_example =
    get_subpart_for_blob-first_live memory state 5 (mac_of 1) two present (deleted 4) state_Answers
      refl two-IsDeltaEntry

get_subpart_for_blob-Live_example : Live memory (delta 1 8).location cache
get_subpart_for_blob-Live_example =
    get_subpart_for_blob-Live memory state 5 (mac_of 1) (delta 1 8).location subpart_here

-- The metadata of a state, as the number in its first byte.
abbrev unmarshal : Bytes → Result Metadata
unmarshal [] = err short_read
unmarshal (t ∷ more) = ok (record { version = 65536; timestamp = t; serial = t ∷ zeros 15 })

abbrev early : Metadata
early = record { version = 65536; timestamp = 3; serial = 3 ∷ zeros 15 }

abbrev late : Metadata
late = record { version = 65536; timestamp = 9; serial = 9 ∷ zeros 15 }

abbrev with_states : LocalState Memory
with_states = record state {
  cache = record cache { states = (mac_of 1, 3 ∷ []) ∷ (mac_of 2, 9 ∷ []) ∷ [] };
}

update_serial_or-latest_example :
    Any
      (λ m.
        (update_serial_or memory unmarshal (zeros 16) with_states
          ≡ (with_serial memory unmarshal with_states m.serial, ok tt))
        × All (NotBefore m) (early ∷ late ∷ []))
      (early ∷ late ∷ [])
update_serial_or-latest_example =
    update_serial_or-latest memory unmarshal with_states (zeros 16) with_states.cache.states early
      (late ∷ []) refl (refl, (refl, tt))

marks :
    (rtype : ℕ) (mac buf : Bytes) (c : Memory)
    → memory.has_deleted rtype mac (memory.put_deleted rtype mac buf c).0 ≡ ok true
marks rtype mac buf c = rw (has_put (rtype ∷ mac) buf c.deleteds)

-- After the packfile 7 is marked, the location in the packfile 8 is still found.
subpart_after :
    get_subpart_for_blob memory 5
      (mac_of 1)
      (delete_resource memory 99 rt_packfile (mac_of 7) state).0
    ≡ ok (some (delta 1 8).location)
unfolding delete_resource first_live encoded beq_bytes
subpart_after =
    (get_subpart_for_blob-first_live memory
      (delete_resource memory 99 rt_packfile (mac_of 7) state).0 5 (mac_of 1) two present
      (λ m. memory_marks m) record { has_packfile = λ m. refl; has_deleted = λ m. refl } refl
      two-IsDeltaEntry).0
  where
    memory_marks : Bytes → Bool
    memory_marks m =
        has (4 ∷ m) (delete_resource memory 99 rt_packfile (mac_of 7) state).0.cache.deleteds

get_subpart_for_blob-delete_resource_example : mac_of 8 ≢ mac_of 7
get_subpart_for_blob-delete_resource_example =
    get_subpart_for_blob-delete_resource memory marks 99 (mac_of 7) state 5 (mac_of 1)
      (delta 1 8).location subpart_after

-- An entry that is older than the one that is stored.
abbrev older : ConfigurationEntry
older = record { key = 1 ∷ 2 ∷ []; value = 4 ∷ []; created_at = 1 }

older-IsConfigurationEntry : IsConfigurationEntry older
older-IsConfigurationEntry = record {
  key_size = omega arith;
  value_size = omega arith;
  created_at_range = omega arith;
}

insert_or_update_configuration-overwrites_example :
    (memory.get_configuration older.key (insert_or_update_configuration memory older state).0.cache
      >>= configuration_entry_from_bytes)
    ≡ ok (older, none)
unfolding beq_bytes
insert_or_update_configuration-overwrites_example =
    insert_or_update_configuration-overwrites memory get_put state older
      (configuration_entry_to_bytes setting) older-IsConfigurationEntry refl

abbrev unset : LocalState Memory
unset = record state { cache = empty }

list_snapshots-live_snapshots_example :
    list_snapshots memory state ≡ ok (live_snapshots present (deleted 5) two)
unfolding encoded beq_bytes
list_snapshots-live_snapshots_example =
    list_snapshots-live_snapshots memory state two present (deleted 5) (λ m. refl) (λ m. refl) refl
      two-IsDeltaEntry

abbrev lonely : LocalState Memory
lonely = record state { cache = record empty { deltas = written ((mac_of 1, delta 1 9) ∷ []) } }

memory-Quiet : Quiet memory
memory-Quiet = record { get_ok = λ key c. (_, refl); put_ok = λ key v c. refl }

state_Holds :
    Holds memory cache two
      ((4 ∷ mac_of 9, deletion) ∷ [])
      ((mac_of 9, pack) ∷ (mac_of 8, pack) ∷ [])
      (setting ∷ [])
unfolding encoded beq_bytes
state_Holds = record {
  deltas_are = refl;
  deleteds_are = refl;
  packfiles_are = refl;
  configurations_are = refl;
  delta_range = two-IsDeltaEntry;
  deleted_range = (deletion-IsDeletedEntry, tt);
  packfile_range = (pack-IsPackfileEntry, (pack-IsPackfileEntry, tt));
  configuration_range = (setting-IsConfigurationEntry, tt);
}

deserialize_from_stream-serialize_to_stream_example :
    deserialize_from_stream memory (serialize_to_stream memory state) unset ≡ (
      record {
        metadata = state.metadata;
        cache =
            merged memory two
              ((4 ∷ mac_of 9, deletion) ∷ [])
              ((mac_of 9, pack) ∷ (mac_of 8, pack) ∷ [])
              (setting ∷ [])
              empty;
      },
      ok tt,
    )
deserialize_from_stream-serialize_to_stream_example =
    deserialize_from_stream-serialize_to_stream memory memory state unset two
      ((4 ∷ mac_of 9, deletion) ∷ []) ((mac_of 9, pack) ∷ (mac_of 8, pack) ∷ []) (setting ∷ [])
      state_Holds
      record { version_range = omega arith; timestamp_range = omega arith; serial_size = refl }
      memory-Quiet

-- A stream that breaks off within an entry.
deserialize_from_stream-Ends_example :
    Ends (deserialize_from_stream memory (2 ∷ 109 ∷ 0 ∷ 0 ∷ 0 ∷ 7 ∷ []) state).1
deserialize_from_stream-Ends_example =
    deserialize_from_stream-Ends memory (λ key c. tt) (2 ∷ 109 ∷ 0 ∷ 0 ∷ 0 ∷ 7 ∷ []) state
