-- ===== src/State/Stream/Whole.antt =====
-- repository/state/state.go: `deserializeFromStream` after `SerializeToStream`, of a whole state.
use plakar.Prelude.{
  ℕ, zero, suc, ◌+◌, ◌<◌, ◌≡◌, refl, ap, ◌∙◌, List, [], ◌∷◌, ◌++◌, arith, length, append-nil, All,
  ok, map,
}
use plakar.Wire.{Bytes, le, read_uint-le, read_full-append}
use plakar.Caching.StateCache.{StateCache}
use plakar.State.{
  Metadata, DeltaEntry, DeletedEntry, PackfileEntry, ConfigurationEntry, et_locations, et_deleted,
  et_packfile, delta_entry_serialized_size, deleted_entry_serialized_size,
  packfile_entry_serialized_size, delta_entry_to_bytes, deleted_entry_to_bytes,
  packfile_entry_to_bytes, configuration_entry_to_bytes,
}
use plakar.State.Entries.{
  encoded, IsDeltaEntry, IsDeletedEntry, IsPackfileEntry, IsConfigurationEntry,
}
use plakar.State.Local.{LocalState}
use plakar.State.Stream.{
  write_entries, write_configurations, write_metadata, serialize_to_stream, merge_entries,
  read_metadata, deserialize_from_stream,
}
use plakar.State.Stream.RoundTrip.{
  put_one_delta, put_one_deleted, put_one_packfile, put_each, merge_entries-delta,
  merge_entries-deleted, merge_entries-packfile, merge_entries-write_entries,
}
use plakar.State.Stream.Merge.{
  Quiet, IsMetadata, Holds, put_configurations, merge_entries-write_configurations,
  length-write_entries, length-write_configurations,
}

length-encoded :
    {E : Type 0} (to_bytes : E → Bytes) (es : List (Bytes × E))
    → length (encoded to_bytes es) ≡ length es
unfolding encoded
length-encoded to_bytes [] = refl
length-encoded to_bytes ((key, e) ∷ es) = ap suc (length-encoded to_bytes es)

length-map : {A B : Type 0} (f : A → B) (xs : List A) → length (map f xs) ≡ length xs
length-map f [] = refl
length-map f (x ∷ xs) = ap suc (length-map f xs)

-- One round for each entry is not more than the stream is long.
entries-lt-length :
    (mt : Metadata) (deltas : List (Bytes × DeltaEntry)) (deleteds : List (Bytes × DeletedEntry))
    (packfiles : List (Bytes × PackfileEntry)) (configurations : List ConfigurationEntry)
    → length deltas + length deleteds + length packfiles + length configurations
      < suc (
          length (
            write_entries et_locations delta_entry_serialized_size
              (encoded delta_entry_to_bytes deltas)
              (write_entries et_deleted deleted_entry_serialized_size
                (encoded deleted_entry_to_bytes deleteds)
                (write_entries et_packfile packfile_entry_serialized_size
                  (encoded packfile_entry_to_bytes packfiles)
                  (write_configurations
                    (map configuration_entry_to_bytes configurations)
                    (write_metadata mt))))))
entries-lt-length mt deltas deleteds packfiles configurations =
    let c =
      write_configurations (map configuration_entry_to_bytes configurations) (write_metadata mt) in
    let p =
      write_entries et_packfile packfile_entry_serialized_size
        (encoded packfile_entry_to_bytes packfiles) c in
    let d =
      write_entries et_deleted deleted_entry_serialized_size
        (encoded deleted_entry_to_bytes deleteds) p in
    omega (
      arith,
      length-write_entries et_locations delta_entry_serialized_size
          (encoded delta_entry_to_bytes deltas) d,
      length-write_entries et_deleted deleted_entry_serialized_size
          (encoded deleted_entry_to_bytes deleteds) p,
      length-write_entries et_packfile packfile_entry_serialized_size
          (encoded packfile_entry_to_bytes packfiles) c,
      length-write_configurations (map configuration_entry_to_bytes configurations)
          (write_metadata mt),
      length-encoded delta_entry_to_bytes deltas,
      length-encoded deleted_entry_to_bytes deleteds,
      length-encoded packfile_entry_to_bytes packfiles,
      length-map configuration_entry_to_bytes configurations,
    )

module _ {C : Type 0} (i : StateCache C) where
  -- The cache after the entries of another state have been merged into it.
  abbrev pub merged :
      List (Bytes × DeltaEntry)
      → List (Bytes × DeletedEntry)
      → List (Bytes × PackfileEntry)
      → List ConfigurationEntry
      → C
      → C
  merged deltas deleteds packfiles configurations c = put_configurations i configurations (
      put_each i (put_one_packfile i) packfiles
        (put_each i (put_one_deleted i) deleteds (put_each i (put_one_delta i) deltas c)))

  read_metadata-write :
      (mt : Metadata) (ls : LocalState C)
      → IsMetadata mt
      → read_metadata i (le 4 mt.version ++ (le 8 mt.timestamp ++ mt.serial)) ls
        ≡ (record ls { metadata = mt }, ok tt)
  unfolding read_metadata
  read_metadata-write mt ls h = rw (
    read_uint-le 4 mt.version (le 8 mt.timestamp ++ mt.serial) h.version_range,
    read_uint-le 8 mt.timestamp mt.serial h.timestamp_range,
    rw (append-nil mt.serial) at (read_full-append 16 mt.serial [] h.serial_size),
  )

  merge_entries-write_metadata :
      (mt : Metadata) (fuel : ℕ) (ls : LocalState C)
      → 0 < fuel
      → merge_entries i fuel (write_metadata mt) ls
        ≡ (ls, ok (le 4 mt.version ++ (le 8 mt.timestamp ++ mt.serial)))
  unfolding merge_entries write_metadata
  merge_entries-write_metadata mt zero ls h = absurd (omega arith)
  merge_entries-write_metadata mt (suc fuel) ls h = refl

  -- The stream of a state, read by enough rounds.
  merge_entries-image :
      (fuel : ℕ) (mt : Metadata) (to : LocalState C) (deltas : List (Bytes × DeltaEntry))
      (deleteds : List (Bytes × DeletedEntry)) (packfiles : List (Bytes × PackfileEntry))
      (configurations : List ConfigurationEntry)
      → Quiet i
      → All (λ e. IsDeltaEntry e.1) deltas
      → All (λ e. IsDeletedEntry e.1) deleteds
      → All (λ e. IsPackfileEntry e.1) packfiles
      → All IsConfigurationEntry configurations
      → length deltas + length deleteds + length packfiles + length configurations < fuel
      → merge_entries i fuel
          (write_entries et_locations delta_entry_serialized_size
            (encoded delta_entry_to_bytes deltas)
            (write_entries et_deleted deleted_entry_serialized_size
              (encoded deleted_entry_to_bytes deleteds)
              (write_entries et_packfile packfile_entry_serialized_size
                (encoded packfile_entry_to_bytes packfiles)
                (write_configurations
                  (map configuration_entry_to_bytes configurations)
                  (write_metadata mt)))))
          to
        ≡ (
          record to { cache = merged deltas deleteds packfiles configurations to.cache },
          ok (le 4 mt.version ++ (le 8 mt.timestamp ++ mt.serial)),
        )
  merge_entries-image fuel mt to deltas deleteds packfiles configurations q hd hx hp hc hf =
      merge_entries-write_entries i et_locations delta_entry_serialized_size delta_entry_to_bytes
        (put_one_delta i) IsDeltaEntry (merge_entries-delta i) deltas fuel _ to hd (omega arith)
      ∙ merge_entries-write_entries i et_deleted deleted_entry_serialized_size
          deleted_entry_to_bytes (put_one_deleted i) IsDeletedEntry (merge_entries-deleted i)
          deleteds _ _ _ hx (omega arith)
      ∙ merge_entries-write_entries i et_packfile packfile_entry_serialized_size
          packfile_entry_to_bytes (put_one_packfile i) IsPackfileEntry (merge_entries-packfile i)
          packfiles _ _ _ hp (omega arith)
      ∙ merge_entries-write_configurations i configurations _ _ _ q hc (omega arith)
      ∙ merge_entries-write_metadata mt _ _ (omega arith)

  -- `deserializeFromStream` on what `SerializeToStream` wrote of a state, into any state: each entry of
  -- the first one's cache is put into the second one's, by kind and in order, and the metadata become the
  -- first one's; no error. The first cache holds entries in range, and the second answers about
  -- configurations without an error.
  pub deserialize_from_stream-serialize_to_stream :
      {D : Type 0} (j : StateCache D) (from : LocalState D) (to : LocalState C)
      (deltas : List (Bytes × DeltaEntry)) (deleteds : List (Bytes × DeletedEntry))
      (packfiles : List (Bytes × PackfileEntry)) (configurations : List ConfigurationEntry)
      → Holds j from.cache deltas deleteds packfiles configurations
      → IsMetadata from.metadata
      → Quiet i
      → deserialize_from_stream i (serialize_to_stream j from) to ≡ (
        record {
          metadata = from.metadata;
          cache = merged deltas deleteds packfiles configurations to.cache;
        },
        ok tt,
      )
  unfolding deserialize_from_stream serialize_to_stream
  deserialize_from_stream-serialize_to_stream j from to deltas deleteds packfiles configurations h
        hm q =
      rw (
        h.deltas_are,
        h.deleteds_are,
        h.packfiles_are,
        h.configurations_are,
        merge_entries-image _ from.metadata to deltas deleteds packfiles configurations q
            h.delta_range h.deleted_range h.packfile_range h.configuration_range
            (entries-lt-length from.metadata deltas deleteds packfiles configurations),
        read_metadata-write from.metadata
            (record to { cache = merged deltas deleteds packfiles configurations to.cache }) hm,
      )
