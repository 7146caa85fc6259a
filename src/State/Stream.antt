-- ===== src/State/Stream.antt =====
-- repository/state/state.go: a state written to a stream, and merged from one. The writer is the bytes
-- that are written, and its errors are not modelled; the reader is the bytes that are left.
pub mod RoundTrip
pub mod Merge
pub mod Whole
pub mod Ending
use plakar.Prelude.{
  ◌-◌, ◌*◌, ◌/◌, ◌≤◌, ◌<◌, ◌≡◌, refl, sym, ap, ◌∙◌, ◌≢◌, ◌⊎◌, inl, inr, not, ◌&&◌, ◌||◌, arith, ℕ,
  zero, suc, ◌+◌, ◌%◌, ◌^◌, Bool, true, false, List, [], ◌∷◌, ◌++◌, length, drop, ◌==◌,
  if◌then◌else◌, Option, none, some, Result, ok, err, stuck, panic, Error, bad_entry_type,
  bad_entry_length,
}
use plakar.Wire.{Bytes, le, read_uint, read_full}
use plakar.Caching.StateCache.{StateCache}
use plakar.State.{
  Metadata, DeltaEntry, DeletedEntry, PackfileEntry, ConfigurationEntry, et_metadata, et_locations,
  et_deleted, et_packfile, et_configuration, delta_entry_serialized_size,
  deleted_entry_serialized_size, packfile_entry_serialized_size, delta_entry_from_bytes,
  deleted_entry_from_bytes, packfile_entry_from_bytes, configuration_entry_from_bytes,
}
use plakar.State.Exec.{
  Exec, pure, raise, lift, gets, continue, ◌>>=◌, ◌>>◌, modify, checked, require,
}
use plakar.State.Local.{LocalState, outcome, has_state}
use plakar.State.Updates.{insert_or_update_configuration}

-- One of the loops of `SerializeToStream` over entries of one size, before what is written next.
unfoldable pub write_entries : ℕ → ℕ → List (Bytes × Bytes) → Bytes → Bytes
write_entries et size [] tail = tail
write_entries et size ((_, entry) ∷ more) tail =
    et ∷ (le 4 size ++ (entry ++ write_entries et size more tail))

unfoldable pub write_configurations : List Bytes → Bytes → Bytes
write_configurations [] tail = tail
write_configurations (entry ∷ more) tail =
    et_configuration ∷ (le 4 (length entry % 2 ^ 32) ++ (entry ++ write_configurations more tail))

unfoldable pub write_metadata : Metadata → Bytes
write_metadata mt = et_metadata ∷ (le 4 mt.version ++ (le 8 mt.timestamp ++ mt.serial))

module _ {C : Type 0} (i : StateCache C) where
  unfoldable pub serialize_to_stream : LocalState C → Bytes
  serialize_to_stream ls =
      write_entries et_locations delta_entry_serialized_size (i.get_deltas ls.cache) (
        write_entries et_deleted deleted_entry_serialized_size (i.get_deleteds ls.cache) (
          write_entries et_packfile packfile_entry_serialized_size (i.get_packfiles ls.cache)
            (write_configurations (i.get_configurations ls.cache) (write_metadata ls.metadata))))

  -- `ls.cache.PutX(...)` with its error dropped.
  abbrev pub put : (C → C × Option Error) → Exec (LocalState C) (Unit {0})
  put f = modify (λ ls. record ls { cache = (f ls.cache).0 })

  unfoldable pub read_location : ℕ → Bytes → Exec (LocalState C) Bytes
  read_location size r = do
    require (size == delta_entry_serialized_size) bad_entry_length
    (buf, r) ← lift (read_full delta_entry_serialized_size r)
    delta ← checked (delta_entry_from_bytes buf)
    put (i.put_delta delta.type delta.blob delta.location.packfile buf)
    pure r

  unfoldable pub read_deleted : ℕ → Bytes → Exec (LocalState C) Bytes
  read_deleted size r = do
    require (size == deleted_entry_serialized_size) bad_entry_length
    (buf, r) ← lift (read_full deleted_entry_serialized_size r)
    deleted ← checked (deleted_entry_from_bytes buf)
    put (i.put_deleted deleted.type deleted.blob buf)
    pure r

  unfoldable pub read_packfile : ℕ → Bytes → Exec (LocalState C) Bytes
  read_packfile size r = do
    require (size == packfile_entry_serialized_size) bad_entry_length
    (buf, r) ← lift (read_full packfile_entry_serialized_size r)
    pe ← checked (packfile_entry_from_bytes buf)
    put (i.put_packfile pe.packfile buf)
    pure r

  unfoldable pub read_configuration : ℕ → Bytes → Exec (LocalState C) Bytes
  read_configuration size r = do
    (buf, r) ← lift (read_full size r)
    ce ← checked (configuration_entry_from_bytes buf)
    insert_or_update_configuration i ce
    pure r

  -- The switch on the type of an entry of `size` bytes. An entry of an unknown type is skipped, as far
  -- as the stream goes.
  unfoldable pub switch : ℕ → ℕ → Bytes → Exec (LocalState C) Bytes
  switch et size r =
      if et == et_locations
      then read_location size r
      else if et == et_deleted
      then read_deleted size r
      else if et == et_packfile
      then read_packfile size r
      else if et == et_configuration
      then read_configuration size r
      else pure (drop size r)

  -- The body of the loop behind the entry's type: its length, and the switch.
  unfoldable pub read_entry : ℕ → Bytes → Exec (LocalState C) Bytes
  read_entry et r = do (size, r) ← lift (read_uint 4 r); switch et size r

  -- The loop of `deserializeFromStream`, up to the metadata; each round takes a byte at least.
  unfoldable pub merge_entries : ℕ → Bytes → Exec (LocalState C) Bytes
  merge_entries zero r = lift stuck
  merge_entries (suc fuel) [] = raise bad_entry_type
  merge_entries (suc fuel) (et ∷ r) =
      let rest : Exec (LocalState C) Bytes = (do r' ← read_entry et r; merge_entries fuel r') in
      if et == et_metadata then pure r else rest

  unfoldable pub read_metadata : Bytes → Exec (LocalState C) (Unit {0})
  read_metadata r = do
    (version, r) ← lift (read_uint 4 r)
    modify λ ls. record ls { metadata = record ls.metadata { version = version } }
    (timestamp, r) ← lift (read_uint 8 r)
    modify λ ls. record ls { metadata = record ls.metadata { timestamp = timestamp } }
    (serial, r) ← lift (read_full 16 r)
    modify λ ls. record ls { metadata = record ls.metadata { serial = serial } }

  unfoldable pub deserialize_from_stream : Bytes → Exec (LocalState C) (Unit {0})
  deserialize_from_stream r = do r' ← merge_entries (suc (length r)) r; read_metadata r'

  abbrev pub stored : LocalState C → Result (C × Option Error) → LocalState C × Result (Unit {0})
  stored ls (ok (c, e)) = (record ls { cache = c }, outcome e)
  stored ls (err e) = (ls, err e)
  stored ls panic = (ls, panic)
  stored ls stuck = (ls, stuck)

  unfoldable pub put_state : Bytes → Bytes → Exec (LocalState C) (Unit {0})
  put_state id mt ls = stored ls (i.put_state id mt ls.cache)

  unfoldable pub del_state : Bytes → Exec (LocalState C) (Unit {0})
  del_state id ls = stored ls (i.del_state id ls.cache)

  -- `InsertState`; `marshal` is the msgpack encoding of the metadata.
  unfoldable pub insert_state :
      (Metadata → Result Bytes) → Bytes → Bytes → Exec (LocalState C) (Unit {0})
  insert_state marshal id rd = do
    has ← (λ ls. (ls, has_state i id ls))
    if has
        then pure tt
        else do deserialize_from_stream rd; mt ← (λ ls. (ls, marshal ls.metadata)); put_state id mt
