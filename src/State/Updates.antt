-- ===== src/State/Updates.antt =====
-- repository/state/state.go: the operations of `LocalState` that write to its cache, and the serial.
-- The metadata of a state is encoded by msgpack: `unmarshal` is a parameter.
pub mod Serial
pub mod Configuration
use plakar.Prelude.{
  ℕ, Bool, true, false, List, [], ◌∷◌, if◌then◌else◌, Option, none, some, Result, ok, err, panic,
  stuck, Error, not_found,
}
use plakar.Wire.{Bytes}
use plakar.Caching.StateCache.{StateCache}
use plakar.State.{
  Metadata, DeletedEntry, PackfileEntry, ConfigurationEntry, packfile_entry_to_bytes,
  deleted_entry_to_bytes, configuration_entry_from_bytes, configuration_entry_to_bytes, before,
}
use plakar.State.Exec.{Exec, pure, raise, lift, gets, continue, ◌>>=◌, ◌>>◌, modify, checked}
use plakar.State.Local.{LocalState, write}

module _ {C : Type 0} (i : StateCache C) where
  unfoldable pub put_packfile : ℕ → Bytes → Bytes → Exec (LocalState C) (Unit {0})
  put_packfile now state_id packfile =
      let pe : PackfileEntry = record {
        packfile = packfile;
        state_id = state_id;
        timestamp = now;
      } in
      write i (i.put_packfile pe.packfile (packfile_entry_to_bytes pe))

  unfoldable pub del_packfile : Bytes → Exec (LocalState C) (Unit {0})
  del_packfile packfile = write i (i.del_packfile packfile)

  unfoldable pub delete_resource : ℕ → ℕ → Bytes → Exec (LocalState C) (Unit {0})
  delete_resource now rtype resource =
      let de : DeletedEntry = record { type = rtype; blob = resource; when = now } in
      write i (i.put_deleted de.type de.blob (deleted_entry_to_bytes de))

  unfoldable pub del_deleted_resource : ℕ → Bytes → Exec (LocalState C) (Unit {0})
  del_deleted_resource rtype mac = write i (i.del_deleted rtype mac)

  unfoldable pub put_configuration : ConfigurationEntry → Exec (LocalState C) (Unit {0})
  put_configuration ce = write i (i.put_configuration ce.key (configuration_entry_to_bytes ce))

  -- What follows the cache's answer about the stored entry.
  unfoldable pub on_stored : Result Bytes → ConfigurationEntry → Exec (LocalState C) (Unit {0})
  unfolding put_configuration
  on_stored (ok value) ce = put_configuration ce
  on_stored (err not_found) ce = do
    old ← checked (configuration_entry_from_bytes [])
    if before old.created_at ce.created_at then put_configuration ce else pure tt
  on_stored (err e) ce = raise e
  on_stored panic ce = lift panic
  on_stored stuck ce = lift stuck

  -- `insertOrUpdateConfiguration`: the stored entry is read, and compared, where the cache answers
  -- `leveldb.ErrNotFound`, whose value is nil.
  unfoldable pub insert_or_update_configuration :
      ConfigurationEntry → Exec (LocalState C) (Unit {0})
  unfolding on_stored
  insert_or_update_configuration ce ls = on_stored (i.get_configuration ce.key ls.cache) ce ls

  unfoldable pub set_configuration : ℕ → Bytes → Bytes → Exec (LocalState C) (Unit {0})
  set_configuration now key value =
      insert_or_update_configuration (record { key = key; value = value; created_at = now })

  module _ (unmarshal : Bytes → Result Metadata) where
    abbrev pub newer : Option Metadata → Metadata → Bool
    newer none mt = true
    newer (some latest) mt = before latest.timestamp mt.timestamp

    -- The loop of `UpdateSerialOr`, in the order in which the map is gone through.
    unfoldable pub latest_in :
        List (Bytes × Bytes) → Option Metadata → Exec (LocalState C) (Option Metadata)
    latest_in [] latest = pure latest
    latest_in ((_, buf) ∷ more) latest = do
      mt ← lift (unmarshal buf)
      latest_in more (if newer latest mt then some mt else latest)

    abbrev pub serial_or : Option Metadata → Bytes → Bytes
    serial_or none serial = serial
    serial_or (some mt) serial = mt.serial

    unfoldable pub update_serial_or : Bytes → Exec (LocalState C) (Unit {0})
    update_serial_or serial ls =
        (do
          states ← lift (i.get_states ls.cache)
          latest ← latest_in states none
          modify λ ls. record ls {
            metadata = record ls.metadata { serial = serial_or latest serial };
          })
          ls
