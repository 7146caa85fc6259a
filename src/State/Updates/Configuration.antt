-- ===== src/State/Updates/Configuration.antt =====
-- repository/state/state.go: deletion marks, and the configuration entries of a state.
use plakar.Prelude.{
  short_read, ◌>>=◌, inl, inr, Error, ℕ, Bool, true, false, ◌≡◌, ◌≢◌, none, some, Result, ok, err,
  not_found,
}
use plakar.Wire.{Bytes}
use plakar.Resources.{rt_packfile}
use plakar.Caching.StateCache.{StateCache}
use plakar.State.{
  Location, ConfigurationEntry, configuration_entry_to_bytes, configuration_entry_from_bytes,
}
use plakar.State.Entries.{IsConfigurationEntry, configuration_entry_from_bytes-to_bytes}
use plakar.State.Local.{LocalState, get_subpart_for_blob}
use plakar.State.Local.Blobs.{get_subpart_for_blob-Live}
use plakar.State.Updates.{delete_resource, insert_or_update_configuration}

true-ne-false : ◌≡◌ {A = Result Bool} (ok true) (ok false) → ⊥
true-ne-false e = cc

ok-ne-err : {b : Bool} {e : Error} → ◌≡◌ {A = Result Bool} (ok b) (err e) → ⊥
ok-ne-err h = cc

module _ {C : Type 0} (i : StateCache C) where
  -- Once `DeleteResource` has marked a packfile, `GetSubpartForBlob` gives no location in it, of any
  -- blob, in a cache that finds the marks written to it.
  pub get_subpart_for_blob-delete_resource :
      ((rtype : ℕ) (mac buf : Bytes) (c : C)
        → i.has_deleted rtype mac (i.put_deleted rtype mac buf c).0 ≡ ok true)
      → (now : ℕ) (packfile : Bytes) (ls : LocalState C) (type : ℕ) (mac : Bytes) (loc : Location)
      → get_subpart_for_blob i type mac (delete_resource i now rt_packfile packfile ls).0
        ≡ ok (some loc)
      → loc.packfile ≢ packfile
  unfolding delete_resource
  get_subpart_for_blob-delete_resource marks now packfile ls type mac loc h same =
      elim ((get_subpart_for_blob-Live i _ type mac loc h).1) [
        | inl unmarked ↦
            true-ne-false (rw (same, marks rt_packfile packfile _ ls.cache) at unmarked)
        | inr (e, failed) ↦ ok-ne-err (rw (same, marks rt_packfile packfile _ ls.cache) at failed)
      ]

  -- `insertOrUpdateConfiguration` leaves its own entry in the cache, whatever entry was stored under
  -- the key before and however much later that one was created: what the cache then holds decodes to the
  -- new entry. The cache answers the lookup without an error and finds what is written to it, and the
  -- entry is in range.
  pub insert_or_update_configuration-overwrites :
      ((key value : Bytes) (c : C)
        → i.get_configuration key (i.put_configuration key value c).0 ≡ ok value)
      → (ls : LocalState C) (ce : ConfigurationEntry) (stored : Bytes) → IsConfigurationEntry ce
      → i.get_configuration ce.key ls.cache ≡ ok stored
      → (i.get_configuration ce.key (insert_or_update_configuration i ce ls).0.cache
          >>= configuration_entry_from_bytes)
        ≡ ok (ce, none)
  unfolding insert_or_update_configuration
  insert_or_update_configuration-overwrites found ls ce stored h e =
      rw (e, found ce.key (configuration_entry_to_bytes ce) ls.cache)
        (configuration_entry_from_bytes-to_bytes ce h)

  -- A cache that reports a missing key as `leveldb.ErrNotFound` never takes a configuration entry:
  -- `insertOrUpdateConfiguration` fails, and the cache stays as it is.
  pub insert_or_update_configuration-not_found :
      (ls : LocalState C) (ce : ConfigurationEntry)
      → i.get_configuration ce.key ls.cache ≡ err not_found
      → insert_or_update_configuration i ce ls ≡ (ls, err short_read)
  unfolding insert_or_update_configuration configuration_entry_from_bytes
  insert_or_update_configuration-not_found ls ce e = rw e
