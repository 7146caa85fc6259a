-- ===== src/State/Local.antt =====
-- repository/state/state.go: `LocalState` over a cache, and its queries and updates.
pub mod Blobs
use plakar.Prelude.{
  ℕ, zero, suc, Bool, true, false, not, ◌&&◌, List, [], ◌∷◌, ◌++◌, if◌then◌else◌, Option, none,
  some, Result, ok, err, panic, stuck, Error, not_found, ◌>>=◌ as result_bind,
}
use plakar.Wire.{Bytes}
use plakar.Resources.{rt_packfile, rt_snapshot}
use plakar.Versioning.{new_version}
use plakar.Caching.StateCache.{StateCache}
use plakar.State.{
  Metadata, Location, DeltaEntry, DeletedEntry, PackfileEntry, ConfigurationEntry,
  delta_entry_from_bytes, delta_entry_to_bytes, packfile_entry_to_bytes, deleted_entry_from_bytes,
  deleted_entry_to_bytes, configuration_entry_from_bytes, configuration_entry_to_bytes, before,
}
use plakar.State.Exec.{
  Exec, pure, raise, lift, gets, continue, ◌>>=◌, ◌>>◌, modify, require, checked,
}

-- The map `configuration` is created and never used.
pub record LocalState (C : Type 0) : Type 0 where
  pub metadata : Metadata
  pub cache : C

abbrev nil_uuid : Bytes
nil_uuid = 0 ∷ 0 ∷ 0 ∷ 0 ∷ 0 ∷ 0 ∷ 0 ∷ 0 ∷ 0 ∷ 0 ∷ 0 ∷ 0 ∷ 0 ∷ 0 ∷ 0 ∷ 0 ∷ []

-- `NewLocalState(cache)` at the time `now`.
unfoldable pub new_local_state : {C : Type 0} → C → ℕ → LocalState C
unfolding new_version
new_local_state cache now = record {
  metadata = record { version = new_version 1 0 0; timestamp = now; serial = nil_uuid };
  cache = cache;
}

-- `Derive`
unfoldable pub derive : {C : Type 0} → LocalState C → C → ℕ → LocalState C
unfolding new_local_state
derive ls cache now =
    let st = new_local_state cache now in
    record st { metadata = record st.metadata { serial = ls.metadata.serial } }

-- `x, _ := f()`: the error is dropped, and the value is false.
abbrev pub or_false : Result Bool → Result Bool
or_false (ok b) = ok b
or_false (err e) = ok false
or_false panic = panic
or_false stuck = stuck

-- What follows a decoder: the entry, or the error that came with it.
abbrev pub on_decoded {ℓ κ} :
    {A : Type ℓ} {B : Type κ}
    → Result (A × Option Error)
    → (A → Result B)
    → (Error → Result B)
    → Result B
on_decoded (ok (a, none)) f g = f a
on_decoded (ok (a, some e)) f g = g e
on_decoded (err e) f g = g e
on_decoded panic f g = panic
on_decoded stuck f g = stuck

-- An error value, or none, as the result of a call.
abbrev pub outcome : Option Error → Result (Unit {0})
outcome none = ok tt
outcome (some e) = err e

module _ {C : Type 0} (i : StateCache C) where
  -- The result of a write to the cache, with its error.
  abbrev pub write : (C → C × Option Error) → Exec (LocalState C) (Unit {0})
  write f ls = (record ls { cache = (f ls.cache).0 }, outcome (f ls.cache).1)

  unfoldable pub has_state : Bytes → LocalState C → Result Bool
  has_state id ls = i.has_state id ls.cache

  unfoldable pub put_delta : DeltaEntry → Exec (LocalState C) (Unit {0})
  put_delta de = write (i.put_delta de.type de.blob de.location.packfile (delta_entry_to_bytes de))

  unfoldable pub del_delta : ℕ → Bytes → Bytes → Exec (LocalState C) (Unit {0})
  del_delta type blob packfile = write (i.del_delta type blob packfile)

  unfoldable pub has_deleted_resource : ℕ → Bytes → C → Result Bool
  has_deleted_resource rtype resource c = i.has_deleted rtype resource c

  -- The test of one delta: its packfile is in the state and is not deleted. A packfile that cannot be
  -- looked up is an error.
  unfoldable pub is_live : DeltaEntry → C → Result Bool
  unfolding has_deleted_resource
  is_live de c = result_bind (i.has_packfile de.location.packfile c) λ present.
      result_bind (or_false (has_deleted_resource rt_packfile de.location.packfile c))
        λ deleted. ok (present && not deleted)

  abbrev pub found_live : Result Bool → Result Bool → Result Bool
  found_live (ok true) rest = ok true
  found_live (ok false) rest = rest
  found_live (err e) rest = rest
  found_live panic rest = panic
  found_live stuck rest = stuck

  -- The loop of `BlobExists`: an entry that does not decode, or whose packfile cannot be looked up, is
  -- passed over.
  unfoldable pub exists_in : List (Bytes × Bytes) → C → Result Bool
  exists_in [] c = ok false
  exists_in ((_, buf) ∷ more) c =
      on_decoded (delta_entry_from_bytes buf) (λ de. found_live (is_live de c) (exists_in more c))
        λ e. exists_in more c

  unfoldable pub blob_exists : ℕ → Bytes → LocalState C → Result Bool
  blob_exists type mac ls = exists_in (i.get_delta type mac ls.cache) ls.cache

  -- The loop of `GetSubpartForBlob`: the first live delta, where an error ends the search.
  unfoldable pub subpart_in : List (Bytes × Bytes) → C → Result (Option Location)
  subpart_in [] c = ok none
  subpart_in ((_, buf) ∷ more) c =
      on_decoded (delta_entry_from_bytes buf)
        (λ de.
          result_bind (is_live de c)
            λ live. if live then ok (some de.location) else subpart_in more c)
        λ e. err e

  unfoldable pub get_subpart_for_blob : ℕ → Bytes → LocalState C → Result (Option Location)
  get_subpart_for_blob type mac ls = subpart_in (i.get_delta type mac ls.cache) ls.cache
