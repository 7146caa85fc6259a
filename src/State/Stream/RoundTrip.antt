-- ===== src/State/Stream/RoundTrip.antt =====
-- repository/state/state.go: `deserializeFromStream` on what `SerializeToStream` wrote.
use plakar.Prelude.{zero, [], ◌∙◌, ◌-◌, ◌≤◌, length, All, List, ℕ, suc, ◌≡◌, ◌∷◌, ◌++◌, ok, arith}
use plakar.Wire.{Bytes, le, read_uint-le, read_full-append}
use plakar.Caching.StateCache.{StateCache}
use plakar.State.{
  et_packfile, packfile_entry_serialized_size, packfile_entry_to_bytes, et_deleted,
  deleted_entry_serialized_size, deleted_entry_to_bytes, PackfileEntry, DeletedEntry, DeltaEntry,
  et_locations, delta_entry_serialized_size, delta_entry_to_bytes,
}
use plakar.State.Entries
use plakar.State.Entries.{
  encoded, IsDeltaEntry, IsDeletedEntry, IsPackfileEntry, IsConfigurationEntry,
}
use plakar.State.Local.{LocalState}
use plakar.State.Stream.{
  write_entries, read_packfile, read_deleted, read_location, switch, read_entry, merge_entries,
}

module _ {C : Type 0} (i : StateCache C) where
  abbrev pub put_one_delta : DeltaEntry → C → C
  put_one_delta de c =
      (i.put_delta de.type de.blob de.location.packfile (delta_entry_to_bytes de) c).0

  read_location-to_bytes :
      (de : DeltaEntry) (rest : Bytes) (ls : LocalState C)
      → IsDeltaEntry de
      → read_location i delta_entry_serialized_size (delta_entry_to_bytes de ++ rest) ls
        ≡ (record ls { cache = put_one_delta de ls.cache }, ok rest)
  unfolding read_location
  read_location-to_bytes de rest ls h = rw (
    read_full-append delta_entry_serialized_size (delta_entry_to_bytes de) rest
        (Entries.length-delta_entry_to_bytes de h),
    Entries.delta_entry_from_bytes-to_bytes de h,
  )

  pub merge_entries-delta :
      (de : DeltaEntry) (fuel : ℕ) (rest : Bytes) (ls : LocalState C)
      → IsDeltaEntry de
      → merge_entries i
          (suc fuel)
          (et_locations ∷ (le 4 delta_entry_serialized_size ++ (delta_entry_to_bytes de ++ rest)))
          ls
        ≡ merge_entries i fuel rest (record ls { cache = put_one_delta de ls.cache })
  unfolding merge_entries read_entry switch
  merge_entries-delta de fuel rest ls h = rw (
    read_uint-le 4 delta_entry_serialized_size (delta_entry_to_bytes de ++ rest) (omega arith),
    read_location-to_bytes de rest ls h,
  )

  abbrev pub put_one_deleted : DeletedEntry → C → C
  put_one_deleted de c = (i.put_deleted de.type de.blob (deleted_entry_to_bytes de) c).0

  read_deleted-to_bytes :
      (de : DeletedEntry) (rest : Bytes) (ls : LocalState C)
      → IsDeletedEntry de
      → read_deleted i deleted_entry_serialized_size (deleted_entry_to_bytes de ++ rest) ls
        ≡ (record ls { cache = put_one_deleted de ls.cache }, ok rest)
  unfolding read_deleted
  read_deleted-to_bytes de rest ls h = rw (
    read_full-append deleted_entry_serialized_size (deleted_entry_to_bytes de) rest
        (Entries.length-deleted_entry_to_bytes de h),
    Entries.deleted_entry_from_bytes-to_bytes de h,
  )

  pub merge_entries-deleted :
      (de : DeletedEntry) (fuel : ℕ) (rest : Bytes) (ls : LocalState C)
      → IsDeletedEntry de
      → merge_entries i
          (suc fuel)
          (et_deleted ∷ (le 4 deleted_entry_serialized_size ++ (deleted_entry_to_bytes de ++ rest)))
          ls
        ≡ merge_entries i fuel rest (record ls { cache = put_one_deleted de ls.cache })
  unfolding merge_entries read_entry switch
  merge_entries-deleted de fuel rest ls h = rw (
    read_uint-le 4 deleted_entry_serialized_size (deleted_entry_to_bytes de ++ rest) (omega arith),
    read_deleted-to_bytes de rest ls h,
  )

  abbrev pub put_one_packfile : PackfileEntry → C → C
  put_one_packfile pe c = (i.put_packfile pe.packfile (packfile_entry_to_bytes pe) c).0

  read_packfile-to_bytes :
      (pe : PackfileEntry) (rest : Bytes) (ls : LocalState C)
      → IsPackfileEntry pe
      → read_packfile i packfile_entry_serialized_size (packfile_entry_to_bytes pe ++ rest) ls
        ≡ (record ls { cache = put_one_packfile pe ls.cache }, ok rest)
  unfolding read_packfile
  read_packfile-to_bytes pe rest ls h = rw (
    read_full-append packfile_entry_serialized_size (packfile_entry_to_bytes pe) rest
        (Entries.length-packfile_entry_to_bytes pe h),
    Entries.packfile_entry_from_bytes-to_bytes pe h,
  )

  pub merge_entries-packfile :
      (pe : PackfileEntry) (fuel : ℕ) (rest : Bytes) (ls : LocalState C)
      → IsPackfileEntry pe
      → merge_entries i
          (suc fuel)
          (et_packfile
            ∷ (le 4 packfile_entry_serialized_size ++ (packfile_entry_to_bytes pe ++ rest)))
          ls
        ≡ merge_entries i fuel rest (record ls { cache = put_one_packfile pe ls.cache })
  unfolding merge_entries read_entry switch
  merge_entries-packfile pe fuel rest ls h = rw (
    read_uint-le 4 packfile_entry_serialized_size (packfile_entry_to_bytes pe ++ rest)
        (omega arith),
    read_packfile-to_bytes pe rest ls h,
  )

  -- The cache after writes of one kind, in order.
  unfoldable pub put_each : {E : Type 0} → (E → C → C) → List (Bytes × E) → C → C
  put_each one [] c = c
  put_each one ((_, e) ∷ more) c = put_each one more (one e c)

  -- A loop of the serializer over entries of one size, read back: each entry by one round.
  pub merge_entries-write_entries :
      {E : Type 0} (et size : ℕ) (to_bytes : E → Bytes) (one : E → C → C) (Valid : E → Type 0)
      → ((e : E) (fuel : ℕ) (rest : Bytes) (ls : LocalState C)
          → Valid e
          → merge_entries i (suc fuel) (et ∷ (le 4 size ++ (to_bytes e ++ rest))) ls
            ≡ merge_entries i fuel rest (record ls { cache = one e ls.cache }))
      → (es : List (Bytes × E)) (fuel : ℕ) (tail : Bytes) (ls : LocalState C)
      → All (λ e. Valid e.1) es
      → length es ≤ fuel
      → merge_entries i fuel (write_entries et size (encoded to_bytes es) tail) ls
        ≡ merge_entries i (fuel - length es) tail (record ls { cache = put_each one es ls.cache })
  unfolding write_entries encoded put_each
  merge_entries-write_entries et size to_bytes one Valid step [] fuel tail ls h hf =
      let same : fuel - 0 ≡ fuel = omega arith in rw same
  merge_entries-write_entries et size to_bytes one Valid step (e ∷ es) zero tail ls h hf =
      absurd (omega arith)
  merge_entries-write_entries et size to_bytes one Valid step ((key, e) ∷ es) (suc fuel) tail ls
        (he, h) hf =
      let same : suc fuel - suc (length es) ≡ fuel - length es = omega arith in
      step e fuel (write_entries et size (encoded to_bytes es) tail) ls he
      ∙ merge_entries-write_entries et size to_bytes one Valid step es fuel tail
          (record ls { cache = one e ls.cache }) h (omega arith)
      ∙ rw same
