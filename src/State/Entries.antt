-- ===== src/State/Entries.antt =====
-- repository/state/state.go: the entries of a state, written and read back.
use plakar.Prelude.{
  ◌∷◌, List, ℕ, ◌%◌, ◌^◌, ◌<◌, ◌≡◌, refl, [], ◌++◌, length, length-append, append-nil, le→leb,
  take-append, drop-append, arith, none, ok,
}
use plakar.Wire.{Bytes, le, length-le, of_le-le}
use plakar.State.{
  DeltaEntry, PackfileEntry, DeletedEntry, ConfigurationEntry, delta_entry_from_bytes,
  delta_entry_to_bytes, packfile_entry_from_bytes, packfile_entry_to_bytes,
  deleted_entry_from_bytes, deleted_entry_to_bytes, configuration_entry_from_bytes,
  configuration_entry_to_bytes, fill, filled, next_uint, delta_entry_serialized_size,
  deleted_entry_serialized_size, packfile_entry_serialized_size,
}

-- The fields lie in the ranges of their Go types, and the type fits the byte that is written.
pub record IsDeltaEntry (de : DeltaEntry) : Type 0 where
  pub type_range : de.type < 256
  pub version_range : de.version < 256 ^ 4
  pub blob_size : length de.blob ≡ 32
  pub packfile_size : length de.location.packfile ≡ 32
  pub offset_range : de.location.offset < 256 ^ 8
  pub length_range : de.location.length < 256 ^ 4
  pub flags_range : de.flags < 256 ^ 4

pub record IsPackfileEntry (pe : PackfileEntry) : Type 0 where
  pub packfile_size : length pe.packfile ≡ 32
  pub state_id_size : length pe.state_id ≡ 32
  pub timestamp_range : pe.timestamp < 256 ^ 8

pub record IsDeletedEntry (de : DeletedEntry) : Type 0 where
  pub type_range : de.type < 256
  pub blob_size : length de.blob ≡ 32
  pub when_range : de.when < 256 ^ 8

-- The key and the value fit the lengths that are written.
pub record IsConfigurationEntry (ce : ConfigurationEntry) : Type 0 where
  pub key_size : length ce.key < 256
  pub value_size : length ce.value < 2 ^ 16
  pub created_at_range : ce.created_at < 256 ^ 8

fill-append : (n : ℕ) (xs ys : Bytes) → length xs ≡ n → fill n (xs ++ ys) ≡ filled xs ys
unfolding fill
fill-append n xs ys h = rw (
  le→leb n (length (xs ++ ys)) (omega (arith, length-append xs ys)),
  take-append n xs ys h,
  drop-append n xs ys h,
)

next_uint-le : (n v : ℕ) (ys : Bytes) → v < 256 ^ n → next_uint n (le n v ++ ys) ≡ ok (v, ys)
unfolding next_uint
next_uint-le n v ys h = rw (
  le→leb n (length (le n v ++ ys)) (omega (arith, length-append (le n v) ys, length-le n v)),
  take-append n (le n v) ys (length-le n v),
  drop-append n (le n v) ys (length-le n v),
  of_le-le n v h,
)

next_uint-le_end : (n v : ℕ) → v < 256 ^ n → next_uint n (le n v) ≡ ok (v, [])
next_uint-le_end n v h = rw (append-nil (le n v)) at (next_uint-le n v [] h)

-- `DeltaEntryFromBytes` reads back what `ToBytes` wrote: a delta entry whose fields are in range and
-- whose type is below 256.
pub delta_entry_from_bytes-to_bytes :
    (de : DeltaEntry)
    → IsDeltaEntry de
    → delta_entry_from_bytes (delta_entry_to_bytes de) ≡ ok (de, none)
unfolding delta_entry_from_bytes delta_entry_to_bytes
delta_entry_from_bytes-to_bytes de h =
    let byte : de.type % 256 ≡ de.type = omega (arith, h.type_range) in
    rw (
      byte,
      next_uint-le 4 de.version _ h.version_range,
      fill-append 32 de.blob _ h.blob_size,
      fill-append 32 de.location.packfile _ h.packfile_size,
      next_uint-le 8 de.location.offset _ h.offset_range,
      next_uint-le 4 de.location.length _ h.length_range,
      next_uint-le_end 4 de.flags h.flags_range,
    )

pub length-delta_entry_to_bytes :
    (de : DeltaEntry)
    → IsDeltaEntry de
    → length (delta_entry_to_bytes de) ≡ delta_entry_serialized_size
unfolding delta_entry_to_bytes
length-delta_entry_to_bytes de h = simp (length-append, length-le, h.blob_size, h.packfile_size)

-- `PackfileEntryFromBytes` reads back what `ToBytes` wrote, if the fields are in range.
pub packfile_entry_from_bytes-to_bytes :
    (pe : PackfileEntry)
    → IsPackfileEntry pe
    → packfile_entry_from_bytes (packfile_entry_to_bytes pe) ≡ ok (pe, none)
unfolding packfile_entry_from_bytes packfile_entry_to_bytes
packfile_entry_from_bytes-to_bytes pe h = rw (
  fill-append 32 pe.packfile _ h.packfile_size,
  fill-append 32 pe.state_id _ h.state_id_size,
  next_uint-le_end 8 pe.timestamp h.timestamp_range,
)

pub length-packfile_entry_to_bytes :
    (pe : PackfileEntry)
    → IsPackfileEntry pe
    → length (packfile_entry_to_bytes pe) ≡ packfile_entry_serialized_size
unfolding packfile_entry_to_bytes
length-packfile_entry_to_bytes pe h =
    simp (length-append, length-le, h.packfile_size, h.state_id_size)

-- `DeletedEntryFromBytes` reads back what `ToBytes` wrote, if the fields are in range and the type is
-- below 256.
pub deleted_entry_from_bytes-to_bytes :
    (de : DeletedEntry)
    → IsDeletedEntry de
    → deleted_entry_from_bytes (deleted_entry_to_bytes de) ≡ ok (de, none)
unfolding deleted_entry_from_bytes deleted_entry_to_bytes
deleted_entry_from_bytes-to_bytes de h =
    let byte : de.type % 256 ≡ de.type = omega (arith, h.type_range) in
    rw (byte, fill-append 32 de.blob _ h.blob_size, next_uint-le_end 8 de.when h.when_range)

pub length-deleted_entry_to_bytes :
    (de : DeletedEntry)
    → IsDeletedEntry de
    → length (deleted_entry_to_bytes de) ≡ deleted_entry_serialized_size
unfolding deleted_entry_to_bytes
length-deleted_entry_to_bytes de h = simp (length-append, length-le, h.blob_size)

-- `ConfigurationEntryFromBytes` reads back what `ToBytes` wrote, if the key is shorter than 256 bytes
-- and the value shorter than 65536.
pub configuration_entry_from_bytes-to_bytes :
    (ce : ConfigurationEntry)
    → IsConfigurationEntry ce
    → configuration_entry_from_bytes (configuration_entry_to_bytes ce) ≡ ok (ce, none)
unfolding configuration_entry_from_bytes configuration_entry_to_bytes
configuration_entry_from_bytes-to_bytes ce h =
    let k : length ce.key % 256 ≡ length ce.key = omega (arith, h.key_size) in
    let v : length ce.value % 2 ^ 16 ≡ length ce.value = omega (arith, h.value_size) in
    rw (
      k,
      v,
      take-append (length ce.key) ce.key _ refl,
      drop-append (length ce.key) ce.key _ refl,
      next_uint-le 2 (length ce.value) _ h.value_size,
      take-append (length ce.value) ce.value _ refl,
      drop-append (length ce.value) ce.value _ refl,
      next_uint-le_end 8 ce.created_at h.created_at_range,
    )

-- What the cache holds for entries with their keys.
unfoldable pub encoded : {E : Type 0} → (E → Bytes) → List (Bytes × E) → List (Bytes × Bytes)
encoded to_bytes [] = []
encoded to_bytes ((key, e) ∷ more) = (key, to_bytes e) ∷ encoded to_bytes more
