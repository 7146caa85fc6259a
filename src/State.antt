-- ===== src/State.antt =====
-- repository/state/state.go: the state of a repository, which says where each blob is stored.
-- A time is its `UnixNano`, as the bit pattern of an int64; a MAC is 32 bytes, a UUID 16.
pub mod Entries
pub mod Exec
pub mod Stream
pub mod Local
pub mod Updates
pub mod Listing
use plakar.Prelude.{
  ℕ, zero, suc, ◌+◌, ◌-◌, ◌*◌, ◌/◌, ◌%◌, ◌^◌, ◌<◌, ◌≤◌, Bool, true, false, List, [], ◌∷◌, ◌++◌,
  length, take, drop, leb, ltb, ◌==◌, if◌then◌else◌, Option, none, some, Result, ok, err, panic,
  Error, eof, short_read, ensure, ◌>>=◌, ◌>>◌,
}
use plakar.Wire.{Bytes, le, of_le}

pub record Metadata : Type 0 where
  pub version : ℕ
  pub timestamp : ℕ
  pub serial : Bytes

pub record Location : Type 0 where
  pub packfile : Bytes
  pub offset : ℕ
  pub length : ℕ

pub record DeltaEntry : Type 0 where
  pub type : ℕ
  pub version : ℕ
  pub blob : Bytes
  pub location : Location
  pub flags : ℕ

pub record DeletedEntry : Type 0 where
  pub type : ℕ
  pub blob : Bytes
  pub when : ℕ

pub record PackfileEntry : Type 0 where
  pub packfile : Bytes
  pub state_id : Bytes
  pub timestamp : ℕ

pub record ConfigurationEntry : Type 0 where
  pub key : Bytes
  pub value : Bytes
  pub created_at : ℕ

abbrev pub et_metadata : ℕ
et_metadata = 1

abbrev pub et_locations : ℕ
et_locations = 2

abbrev pub et_deleted : ℕ
et_deleted = 3

abbrev pub et_packfile : ℕ
et_packfile = 4

abbrev pub et_configuration : ℕ
et_configuration = 5

abbrev pub delta_entry_serialized_size : ℕ
delta_entry_serialized_size = 1 + 4 + 32 + (32 + 8 + 4) + 4

abbrev pub deleted_entry_serialized_size : ℕ
deleted_entry_serialized_size = 1 + 32 + 8

abbrev pub packfile_entry_serialized_size : ℕ
packfile_entry_serialized_size = 32 + 32 + 8

-- `t.Before(u)`, on int64 bit patterns.
abbrev pub before : ℕ → ℕ → Bool
before t u = ltb ((t + 2 ^ 63) % 2 ^ 64) ((u + 2 ^ 63) % 2 ^ 64)

abbrev pub zeros : ℕ → Bytes
zeros zero = []
zeros (suc n) = 0 ∷ zeros n

-- `bytes.Buffer.Read` into an array of `n` bytes, and the test for a short read that follows: the
-- array filled and the bytes left, or the array as it is left and the error.
pub data Filled : Type 0 where
  filled : Bytes → Bytes → Filled
  failed : Bytes → Error → Filled

unfoldable pub fill : ℕ → Bytes → Filled
fill n r =
    if leb n (length r)
    then filled (take n r) (drop n r)
    else if length r == 0
    then failed (zeros n) eof
    else failed (r ++ zeros (n - length r)) short_read

-- What follows a read: the failure, or the rest of the decoder.
abbrev pub on_fill {ℓ} : {A : Type ℓ} → Filled → (Bytes → Error → A) → (Bytes → Bytes → A) → A
on_fill (filled b r) fail rest = rest b r
on_fill (failed b e) fail rest = fail b e

-- `bytes.Buffer.Next(n)`: fewer bytes where fewer are left.
abbrev pub next : ℕ → Bytes → Bytes × Bytes
next n r = (take n r, drop n r)

-- `binary.LittleEndian.UintN(bbuf.Next(n))`: it panics where fewer than `n` bytes are left.
unfoldable pub next_uint : ℕ → Bytes → Result (ℕ × Bytes)
next_uint n r = do ensure (leb n (length r)); ok (of_le (take n r), drop n r)

abbrev pub no_location : Location
no_location = record { packfile = zeros 32; offset = 0; length = 0 }

-- `DeltaEntry{}`
abbrev pub no_entry : DeltaEntry
no_entry = record { type = 0; version = 0; blob = zeros 32; location = no_location; flags = 0 }

-- `DeltaEntryFromBytes`: the entry, as far as it was read, and an error or none.
unfoldable pub delta_entry_from_bytes : Bytes → Result (DeltaEntry × Option Error)
delta_entry_from_bytes [] = ok (no_entry, some eof)
delta_entry_from_bytes (typ ∷ r) = do
  (v, r) ← next_uint 4 r
  on_fill (fill 32 r)
      (λ b e.
        ok
          (record { type = typ; version = v; blob = b; location = no_location; flags = 0 }, some e))
      λ b r.
        on_fill (fill 32 r)
          (λ p e. ok (
            record {
              type = typ;
              version = v;
              blob = b;
              location = record no_location { packfile = p };
              flags = 0;
            },
            some e,
          ))
          λ p r. do
            (o, r) ← next_uint 8 r
            (l, r) ← next_uint 4 r
            (f, r) ← next_uint 4 r
            ok (
              record {
                type = typ;
                version = v;
                blob = b;
                location = record { packfile = p; offset = o; length = l };
                flags = f;
              },
              none,
            )

-- `DeltaEntry.ToBytes`; the type is cut to a byte.
unfoldable pub delta_entry_to_bytes : DeltaEntry → Bytes
delta_entry_to_bytes de =
    (de.type % 256)
    ∷ (le 4 de.version
        ++ (de.blob
            ++ (de.location.packfile
                ++ (le 8 de.location.offset ++ (le 4 de.location.length ++ le 4 de.flags)))))

unfoldable pub packfile_entry_from_bytes : Bytes → Result (PackfileEntry × Option Error)
packfile_entry_from_bytes r =
    on_fill (fill 32 r)
      (λ p e. ok (record { packfile = p; state_id = zeros 32; timestamp = 0 }, some e))
      λ p r.
        on_fill (fill 32 r)
          (λ s e. ok (record { packfile = p; state_id = s; timestamp = 0 }, some e))
          λ s r. do
            (t, r) ← next_uint 8 r
            ok (record { packfile = p; state_id = s; timestamp = t }, none)

unfoldable pub packfile_entry_to_bytes : PackfileEntry → Bytes
packfile_entry_to_bytes pe = pe.packfile ++ (pe.state_id ++ le 8 pe.timestamp)

unfoldable pub deleted_entry_from_bytes : Bytes → Result (DeletedEntry × Option Error)
deleted_entry_from_bytes [] = ok (record { type = 0; blob = zeros 32; when = 0 }, some eof)
deleted_entry_from_bytes (typ ∷ r) =
    on_fill (fill 32 r) (λ b e. ok (record { type = typ; blob = b; when = 0 }, some e))
      λ b r. do (t, r) ← next_uint 8 r; ok (record { type = typ; blob = b; when = t }, none)

unfoldable pub deleted_entry_to_bytes : DeletedEntry → Bytes
deleted_entry_to_bytes de = (de.type % 256) ∷ (de.blob ++ le 8 de.when)

-- `ConfigurationEntryFromBytes`: the key and the value are what is left of them.
unfoldable pub configuration_entry_from_bytes : Bytes → Result (ConfigurationEntry × Option Error)
configuration_entry_from_bytes [] =
    ok (record { key = []; value = []; created_at = 0 }, some short_read)
configuration_entry_from_bytes (key_len ∷ r) = do
  let (key, r) = next key_len r
  (value_len, r) ← next_uint 2 r
  let (value, r) = next value_len r
  (t, r) ← next_uint 8 r
  ok (record { key = key; value = value; created_at = t }, none)

-- `ConfigurationEntry.ToBytes`; the lengths are cut to a byte and to two.
unfoldable pub configuration_entry_to_bytes : ConfigurationEntry → Bytes
configuration_entry_to_bytes ce =
    (length ce.key % 256)
    ∷ (ce.key ++ (le 2 (length ce.value % 2 ^ 16) ++ (ce.value ++ le 8 ce.created_at)))
