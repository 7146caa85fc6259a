-- ===== src/Packfile.antt =====
-- packfile/packfile.go: blobs laid end to end, an index of fixed-size records, and a footer.
-- The hasher (a `hash.Hash` that the caller gives) is the list of the bytes written since the last
-- `Reset`, and a parameter `sum` for `Sum(nil)`. The capacity of a slice is taken as its length.
pub mod Codec
pub mod Reader
pub mod Accepts
pub mod Index
pub mod Blobs
pub mod Parts
pub mod Overflow
use plakar.Prelude.{
  ℕ, zero, suc, ◌+◌, ◌-◌, ◌%◌, ◌^◌, List, [], ◌∷◌, ◌++◌, Bool, true, false, ◌==◌, leb, length, take,
  drop, if◌then◌else◌, Result, ok, err, stuck, panic, guard, ensure, ◌>>=◌, ◌>>◌, negative_seek,
  eof, blob_out_of_bounds, index_mac_mismatch, Option, none, some,
}
use plakar.Wire.{Bytes, le, read_uint, read_full, to_mac, beq_bytes}
use plakar.Versioning.{new_version}

pub record Blob : Type 0 where
  pub type : ℕ
  pub version : ℕ
  pub mac : Bytes
  pub offset : ℕ
  pub length : ℕ
  pub flags : ℕ

abbrev pub blob_record_size : ℕ
blob_record_size = 56

-- `PackFileFooter`; `timestamp` is the bit pattern of an int64.
pub record PackFileFooter : Type 0 where
  pub version : ℕ
  pub timestamp : ℕ
  pub count : ℕ
  pub index_offset : ℕ
  pub index_mac : Bytes
  pub flags : ℕ

abbrev pub footer_size : ℕ
footer_size = 56

pub record PackFile : Type 0 where
  pub hasher : Bytes
  pub blobs : Bytes
  pub index : List Blob
  pub footer : PackFileFooter

abbrev zero_mac : Bytes
zero_mac =
    0 ∷ 0 ∷ 0 ∷ 0 ∷ 0 ∷ 0 ∷ 0 ∷ 0 ∷ 0 ∷ 0 ∷ 0 ∷ 0 ∷ 0 ∷ 0 ∷ 0 ∷ 0 ∷ 0 ∷ 0 ∷ 0 ∷ 0 ∷ 0 ∷ 0 ∷ 0 ∷ 0
    ∷ 0 ∷ 0 ∷ 0 ∷ 0 ∷ 0 ∷ 0 ∷ 0 ∷ 0 ∷ []

-- `New(hasher)` at the time `now`.
unfoldable pub new : Bytes → ℕ → PackFile
unfolding new_version
new hasher now = record {
  hasher = hasher;
  blobs = [];
  index = [];
  footer = record {
    version = new_version 1 0 0;
    timestamp = now;
    count = 0;
    index_offset = 0;
    index_mac = zero_mac;
    flags = 0;
  };
}

-- The six `binary.Write` calls for one record of the index.
unfoldable pub blob_bytes : Blob → Bytes
blob_bytes b =
    le 4 b.type ++ (le 4 b.version ++ (b.mac ++ (le 8 b.offset ++ (le 4 b.length ++ le 4 b.flags))))

-- The loop over `p.Index`.
unfoldable pub index_bytes : List Blob → Bytes
index_bytes [] = []
index_bytes (b ∷ bs) = blob_bytes b ++ index_bytes bs

-- The five `binary.Write` calls for the footer; the version is not written.
unfoldable pub footer_bytes : PackFileFooter → Bytes
footer_bytes f =
    le 8 f.timestamp ++ (le 4 f.count ++ (le 8 f.index_offset ++ (f.index_mac ++ le 4 f.flags)))

-- The six `binary.Read` calls for one record.
unfoldable pub read_blob : Bytes → Result (Blob × Bytes)
read_blob r = do
  (t, r) ← read_uint 4 r
  (v, r) ← read_uint 4 r
  (m, r) ← read_full 32 r
  (o, r) ← read_uint 8 r
  (l, r) ← read_uint 4 r
  (f, r) ← read_uint 4 r
  ok (record { type = t; version = v; mac = m; offset = o; length = l; flags = f }, r)

-- The five `binary.Read` calls for the footer.
unfoldable pub read_footer : ℕ → Bytes → Result (PackFileFooter × Bytes)
read_footer version r = do
  (t, r) ← read_uint 8 r
  (c, r) ← read_uint 4 r
  (o, r) ← read_uint 8 r
  (m, r) ← read_full 32 r
  (f, r) ← read_uint 4 r
  ok (
    record {
      version = version;
      timestamp = t;
      count = c;
      index_offset = o;
      index_mac = m;
      flags = f;
    },
    r,
  )

unfoldable pub new_footer_from_bytes : ℕ → Bytes → Result PackFileFooter
new_footer_from_bytes version serialized = do (f, r) ← read_footer version serialized; ok f

-- The loop of `NewIndexFromBytes`, while `reader.Len() > 0`; a round takes bytes or fails.
unfoldable pub read_records : ℕ → Bytes → List Blob → Result (List Blob)
read_records zero r index = if length r == 0 then ok index else stuck
read_records (suc fuel) r index =
    let rest : Result (List Blob) = (do
      (b, r') ← read_blob r
      read_records fuel r' (index ++ b ∷ [])) in
    if length r == 0 then ok index else rest

unfoldable pub new_index_from_bytes : Bytes → Result (List Blob)
new_index_from_bytes serialized = read_records (length serialized) serialized []

-- The index loop of `NewFromBytes`, while `remaining > 0`. `blobOffset+uint64(blobLength)` wraps.
-- `remaining` is an int that may fall below 0, where the loop ends as it does at 0.
unfoldable pub read_index : ℕ → ℕ → Bytes → PackFile → Result PackFile
read_index zero remaining r p = if remaining == 0 then ok p else stuck
read_index (suc fuel) remaining r p =
    let rest : Result PackFile = (do
      (b, r') ← read_blob r
      guard (leb ((b.offset + b.length) % 2 ^ 64) p.footer.index_offset) blob_out_of_bounds
      read_index fuel (remaining - blob_record_size) r'
          (record p { hasher = p.hasher ++ blob_bytes b; index = p.index ++ b ∷ [] })) in
    if remaining == 0 then ok p else rest

-- The parameters: `sum` is the hasher's `Sum(nil)`, `max_len` the longest slice that `make` gives.
module _ (sum : Bytes → Bytes) (max_len : ℕ) where
  -- The check of the index MAC at the end of `NewFromBytes`.
  unfoldable pub check_mac : PackFile → Result PackFile
  check_mac p = do
    mac ← to_mac (sum p.hasher)
    guard (beq_bytes mac p.footer.index_mac) index_mac_mismatch
    ok p

  -- `NewFromBytes(hasher, version, serialized)` at the time `now`.
  unfoldable pub new_from_bytes : Bytes → ℕ → ℕ → Bytes → Result PackFile
  new_from_bytes hasher now version serialized = do
    guard (leb footer_size (length serialized)) negative_seek
    (footer, _) ← read_footer version (drop (length serialized - footer_size) serialized)
    ensure (leb footer.index_offset max_len)
    (blobs, r) ← read_full footer.index_offset serialized
    let remaining = length r - footer_size
    let p = record (new hasher now) { hasher = []; blobs = blobs; footer = footer }
    p' ← read_index remaining remaining r p
    check_mac p'

  -- `objects.MAC(p.hasher.Sum(nil))` after the index has gone through the hasher.
  unfoldable pub seal : PackFile → Result PackFile
  seal p = do
    mac ← to_mac (sum (index_bytes p.index))
    ok (record p { hasher = index_bytes p.index; footer = record p.footer { index_mac = mac } })

  unfoldable pub serialize : PackFile → Result (Bytes × PackFile)
  serialize p = do p' ← seal p; ok ((p.blobs ++ index_bytes p.index) ++ footer_bytes p'.footer, p')

  unfoldable pub serialize_data : PackFile → Bytes
  serialize_data p = p.blobs

  unfoldable pub serialize_index : PackFile → Bytes × PackFile
  serialize_index p = (index_bytes p.index, record p { hasher = index_bytes p.index })

  unfoldable pub serialize_footer : PackFile → Result (Bytes × PackFile)
  serialize_footer p = do p' ← seal p; ok (footer_bytes p'.footer, p')

-- `AddBlob`: the lengths are converted to uint32 and uint64, the count is a uint32.
unfoldable pub add_blob : ℕ → ℕ → Bytes → Bytes → ℕ → PackFile → PackFile
add_blob type version mac bytes flags p = record p {
  index =
      p.index
      ++ record {
        type = type;
        version = version;
        mac = mac;
        offset = length p.blobs % 2 ^ 64;
        length = length bytes % 2 ^ 32;
        flags = flags;
      }
        ∷ [];
  blobs = p.blobs ++ bytes;
  footer = record p.footer {
    count = (p.footer.count + 1) % 2 ^ 32;
    index_offset = length (p.blobs ++ bytes) % 2 ^ 64;
  };
}

-- The slice expression `blobs[lo : hi]`: out of range it panics.
unfoldable pub slice : Bytes → ℕ → ℕ → Result Bytes
slice blobs lo hi = do
  ensure (leb hi (length blobs))
  ensure (leb lo hi)
  ok (take (hi - lo) (drop lo blobs))

-- The loop of `GetBlob` over the index: the first record with the MAC.
unfoldable pub find_blob : Bytes → Bytes → List Blob → Result (Option Bytes)
find_blob blobs mac [] = ok none
find_blob blobs mac (b ∷ bs) =
    if beq_bytes b.mac mac
    then (do s ← slice blobs b.offset ((b.offset + b.length) % 2 ^ 64); ok (some s))
    else find_blob blobs mac bs

unfoldable pub get_blob : Bytes → PackFile → Result (Option Bytes)
get_blob mac p = find_blob p.blobs mac p.index

unfoldable pub size : PackFile → ℕ
size p = length p.blobs % 2 ^ 32
