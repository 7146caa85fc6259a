-- ===== src/Packfile/Overflow.antt =====
-- packfile/packfile.go: the bounds check of `NewFromBytes` adds a uint64 and a uint32 and compares the
-- sum that has wrapped; `GetBlob` slices by the same sum.
use plakar.Prelude.{
  >>=-eq-ok, ℕ, ◌+◌, ◌-◌, ◌%◌, ◌^◌, ◌≤◌, ◌<◌, ◌≡◌, refl, List, [], ◌∷◌, length, arith, ok, panic,
  Option, none, some, All, Bool-cases, inl, inr, take, drop,
}
use plakar.Wire.{Bytes, beq_bytes, beq_bytes_refl}
use plakar.Packfile.{Blob, PackFile, get_blob, find_blob, slice, new_from_bytes, serialize}
use plakar.Packfile.Reader.{InBounds, IsPackFile, new_from_bytes-serialize}
use plakar.Packfile.Accepts.{new_from_bytes-Accepted}

abbrev pub NoWrap : Blob → Type 0
NoWrap b = b.offset + b.length < 2 ^ 64

slice_inside :
    (blobs : Bytes) (lo hi : ℕ)
    → lo ≤ hi
    → hi ≤ length blobs
    → slice blobs lo hi ≡ ok (take (hi - lo) (drop lo blobs))
unfolding slice
slice_inside blobs lo hi h k = ground arith

slice_reversed : (blobs : Bytes) (lo hi : ℕ) → hi < lo → slice blobs lo hi ≡ panic
unfolding slice
slice_reversed blobs lo hi h = ground arith

find_blob_total :
    (blobs mac : Bytes) (size : ℕ) (index : List Blob)
    → length blobs ≡ size
    → All (InBounds size) index
    → All NoWrap index
    → (o : Option Bytes) × (find_blob blobs mac index ≡ ok o)
unfolding find_blob
find_blob_total blobs mac size [] e h k = (none, refl)
find_blob_total blobs mac size (b ∷ bs) e (hb, h) (kb, k) =
    elim (Bool-cases (beq_bytes b.mac mac)) [
      | inl same ↦
          let hi : ℕ = (b.offset + b.length) % 2 ^ 64 in
          (
            some (take (hi - b.offset) (drop b.offset blobs)),
            rw (same, slice_inside blobs b.offset hi (omega arith) (omega arith)),
          )
      | inr other ↦ rw other (find_blob_total blobs mac size bs e h k)
    ]

-- `GetBlob` does not panic on a packfile that `NewFromBytes` returned, for any MAC, if no record's
-- offset and length add up to 2 ^ 64 or more.
pub get_blob_total :
    (sum : Bytes → Bytes) (max_len : ℕ) (hasher : Bytes) (now version : ℕ) (serialized : Bytes)
    (p : PackFile) (mac : Bytes)
    → new_from_bytes sum max_len hasher now version serialized ≡ ok p
    → All NoWrap p.index
    → (o : Option Bytes) × (get_blob mac p ≡ ok o)
unfolding get_blob
get_blob_total sum max_len hasher now version serialized p mac e k =
    let a = new_from_bytes-Accepted sum max_len hasher now version serialized p e in
    find_blob_total p.blobs mac p.footer.index_offset p.index a.data_size a.checked k

-- A record whose offset and length add up to 2 ^ 64 or more can pass the check: `Serialize` writes the
-- packfile, `NewFromBytes` accepts what it wrote, and `GetBlob` of the result panics on the record's MAC. The
-- packfile is any one that can be written and whose first record wraps.
pub get_blob_panics :
    (sum : Bytes → Bytes) (max_len : ℕ) (sum_size : (b : Bytes) → length (sum b) ≡ 32)
    (p : PackFile) (b : Blob) (more : List Blob) (hasher : Bytes) (now : ℕ)
    → IsPackFile max_len p
    → p.index ≡ b ∷ more
    → b.offset < 2 ^ 64
    → b.length < 2 ^ 32
    → 2 ^ 64 ≤ b.offset + b.length
    → (written : Bytes × PackFile) × (q : PackFile) × (serialize sum max_len p ≡ ok written)
      × (new_from_bytes sum max_len hasher now p.footer.version written.0 ≡ ok q)
      × (get_blob b.mac q ≡ panic)
unfolding get_blob find_blob
get_blob_panics sum max_len sum_size p b more hasher now h e ho hl wrap =
    let (written, s, n) =
      >>=-eq-ok (serialize sum max_len p) _
        (new_from_bytes-serialize sum max_len sum_size p hasher now h) in
    (written, _, s, n, found)
  where
    found : find_blob p.blobs b.mac p.index ≡ panic
    found = rw (
      e,
      beq_bytes_refl b.mac,
      slice_reversed p.blobs b.offset ((b.offset + b.length) % 2 ^ 64) (omega arith),
    )
