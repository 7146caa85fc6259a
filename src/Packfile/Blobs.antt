-- ===== src/Packfile/Blobs.antt =====
-- packfile/packfile.go, `AddBlob` and `GetBlob`: a packfile as the list of the blobs added to it.
use plakar.Prelude.{
  All-map, All-append, ℕ, ◌+◌, ◌-◌, ◌%◌, ◌^◌, ◌≤◌, ◌<◌, ◌≡◌, refl, sym, ap, ◌∙◌, List, [], ◌∷◌,
  ◌++◌, length, length-append, append_assoc, append-nil, arith, ok, Option, none, some, All, le→leb,
  if◌then◌else◌, take-append, drop-append, Bool-cases, inl, inr,
}
use plakar.Wire.{Bytes, beq_bytes}
use plakar.Packfile.{Blob, PackFile, new, add_blob, get_blob, find_blob, slice}
use plakar.Packfile.Codec.{IsBlob}
use plakar.Packfile.Reader.{InBounds, IsPackFile}

-- What a caller puts in: the arguments of one call of `AddBlob`.
pub record Addition : Type 0 where
  pub type : ℕ
  pub version : ℕ
  pub mac : Bytes
  pub bytes : Bytes
  pub flags : ℕ

-- A packfile after the calls, in order.
unfoldable pub add_all : List Addition → PackFile → PackFile
add_all [] p = p
add_all (a ∷ more) p = add_all more (add_blob a.type a.version a.mac a.bytes a.flags p)

-- The abstract view: the first bytes that were added under the MAC.
unfoldable pub first_added : Bytes → List Addition → Option Bytes
first_added mac [] = none
first_added mac (a ∷ more) = if beq_bytes a.mac mac then some a.bytes else first_added mac more

-- The slice of one part of the data.
slice_middle :
    (front middle back : Bytes)
    → slice (front ++ (middle ++ back)) (length front) (length front + length middle) ≡ ok middle
unfolding slice
slice_middle front middle back = rw (
  le→leb (length front + length middle) (length (front ++ (middle ++ back)))
      (omega (arith, length-append front (middle ++ back), length-append middle back)),
  le→leb (length front) (length front + length middle) (omega arith),
  drop-append (length front) front (middle ++ back) refl,
  take-append (length front + length middle - length front) middle back (omega arith),
)

-- All the bytes that were added.
unfoldable pub contents : List Addition → Bytes
contents [] = []
contents (a ∷ more) = a.bytes ++ contents more

-- The records of additions whose bytes begin at `start`.
records : ℕ → List Addition → List Blob
records start [] = []
records start (a ∷ more) =
    record {
      type = a.type;
      version = a.version;
      mac = a.mac;
      offset = start;
      length = length a.bytes;
      flags = a.flags;
    }
    ∷ records (start + length a.bytes) more

-- Each addition is shorter than 4 GiB, so that its length survives the conversion to uint32.
abbrev pub IsShort : Addition → Type 0
IsShort a = length a.bytes < 2 ^ 32

find_blob-records :
    (adds : List Addition) (front back mac : Bytes)
    → length front + length (contents adds) < 2 ^ 64
    → find_blob (front ++ (contents adds ++ back)) mac (records (length front) adds)
      ≡ ok (first_added mac adds)
unfolding find_blob first_added contents records
find_blob-records [] front back mac h = refl
find_blob-records (a ∷ more) front back mac h = elim (Bool-cases (beq_bytes a.mac mac)) [
  | inl same ↦
      rw (same, append_assoc a.bytes (contents more) back)
        (rw (
          wrap_small (length front + length a.bytes)
              (omega (arith, length-append a.bytes (contents more))),
          slice_middle front a.bytes (contents more ++ back),
        ))
  | inr other ↦ rw other (
      ap (λ t. find_blob (front ++ t) mac (records (length front + length a.bytes) more))
        (append_assoc a.bytes (contents more) back)
      ∙ (rw (append_assoc front a.bytes (contents more ++ back), length-append front a.bytes) at
          (find_blob-records more (front ++ a.bytes) back mac
            (omega (arith, length-append front a.bytes, length-append a.bytes (contents more))))))
]
  where
    wrap_small : (n : ℕ) → n < 2 ^ 64 → n % 2 ^ 64 ≡ n
    wrap_small n h = omega arith

add_all-blobs :
    (adds : List Addition) (p : PackFile) → (add_all adds p).blobs ≡ p.blobs ++ contents adds
unfolding add_all contents add_blob
add_all-blobs [] p = sym (append-nil p.blobs)
add_all-blobs (a ∷ more) p =
    add_all-blobs more (add_blob a.type a.version a.mac a.bytes a.flags p)
    ∙ append_assoc p.blobs a.bytes (contents more)

add_all-index :
    (adds : List Addition) (p : PackFile)
    → All IsShort adds
    → length p.blobs + length (contents adds) < 2 ^ 64
    → (add_all adds p).index ≡ p.index ++ records (length p.blobs) adds
unfolding add_all contents records add_blob
add_all-index [] p h hl = sym (append-nil p.index)
add_all-index (a ∷ more) p (ha, h) hl =
    add_all-index more (add_blob a.type a.version a.mac a.bytes a.flags p) h
      (omega (arith, length-append p.blobs a.bytes, length-append a.bytes (contents more)))
    ∙ rw (
      append_assoc p.index,
      length-append p.blobs a.bytes,
      small (length p.blobs) (2 ^ 64) (omega arith),
      small (length a.bytes) (2 ^ 32) ha,
    )
  where
    small : (m n : ℕ) → m < n → m % n ≡ m
    small m n h = grind arith

-- `GetBlob` gives the bytes that were first added under the MAC, and nothing for another MAC: a new
-- packfile to which blobs are added, each shorter than 4 GiB and together below 2 ^ 64 bytes, is the
-- list of the additions.
pub get_blob-add_all :
    (adds : List Addition) (hasher : Bytes) (now : ℕ) (mac : Bytes)
    → All IsShort adds
    → length (contents adds) < 2 ^ 64
    → get_blob mac (add_all adds (new hasher now)) ≡ ok (first_added mac adds)
unfolding get_blob
get_blob-add_all adds hasher now mac h hl =
    rw
      (
        add_all-blobs adds (new hasher now),
        add_all-index adds (new hasher now) h (unfold new in omega (arith, hl)),
      )
      (unfold new in
        rw (append-nil (contents adds)) at (find_blob-records adds [] [] mac (omega arith)))

-- `AddBlob` keeps a packfile fit to be written, if its arguments are in range, the bytes are shorter
-- than 4 GiB, and the data stays below 2 ^ 64 bytes and can be allocated.
pub add_blob-IsPackFile :
    (max_len : ℕ) (p : PackFile) (a : Addition)
    → IsPackFile max_len p
    → a.type < 256 ^ 4
    → a.version < 256 ^ 4
    → length a.mac ≡ 32
    → a.flags < 256 ^ 4
    → IsShort a
    → length p.blobs + length a.bytes < 2 ^ 64
    → length p.blobs + length a.bytes ≤ max_len
    → IsPackFile max_len (add_blob a.type a.version a.mac a.bytes a.flags p)
unfolding add_blob
add_blob-IsPackFile max_len p a h ht hv hm hf hs small alloc =
    let o : length p.blobs % 2 ^ 64 ≡ length p.blobs = omega arith in
    let l : length a.bytes % 2 ^ 32 ≡ length a.bytes = omega arith in
    let n : length (p.blobs ++ a.bytes) % 2 ^ 64 ≡ length p.blobs + length a.bytes =
      omega (arith, length-append p.blobs a.bytes) in
    rw (o, l, n)
      (record {
        records = All-append IsBlob p.index _ h.records (
          record {
            type_range = ht;
            version_range = hv;
            mac_size = hm;
            offset_range = omega arith;
            length_range = hs;
            flags_range = hf;
          },
          tt,
        );
        inside =
            All-append (InBounds _) p.index _
              (All-map (InBounds p.footer.index_offset) (InBounds _) p.index
                (λ b fit. omega (arith, h.data_size)) h.inside)
              (omega arith, tt);
        data_size = omega (arith, length-append p.blobs a.bytes);
        small = omega (arith, length-append p.blobs a.bytes);
        allocatable = omega (arith, length-append p.blobs a.bytes);
        timestamp_range = h.timestamp_range;
        count_range = omega arith;
        flags_range = h.flags_range;
      })
