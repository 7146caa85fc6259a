-- ===== src/Packfile/Reader.antt =====
-- packfile/packfile.go, `NewFromBytes`: what it makes of a serialized packfile, and of any bytes.
use plakar.Prelude.{
  ◌%◌, ℕ, zero, suc, ◌+◌, ◌-◌, ◌*◌, ◌^◌, ◌≤◌, ◌<◌, ◌≡◌, refl, sym, ◌∙◌, List, [], ◌∷◌, ◌++◌, length,
  drop, drop-append, length-append, append_assoc, append-nil, arith, ok, ◌>>=◌, All, le→leb,
}
use plakar.Wire.{Bytes, read_full, read_full-append, to_mac_exact, beq_bytes_refl}
use plakar.Packfile.{
  Blob, PackFile, PackFileFooter, new, blob_bytes, index_bytes, footer_bytes, read_footer,
  read_index, check_mac, seal, new_from_bytes, serialize, blob_record_size, footer_size,
}
use plakar.Packfile.Codec.{
  IsBlob, IsFooter, length-footer_bytes, read_blob-blob_bytes, read_footer-footer_bytes,
  length-index_bytes,
}

-- A record that passes the bounds check of `NewFromBytes`, whose sum wraps at 2 ^ 64.
abbrev pub InBounds : ℕ → Blob → Type 0
InBounds data_size b = (b.offset + b.length) % 2 ^ 64 ≤ data_size

-- What the loop adds to the packfile when it has read the records `bs`.
abbrev with_records : List Blob → PackFile → PackFile
with_records bs p = record p { hasher = p.hasher ++ index_bytes bs; index = p.index ++ bs }

read_index_step :
    (fuel remaining : ℕ) (b : Blob) (rest : Bytes) (p : PackFile)
    → IsBlob b
    → InBounds p.footer.index_offset b
    → 0 < remaining
    → read_index (suc fuel) remaining (blob_bytes b ++ rest) p
      ≡ read_index fuel
          (remaining - blob_record_size)
          rest
          (record p { hasher = p.hasher ++ blob_bytes b; index = p.index ++ b ∷ [] })
unfolding read_index
read_index_step fuel remaining b rest p h fits more =
    rw (read_blob-blob_bytes b rest h) (ground arith)

read_index_end : (fuel : ℕ) (r : Bytes) (p : PackFile) → read_index fuel 0 r p ≡ ok p
unfolding read_index
read_index_end zero r p = refl
read_index_end (suc fuel) r p = refl

read_index-index_bytes :
    (bs : List Blob) (fuel remaining : ℕ) (rest : Bytes) (p : PackFile)
    → All IsBlob bs
    → All (InBounds p.footer.index_offset) bs
    → remaining ≡ blob_record_size * length bs
    → length bs ≤ fuel
    → read_index fuel remaining (index_bytes bs ++ rest) p ≡ ok (with_records bs p)
unfolding index_bytes
read_index-index_bytes [] fuel remaining rest p h fits e hf =
    rw (e, append-nil p.index, append-nil p.hasher) (read_index_end fuel rest p)
read_index-index_bytes (b ∷ bs) zero remaining rest p h fits e hf = absurd (omega arith)
read_index-index_bytes (b ∷ bs) (suc fuel) remaining rest p (hb, hbs) (fb, fbs) e hf =
    rw (append_assoc (blob_bytes b) (index_bytes bs) rest) (
      read_index_step fuel remaining b (index_bytes bs ++ rest) p hb fb (omega arith)
      ∙ read_index-index_bytes bs fuel (remaining - blob_record_size) rest
          (record p { hasher = p.hasher ++ blob_bytes b; index = p.index ++ b ∷ [] }) hbs fbs
          (omega arith) (omega arith)
      ∙ rw (append_assoc p.hasher, append_assoc p.index))

-- A packfile that can be written: what `AddBlob` keeps, and the ranges of the Go types.
pub record IsPackFile (max_len : ℕ) (p : PackFile) : Type 0 where
  pub records : All IsBlob p.index
  pub inside : All (InBounds p.footer.index_offset) p.index
  pub data_size : p.footer.index_offset ≡ length p.blobs
  pub small : length p.blobs < 2 ^ 64
  pub allocatable : length p.blobs ≤ max_len
  pub timestamp_range : p.footer.timestamp < 256 ^ 8
  pub count_range : p.footer.count < 256 ^ 4
  pub flags_range : p.footer.flags < 256 ^ 4

-- The footer stands in the last bytes.
read_footer_at_end :
    (front : Bytes) (f : PackFileFooter)
    → IsFooter f
    → read_footer f.version
        (drop (length (front ++ footer_bytes f) - footer_size) (front ++ footer_bytes f))
      ≡ ok (f, [])
read_footer_at_end front f h =
    rw
      (drop-append (length (front ++ footer_bytes f) - footer_size) front (footer_bytes f)
        (omega (arith, length-append front (footer_bytes f), length-footer_bytes f h.mac_size)))
      (rw (append-nil (footer_bytes f)) at (read_footer-footer_bytes f [] h))

-- The data stands in the first bytes.
read_data_at_start :
    (blobs index footer : Bytes) (n : ℕ)
    → n ≡ length blobs
    → read_full n ((blobs ++ index) ++ footer) ≡ ok (blobs, index ++ footer)
read_data_at_start blobs index footer n e =
    rw (append_assoc blobs index footer) (read_full-append n blobs (index ++ footer) (sym e))

module _ (sum : Bytes → Bytes) (max_len : ℕ) (sum_size : (b : Bytes) → length (sum b) ≡ 32) where
  -- The packfile after `Serialize`.
  abbrev pub sealed : PackFile → PackFile
  sealed p = record p {
    hasher = index_bytes p.index;
    footer = record p.footer { index_mac = sum (index_bytes p.index) };
  }

  pub seal-sealed : (p : PackFile) → seal sum max_len p ≡ ok (sealed p)
  unfolding seal
  seal-sealed p = rw (to_mac_exact (sum (index_bytes p.index)) (sum_size _))

  sealed-IsFooter : (p : PackFile) → IsPackFile max_len p → IsFooter (sealed p).footer
  sealed-IsFooter p h = record {
    timestamp_range = h.timestamp_range;
    count_range = h.count_range;
    index_offset_range = omega (arith, h.data_size, h.small);
    mac_size = sum_size _;
    flags_range = h.flags_range;
  }

  check_mac-sealed : (p : PackFile) → check_mac sum max_len (sealed p) ≡ ok (sealed p)
  unfolding check_mac
  check_mac-sealed p = rw (
    to_mac_exact (sum (index_bytes p.index)) (sum_size _),
    beq_bytes_refl (sum (index_bytes p.index)),
  )

  -- What `NewFromBytes` makes of the bytes that `Serialize` writes.
  new_from_bytes-image :
      (p : PackFile) (hasher : Bytes) (now : ℕ)
      → IsPackFile max_len p
      → new_from_bytes sum max_len hasher now p.footer.version
          ((p.blobs ++ index_bytes p.index) ++ footer_bytes (sealed p).footer)
        ≡ ok (sealed p)
  unfolding new_from_bytes new
  new_from_bytes-image p hasher now h =
      let f : IsFooter (sealed p).footer = sealed-IsFooter p h in
      let last : length (footer_bytes (sealed p).footer) ≡ footer_size =
        length-footer_bytes (sealed p).footer (sum_size _) in
      rw (
        le→leb footer_size
            (length ((p.blobs ++ index_bytes p.index) ++ footer_bytes (sealed p).footer))
            (omega (
              arith,
              length-append (p.blobs ++ index_bytes p.index) (footer_bytes (sealed p).footer),
            )),
        read_footer_at_end (p.blobs ++ index_bytes p.index) (sealed p).footer f,
        le→leb p.footer.index_offset max_len (omega (arith, h.data_size, h.allocatable)),
        read_data_at_start p.blobs (index_bytes p.index) (footer_bytes (sealed p).footer) _
            h.data_size,
        read_index-index_bytes p.index
            (length (index_bytes p.index ++ footer_bytes (sealed p).footer) - footer_size)
            (length (index_bytes p.index ++ footer_bytes (sealed p).footer) - footer_size)
            (footer_bytes (sealed p).footer)
            (record (new hasher now) { hasher = []; blobs = p.blobs; footer = (sealed p).footer })
            h.records h.inside
            (omega (
              arith,
              length-append (index_bytes p.index) (footer_bytes (sealed p).footer),
              length-index_bytes p.index h.records,
            ))
            (omega (
              arith,
              length-append (index_bytes p.index) (footer_bytes (sealed p).footer),
              length-index_bytes p.index h.records,
            )),
        check_mac-sealed p,
      )

  -- `NewFromBytes` reads back what `Serialize` wrote: the packfile with its index MAC set, and the
  -- hasher over the index. The packfile's fields are in range, its records pass the bounds check, the
  -- footer's index offset is the data's size, and the hasher gives 32 bytes.
  pub new_from_bytes-serialize :
      (p : PackFile) (hasher : Bytes) (now : ℕ)
      → IsPackFile max_len p
      → (do
        (bytes, _) ← serialize sum max_len p
        new_from_bytes sum max_len hasher now p.footer.version bytes)
        ≡ ok (sealed p)
  unfolding serialize
  new_from_bytes-serialize p hasher now h = rw (seal-sealed p) (new_from_bytes-image p hasher now h)
