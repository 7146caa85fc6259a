-- ===== src/Packfile/Codec.antt =====
-- packfile/packfile.go: one record of the index and the footer, written and read back.
use plakar.Prelude.{
  ◌*◌, ◌^◌, ◌<◌, ◌≡◌, refl, List, [], ◌∷◌, ◌++◌, length, length-append, append_assoc, arith, ok,
  All,
}
use plakar.Wire.{Bytes, length-le, read_uint-le, read_full-append}
use plakar.Packfile.{
  Blob, PackFileFooter, blob_bytes, footer_bytes, index_bytes, read_blob, read_footer,
  new_footer_from_bytes, blob_record_size, footer_size,
}

-- The fields of a record lie in the ranges of their Go types.
pub record IsBlob (b : Blob) : Type 0 where
  pub type_range : b.type < 256 ^ 4
  pub version_range : b.version < 256 ^ 4
  pub mac_size : length b.mac ≡ 32
  pub offset_range : b.offset < 256 ^ 8
  pub length_range : b.length < 256 ^ 4
  pub flags_range : b.flags < 256 ^ 4

pub record IsFooter (f : PackFileFooter) : Type 0 where
  pub timestamp_range : f.timestamp < 256 ^ 8
  pub count_range : f.count < 256 ^ 4
  pub index_offset_range : f.index_offset < 256 ^ 8
  pub mac_size : length f.index_mac ≡ 32
  pub flags_range : f.flags < 256 ^ 4

pub length-blob_bytes : (b : Blob) → length b.mac ≡ 32 → length (blob_bytes b) ≡ blob_record_size
unfolding blob_bytes
length-blob_bytes b h = simp (length-append, length-le, h)

pub length-footer_bytes :
    (f : PackFileFooter) → length f.index_mac ≡ 32 → length (footer_bytes f) ≡ footer_size
unfolding footer_bytes
length-footer_bytes f h = simp (length-append, length-le, h)

pub read_blob-blob_bytes :
    (b : Blob) (rest : Bytes) → IsBlob b → read_blob (blob_bytes b ++ rest) ≡ ok (b, rest)
unfolding read_blob blob_bytes
read_blob-blob_bytes b rest h =
    rw (append_assoc, read_uint-le 4 b.type _ h.type_range)
      (rw (append_assoc, read_uint-le 4 b.version _ h.version_range)
        (rw (append_assoc, read_full-append 32 b.mac _ h.mac_size)
          (rw (append_assoc, read_uint-le 8 b.offset _ h.offset_range)
            (rw (append_assoc, read_uint-le 4 b.length _ h.length_range)
              (rw (read_uint-le 4 b.flags _ h.flags_range))))))

pub read_footer-footer_bytes :
    (f : PackFileFooter) (rest : Bytes)
    → IsFooter f
    → read_footer f.version (footer_bytes f ++ rest) ≡ ok (f, rest)
unfolding read_footer footer_bytes
read_footer-footer_bytes f rest h =
    rw (append_assoc, read_uint-le 8 f.timestamp _ h.timestamp_range)
      (rw (append_assoc, read_uint-le 4 f.count _ h.count_range)
        (rw (append_assoc, read_uint-le 8 f.index_offset _ h.index_offset_range)
          (rw (append_assoc, read_full-append 32 f.index_mac _ h.mac_size)
            (rw (read_uint-le 4 f.flags _ h.flags_range)))))

-- `NewFooterFromBytes` reads back the footer that was written, whatever bytes follow it.
pub new_footer_from_bytes-footer_bytes :
    (f : PackFileFooter) (rest : Bytes)
    → IsFooter f
    → new_footer_from_bytes f.version (footer_bytes f ++ rest) ≡ ok f
unfolding new_footer_from_bytes
new_footer_from_bytes-footer_bytes f rest h = rw (read_footer-footer_bytes f rest h)

pub length-index_bytes :
    (bs : List Blob) → All IsBlob bs → length (index_bytes bs) ≡ blob_record_size * length bs
unfolding index_bytes
length-index_bytes [] h = refl
length-index_bytes (b ∷ bs) (hb, hbs) = omega (
  arith,
  length-append (blob_bytes b) (index_bytes bs),
  length-blob_bytes b hb.mac_size,
  length-index_bytes bs hbs,
)
