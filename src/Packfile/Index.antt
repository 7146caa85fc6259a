-- ===== src/Packfile/Index.antt =====
-- packfile/packfile.go, `NewIndexFromBytes`: the whole index, written and read back.
use plakar.Prelude.{
  ℕ, zero, suc, ◌≤◌, ◌≡◌, refl, ap, ◌∙◌, List, [], ◌∷◌, ◌++◌, length, length-append, append_assoc,
  append-nil, arith, ok, All,
}
use plakar.Wire.{Bytes}
use plakar.Packfile.{Blob, blob_bytes, index_bytes, read_records, new_index_from_bytes}
use plakar.Packfile.Codec.{IsBlob, length-blob_bytes, read_blob-blob_bytes, length-index_bytes}

-- One round on a record at the front.
read_records_step :
    (fuel : ℕ) (b : Blob) (rest : Bytes) (acc : List Blob)
    → IsBlob b
    → read_records (suc fuel) (blob_bytes b ++ rest) acc ≡ read_records fuel rest (acc ++ b ∷ [])
unfolding read_records
read_records_step fuel b rest acc h =
    rw (read_blob-blob_bytes b rest h)
      (ground (arith, length-append (blob_bytes b) rest, length-blob_bytes b h.mac_size))

read_records_end : (fuel : ℕ) (acc : List Blob) → read_records fuel [] acc ≡ ok acc
unfolding read_records
read_records_end zero acc = refl
read_records_end (suc fuel) acc = refl

read_records-index_bytes :
    (bs : List Blob) (fuel : ℕ) (acc : List Blob)
    → All IsBlob bs
    → length bs ≤ fuel
    → read_records fuel (index_bytes bs) acc ≡ ok (acc ++ bs)
unfolding index_bytes
read_records-index_bytes [] fuel acc h hf = rw append-nil (read_records_end fuel acc)
read_records-index_bytes (b ∷ bs) zero acc h hf = absurd (omega arith)
read_records-index_bytes (b ∷ bs) (suc fuel) acc (hb, hbs) hf =
    read_records_step fuel b (index_bytes bs) acc hb
    ∙ read_records-index_bytes bs fuel (acc ++ b ∷ []) hbs (omega arith)
    ∙ ap ok (append_assoc acc (b ∷ []) bs)

-- `NewIndexFromBytes` reads back every index whose records are in range.
pub new_index_from_bytes-index_bytes :
    (bs : List Blob) → All IsBlob bs → new_index_from_bytes (index_bytes bs) ≡ ok bs
unfolding new_index_from_bytes
new_index_from_bytes-index_bytes bs h =
    read_records-index_bytes bs (length (index_bytes bs)) [] h
      (omega (arith, length-index_bytes bs h))
