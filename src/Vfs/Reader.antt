-- ===== src/Vfs/Reader.antt =====
-- snapshot/vfs/reader.go: a file read from the chunks of its object. `GetBlob` is a parameter: it gives the
-- bytes of a chunk, over which the code has a bytes.Reader, here the bytes that are left.
pub mod Contents
use plakar.Prelude.{
  ℕ, zero, suc, ◌+◌, ◌-◌, ◌%◌, ◌^◌, Option, none, some, List, [], ◌∷◌, length, take, drop, ltb,
  if◌then◌else◌, Result, ok, err, panic, stuck, Error, eof,
}
use plakar.Wire.{Bytes}
use plakar.Storage.{Read}

-- The fields of a chunk that the reader looks at.
pub record Chunk : Type 0 where
  pub content_mac : Bytes
  pub length : ℕ

-- `chunks` are those of the object; `off` is a bit pattern.
pub record ObjectReader : Type 0 where
  pub chunks : List Chunk
  pub size : ℕ
  pub objoff : ℕ
  pub off : ℕ
  pub rd : Option Bytes

unfoldable pub new_object_reader : List Chunk → ℕ → ObjectReader
new_object_reader chunks size = record {
  chunks = chunks;
  size = size;
  objoff = 0;
  off = 0;
  rd = none;
}

-- `bytes.Reader.Read`, whose only error is EOF.
unfoldable pub read_chunk : ℕ → Bytes → Bytes × Option Bytes
read_chunk n [] = ([], none)
read_chunk n (x ∷ xs) = (drop n (x ∷ xs), some (take n (x ∷ xs)))

module _ (get_blob : Bytes → Result Bytes) where
  -- What follows `or.rd.Read`.
  unfoldable pub after_chunk :
      (ObjectReader → Read ObjectReader) → ObjectReader → Bytes × Option Bytes → Read ObjectReader
  after_chunk next r (left, none) = next (record r { objoff = r.objoff + 1; rd = none })
  after_chunk next r (left, some b) =
      ok (record r { rd = some left; off = (r.off + length b) % 2 ^ 64 }, b, none)

  unfoldable pub after_open :
      ℕ → (ObjectReader → Read ObjectReader) → ObjectReader → Result Bytes → Read ObjectReader
  unfolding after_chunk
  after_open n next r (ok left) = after_chunk next r (read_chunk n left)
  after_open n next r (err e) = ok (r, [], some e)
  after_open n next r panic = panic
  after_open n next r stuck = stuck

  -- The reader of a chunk, unless there is one.
  unfoldable pub opened : Chunk → Option Bytes → Result Bytes
  opened c none = get_blob c.content_mac
  opened c (some left) = ok left

  -- The loop of `Read` over the chunks from `objoff` on.
  unfoldable pub read_from : List Chunk → ℕ → ObjectReader → Read ObjectReader
  unfolding after_open opened
  read_from [] n r = ok (r, [], some eof)
  read_from (c ∷ cs) n r = after_open n (read_from cs n) r (opened c r.rd)

  -- The count that comes with an error of `GetBlob`, -1 in the code, is not modelled: no bytes come with it.
  unfoldable pub read : ℕ → ObjectReader → Read ObjectReader
  unfolding read_from
  read n r = read_from (drop r.objoff r.chunks) n r

  -- The chunk that the offset is in. `Seek` of its reader does not fail, since the offset is not negative.
  unfoldable pub seek_in : ℕ → ObjectReader → Result Bytes → ObjectReader × Result ℕ
  seek_in offset r (ok b) = (record r { rd = some (drop offset b) }, ok r.off)
  seek_in offset r (err e) = (r, err e)
  seek_in offset r panic = (r, panic)
  seek_in offset r stuck = (r, stuck)

  unfoldable pub seek_from : List Chunk → ℕ → ObjectReader → ObjectReader × Result ℕ
  unfolding seek_in
  seek_from [] offset r = (r, ok r.off)
  seek_from (c ∷ cs) offset r =
      if ltb c.length offset
      then seek_from cs (offset - c.length)
          (record r { objoff = r.objoff + 1; off = (r.off + c.length) % 2 ^ 64 })
      else seek_in offset (record r { off = (r.off + offset) % 2 ^ 64 }) (get_blob c.content_mac)

  -- `Seek` with `io.SeekStart`, for an offset that is not negative.
  unfoldable pub seek_start : ℕ → ObjectReader → ObjectReader × Result ℕ
  unfolding seek_from
  seek_start offset r = seek_from r.chunks offset (record r { rd = none; off = 0; objoff = 0 })
