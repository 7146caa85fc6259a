-- ===== src/Tests/Reader.antt =====
-- snapshot/vfs/reader.go: an object of two chunks, kept under their own bytes.
use plakar.Prelude.{ℕ, ◌≡◌, refl, some, List, [], ◌∷◌, arith, Result, ok, eof}
use plakar.Wire.{Bytes}
use plakar.Vfs.Reader.{ObjectReader, new_object_reader, seek_start}
use plakar.Vfs.Reader.Contents.{drain, reads-contents}

abbrev kept : Bytes → Result Bytes
kept mac = ok mac

abbrev itself : Bytes → Bytes
itself mac = mac

abbrev two_chunks : ObjectReader
two_chunks = record {
  chunks =
      record { content_mac = 1 ∷ 2 ∷ []; length = 2 }
      ∷ record { content_mac = 3 ∷ []; length = 1 }
      ∷ [];
  size = 3;
  objoff = 0;
  off = 0;
  rd = some (2 ∷ []);
}

abbrev buffers : List ℕ
buffers = 2 ∷ 2 ∷ 2 ∷ 2 ∷ []

reads-contents_example :
    (drain kept buffers (new_object_reader two_chunks.chunks 3) ≡ ok (1 ∷ 2 ∷ 3 ∷ [], some eof))
    × (r : ObjectReader) × (seek_start kept 2 two_chunks ≡ (r, ok 2))
    × (drain kept buffers r ≡ ok (3 ∷ [], some eof))
reads-contents_example =
    reads-contents kept itself two_chunks 2 buffers ((refl, refl), ((refl, refl), tt))
      (omega arith, (omega arith, (omega arith, (omega arith, tt)))) (omega arith) (omega arith)
      (omega arith)
