-- ===== src/Packfile/Parts.antt =====
-- packfile/packfile.go: `Serialize` against `SerializeData`, `SerializeIndex` and `SerializeFooter`.
use plakar.Prelude.{◌≡◌, ◌++◌, ok, ◌>>=◌, ℕ, arith}
use plakar.Wire.{Bytes}
use plakar.Packfile.{PackFile, seal, serialize, serialize_data, serialize_index, serialize_footer}

module _ (sum : Bytes → Bytes) (max_len : ℕ) where
  -- `Serialize` writes what `SerializeData`, `SerializeIndex` and `SerializeFooter` write, in this
  -- order, and leaves the packfile as `SerializeFooter` does; it fails when that one fails. A packfile
  -- uploaded in three parts is the packfile uploaded whole.
  pub serialize-parts :
      (p : PackFile)
      → serialize sum max_len p ≡ (do
        let (index, q) = serialize_index sum max_len p
        (footer, q') ← serialize_footer sum max_len q
        ok ((serialize_data sum max_len p ++ index) ++ footer, q'))
  unfolding serialize serialize_data serialize_index serialize_footer seal
  serialize-parts p = ground arith
