-- ===== src/Storage/Delivery.antt =====
-- What the readers of storage/serialization.go rely on: an `io.Reader` as its documentation has it.
use plakar.Prelude.{ℕ, ◌≤◌, ◌<◌, ◌≡◌, Option, none, some, ◌++◌, length, Error, eof}
use plakar.Wire.{Bytes}
use plakar.Storage.{Reader}

-- A read of at most `n` bytes: those are the next ones, and EOF may come along with the last of them.
pub data Given {R : Type 0} (Valid : R → Type 0) (remaining : R → Bytes) (left : R → ℕ) (n : ℕ)
    (r : R) : R × Bytes × Option Error → Type 0 where
  more :
      (r' : R) (b : Bytes)
      → Valid r'
      → remaining r ≡ b ++ remaining r'
      → length b ≤ n
      → left r' < left r
      → Given Valid remaining left n r (r', b, none)
  last :
      (r' : R) (b : Bytes)
      → remaining r ≡ b
      → length b ≤ n
      → Given Valid remaining left n r (r', b, some eof)

-- A reader that does not fail: `remaining` is what it has still to give, and `left` bounds the number of reads
-- until it answers with EOF.
pub record Delivers {R : Type 0} (rd : Reader R) : Type 1 where
  pub Valid : R → Type 0
  pub remaining : R → Bytes
  pub left : R → ℕ
  pub gives : (n : ℕ) (r : R) → 0 < n → Valid r → Given Valid remaining left n r (rd.read n r)
