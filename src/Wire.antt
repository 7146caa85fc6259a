-- ===== src/Wire.antt =====
-- The parts of Go's encoding/binary, bytes and io that the serializers use: little-endian integers of
-- fixed width, `io.ReadFull`, `bytes.Buffer.Next`, and byte strings compared by `==`.
use plakar.Prelude.{
  ℕ, zero, suc, ◌+◌, ◌*◌, ◌/◌, ◌%◌, ◌^◌, ◌<◌, ◌≡◌, refl, ap, Bool, true, false, ◌&&◌, List, [], ◌∷◌,
  ◌++◌, length, take, drop, take-append, drop-append, length-append, length-take, length-drop,
  take-length, le→leb, leb, ◌==◌, if◌then◌else◌, arith, Result, ok, err, eof, unexpected_eof,
  ensure, ◌>>=◌, ◌>>◌,
}

abbrev pub Bytes : Type 0
Bytes = List ℕ

-- `binary.LittleEndian.PutUintN`, `binary.Write` of an unsigned integer of `n` bytes.
unfoldable pub le : ℕ → ℕ → Bytes
le zero v = []
le (suc n) v = (v % 256) ∷ le n (v / 256)

-- `binary.LittleEndian.UintN` of bytes.
unfoldable pub of_le : Bytes → ℕ
of_le [] = 0
of_le (b ∷ bs) = b + 256 * of_le bs

pub length-le : (n v : ℕ) → length (le n v) ≡ n
unfolding le
length-le zero v = refl
length-le (suc n) v = ap suc (length-le n (v / 256))

-- The value survives up to the width: Go's conversion to the narrower type.
pub of_le-le : (n v : ℕ) → v < 256 ^ n → of_le (le n v) ≡ v
unfolding le of_le
of_le-le zero v h = omega arith
of_le-le (suc n) v h = omega (arith, of_le-le n (v / 256) (quotient n v h))
  where
    quotient : (n v : ℕ) → v < 256 ^ suc n → v / 256 < 256 ^ n
    quotient n v h = omega arith

-- `io.ReadFull` of `n` bytes: EOF when nothing is left, ErrUnexpectedEOF when too little is.
unfoldable pub read_full : ℕ → Bytes → Result (Bytes × Bytes)
read_full n r =
    if leb n (length r)
    then ok (take n r, drop n r)
    else if length r == 0
    then err eof
    else err unexpected_eof

-- `binary.Read` of an unsigned integer of `n` bytes.
unfoldable pub read_uint : ℕ → Bytes → Result (ℕ × Bytes)
unfolding read_full
read_uint n r = do (b, rest) ← read_full n r; ok (of_le b, rest)

pub read_full-append :
    (n : ℕ) (xs ys : Bytes) → length xs ≡ n → read_full n (xs ++ ys) ≡ ok (xs, ys)
unfolding read_full
read_full-append n xs ys h = rw (
  le→leb n (length (xs ++ ys)) (omega (arith, length-append xs ys)),
  take-append n xs ys h,
  drop-append n xs ys h,
)

pub read_uint-le : (n v : ℕ) (ys : Bytes) → v < 256 ^ n → read_uint n (le n v ++ ys) ≡ ok (v, ys)
unfolding read_uint
read_uint-le n v ys h = rw (read_full-append n (le n v) ys (length-le n v), of_le-le n v h)

-- What a successful read took, and what it left.
pub read_full_takes :
    (n : ℕ) (r xs ys : Bytes)
    → read_full n r ≡ ok (xs, ys)
    → (length xs ≡ n) × (length r ≡ n + length ys)
unfolding read_full
read_full_takes n r xs ys h = ground (arith, length-take n r, length-drop n r)

-- Equality of arrays and strings of bytes.
unfoldable pub beq_bytes : Bytes → Bytes → Bool
beq_bytes [] [] = true
beq_bytes [] (y ∷ ys) = false
beq_bytes (x ∷ xs) [] = false
beq_bytes (x ∷ xs) (y ∷ ys) = (x == y) && beq_bytes xs ys

pub beq_bytes_refl : (xs : Bytes) → beq_bytes xs xs ≡ true
unfolding beq_bytes
beq_bytes_refl [] = refl
beq_bytes_refl (x ∷ xs) = ground (arith, beq_bytes_refl xs)

pub beq_bytes_eq : (xs ys : Bytes) → beq_bytes xs ys ≡ true → xs ≡ ys
unfolding beq_bytes
beq_bytes_eq [] [] h = refl
beq_bytes_eq [] (y ∷ ys) h = cc
beq_bytes_eq (x ∷ xs) [] h = cc
beq_bytes_eq (x ∷ xs) (y ∷ ys) h = ground (arith, beq_bytes_eq xs ys)

-- `objects.MAC(b)`, Go's conversion of a slice to an array of 32 bytes: it panics on a shorter slice.
unfoldable pub to_mac : Bytes → Result Bytes
to_mac b = do ensure (leb 32 (length b)); ok (take 32 b)

pub to_mac_exact : (b : Bytes) → length b ≡ 32 → to_mac b ≡ ok b
unfolding to_mac
to_mac_exact b h = ground (arith, take-length 32 b h)
