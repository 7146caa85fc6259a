-- ===== src/Text/Hex.antt =====
-- Hexadecimal: `%x` and `hex.DecodeString`.
use plakar.Prelude.{
  ℕ, ◌+◌, ◌*◌, ◌/◌, ◌%◌, ◌<◌, ◌≡◌, refl, ◌≢◌, Bool, ◌&&◌, none, some, [], ◌∷◌, arith, ◌==◌, All,
}
use plakar.Text.{hex, hex_digit, unhex_digit, decode_hex, colon}
use plakar.Text.Segments.{NoColon}
use plakar.Wire.{Bytes, beq_bytes}

abbrev pub AreBytes : Bytes → Type 0
AreBytes = All (λ b. b < 256)

unhex_digit-hex_digit : (n : ℕ) → n < 16 → unhex_digit (hex_digit n) ≡ some n
unhex_digit-hex_digit n h = ground arith

pub decode_hex-hex : (m : Bytes) → AreBytes m → decode_hex (hex m) ≡ (m, none)
unfolding decode_hex hex
decode_hex-hex [] h = refl
decode_hex-hex (b ∷ m) (hb, h) =
    let same : 16 * (b / 16) + b % 16 ≡ b = omega arith in
    rw (
      unhex_digit-hex_digit (b / 16) (omega arith),
      unhex_digit-hex_digit (b % 16) (omega arith),
      decode_hex-hex m h,
      same,
    )

hex_digit-ne-colon : (n : ℕ) → n < 16 → hex_digit n ≢ colon
hex_digit-ne-colon n h = λ e. ground arith

pub hex-NoColon : (m : Bytes) → AreBytes m → NoColon (hex m)
unfolding hex
hex-NoColon [] h = tt
hex-NoColon (b ∷ m) (hb, h) = (
  hex_digit-ne-colon (b / 16) (omega arith),
  (hex_digit-ne-colon (b % 16) (omega arith), hex-NoColon m h),
)

hex_digit-injective : (a b : ℕ) → a < 16 → b < 16 → (hex_digit a == hex_digit b) ≡ (a == b)
hex_digit-injective a b h k = ground arith

halves_equal :
    (x y : ℕ) (r : Bool) → ((x / 16 == y / 16) && ((x % 16 == y % 16) && r)) ≡ ((x == y) && r)
halves_equal x y r = ground arith

pub beq_bytes-hex :
    (m n : Bytes) → AreBytes m → AreBytes n → beq_bytes (hex m) (hex n) ≡ beq_bytes m n
unfolding hex beq_bytes
beq_bytes-hex [] [] h k = refl
beq_bytes-hex [] (y ∷ n) h k = refl
beq_bytes-hex (x ∷ m) [] h k = refl
beq_bytes-hex (x ∷ m) (y ∷ n) (hx, h) (hy, k) =
    rw
      (
        hex_digit-injective (x / 16) (y / 16) (omega arith) (omega arith),
        hex_digit-injective (x % 16) (y % 16) (omega arith) (omega arith),
        beq_bytes-hex m n h k,
      )
      (halves_equal x y (beq_bytes m n))
