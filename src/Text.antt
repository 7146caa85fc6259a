-- ===== src/Text.antt =====
-- The parts of Go's fmt, strings, bytes and encoding/hex that build and read the keys of the caches: a
-- string is the list of its bytes.
pub mod Segments
pub mod Hex
pub mod Decimal
use plakar.Prelude.{
  ℕ, zero, suc, ◌+◌, ◌-◌, ◌*◌, ◌/◌, ◌%◌, ◌^◌, ◌≤◌, ◌<◌, ◌≡◌, refl, sym, ap, ◌∙◌, ◌≢◌, ◌⊎◌, inl, inr,
  Bool, true, false, not, ◌&&◌, ◌||◌, Option, none, some, List, [], ◌∷◌, ◌++◌, map, arith,
  append_assoc, append-nil, length, take, drop, get_elem?, ltb, leb, ◌==◌, if◌then◌else◌,
  Bool-cases, All, All-append, All-map, Result, ok, err, panic, stuck, guard, ensure, ◌>>=◌, ◌>>◌,
  Error, length-append, bad_hex,
}
use Prim.Native.Char.{code}
use Prim.Native.String.{then, String}
use plakar.Wire.{Bytes}

-- The bytes of an ASCII literal.
abbrev pub codes : String → Bytes
codes String.[] = []
codes (String.◌∷◌ c s) = code c ∷ codes s

abbrev pub colon : ℕ
colon = b':'

-- `strings.HasPrefix(s, p)`
unfoldable pub has_prefix : Bytes → Bytes → Bool
has_prefix s [] = true
has_prefix [] (y ∷ ys) = false
has_prefix (x ∷ xs) (y ∷ ys) = (x == y) && has_prefix xs ys

-- `bytes.Compare(a, b) < 0`
unfoldable pub lt_bytes : Bytes → Bytes → Bool
lt_bytes xs [] = false
lt_bytes [] (y ∷ ys) = true
lt_bytes (x ∷ xs) (y ∷ ys) = ltb x y || ((x == y) && lt_bytes xs ys)

-- `key[bytes.LastIndexByte(key, ':')+1:]`, the whole key where it has no colon.
unfoldable pub after_last : Bytes → Bytes → Bytes
after_last cur [] = cur
after_last cur (x ∷ xs) = after_last (if x == colon then xs else cur) xs

abbrev pub hex_digit : ℕ → ℕ
hex_digit n = if ltb n 10 then b'0' + n else b'a' + (n - 10)

-- `fmt.Sprintf("%x", m)`
unfoldable pub hex : Bytes → Bytes
hex [] = []
hex (b ∷ bs) = hex_digit (b / 16) ∷ hex_digit (b % 16) ∷ hex bs

abbrev pub unhex_digit : ℕ → Option ℕ
unhex_digit c =
    if leb b'0' c && leb c b'9'
    then some (c - b'0')
    else if leb b'a' c && leb c b'f'
    then some (c - b'a' + 10)
    else if leb b'A' c && leb c b'F'
    then some (c - b'A' + 10)
    else none

abbrev pub pair_up : Option ℕ → Option ℕ → Bytes × Option Error → Bytes × Option Error
pair_up (some h) (some l) (bs, e) = ((16 * h + l) ∷ bs, e)
pair_up none l rest = ([], some bad_hex)
pair_up (some h) none rest = ([], some bad_hex)

-- `hex.DecodeString(s)`: what was decoded before an error, and the error.
unfoldable pub decode_hex : Bytes → Bytes × Option Error
decode_hex [] = ([], none)
decode_hex (x ∷ []) = ([], some bad_hex)
decode_hex (x ∷ y ∷ more) = pair_up (unhex_digit x) (unhex_digit y) (decode_hex more)

-- `fmt.Sprintf("%d", n)`: the digits before `acc`; ten rounds and more of them are not needed by a
-- number below 10 ^ fuel.
unfoldable pub digits : ℕ → ℕ → Bytes → Bytes
digits zero n acc = acc
digits (suc fuel) n acc =
    let rest = digits fuel (n / 10) ((b'0' + n % 10) ∷ acc) in
    if ltb n 10 then (b'0' + n) ∷ acc else rest

-- A decimal has no more digits than its number has units, and one.
unfoldable pub decimal : ℕ → Bytes
unfolding digits
decimal n = digits (suc n) n []
