-- ===== src/Versioning.antt =====
-- versioning/versioning.go: versions packed in 32 bits, and the table of current versions.
pub mod Registry
use plakar.Prelude.{
  ℕ, ◌+◌, ◌*◌, ◌/◌, ◌%◌, ◌^◌, List, [], ◌∷◌, ◌==◌, if◌then◌else◌, Result, ok, panic, Option, none,
  some,
}
use Prim.Native.Nat.{bit_or}

-- `NewVersion(major, minor, patch)`; a shift of a uint32 drops the bits above the 32nd.
unfoldable pub new_version : ℕ → ℕ → ℕ → ℕ
new_version major minor patch =
    bit_or (bit_or (major * 2 ^ 16 % 2 ^ 32) (minor * 2 ^ 8 % 2 ^ 32)) patch

unfoldable pub major : ℕ → ℕ
major v = v / 2 ^ 16 % 256

unfoldable pub minor : ℕ → ℕ
minor v = v / 2 ^ 8 % 256

unfoldable pub patch : ℕ → ℕ
patch v = v % 256

-- `currentVersions`
abbrev pub Versions : Type 0
Versions = List (ℕ × ℕ)

lookup : ℕ → Versions → Option ℕ
lookup t [] = none
lookup t ((k, v) ∷ m) = if k == t then some v else lookup t m

-- `Register`: it panics on a type that is registered already.
unfoldable pub register : ℕ → ℕ → Versions → Result Versions
unfolding lookup
register t v m = elim (lookup t m) [ none ↦ ok ((t, v) ∷ m) | some w ↦ panic ]

-- `GetCurrentVersion`: it panics on a type that is not registered.
unfoldable pub get_current_version : ℕ → Versions → Result ℕ
unfolding lookup
get_current_version t m = elim (lookup t m) [ none ↦ panic | some v ↦ ok v ]
