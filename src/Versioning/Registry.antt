-- ===== src/Versioning/Registry.antt =====
-- versioning/versioning.go: the table of current versions.
use plakar.Prelude.{ℕ, ◌≡◌, ◌≢◌, ok, panic, arith}
use plakar.Versioning.{Versions, register, get_current_version, lookup}

-- A type is registered at most once: after `Register` has added a version for the type t, that version is
-- the current one of t, every other type has the version it had, and a second `Register` of t panics.
pub register-once :
    (t v w : ℕ) (m m' : Versions)
    → register t v m ≡ ok m'
    → (get_current_version t m' ≡ ok v)
      × ((u : ℕ) → u ≢ t → get_current_version u m' ≡ get_current_version u m)
      × (register t w m' ≡ panic)
unfolding register get_current_version lookup
register-once t v w m m' h = grind arith
