-- ===== src/Caching/Repository/Entries.antt =====
-- caching/repository.go: the keys of the cache as data, and its entries under such keys.
use plakar.Prelude.{
  ℕ, ◌≡◌, Bool, ◌&&◌, Option, none, some, List, [], ◌∷◌, length, ◌==◌, if◌then◌else◌, All,
}
use plakar.Text.{codes, hex}
use plakar.Text.Hex.{AreBytes}
use plakar.Wire.{Bytes, beq_bytes}
use plakar.Caching.Database.{Table, LevelDb, Works, Increasing}
use plakar.Caching.Keys.{prefixed, typed, located}

-- What the cache keeps entries for.
pub data Key : Type 0 where
  state_key : Bytes → Key
  delta_key : ℕ → Bytes → Bytes → Key
  deleted_key : ℕ → Bytes → Key
  packfile_key : Bytes → Key
  configuration_key : Bytes → Key

abbrev pub encode : Key → Bytes
encode (state_key id) = prefixed (codes "__state__") (hex id)
encode (delta_key t m p) = prefixed (codes "__delta__") (located t m p)
encode (deleted_key t m) = prefixed (codes "__deleted__") (typed t m)
encode (packfile_key p) = prefixed (codes "__packfile__") (hex p)
encode (configuration_key k) = prefixed (codes "__configuration__") k

pub record IsMac (m : Bytes) : Type 0 where
  pub size : length m ≡ 32
  pub bytes : AreBytes m

abbrev pub IsKey : Key → Type 0
IsKey (state_key id) = IsMac id
IsKey (delta_key t m p) = IsMac m × IsMac p
IsKey (deleted_key t m) = IsMac m
IsKey (packfile_key p) = IsMac p
IsKey (configuration_key k) = Unit

abbrev pub Entries : Type 0
Entries = List (Key × Bytes)

abbrev pub encode_all : Entries → Table
encode_all [] = []
encode_all ((k, v) ∷ es) = (encode k, v) ∷ encode_all es

abbrev pub pick : Option Bytes → Bytes → Table → Table
pick none v rest = rest
pick (some m) v rest = (m, v) ∷ rest

-- The entries whose key the test gives a MAC, under that MAC.
unfoldable pub select : (Key → Option Bytes) → Entries → Table
select f [] = []
select f ((k, v) ∷ es) = pick (f k) v (select f es)

abbrev pub when : Bool → Bytes → Option Bytes
when b m = if b then some m else none

abbrev pub delta_of : ℕ → Bytes → Key → Option Bytes
delta_of t m (delta_key t' m' p) = when ((t' == t) && beq_bytes m' m) p
delta_of t m _ = none

abbrev pub delta_typed : ℕ → Key → Option Bytes
delta_typed t (delta_key t' m' p) = when (t' == t) p
delta_typed t _ = none

abbrev pub any_delta : Key → Option Bytes
any_delta (delta_key t' m' p) = some p
any_delta _ = none

abbrev pub any_deleted : Key → Option Bytes
any_deleted (deleted_key t' m') = some m'
any_deleted _ = none

abbrev pub deleted_typed : ℕ → Key → Option Bytes
deleted_typed t (deleted_key t' m') = when (t' == t) m'
deleted_typed t _ = none

abbrev pub any_packfile : Key → Option Bytes
any_packfile (packfile_key p) = some p
any_packfile _ = none

-- A database that holds the entries `es` under the keys that the cache writes.
pub record Holds {D : Type 0} (db : LevelDb D) (w : Works db) (d : D) (es : Entries) : Type 0 where
  pub entries_are : w.entries d ≡ encode_all es
  pub increasing : Increasing (w.entries d)
  pub keys_are : All (λ e. IsKey e.0) es
