-- ===== src/Caching/Scan.antt =====
-- caching/scan.go: the cache of a backup in progress in a database. It is removed when it is closed, which
-- is not modelled.
pub mod Paths
pub mod Keys
use plakar.Prelude.{
  ℕ, zero, suc, ◌+◌, ◌-◌, ◌*◌, ◌/◌, ◌%◌, ◌^◌, ◌≤◌, ◌<◌, ◌≡◌, refl, sym, ap, ◌∙◌, ◌≢◌, ◌⊎◌, inl, inr,
  Bool, true, false, not, ◌&&◌, ◌||◌, Option, none, some, List, [], ◌∷◌, ◌++◌, map, arith,
  append_assoc, append-nil, length, take, drop, get_elem?, ltb, leb, ◌==◌, if◌then◌else◌,
  Bool-cases, All, All-append, All-map, Result, ok, err, panic, stuck, guard, ensure, ◌>>=◌, ◌>>◌,
  Error, length-append, reverse,
}
use plakar.Text.{codes, has_prefix}
use plakar.Wire.{Bytes, beq_bytes}
use plakar.Caching.Database.{Table, LevelDb}
use plakar.Caching.Keys.{put, get}
use plakar.Caching.StateCache.{StateCache}
use plakar.Caching.Repository.{repository_cache}

-- `strings.TrimSuffix(s, "/")`
unfoldable pub trim_slash : Bytes → Bytes
trim_slash [] = []
trim_slash (x ∷ []) = if x == b'/' then [] else x ∷ []
trim_slash (x ∷ y ∷ s) = x ∷ trim_slash (y ∷ s)

abbrev pub or_root : Bytes → Bytes
or_root [] = b'/' ∷ []
or_root (x ∷ s) = x ∷ s

-- The key of a summary: the pathname without a slash at its end, but for the root's.
unfoldable pub summary_key : Bytes → Bytes
summary_key pathname = or_root (trim_slash pathname)

-- The loop of `EnumerateKeysWithPrefix` over the entries that the iterator goes through.
unfoldable pub keys_with_prefix : Bytes → Table → Table
keys_with_prefix prefix [] = []
keys_with_prefix prefix ((k, v) ∷ t) =
    if has_prefix k prefix
    then (drop (length prefix) k, v) ∷ keys_with_prefix prefix t
    else keys_with_prefix prefix t

module _ {D : Type 0} (db : LevelDb D) where
  unfoldable pub put_file : Bytes → Bytes → D → D × Option Error
  put_file file buf = put db (codes "__file__") file buf

  unfoldable pub get_file : Bytes → D → Result Bytes
  get_file file = get db (codes "__file__") file

  unfoldable pub put_xattr : Bytes → Bytes → D → D × Option Error
  put_xattr xattr buf = put db (codes "__xattr__") xattr buf

  unfoldable pub get_xattr : Bytes → D → Result Bytes
  get_xattr xattr = get db (codes "__xattr__") xattr

  unfoldable pub put_directory : Bytes → Bytes → D → D × Option Error
  put_directory directory buf = put db (codes "__directory__") directory buf

  unfoldable pub get_directory : Bytes → D → Result Bytes
  get_directory directory = get db (codes "__directory__") directory

  unfoldable pub put_summary : Bytes → Bytes → D → D × Option Error
  put_summary pathname buf = put db (codes "__summary__") (summary_key pathname) buf

  unfoldable pub get_summary : Bytes → D → Result Bytes
  get_summary pathname = get db (codes "__summary__") (summary_key pathname)

  unfoldable pub enumerate_keys_with_prefix : Bytes → Bool → D → Table
  enumerate_keys_with_prefix prefix backwards d =
      keys_with_prefix prefix
        (if backwards then reverse (db.within prefix d) else db.within prefix d)

  -- The cache as the interface that a state uses: its methods are those of a repository's cache, but for
  -- the states, which it only writes.
  unfoldable pub scan_cache : StateCache D
  scan_cache = record (repository_cache db) {
    has_state = λ id d. panic;
    get_state = λ id d. panic;
    get_states = λ d. panic;
    del_state = λ id d. panic;
  }
