-- ===== src/Caching/Maintenance.antt =====
-- caching/maintenance.go: which packfiles the snapshots use, in a database.
pub mod Names
pub mod Deletes
pub mod Users
use plakar.Prelude.{
  ℕ, zero, suc, ◌+◌, ◌-◌, ◌*◌, ◌/◌, ◌%◌, ◌^◌, ◌≤◌, ◌<◌, ◌≡◌, refl, sym, ap, ◌∙◌, ◌≢◌, ◌⊎◌, inl, inr,
  Bool, true, false, not, ◌&&◌, ◌||◌, Option, none, some, List, [], ◌∷◌, ◌++◌, map, arith,
  append_assoc, append-nil, length, take, drop, get_elem?, ltb, leb, ◌==◌, if◌then◌else◌,
  Bool-cases, All, All-append, All-map, Result, ok, err, panic, stuck, guard, ensure, Error,
  length-append,
}
use plakar.Text.{codes, colon, hex, decode_hex, after_last}
use plakar.Wire.{Bytes, beq_bytes, to_mac}
use plakar.Caching.Database.{Table, LevelDb}
use plakar.Caching.Database.Prefix.{run_of}
use plakar.Caching.Keys.{put, has, delete}
use plakar.State.Exec.{Exec, pure, raise, lift, ◌>>=◌, ◌>>◌}

-- `fmt.Sprintf("%x:%x", packfileMAC, snapshotID)`
abbrev pub used_by : Bytes → Bytes → Bytes
used_by packfile snapshot = hex packfile ++ colon ∷ hex snapshot

-- `if err != nil { return err }` after a write.
abbrev pub or_raise : {D : Type 0} → Option Error → Exec D (Unit {0})
or_raise none = pure tt
or_raise (some e) = raise e

abbrev pub wrote : {D : Type 0} → (D → D × Option Error) → Exec D (Unit {0})
wrote write d = or_raise (write d).1 (write d).0

abbrev pub yield_value : Result Bytes → List Bytes → List Bytes
yield_value (ok m) rest = m ∷ rest
yield_value (err e) rest = []
yield_value panic rest = []
yield_value stuck rest = []

-- The values as MACs, up to one at which the conversion panics.
unfoldable pub values : Table → List Bytes
values [] = []
values ((k, v) ∷ t) = yield_value (to_mac v) (values t)

abbrev pub non_empty : Table → Bool
non_empty [] = false
non_empty (e ∷ t) = true

-- `hex.DecodeString` with its error returned.
abbrev pub decoded : Bytes × Option Error → Result Bytes
decoded (b, none) = ok b
decoded (b, some e) = err e

module _ {D : Type 0} (db : LevelDb D) where
  unfoldable pub put_snapshot : Bytes → Bytes → D → D × Option Error
  put_snapshot snapshot buf = put db (codes "__snapshot__") (hex snapshot) buf

  unfoldable pub has_snapshot : Bytes → D → Result Bool
  has_snapshot snapshot = has db (codes "__snapshot__") (hex snapshot)

  unfoldable pub delete_snapshot : Bytes → D → D × Option Error
  delete_snapshot snapshot = delete db (codes "__snapshot__") (hex snapshot)

  unfoldable pub put_packfile : Bytes → Bytes → D → D × Option Error
  put_packfile snapshot packfile =
      put db (codes "__packfile__") (used_by packfile snapshot) packfile

  unfoldable pub has_packfile : Bytes → D → Bool
  has_packfile packfile d = non_empty (db.within (codes "__packfile__:" ++ hex packfile) d)

  -- The snapshot is not looked at.
  unfoldable pub get_packfiles : Bytes → D → List Bytes
  get_packfiles snapshot d =
      values (run_of (codes "__packfile__:") (db.seek (codes "__packfile__:") d))

  -- The loop of `DeleletePackfiles` over the entries that the iterator goes through, which are those of
  -- the database as it was when the iterator was made.
  unfoldable pub delete_used_by : Bytes → Table → Exec D (Unit {0})
  delete_used_by snapshot [] = pure tt
  delete_used_by snapshot ((k, v) ∷ t) = do
    bytes ← lift (decoded (decode_hex (after_last k k)))
    mac ← lift (to_mac bytes)
    (if beq_bytes mac snapshot then wrote (db.delete k) else pure tt)
    delete_used_by snapshot t

  unfoldable pub delete_packfiles : Bytes → Exec D (Unit {0})
  delete_packfiles snapshot d = delete_used_by snapshot (db.whole d) d
