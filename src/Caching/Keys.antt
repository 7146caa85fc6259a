-- ===== src/Caching/Keys.antt =====
-- caching/repository.go: the operations on prefixed keys that the caches' methods are made of. The other
-- caches repeat them.
use plakar.Prelude.{
  ℕ, ◌≡◌, sym, ap, ◌∙◌, inl, inr, Bool, Option, [], ◌∷◌, ◌++◌, if◌then◌else◌, Bool-cases, Result,
  ok, err, panic, stuck, Error, not_found,
}
use plakar.Text.{colon, hex, decode_hex, decimal, after_last}
use plakar.Wire.{Bytes, to_mac, beq_bytes}
use plakar.Caching.Database.{Table, LevelDb, Works, find, or_not_found, find-insert}
use plakar.Caching.Database.Prefix.{run_of}

-- `fmt.Sprintf("%s:%s", prefix, key)`
abbrev pub prefixed : Bytes → Bytes → Bytes
prefixed prefix key = prefix ++ colon ∷ key

-- `fmt.Sprintf("%d:%x", type, mac)` and `fmt.Sprintf("%d:%x:%x", type, mac, packfile)`
abbrev pub typed : ℕ → Bytes → Bytes
typed type mac = decimal type ++ colon ∷ hex mac

abbrev pub located : ℕ → Bytes → Bytes → Bytes
located type mac packfile = decimal type ++ colon ∷ (hex mac ++ colon ∷ hex packfile)

-- The MAC in the last segment of a key; on a shorter one Go's conversion panics.
unfoldable pub mac_of_key : Bytes → Result Bytes
mac_of_key key = to_mac (decode_hex (after_last key key)).0

abbrev pub yield_one : Result Bytes → Bytes → Table → Table
yield_one (ok m) v rest = (m, v) ∷ rest
yield_one (err e) v rest = []
yield_one panic v rest = []
yield_one stuck v rest = []

-- What an iterator yields: the MAC and the value of each entry, up to a key at which it panics.
unfoldable pub yielded : Table → Table
yielded [] = []
yielded ((k, v) ∷ t) = yield_one (mac_of_key k) v (yielded t)

-- A missing key is no error, and its value is nil.
abbrev pub nil_if_missing : Result Bytes → Result Bytes
nil_if_missing (ok v) = ok v
nil_if_missing (err not_found) = ok []
nil_if_missing (err e) = err e
nil_if_missing panic = panic
nil_if_missing stuck = stuck

module _ {D : Type 0} (db : LevelDb D) where
  unfoldable pub put : Bytes → Bytes → Bytes → D → D × Option Error
  put prefix key buf d = db.put (prefixed prefix key) buf d

  unfoldable pub get : Bytes → Bytes → D → Result Bytes
  get prefix key d = nil_if_missing (db.get (prefixed prefix key) d)

  unfoldable pub has : Bytes → Bytes → D → Result Bool
  has prefix key d = db.has (prefixed prefix key) d

  unfoldable pub delete : Bytes → Bytes → D → D × Option Error
  delete prefix key d = db.delete (prefixed prefix key) d

  unfoldable pub get_objects : Bytes → D → Table
  get_objects prefix d = yielded (run_of prefix (db.seek prefix d))

module _ {D : Type 0} (db : LevelDb D) (w : Works db) where
  -- After a `put` the `get` of its key gives what was put, that of any other what it gave before.
  pub get-put :
      (prefix key prefix' key' v : Bytes) (d : D)
      → get db prefix key (put db prefix' key' v d).0 ≡ (
          if beq_bytes (prefixed prefix key) (prefixed prefix' key')
          then ok v
          else get db prefix key d)
  unfolding get put
  get-put prefix key prefix' key' v d =
      let k = prefixed prefix key in
      let k' = prefixed prefix' key' in
      ap nil_if_missing (w.get_finds k (db.put k' v d).0)
      ∙ ap (λ t. nil_if_missing (or_not_found (find k t))) (w.put_entries k' v d)
      ∙ ap (λ o. nil_if_missing (or_not_found o)) (find-insert k k' v (w.entries d))
      ∙ elim (Bool-cases (beq_bytes k k')) [
        | inl same ↦ rw same
        | inr other ↦ rw other (sym (ap nil_if_missing (w.get_finds k d)))
      ]
