-- ===== src/Caching/Repository/Selects.antt =====
-- caching/repository.go: what the iterators of the cache yield, against the keys as data.
use plakar.Prelude.{ℕ, ◌≡◌, refl, ap, ◌∙◌, Option, [], ◌∷◌, ◌++◌, All, All-map, ok}
use plakar.Text.{colon, hex}
use plakar.Text.Segments.{after_last_segment}
use plakar.Text.Hex.{decode_hex-hex, hex-NoColon}
use plakar.Wire.{Bytes, to_mac_exact}
use plakar.Caching.Database.{with_prefix, LevelDb, Works, Increasing}
use plakar.Caching.Database.Prefix.{run_of, run_of-with_prefix}
use plakar.Caching.Keys.{mac_of_key, yielded, get_objects}
use plakar.Caching.Repository.{
  get_delta, get_deltas_by_type, get_deltas, get_deleteds, get_deleteds_by_type, get_packfiles,
}
use plakar.Caching.Repository.Entries.{
  Key, encode, IsMac, IsKey, Entries, encode_all, select, delta_of, delta_typed, any_delta,
  any_deleted, deleted_typed, any_packfile, Holds,
}
use plakar.Caching.Repository.Fits.{
  Fit, skipped, kept, any_delta-Fit, delta_typed-Fit, delta_of-Fit, any_deleted-Fit,
  deleted_typed-Fit, any_packfile-Fit,
}

mac_of_key-encode : (key q m : Bytes) → IsMac m → key ≡ q ++ colon ∷ hex m → mac_of_key key ≡ ok m
unfolding mac_of_key
mac_of_key-encode key q m h e =
    rw
      (
        e,
        after_last_segment (q ++ colon ∷ hex m) q (hex m) (hex-NoColon m h.bytes),
        decode_hex-hex m h.bytes,
      )
      (to_mac_exact m h.size)

yielded-select :
    (p : Bytes) (f : Key → Option Bytes) (es : Entries)
    → All (λ e. Fit p e.0 (f e.0)) es
    → yielded (with_prefix p (encode_all es)) ≡ select f es
unfolding yielded with_prefix select
yielded-select p f [] h = refl
yielded-select p f ((k, v) ∷ es) (skipped n e, h) = rw (n, e) (yielded-select p f es h)
yielded-select p f ((k, v) ∷ es) (kept m q y e i l, h) =
    rw (y, e, mac_of_key-encode (encode k) q m i l) (ap (λ t. (m, v) ∷ t) (yielded-select p f es h))

module _ {D : Type 0} (db : LevelDb D) (w : Works db) where
  get_objects-select :
      (p : Bytes) (f : Key → Option Bytes) (d : D) (es : Entries)
      → w.entries d ≡ encode_all es
      → Increasing (w.entries d)
      → All (λ e. Fit p e.0 (f e.0)) es
      → get_objects db p d ≡ select f es
  unfolding get_objects
  get_objects-select p f d es e s h =
      ap (λ t. yielded (run_of p t)) (w.seeks p d)
      ∙ ap yielded (run_of-with_prefix p (w.entries d) s)
      ∙ ap (λ t. yielded (with_prefix p t)) e
      ∙ yielded-select p f es h

-- The iterators of the cache, on a database that holds entries under the cache's keys, yield those of
-- their kind, all of them, each once and in order: `GetDelta` the deltas of a type and a blob,
-- `GetDeltasByType`, `GetDeletedsByType` those of a type, `GetDeltas`, `GetDeleteds` and `GetPackfiles`
-- all. Each comes under the last MAC in its key: a delta under the MAC of its packfile, not of its blob, a
-- deletion mark under that of what is marked, a packfile under its own. No key makes them panic.
pub iterators-select :
    {D : Type 0} (db : LevelDb D) (w : Works db) (d : D) (es : Entries) (t : ℕ) (m : Bytes)
    → Holds db w d es
    → IsMac m
    → (get_delta db t m d ≡ select (delta_of t m) es)
      × (get_deltas_by_type db t d ≡ select (delta_typed t) es)
      × (get_deltas db d ≡ select any_delta es)
      × (get_deleteds_by_type db t d ≡ select (deleted_typed t) es)
      × (get_deleteds db d ≡ select any_deleted es)
      × (get_packfiles db d ≡ select any_packfile es)
unfolding get_delta get_deltas_by_type get_deltas get_deleteds_by_type get_deleteds get_packfiles
iterators-select db w d es t m h i =
    let by = λ (p : Bytes) (f : Key → Option Bytes) (fit : (k : Key) → IsKey k → Fit p k (f k)).
      get_objects-select db w p f d es h.entries_are h.increasing
        (All-map (λ e. IsKey e.0) (λ e. Fit p e.0 (f e.0)) es (λ e. fit e.0) h.keys_are) in
    (
      by _ (delta_of t m) (λ k. delta_of-Fit t m k i),
      by _ (delta_typed t) (delta_typed-Fit t),
      by _ any_delta any_delta-Fit,
      by _ (deleted_typed t) (deleted_typed-Fit t),
      by _ any_deleted any_deleted-Fit,
      by _ any_packfile any_packfile-Fit,
    )
