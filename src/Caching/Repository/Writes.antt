-- ===== src/Caching/Repository/Writes.antt =====
-- caching/repository.go: the writes of the cache keep its entries under its keys.
use plakar.Prelude.{
  ℕ, ◌≡◌, refl, ap, ◌∙◌, inl, inr, Option, none, [], ◌∷◌, if◌then◌else◌, Bool-cases, All, Error,
}
use plakar.Text.{codes, hex, lt_bytes}
use plakar.Wire.{Bytes, beq_bytes}
use plakar.Caching.Database.{LevelDb, Works, insert}
use plakar.Caching.Database.Order.{insert-Increasing}
use plakar.Caching.Keys.{prefixed, typed, located, put}
use plakar.Caching.Repository.{put_state, put_delta, put_deleted, put_packfile, put_configuration}
use plakar.Caching.Repository.Entries.{
  Key, state_key, delta_key, deleted_key, packfile_key, configuration_key, encode, IsMac, IsKey,
  Entries, encode_all, Holds,
}

-- The entries with one more, or with another value under its key, in the order of the keys.
unfoldable pub insert_entry : Key → Bytes → Entries → Entries
insert_entry k v [] = (k, v) ∷ []
insert_entry k v ((k', v') ∷ es) =
    if beq_bytes (encode k) (encode k')
    then (k, v) ∷ es
    else if lt_bytes (encode k) (encode k')
    then (k, v) ∷ (k', v') ∷ es
    else (k', v') ∷ insert_entry k v es

insert-encode_all :
    (k : Key) (v : Bytes) (es : Entries)
    → insert (encode k) v (encode_all es) ≡ encode_all (insert_entry k v es)
unfolding insert insert_entry
insert-encode_all k v [] = refl
insert-encode_all k v ((k', v') ∷ es) = elim (Bool-cases (beq_bytes (encode k) (encode k'))) [
  | inl same ↦ rw same
  | inr other ↦ elim (Bool-cases (lt_bytes (encode k) (encode k'))) [
    | inl lt ↦ rw (other, lt)
    | inr ge ↦ rw (other, ge) (ap (λ t. (encode k', v') ∷ t) (insert-encode_all k v es))
  ]
]

keys-insert_entry :
    (k : Key) (v : Bytes) (es : Entries)
    → IsKey k
    → All (λ e. IsKey e.0) es
    → All (λ e. IsKey e.0) (insert_entry k v es)
unfolding insert_entry
keys-insert_entry k v [] h a = (h, tt)
keys-insert_entry k v ((k', v') ∷ es) h (h', a) =
    elim (Bool-cases (beq_bytes (encode k) (encode k'))) [
      | inl same ↦ rw same (h, a)
      | inr other ↦ elim (Bool-cases (lt_bytes (encode k) (encode k'))) [
        | inl lt ↦ rw (other, lt) (h, (h', a))
        | inr ge ↦ rw (other, ge) (h', keys-insert_entry k v es h a)
      ]
    ]

module _ {D : Type 0} (db : LevelDb D) (w : Works db) (d : D) (es : Entries) (v : Bytes)
    (h : Holds db w d es) where
  -- The database after a write of `v` under the key works, and holds the entry too.
  abbrev pub Writes : (D → D × Option Error) → Key → Type 0
  Writes write k = ((write d).1 ≡ none) × Holds db w (write d).0 (insert_entry k v es)

  put-Writes :
      (prefix key : Bytes) (k : Key)
      → IsKey k
      → prefixed prefix key ≡ encode k
      → Writes (put db prefix key v) k
  unfolding put
  put-Writes prefix key k i e = (
    w.put_works (prefixed prefix key) v d,
    record {
      entries_are =
          w.put_entries (prefixed prefix key) v d
          ∙ ap (λ q. insert q v (w.entries d)) e
          ∙ ap (insert (encode k) v) h.entries_are
          ∙ insert-encode_all k v es;
      increasing =
          rw (w.put_entries (prefixed prefix key) v d)
            (insert-Increasing (prefixed prefix key) v (w.entries d) h.increasing);
      keys_are = keys-insert_entry k v es i h.keys_are;
    },
  )

  -- Each write of the cache works, and leaves a database that holds the new entry under its key in the
  -- place of an earlier one of that key, and the others as they were.
  pub puts-Writes :
      (id m p key : Bytes) (t : ℕ)
      → IsMac id
      → IsMac m
      → IsMac p
      → Writes (put_state db id v) (state_key id)
        × Writes (put_delta db t m p v) (delta_key t m p)
        × Writes (put_deleted db t m v) (deleted_key t m)
        × Writes (put_packfile db p v) (packfile_key p)
        × Writes (put_configuration db key v) (configuration_key key)
  unfolding put_state put_delta put_deleted put_packfile put_configuration
  puts-Writes id m p key t hid hm hp = (
    put-Writes (codes "__state__") (hex id) (state_key id) hid refl,
    put-Writes (codes "__delta__") (located t m p) (delta_key t m p) (hm, hp) refl,
    put-Writes (codes "__deleted__") (typed t m) (deleted_key t m) hm refl,
    put-Writes (codes "__packfile__") (hex p) (packfile_key p) hp refl,
    put-Writes (codes "__configuration__") key (configuration_key key) tt refl,
  )
