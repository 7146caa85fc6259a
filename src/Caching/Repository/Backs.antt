-- ===== src/Caching/Repository/Backs.antt =====
-- repository/state/state.go over caching/repository.go: a state backed by the cache of a repository.
use plakar.Prelude.{
  ℕ, ◌≡◌, refl, sym, ap, ◌∙◌, ◌≢◌, inl, inr, Bool, true, false, Option, none, some, List, [], ◌∷◌,
  Bool-cases, Result, ok,
}
use plakar.Text.{codes, hex}
use plakar.Wire.{Bytes, beq_bytes, beq_bytes_refl}
use plakar.Resources.{rt_packfile}
use plakar.Caching.Database.{LevelDb, Works, has_key, has_key-insert}
use plakar.Caching.Keys.{prefixed, typed, located, put, has}
use plakar.Caching.Repository.{
  repository_cache, put_delta, put_deleted, has_deleted, has_packfile, get_delta,
}
use plakar.Text.{lt_bytes}
use plakar.Prelude.{==_iff}
use plakar.Caching.Repository.Entries.{
  encode, Key, delta_key, IsMac, Entries, Holds, select, pick, delta_of,
}
use plakar.Caching.Repository.Selects.{iterators-select}
use plakar.Caching.Repository.Writes.{insert_entry, puts-Writes}
use plakar.State.{DeltaEntry, Location, delta_entry_to_bytes}
use plakar.State.Entries.{IsDeltaEntry, encoded}
use plakar.State.Local
use plakar.State.Local.{outcome, LocalState, get_subpart_for_blob}
use plakar.State.Local.Blobs.{first_live, Answers, get_subpart_for_blob-first_live}
use plakar.State.Updates.{delete_resource}
use plakar.State.Updates.Configuration.{get_subpart_for_blob-delete_resource}

pick-nil :
    (o : Option Bytes) (v : Bytes) (t : List (Bytes × Bytes))
    → pick o v t ≡ []
    → (o ≡ none) × (t ≡ [])
pick-nil none v t h = (refl, h)
pick-nil (some m) v t h = cc

-- Where the test picks nothing, it picks the entry that is added, or nothing.
select-insert_entry :
    (f : Key → Option Bytes) (k : Key) (v : Bytes) (es : Entries)
    → select f es ≡ []
    → select f (insert_entry k v es) ≡ pick (f k) v []
unfolding select insert_entry
select-insert_entry f k v [] h = refl
select-insert_entry f k v ((k', v') ∷ es) h =
    let (skip, rest) = pick-nil (f k') v' (select f es) h in
    elim (Bool-cases (beq_bytes (encode k) (encode k'))) [
      | inl same ↦ rw same (ap (pick (f k) v) rest)
      | inr other ↦ elim (Bool-cases (lt_bytes (encode k) (encode k'))) [
        | inl lt ↦ rw (other, lt) (ap (pick (f k) v) h)
        | inr ge ↦ rw (other, ge, skip) (select-insert_entry f k v es rest)
      ]
    ]

ok_injective : {a b : Bool} → ◌≡◌ {A = Result Bool} (ok a) (ok b) → a ≡ b
ok_injective h = cc

live_alone :
    (de : DeltaEntry) (present deleted : Bytes → Bool)
    → present de.location.packfile ≡ true
    → deleted de.location.packfile ≡ false
    → ◌≡◌ {A = Result (Option Location)}
        (ok (first_live present deleted ((de.location.packfile, de) ∷ [])))
        (ok (some de.location))
unfolding first_live
live_alone de present deleted h k = rw (h, k)

module _ {D : Type 0} (db : LevelDb D) (w : Works db) where
  abbrev stored : D → Bytes → Bool
  stored d p = has_key (prefixed (codes "__packfile__") (hex p)) (w.entries d)

  abbrev marked : D → Bytes → Bool
  marked d p = has_key (prefixed (codes "__deleted__") (typed rt_packfile p)) (w.entries d)

  answers : (d : D) → Answers (repository_cache db) d (stored d) (marked d)
  unfolding repository_cache has_packfile has_deleted has
  answers d = record {
    has_packfile = λ m. w.has_finds (prefixed (codes "__packfile__") (hex m)) d;
    has_deleted = λ m. w.has_finds (prefixed (codes "__deleted__") (typed rt_packfile m)) d;
  }

  stored-put_delta :
      (t : ℕ) (m p v q : Bytes) (d : D) → stored (put_delta db t m p v d).0 q ≡ stored d q
  unfolding put_delta put beq_bytes
  stored-put_delta t m p v q d =
      rw (w.put_entries (prefixed (codes "__delta__") (located t m p)) v d) (
        has_key-insert (prefixed (codes "__packfile__") (hex q))
          (prefixed (codes "__delta__") (located t m p)) v (w.entries d))

  marked-put_delta :
      (t : ℕ) (m p v q : Bytes) (d : D) → marked (put_delta db t m p v d).0 q ≡ marked d q
  unfolding put_delta put beq_bytes
  marked-put_delta t m p v q d =
      rw (w.put_entries (prefixed (codes "__delta__") (located t m p)) v d) (
        has_key-insert (prefixed (codes "__deleted__") (typed rt_packfile q))
          (prefixed (codes "__delta__") (located t m p)) v (w.entries d))

  marks :
      (t : ℕ) (m v : Bytes) (d : D)
      → (repository_cache db).has_deleted t m ((repository_cache db).put_deleted t m v d).0
        ≡ ok true
  unfolding repository_cache has_deleted put_deleted has put
  marks t m v d =
      let k : Bytes = prefixed (codes "__deleted__") (typed t m) in
      w.has_finds k (db.put k v d).0
      ∙ ap (λ u. ok (has_key k u)) (w.put_entries k v d)
      ∙ ap ok (has_key-insert k k v (w.entries d))
      ∙ rw (beq_bytes_refl k)

  -- Once `DeleteResource` has marked a packfile in a state backed by the cache of a repository,
  -- `GetSubpartForBlob` gives no location in it, of any blob.
  pub get_subpart_for_blob-repository_cache :
      (now : ℕ) (packfile : Bytes) (ls : LocalState D) (type : ℕ) (mac : Bytes) (loc : Location)
      → get_subpart_for_blob
          (repository_cache db)
          type
          mac
          (delete_resource (repository_cache db) now rt_packfile packfile ls).0
        ≡ ok (some loc)
      → loc.packfile ≢ packfile
  get_subpart_for_blob-repository_cache now packfile ls type mac loc =
      get_subpart_for_blob-delete_resource (repository_cache db) marks now packfile ls type mac loc

  stored-has_packfile : (d : D) (p : Bytes) → has_packfile db p d ≡ ok true → stored d p ≡ true
  unfolding has_packfile has repository_cache
  stored-has_packfile d p h = ok_injective (sym ((answers d).has_packfile p) ∙ h)

  marked-has_deleted :
      (d : D) (p : Bytes) → has_deleted db rt_packfile p d ≡ ok false → marked d p ≡ false
  unfolding has_deleted has repository_cache
  marked-has_deleted d p h = ok_injective (sym ((answers d).has_deleted p) ∙ h)

  -- What the cache yields for the blob of a delta that has just been put.
  get_delta-put_delta :
      (d : D) (es : Entries) (t : ℕ) (m p v : Bytes)
      → Holds db w d es
      → IsMac m
      → IsMac p
      → get_delta db t m d ≡ []
      → get_delta db t m (put_delta db t m p v d).0 ≡ (p, v) ∷ []
  get_delta-put_delta d es t m p v h hm hp fresh =
      let wrote = (puts-Writes db w d es v h m m p [] t hm hm hp).1 in
      (iterators-select db w (put_delta db t m p v d).0 (insert_entry (delta_key t m p) v es) t m
        wrote.1 hm).0
      ∙ select-insert_entry (delta_of t m) (delta_key t m p) v es
          (sym (iterators-select db w d es t m h hm).0 ∙ fresh)
      ∙ rw ((==_iff t t).1 refl, beq_bytes_refl m)

  -- A delta that is put into a state backed by the cache of a repository is found: `PutDelta` works, and
  -- then `GetSubpartForBlob` gives its location, where the cache holds entries under its keys, had no
  -- delta of the blob before, has the delta's packfile, and has it not marked as deleted.
  pub get_subpart_for_blob-put_delta :
      (ls : LocalState D) (es : Entries) (de : DeltaEntry)
      → Holds db w ls.cache es
      → IsDeltaEntry de
      → IsMac de.blob
      → IsMac de.location.packfile
      → get_delta db de.type de.blob ls.cache ≡ []
      → has_packfile db de.location.packfile ls.cache ≡ ok true
      → has_deleted db rt_packfile de.location.packfile ls.cache ≡ ok false
      → ((Local.put_delta (repository_cache db) de ls).1 ≡ ok tt)
        × (get_subpart_for_blob
              (repository_cache db)
              de.type
              de.blob
              (Local.put_delta (repository_cache db) de ls).0
            ≡ ok (some de.location))
  unfolding Local.put_delta repository_cache encoded
  get_subpart_for_blob-put_delta ls es de h r hb hp fresh there kept =
      let p : Bytes = de.location.packfile in
      let buf : Bytes = delta_entry_to_bytes de in
      let d : D = (put_delta db de.type de.blob p buf ls.cache).0 in
      let wrote = (puts-Writes db w ls.cache es buf h de.blob de.blob p [] de.type hb hb hp).1 in
      (
        ap outcome wrote.0,
        (get_subpart_for_blob-first_live (repository_cache db) (record ls { cache = d }) de.type
              de.blob ((p, de) ∷ []) (stored d) (marked d) (answers d)
              (get_delta-put_delta ls.cache es de.type de.blob p buf h hb hp fresh) (r, tt)).0
            ∙ live_alone de (stored d) (marked d)
                (stored-put_delta de.type de.blob p buf p ls.cache
                  ∙ stored-has_packfile ls.cache p there)
                (marked-put_delta de.type de.blob p buf p ls.cache
                  ∙ marked-has_deleted ls.cache p kept),
      )
