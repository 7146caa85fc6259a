-- ===== src/Caching/Maintenance/Deletes.antt =====
-- caching/maintenance.go: `DeleletePackfiles`.
use plakar.Prelude.{
  ◌≡◌, refl, sym, ap, ◌∙◌, inl, inr, Bool, true, false, not, ◌&&◌, [], ◌∷◌, ◌++◌, arith,
  append_assoc, if◌then◌else◌, Bool-cases, All, Result, ok,
}
use plakar.Text.{hex, after_last, lt_bytes}
use plakar.Text.Hex.{decode_hex-hex, beq_bytes-hex}
use plakar.Wire.{Bytes, beq_bytes, beq_bytes_refl, beq_bytes_eq, to_mac_exact}
use plakar.Caching.Database.{Table, LevelDb, Works, remove, has_key, Increasing}
use plakar.Caching.Repository.Entries.{IsMac}
use plakar.Caching.Maintenance.{delete_used_by, delete_packfiles}
use plakar.Caching.Maintenance.Names.{
  after_last-snapshot_key, after_last-packfile_key, snapshot_key, packfile_key, Name, Tidy,
  remove-Tidy, last_segment,
}

-- The entries of the other snapshots.
unfoldable pub without : Bytes → Table → Table
without s [] = []
without s ((k, v) ∷ t) =
    if beq_bytes (after_last k k) (hex s) then without s t else (k, v) ∷ without s t

above-ne : (j k : Bytes) → lt_bytes j k ≡ true → beq_bytes k j ≡ false
unfolding lt_bytes beq_bytes
above-ne j [] h = cc
above-ne [] (y ∷ k) h = refl
above-ne (x ∷ j) (y ∷ k) h = ground (arith, above-ne j k)

All-middle :
    (P : Bytes → Type 0) (done : Table) (k v : Bytes) (t : Table)
    → All (λ e. P e.0) (done ++ (k, v) ∷ t)
    → P k
All-middle P [] k v t (h, a) = h
All-middle P (e ∷ done) k v t (h, a) = All-middle P done k v t a

remove-middle :
    (done : Table) (k v : Bytes) (t : Table)
    → Increasing (done ++ (k, v) ∷ t)
    → remove k (done ++ (k, v) ∷ t) ≡ done ++ t
unfolding remove
remove-middle [] k v t s = rw (beq_bytes_refl k)
remove-middle ((k', v') ∷ done) k v t (a, s) =
    rw (above-ne k' k (All-middle (λ j. lt_bytes k' j ≡ true) done k v t a))
      (ap (λ r. (k', v') ∷ r) (remove-middle done k v t s))

module _ {D : Type 0} (db : LevelDb D) (w : Works db) (s : Bytes) (i : IsMac s) where
  abbrev Leaves : D × Result (Unit {0}) → Table → Type 0
  Leaves r t = (r.1 ≡ ok tt) × (w.entries r.0 ≡ t)

  delete_used_by-without :
      (t done : Table) (d : D)
      → w.entries d ≡ done ++ t
      → Tidy (done ++ t)
      → Leaves (delete_used_by db s t d) (done ++ without s t)
  unfolding delete_used_by without
  delete_used_by-without [] done d e h = (refl, e)
  delete_used_by-without ((k, v) ∷ t) done d e h =
      let (m, hm, last) = last_segment k (All-middle Name done k v t h.names) in
      rw
        (
          last,
          decode_hex-hex m hm.bytes,
          to_mac_exact m hm.size,
          beq_bytes-hex m s hm.bytes i.bytes,
        )
        (elim (Bool-cases (beq_bytes m s)) [
          | inl same ↦
              let middle = remove-middle done k v t h.increasing in
              rw (same, w.delete_works k d)
                (delete_used_by-without t done (db.delete k d).0
                  (w.delete_entries k d ∙ ap (remove k) e ∙ middle)
                  (rw (sym middle) (remove-Tidy k (done ++ (k, v) ∷ t) h)))
          | inr other ↦
              let shift = append_assoc done ((k, v) ∷ []) in
              let rest =
                delete_used_by-without t (done ++ (k, v) ∷ []) d (e ∙ sym (shift t))
                  (rw (shift t) h) in
              rw other (rest.0, rest.1 ∙ shift (without s t))
        ])

  delete_packfiles-without :
      (d : D) → Tidy (w.entries d) → Leaves (delete_packfiles db s d) (without s (w.entries d))
  unfolding delete_packfiles
  delete_packfiles-without d h =
      rw (w.whole_is d) (delete_used_by-without (w.entries d) [] d refl h)

All-without :
    (P : Bytes → Type 0) (s : Bytes) (t : Table)
    → All (λ e. P e.0) t
    → All (λ e. P e.0) (without s t)
unfolding without
All-without P s [] a = tt
All-without P s ((k, v) ∷ t) (h, a) = elim (Bool-cases (beq_bytes (after_last k k) (hex s))) [
  | inl same ↦ rw same (All-without P s t a)
  | inr other ↦ rw other (h, All-without P s t a)
]

without-Increasing : (s : Bytes) (t : Table) → Increasing t → Increasing (without s t)
unfolding without
without-Increasing s [] i = tt
without-Increasing s ((k, v) ∷ t) (a, i) = elim (Bool-cases (beq_bytes (after_last k k) (hex s))) [
  | inl same ↦ rw same (without-Increasing s t i)
  | inr other ↦ rw other (All-without (λ j. lt_bytes k j ≡ true) s t a, without-Increasing s t i)
]

without-Tidy : (s : Bytes) (t : Table) → Tidy t → Tidy (without s t)
without-Tidy s t h = record {
  increasing = without-Increasing s t h.increasing;
  names = All-without Name s t h.names;
}

has_key-without :
    (j s : Bytes) (t : Table)
    → has_key j (without s t) ≡ (has_key j t && not (beq_bytes (after_last j j) (hex s)))
unfolding has_key without
has_key-without j s [] = refl
has_key-without j s ((k, v) ∷ t) = ground (arith, has_key-without j s t, beq_bytes_eq j k)

module _ {D : Type 0} (db : LevelDb D) (w : Works db) where
  abbrev pub held : Bytes → D → Bool
  held k d = has_key k (w.entries d)

  has_key-forgotten :
      (s k m : Bytes) (d : D)
      → after_last k k ≡ hex m
      → IsMac s
      → IsMac m
      → Tidy (w.entries d)
      → held k (delete_packfiles db s d).0 ≡ (held k d && not (beq_bytes m s))
  has_key-forgotten s k m d last i hm h =
      ap (has_key k) (delete_packfiles-without db w s i d h).1
      ∙ has_key-without k s (w.entries d)
      ∙ ap (λ a. held k d && not (beq_bytes a (hex s))) last
      ∙ ap (λ b. held k d && not b) (beq_bytes-hex m s hm.bytes i.bytes)

  pub delete_packfiles-Tidy :
      (s : Bytes) (d : D)
      → IsMac s
      → Tidy (w.entries d)
      → Tidy (w.entries (delete_packfiles db s d).0)
  delete_packfiles-Tidy s d i h =
      rw (delete_packfiles-without db w s i d h).1 (without-Tidy s (w.entries d) h)

  -- `DeleletePackfiles` of a snapshot works, on a database that holds only keys of the cache, and takes
  -- away the entries of that snapshot, its own one and those of its packfiles, and no others.
  pub delete_packfiles-forgets :
      (s p m : Bytes) (d : D)
      → IsMac s
      → IsMac m
      → Tidy (w.entries d)
      → ((delete_packfiles db s d).1 ≡ ok tt)
        × (held (packfile_key p m) (delete_packfiles db s d).0
            ≡ (held (packfile_key p m) d && not (beq_bytes m s)))
        × (held (snapshot_key m) (delete_packfiles db s d).0
            ≡ (held (snapshot_key m) d && not (beq_bytes m s)))
  delete_packfiles-forgets s p m d i hm h = (
    (delete_packfiles-without db w s i d h).0,
    has_key-forgotten s (packfile_key p m) m d (after_last-packfile_key p m hm) i hm h,
    has_key-forgotten s (snapshot_key m) m d (after_last-snapshot_key m hm) i hm h,
  )
