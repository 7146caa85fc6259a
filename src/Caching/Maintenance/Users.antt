-- ===== src/Caching/Maintenance/Users.antt =====
-- caching/maintenance.go: `HasPackfile`.
use plakar.Prelude.{
  suc, ◌*◌, ◌≡◌, refl, sym, ap, ◌∙◌, inl, inr, true, false, [], ◌∷◌, ◌++◌, arith, length,
  if◌then◌else◌, Bool-cases, All,
}
use plakar.Prelude.{◌↔◌}
use plakar.Text.{codes, colon, hex, has_prefix}
use plakar.Text.Hex.{beq_bytes-hex}
use plakar.Wire.{Bytes, beq_bytes, beq_bytes_eq, beq_bytes_refl}
use plakar.Caching.Database.{Table, LevelDb, Works, with_prefix, has_key}
use plakar.Caching.Repository.Entries.{IsMac}
use plakar.Caching.Maintenance.{has_packfile, non_empty}
use plakar.Caching.Maintenance.Names.{
  snapshot_key, packfile_key, Name, of_snapshot, of_packfile, Tidy,
}

length-hex : (m : Bytes) → length (hex m) ≡ 2 * length m
unfolding hex
length-hex [] = refl
length-hex (b ∷ m) = ap (λ n. suc (suc n)) (length-hex m) ∙ omega arith

-- Of two strings of one length the one begins with the other where they are equal.
has_prefix-same : (a b r : Bytes) → length a ≡ length b → has_prefix (a ++ r) b ≡ beq_bytes a b
unfolding has_prefix beq_bytes
has_prefix-same [] [] [] h = refl
has_prefix-same [] [] (x ∷ r) h = refl
has_prefix-same [] (y ∷ b) r h = absurd (omega arith)
has_prefix-same (x ∷ a) [] r h = absurd (omega arith)
has_prefix-same (x ∷ a) (y ∷ b) r h = ground (arith, has_prefix-same a b r (omega arith))

abbrev front : Bytes → Bytes
front p = codes "__packfile__:" ++ hex p

front-packfile_key :
    (p q s : Bytes) → IsMac p → IsMac q → has_prefix (packfile_key q s) (front p) ≡ beq_bytes q p
unfolding has_prefix
front-packfile_key p q s hp hq =
    has_prefix-same (hex q) (hex p) (colon ∷ hex s)
      (length-hex q ∙ ap (λ n. 2 * n) (hq.size ∙ sym hp.size) ∙ sym (length-hex p))
    ∙ beq_bytes-hex q p hq.bytes hp.bytes

front-snapshot_key : (p s : Bytes) → has_prefix (snapshot_key s) (front p) ≡ false
unfolding has_prefix
front-snapshot_key p s = refl

found :
    (k p : Bytes) (t : Table)
    → has_key k t ≡ true
    → has_prefix k p ≡ true
    → non_empty (with_prefix p t) ≡ true
unfolding has_key with_prefix
found k p [] h m = cc
found k p ((k', v) ∷ t) h m = ground (arith, beq_bytes_eq k k', found k p t)

names_user :
    (p k : Bytes)
    → IsMac p
    → Name k
    → has_prefix k (front p) ≡ true
    → (s : Bytes) × IsMac s × (k ≡ packfile_key p s)
names_user p k hp (of_snapshot s h e) m =
    absurd (ground (arith, ap (λ j. has_prefix j (front p)) e ∙ front-snapshot_key p s))
names_user p k hp (of_packfile q s hq h e) m =
    let same =
      sym (front-packfile_key p q s hp hq) ∙ sym (ap (λ j. has_prefix j (front p)) e) ∙ m in
    (s, h, e ∙ ap (λ r. packfile_key r s) (beq_bytes_eq q p same))

user :
    (p : Bytes) (t : Table)
    → IsMac p
    → All (λ e. Name e.0) t
    → non_empty (with_prefix (front p) t) ≡ true
    → (s : Bytes) × IsMac s × (has_key (packfile_key p s) t ≡ true)
unfolding has_key with_prefix
user p [] hp a h = cc
user p ((k, v) ∷ t) hp (n, a) h = elim (Bool-cases (has_prefix k (front p))) [
  | inl match ↦
      let (s, i, e) = names_user p k hp n match in (s, i, rw (e, beq_bytes_refl (packfile_key p s)))
  | inr other ↦
      let rest = with_prefix (front p) t in
      let (s, i, e) =
        user p t hp a (sym (ap (λ b. non_empty (if b then (k, v) ∷ rest else rest)) other) ∙ h) in
      (s, i, ground (arith, e))
]

module _ {D : Type 0} (db : LevelDb D) (w : Works db) where
  -- `HasPackfile` says whether some snapshot has an entry for the packfile, on a database that holds only
  -- keys of the cache.
  pub has_packfile-uses :
      (p : Bytes) (d : D)
      → IsMac p
      → Tidy (w.entries d)
      → (has_packfile db p d ≡ true)
        ↔ ((s : Bytes) × IsMac s × (has_key (packfile_key p s) (w.entries d) ≡ true))
  unfolding has_packfile
  has_packfile-uses p d hp h = (
    (λ e. user p (w.entries d) hp h.names (sym (ap non_empty (w.within_is (front p) d)) ∙ e)),
    (λ e.
        ap non_empty (w.within_is (front p) d)
        ∙ found (packfile_key p e.0) (front p) (w.entries d) e.2
            (front-packfile_key p p e.0 hp hp ∙ beq_bytes_refl p)),
  )
