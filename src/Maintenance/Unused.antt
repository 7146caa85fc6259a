-- ===== src/Maintenance/Unused.antt =====
-- cmd/plakar/subcommands/maintenance/maintenance.go: `updateCache` and then `colourPass`.
use plakar.Prelude.{
  ℕ, ◌≡◌, refl, ap, inl, inr, Bool, true, false, List, [], ◌∷◌, arith, Bool-cases, All, All-map,
  Result, ok, err, panic, stuck,
}
use plakar.Wire.{Bytes, beq_bytes, beq_bytes_eq}
use plakar.Caching.Database.{LevelDb, Works}
use plakar.Caching.StateCache.{StateCache}
use plakar.Caching.Repository.Entries.{IsMac}
use plakar.Caching.Maintenance
use plakar.Caching.Maintenance.Names.{packfile_key}
use plakar.Caching.Maintenance.Users.{has_packfile-uses}
use plakar.Caching.Maintenance.Deletes.{held}
use plakar.State.Local.{LocalState}
use plakar.Maintenance.{among, Repository, update_cache, colour_pass}
use plakar.Maintenance.Records.{Each}
use plakar.Maintenance.Update.{Named, Complete, update_cache-Complete, update_cache-knows}
use plakar.Maintenance.Colour.{Unused, delete_all, colour_pass-Marks}

-- The packfiles that were listed without an error.
abbrev pub listed : List (Result Bytes) → List Bytes
listed [] = []
listed (ok p ∷ ps) = p ∷ listed ps
listed (err e ∷ ps) = listed ps
listed (panic ∷ ps) = listed ps
listed (stuck ∷ ps) = listed ps

listed-All : (P : Bytes → Type 0) (ps : List (Result Bytes)) → All (Each P) ps → All P (listed ps)
listed-All P [] a = tt
listed-All P (ok p ∷ ps) (h, a) = (h, listed-All P ps a)
listed-All P (err e ∷ ps) (h, a) = listed-All P ps a
listed-All P (panic ∷ ps) (h, a) = listed-All P ps a
listed-All P (stuck ∷ ps) (h, a) = listed-All P ps a

All-both : (P Q : Bytes → Type 0) (ps : List Bytes) → All P ps → All Q ps → All (λ p. P p × Q p) ps
All-both P Q [] a b = tt
All-both P Q (p ∷ ps) (h, a) (k, b) = ((h, k), All-both P Q ps a b)

-- What the test tells apart from each element is none of them.
not-among :
    (f : Bytes → Bool) (p : Bytes) (ps : List Bytes)
    → f p ≡ false
    → All (λ q. f q ≡ true) ps
    → among p ps ≡ false
not-among f p [] h a = refl
not-among f p (q ∷ ps) h (k, a) = elim (Bool-cases (beq_bytes p q)) [
  | inl same ↦ absurd (ground (arith, h, k, ap f (beq_bytes_eq p q same)))
  | inr other ↦ rw other (not-among f p ps h a)
]

module _ {D : Type 0} (db : LevelDb D) (w : Works db) (repo : Repository) where
  -- After `updateCache` the cache says of each packfile of a snapshot that it is in use, if the snapshot is
  -- listed, and not as a deleted one.
  update_cache-has_packfile :
      (n : Named db w repo) (s : Bytes) (ps : List (Result Bytes)) (d : D)
      → Complete db w repo d
      → (update_cache db repo d).1 ≡ ok tt
      → IsMac s
      → among s repo.list_snapshots ≡ true
      → among s repo.list_deleted_snapshots ≡ false
      → repo.list_snapshot_packfiles s ≡ ok ps
      → All (λ p. Maintenance.has_packfile db p (update_cache db repo d).0 ≡ true) (listed ps)
  update_cache-has_packfile n s ps d c ended hs old new e =
      let d' = (update_cache db repo d).0 in
      let c' = update_cache-Complete db w repo n d c in
      let known = update_cache-knows db w repo n s d c ended hs old new in
      All-map (λ p. IsMac p × (held db w (packfile_key p s) d' ≡ true))
        (λ p. Maintenance.has_packfile db p d' ≡ true) (listed ps)
        (λ p h. (has_packfile-uses db w p d' h.0 c'.tidy).1 (s, hs, h.1))
        (All-both IsMac (λ p. held db w (packfile_key p s) d' ≡ true) (listed ps)
          (listed-All IsMac ps (n.packfiles_named s ps e))
          (listed-All (λ p. held db w (packfile_key p s) d' ≡ true) ps
            (c'.recorded s ps hs known e)))

  -- `updateCache` followed by `colourPass` marks no packfile of a snapshot that the repository lists, and not
  -- as a deleted one, where the cache was complete and `updateCache` ended without an error: it changes the
  -- state only by calls of `DeleteResource`, for packfiles that are none of that snapshot's, whatever fails
  -- in `colourPass`.
  pub colour_pass-unused :
      {C : Type 0} (i : StateCache C) (now cutoff : ℕ) (order : List Bytes → List Bytes)
      (put_state : Bytes → Result (Unit {0})) (ls : LocalState C) (n : Named db w repo) (s : Bytes)
      (ps : List (Result Bytes)) (d : D)
      → Complete db w repo d
      → (update_cache db repo d).1 ≡ ok tt
      → IsMac s
      → among s repo.list_snapshots ≡ true
      → among s repo.list_deleted_snapshots ≡ false
      → repo.list_snapshot_packfiles s ≡ ok ps
      → (marked : List Bytes) × All (λ p. among p (listed ps) ≡ false) marked
        × ((colour_pass db repo i now cutoff order put_state (update_cache db repo d).0 ls).0
            ≡ (delete_all i now marked ls).0)
  colour_pass-unused i now cutoff order put_state ls n s ps d c ended hs old new e =
      let d' = (update_cache db repo d).0 in
      let used = update_cache-has_packfile n s ps d c ended hs old new e in
      let (marked, unused, same) = colour_pass-Marks db repo i now d' cutoff order put_state ls in
      (
        marked,
        All-map (Unused db repo i now d') (λ p. among p (listed ps) ≡ false) marked
            (λ p u. not-among (λ q. Maintenance.has_packfile db q d') p (listed ps) u.no_user used)
            unused,
        same,
      )
