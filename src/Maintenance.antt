-- ===== src/Maintenance.antt =====
-- cmd/plakar/subcommands/maintenance/maintenance.go: the cache of the packfiles that snapshots use, and the
-- pass that marks the unused packfiles as deleted.
pub mod Records
pub mod Update
pub mod Unused
pub mod Sweep
pub mod Colour
use plakar.Prelude.{
  ℕ, zero, suc, ◌+◌, ◌-◌, ◌*◌, ◌/◌, ◌%◌, ◌^◌, ◌≤◌, ◌<◌, ◌≡◌, refl, sym, ap, ◌∙◌, ◌≢◌, ◌⊎◌, inl, inr,
  Bool, true, false, not, ◌&&◌, ◌||◌, Option, none, some, List, [], ◌∷◌, ◌++◌, map, arith,
  append_assoc, append-nil, length, take, drop, get_elem?, ltb, leb, ◌==◌, if◌then◌else◌,
  Bool-cases, All, All-append, All-map, Result, ok, err, panic, stuck, guard, ensure, Error,
  length-append,
}
use plakar.Wire.{Bytes, beq_bytes}
use plakar.Resources.{rt_packfile}
use plakar.Caching.Database.{LevelDb}
use plakar.Caching.StateCache.{StateCache}
use plakar.Caching.Maintenance
use plakar.Caching.Maintenance.{or_raise, wrote}
use plakar.State.Exec.{Exec, pure, raise, lift, gets, ◌>>=◌, ◌>>◌}
use plakar.State.Local.{LocalState}
use plakar.State.Updates.{delete_resource}
use plakar.State.Stream.{serialize_to_stream}

-- What the command asks of the repository and its snapshots (repository/repository.go,
-- snapshot/snapshot.go): the snapshots and those that are deleted, whether a snapshot loads and what
-- `ListPackfiles` yields for it, the packfiles of the state and those in the storage, the times of
-- these, and the marks of deletion.
pub record Repository : Type 0 where
  pub list_snapshots : List Bytes
  pub list_deleted_snapshots : List Bytes
  pub load : Bytes → Result (Unit {0})
  pub list_snapshot_packfiles : Bytes → Result (List (Result Bytes))
  pub list_packfiles : List Bytes
  pub stored_packfiles : Result (List Bytes)
  pub has_deleted_packfile : Bytes → Result Bool
  pub packfile_before : ℕ → Bytes → Result Bool

-- A call whose error is dropped.
abbrev pub no_error : Result (Unit {0}) → Result (Unit {0})
no_error (ok u) = ok u
no_error (err e) = ok tt
no_error panic = panic
no_error stuck = stuck

abbrev pub ignored : {D : Type 0} → Exec D (Unit {0}) → Exec D (Unit {0})
ignored m d = ((m d).0, no_error (m d).1)

module _ {D : Type 0} (db : LevelDb D) where
  -- The loop over the packfiles of a snapshot.
  unfoldable pub put_packfiles : Bytes → List (Result Bytes) → Exec D (Unit {0})
  put_packfiles snapshot [] = pure tt
  put_packfiles snapshot (r ∷ more) = do
    packfile ← lift r
    wrote (Maintenance.put_packfile db snapshot packfile)
    put_packfiles snapshot more

module _ {D : Type 0} (db : LevelDb D) (repo : Repository) where
  -- The loop over the snapshots; a snapshot that the cache has is loaded all the same.
  unfoldable pub add_snapshots : List Bytes → Exec D (Unit {0})
  add_snapshots [] = pure tt
  add_snapshots (snapshot ∷ more) = do
    lift (repo.load snapshot)
    known ← λ d. (d, Maintenance.has_snapshot db snapshot d)
    (if known then pure tt else (do
      packfiles ← lift (repo.list_snapshot_packfiles snapshot)
      put_packfiles db snapshot packfiles
      ignored (wrote (Maintenance.put_snapshot db snapshot []))))
    add_snapshots more

  -- The loop over the deleted snapshots.
  unfoldable pub forget_snapshots : List Bytes → Exec D (Unit {0})
  forget_snapshots [] = pure tt
  forget_snapshots (snapshot ∷ more) = do
    known ← λ d. (d, Maintenance.has_snapshot db snapshot d)
    (if known
        then (do
          ignored (Maintenance.delete_packfiles db snapshot)
          ignored (wrote (Maintenance.delete_snapshot db snapshot)))
        else pure tt)
    forget_snapshots more

  unfoldable pub update_cache : Exec D (Unit {0})
  update_cache = do add_snapshots repo.list_snapshots; forget_snapshots repo.list_deleted_snapshots

-- A set of packfiles, each once.
abbrev pub among : Bytes → List Bytes → Bool
among p [] = false
among p (q ∷ ps) = beq_bytes p q || among p ps

abbrev pub added : Bytes → List Bytes → List Bytes
added p ps = if among p ps then ps else p ∷ ps

abbrev pub set_of : List Bytes → List Bytes
set_of [] = []
set_of (p ∷ ps) = added p (set_of ps)

-- The packfiles of the storage that the state does not have and that are not marked are added to those
-- of the state, if they are from before the cutoff.
unfoldable pub with_orphans :
    {S : Type 0} → Repository → ℕ → List Bytes → List Bytes → Exec S (List Bytes)
with_orphans repo cutoff [] set = pure set
with_orphans repo cutoff (p ∷ more) set =
    if among p set then with_orphans repo cutoff more set else (do
      deleted ← lift (repo.has_deleted_packfile p)
      if deleted then with_orphans repo cutoff more set else (do
        orphan ← lift (repo.packfile_before cutoff p)
        if orphan
            then with_orphans repo cutoff more (p ∷ set)
            else with_orphans repo cutoff more set))

module _ {D C : Type 0} (db : LevelDb D) (repo : Repository) (i : StateCache C) (now : ℕ) where
  -- The loop that marks packfiles, with the number of those that it marked. `d` is the cache's database.
  unfoldable pub colour : D → List Bytes → Exec (LocalState C) ℕ
  colour d [] = pure 0
  colour d (p ∷ more) = if Maintenance.has_packfile db p d then colour d more else (do
    deleted ← lift (repo.has_deleted_packfile p)
    if deleted
        then colour d more
        else (do delete_resource i now rt_packfile p; n ← colour d more; pure (n + 1)))

  -- The opening of the scan cache, and its error, are not modelled.
  -- `order` is the order in which the map of the packfiles is gone through, `put_state` the repository's,
  -- for the ID of this maintenance.
  unfoldable pub colour_pass :
      ℕ
      → (List Bytes → List Bytes)
      → (Bytes → Result (Unit {0}))
      → D
      → Exec (LocalState C) (Unit {0})
  colour_pass cutoff order put_state d = do
    stored ← lift repo.stored_packfiles
    packfiles ← with_orphans repo cutoff stored (set_of repo.list_packfiles)
    n ← colour d (order packfiles)
    if ltb 0 n then (λ ls. (ls, put_state (serialize_to_stream i ls))) else pure tt
