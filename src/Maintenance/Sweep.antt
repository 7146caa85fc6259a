-- ===== src/Maintenance/Sweep.antt =====
-- cmd/plakar/subcommands/maintenance/maintenance.go: `sweepPass`, with the calls of
-- repository/repository.go that it makes.
pub mod Steps
pub mod Packfiles
use plakar.Prelude.{
  ℕ, ◌+◌, Bool, true, false, Option, none, some, List, [], ◌∷◌, map, if◌then◌else◌, Result, ok, err,
  panic, stuck, Error, ◌>>=◌ as result_bind,
}
use plakar.Wire.{Bytes}
use plakar.Resources.{rt_packfile}
use plakar.Caching.Database.{LevelDb}
use plakar.Caching.StateCache.{StateCache}
use plakar.Caching.Maintenance
use plakar.State.{DeltaEntry, DeletedEntry, before}
use plakar.State.Exec.{Exec, pure, lift, gets, modify, ◌>>=◌, ◌>>◌}
use plakar.State.Local.{LocalState, del_delta}
use plakar.State.Updates.{del_packfile, del_deleted_resource}
use plakar.State.Listing.{list_deleted_resources, list_orphan_deltas}
use plakar.State.Stream.{serialize_to_stream}
use plakar.Maintenance.{ignored, added}

-- A call whose error is looked at: whether there was none.
abbrev pub no_failure : Result (Unit {0}) → Result Bool
no_failure (ok u) = ok true
no_failure (err e) = ok false
no_failure panic = panic
no_failure stuck = stuck

abbrev pub tried : {S : Type 0} → Exec S (Unit {0}) → Exec S Bool
tried m s = ((m s).0, no_failure (m s).1)

abbrev pub is_empty : List Bytes → Bool
is_empty [] = true
is_empty (p ∷ ps) = false

module _ {C : Type 0} (i : StateCache C) where
  -- `ListDeletedPackfiles`: an entry that does not decode is yielded all the same.
  unfoldable pub list_deleted_packfiles : LocalState C → Result (List (Bytes × ℕ))
  list_deleted_packfiles ls =
      result_bind (list_deleted_resources i rt_packfile ls)
        λ deleteds. ok (map (λ y. (y.0.blob, y.0.when)) deleteds)

  -- `PutCurrentState` with a new serial, at the time `now`. `id` is what `ComputeMAC` makes of a serial. The
  -- state is serialized by another goroutine, here once the metadata is changed.
  unfoldable pub put_current_state :
      (Bytes → Bytes)
      → (Bytes → Bytes → Result (Unit {0}))
      → Bytes
      → ℕ
      → Exec (LocalState C) (Unit {0})
  put_current_state id put_state serial now = do
    modify (λ ls. record ls { metadata = record ls.metadata { serial = serial; timestamp = now } })
    λ ls. (ls, put_state (id serial) (serialize_to_stream i ls))

  -- The loop over the blobs in no packfile, with the number of those that it removed or failed to remove.
  unfoldable pub remove_blobs : List (DeltaEntry × Option Error) → Exec (LocalState C) ℕ
  remove_blobs [] = pure 0
  remove_blobs ((blob, some e) ∷ more) = remove_blobs more
  remove_blobs ((blob, none) ∷ more) = do
    ignored (del_delta i blob.type blob.blob blob.location.packfile)
    n ← remove_blobs more
    pure (n + 1)

  module _ {D : Type 0} (db : LevelDb D) (cutoff : ℕ) (d : D) where
    -- The body of the loop over the marked packfiles: those that are removed join the set.
    unfoldable pub sweep_packfile : Bytes → ℕ → List Bytes → Exec (LocalState C) (List Bytes)
    sweep_packfile packfile when set =
        if before cutoff when
        then pure set
        else if Maintenance.has_packfile db packfile d
        then (do ignored (del_deleted_resource i rt_packfile packfile); pure set)
        else (do
          removed ← tried (del_packfile i packfile)
          if removed
              then (do
                ignored (del_deleted_resource i rt_packfile packfile)
                pure (added packfile set))
              else pure set)

    unfoldable pub sweep_packfiles :
        List (Bytes × ℕ) → List Bytes → Exec (LocalState C) (List Bytes)
    sweep_packfiles [] set = pure set
    sweep_packfiles ((packfile, when) ∷ more) set = do
      set' ← sweep_packfile packfile when set
      sweep_packfiles more set'

    -- The packfiles themselves are not deleted, as `doDeletion` is false. The last four arguments are
    -- those of `PutCurrentState`.
    unfoldable pub sweep_pass :
        (Bytes → Bytes)
        → (Bytes → Bytes → Result (Unit {0}))
        → Bytes
        → ℕ
        → Exec (LocalState C) (Unit {0})
    sweep_pass id put_state serial now = do
      deleteds ← λ ls. (ls, list_deleted_packfiles ls)
      set ← sweep_packfiles deleteds []
      orphans ← λ ls. (ls, list_orphan_deltas i ls)
      n ← remove_blobs orphans
      if is_empty set then pure tt else put_current_state id put_state serial now
