-- ===== src/State/Listing.antt =====
-- repository/state/state.go: the iterators of `LocalState`, each as the list of what it yields.
pub mod Snapshots
use plakar.Prelude.{
  ℕ, Bool, true, false, not, List, [], ◌∷◌, ◌++◌, map, if◌then◌else◌, Option, none, some, Result,
  ok, err, panic, stuck, Error, ◌>>=◌,
}
use plakar.Wire.{Bytes}
use plakar.Resources.{rt_snapshot}
use plakar.Caching.StateCache.{StateCache}
use plakar.State.{
  DeltaEntry, DeletedEntry, delta_entry_from_bytes, deleted_entry_from_bytes, no_entry,
}
use plakar.State.Local.{LocalState, or_false}

abbrev pub prepend {ℓ} : {A : Type ℓ} → List A → Result (List A) → Result (List A)
prepend xs rest = rest >>= λ ys. ok (xs ++ ys)

module _ {C : Type 0} (i : StateCache C) where
  unfoldable pub list_packfiles : LocalState C → List Bytes
  list_packfiles ls = map (λ e. e.0) (i.get_packfiles ls.cache)

  -- The tests of `ListSnapshots`: the packfile is there, and the snapshot is not deleted.
  unfoldable pub is_listed : DeltaEntry → C → Result Bool
  is_listed de c = do
    present ← or_false (i.has_packfile de.location.packfile c)
    if present
        then (do deleted ← or_false (i.has_deleted rt_snapshot de.blob c); ok (not deleted))
        else ok false

  unfoldable pub snapshots_in : List (Bytes × Bytes) → C → Result (List Bytes)
  snapshots_in [] c = ok []
  snapshots_in ((_, buf) ∷ more) c = do
    (de, _) ← delta_entry_from_bytes buf
    listed ← is_listed de c
    prepend (if listed then de.blob ∷ [] else []) (snapshots_in more c)

  unfoldable pub list_snapshots : LocalState C → Result (List Bytes)
  list_snapshots ls = snapshots_in (i.get_deltas_by_type rt_snapshot ls.cache) ls.cache

  -- What the body of the loop of `ListObjectsOfType` yields for the answer about the packfile.
  abbrev pub object_yield : DeltaEntry → Result Bool → Result (List (DeltaEntry × Option Error))
  object_yield de (ok true) = ok ((de, none) ∷ [])
  object_yield de (ok false) = ok []
  object_yield de (err e) = ok ((no_entry, some e) ∷ [])
  object_yield de panic = panic
  object_yield de stuck = stuck

  abbrev pub decode_yield : Option Error → List (DeltaEntry × Option Error)
  decode_yield none = []
  decode_yield (some e) = (no_entry, some e) ∷ []

  unfoldable pub objects_in : List (Bytes × Bytes) → C → Result (List (DeltaEntry × Option Error))
  objects_in [] c = ok []
  objects_in ((_, buf) ∷ more) c = do
    (de, e) ← delta_entry_from_bytes buf
    ys ← object_yield de (i.has_packfile de.location.packfile c)
    prepend (decode_yield e ++ ys) (objects_in more c)

  unfoldable pub list_objects_of_type : ℕ → LocalState C → Result (List (DeltaEntry × Option Error))
  list_objects_of_type type ls = objects_in (i.get_deltas_by_type type ls.cache) ls.cache

  -- For `ListOrphanDeltas`: where the packfile cannot be looked up the error is yielded, and then the
  -- delta, since the answer that came with the error is false.
  abbrev pub orphan_yield : DeltaEntry → Result Bool → Result (List (DeltaEntry × Option Error))
  orphan_yield de (ok true) = ok []
  orphan_yield de (ok false) = ok ((de, none) ∷ [])
  orphan_yield de (err e) = ok ((no_entry, some e) ∷ (de, none) ∷ [])
  orphan_yield de panic = panic
  orphan_yield de stuck = stuck

  unfoldable pub orphans_in : List (Bytes × Bytes) → C → Result (List (DeltaEntry × Option Error))
  orphans_in [] c = ok []
  orphans_in ((_, buf) ∷ more) c = do
    (de, e) ← delta_entry_from_bytes buf
    ys ← orphan_yield de (i.has_packfile de.location.packfile c)
    prepend (decode_yield e ++ ys) (orphans_in more c)

  unfoldable pub list_orphan_deltas : LocalState C → Result (List (DeltaEntry × Option Error))
  list_orphan_deltas ls = orphans_in (i.get_deltas ls.cache) ls.cache

  unfoldable pub deleteds_in : List (Bytes × Bytes) → Result (List (DeletedEntry × Option Error))
  deleteds_in [] = ok []
  deleteds_in ((_, buf) ∷ more) = do
    y ← deleted_entry_from_bytes buf
    prepend (y ∷ []) (deleteds_in more)

  unfoldable pub list_deleted_resources :
      ℕ → LocalState C → Result (List (DeletedEntry × Option Error))
  list_deleted_resources rtype ls = deleteds_in (i.get_deleteds_by_type rtype ls.cache)
