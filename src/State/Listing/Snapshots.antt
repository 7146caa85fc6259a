-- ===== src/State/Listing/Snapshots.antt =====
-- repository/state/state.go: `ListSnapshots` and `ListOrphanDeltas` against the deltas in the cache.
use plakar.Prelude.{
  ℕ, Bool, not, ◌&&◌, ◌≡◌, refl, List, [], ◌∷◌, if◌then◌else◌, Option, none, some, ok, err, Error,
  All, Bool-cases, inl, inr,
}
use plakar.Wire.{Bytes}
use plakar.Resources.{rt_snapshot}
use plakar.Caching.StateCache.{StateCache}
use plakar.State.{DeltaEntry, no_entry}
use plakar.State.Entries.{encoded, IsDeltaEntry, delta_entry_from_bytes-to_bytes}
use plakar.State.Local.{LocalState}
use plakar.State.Local.Blobs.{written}
use plakar.State.Listing.{
  is_listed, snapshots_in, list_snapshots, orphans_in, list_orphan_deltas, objects_in,
  list_objects_of_type,
}

-- The snapshots whose packfile is present and that are not deleted, in the cache's order.
pub live_snapshots : (Bytes → Bool) → (Bytes → Bool) → List (Bytes × DeltaEntry) → List Bytes
live_snapshots present deleted [] = []
live_snapshots present deleted ((_, de) ∷ more) =
    if present de.location.packfile && not (deleted de.blob)
    then de.blob ∷ live_snapshots present deleted more
    else live_snapshots present deleted more

-- The deltas whose packfile passes the test, each with no error.
pub kept : (Bytes → Bool) → List (Bytes × DeltaEntry) → List (DeltaEntry × Option Error)
kept test [] = []
kept test ((_, de) ∷ more) =
    if test de.location.packfile then (de, none) ∷ kept test more else kept test more

module _ {C : Type 0} (i : StateCache C) where
  snapshots_in-written :
      (c : C) (present deleted : Bytes → Bool)
      → ((m : Bytes) → i.has_packfile m c ≡ ok (present m))
      → ((m : Bytes) → i.has_deleted rt_snapshot m c ≡ ok (deleted m))
      → (des : List (Bytes × DeltaEntry)) → All (λ e. IsDeltaEntry e.1) des
      → snapshots_in i (written des) c ≡ ok (live_snapshots present deleted des)
  unfolding snapshots_in is_listed encoded live_snapshots
  snapshots_in-written c present deleted hp hd [] h = refl
  snapshots_in-written c present deleted hp hd ((key, de) ∷ des) (hde, h) =
      let rest = snapshots_in-written c present deleted hp hd des h in
      let decoded = delta_entry_from_bytes-to_bytes de hde in
      let present_at = hp de.location.packfile in
      let deleted_at = hd de.blob in
      elim (Bool-cases (present de.location.packfile)) [
        | inl y ↦ elim (Bool-cases (deleted de.blob)) [
          | inl z ↦ rw (decoded, present_at, y, deleted_at, z, rest)
          | inr z ↦ rw (decoded, present_at, y, deleted_at, z, rest)
        ]
        | inr n ↦ rw (decoded, present_at, n, rest)
      ]

  objects_in-written :
      (c : C) (present : Bytes → Bool)
      → ((m : Bytes) → i.has_packfile m c ≡ ok (present m))
      → (des : List (Bytes × DeltaEntry)) → All (λ e. IsDeltaEntry e.1) des
      → (objects_in i (written des) c ≡ ok (kept present des))
        × (orphans_in i (written des) c ≡ ok (kept (λ m. not (present m)) des))
  unfolding objects_in orphans_in encoded kept
  objects_in-written c present hp [] h = (refl, refl)
  objects_in-written c present hp ((key, de) ∷ des) (hde, h) =
      let (rest, rest') = objects_in-written c present hp des h in
      elim (Bool-cases (present de.location.packfile)) [
        | inl y ↦ (
          rw (delta_entry_from_bytes-to_bytes de hde, hp de.location.packfile, y, rest),
          rw (delta_entry_from_bytes-to_bytes de hde, hp de.location.packfile, y, rest'),
        )
        | inr n ↦ (
          rw (delta_entry_from_bytes-to_bytes de hde, hp de.location.packfile, n, rest),
          rw (delta_entry_from_bytes-to_bytes de hde, hp de.location.packfile, n, rest'),
        )
      ]

  -- `ListSnapshots` yields the snapshots whose packfile is in the state and that are not marked as
  -- deleted, each once for its delta and in the cache's order, where the cache answers without an error
  -- and its entries were written from deltas in range.
  pub list_snapshots-live_snapshots :
      (ls : LocalState C) (des : List (Bytes × DeltaEntry)) (present deleted : Bytes → Bool)
      → ((m : Bytes) → i.has_packfile m ls.cache ≡ ok (present m))
      → ((m : Bytes) → i.has_deleted rt_snapshot m ls.cache ≡ ok (deleted m))
      → i.get_deltas_by_type rt_snapshot ls.cache ≡ written des
      → All (λ e. IsDeltaEntry e.1) des
      → list_snapshots i ls ≡ ok (live_snapshots present deleted des)
  unfolding list_snapshots
  list_snapshots-live_snapshots ls des present deleted hp hd e h =
      rw e (snapshots_in-written ls.cache present deleted hp hd des h)

  -- `ListObjectsOfType` yields the deltas of the type whose packfile is in the state, and
  -- `ListOrphanDeltas` the deltas of every type whose packfile is not, in the cache's order and with no
  -- error, where the cache answers without an error and its entries were written from deltas in range.
  pub list_objects_of_type-kept :
      (ls : LocalState C) (type : ℕ) (of_type all : List (Bytes × DeltaEntry))
      (present : Bytes → Bool)
      → ((m : Bytes) → i.has_packfile m ls.cache ≡ ok (present m))
      → i.get_deltas_by_type type ls.cache ≡ written of_type
      → i.get_deltas ls.cache ≡ written all
      → All (λ e. IsDeltaEntry e.1) of_type
      → All (λ e. IsDeltaEntry e.1) all
      → (list_objects_of_type i type ls ≡ ok (kept present of_type))
        × (list_orphan_deltas i ls ≡ ok (kept (λ m. not (present m)) all))
  unfolding list_objects_of_type list_orphan_deltas
  list_objects_of_type-kept ls type of_type all present hp e e' h h' = (
    rw e (objects_in-written ls.cache present hp of_type h).0,
    rw e' (objects_in-written ls.cache present hp all h').1,
  )

  -- Where the cache cannot look up the packfile of its only delta, `ListOrphanDeltas` yields the error,
  -- and then the delta itself as an orphan.
  pub list_orphan_deltas-error :
      (ls : LocalState C) (key : Bytes) (de : DeltaEntry) (e : Error)
      → IsDeltaEntry de
      → i.get_deltas ls.cache ≡ written ((key, de) ∷ [])
      → i.has_packfile de.location.packfile ls.cache ≡ err e
      → list_orphan_deltas i ls ≡ ok ((no_entry, some e) ∷ (de, none) ∷ [])
  unfolding list_orphan_deltas orphans_in encoded
  list_orphan_deltas-error ls key de e h entries lost =
      rw (entries, delta_entry_from_bytes-to_bytes de h, lost)
