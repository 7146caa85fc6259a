-- ===== src/State/Local/Blobs.antt =====
-- repository/state/state.go: `BlobExists` and `GetSubpartForBlob` against the deltas in the cache.
use plakar.Prelude.{
  ℕ, Bool, true, false, not, ◌&&◌, ◌≡◌, refl, List, [], ◌∷◌, if◌then◌else◌, Option, none, some,
  Result, ok, err, panic, stuck, Error, All, Bool-cases, ◌⊎◌, inl, inr, >>=-eq-ok,
  ◌>>=◌ as result_bind,
}
use plakar.Wire.{Bytes}
use plakar.Resources.{rt_packfile}
use plakar.Caching.StateCache.{StateCache}
use plakar.State.{DeltaEntry, Location, delta_entry_to_bytes, delta_entry_from_bytes}
use plakar.State.Entries.{encoded, IsDeltaEntry, delta_entry_from_bytes-to_bytes}
use plakar.State.Local.{
  on_decoded, LocalState, is_live, exists_in, blob_exists, subpart_in, get_subpart_for_blob,
  or_false,
}

-- The cache's entries for deltas with their keys.
abbrev pub written : List (Bytes × DeltaEntry) → List (Bytes × Bytes)
written = encoded delta_entry_to_bytes

abbrev pub is_some {ℓ} : {A : Type ℓ} → Option A → Bool
is_some none = false
is_some (some a) = true

-- The location of the first delta whose packfile is present and not deleted.
unfoldable pub first_live :
    (Bytes → Bool) → (Bytes → Bool) → List (Bytes × DeltaEntry) → Option Location
first_live present deleted [] = none
first_live present deleted ((_, de) ∷ more) =
    if present de.location.packfile && not (deleted de.location.packfile)
    then some de.location
    else first_live present deleted more

on_decoded-ok :
    {A B : Type 0} (r : Result (A × Option Error)) (f : A → Result B) {b : B}
    → on_decoded r f (λ e. err e) ≡ ok b
    → (a : A) × (f a ≡ ok b)
on_decoded-ok (ok (a, none)) f h = (a, h)
on_decoded-ok (ok (a, some e)) f h = cc
on_decoded-ok (err e) f h = cc
on_decoded-ok panic f h = cc
on_decoded-ok stuck f h = cc

module _ {C : Type 0} (i : StateCache C) where
  -- What the cache answers about packfiles, without an error.
  pub record Answers (c : C) (present deleted : Bytes → Bool) : Type 0 where
    pub has_packfile : (m : Bytes) → i.has_packfile m c ≡ ok (present m)
    pub has_deleted : (m : Bytes) → i.has_deleted rt_packfile m c ≡ ok (deleted m)

  is_live-Answers :
      {c : C} {present deleted : Bytes → Bool} (de : DeltaEntry)
      → Answers c present deleted
      → is_live i de c ≡ ok (present de.location.packfile && not (deleted de.location.packfile))
  unfolding is_live
  is_live-Answers de a =
      rw (a.has_packfile de.location.packfile, a.has_deleted de.location.packfile)

  subpart_in-written :
      (des : List (Bytes × DeltaEntry)) (c : C) (present deleted : Bytes → Bool)
      → Answers c present deleted
      → All (λ e. IsDeltaEntry e.1) des
      → (subpart_in i (written des) c ≡ ok (first_live present deleted des))
        × (exists_in i (written des) c ≡ ok (is_some (first_live present deleted des)))
  unfolding subpart_in exists_in encoded first_live
  subpart_in-written [] c present deleted a h = (refl, refl)
  subpart_in-written ((key, de) ∷ des) c present deleted a (hd, h) =
      let (s, e) = subpart_in-written des c present deleted a h in
      let live : Bool = present de.location.packfile && not (deleted de.location.packfile) in
      elim (Bool-cases live) [
        | inl y ↦ (
          rw (delta_entry_from_bytes-to_bytes de hd, is_live-Answers de a, y),
          rw (delta_entry_from_bytes-to_bytes de hd, is_live-Answers de a, y),
        )
        | inr n ↦ (
          rw (delta_entry_from_bytes-to_bytes de hd, is_live-Answers de a, n) s,
          rw (delta_entry_from_bytes-to_bytes de hd, is_live-Answers de a, n) e,
        )
      ]

  -- `GetSubpartForBlob` gives the location of the first delta of the blob whose packfile is in the
  -- state and is not deleted, and `BlobExists` says whether there is one, where the cache answers
  -- without an error and its entries for the blob were written from deltas in range.
  pub get_subpart_for_blob-first_live :
      (ls : LocalState C) (type : ℕ) (mac : Bytes) (des : List (Bytes × DeltaEntry))
      (present deleted : Bytes → Bool)
      → Answers ls.cache present deleted
      → i.get_delta type mac ls.cache ≡ written des
      → All (λ e. IsDeltaEntry e.1) des
      → (get_subpart_for_blob i type mac ls ≡ ok (first_live present deleted des))
        × (blob_exists i type mac ls ≡ ok (is_some (first_live present deleted des)))
  unfolding get_subpart_for_blob blob_exists
  get_subpart_for_blob-first_live ls type mac des present deleted a e h =
      rw e (subpart_in-written des ls.cache present deleted a h)

  -- The packfile of a location is in the state; it is not marked as deleted, or the lookup of its mark failed.
  abbrev pub Live : Location → C → Type 0
  Live loc c =
      (i.has_packfile loc.packfile c ≡ ok true)
      × ((i.has_deleted rt_packfile loc.packfile c ≡ ok false)
          ⊎ ((e : Error) × (i.has_deleted rt_packfile loc.packfile c ≡ err e)))

  is_live-Live : (de : DeltaEntry) (c : C) → is_live i de c ≡ ok true → Live de.location c
  unfolding is_live
  is_live-Live de c h =
      by_answers (i.has_packfile de.location.packfile c)
        (i.has_deleted rt_packfile de.location.packfile c) h
    where
      by_answers :
          (present deleted : Result Bool)
          → (result_bind present λ p. result_bind (or_false deleted) λ d. ok (p && not d)) ≡ ok true
          → (present ≡ ok true) × ((deleted ≡ ok false) ⊎ ((e : Error) × (deleted ≡ err e)))
      by_answers (ok true) (ok true) q = cc
      by_answers (ok true) (ok false) q = (refl, inl refl)
      by_answers (ok true) (err e) q = (refl, inr (e, refl))
      by_answers (ok true) panic q = cc
      by_answers (ok true) stuck q = cc
      by_answers (ok false) (ok d) q = cc
      by_answers (ok false) (err e) q = cc
      by_answers (ok false) panic q = cc
      by_answers (ok false) stuck q = cc
      by_answers (err e) deleted q = cc
      by_answers panic deleted q = cc
      by_answers stuck deleted q = cc

  subpart_in-Live :
      (entries : List (Bytes × Bytes)) (c : C) (loc : Location)
      → subpart_in i entries c ≡ ok (some loc)
      → Live loc c
  unfolding subpart_in
  subpart_in-Live [] c loc h = cc
  subpart_in-Live ((key, buf) ∷ more) c loc h =
      let (de, h₁) = on_decoded-ok (delta_entry_from_bytes buf) _ h in
      let (live, e, h₂) = >>=-eq-ok (is_live i de c) _ h₁ in
      first live de e h₂ (subpart_in-Live more c loc)
    where
      first :
          (live : Bool) (de : DeltaEntry)
          → is_live i de c ≡ ok live
          → (if live then ok (some de.location) else subpart_in i more c) ≡ ok (some loc)
          → (subpart_in i more c ≡ ok (some loc) → Live loc c)
          → Live loc c
      first true de e h rest =
          let same : de.location ≡ loc = cc in rw (← same) (is_live-Live de c e)
      first false de e h rest = rest h

  -- `GetSubpartForBlob` answers only with a packfile of which the cache says that it is in the state, and either says
  -- that it is not marked as deleted or fails to look the mark up, whatever the entries in the cache are.
  pub get_subpart_for_blob-Live :
      (ls : LocalState C) (type : ℕ) (mac : Bytes) (loc : Location)
      → get_subpart_for_blob i type mac ls ≡ ok (some loc)
      → Live loc ls.cache
  unfolding get_subpart_for_blob
  get_subpart_for_blob-Live ls type mac loc h =
      subpart_in-Live (i.get_delta type mac ls.cache) ls.cache loc h
