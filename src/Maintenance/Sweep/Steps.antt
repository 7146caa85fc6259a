-- ===== src/Maintenance/Sweep/Steps.antt =====
-- cmd/plakar/subcommands/maintenance/maintenance.go: what each change that `sweepPass` makes keeps.
use plakar.Prelude.{
  ℕ, ◌≡◌, inl, inr, Bool, true, false, Option, none, some, List, [], ◌∷◌, if◌then◌else◌, Bool-cases,
  Result, Error,
}
use plakar.Wire.{Bytes}
use plakar.Resources.{rt_packfile}
use plakar.Caching.Database.{LevelDb}
use plakar.Caching.StateCache.{StateCache}
use plakar.Caching.Maintenance
use plakar.State.{DeltaEntry, Metadata, before}
use plakar.State.Exec.{Exec, pure, continue, ◌>>=◌, ◌>>◌, continue-rule}
use plakar.State.Local.{LocalState, del_delta}
use plakar.State.Updates.{del_packfile, del_deleted_resource}
use plakar.State.Listing.{list_orphan_deltas}
use plakar.Maintenance.{ignored, no_error, added}
use plakar.Maintenance.Sweep.{
  no_failure, list_deleted_packfiles, put_current_state, remove_blobs, sweep_packfile,
  sweep_packfiles, is_empty, sweep_pass,
}

-- What follows the loop over the packfiles.
abbrev pub rest :
    {C : Type 0}
    → StateCache C
    → (Bytes → Bytes)
    → (Bytes → Bytes → Result (Unit {0}))
    → Bytes
    → ℕ
    → List Bytes
    → Exec (LocalState C) (Unit {0})
rest i id put_state serial now set = (λ ls. (ls, list_orphan_deltas i ls)) >>= λ orphans.
    remove_blobs i orphans >>= λ n.
    if is_empty set then pure tt else put_current_state i id put_state serial now

module _ {D C : Type 0} (db : LevelDb D) (d : D) (i : StateCache C) where
  -- A predicate that each single change of `sweepPass` keeps.
  pub record Stable (P : LocalState C → Type 0) : Type 0 where
    pub unmark : (q : Bytes) (s : LocalState C) → P s → P (del_deleted_resource i rt_packfile q s).0
    pub drop_blob : (t : ℕ) (b q : Bytes) (s : LocalState C) → P s → P (del_delta i t b q s).0
    pub remove :
        (q : Bytes) (s : LocalState C)
        → Maintenance.has_packfile db q d ≡ false
        → P s
        → P (del_packfile i q s).0
    pub stamp : (m : Metadata) (s : LocalState C) → P s → P (record s { metadata = m })

  module _ (P : LocalState C → Type 0) (st : Stable P) (cutoff : ℕ) where
    after :
        {A B : Type 0} (r : Result A) (f : A → Exec (LocalState C) B) (s : LocalState C)
        → P s
        → ((a : A) → P (f a s).0)
        → P (continue r f s).0
    after r f s p h = continue-rule (λ x. P x.0) r f s (λ a e. h a) (λ x e. p)

    remove_blobs-keeps :
        (bs : List (DeltaEntry × Option Error)) (s : LocalState C) → P s → P (remove_blobs i bs s).0
    unfolding remove_blobs
    remove_blobs-keeps [] s p = p
    remove_blobs-keeps ((b, some e) ∷ bs) s p = remove_blobs-keeps bs s p
    remove_blobs-keeps ((b, none) ∷ bs) s p =
        let s' = (del_delta i b.type b.blob b.location.packfile s).0 in
        let p' = st.drop_blob b.type b.blob b.location.packfile s p in
        after (no_error (del_delta i b.type b.blob b.location.packfile s).1) _ s' p' (λ u.
          let q = remove_blobs-keeps bs s' p' in
          after (remove_blobs i bs s').1 _ (remove_blobs i bs s').0 q (λ n. q))

    unmark_then :
        {A : Type 0} (q : Bytes) (a : A) (s : LocalState C)
        → P s
        → P ((ignored (del_deleted_resource i rt_packfile q) >> pure a) s).0
    unmark_then q a s p =
        let s' = (del_deleted_resource i rt_packfile q s).0 in
        let p' = st.unmark q s p in
        after (no_error (del_deleted_resource i rt_packfile q s).1) _ s' p' (λ u. p')

    sweep_packfile-keeps :
        (q : Bytes) (when : ℕ) (set : List Bytes) (s : LocalState C)
        → P s
        → P (sweep_packfile i db cutoff d q when set s).0
    unfolding sweep_packfile
    sweep_packfile-keeps q when set s p = elim (Bool-cases (before cutoff when)) [
      | inl young ↦ rw young p
      | inr old ↦ rw old (elim (Bool-cases (Maintenance.has_packfile db q d)) [
        | inl used ↦ rw used (unmark_then q set s p)
        | inr unused ↦ rw unused (
            let s' = (del_packfile i q s).0 in
            let p' = st.remove q s unused p in
            after (no_failure (del_packfile i q s).1) _ s' p' (removed s' p'))
      ])
    ]
      where
        removed :
            (s : LocalState C)
            → P s
            → (b : Bool)
            → P
                ((if b
                    then (ignored (del_deleted_resource i rt_packfile q) >> pure (added q set))
                    else pure set)
                  s).0
        removed s p true = unmark_then q (added q set) s p
        removed s p false = p

    pub sweep_packfiles-keeps :
        (ps : List (Bytes × ℕ)) (set : List Bytes) (s : LocalState C)
        → P s
        → P (sweep_packfiles i db cutoff d ps set s).0
    unfolding sweep_packfiles
    sweep_packfiles-keeps [] set s p = p
    sweep_packfiles-keeps ((q, when) ∷ ps) set s p =
        let r = sweep_packfile i db cutoff d q when set s in
        let p' = sweep_packfile-keeps q when set s p in
        after r.1 (sweep_packfiles i db cutoff d ps) r.0 p'
          (λ set'. sweep_packfiles-keeps ps set' r.0 p')

    pub rest-keeps :
        (id : Bytes → Bytes) (put_state : Bytes → Bytes → Result (Unit {0})) (serial : Bytes)
        (now : ℕ) (set : List Bytes) (s : LocalState C)
        → P s
        → P (rest i id put_state serial now set s).0
    unfolding put_current_state
    rest-keeps id put_state serial now set s p = after (list_orphan_deltas i s) _ s p λ orphans.
        let s' = (remove_blobs i orphans s).0 in
        let p' = remove_blobs-keeps orphans s p in
        after (remove_blobs i orphans s).1 _ s' p' (λ n. last (is_empty set) s' p')
      where
        last :
            (b : Bool) (s : LocalState C)
            → P s
            → P ((if b then pure tt else put_current_state i id put_state serial now) s).0
        last true s p = p
        last false s p = st.stamp (record s.metadata { serial = serial; timestamp = now }) s p

    pub sweep_pass-Stable :
        (id : Bytes → Bytes) (put_state : Bytes → Bytes → Result (Unit {0})) (serial : Bytes)
        (now : ℕ) (s : LocalState C)
        → P s
        → P (sweep_pass i db cutoff d id put_state serial now s).0
    unfolding sweep_pass
    sweep_pass-Stable id put_state serial now s p =
        after (list_deleted_packfiles i s) _ s p λ deleteds.
          let p' = sweep_packfiles-keeps deleteds [] s p in
          let r = sweep_packfiles i db cutoff d deleteds [] s in
          after r.1 (rest i id put_state serial now) r.0 p'
            (λ set. rest-keeps id put_state serial now set r.0 p')
