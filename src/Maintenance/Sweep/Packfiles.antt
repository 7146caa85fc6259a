-- ===== src/Maintenance/Sweep/Packfiles.antt =====
-- cmd/plakar/subcommands/maintenance/maintenance.go: what `sweepPass` keeps, and what it removes.
use plakar.Prelude.{
  ℕ, ◌≡◌, refl, ap, ◌∙◌, inl, inr, Bool, true, false, Option, none, some, List, [], ◌∷◌, ◌++◌,
  arith, if◌then◌else◌, Bool-cases, Result, ok, Error,
}
use plakar.Wire.{Bytes, beq_bytes, beq_bytes_eq, beq_bytes_refl}
use plakar.Resources.{rt_packfile}
use plakar.Caching.Database.{LevelDb}
use plakar.Caching.StateCache.{StateCache}
use plakar.Caching.Maintenance
use plakar.State.{before}
use plakar.State.Exec.{pure, ◌>>◌}
use plakar.State.Local.{LocalState, del_delta}
use plakar.State.Updates.{del_packfile, del_deleted_resource}
use plakar.Maintenance.{ignored, added}
use plakar.Maintenance.Sweep.{list_deleted_packfiles, sweep_packfile, sweep_packfiles, sweep_pass}
use plakar.Maintenance.Sweep.Steps.{Stable, sweep_packfiles-keeps, rest-keeps, sweep_pass-Stable}

-- What a cache does with the packfiles of a state: `DelPackfile` takes away the one that it is given, and
-- the removals of deltas and of marks none.
pub record Removes {C : Type 0} (i : StateCache C) : Type 0 where
  pub del_works : (q : Bytes) (c : C) → (i.del_packfile q c).1 ≡ none
  pub del_packfile_lem :
      (q p : Bytes) (c : C)
      → i.has_packfile p (i.del_packfile q c).0
        ≡ (if beq_bytes p q then ok false else i.has_packfile p c)
  pub del_delta_lem :
      (t : ℕ) (b q p : Bytes) (c : C)
      → i.has_packfile p (i.del_delta t b q c).0 ≡ i.has_packfile p c
  pub del_deleted_lem :
      (t : ℕ) (q p : Bytes) (c : C) → i.has_packfile p (i.del_deleted t q c).0 ≡ i.has_packfile p c

-- A cache in which a removal, whether it fails or not, touches no packfile but the one that it is given.
pub record Spares {C : Type 0} (i : StateCache C) : Type 0 where
  pub del_packfile_lem :
      (q p : Bytes) (c : C)
      → beq_bytes p q ≡ false
      → i.has_packfile p (i.del_packfile q c).0 ≡ i.has_packfile p c
  pub del_delta_lem :
      (t : ℕ) (b q p : Bytes) (c : C)
      → i.has_packfile p (i.del_delta t b q c).0 ≡ i.has_packfile p c
  pub del_deleted_lem :
      (t : ℕ) (q p : Bytes) (c : C) → i.has_packfile p (i.del_deleted t q c).0 ≡ i.has_packfile p c

-- What the cache says of a packfile.
abbrev present : {C : Type 0} → StateCache C → Bytes → LocalState C → Result Bool
present i p ls = i.has_packfile p ls.cache

module _ {D C : Type 0} (db : LevelDb D) (d : D) (i : StateCache C) (law : Spares i) (p : Bytes)
    (id : Bytes → Bytes) (put_state : Bytes → Bytes → Result (Unit {0})) (serial : Bytes)
    (now cutoff : ℕ) (s : LocalState C) where
  as_before-Stable :
      Maintenance.has_packfile db p d ≡ true → Stable db d i (λ t. present i p t ≡ present i p s)
  unfolding del_deleted_resource del_delta del_packfile
  as_before-Stable used = record {
    unmark = λ q t h. law.del_deleted_lem rt_packfile q p t.cache ∙ h;
    drop_blob = λ t b q u h. law.del_delta_lem t b q p u.cache ∙ h;
    remove = λ q t unused h. elim (Bool-cases (beq_bytes p q)) [
      | inl same ↦ absurd (
          ground (
            arith,
            used,
            unused,
            ap (λ b. Maintenance.has_packfile db b d) (beq_bytes_eq p q same),
          ))
      | inr other ↦ law.del_packfile_lem q p t.cache other ∙ h
    ];
    stamp = λ m t h. h;
  }

  -- `sweepPass` keeps in the state every packfile that a snapshot in the cache uses, whatever calls fail, the removals
  -- too, where a removal from the cache of the state, failed or not, touches no packfile but the one it is given.
  pub sweep_pass-keeps :
      Maintenance.has_packfile db p d ≡ true
      → present i p (sweep_pass i db cutoff d id put_state serial now s).0 ≡ present i p s
  sweep_pass-keeps used =
      sweep_pass-Stable db d i (λ t. present i p t ≡ present i p s) (as_before-Stable used) cutoff
        id put_state serial now s refl

module _ {D C : Type 0} (db : LevelDb D) (d : D) (i : StateCache C) (law : Removes i) (p : Bytes)
    (id : Bytes → Bytes) (put_state : Bytes → Bytes → Result (Unit {0})) (serial : Bytes)
    (now cutoff : ℕ) (s : LocalState C) where
  gone-Stable : Stable db d i (λ t. present i p t ≡ ok false)
  unfolding del_deleted_resource del_delta del_packfile
  gone-Stable = record {
    unmark = λ q t h. law.del_deleted_lem rt_packfile q p t.cache ∙ h;
    drop_blob = λ t b q u h. law.del_delta_lem t b q p u.cache ∙ h;
    remove = λ q t unused h.
        law.del_packfile_lem q p t.cache
        ∙ rw h (elim (Bool-cases (beq_bytes p q)) [ inl same ↦ rw same | inr other ↦ rw other ]);
    stamp = λ m t h. h;
  }

  abbrev Loop : List (Bytes × ℕ) → List Bytes → LocalState C → LocalState C × Result (List Bytes)
  Loop ps set t = sweep_packfiles i db cutoff d ps set t

  unmark_returns :
      {A : Type 0} (q : Bytes) (a : A) (t : LocalState C)
      → ((ignored (del_deleted_resource i rt_packfile q) >> pure a) t).1 ≡ ok a
  unfolding del_deleted_resource
  unmark_returns q a t = by_error (i.del_deleted rt_packfile q t.cache).1 refl
    where
      by_error :
          (e : Option Error)
          → (i.del_deleted rt_packfile q t.cache).1 ≡ e
          → ((ignored (del_deleted_resource i rt_packfile q) >> pure a) t).1 ≡ ok a
      by_error none h = rw h
      by_error (some e) h = rw h

  sweep_packfile_returns :
      (q : Bytes) (when : ℕ) (set : List Bytes) (t : LocalState C)
      → (set' : List Bytes) × ((sweep_packfile i db cutoff d q when set t).1 ≡ ok set')
  unfolding sweep_packfile del_packfile
  sweep_packfile_returns q when set t = elim (Bool-cases (before cutoff when)) [
    | inl young ↦ (set, rw young)
    | inr old ↦ rw old (elim (Bool-cases (Maintenance.has_packfile db q d)) [
      | inl used ↦ (set, rw used (unmark_returns q set t))
      | inr unused ↦ (
        added q set,
        rw (unused, law.del_works q t.cache)
            (unmark_returns q (added q set) (record t { cache = (i.del_packfile q t.cache).0 })),
      )
    ])
  ]

  -- The loop removes a packfile that is old enough and that no snapshot uses.
  sweep_packfile-gone :
      (when : ℕ) (set : List Bytes) (t : LocalState C)
      → before cutoff when ≡ false
      → Maintenance.has_packfile db p d ≡ false
      → present i p (sweep_packfile i db cutoff d p when set t).0 ≡ ok false
  unfolding sweep_packfile del_packfile del_deleted_resource
  sweep_packfile-gone when set t old unused =
      rw (old, unused, law.del_works p t.cache)
        (by_error (i.del_deleted rt_packfile p (i.del_packfile p t.cache).0).1 refl)
    where
      t' : LocalState C
      t' = record t { cache = (i.del_packfile p t.cache).0 }

      by_error :
          (e : Option Error)
          → (i.del_deleted rt_packfile p (i.del_packfile p t.cache).0).1 ≡ e
          → present i p
              ((ignored (del_deleted_resource i rt_packfile p) >> pure (added p set)) t').0
            ≡ ok false
      by_error none h = rw h (
          law.del_deleted_lem rt_packfile p p t'.cache
          ∙ law.del_packfile_lem p p t.cache
          ∙ rw (beq_bytes_refl p))
      by_error (some e) h = rw h (
          law.del_deleted_lem rt_packfile p p t'.cache
          ∙ law.del_packfile_lem p p t.cache
          ∙ rw (beq_bytes_refl p))

  sweep_packfiles-gone :
      (xs ys : List (Bytes × ℕ)) (when : ℕ) (set : List Bytes) (t : LocalState C)
      → before cutoff when ≡ false
      → Maintenance.has_packfile db p d ≡ false
      → (set' : List Bytes) × ((Loop (xs ++ (p, when) ∷ ys) set t).1 ≡ ok set')
        × (present i p (Loop (xs ++ (p, when) ∷ ys) set t).0 ≡ ok false)
  unfolding sweep_packfiles
  sweep_packfiles-gone [] ys when set t old unused =
      let r = sweep_packfile i db cutoff d p when set t in
      let (set', e) = sweep_packfile_returns p when set t in
      let (out, f) = all_return ys set' r.0 in
      rw e (
        out,
        f,
        sweep_packfiles-keeps db d i (λ u. present i p u ≡ ok false) gone-Stable cutoff ys set' r.0
            (sweep_packfile-gone when set t old unused),
      )
    where
      all_return :
          (qs : List (Bytes × ℕ)) (set : List Bytes) (t : LocalState C)
          → (set' : List Bytes) × ((Loop qs set t).1 ≡ ok set')
      all_return [] set t = (set, refl)
      all_return ((q, w) ∷ qs) set t =
          let (set', e) = sweep_packfile_returns q w set t in
          rw e (all_return qs set' (sweep_packfile i db cutoff d q w set t).0)
  sweep_packfiles-gone ((q, w) ∷ xs) ys when set t old unused =
      let (set', e) = sweep_packfile_returns q w set t in
      rw e
        (sweep_packfiles-gone xs ys when set' (sweep_packfile i db cutoff d q w set t).0 old unused)

  -- `sweepPass` removes from the state each packfile that is marked, where the mark is not younger than the
  -- cutoff, no snapshot in the cache uses the packfile, and the cache removes what it is told to.
  pub sweep_pass-removes :
      (xs ys : List (Bytes × ℕ)) (when : ℕ)
      → list_deleted_packfiles i s ≡ ok (xs ++ (p, when) ∷ ys)
      → before cutoff when ≡ false
      → Maintenance.has_packfile db p d ≡ false
      → present i p (sweep_pass i db cutoff d id put_state serial now s).0 ≡ ok false
  unfolding sweep_pass
  sweep_pass-removes xs ys when listed old unused =
      let (set', e, gone) = sweep_packfiles-gone xs ys when [] s old unused in
      rw (listed, e)
        (rest-keeps db d i (λ u. present i p u ≡ ok false) gone-Stable cutoff id put_state serial
          now set' (Loop (xs ++ (p, when) ∷ ys) [] s).0 gone)
