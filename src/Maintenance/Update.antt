-- ===== src/Maintenance/Update.antt =====
-- cmd/plakar/subcommands/maintenance/maintenance.go: what `updateCache` records.
use plakar.Prelude.{
  subst, ◌≢◌, ◌≡◌, refl, sym, ap, ◌∙◌, inl, inr, Bool, true, false, not, ◌&&◌, ◌||◌, List, [], ◌∷◌,
  ◌++◌, arith, if◌then◌else◌, Bool-cases, All, All-map, All-append, Result, ok,
}
use plakar.Wire.{Bytes, beq_bytes, beq_bytes_eq, beq_bytes_refl}
use plakar.Caching.Database.{LevelDb, Works, has_key}
use plakar.Caching.Keys
use plakar.Caching.Repository.Entries.{IsMac}
use plakar.Caching.Maintenance
use plakar.Caching.Maintenance.{wrote}
use plakar.Caching.Maintenance.Names.{snapshot_key, packfile_key, of_snapshot, Tidy, remove-Tidy}
use plakar.Caching.Maintenance.Deletes.{held, delete_packfiles-Tidy, delete_packfiles-forgets}
use plakar.State.Exec.{continue-rule, Exec, pure, continue, ◌>>◌}
use plakar.Maintenance.{
  among, Repository, ignored, put_packfiles, add_snapshots, forget_snapshots, update_cache,
}
use plakar.Maintenance.Records.{
  Adds, Each, Each-map, Recorded, Recorded-grows, has_key-of_remove, has_key-remove_other, held-put,
  packfile_key-snapshot_key, put-Tidy, put-grows, put_packfiles-Puts, snapshot_key-eq,
}

module _ {D : Type 0} (db : LevelDb D) (w : Works db) (repo : Repository) where
  -- The snapshots and packfiles that the repository names are MACs.
  pub record Named : Type 0 where
    pub packfiles_named :
        (s : Bytes) (ps : List (Result Bytes))
        → repo.list_snapshot_packfiles s ≡ ok ps
        → All (Each IsMac) ps
    pub snapshots_named : All IsMac repo.list_snapshots
    pub deleted_named : All IsMac repo.list_deleted_snapshots

  -- Each snapshot that the cache knows has all its packfiles in the cache.
  pub record Complete (d : D) : Type 0 where
    pub tidy : Tidy (w.entries d)
    pub recorded :
        (s : Bytes) (ps : List (Result Bytes))
        → IsMac s
        → held db w (snapshot_key s) d ≡ true
        → repo.list_snapshot_packfiles s ≡ ok ps
        → Recorded db w s d ps

  Adds-Complete : (d d' : D) → Complete d → Adds db w d d' → Complete d'
  Adds-Complete d d' c a = record {
    tidy = a.tidy;
    recorded = λ s ps hs known e.
        Recorded-grows db w s d d' ps a.grows (c.recorded s ps hs (sym (a.snapshots s) ∙ known) e);
  }

  put_snapshot-Complete :
      (s v : Bytes) (d : D)
      → IsMac s
      → Complete d
      → ((ps : List (Result Bytes)) → repo.list_snapshot_packfiles s ≡ ok ps → Recorded db w s d ps)
      → Complete (db.put (snapshot_key s) v d).0
  put_snapshot-Complete s v d hs c r = record {
    tidy = put-Tidy db w (snapshot_key s) v d (of_snapshot s hs refl) c.tidy;
    recorded = λ m ps hm known e.
        Recorded-grows db w m d (db.put (snapshot_key s) v d).0 ps
          (λ k h. put-grows db w k (snapshot_key s) v d h)
          (elim (Bool-cases (beq_bytes m s)) [
            | inl same ↦
                rw (beq_bytes_eq m s same)
                  (r ps (sym (ap repo.list_snapshot_packfiles (beq_bytes_eq m s same)) ∙ e))
            | inr other ↦
                c.recorded m ps hm
                  (sym (
                      held-put db w (snapshot_key m) (snapshot_key s) v d
                      ∙ ap (λ b. b || held db w (snapshot_key m) d)
                          (snapshot_key-eq m s hm hs ∙ other))
                    ∙ known)
                  e
          ]);
  }

  -- What a part of `updateCache` leaves: a complete cache that knows the snapshots that it knew, and, with no
  -- error, those of `ss` too.
  record Learns (ss : List Bytes) (d : D) (r : D × Result (Unit {0})) : Type 0 where
    complete : Complete r.0
    keeps :
        (m : Bytes) → held db w (snapshot_key m) d ≡ true → held db w (snapshot_key m) r.0 ≡ true
    knows : r.1 ≡ ok tt → All (λ s. held db w (snapshot_key s) r.0 ≡ true) ss

  Learns-failed :
      (ss : List Bytes) (d : D) (x : Result (Unit {0}))
      → Complete d
      → ((u : Unit {0}) → x ≢ ok u)
      → Learns ss d (d, x)
  Learns-failed ss d x c h = record { complete = c; keeps = λ m e. e; knows = λ e. absurd (h tt e) }

  record_snapshot-Learns :
      (s : Bytes) (ps : List (Result Bytes)) (d : D)
      → IsMac s
      → All (Each IsMac) ps
      → repo.list_snapshot_packfiles s ≡ ok ps
      → Complete d
      → Learns
          (s ∷ [])
          d
          ((put_packfiles db s ps >> ignored (wrote (Maintenance.put_snapshot db s []))) d)
  unfolding Maintenance.put_snapshot Keys.put
  record_snapshot-Learns s ps d hs hp e c =
      let (a, r) = put_packfiles-Puts db w s ps d hs hp c.tidy in
      let d' = (put_packfiles db s ps d).0 in
      let c' = Adds-Complete d d' c a in
      continue-rule (Learns (s ∷ []) d) (put_packfiles db s ps d).1
        (λ _. ignored (wrote (db.put (snapshot_key s) []))) d'
        (λ u ended.
          let all : Recorded db w s d' ps = r ended in
          let d'' = (db.put (snapshot_key s) [] d').0 in
          subst (Learns (s ∷ []) d) (sym (ignored-put (snapshot_key s) [] d')) (record {
            complete =
                put_snapshot-Complete s [] d' hs c' (λ qs q. rw (ok-injective (sym q ∙ e)) all);
            keeps =
                λ m h. put-grows db w (snapshot_key m) (snapshot_key s) [] d' (a.snapshots m ∙ h);
            knows = λ _. (
              held-put db w (snapshot_key s) (snapshot_key s) [] d'
                  ∙ rw (beq_bytes_refl (snapshot_key s)),
              tt,
            );
          }))
        (λ x h. record {
          complete = c';
          keeps = λ m k. a.snapshots m ∙ k;
          knows = λ q. absurd (h tt q);
        })
    where
      ok-injective : {A : Type 0} {a b : A} → ok a ≡ ok b → a ≡ b
      ok-injective h = cc

      ignored-put :
          (k v : Bytes) (d : D) → ignored (wrote (db.put k v)) d ≡ ((db.put k v d).0, ok tt)
      ignored-put k v d = rw (w.put_works k v d)

  Learns-then :
      (ss ts : List Bytes) (d : D) (r : D × Result (Unit {0})) (next : Exec D (Unit {0}))
      → Learns ss d r
      → ((d' : D) → Complete d' → Learns ts d' (next d'))
      → Learns (ss ++ ts) d (continue r.1 (λ _. next) r.0)
  Learns-then ss ts d r next l more =
      continue-rule (Learns (ss ++ ts) d) r.1 (λ _. next) r.0
        (λ u ended.
          let m = more r.0 l.complete in
          record {
            complete = m.complete;
            keeps = λ k h. m.keeps k (l.keeps k h);
            knows = λ q.
                All-append (λ s. held db w (snapshot_key s) (next r.0).0 ≡ true) ss ts
                  (All-map (λ s. held db w (snapshot_key s) r.0 ≡ true)
                    (λ s. held db w (snapshot_key s) (next r.0).0 ≡ true) ss (λ s. m.keeps s)
                    (l.knows ended))
                  (m.knows q);
          })
        (λ x h. record { complete = l.complete; keeps = l.keeps; knows = λ q. absurd (h tt q) })

  Learns-known :
      (s : Bytes) (d : D) (b : Bool) (m : Exec D (Unit {0}))
      → held db w (snapshot_key s) d ≡ b
      → Complete d
      → Learns (s ∷ []) d (m d)
      → Learns (s ∷ []) d ((if b then pure tt else m) d)
  Learns-known s d true m e c l = record { complete = c; keeps = λ k h. h; knows = λ _. (e, tt) }
  Learns-known s d false m e c l = l

  add_snapshots-Learns :
      (n : Named) (ss : List Bytes) (d : D)
      → All IsMac ss
      → Complete d
      → Learns ss d (add_snapshots db repo ss d)
  unfolding add_snapshots Maintenance.has_snapshot Keys.has
  add_snapshots-Learns n [] d h c = record { complete = c; keeps = λ k e. e; knows = λ _. tt }
  add_snapshots-Learns n (s ∷ ss) d (hs, h) c =
      continue-rule (Learns (s ∷ ss) d) (repo.load s) _ d
        (λ u loaded. rw (w.has_finds (snapshot_key s) d) (
          Learns-then (s ∷ []) ss d _ (add_snapshots db repo ss)
            (Learns-known s d (held db w (snapshot_key s) d) _ refl c (
              continue-rule (Learns (s ∷ []) d) (repo.list_snapshot_packfiles s) _ d
                (λ ps e. record_snapshot-Learns s ps d hs (n.packfiles_named s ps e) e c)
                (λ x. Learns-failed (s ∷ []) d x c)))
            (λ d' c'. add_snapshots-Learns n ss d' h c')))
        (λ x. Learns-failed (s ∷ ss) d x c)

  -- The cache once `updateCache` has forgotten a snapshot.
  forgotten : Bytes → D → D
  forgotten s d = (db.delete (snapshot_key s) (Maintenance.delete_packfiles db s d).0).0

  held-delete_other :
      (j k : Bytes) (d : D) → beq_bytes j k ≡ false → held db w j (db.delete k d).0 ≡ held db w j d
  held-delete_other j k d h =
      ap (has_key j) (w.delete_entries k d) ∙ has_key-remove_other j k (w.entries d) h

  packfile-forgotten :
      (s p m : Bytes) (d : D)
      → IsMac s
      → IsMac m
      → Complete d
      → held db w (packfile_key p m) (forgotten s d)
        ≡ (held db w (packfile_key p m) d && not (beq_bytes m s))
  unfolding forgotten
  packfile-forgotten s p m d hs hm c =
      held-delete_other (packfile_key p m) (snapshot_key s) (Maintenance.delete_packfiles db s d).0
        (packfile_key-snapshot_key p m s)
      ∙ (delete_packfiles-forgets db w s p m d hs hm c.tidy).1

  snapshot-forgotten :
      (s m : Bytes) (d : D)
      → IsMac s
      → IsMac m
      → Complete d
      → held db w (snapshot_key m) (forgotten s d)
        ≡ (held db w (snapshot_key m) d && not (beq_bytes m s))
  unfolding forgotten
  snapshot-forgotten s m d hs hm c =
      let d1 = (Maintenance.delete_packfiles db s d).0 in
      let same = (delete_packfiles-forgets db w s [] m d hs hm c.tidy).2 in
      elim (Bool-cases (beq_bytes m s)) [
        | inl e ↦
            let gone : held db w (snapshot_key m) d1 ≡ false = same ∙ ground (arith, e) in
            not-held-delete (snapshot_key m) (snapshot_key s) d1 gone ∙ ground (arith, e)
        | inr e ↦
            held-delete_other (snapshot_key m) (snapshot_key s) d1 (snapshot_key-eq m s hm hs ∙ e)
            ∙ same
      ]
    where
      not-held-delete :
          (j k : Bytes) (d : D) → held db w j d ≡ false → held db w j (db.delete k d).0 ≡ false
      not-held-delete j k d h =
          ap (has_key j) (w.delete_entries k d)
          ∙ ground (arith, has_key-of_remove j k (w.entries d))

  forgotten-Complete : (s : Bytes) (d : D) → IsMac s → Complete d → Complete (forgotten s d)
  unfolding forgotten
  forgotten-Complete s d hs c = record {
    tidy = rw (w.delete_entries (snapshot_key s) (Maintenance.delete_packfiles db s d).0) (
        remove-Tidy (snapshot_key s) (w.entries (Maintenance.delete_packfiles db s d).0)
          (delete_packfiles-Tidy db w s d hs c.tidy));
    recorded = λ m ps hm known e.
        let both : (held db w (snapshot_key m) d && not (beq_bytes m s)) ≡ true =
          sym (snapshot-forgotten s m d hs hm c) ∙ known in
        All-map (Each (λ p. held db w (packfile_key p m) d ≡ true))
          (Each (λ p. held db w (packfile_key p m) (forgotten s d) ≡ true)) ps
          (λ r.
            Each-map (λ p. held db w (packfile_key p m) d ≡ true)
              (λ p. held db w (packfile_key p m) (forgotten s d) ≡ true) r
              (λ p h. packfile-forgotten s p m d hs hm c ∙ ground (arith, both)))
          (c.recorded m ps hm (ground (arith, both)) e);
  }

  record Forgets (ss : List Bytes) (d : D) (r : D × Result (Unit {0})) : Type 0 where
    works : r.1 ≡ ok tt
    complete : Complete r.0
    keeps :
        (m : Bytes)
        → IsMac m
        → among m ss ≡ false
        → held db w (snapshot_key m) d ≡ true
        → held db w (snapshot_key m) r.0 ≡ true

  forget_snapshots-step :
      (s : Bytes) (ss : List Bytes) (d : D)
      → IsMac s
      → Complete d
      → forget_snapshots db repo (s ∷ ss) d
        ≡ forget_snapshots db repo ss (if held db w (snapshot_key s) d then forgotten s d else d)
  unfolding forget_snapshots Maintenance.has_snapshot Keys.has Maintenance.delete_snapshot
      Keys.delete forgotten
  forget_snapshots-step s ss d hs c =
      rw (w.has_finds (snapshot_key s) d) (elim (Bool-cases (held db w (snapshot_key s) d)) [
        | inl known ↦ rw (
          known,
          (delete_packfiles-forgets db w s [] s d hs hs c.tidy).0,
          w.delete_works (snapshot_key s) (Maintenance.delete_packfiles db s d).0,
        )
        | inr new ↦ rw new
      ])

  forget_snapshots-Forgets :
      (ss : List Bytes) (d : D)
      → All IsMac ss
      → Complete d
      → Forgets ss d (forget_snapshots db repo ss d)
  forget_snapshots-Forgets [] d h c =
      unfold forget_snapshots in record { works = refl; complete = c; keeps = λ m i n e. e }
  forget_snapshots-Forgets (s ∷ ss) d (hs, h) c =
      subst (Forgets (s ∷ ss) d) (sym (forget_snapshots-step s ss d hs c))
        (elim (Bool-cases (held db w (snapshot_key s) d)) [
          | inl known ↦
              let rest =
                forget_snapshots-Forgets ss (forgotten s d) h (forgotten-Complete s d hs c) in
              rw known (record {
                works = rest.works;
                complete = rest.complete;
                keeps = λ m i n e.
                    rest.keeps m i (ground (arith, n))
                      (snapshot-forgotten s m d hs i c ∙ ground (arith, n, e));
              })
          | inr new ↦
              let rest = forget_snapshots-Forgets ss d h c in
              rw new (record {
                works = rest.works;
                complete = rest.complete;
                keeps = λ m i n e. rest.keeps m i (ground (arith, n)) e;
              })
        ])

  update_cache-Learns :
      (n : Named) (d : D)
      → Complete d
      → Complete (update_cache db repo d).0
        × ((update_cache db repo d).1 ≡ ok tt
            → (s : Bytes) → IsMac s
            → among s repo.list_snapshots ≡ true
            → among s repo.list_deleted_snapshots ≡ false
            → held db w (snapshot_key s) (update_cache db repo d).0 ≡ true)
  unfolding update_cache
  update_cache-Learns n d c =
      let l = add_snapshots-Learns n repo.list_snapshots d n.snapshots_named c in
      let d' = (add_snapshots db repo repo.list_snapshots d).0 in
      continue-rule
        (λ r.
          Complete r.0
          × (r.1 ≡ ok tt
              → (s : Bytes) → IsMac s
              → among s repo.list_snapshots ≡ true
              → among s repo.list_deleted_snapshots ≡ false
              → held db w (snapshot_key s) r.0 ≡ true))
        (add_snapshots db repo repo.list_snapshots d).1
        (λ _. forget_snapshots db repo repo.list_deleted_snapshots) d'
        (λ u ended.
          let f =
            forget_snapshots-Forgets repo.list_deleted_snapshots d' n.deleted_named l.complete in
          (
            f.complete,
            λ q s i a b. f.keeps s i b (
                of_among (λ m. held db w (snapshot_key m) d' ≡ true) s repo.list_snapshots
                  (l.knows ended) a),
          ))
        (λ x h. (l.complete, λ q. absurd (h tt q)))
    where
      of_among :
          (P : Bytes → Type 0) (s : Bytes) (ss : List Bytes) → All P ss → among s ss ≡ true → P s
      of_among P s [] a h = absurd (cc)
      of_among P s (x ∷ ss) (p, a) h = elim (Bool-cases (beq_bytes s x)) [
        | inl same ↦ rw (beq_bytes_eq s x same) p
        | inr other ↦ of_among P s ss a (ground (arith, h, other))
      ]

  -- `updateCache` keeps the cache complete, whether it ends with an error or not: each snapshot that the
  -- cache knows has all its packfiles in the cache, where the repository's snapshots and packfiles are MACs.
  pub update_cache-Complete : (n : Named) (d : D) → Complete d → Complete (update_cache db repo d).0
  update_cache-Complete n d c = (update_cache-Learns n d c).0

  pub update_cache-knows :
      (n : Named) (s : Bytes) (d : D)
      → Complete d
      → (update_cache db repo d).1 ≡ ok tt
      → IsMac s
      → among s repo.list_snapshots ≡ true
      → among s repo.list_deleted_snapshots ≡ false
      → held db w (snapshot_key s) (update_cache db repo d).0 ≡ true
  update_cache-knows n s d c ended hs old new = (update_cache-Learns n d c).1 ended s hs old new
