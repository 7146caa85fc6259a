-- ===== src/Maintenance/Records.antt =====
-- cmd/plakar/subcommands/maintenance/maintenance.go: a snapshot with its packfiles in the cache.
use plakar.Prelude.{
  subst, ◌≡◌, refl, sym, ap, ◌∙◌, true, false, ◌||◌, List, [], ◌∷◌, arith, All, All-map, Result, ok,
  err, panic, stuck,
}
use plakar.Text.{codes, hex}
use plakar.Text.Hex.{beq_bytes-hex}
use plakar.Text.Segments.{beq_bytes-append}
use plakar.Wire.{Bytes, beq_bytes, beq_bytes_eq, beq_bytes_refl}
use plakar.Caching.Database.{Table, LevelDb, Works, has_key, remove, has_key-insert}
use plakar.Caching.Keys
use plakar.Caching.Repository.Entries.{IsMac}
use plakar.Caching.Maintenance
use plakar.Caching.Maintenance.{wrote}
use plakar.Caching.Maintenance.Names.{
  snapshot_key, packfile_key, Name, of_packfile, Tidy, insert-Tidy,
}
use plakar.Caching.Maintenance.Deletes.{held}
use plakar.State.Exec.{Exec, ◌>>◌}
use plakar.Maintenance.{put_packfiles}

-- A result, where it is a value.
abbrev pub Each : (Bytes → Type 0) → Result Bytes → Type 0
Each P (ok p) = P p
Each P (err e) = Unit
Each P panic = Unit
Each P stuck = Unit

pub Each-map :
    (P Q : Bytes → Type 0) (r : Result Bytes) → ((p : Bytes) → P p → Q p) → Each P r → Each Q r
Each-map P Q (ok p) f h = f p h
Each-map P Q (err e) f h = tt
Each-map P Q panic f h = tt
Each-map P Q stuck f h = tt

pub snapshot_key-packfile_key :
    (m p s : Bytes) → beq_bytes (snapshot_key m) (packfile_key p s) ≡ false
unfolding beq_bytes
snapshot_key-packfile_key m p s = refl

pub packfile_key-snapshot_key :
    (p s m : Bytes) → beq_bytes (packfile_key p s) (snapshot_key m) ≡ false
unfolding beq_bytes
packfile_key-snapshot_key p s m = refl

pub snapshot_key-eq :
    (m s : Bytes) → IsMac m → IsMac s → beq_bytes (snapshot_key m) (snapshot_key s) ≡ beq_bytes m s
snapshot_key-eq m s h k =
    beq_bytes-append (codes "__snapshot__:") (hex m) (hex s) ∙ beq_bytes-hex m s h.bytes k.bytes

pub has_key-remove_other :
    (j k : Bytes) (t : Table) → beq_bytes j k ≡ false → has_key j (remove k t) ≡ has_key j t
unfolding has_key remove
has_key-remove_other j k [] h = refl
has_key-remove_other j k ((k', v) ∷ t) h =
    ground (arith, beq_bytes_eq k k', has_key-remove_other j k t h)

pub has_key-of_remove :
    (j k : Bytes) (t : Table) → has_key j (remove k t) ≡ true → has_key j t ≡ true
unfolding has_key remove
has_key-of_remove j k [] h = h
has_key-of_remove j k ((k', v) ∷ t) h = ground (arith, has_key-of_remove j k t)

module _ {D : Type 0} (db : LevelDb D) (w : Works db) where
  -- A database with more in it, which knows the same snapshots.
  pub record Adds (d d' : D) : Type 0 where
    pub tidy : Tidy (w.entries d')
    pub grows : (k : Bytes) → held db w k d ≡ true → held db w k d' ≡ true
    pub snapshots : (m : Bytes) → held db w (snapshot_key m) d' ≡ held db w (snapshot_key m) d

  pub held-put :
      (j k v : Bytes) (d : D) → held db w j (db.put k v d).0 ≡ (beq_bytes j k || held db w j d)
  held-put j k v d = ap (has_key j) (w.put_entries k v d) ∙ has_key-insert j k v (w.entries d)

  pub put-grows :
      (j k v : Bytes) (d : D) → held db w j d ≡ true → held db w j (db.put k v d).0 ≡ true
  put-grows j k v d h = held-put j k v d ∙ ground arith

  pub put-Tidy :
      (k v : Bytes) (d : D) → Name k → Tidy (w.entries d) → Tidy (w.entries (db.put k v d).0)
  put-Tidy k v d n h = rw (w.put_entries k v d) (insert-Tidy k v (w.entries d) n h)

  pub put_packfile-Adds :
      (s p : Bytes) (d : D)
      → IsMac s
      → IsMac p
      → Tidy (w.entries d)
      → Adds d (db.put (packfile_key p s) p d).0
  put_packfile-Adds s p d hs hp h = record {
    tidy = put-Tidy (packfile_key p s) p d (of_packfile p s hp hs refl) h;
    grows = λ k e. put-grows k (packfile_key p s) p d e;
    snapshots = λ m.
        held-put (snapshot_key m) (packfile_key p s) p d
        ∙ ap (λ b. b || held db w (snapshot_key m) d) (snapshot_key-packfile_key m p s);
  }

  pub Adds-trans : (a b c : D) → Adds a b → Adds b c → Adds a c
  Adds-trans a b c f g = record {
    tidy = g.tidy;
    grows = λ k e. g.grows k (f.grows k e);
    snapshots = λ m. g.snapshots m ∙ f.snapshots m;
  }

  abbrev pub Recorded : Bytes → D → List (Result Bytes) → Type 0
  Recorded s d ps = All (Each (λ p. held db w (packfile_key p s) d ≡ true)) ps

  pub Recorded-grows :
      (s : Bytes) (a b : D) (ps : List (Result Bytes))
      → ((k : Bytes) → held db w k a ≡ true → held db w k b ≡ true)
      → Recorded s a ps
      → Recorded s b ps
  Recorded-grows s a b ps g = All-map _ _ ps λ r.
      Each-map (λ p. held db w (packfile_key p s) a ≡ true)
        (λ p. held db w (packfile_key p s) b ≡ true) r (λ p. g (packfile_key p s))

  pub Adds-refl : (d : D) → Tidy (w.entries d) → Adds d d
  Adds-refl d h = record { tidy = h; grows = λ k e. e; snapshots = λ m. refl }

  pub wrote-put :
      {A : Type 0} (k v : Bytes) (next : Exec D A) (d : D)
      → (wrote (db.put k v) >> next) d ≡ next (db.put k v d).0
  wrote-put k v next d = rw (w.put_works k v d)

  abbrev pub Puts : Bytes → List (Result Bytes) → D → D × Result (Unit {0}) → Type 0
  Puts s ps d r = Adds d r.0 × (r.1 ≡ ok tt → Recorded s r.0 ps)

  -- The packfiles of a snapshot are all written, or there is an error.
  pub put_packfiles-Puts :
      (s : Bytes) (ps : List (Result Bytes)) (d : D)
      → IsMac s
      → All (Each IsMac) ps
      → Tidy (w.entries d)
      → Puts s ps d (put_packfiles db s ps d)
  unfolding put_packfiles Maintenance.put_packfile Keys.put
  put_packfiles-Puts s [] d hs hp h = (Adds-refl d h, λ e. tt)
  put_packfiles-Puts s (ok p ∷ ps) d hs (h1, hp) h =
      let step = put_packfile-Adds s p d hs h1 h in
      let d' = (db.put (packfile_key p s) p d).0 in
      let (a, r) = put_packfiles-Puts s ps d' hs hp step.tidy in
      let new =
        held-put (packfile_key p s) (packfile_key p s) p d
        ∙ rw (beq_bytes_refl (packfile_key p s)) in
      subst (Puts s (ok p ∷ ps) d) (sym (wrote-put (packfile_key p s) p (put_packfiles db s ps) d))
        (
          Adds-trans d d' (put_packfiles db s ps d').0 step a,
          λ e. (a.grows (packfile_key p s) new, r e),
        )
  put_packfiles-Puts s (err x ∷ ps) d hs hp h = (Adds-refl d h, λ e. cc)
  put_packfiles-Puts s (panic ∷ ps) d hs hp h = (Adds-refl d h, λ e. cc)
  put_packfiles-Puts s (stuck ∷ ps) d hs hp h = (Adds-refl d h, λ e. cc)
