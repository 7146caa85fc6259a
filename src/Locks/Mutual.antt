-- ===== src/Locks/Mutual.antt =====
-- repository/lock.go, cmd/plakar/subcommands/maintenance/maintenance.go, snapshot/snapshot.go: an exclusive lock
-- keeps the others out.
use plakar.Prelude.{
  ℕ, ◌≡◌, refl, sym, ap, ◌∙◌, inl, inr, Bool, true, false, some, arith, if◌then◌else◌, Bool-cases,
  Result, ok, err, subst, already_locked,
}
use plakar.Wire.{Bytes, beq_bytes, beq_bytes_eq, beq_bytes_refl}
use plakar.Locks.{Lock, LockStore, new_lock, look_exclusive, look_shared}
use plakar.Locks.Exclusion.{
  Keeps, Fresh, all_own, is_exclusive, no_exclusive, look_exclusive_lem, look_shared_lem,
  all_own-among, no_exclusive-among,
}
use plakar.Locks.World.{
  Phase, idle, installed, holding, is_idle, is_holding, phase_of, at, World, look, Step, install,
  look_around, refresh, release, Reach, start, next, Safe,
}

at_other :
    (f : Bytes → Phase) (id : Bytes) (p : Phase) (j : Bytes)
    → beq_bytes j id ≡ false
    → at f id p j ≡ f j
at_other f id p j h = rw h

at_same :
    (f : Bytes → Phase) (id : Bytes) (p : Phase) (j : Bytes)
    → beq_bytes j id ≡ true
    → at f id p j ≡ p
at_same f id p j h = rw h

-- Who holds a lock after a step of `id` that does not end in holding one.
holding-at :
    (f : Bytes → Phase) (id : Bytes) (p : Phase) (j : Bytes)
    → is_holding p ≡ false
    → is_holding (at f id p j) ≡ true
    → is_holding (f j) ≡ true
holding-at f id p j none_held h = ground (arith, h, none_held)

module _ {S : Type 0} (st : LockStore S) (k : Keeps st) (exclusive : Bytes → Bool) (w : World S)
    (safe : Safe st k exclusive w) where
  abbrev Present : S → (Bytes → Phase) → Type 0
  Present s f =
      (j : Bytes)
      → is_idle (f j) ≡ false
      → (l : Lock) × (k.locks s j ≡ some l) × (l.exclusive ≡ exclusive j)

  put-Present :
      (id : Bytes) (now : ℕ) (hostname : Bytes) (p : Phase)
      → Present (st.put_lock id (new_lock now hostname (exclusive id)) w.store).0 (at w.phase id p)
  unfolding new_lock
  put-Present id now hostname p j h = elim (Bool-cases (beq_bytes j id)) [
    | inl same ↦ (
      new_lock now hostname (exclusive id),
      k.put_locks id j (new_lock now hostname (exclusive id)) w.store ∙ rw same,
      ap exclusive (sym (beq_bytes_eq j id same)),
    )
    | inr other ↦
        let (l, e, x) = safe.present j (ap is_idle (sym (at_other w.phase id p j other)) ∙ h) in
        (l, k.put_locks id j (new_lock now hostname (exclusive id)) w.store ∙ rw other e, x)
  ]

  delete-Present : (id : Bytes) → Present (st.delete_lock id w.store).0 (at w.phase id idle)
  delete-Present id j h = elim (Bool-cases (beq_bytes j id)) [
    | inl same ↦ absurd (ground (arith, ap is_idle (at_same w.phase id idle j same), h))
    | inr other ↦
        let (l, e, x) = safe.present j (ap is_idle (sym (at_other w.phase id idle j other)) ∙ h) in
        (l, k.delete_locks id j w.store ∙ rw other e, x)
  ]

  quiet-alone :
      (id : Bytes) (p : Phase) (e h : Bytes)
      → is_holding p ≡ false
      → is_holding (at w.phase id p e) ≡ true
      → exclusive e ≡ true
      → is_holding (at w.phase id p h) ≡ true
      → beq_bytes h e ≡ true
  quiet-alone id p e h quiet a x b =
      safe.alone e h (holding-at w.phase id p e quiet a) x (holding-at w.phase id p h quiet b)

  -- The lock of an operation that holds one is in the store.
  holder :
      (j : Bytes)
      → is_holding (w.phase j) ≡ true
      → (l : Lock) × (k.locks w.store j ≡ some l) × (l.exclusive ≡ exclusive j)
  holder j h = safe.present j (by_phase (w.phase j) h)
    where
      by_phase : (p : Phase) → is_holding p ≡ true → is_idle p ≡ false
      by_phase idle h = cc
      by_phase installed h = refl
      by_phase holding h = refl

  -- What an operation learns when its look at the other locks ends well.
  exclusive-sees :
      (id j : Bytes)
      → all_own id (k.ids w.store) ≡ true
      → is_holding (w.phase j) ≡ true
      → beq_bytes j id ≡ true
  exclusive-sees id j h a =
      let (l, e, x) = holder j a in all_own-among id j (k.ids w.store) h (k.complete w.store j l e)

  shared-sees :
      (j : Bytes)
      → no_exclusive (k.locks w.store) (k.ids w.store) ≡ true
      → is_holding (w.phase j) ≡ true
      → exclusive j ≡ false
  shared-sees j h a =
      let (l, e, x) = holder j a in
      sym x
      ∙ sym (ap is_exclusive e)
      ∙ no_exclusive-among (k.locks w.store) j (k.ids w.store) h (k.complete w.store j l e)

  -- The look of `id` that ends well leaves `id` alone, or with shared locks only.
  abbrev Clear : Bytes → Type 0
  Clear id =
      (j : Bytes)
      → is_holding (w.phase j) ≡ true
      → beq_bytes j id ≡ false
      → (exclusive id ≡ false) × (exclusive j ≡ false)

  granted-Safe :
      (id : Bytes)
      → w.phase id ≡ installed
      → Clear id
      → Safe st k exclusive (record w { phase = at w.phase id holding })
  granted-Safe id i clear = record {
    present = λ j h. elim (Bool-cases (beq_bytes j id)) [
      | inl same ↦ safe.present j (ap is_idle (ap w.phase (beq_bytes_eq j id same) ∙ i))
      | inr other ↦ safe.present j (ap is_idle (sym (at_other w.phase id holding j other)) ∙ h)
    ];
    alone = λ e h a x b. elim (Bool-cases (beq_bytes e id)) [
      | inl mine ↦ elim (Bool-cases (beq_bytes h id)) [
        | inl also ↦
            ap (λ q. beq_bytes q e) (beq_bytes_eq h id also ∙ sym (beq_bytes_eq e id mine))
            ∙ beq_bytes_refl e
        | inr other ↦ absurd (
            ground (
              arith,
              x,
              ap exclusive (beq_bytes_eq e id mine),
              (clear h (ap is_holding (sym (at_other w.phase id holding h other)) ∙ b) other).0,
            ))
      ]
      | inr theirs ↦ elim (Bool-cases (beq_bytes h id)) [
        | inl mine ↦ absurd (
            ground (
              arith,
              x,
              (clear e (ap is_holding (sym (at_other w.phase id holding e theirs)) ∙ a) theirs).1,
            ))
        | inr other ↦
            safe.alone e h (ap is_holding (sym (at_other w.phase id holding e theirs)) ∙ a) x
              (ap is_holding (sym (at_other w.phase id holding h other)) ∙ b)
      ]
    ];
  }

  refused-Safe :
      (id : Bytes)
      → Safe st k exclusive
          (record { store = (st.delete_lock id w.store).0; phase = at w.phase id idle })
  refused-Safe id = record {
    present = delete-Present id;
    alone = λ e h a x b. quiet-alone id idle e h refl a x b;
  }

  abbrev After : Bytes → S × Result (Unit {0}) → Type 0
  After id r = Safe st k exclusive (record { store = r.0; phase = at w.phase id (phase_of r.1) })

  After-decided :
      (id : Bytes) (b : Bool)
      → w.phase id ≡ installed
      → (b ≡ true → Clear id)
      → After id
          (if b then (w.store, ok tt) else ((st.delete_lock id w.store).0, err already_locked))
  After-decided id true i c = granted-Safe id i (c refl)
  After-decided id false i c = refused-Safe id

  look-After :
      (id : Bytes) (now : ℕ)
      → w.phase id ≡ installed
      → Fresh st k now id w.store
      → After id (look st k exclusive now id w.store)
  look-After id now i f = elim (Bool-cases (exclusive id)) [
    | inl ex ↦
        subst (After id)
          (sym (
            ap (λ b. (if b then look_exclusive st now id else look_shared st now id) w.store) ex
            ∙ look_exclusive_lem st k now id w.store f))
          (After-decided id (all_own id (k.ids w.store)) i
            (λ all j a other. absurd (ground (arith, other, exclusive-sees id j all a))))
    | inr sh ↦
        subst (After id)
          (sym (
            ap (λ b. (if b then look_exclusive st now id else look_shared st now id) w.store) sh
            ∙ look_shared_lem st k now id w.store f))
          (After-decided id (no_exclusive (k.locks w.store) (k.ids w.store)) i
            (λ all j a other. (sh, shared-sees j all a)))
  ]

module _ {S : Type 0} (st : LockStore S) (k : Keeps st) (exclusive : Bytes → Bool) where
  at_self : (f : Bytes → Phase) (id : Bytes) (p : Phase) (j : Bytes) → f id ≡ p → at f id p j ≡ f j
  at_self f id p j h = elim (Bool-cases (beq_bytes j id)) [
    | inl same ↦ at_same f id p j same ∙ sym (ap f (beq_bytes_eq j id same) ∙ h)
    | inr other ↦ at_other f id p j other
  ]

  Step-Safe :
      {u v : World S} → Step st k exclusive u v → Safe st k exclusive u → Safe st k exclusive v
  Step-Safe {u} (install id now hostname i) s = record {
    present = put-Present st k exclusive u s id now hostname installed;
    alone = λ e h a x b. quiet-alone st k exclusive u s id installed e h refl a x b;
  }
  Step-Safe {u} (look_around id now i f) s = look-After st k exclusive u s id now i f
  Step-Safe {u} (refresh id now hostname i) s = record {
    present = λ j h.
        put-Present st k exclusive u s id now hostname holding j
          (ap is_idle (at_self u.phase id holding j i) ∙ h);
    alone = s.alone;
  }
  Step-Safe {u} (release id i) s = refused-Safe st k exclusive u s id

  Reach-Safe :
      {u v : World S} → Safe st k exclusive u → Reach st k exclusive u v → Safe st k exclusive v
  Reach-Safe s start = s
  Reach-Safe s (next r x) = Step-Safe x (Reach-Safe s r)

  -- Whatever maintenances and backups do one after the other, from a moment at which none of them has written
  -- its lock, a maintenance that holds its lock is the only one that holds one: no other maintenance and no
  -- backup does, while no lock is stale when an operation looks at the locks, and the store keeps the locks.
  pub exclusive_alone :
      (w w' : World S) (e h : Bytes)
      → ((id : Bytes) → w.phase id ≡ idle)
      → Reach st k exclusive w w'
      → is_holding (w'.phase e) ≡ true
      → exclusive e ≡ true
      → is_holding (w'.phase h) ≡ true
      → h ≡ e
  exclusive_alone w w' e h quiet r a x b =
      let s : Safe st k exclusive w = record {
        present = λ id n. absurd (ground (arith, ap is_idle (quiet id), n));
        alone = λ p q c y z. absurd (ground (arith, ap is_holding (quiet p), c));
      } in
      beq_bytes_eq h e ((Reach-Safe s r).alone e h a x b)
