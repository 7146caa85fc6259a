-- ===== src/Locks/Exclusion.antt =====
-- repository/lock.go, cmd/plakar/subcommands/maintenance/maintenance.go, snapshot/snapshot.go: who gets a lock
-- that others hold.
use plakar.Prelude.{
  ℕ, ◌≡◌, refl, ap, ◌∙◌, inl, inr, Bool, true, false, not, ◌&&◌, Option, none, some, List, [], ◌∷◌,
  arith, if◌then◌else◌, Bool-cases, All, Result, ok, err, not_found, already_locked,
}
use plakar.Wire.{Bytes, beq_bytes, beq_bytes_eq}
use plakar.Maintenance.{among}
use plakar.Locks.{
  Lock, LockStore, is_stale, kick_out, refuse, check_exclusive, check_shared, look_exclusive,
  look_shared,
}

abbrev pub or_missing : Option Lock → Result Lock
or_missing none = err not_found
or_missing (some l) = ok l

-- A store that keeps the locks that it is given and does not fail: one lock under each ID.
pub record Keeps {S : Type 0} (st : LockStore S) : Type 0 where
  pub locks : S → Bytes → Option Lock
  pub ids : S → List Bytes
  pub put_works : (id : Bytes) (l : Lock) (s : S) → (st.put_lock id l s).1 ≡ none
  pub put_locks :
      (id j : Bytes) (l : Lock) (s : S)
      → locks (st.put_lock id l s).0 j ≡ (if beq_bytes j id then some l else locks s j)
  pub delete_works : (id : Bytes) (s : S) → (st.delete_lock id s).1 ≡ none
  pub delete_locks :
      (id j : Bytes) (s : S)
      → locks (st.delete_lock id s).0 j ≡ (if beq_bytes j id then none else locks s j)
  pub get_is : (id : Bytes) (s : S) → st.get_lock id s ≡ or_missing (locks s id)
  pub lists : (s : S) → st.get_locks s ≡ ok (ids s)
  pub complete : (s : S) (id : Bytes) (l : Lock) → locks s id ≡ some l → among id (ids s) ≡ true
  pub listed : (s : S) → All (λ id. (l : Lock) × (locks s id ≡ some l)) (ids s)

abbrev pub all_own : Bytes → List Bytes → Bool
all_own own [] = true
all_own own (id ∷ ids) = beq_bytes id own && all_own own ids

abbrev pub is_exclusive : Option Lock → Bool
is_exclusive none = false
is_exclusive (some l) = l.exclusive

abbrev pub no_exclusive : (Bytes → Option Lock) → List Bytes → Bool
no_exclusive locks [] = true
no_exclusive locks (id ∷ ids) = not (is_exclusive (locks id)) && no_exclusive locks ids

module _ {S : Type 0} (st : LockStore S) (k : Keeps st) (now : ℕ) (own : Bytes) where
  -- No lock is stale: those who hold one have refreshed it.
  abbrev pub Fresh : S → Type 0
  Fresh s = (id : Bytes) (l : Lock) → k.locks s id ≡ some l → is_stale now l ≡ false

  abbrev Present : S → List Bytes → Type 0
  Present s ids = All (λ id. (l : Lock) × (k.locks s id ≡ some l)) ids

  refuse_lem : (s : S) → refuse st now own s ≡ ((st.delete_lock own s).0, err already_locked)
  unfolding refuse
  refuse_lem s = rw (k.delete_works own s)

  pub check_exclusive_lem :
      (ids : List Bytes) (s : S)
      → Fresh s
      → Present s ids
      → check_exclusive st now own ids s
        ≡ (if all_own own ids then (s, ok tt) else ((st.delete_lock own s).0, err already_locked))
  unfolding check_exclusive kick_out
  check_exclusive_lem [] s f p = refl
  check_exclusive_lem (id ∷ ids) s f ((l, e), p) = elim (Bool-cases (beq_bytes id own)) [
    | inl mine ↦ rw mine (check_exclusive_lem ids s f p)
    | inr other ↦ rw (other, k.get_is id s, e, f id l e) (refuse_lem s)
  ]

  pub check_shared_lem :
      (ids : List Bytes) (s : S)
      → Fresh s
      → Present s ids
      → check_shared st now own ids s ≡ (
          if no_exclusive (k.locks s) ids
          then (s, ok tt)
          else ((st.delete_lock own s).0, err already_locked))
  unfolding check_shared kick_out
  check_shared_lem [] s f p = refl
  check_shared_lem (id ∷ ids) s f ((l, e), p) = elim (Bool-cases l.exclusive) [
    | inl held ↦ rw (k.get_is id s, e, f id l e, held) (refuse_lem s)
    | inr shared ↦ rw (k.get_is id s, e, f id l e, shared) (check_shared_lem ids s f p)
  ]

  pub look_exclusive_lem :
      (s : S)
      → Fresh s
      → look_exclusive st now own s ≡ (
          if all_own own (k.ids s)
          then (s, ok tt)
          else ((st.delete_lock own s).0, err already_locked))
  unfolding look_exclusive
  look_exclusive_lem s f = rw (k.lists s) (check_exclusive_lem (k.ids s) s f (k.listed s))

  pub look_shared_lem :
      (s : S)
      → Fresh s
      → look_shared st now own s ≡ (
          if no_exclusive (k.locks s) (k.ids s)
          then (s, ok tt)
          else ((st.delete_lock own s).0, err already_locked))
  unfolding look_shared
  look_shared_lem s f = rw (k.lists s) (check_shared_lem (k.ids s) s f (k.listed s))

  -- A stale lock is deleted, and is in the way all the same: where the first lock that is read is another one,
  -- stale and exclusive, neither the maintenance nor a backup takes its lock. Either deletes the stale lock
  -- and then its own, and ends in an error.
  pub check-stale :
      (id : Bytes) (l : Lock) (more : List Bytes) (s : S)
      → beq_bytes id own ≡ false
      → k.locks s id ≡ some l
      → is_stale now l ≡ true
      → l.exclusive ≡ true
      → (check_exclusive st now own (id ∷ more) s
          ≡ ((st.delete_lock own (st.delete_lock id s).0).0, err already_locked))
        × (check_shared st now own (id ∷ more) s
            ≡ ((st.delete_lock own (st.delete_lock id s).0).0, err already_locked))
  unfolding check_exclusive check_shared kick_out
  check-stale id l more s other e stale ex =
      let last = refuse_lem (st.delete_lock id s).0 in
      (
        rw (other, k.get_is id s, e, stale, k.delete_works id s) last,
        rw (k.get_is id s, e, stale, k.delete_works id s, ex) last,
      )

pub all_own-among :
    (own id : Bytes) (ids : List Bytes)
    → all_own own ids ≡ true
    → among id ids ≡ true
    → beq_bytes id own ≡ true
all_own-among own id [] h m = absurd (cc)
all_own-among own id (j ∷ ids) h m = elim (Bool-cases (beq_bytes id j)) [
  | inl same ↦ ap (λ b. beq_bytes b own) (beq_bytes_eq id j same) ∙ ground (arith, h)
  | inr other ↦ all_own-among own id ids (ground (arith, h)) (ground (arith, m, other))
]

pub no_exclusive-among :
    (locks : Bytes → Option Lock) (id : Bytes) (ids : List Bytes)
    → no_exclusive locks ids ≡ true
    → among id ids ≡ true
    → is_exclusive (locks id) ≡ false
no_exclusive-among locks id [] h m = absurd (cc)
no_exclusive-among locks id (j ∷ ids) h m = elim (Bool-cases (beq_bytes id j)) [
  | inl same ↦ ap (λ b. is_exclusive (locks b)) (beq_bytes_eq id j same) ∙ ground (arith, h)
  | inr other ↦ no_exclusive-among locks id ids (ground (arith, h)) (ground (arith, m, other))
]
