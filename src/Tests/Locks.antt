-- ===== src/Tests/Locks.antt =====
-- repository/lock.go over locks in memory.
use plakar.Prelude.{
  ℕ, ◌≡◌, refl, sym, ap, ◌∙◌, inl, inr, Bool, true, false, Option, none, some, List, [], ◌∷◌, arith,
  ok, err, already_locked, if◌then◌else◌, Bool-cases, All, All-map,
}
use plakar.Wire.{Bytes, beq_bytes, beq_bytes_eq, beq_bytes_refl}
use plakar.Maintenance.{among}
use plakar.Locks.{Lock, LockStore, new_lock, is_stale, check_exclusive, check_shared}
use plakar.Locks.Exclusion.{Keeps, or_missing, check-stale}
use plakar.Locks.World.{World, idle, is_holding, Reach, start, next, install, look_around}
use plakar.Locks.Mutual.{exclusive_alone}

abbrev Locks : Type 0
Locks = List (Bytes × Lock)

find : Bytes → Locks → Option Lock
find id [] = none
find id ((j, l) ∷ ls) = if beq_bytes id j then some l else find id ls

remove : Bytes → Locks → Locks
remove id [] = []
remove id ((j, l) ∷ ls) = if beq_bytes j id then remove id ls else (j, l) ∷ remove id ls

abbrev ids_of : Locks → List Bytes
ids_of [] = []
ids_of ((j, l) ∷ ls) = j ∷ ids_of ls

abbrev in_memory : LockStore Locks
in_memory = record {
  put_lock = λ id l s. ((id, l) ∷ remove id s, none);
  get_locks = λ s. ok (ids_of s);
  get_lock = λ id s. or_missing (find id s);
  delete_lock = λ id s. (remove id s, none);
}

find-remove :
    (id j : Bytes) (s : Locks) → find j (remove id s) ≡ (if beq_bytes j id then none else find j s)
unfolding find remove
find-remove id j [] = elim (Bool-cases (beq_bytes j id)) [
  | inl same ↦ rw same
  | inr other ↦ rw other
]
find-remove id j ((i, l) ∷ s) = ground (
  arith,
  find-remove id j s,
  beq_bytes_eq i id,
  beq_bytes_eq j i,
  beq_bytes_eq j id,
  beq_bytes_refl j,
  beq_bytes_refl id,
)

find-put :
    (id j : Bytes) (l : Lock) (s : Locks)
    → find j ((id, l) ∷ remove id s) ≡ (if beq_bytes j id then some l else find j s)
unfolding find
find-put id j l s = elim (Bool-cases (beq_bytes j id)) [
  | inl same ↦ rw same
  | inr other ↦ rw other (find-remove id j s ∙ rw other)
]

found : (s : Locks) (id : Bytes) (l : Lock) → find id s ≡ some l → among id (ids_of s) ≡ true
unfolding find
found [] id l e = absurd (cc)
found ((j, m) ∷ s) id l e = elim (Bool-cases (beq_bytes id j)) [
  | inl same ↦ rw same
  | inr other ↦
      ground
        (arith, other, found s id l (sym (ap (λ b. if b then some m else find id s) other) ∙ e))
]

all_found : (s : Locks) → All (λ id. (l : Lock) × (find id s ≡ some l)) (ids_of s)
unfolding find
all_found [] = tt
all_found ((j, m) ∷ s) = (
  (m, rw (beq_bytes_refl j)),
  All-map (λ id. (l : Lock) × (find id s ≡ some l))
      (λ id. (l : Lock) × (find id ((j, m) ∷ s) ≡ some l)) (ids_of s)
      (λ id (l, e). elim (Bool-cases (beq_bytes id j)) [
        | inl same ↦ (m, rw same)
        | inr other ↦ (l, rw other e)
      ])
      (all_found s),
)

abbrev in_memory-Keeps : Keeps in_memory
in_memory-Keeps = record {
  locks = λ s id. find id s;
  ids = ids_of;
  put_works = λ id l s. refl;
  put_locks = λ id j l s. find-put id j l s;
  delete_works = λ id s. refl;
  delete_locks = λ id j s. find-remove id j s;
  get_is = λ id s. refl;
  lists = λ s. refl;
  complete = found;
  listed = all_found;
}

abbrev maintenance : Bytes
maintenance = 1 ∷ []

abbrev backup : Bytes
backup = 2 ∷ []

abbrev exclusive : Bytes → Bool
exclusive id = beq_bytes id maintenance

abbrev old : Lock
old = record { version = 0; timestamp = 0; hostname = []; exclusive = true }

check-stale_example :
    (check_exclusive in_memory 600000000000 maintenance (backup ∷ []) ((backup, old) ∷ []) ≡ (
      (in_memory.delete_lock maintenance (in_memory.delete_lock backup ((backup, old) ∷ [])).0).0,
      err already_locked,
    ))
    × (check_shared in_memory 600000000000 maintenance (backup ∷ []) ((backup, old) ∷ []) ≡ (
      (in_memory.delete_lock maintenance (in_memory.delete_lock backup ((backup, old) ∷ [])).0).0,
      err already_locked,
    ))
unfolding beq_bytes find is_stale
check-stale_example =
    check-stale in_memory in_memory-Keeps 600000000000 maintenance backup old []
      ((backup, old) ∷ []) refl refl refl refl

abbrev before_all : World Locks
before_all = record { store = []; phase = λ id. idle }

abbrev Locked : World Locks → Type 0
Locked = Reach in_memory in_memory-Keeps exclusive before_all

fresh :
    (id : Bytes) (l : Lock)
    → find id ((maintenance, new_lock 5 [] true) ∷ []) ≡ some l
    → is_stale 6 l ≡ false
unfolding find is_stale new_lock
fresh id l e = elim (Bool-cases (beq_bytes id maintenance)) [
  | inl same ↦ ground (arith, same, e, ap (λ (o : Option Lock). timestamp_of o) e)
  | inr other ↦ absurd (ground (arith, other, e))
]
  where
    timestamp_of : Option Lock → ℕ
    timestamp_of none = 0
    timestamp_of (some m) = m.timestamp

-- The maintenance writes its lock, sees no other and holds it.
maintenance_runs : (w : World Locks) × Locked w × (is_holding (w.phase maintenance) ≡ true)
unfolding beq_bytes remove plakar.Locks.look_exclusive check_exclusive
maintenance_runs = (
  _,
  next (next start (install maintenance 5 [] refl)) (look_around maintenance 6 refl fresh),
  refl,
)

exclusive_alone_example : ◌≡◌ {A = Bytes} maintenance maintenance
unfolding beq_bytes
exclusive_alone_example =
    exclusive_alone in_memory in_memory-Keeps exclusive before_all maintenance_runs.0 maintenance
      maintenance (λ id. refl) maintenance_runs.1 maintenance_runs.2 refl maintenance_runs.2
