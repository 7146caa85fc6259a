-- ===== src/Locks/World.antt =====
-- repository/lock.go, cmd/plakar/subcommands/maintenance/maintenance.go, snapshot/snapshot.go: maintenances and
-- backups that take locks at once.
use plakar.Prelude.{ℕ, ◌≡◌, Bool, true, false, some, if◌then◌else◌, Result, ok, err, panic, stuck}
use plakar.Wire.{Bytes, beq_bytes}
use plakar.State.Exec.{Exec}
use plakar.Locks.{Lock, LockStore, new_lock, look_exclusive, look_shared}
use plakar.Locks.Exclusion.{Keeps, Fresh}

-- Where an operation stands: before its lock is written, between that and the look at the other locks, and
-- after `Lock` has returned without an error.
pub data Phase : Type 0 where
  idle installed holding : Phase

abbrev pub is_idle : Phase → Bool
is_idle idle = true
is_idle _ = false

abbrev pub is_holding : Phase → Bool
is_holding holding = true
is_holding _ = false

abbrev pub phase_of : Result (Unit {0}) → Phase
phase_of (ok u) = holding
phase_of (err e) = idle
phase_of panic = idle
phase_of stuck = idle

abbrev pub at : (Bytes → Phase) → Bytes → Phase → Bytes → Phase
at f id p j = if beq_bytes j id then p else f j

pub record World (S : Type 0) : Type 0 where
  pub store : S
  pub phase : Bytes → Phase

module _ {S : Type 0} (st : LockStore S) (k : Keeps st) (exclusive : Bytes → Bool) where
  -- The second part of `Lock`, by the kind of the operation.
  abbrev pub look : ℕ → Bytes → Exec S (Unit {0})
  look now id = if exclusive id then look_exclusive st now id else look_shared st now id

  -- One step of one operation. No lock is stale when an operation looks.
  pub data Step (w : World S) : World S → Type 0 where
    install :
        (id : Bytes) (now : ℕ) (hostname : Bytes)
        → is_idle (w.phase id) ≡ true
        → Step w (record {
          store = (st.put_lock id (new_lock now hostname (exclusive id)) w.store).0;
          phase = at w.phase id installed;
        })
    look_around :
        (id : Bytes) (now : ℕ)
        → w.phase id ≡ installed
        → Fresh st k now id w.store
        → Step w (record {
          store = (look now id w.store).0;
          phase = at w.phase id (phase_of (look now id w.store).1);
        })
    refresh :
        (id : Bytes) (now : ℕ) (hostname : Bytes)
        → w.phase id ≡ holding
        → Step w
            (record w { store = (st.put_lock id (new_lock now hostname (exclusive id)) w.store).0 })
    release :
        (id : Bytes)
        → w.phase id ≡ holding
        → Step w (record { store = (st.delete_lock id w.store).0; phase = at w.phase id idle })

  pub data Reach (w : World S) : World S → Type 0 where
    start : Reach w w
    next : {u v : World S} → Reach w u → Step u v → Reach w v

  -- An operation that is not idle has its lock in the store, and an exclusive one that holds its lock is the
  -- only one that holds one.
  pub record Safe (w : World S) : Type 0 where
    pub present :
        (id : Bytes)
        → is_idle (w.phase id) ≡ false
        → (l : Lock) × (k.locks w.store id ≡ some l) × (l.exclusive ≡ exclusive id)
    pub alone :
        (e h : Bytes)
        → is_holding (w.phase e) ≡ true
        → exclusive e ≡ true
        → is_holding (w.phase h) ≡ true
        → beq_bytes h e ≡ true
