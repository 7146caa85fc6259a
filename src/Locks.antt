-- ===== src/Locks.antt =====
-- repository/lock.go, and the two ways in which a lock of the repository is taken: exclusively, by `Lock` of
-- cmd/plakar/subcommands/maintenance/maintenance.go, and shared, by `Lock` of snapshot/snapshot.go.
pub mod Exclusion
pub mod World
pub mod Mutual
use plakar.Prelude.{
  ℕ, ◌-◌, ◌*◌, Bool, true, false, Option, none, some, List, [], ◌∷◌, leb, if◌then◌else◌, Result, ok,
  err, panic, stuck, Error, already_locked,
}
use plakar.Wire.{Bytes, beq_bytes}
use plakar.State.Exec.{Exec, pure, raise, lift, ◌>>=◌, ◌>>◌}
use plakar.Caching.Maintenance.{wrote}
use plakar.Maintenance.{ignored}

-- Times are in nanoseconds from a moment before all of them. The version is never set.
pub record Lock : Type 0 where
  pub version : ℕ
  pub timestamp : ℕ
  pub hostname : Bytes
  pub exclusive : Bool

abbrev pub lock_refresh_rate : ℕ
lock_refresh_rate = 300 * 1000000000

abbrev pub lock_ttl : ℕ
lock_ttl = 2 * lock_refresh_rate

unfoldable pub new_lock : ℕ → Bytes → Bool → Lock
new_lock now hostname exclusive = record {
  version = 0;
  timestamp = now;
  hostname = hostname;
  exclusive = exclusive;
}

unfoldable pub new_exclusive_lock : ℕ → Bytes → Lock
unfolding new_lock
new_exclusive_lock now hostname = new_lock now hostname true

unfoldable pub new_shared_lock : ℕ → Bytes → Lock
unfolding new_lock
new_shared_lock now hostname = new_lock now hostname false

unfoldable pub is_stale : ℕ → Lock → Bool
is_stale now lock = leb lock_ttl (now - lock.timestamp)

-- The repository's locks (repository/repository.go, `PutLock` and the three others), where a lock goes through
-- msgpack, the encoding and the framing of a resource.
pub record LockStore (S : Type 0) : Type 0 where
  pub put_lock : Bytes → Lock → S → S × Option Error
  pub get_locks : S → Result (List Bytes)
  pub get_lock : Bytes → S → Result Lock
  pub delete_lock : Bytes → S → S × Option Error

-- `DeleteLock` of the own lock with its error dropped, before an error is returned.
abbrev pub abort_on : {S A : Type 0} → LockStore S → Bytes → Result A → Exec S A
abort_on st own (ok a) = pure a
abort_on st own (err e) = ignored (wrote (st.delete_lock own)) >> raise e
abort_on st own panic = lift panic
abort_on st own stuck = lift stuck

module _ {S : Type 0} (st : LockStore S) (now : ℕ) (own : Bytes) where
  abbrev pub or_abort : {A : Type 0} → Exec S A → Exec S A
  or_abort m s = abort_on st own (m s).1 (m s).0

  -- A lock that is stale is deleted.
  unfoldable pub kick_out : Bytes → Lock → Exec S (Unit {0})
  kick_out id lock = if is_stale now lock then or_abort (wrote (st.delete_lock id)) else pure tt

  unfoldable pub refuse : Exec S (Unit {0})
  refuse = wrote (st.delete_lock own) >> raise already_locked

  -- The loop of the maintenance: any other lock is in its way.
  unfoldable pub check_exclusive : List Bytes → Exec S (Unit {0})
  unfolding kick_out refuse
  check_exclusive [] = pure tt
  check_exclusive (id ∷ more) =
      if beq_bytes id own
      then check_exclusive more
      else (do lock ← or_abort (λ s. (s, st.get_lock id s)); kick_out id lock; refuse)

  -- The loop of a backup: an exclusive lock is in its way.
  unfoldable pub check_shared : List Bytes → Exec S (Unit {0})
  unfolding kick_out refuse
  check_shared [] = pure tt
  check_shared (id ∷ more) = do
    lock ← or_abort (λ s. (s, st.get_lock id s))
    kick_out id lock
    if lock.exclusive then refuse else check_shared more

  -- What follows the writing of the own lock.
  unfoldable pub look_exclusive : Exec S (Unit {0})
  look_exclusive = do ids ← or_abort (λ s. (s, st.get_locks s)); check_exclusive ids

  unfoldable pub look_shared : Exec S (Unit {0})
  look_shared = do ids ← or_abort (λ s. (s, st.get_locks s)); check_shared ids

  -- `Lock` of the maintenance, without the refreshes that follow it.
  unfoldable pub lock_exclusive : Bytes → Exec S (Unit {0})
  unfolding look_exclusive new_exclusive_lock
  lock_exclusive hostname = do
    wrote (st.put_lock own (new_exclusive_lock now hostname))
    look_exclusive

  -- `Lock` of a snapshot.
  unfoldable pub lock_shared : Bytes → Exec S (Unit {0})
  unfolding look_shared new_shared_lock
  lock_shared hostname = do wrote (st.put_lock own (new_shared_lock now hostname)); look_shared
