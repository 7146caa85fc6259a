-- ===== src/Caching/Maintenance/Names.antt =====
-- caching/maintenance.go: the keys of the cache, and a database that holds only such keys.
use plakar.Prelude.{◌≡◌, ap, ◌∙◌, inl, inr, true, [], ◌∷◌, Bool-cases, All}
use plakar.Text.{codes, hex, after_last, lt_bytes}
use plakar.Text.Segments.{after_last_segment}
use plakar.Text.Hex.{hex-NoColon}
use plakar.Wire.{Bytes, beq_bytes}
use plakar.Caching.Database.{Table, insert, remove, Increasing}
use plakar.Caching.Database.Order.{insert-Increasing}
use plakar.Caching.Keys.{prefixed}
use plakar.Caching.Repository.Entries.{IsMac}
use plakar.Caching.Maintenance.{used_by}

abbrev pub snapshot_key : Bytes → Bytes
snapshot_key snapshot = prefixed (codes "__snapshot__") (hex snapshot)

abbrev pub packfile_key : Bytes → Bytes → Bytes
packfile_key packfile snapshot = prefixed (codes "__packfile__") (used_by packfile snapshot)

-- A key that the cache writes.
pub data Name (k : Bytes) : Type 0 where
  of_snapshot : (s : Bytes) → IsMac s → k ≡ snapshot_key s → Name k
  of_packfile : (p s : Bytes) → IsMac p → IsMac s → k ≡ packfile_key p s → Name k

-- Entries in order, under keys of the cache.
pub record Tidy (t : Table) : Type 0 where
  pub increasing : Increasing t
  pub names : All (λ e. Name e.0) t

All-insert :
    (P : Bytes → Type 0) (k v : Bytes) (t : Table)
    → P k
    → All (λ e. P e.0) t
    → All (λ e. P e.0) (insert k v t)
unfolding insert
All-insert P k v [] h a = (h, tt)
All-insert P k v ((k', v') ∷ t) h (h', a) = elim (Bool-cases (beq_bytes k k')) [
  | inl same ↦ rw same (h, a)
  | inr other ↦ elim (Bool-cases (lt_bytes k k')) [
    | inl lt ↦ rw (other, lt) (h, (h', a))
    | inr ge ↦ rw (other, ge) (h', All-insert P k v t h a)
  ]
]

pub insert-Tidy : (k v : Bytes) (t : Table) → Name k → Tidy t → Tidy (insert k v t)
insert-Tidy k v t n h = record {
  increasing = insert-Increasing k v t h.increasing;
  names = All-insert Name k v t n h.names;
}

All-remove :
    (P : Bytes → Type 0) (k : Bytes) (t : Table)
    → All (λ e. P e.0) t
    → All (λ e. P e.0) (remove k t)
unfolding remove
All-remove P k [] a = tt
All-remove P k ((k', v') ∷ t) (h, a) = elim (Bool-cases (beq_bytes k k')) [
  | inl same ↦ rw same a
  | inr other ↦ rw other (h, All-remove P k t a)
]

remove-Increasing : (k : Bytes) (t : Table) → Increasing t → Increasing (remove k t)
unfolding remove
remove-Increasing k [] s = tt
remove-Increasing k ((k', v') ∷ t) (a, s) = elim (Bool-cases (beq_bytes k k')) [
  | inl same ↦ rw same s
  | inr other ↦ rw other (All-remove (λ j. lt_bytes k' j ≡ true) k t a, remove-Increasing k t s)
]

pub remove-Tidy : (k : Bytes) (t : Table) → Tidy t → Tidy (remove k t)
remove-Tidy k t h = record {
  increasing = remove-Increasing k t h.increasing;
  names = All-remove Name k t h.names;
}

pub after_last-snapshot_key :
    (s : Bytes) → IsMac s → after_last (snapshot_key s) (snapshot_key s) ≡ hex s
after_last-snapshot_key s h =
    after_last_segment (snapshot_key s) (codes "__snapshot__") (hex s) (hex-NoColon s h.bytes)

pub after_last-packfile_key :
    (p s : Bytes) → IsMac s → after_last (packfile_key p s) (packfile_key p s) ≡ hex s
after_last-packfile_key p s h =
    after_last_segment (packfile_key p s) (prefixed (codes "__packfile__") (hex p)) (hex s)
      (hex-NoColon s h.bytes)

-- The snapshot that a key is about stands in its last segment.
pub last_segment : (k : Bytes) → Name k → (s : Bytes) × IsMac s × (after_last k k ≡ hex s)
last_segment k (of_snapshot s h e) =
    (s, h, ap (λ j. after_last j j) e ∙ after_last-snapshot_key s h)
last_segment k (of_packfile p s hp h e) =
    (s, h, ap (λ j. after_last j j) e ∙ after_last-packfile_key p s h)
