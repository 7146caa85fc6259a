-- ===== src/Tests/Memory.antt =====
-- A cache in memory for the tests of the state: one association list per kind of entry, the newest first.
use plakar.Prelude.{
  ◌≡◌, Bool, true, false, List, [], ◌∷◌, ◌++◌, if◌then◌else◌, Option, none, some, Result, ok, err,
  not_found, length, take,
}
use plakar.Wire.{Bytes, beq_bytes, beq_bytes_refl}
use plakar.Caching.StateCache.{StateCache}

abbrev pub Table : Type 0
Table = List (Bytes × Bytes)

pub record Memory : Type 0 where
  pub states : Table
  pub deltas : Table
  pub deleteds : Table
  pub packfiles : Table
  pub configurations : Table

abbrev pub empty : Memory
empty = record { states = []; deltas = []; deleteds = []; packfiles = []; configurations = [] }

abbrev pub find : Bytes → Table → Option Bytes
find k [] = none
find k ((k', v) ∷ more) = if beq_bytes k' k then some v else find k more

abbrev pub remove : Bytes → Table → Table
remove k [] = []
remove k ((k', v) ∷ more) = if beq_bytes k' k then remove k more else (k', v) ∷ remove k more

-- The entries whose key begins with `k`.
abbrev pub under : Bytes → Table → Table
under k [] = []
under k ((k', v) ∷ more) =
    if beq_bytes (take (length k) k') k then (k', v) ∷ under k more else under k more

abbrev pub has : Bytes → Table → Bool
has k [] = false
has k ((k', v) ∷ more) = if beq_bytes k' k then true else has k more

abbrev or_empty : Option Bytes → Bytes
or_empty none = []
or_empty (some v) = v

abbrev or_missing : Option Bytes → Result Bytes
or_missing none = err not_found
or_missing (some v) = ok v

abbrev values : Table → List Bytes
values [] = []
values ((k, v) ∷ more) = v ∷ values more

abbrev pub memory : StateCache Memory
memory = record {
  put_state = λ k v c. ok (record c { states = (k, v) ∷ c.states }, none);
  has_state = λ k c. ok (has k c.states);
  get_state = λ k c. or_missing (find k c.states);
  del_state = λ k c. ok (record c { states = remove k c.states }, none);
  get_states = λ c. ok c.states;
  put_delta = λ t m p v c. (record c { deltas = (t ∷ (m ++ p), v) ∷ c.deltas }, none);
  get_delta = λ t m c. under (t ∷ m) c.deltas;
  has_delta = λ t m c. ok (has (t ∷ m) c.deltas);
  get_deltas_by_type = λ t c. under (t ∷ []) c.deltas;
  get_deltas = λ c. c.deltas;
  del_delta = λ t m p c. (record c { deltas = remove (t ∷ (m ++ p)) c.deltas }, none);
  put_deleted = λ t m v c. (record c { deleteds = (t ∷ m, v) ∷ c.deleteds }, none);
  has_deleted = λ t m c. ok (has (t ∷ m) c.deleteds);
  del_deleted = λ t m c. (record c { deleteds = remove (t ∷ m) c.deleteds }, none);
  get_deleteds_by_type = λ t c. under (t ∷ []) c.deleteds;
  get_deleteds = λ c. c.deleteds;
  put_packfile = λ p v c. (record c { packfiles = (p, v) ∷ c.packfiles }, none);
  del_packfile = λ p c. (record c { packfiles = remove p c.packfiles }, none);
  has_packfile = λ p c. ok (has p c.packfiles);
  get_packfiles = λ c. c.packfiles;
  put_configuration = λ k v c. (record c { configurations = (k, v) ∷ c.configurations }, none);
  get_configuration = λ k c. ok (or_empty (find k c.configurations));
  get_configurations = λ c. values c.configurations;
}

-- A cache like it that reports a missing configuration.
abbrev pub strict_memory : StateCache Memory
strict_memory = record memory { get_configuration = λ k c. or_missing (find k c.configurations) }

-- A cache like it whose packfiles cannot be looked up.
abbrev pub broken_memory : StateCache Memory
broken_memory = record memory { has_packfile = λ p c. err not_found }

pub has_put : (k v : Bytes) (t : Table) → has k ((k, v) ∷ t) ≡ true
has_put k v t = rw (beq_bytes_refl k)

pub get_put :
    (k v : Bytes) (c : Memory)
    → memory.get_configuration k (memory.put_configuration k v c).0 ≡ ok v
get_put k v c = rw (beq_bytes_refl k)
