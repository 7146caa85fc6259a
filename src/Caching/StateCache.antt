-- ===== src/Caching/StateCache.antt =====
-- caching/state.go: the interface `StateCache`. A cache of type `C` is passed along; a write gives the
-- new cache and an error or none; an iterator is the list of what it yields, key and data.
use plakar.Prelude.{Bool, ℕ, List, Option, Result, Error}
use plakar.Wire.{Bytes}

pub record StateCache (C : Type 0) : Type 0 where
  pub put_state : Bytes → Bytes → C → Result (C × Option Error)
  pub has_state : Bytes → C → Result Bool
  pub get_state : Bytes → C → Result Bytes
  pub del_state : Bytes → C → Result (C × Option Error)
  pub get_states : C → Result (List (Bytes × Bytes))
  pub put_delta : ℕ → Bytes → Bytes → Bytes → C → C × Option Error
  pub get_delta : ℕ → Bytes → C → List (Bytes × Bytes)
  pub has_delta : ℕ → Bytes → C → Result Bool
  pub get_deltas_by_type : ℕ → C → List (Bytes × Bytes)
  pub get_deltas : C → List (Bytes × Bytes)
  pub del_delta : ℕ → Bytes → Bytes → C → C × Option Error
  pub put_deleted : ℕ → Bytes → Bytes → C → C × Option Error
  pub has_deleted : ℕ → Bytes → C → Result Bool
  pub del_deleted : ℕ → Bytes → C → C × Option Error
  pub get_deleteds_by_type : ℕ → C → List (Bytes × Bytes)
  pub get_deleteds : C → List (Bytes × Bytes)
  pub put_packfile : Bytes → Bytes → C → C × Option Error
  pub del_packfile : Bytes → C → C × Option Error
  pub has_packfile : Bytes → C → Result Bool
  pub get_packfiles : C → List (Bytes × Bytes)
  pub put_configuration : Bytes → Bytes → C → C × Option Error
  pub get_configuration : Bytes → C → Result Bytes
  pub get_configurations : C → List Bytes
