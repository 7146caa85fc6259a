-- ===== src/Caching/Repository.antt =====
-- caching/repository.go: the cache of a repository's state in a database. Cookies, which are files, are
-- not modelled.
pub mod Entries
pub mod Fits
pub mod Selects
pub mod Points
pub mod Writes
pub mod Backs
use plakar.Prelude.{
  ℕ, zero, suc, ◌+◌, ◌-◌, ◌*◌, ◌/◌, ◌%◌, ◌^◌, ◌≤◌, ◌<◌, ◌≡◌, refl, sym, ap, ◌∙◌, ◌≢◌, ◌⊎◌, inl, inr,
  Bool, true, false, not, ◌&&◌, ◌||◌, Option, none, some, List, [], ◌∷◌, ◌++◌, map, arith,
  append_assoc, append-nil, length, take, drop, get_elem?, ltb, leb, ◌==◌, if◌then◌else◌,
  Bool-cases, All, All-append, All-map, Result, ok, err, panic, stuck, guard, ensure, ◌>>=◌, ◌>>◌,
  Error, length-append, not_found, bad_hex,
}
use plakar.Text.{codes, colon, hex, decode_hex, decimal}
use plakar.Wire.{Bytes}
use plakar.Caching.Database.{Table, LevelDb}
use plakar.Caching.Database.Prefix.{run_of}
use plakar.Caching.Keys.{typed, located, put, get, has, delete, get_objects}
use plakar.Caching.StateCache.{StateCache}

-- `hex.Decode(stateID[:], …)` of what follows the prefix: an error, a panic where it does not fit, and
-- zeros behind a shorter one.
abbrev pub zeros_behind : ℕ → Bytes → Bytes
zeros_behind zero m = []
zeros_behind (suc n) [] = 0 ∷ zeros_behind n []
zeros_behind (suc n) (b ∷ m) = b ∷ zeros_behind n m

abbrev pub state_id : Bytes × Option Error → Result Bytes
state_id (m, none) = do ensure (leb (length m) 32); ok (zeros_behind 32 m)
state_id (m, some e) = do ensure (leb (length m) 32); err e

-- The map that `GetStates` makes: a later entry of one ID takes the place of an earlier one, which two
-- keys have only where one is shorter. The values are copies here; the code keeps the iterator's slices.
unfoldable pub states_of : ℕ → Table → Result Table
states_of n [] = ok []
states_of n ((k, v) ∷ t) = do
  id ← state_id (decode_hex (drop n k))
  rest ← states_of n t
  ok ((id, v) ∷ rest)

module _ {D : Type 0} (db : LevelDb D) where
  unfoldable pub put_state : Bytes → Bytes → D → D × Option Error
  put_state id buf = put db (codes "__state__") (hex id) buf

  unfoldable pub has_state : Bytes → D → Result Bool
  has_state id = has db (codes "__state__") (hex id)

  unfoldable pub get_state : Bytes → D → Result Bytes
  get_state id = get db (codes "__state__") (hex id)

  unfoldable pub del_state : Bytes → D → D × Option Error
  del_state id = delete db (codes "__state__") (hex id)

  unfoldable pub get_states : D → Result Table
  get_states d = states_of 10 (run_of (codes "__state__:") (db.seek (codes "__state__:") d))

  unfoldable pub get_delta : ℕ → Bytes → D → Table
  get_delta type mac =
      get_objects db (codes "__delta__:" ++ (decimal type ++ colon ∷ (hex mac ++ colon ∷ [])))

  unfoldable pub has_delta : ℕ → Bytes → D → Result Bool
  has_delta type mac = has db (codes "__delta__") (typed type mac)

  unfoldable pub put_delta : ℕ → Bytes → Bytes → Bytes → D → D × Option Error
  put_delta type mac packfile buf = put db (codes "__delta__") (located type mac packfile) buf

  unfoldable pub get_deltas_by_type : ℕ → D → Table
  get_deltas_by_type type = get_objects db (codes "__delta__:" ++ (decimal type ++ colon ∷ []))

  unfoldable pub get_deltas : D → Table
  get_deltas = get_objects db (codes "__delta__:")

  unfoldable pub del_delta : ℕ → Bytes → Bytes → D → D × Option Error
  del_delta type mac packfile = delete db (codes "__delta__") (located type mac packfile)

  unfoldable pub put_deleted : ℕ → Bytes → Bytes → D → D × Option Error
  put_deleted type mac buf = put db (codes "__deleted__") (typed type mac) buf

  unfoldable pub has_deleted : ℕ → Bytes → D → Result Bool
  has_deleted type mac = has db (codes "__deleted__") (typed type mac)

  unfoldable pub get_deleteds : D → Table
  get_deleteds = get_objects db (codes "__deleted__:")

  unfoldable pub get_deleteds_by_type : ℕ → D → Table
  get_deleteds_by_type type = get_objects db (codes "__deleted__:" ++ (decimal type ++ colon ∷ []))

  unfoldable pub del_deleted : ℕ → Bytes → D → D × Option Error
  del_deleted type mac = delete db (codes "__deleted__") (typed type mac)

  unfoldable pub put_packfile : Bytes → Bytes → D → D × Option Error
  put_packfile packfile buf = put db (codes "__packfile__") (hex packfile) buf

  unfoldable pub has_packfile : Bytes → D → Result Bool
  has_packfile packfile = has db (codes "__packfile__") (hex packfile)

  unfoldable pub del_packfile : Bytes → D → D × Option Error
  del_packfile packfile = delete db (codes "__packfile__") (hex packfile)

  unfoldable pub get_packfiles : D → Table
  get_packfiles = get_objects db (codes "__packfile__:")

  unfoldable pub put_configuration : Bytes → Bytes → D → D × Option Error
  put_configuration key buf = put db (codes "__configuration__") key buf

  unfoldable pub get_configuration : Bytes → D → Result Bytes
  get_configuration key = get db (codes "__configuration__") key

  unfoldable pub get_configurations : D → List Bytes
  get_configurations d =
      map (λ e. e.1) (run_of (codes "__configuration__:") (db.seek (codes "__configuration__:") d))

  -- The cache as the interface that a state uses.
  unfoldable pub repository_cache : StateCache D
  repository_cache = record {
    put_state = λ id buf d. ok (put_state id buf d);
    has_state = has_state;
    get_state = get_state;
    del_state = λ id d. ok (del_state id d);
    get_states = get_states;
    put_delta = put_delta;
    get_delta = get_delta;
    has_delta = has_delta;
    get_deltas_by_type = get_deltas_by_type;
    get_deltas = get_deltas;
    del_delta = del_delta;
    put_deleted = put_deleted;
    has_deleted = has_deleted;
    del_deleted = del_deleted;
    get_deleteds_by_type = get_deleteds_by_type;
    get_deleteds = get_deleteds;
    put_packfile = put_packfile;
    del_packfile = del_packfile;
    has_packfile = has_packfile;
    get_packfiles = get_packfiles;
    put_configuration = put_configuration;
    get_configuration = get_configuration;
    get_configurations = get_configurations;
  }
