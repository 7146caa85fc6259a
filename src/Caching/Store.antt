-- ===== src/Caching/Store.antt =====
-- caching/store.go: the nodes of a B+tree in a database, under their decimal index.
pub mod Nodes
use plakar.Prelude.{
  ℕ, zero, suc, ◌+◌, ◌-◌, ◌*◌, ◌/◌, ◌%◌, ◌^◌, ◌≤◌, ◌<◌, ◌≡◌, refl, sym, ap, ◌∙◌, ◌≢◌, ◌⊎◌, inl, inr,
  Bool, true, false, not, ◌&&◌, ◌||◌, Option, none, some, List, [], ◌∷◌, ◌++◌, map, arith,
  append_assoc, append-nil, length, take, drop, get_elem?, ltb, leb, ◌==◌, if◌then◌else◌,
  Bool-cases, All, All-append, All-map, Result, ok, err, panic, stuck, guard, ensure, ◌>>=◌, ◌>>◌,
  Error, length-append,
}
use plakar.Text.{colon, decimal}
use plakar.Wire.{Bytes}
use plakar.Caching.Database.{LevelDb}
use plakar.Caching.Keys
use plakar.BTree.{Node, Storer}

-- msgpack, which is not part of the repository: what `Unmarshal` leaves in the node, and its error.
pub record Msgpack (N : Type 0) : Type 0 where
  pub marshal : N → Result Bytes
  pub unmarshal : Bytes → N × Option Error

-- `idx` counts the nodes that were put; the prefix and the cache's database go with it. It is below
-- 2 ^ 63, where `int` ends.
pub record DbStore (D : Type 0) : Type 0 where
  pub prefix : Bytes
  pub idx : ℕ
  pub cache : D

abbrev pub or_error {ℓ} : {A : Type ℓ} → Option Error → A → Result A
or_error none a = ok a
or_error (some e) a = err e

module _ {D K V : Type 0} (db : LevelDb D) (m : Msgpack (Node K ℕ V)) where
  -- The error of `Unmarshal` is dropped.
  unfoldable pub get_node : ℕ → DbStore D → Result (Node K ℕ V)
  get_node idx ds = do
    bytes ← Keys.get db ds.prefix (decimal idx) ds.cache
    ok (m.unmarshal bytes).0

  unfoldable pub update_node : ℕ → Node K ℕ V → DbStore D → Result (DbStore D)
  update_node idx node ds = do
    bytes ← m.marshal node
    let (cache, e) = Keys.put db ds.prefix (decimal idx) bytes ds.cache
    or_error e (record ds { cache = cache })

  -- What follows `Marshal`, with `idx` incremented.
  unfoldable pub put_bytes : Result Bytes → DbStore D → DbStore D × Result ℕ
  put_bytes (ok bytes) ds =
      let (cache, e) = Keys.put db ds.prefix (decimal ds.idx) bytes ds.cache in
      (record ds { cache = cache }, or_error e ds.idx)
  put_bytes (err e) ds = (ds, err e)
  put_bytes panic ds = (ds, panic)
  put_bytes stuck ds = (ds, stuck)

  -- The store comes back beside the result, as `idx` stays incremented when `Put` fails.
  unfoldable pub put_node : Node K ℕ V → DbStore D → DbStore D × Result ℕ
  unfolding put_bytes
  put_node node ds = put_bytes (m.marshal node) (record ds { idx = ds.idx + 1 })

  abbrev pub with_store : DbStore D → Result (Node K ℕ V) → Result (Node K ℕ V × DbStore D)
  with_store ds r = do node ← r; ok (node, ds)

  abbrev pub when_put : DbStore D × Result ℕ → Result (ℕ × DbStore D)
  when_put (ds, r) = do idx ← r; ok (idx, ds)

  -- The store as the interface that a tree uses, where a failed `Put` gives only its error.
  unfoldable pub db_store : Storer (DbStore D) K ℕ V
  db_store = record {
    get = λ idx ds. with_store ds (get_node idx ds);
    update = update_node;
    put = λ node ds. when_put (put_node node ds);
  }
