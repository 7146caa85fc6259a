-- ===== src/BTree.antt =====
-- btree/btree.go: a B+tree over a store of nodes. `Storer` is what the tree sees of the store and of
-- the cache in front of it, which is in BTree/Cache; a node is a value, written back by `update`. The
-- locks are not modelled; `compare` is the function that a tree is created with.
pub mod Cache
pub mod Search
pub mod Split
pub mod Leaf
pub mod Insertion
pub mod Verify
pub mod Scan
use Prim.Native.Nat.{Ordering}
use plakar.Versioning.{new_version}
use plakar.Prelude.{
  ℕ, zero, suc, ◌+◌, ◌-◌, ◌*◌, ◌/◌, ◌%◌, ◌^◌, ◌≤◌, ◌<◌, ◌≡◌, refl, sym, ap, ◌∙◌, ◌≢◌, ◌⊎◌, inl, inr,
  Bool, true, false, not, ◌&&◌, ◌||◌, Option, none, some, List, [], ◌∷◌, ◌++◌, arith, length, take,
  drop, get_elem?, ltb, leb, ◌==◌, if◌then◌else◌, Result, ok, err, panic, stuck, Error,
  already_exists, ◌>>=◌, ◌>>◌, ensure,
}

pub record Node {ℓ} (K P V : Type ℓ) : Type ℓ where
  pub version : ℕ
  pub keys : List K
  pub pointers : List P
  pub values : List V
  pub prev : Option P
  pub next : Option P

pub record Storer (S : Type 0) (K P V : Type 0) : Type 0 where
  pub get : P → S → Result (Node K P V × S)
  pub update : P → Node K P V → S → Result S
  pub put : Node K P V → S → Result (P × S)

pub record BTree (S P : Type 0) : Type 0 where
  pub version : ℕ
  pub order : ℕ
  pub count : ℕ
  pub root : P
  pub store : S

abbrev pub is_lt : Ordering → Bool
is_lt Ordering.lt = true
is_lt Ordering.eq = false
is_lt Ordering.gt = false

abbrev pub is_eq : Ordering → Bool
is_eq Ordering.lt = false
is_eq Ordering.eq = true
is_eq Ordering.gt = false

-- `slices.Insert(s, i, x)`: it panics if `i` is out of range.
unfoldable pub insert {ℓ} : {A : Type ℓ} → List A → ℕ → A → Result (List A)
insert s i x = do ensure (leb i (length s)); ok (take i s ++ x ∷ drop i s)

-- `cutoff`; for no key the subtraction gives -1, and the slices panic.
unfoldable pub cutoff : ℕ → ℕ
cutoff n = if (n + 1) / 2 - 1 == 0 then 1 else (n + 1) / 2 - 1

module _ {K P V : Type 0} where
  unfoldable pub new_node_from : List K → List P → List V → Node K P V
  new_node_from keys pointers values = record {
    version = new_version 1 0 0;
    keys = keys;
    pointers = pointers;
    values = values;
    prev = none;
    next = none;
  }

  unfoldable pub isleaf : Node K P V → Bool
  isleaf n = length n.pointers == 0

  unfoldable pub insert_at : ℕ → K → V → Node K P V → Result (Node K P V)
  unfolding insert
  insert_at idx key val n = do
    keys ← insert n.keys idx key
    values ← insert n.values idx val
    ok (record n { keys = keys; values = values })

  unfoldable pub insert_internal : ℕ → K → P → Node K P V → Result (Node K P V)
  unfolding insert
  insert_internal idx key ptr n =
      if leb (length n.keys) idx
      then ok (record n { keys = n.keys ++ key ∷ []; pointers = n.pointers ++ ptr ∷ [] })
      else (do
        keys ← insert n.keys idx key
        pointers ← insert n.pointers (idx + 1) ptr
        ok (record n { keys = keys; pointers = pointers }))

  -- `split`: the node as it is left, and the new one. A slice expression out of range panics.
  unfoldable pub split : Node K P V → Result (Node K P V × Node K P V)
  unfolding isleaf cutoff new_node_from
  split n =
      let c = cutoff (length n.keys) in
      if isleaf n
      then (do
        ensure (leb c (length n.keys))
        ensure (leb c (length n.values))
        ok (
          record n { keys = take c n.keys; values = take c n.values },
          new_node_from (drop c n.keys) [] (drop c n.values),
        ))
      else (do
        ensure (leb c (length n.keys))
        ensure (leb (c + 1) (length n.pointers))
        ok (
          record n { keys = take c n.keys; pointers = take (c + 1) n.pointers },
          new_node_from (drop c n.keys) (drop (c + 1) n.pointers) [],
        ))

-- `s[i]`: it panics if `i` is out of range.
abbrev pub at {ℓ} : {A : Type ℓ} → List A → ℕ → Result A
at [] i = panic
at (x ∷ xs) zero = ok x
at (x ∷ xs) (suc i) = at xs i

module _ {K : Type 0} (compare : K → K → Ordering) where
  -- The loop of `slices.BinarySearchFunc`; the distance falls with each round.
  unfoldable pub search_loop : ℕ → List K → K → ℕ → ℕ → Result ℕ
  search_loop zero keys key i j = if ltb i j then stuck else ok i
  search_loop (suc fuel) keys key i j =
      let rest : Result ℕ = (do
        x ← at keys ((i + j) / 2)
        let below = is_lt (compare x key)
        search_loop fuel keys key (if below then (i + j) / 2 + 1 else i)
            (if below then j else (i + j) / 2)) in
      if ltb i j then rest else ok i

  abbrev pub some_equal : Option K → K → Bool
  some_equal none key = false
  some_equal (some x) key = is_eq (compare x key)

  abbrev pub equal_at : List K → ℕ → K → Bool
  equal_at keys i key = some_equal (get_elem? keys i) key

  -- `slices.BinarySearchFunc(keys, key, compare)`
  unfoldable pub binary_search : List K → K → Result (ℕ × Bool)
  binary_search keys key = do
    i ← search_loop (length keys) keys key 0 (length keys)
    ok (i, equal_at keys i key)

  module _ {P V : Type 0} where
    unfoldable pub find : Node K P V → K → Result (Option V)
    find n key = do
      (idx, found) ← binary_search n.keys key
      if found then (do v ← at n.values idx; ok (some v)) else ok none

    module _ {S : Type 0} (st : Storer S K P V) where
      -- The child that `findleaf` goes down to.
      unfoldable pub child : Node K P V → K → Result P
      child n key = do
        (i, found) ← binary_search n.keys key
        let idx = if found then i + 1 else i
        at n.pointers (if ltb idx (length n.keys) then idx else length n.keys)

      -- The loop of `findleaf`: the leaf and the pointers on the way to it, the root's first. The fuel
      -- is a bound on the depth.
      unfoldable pub findleaf_loop : ℕ → P → List P → K → S → Result (Node K P V × List P × S)
      findleaf_loop zero ptr path key s = stuck
      findleaf_loop (suc fuel) ptr path key s = do
        (n, s') ← st.get ptr s
        let rest : Result (Node K P V × List P × S) = (do
          next ← child n key
          findleaf_loop fuel next (path ++ ptr ∷ []) key s')
        if isleaf n then ok (n, path ++ ptr ∷ [], s') else rest

      unfoldable pub findleaf : ℕ → BTree S P → K → Result (Node K P V × List P × S)
      findleaf fuel b key = findleaf_loop fuel b.root [] key b.store

      -- `Find`
      unfoldable pub find_in : ℕ → BTree S P → K → Result (Option V × BTree S P)
      find_in fuel b key = do
        (leaf, path, s) ← findleaf fuel b key
        v ← find leaf key
        ok (v, record b { store = s })

      -- `New`; it does not set the tree's version.
      unfoldable pub new : ℕ → S → Result (BTree S P)
      new order s = do
        (ptr, s') ← st.put (new_node_from [] [] []) s
        ok (record { version = 0; order = order; count = 0; root = ptr; store = s' })

      -- The end of `insertUpwards`, where the root has been reached: the tree grows.
      unfoldable pub grow : K → P → BTree S P → Result (BTree S P)
      grow key ptr b = do
        (root, s) ← st.put (new_node_from (key ∷ []) (b.root ∷ ptr ∷ []) []) b.store
        ok (record b { root = root; store = s })

      -- `insertUpwards`; the path is given from its last pointer on.
      unfoldable pub insert_upwards : K → P → List P → BTree S P → Result (BTree S P)
      insert_upwards key ptr [] b = grow key ptr b
      insert_upwards key ptr (p ∷ path) b = do
        (n, s) ← st.get p b.store
        (idx, found) ← binary_search n.keys key
        ensure (not found)
        n' ← insert_internal idx key ptr n
        if ltb (length n'.keys) b.order
            then (do s' ← st.update p n' s; ok (record b { store = s' }))
            else (do
              (left, right) ← split n'
              key' ← at right.keys 0
              (ptr', s') ← st.put (record right { keys = drop 1 right.keys }) s
              s'' ← st.update p left s'
              insert_upwards key' ptr' path (record b { store = s'' }))

      -- What `insert` does once the leaf is found: `path` from the leaf's own pointer upwards.
      unfoldable pub insert_leaf :
          K → V → Bool → Node K P V → P → List P → BTree S P → Result (BTree S P)
      insert_leaf key val overwrite n ptr path b = do
        (idx, found) ← binary_search n.keys key
        if found
            then (if overwrite
                then (do
                  ensure (ltb idx (length n.values))
                  s ←
                      st.update ptr
                        (record n { values = take idx n.values ++ val ∷ drop (idx + 1) n.values })
                        b.store
                  ok (record b { store = s }))
                else err already_exists)
            else (do
              n' ← insert_at idx key val n
              let b' = record b { count = b.count + 1 }
              if ltb (length n'.keys) b.order
                  then (do s ← st.update ptr n' b.store; ok (record b' { store = s }))
                  else (do
                    (left, right) ← split n'
                    (newptr, s) ← st.put (record right { next = n'.next }) b.store
                    s' ← st.update ptr (record left { next = some newptr }) s
                    key' ← at right.keys 0
                    insert_upwards key' newptr path (record b' { store = s' })))

      abbrev pub upwards : List P → List P → List P
      upwards [] acc = acc
      upwards (p ∷ path) acc = upwards path (p ∷ acc)

      abbrev pub at_path : List P → (P → List P → Result (BTree S P)) → Result (BTree S P)
      at_path [] f = panic
      at_path (ptr ∷ path) f = f ptr path

      -- `insert(key, val, overwrite)`; `Insert` and `Update` are the two cases.
      unfoldable pub insert_key : ℕ → K → V → Bool → BTree S P → Result (BTree S P)
      insert_key fuel key val overwrite b = do
        (n, path, s) ← findleaf fuel b key
        at_path (upwards path [])
            λ ptr path. insert_leaf key val overwrite n ptr path (record b { store = s })
