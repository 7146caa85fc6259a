-- ===== src/BTree/Scan.antt =====
-- btree/iter.go: the scan of a tree from its smallest key on, over the store that the tree sees.
pub mod Order
use plakar.Prelude.{
  ℕ, zero, suc, ◌+◌, ◌-◌, Bool, true, false, Option, none, some, List, [], ◌∷◌, length, ltb, ◌==◌,
  if◌then◌else◌, Result, ok, err, panic, stuck, ensure, Error, ◌>>=◌, ◌>>◌,
}
use plakar.BTree.{Node, Storer, BTree, isleaf, at}

-- `upcoming` is `idx` and one, as `idx` begins at -1; `store` is the one behind `b`.
pub record ForwardIter (S K P V : Type 0) : Type 0 where
  pub store : S
  pub ptr : P
  pub current : Node K P V
  pub failed : Option Error
  pub upcoming : ℕ

module _ {S K P V : Type 0} (st : Storer S K P V) where
  -- What follows `cache.Get` of the next leaf.
  unfoldable pub enter :
      P → ForwardIter S K P V → Result (Node K P V × S) → Result (Bool × ForwardIter S K P V)
  enter ptr it (ok (n, s)) =
      ok (true, record it { store = s; ptr = ptr; current = n; upcoming = 1 })
  enter ptr it (err e) = ok (false, record it { failed = some e })
  enter ptr it panic = panic
  enter ptr it stuck = stuck

  unfoldable pub next_leaf : Option P → ForwardIter S K P V → Result (Bool × ForwardIter S K P V)
  unfolding enter
  next_leaf none it = ok (false, it)
  next_leaf (some ptr) it = enter ptr it (st.get ptr it.store)

  abbrev pub unless_failed :
      Option Error → ForwardIter S K P V → Result (Bool × ForwardIter S K P V)
  unless_failed (some e) it = ok (false, it)
  unless_failed none it =
      let it' : ForwardIter S K P V = record it { upcoming = it.upcoming + 1 } in
      if ltb it.upcoming (length it.current.values)
      then ok (true, it')
      else next_leaf it.current.next it'

  unfoldable pub next : ForwardIter S K P V → Result (Bool × ForwardIter S K P V)
  unfolding next_leaf
  next it = unless_failed it.failed it

  unfoldable pub current : ForwardIter S K P V → Result (K × V)
  current it = do
    ensure (ltb 0 it.upcoming)
    k ← at it.current.keys (it.upcoming - 1)
    v ← at it.current.values (it.upcoming - 1)
    ok (k, v)

  -- The loop of `ScanAll`, with a bound on the depth.
  unfoldable pub leftmost : ℕ → P → S → Result (ForwardIter S K P V)
  leftmost zero ptr s = stuck
  leftmost (suc fuel) ptr s = do
    (n, s') ← st.get ptr s
    let rest : Result (ForwardIter S K P V) = (do first ← at n.pointers 0; leftmost fuel first s')
    if isleaf n
        then ok (record { store = s'; ptr = ptr; current = n; failed = none; upcoming = 0 })
        else rest

  unfoldable pub scan_all : ℕ → BTree S P → Result (ForwardIter S K P V)
  unfolding leftmost
  scan_all fuel b = leftmost fuel b.root b.store
