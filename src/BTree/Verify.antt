-- ===== src/BTree/Verify.antt =====
-- btree/verify.go: the check of a tree's invariants. Every failure is `broken_invariant`, the message
-- that it prints is left out.
use Prim.Native.Nat.{Ordering}
use plakar.Prelude.{
  ℕ, zero, suc, ◌+◌, ◌-◌, ◌/◌, ◌≡◌, ap, ◌∙◌, ◌⊎◌, inl, inr, Bool, true, false, not, ◌&&◌, Option,
  none, some, List, [], ◌∷◌, arith, length, ltb, leb, ◌==◌, if◌then◌else◌, Result, ok, err, panic,
  stuck, guard, broken_invariant, ◌>>=◌, ◌>>◌, Bool-cases,
}
use plakar.BTree.{Node, Storer, BTree, isleaf, at, is_lt}
use plakar.BTree.Search.{IsOrder}

-- A `LeafDepth` of -1 is `none`.
pub record VerifyState : Type 0 where
  pub leaf_depth : Option ℕ
  pub curr_depth : ℕ
  pub visited_count : ℕ

abbrev same_depth : Option ℕ → ℕ → Bool
same_depth none n = false
same_depth (some d) n = d == n

abbrev is_gt : Ordering → Bool
is_gt Ordering.lt = false
is_gt Ordering.eq = false
is_gt Ordering.gt = true

abbrev between : ℕ → ℕ → ℕ → Bool
between lo hi n = leb lo n && ltb n hi

module _ {K P V : Type 0} where
  -- The occupancy of a node.
  unfoldable pub check_occupancy : ℕ → Node K P V → VerifyState → Result (Unit {0})
  unfolding isleaf
  check_occupancy order cur st =
      if isleaf cur
      then (do
        guard (same_depth st.leaf_depth st.curr_depth) broken_invariant
        guard (between (order / 2) order (length cur.keys)) broken_invariant
        guard (between (order / 2) order (length cur.values)) broken_invariant
        guard (length cur.pointers == 0) broken_invariant)
      else (do
        guard (between (order / 2) order (length cur.keys)) broken_invariant
        guard (length cur.values == 0) broken_invariant
        guard (between (order / 2) (order + 1) (length cur.pointers)) broken_invariant)

module _ {K : Type 0} (compare : K → K → Ordering) where
  -- The loop over the keys from the index 1 on: each key's predecessor against `cur.Keys[1]`.
  unfoldable pub check_keys_from : List K → K → Result (Unit {0})
  check_keys_from [] second = ok tt
  check_keys_from (x ∷ []) second = ok tt
  check_keys_from (x ∷ y ∷ more) second = do
    guard (is_lt (compare x second)) broken_invariant
    check_keys_from (y ∷ more) second

  unfoldable pub check_keys : List K → Result (Unit {0})
  unfolding check_keys_from
  check_keys [] = ok tt
  check_keys (x ∷ []) = ok tt
  check_keys (x ∷ y ∷ more) = check_keys_from (x ∷ y ∷ more) y

  module _ {P V : Type 0} where
    abbrev first : Node K P V → Result K
    first n = at n.keys 0

    abbrev last : Node K P V → Result K
    last n = at n.keys (length n.keys - 1)

    -- `compare(cur.Keys[len-1], parent.Keys[ptrIdx]) > 0` and `compare(cur.Keys[0], parent.Keys[ptrIdx-1]) < 0`.
    check_upper : Node K P V → Node K P V → ℕ → Result (Unit {0})
    check_upper cur parent idx = do
      l ← last cur
      k ← at parent.keys idx
      guard (not (is_gt (compare l k))) broken_invariant

    check_lower : Node K P V → Node K P V → ℕ → Result (Unit {0})
    check_lower cur parent idx = do
      f ← first cur
      k ← at parent.keys (idx - 1)
      guard (not (is_lt (compare f k))) broken_invariant

    -- The ordering between a node and its parent; the root has none.
    unfoldable pub check_parent : Node K P V → Option (Node K P V) → ℕ → Result (Unit {0})
    unfolding check_upper check_lower
    check_parent cur none idx = ok tt
    check_parent cur (some parent) idx =
        if idx == 0
        then check_upper cur parent idx
        else if idx + 1 == length parent.pointers
        then check_lower cur parent idx
        else (do check_lower cur parent idx; check_upper cur parent idx)

    module _ {S : Type 0} (st : Storer S K P V) where
      -- The loop over the children, with the recursive call `visit`.
      unfoldable pub verify_children :
          (Node K P V → ℕ → S → VerifyState → Result (S × VerifyState))
          → List P
          → ℕ
          → S
          → VerifyState
          → Result (S × VerifyState)
      verify_children visit [] idx s state = ok (s, state)
      verify_children visit (p ∷ ps) idx s state = do
        (child, s') ← st.get p s
        (s'', state') ← visit child idx s' state
        verify_children visit ps (idx + 1) s'' state'

      -- `verifyNode`; the fuel is a bound on the depth.
      unfoldable pub verify_node :
          ℕ → ℕ → Node K P V → Option (Node K P V) → ℕ → S → VerifyState → Result (S × VerifyState)
      verify_node zero order cur parent idx s state = stuck
      verify_node (suc fuel) order cur parent idx s state = do
        let state' = record state { visited_count = state.visited_count + 1 }
        check_occupancy order cur state'
        check_keys cur.keys
        check_parent cur parent idx
        check_keys cur.keys
        check_parent cur parent idx
        (s', after) ←
            verify_children (λ child i. verify_node fuel order child (some cur) i) cur.pointers 0 s
              (record state' { curr_depth = state'.curr_depth + 1 })
        ok (s', record after { curr_depth = after.curr_depth - 1 })

-- `depth`: the number of nodes above the left-most leaf, -1 (here `none`) when a node cannot be read.
-- The fuel is a bound on the depth.
module _ {S K P V : Type 0} (st : Storer S K P V) where
  depth_loop : ℕ → P → ℕ → S → Result (Option ℕ × S)
  unfolding isleaf at
  depth_loop zero ptr depth s = stuck
  depth_loop (suc fuel) ptr depth s = elim (st.get ptr s) [
    | ok (node, s') ↦
        if isleaf node
        then ok (some depth, s')
        else (do child ← at node.pointers 0; depth_loop fuel child (depth + 1) s')
    | err e ↦ ok (none, s)
    | panic ↦ panic
    | stuck ↦ stuck
  ]

  unfoldable depth : ℕ → P → S → Result (Option ℕ × S)
  unfolding depth_loop
  depth fuel root s = depth_loop fuel root 0 s

-- `Verify`: a tree that is one leaf is not checked.
unfoldable pub verify :
    {K P V S : Type 0} → (K → K → Ordering) → Storer S K P V → ℕ → BTree S P → Result S
unfolding depth isleaf
verify compare st fuel t = do
  (d, s) ← depth st fuel t.root t.store
  (root, s') ← st.get t.root s
  if isleaf root then ok s' else (do
    (s'', state) ←
        verify_node compare st fuel t.order root none 0 s'
          (record { leaf_depth = d; curr_depth = 0; visited_count = 0 })
    ok s'')

check_keys-three :
    {K : Type 0} (compare : K → K → Ordering) (a b c : K) (more : List K)
    → IsOrder compare
    → check_keys compare (a ∷ b ∷ c ∷ more) ≡ err broken_invariant
unfolding check_keys
check_keys-three compare a b c more o =
    let self : is_lt (compare b b) ≡ false = rw (o.eq_self b) in
    elim (Bool-cases (is_lt (compare a b))) [ inl y ↦ rw (y, self) | inr n ↦ rw n ]

occupancy_cases :
    {K P V : Type 0} (order : ℕ) (n : Node K P V) (st : VerifyState)
    → (check_occupancy order n st ≡ ok tt) ⊎ (check_occupancy order n st ≡ err broken_invariant)
unfolding check_occupancy
occupancy_cases order n st = ground arith

-- `verifyNode` refuses every node with three keys or more, in order or not, leaf or intermediate, at any
-- place of any tree: its loop compares with the second key where the key at the loop's index is meant.
pub verify_node-refuses :
    {K P V S : Type 0} (compare : K → K → Ordering) (st : Storer S K P V) (fuel order : ℕ)
    (cur : Node K P V) (a b c : K) (more : List K) (parent : Option (Node K P V)) (idx : ℕ) (s : S)
    (state : VerifyState)
    → IsOrder compare
    → cur.keys ≡ a ∷ b ∷ c ∷ more
    → verify_node compare st (suc fuel) order cur parent idx s state ≡ err broken_invariant
unfolding verify_node
verify_node-refuses compare st fuel order cur a b c more parent idx s state o e =
    let three = ap (check_keys compare) e ∙ check_keys-three compare a b c more o in
    elim (occupancy_cases order cur (record state { visited_count = state.visited_count + 1 })) [
      | inl y ↦ rw (y, three)
      | inr n ↦ rw n
    ]
