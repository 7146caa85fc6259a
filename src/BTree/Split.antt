-- ===== src/BTree/Split.antt =====
-- btree/btree.go, `split`: a full node is cut in two, and nothing is lost.
use plakar.Prelude.{
  append-nil, ℕ, ◌+◌, ◌≤◌, ◌<◌, ◌≡◌, refl, false, [], ◌++◌, arith, length, take, drop, length-take,
  length-drop, take-append-drop, le→leb, ◌==◌, ok,
}
use plakar.BTree.{Node, isleaf, split, cutoff, new_node_from}

module _ {K P V : Type 0} where
  -- What a node is: a leaf with as many values as keys, or an intermediate node with one pointer more.
  pub data IsNode (n : Node K P V) : Type 0 where
    leaf : n.pointers ≡ [] → length n.values ≡ length n.keys → IsNode n
    intermediate : n.values ≡ [] → length n.pointers ≡ length n.keys + 1 → IsNode n

  -- The two halves of a node, in the order of the keys, and their occupancy.
  pub record Halves (n left right : Node K P V) : Type 0 where
    pub keys_kept : left.keys ++ right.keys ≡ n.keys
    pub pointers_kept : left.pointers ++ right.pointers ≡ n.pointers
    pub values_kept : left.values ++ right.values ≡ n.values
    pub left_size : length left.keys ≡ cutoff (length n.keys)
    pub right_size : length right.keys + cutoff (length n.keys) ≡ length n.keys
    pub left_some : 0 < length left.keys
    pub right_some : 0 < length right.keys
    pub left_next : left.next ≡ n.next

nonzero : (m : ℕ) → 0 < m → (m == 0) ≡ false
nonzero m h = ground arith

cutoff_bounds : (n : ℕ) → 2 ≤ n → (0 < cutoff n) × (cutoff n < n)
unfolding cutoff
cutoff_bounds n h = ground arith

module _ {K P V : Type 0} where
  -- `split` of a leaf with two keys or more gives two leaves, each with some of the keys and their
  -- values, which together are the leaf's; the cut stands behind the first `cutoff` keys.
  pub split-leaf :
      (n : Node K P V)
      → n.pointers ≡ []
      → length n.values ≡ length n.keys
      → 2 ≤ length n.keys
      → (left : Node K P V) × (right : Node K P V) × (split n ≡ ok (left, right))
        × IsNode left
        × IsNode right
        × Halves n left right
  unfolding split isleaf new_node_from
  split-leaf n hp hv h =
      let c = cutoff (length n.keys) in
      let (lo, hi) = cutoff_bounds (length n.keys) h in
      let kl = length-take c n.keys in
      let kr = length-drop c n.keys in
      let vl = length-take c n.values in
      let vr = length-drop c n.values in
      (
        record n { keys = take c n.keys; values = take c n.values },
        new_node_from (drop c n.keys) [] (drop c n.values),
        rw (hp, le→leb c (length n.keys) (omega arith), le→leb c (length n.values) (omega arith)),
        leaf hp (omega arith),
        leaf refl (omega arith),
        record {
          keys_kept = take-append-drop c n.keys;
          pointers_kept = append-nil n.pointers;
          values_kept = take-append-drop c n.values;
          left_size = omega arith;
          right_size = omega arith;
          left_some = omega arith;
          right_some = omega arith;
          left_next = refl;
        },
      )

  -- `split` of an intermediate node with two keys or more keeps the keys and the pointers in order. The
  -- right half's first key separates the halves: without it each half has one pointer more than keys.
  pub split-intermediate :
      (n : Node K P V)
      → n.values ≡ []
      → length n.pointers ≡ length n.keys + 1
      → 2 ≤ length n.keys
      → (left : Node K P V) × (right : Node K P V) × (split n ≡ ok (left, right))
        × IsNode left
        × IsNode (record right { keys = drop 1 right.keys })
        × Halves n left right
  unfolding split isleaf new_node_from
  split-intermediate n hv hp h =
      let c = cutoff (length n.keys) in
      let (lo, hi) = cutoff_bounds (length n.keys) h in
      let kl = length-take c n.keys in
      let kr = length-drop c n.keys in
      let pl = length-take (c + 1) n.pointers in
      let pr = length-drop (c + 1) n.pointers in
      let kr' = length-drop 1 (drop c n.keys) in
      (
        record n { keys = take c n.keys; pointers = take (c + 1) n.pointers },
        new_node_from (drop c n.keys) (drop (c + 1) n.pointers) [],
        rw (
          nonzero (length n.pointers) (omega arith),
          le→leb c (length n.keys) (omega arith),
          le→leb (c + 1) (length n.pointers) (omega arith),
        ),
        intermediate hv (omega arith),
        intermediate refl (omega arith),
        record {
          keys_kept = take-append-drop c n.keys;
          pointers_kept = take-append-drop (c + 1) n.pointers;
          values_kept = append-nil n.values;
          left_size = omega arith;
          right_size = omega arith;
          left_some = omega arith;
          right_some = omega arith;
          left_next = refl;
        },
      )
