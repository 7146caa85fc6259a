-- ===== src/Tests/BTree.antt =====
-- btree/: concrete nodes, with natural numbers for keys.
use Prim.Native.Nat.{compare}
use plakar.Prelude.{
  ℕ, zero, suc, ◌≡◌, refl, List, [], ◌∷◌, arith, length, drop, if◌then◌else◌, none, some, ok, err,
  broken_invariant, not_found, ◌>>=◌,
}
use plakar.BTree.{Node, Storer, split, binary_search, insert_at, find, is_eq}
use plakar.BTree.Search.{IsOrder, Sorted}
use plakar.BTree.Split.{IsNode, Halves, split-leaf, split-intermediate}
use plakar.BTree.Leaf.{lookup, find-lookup}
use plakar.BTree.Insertion.{insert_at-find}
use plakar.BTree.Verify.{verify_node, verify_node-refuses}

compare-IsOrder : IsOrder compare
compare-IsOrder = record {
  eq_self = λ a. ground arith;
  eq_same = λ a b h. ground arith;
  gt_flip = λ a b h. ground arith;
  lt_trans = λ a b c h k. ground arith;
}

abbrev keys : List ℕ
keys = 2 ∷ 5 ∷ 9 ∷ []

keys-Sorted : Sorted compare keys
keys-Sorted zero zero a b h e f = absurd (omega arith)
keys-Sorted zero (suc zero) a b h e f = grind arith
keys-Sorted zero (suc (suc zero)) a b h e f = grind arith
keys-Sorted zero (suc (suc (suc j))) a b h e f = cc
keys-Sorted (suc zero) zero a b h e f = absurd (omega arith)
keys-Sorted (suc zero) (suc zero) a b h e f = absurd (omega arith)
keys-Sorted (suc zero) (suc (suc zero)) a b h e f = grind arith
keys-Sorted (suc zero) (suc (suc (suc j))) a b h e f = cc
keys-Sorted (suc (suc zero)) zero a b h e f = absurd (omega arith)
keys-Sorted (suc (suc zero)) (suc zero) a b h e f = absurd (omega arith)
keys-Sorted (suc (suc zero)) (suc (suc zero)) a b h e f = absurd (omega arith)
keys-Sorted (suc (suc zero)) (suc (suc (suc j))) a b h e f = cc
keys-Sorted (suc (suc (suc i))) j a b h e f = cc

abbrev leaf : Node ℕ ℕ ℕ
leaf = record {
  version = 65536;
  prev = none;
  keys = keys;
  pointers = [];
  values = 20 ∷ 50 ∷ 90 ∷ [];
  next = none;
}

abbrev inner : Node ℕ ℕ ℕ
inner = record {
  version = 65536;
  prev = none;
  keys = keys;
  pointers = 1 ∷ 2 ∷ 3 ∷ 4 ∷ [];
  values = [];
  next = none;
}

split-leaf_example :
    (left : Node ℕ ℕ ℕ) × (right : Node ℕ ℕ ℕ) × (split leaf ≡ ok (left, right))
    × IsNode left
    × IsNode right
    × Halves leaf left right
split-leaf_example = split-leaf leaf refl refl (omega arith)

split-intermediate_example :
    (left : Node ℕ ℕ ℕ) × (right : Node ℕ ℕ ℕ) × (split inner ≡ ok (left, right))
    × IsNode left
    × IsNode (record right { keys = drop 1 right.keys })
    × Halves inner left right
split-intermediate_example = split-intermediate inner refl refl (omega arith)

find-lookup_example : find compare leaf 5 ≡ ok (lookup compare keys leaf.values 5)
find-lookup_example = find-lookup compare leaf 5 compare-IsOrder keys-Sorted refl

not_there : find compare leaf 7 ≡ ok none
unfolding lookup
not_there = find-lookup compare leaf 7 compare-IsOrder keys-Sorted refl

insert_at-find_example :
    (n' : Node ℕ ℕ ℕ) × ((do (i, found) ← binary_search compare keys 7; insert_at i 7 70 leaf)
      ≡ ok n')
    × Sorted compare n'.keys
    × (length n'.keys ≡ 4)
    × (length n'.values ≡ length n'.keys)
    × ((k : ℕ)
        → find compare n' k ≡ (if is_eq (compare 7 k) then ok (some 70) else find compare leaf k))
insert_at-find_example = insert_at-find compare leaf 7 70 compare-IsOrder keys-Sorted refl not_there

-- A store of no node.
abbrev nothing : Storer (Unit {0}) ℕ ℕ ℕ
nothing = record {
  get = λ p s. err not_found;
  update = λ p n s. err not_found;
  put = λ n s. err not_found;
}

verify_node-refuses_example :
    verify_node compare nothing 5 4 leaf none 0 tt
      (record { leaf_depth = some 0; curr_depth = 0; visited_count = 0 })
    ≡ err broken_invariant
verify_node-refuses_example =
    verify_node-refuses compare nothing 4 4 leaf 2 5 9 [] none 0 tt
      (record { leaf_depth = some 0; curr_depth = 0; visited_count = 0 }) compare-IsOrder refl
