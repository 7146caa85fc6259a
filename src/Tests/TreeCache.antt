-- ===== src/Tests/TreeCache.antt =====
-- btree/cache.go and btree/iter.go over a store that is a list of nodes.
use plakar.Prelude.{
  ℕ, zero, suc, ◌≡◌, refl, ap, ◌∙◌, Bool, Option, none, some, List, [], ◌∷◌, ◌++◌, arith, length,
  get_elem?, ◌==◌, if◌then◌else◌, Result, ok, err, not_found,
}
use plakar.BTree.{Node, Storer, BTree, isleaf}
use plakar.BTree.Scan.{ForwardIter, scan_all}
use plakar.BTree.Scan.Order.{collect, over, link, here, below, scan_all-yields}
use plakar.BTree.Cache.{Cache, cachefor, get, update, put, flushall}
use plakar.BTree.Cache.Refines.{Decides, Holds, Good, view}
use plakar.BTree.Cache.Whole.{cache-Holds}

abbrev Leaf : Type 0
Leaf = Node ℕ ℕ ℕ

abbrev Nodes : Type 0
Nodes = List Leaf

abbrev leaf : ℕ → Leaf
leaf k = record {
  version = 0;
  keys = k ∷ [];
  pointers = [];
  values = k ∷ [];
  prev = none;
  next = none;
}

abbrev equal : ℕ → ℕ → Bool
equal p q = p == q

abbrev found : Nodes → Option Leaf → Result (Leaf × Nodes)
found s none = err not_found
found s (some n) = ok (n, s)

abbrev set : Nodes → ℕ → Leaf → Nodes
set [] p n = []
set (x ∷ s) zero n = n ∷ s
set (x ∷ s) (suc p) n = x ∷ set s p n

abbrev in_list : Storer Nodes ℕ ℕ ℕ
in_list = record {
  get = λ p s. found s (get_elem? s p);
  update = λ p n s. ok (set s p n);
  put = λ n s. ok (length s, s ++ n ∷ []);
}

equal-Decides : Decides equal
equal-Decides = record { eq = λ p q h. ground (arith, h); self = λ p. ground arith }

get_elem?-set :
    (s : Nodes) (p q : ℕ) (n m : Leaf)
    → get_elem? s p ≡ some m
    → get_elem? (set s p n) q ≡ (if q == p then some n else get_elem? s q)
get_elem?-set [] p q n m h = absurd (cc)
get_elem?-set (x ∷ s) zero zero n m h = refl
get_elem?-set (x ∷ s) zero (suc q) n m h = ground arith
get_elem?-set (x ∷ s) (suc p) zero n m h = ground arith
get_elem?-set (x ∷ s) (suc p) (suc q) n m h = get_elem?-set s p q n m h ∙ ground arith

get_elem?-append :
    (s : Nodes) (q : ℕ) (n : Leaf)
    → get_elem? (s ++ n ∷ []) q ≡ (if q == length s then some n else get_elem? s q)
get_elem?-append [] zero n = refl
get_elem?-append [] (suc q) n = ground arith
get_elem?-append (x ∷ s) zero n = ground arith
get_elem?-append (x ∷ s) (suc q) n = get_elem?-append s q n ∙ ground arith

get_elem?_end : (s : Nodes) → get_elem? s (length s) ≡ none
get_elem?_end [] = refl
get_elem?_end (x ∷ s) = get_elem?_end s

abbrev in_list-Holds : Holds equal in_list
unfolding get_elem?-set
in_list-Holds = record {
  contents = λ s p. get_elem? s p;
  get_lem = λ p s n h. (s, ap (found s) h, λ q. refl);
  update_lem = λ p s n m h. (set s p n, refl, λ q. get_elem?-set s p q n m h);
  put_lem = λ s n. (length s, s ++ n ∷ [], refl, get_elem?_end s, λ q. get_elem?-append s q n);
}

-- A cache of one node over a store of two.
abbrev small : Cache Nodes ℕ ℕ ℕ
small = cachefor equal in_list (leaf 1 ∷ leaf 2 ∷ []) 1

small-Good : Good equal equal-Decides in_list in_list-Holds small
unfolding cachefor
small-Good = record {
  listed = λ q. refl;
  distinct = tt;
  counted = refl;
  room = omega arith;
  backed = λ q. tt;
}

cache-Holds_example :
    ((c' : Cache Nodes ℕ ℕ ℕ) × (get equal in_list 1 small ≡ ok (leaf 2, c'))
      × Good equal equal-Decides in_list in_list-Holds c'
      × ((q : ℕ)
          → view equal equal-Decides in_list in_list-Holds c' q
            ≡ view equal equal-Decides in_list in_list-Holds small q))
    × ((c' : Cache Nodes ℕ ℕ ℕ) × (update equal in_list 1 (leaf 3) small ≡ ok c')
        × Good equal equal-Decides in_list in_list-Holds c'
        × ((q : ℕ)
            → view equal equal-Decides in_list in_list-Holds c' q ≡ (
                if equal q 1
                then some (leaf 3)
                else view equal equal-Decides in_list in_list-Holds small q)))
    × ((p' : ℕ) × (c' : Cache Nodes ℕ ℕ ℕ) × (put equal in_list (leaf 3) small ≡ ok (p', c'))
        × Good equal equal-Decides in_list in_list-Holds c'
        × (view equal equal-Decides in_list in_list-Holds small p' ≡ none)
        × ((q : ℕ)
            → view equal equal-Decides in_list in_list-Holds c' q ≡ (
                if equal q p'
                then some (leaf 3)
                else view equal equal-Decides in_list in_list-Holds small q)))
    × ((c' : Cache Nodes ℕ ℕ ℕ) × (flushall equal in_list small ≡ ok c')
        × Good equal equal-Decides in_list in_list-Holds c'
        × ((q : ℕ)
            → in_list-Holds.contents c'.store q
              ≡ view equal equal-Decides in_list in_list-Holds small q))
unfolding cachefor in_list-Holds
cache-Holds_example =
    cache-Holds equal equal-Decides in_list in_list-Holds 1 (leaf 3) (leaf 2) small small-Good
      (omega arith) refl

-- A tree of two leaves.
abbrev node_of : List ℕ → List ℕ → Leaf
node_of keys pointers = record {
  version = 0;
  keys = keys;
  pointers = pointers;
  values = [];
  prev = none;
  next = none;
}

abbrev first_leaf : Leaf
first_leaf = record (node_of (1 ∷ 2 ∷ []) []) { values = 10 ∷ 20 ∷ []; next = some 1 }

abbrev second_leaf : Leaf
second_leaf = record (node_of (3 ∷ []) []) { values = 30 ∷ []; prev = some 0 }

abbrev tree : BTree Nodes ℕ
tree = record {
  version = 0;
  order = 3;
  count = 3;
  root = 2;
  store = first_leaf ∷ second_leaf ∷ node_of (3 ∷ []) (0 ∷ 1 ∷ []) ∷ [];
}

scan_all-yields_example :
    (it it' : ForwardIter Nodes ℕ ℕ ℕ) × (scan_all in_list 2 tree ≡ ok it)
    × (collect in_list 4 it ≡ ok ((1, 10) ∷ (2, 20) ∷ (3, 30) ∷ [], it'))
    × (it'.failed ≡ none)
unfolding in_list-Holds isleaf
scan_all-yields_example =
    scan_all-yields equal in_list in_list-Holds (in_list-Holds.contents tree.store) tree first_leaf
      1 2 4 ((3, 30) ∷ []) (λ q. refl) (below _ _ 0 (1 ∷ []) _ _ refl refl (here _ _ refl refl))
      refl (link 1 second_leaf 3 [] 30 [] [] refl refl refl refl over) (omega arith) (omega arith)
