-- ===== src/BTree/Leaf.antt =====
-- btree/btree.go: a leaf is a map from its keys to its values, for `find` and for `insertAt`.
use Prim.Native.Nat.{Ordering}
use native.Mathlib.Decide.{dec_lt}
use plakar.Prelude.{
  ℕ, zero, suc, ◌<◌, ◌≡◌, refl, inl, inr, true, false, Option, none, some, List, [], ◌∷◌, arith,
  length, get_elem?, if◌then◌else◌, ok, Bool-cases,
}
use plakar.BTree.{Node, at, is_lt, is_eq, equal_at, find}
use plakar.BTree.Search.{IsOrder, Sorted, Below, Above, binary_search-finds, at-get_elem?}

pub lt-ne-eq : (o : Ordering) → is_lt o ≡ true → is_eq o ≡ false
lt-ne-eq Ordering.lt h = refl
lt-ne-eq Ordering.eq h = cc
lt-ne-eq Ordering.gt h = refl

pub eq_of : (o : Ordering) → is_eq o ≡ true → o ≡ Ordering.eq
eq_of Ordering.lt h = cc
eq_of Ordering.eq h = refl
eq_of Ordering.gt h = cc

pub get_elem?-before :
    {A : Type 0} (xs : List A) (j k : ℕ) (x : A)
    → j < k
    → get_elem? xs k ≡ some x
    → (y : A) × (get_elem? xs j ≡ some y)
get_elem?-before [] j k x h e = absurd (none-ne-some e)
  where
    none-ne-some : {B : Type 0} {b : B} → none ≡ some b → ⊥
    none-ne-some e = cc
get_elem?-before (y ∷ ys) j zero x h e = absurd (omega arith)
get_elem?-before (y ∷ ys) zero (suc k) x h e = (y, refl)
get_elem?-before (y ∷ ys) (suc j) (suc k) x h e = get_elem?-before ys j k x (omega arith) e

module _ {K : Type 0} (compare : K → K → Ordering) where
  equal_at-lt :
      (keys : List K) (i : ℕ) (key : K) → equal_at compare keys i key ≡ true → i < length keys
  equal_at-lt [] i key h = absurd (false-ne-true h)
    where
      false-ne-true : false ≡ true → ⊥
      false-ne-true e = cc
  equal_at-lt (x ∷ xs) zero key h = omega arith
  equal_at-lt (x ∷ xs) (suc i) key h = omega (arith, equal_at-lt xs i key h)

  -- With the search's answer "not found", no key of the leaf is the one looked for.
  pub none_equal :
      (keys : List K) (key : K) (i : ℕ)
      → IsOrder compare
      → Sorted compare keys
      → Below compare keys key i
      → Above compare keys key i
      → equal_at compare keys i key ≡ false
      → (k : ℕ) (x : K) → get_elem? keys k ≡ some x
      → is_eq (compare x key) ≡ false
  none_equal keys key i o s lo hi ne k x g = elim (dec_lt k i) [
    | yes before ↦ lt-ne-eq (compare x key) (lo k x before g)
    | no later ↦ elim (dec_lt i k) [
      | no here ↦ let same : k ≡ i = omega arith in rw (rw same at g) at ne
      | yes after ↦
          let (y, gy) = get_elem?-before keys i k x after g in
          elim (Bool-cases (is_eq (compare x key))) [
            | inr n ↦ n
            | inl e ↦
                let x-eq-key : x ≡ key = o.eq_same x key (eq_of (compare x key) e) in
                let lt = rw x-eq-key at (s i k y x after gy g) in
                absurd (true-ne-false (rw lt at (hi i y (omega arith) gy)))
          ]
    ]
  ]
    where
      true-ne-false : true ≡ false → ⊥
      true-ne-false e = cc

module _ {K : Type 0} (compare : K → K → Ordering) {V : Type 0} where
  -- The value of the first key that equals `key`, looked for from the front.
  unfoldable pub lookup : List K → List V → K → Option V
  lookup [] vs key = none
  lookup (x ∷ xs) [] key = none
  lookup (x ∷ xs) (v ∷ vs) key = if is_eq (compare x key) then some v else lookup xs vs key

  -- Keys before `i` are less than the key, so that a search from the front passes them.
  lookup-found :
      (keys : List K) (vs : List V) (key : K) (i : ℕ) (v : V)
      → length vs ≡ length keys
      → Below compare keys key i
      → equal_at compare keys i key ≡ true
      → at vs i ≡ ok v
      → lookup keys vs key ≡ some v
  unfolding lookup
  lookup-found [] vs key i v hl lo e a = cc
  lookup-found (x ∷ xs) [] key i v hl lo e a = absurd (omega arith)
  lookup-found (x ∷ xs) (w ∷ ws) key zero v hl lo e a = rw e (cc)
  lookup-found (x ∷ xs) (w ∷ ws) key (suc i) v hl lo e a =
      rw (lt-ne-eq (compare x key) (lo 0 x (omega arith) refl))
        (lookup-found xs ws key i v (omega arith) (λ k y h g. lo (suc k) y (omega arith) g) e a)

  lookup-absent :
      (keys : List K) (vs : List V) (key : K)
      → ((k : ℕ) (x : K) → get_elem? keys k ≡ some x → is_eq (compare x key) ≡ false)
      → lookup keys vs key ≡ none
  unfolding lookup
  lookup-absent [] vs key h = refl
  lookup-absent (x ∷ xs) [] key h = refl
  lookup-absent (x ∷ xs) (v ∷ vs) key h =
      rw (h 0 x refl) (lookup-absent xs vs key (λ k y g. h (suc k) y g))

  -- A key that is not found is not where the search points.
  pub lookup-none :
      (keys : List K) (vs : List V) (key : K) (i : ℕ)
      → length vs ≡ length keys
      → Below compare keys key i
      → lookup keys vs key ≡ none
      → equal_at compare keys i key ≡ false
  lookup-none keys vs key i hl lo h = elim (Bool-cases (equal_at compare keys i key)) [
    | inr e ↦ e
    | inl e ↦
        let (v, a, _) = at-get_elem? vs i (omega (arith, equal_at-lt compare keys i key e)) in
        cc (lookup-found keys vs key i v hl lo e a, h)
  ]

  -- `find` over increasing keys is the search from the front.
  pub find-lookup :
      {P : Type 0} (n : Node K P V) (key : K)
      → IsOrder compare
      → Sorted compare n.keys
      → length n.values ≡ length n.keys
      → find compare n key ≡ ok (lookup n.keys n.values key)
  unfolding find
  find-lookup n key o s hl =
      let (i, run, le, lo, hi) = binary_search-finds compare n.keys key o s in
      elim (Bool-cases (equal_at compare n.keys i key)) [
        | inl e ↦
            let (v, a, _) =
              at-get_elem? n.values i (omega (arith, equal_at-lt compare n.keys i key e)) in
            rw (run, e, a, lookup-found n.keys n.values key i v hl lo e a)
        | inr e ↦ rw (
          run,
          e,
          lookup-absent n.keys n.values key (none_equal compare n.keys key i o s lo hi e),
        )
      ]
