-- ===== src/BTree/Search.antt =====
-- btree/btree.go: `slices.BinarySearchFunc` over sorted keys finds where the key belongs.
use Prim.Native.Nat.{Ordering}
use native.Mathlib.Decide.{dec_lt}
use plakar.Prelude.{
  ℕ, zero, suc, ◌+◌, ◌/◌, ◌≤◌, ◌<◌, ◌≡◌, refl, inl, inr, Bool, true, false, Option, some, List, [],
  ◌∷◌, arith, length, get_elem?, ltb, ok, Bool-cases,
}
use plakar.BTree.{at, is_lt, search_loop, binary_search, equal_at}

pub at-get_elem? :
    {A : Type 0} (xs : List A) (i : ℕ)
    → i < length xs
    → (x : A) × (at xs i ≡ ok x) × (get_elem? xs i ≡ some x)
at-get_elem? [] i h = absurd (omega arith)
at-get_elem? (x ∷ xs) zero h = (x, refl, refl)
at-get_elem? (x ∷ xs) (suc i) h = at-get_elem? xs i (omega arith)

-- What the tree asks of its `compare`.
pub record IsOrder {K : Type 0} (compare : K → K → Ordering) : Type 0 where
  pub eq_self : (a : K) → compare a a ≡ Ordering.eq
  pub eq_same : (a b : K) → compare a b ≡ Ordering.eq → a ≡ b
  pub gt_flip : (a b : K) → compare a b ≡ Ordering.gt → compare b a ≡ Ordering.lt
  pub lt_trans :
      (a b c : K)
      → compare a b ≡ Ordering.lt
      → compare b c ≡ Ordering.lt
      → compare a c ≡ Ordering.lt

module _ {K : Type 0} (compare : K → K → Ordering) where
  -- The keys increase.
  abbrev pub Sorted : List K → Type 0
  Sorted keys =
      (i j : ℕ) (a b : K)
      → i < j
      → get_elem? keys i ≡ some a
      → get_elem? keys j ≡ some b
      → compare a b ≡ Ordering.lt

  -- Every key before `i` is less than `key`, and every key from `j` on is not.
  abbrev pub Below : List K → K → ℕ → Type 0
  Below keys key i =
      (k : ℕ) (x : K) → k < i → get_elem? keys k ≡ some x → is_lt (compare x key) ≡ true

  abbrev pub Above : List K → K → ℕ → Type 0
  Above keys key j =
      (k : ℕ) (x : K) → j ≤ k → get_elem? keys k ≡ some x → is_lt (compare x key) ≡ false

  lt_of : (o : Ordering) → is_lt o ≡ true → o ≡ Ordering.lt
  lt_of Ordering.lt h = refl
  lt_of Ordering.eq h = cc
  lt_of Ordering.gt h = cc

  not_lt_trans :
      IsOrder compare
      → (a b key : K) → compare a b ≡ Ordering.lt
      → is_lt (compare a key) ≡ false
      → is_lt (compare b key) ≡ false
  not_lt_trans o a b key h k = elim (Bool-cases (is_lt (compare b key))) [
    | inl y ↦
        let lt = o.lt_trans a b key h (lt_of (compare b key) y) in
        absurd (false-ne-true (rw lt at k))
    | inr n ↦ n
  ]
    where
      false-ne-true : ◌≡◌ {A = Bool} true false → ⊥
      false-ne-true e = cc

  some-same : {A : Type 0} {a b : A} {m : Option A} → m ≡ some a → m ≡ some b → a ≡ b
  some-same e f = cc

  below_mid :
      (keys : List K) (key x : K) (h : ℕ)
      → IsOrder compare
      → Sorted keys
      → get_elem? keys h ≡ some x
      → is_lt (compare x key) ≡ true
      → Below keys key (h + 1)
  below_mid keys key x h o s g b k y lt e = elim (dec_lt k h) [
    | yes before ↦ rw (o.lt_trans y x key (s k h y x before e g) (lt_of (compare x key) b)) refl
    | no last ↦ let same : k ≡ h = omega arith in rw (some-same (rw same at e) g) b
  ]

  keys_after_mid :
      (keys : List K) (key x : K) (h : ℕ)
      → IsOrder compare
      → Sorted keys
      → get_elem? keys h ≡ some x
      → is_lt (compare x key) ≡ false
      → Above keys key h
  keys_after_mid keys key x h o s g b k y le e = elim (dec_lt h k) [
    | yes after ↦ not_lt_trans o x y key (s h k x y after g e) b
    | no first ↦ let same : k ≡ h = omega arith in rw (some-same (rw same at e) g) b
  ]

  search_loop-finds :
      (fuel : ℕ) (keys : List K) (key : K) (i j : ℕ)
      → IsOrder compare
      → Sorted keys
      → j ≤ length keys
      → i ≤ j
      → j ≤ i + fuel
      → Below keys key i
      → Above keys key j
      → (n : ℕ) × (search_loop compare fuel keys key i j ≡ ok n)
        × (n ≤ length keys)
        × Below keys key n
        × Above keys key n
  unfolding search_loop
  search_loop-finds zero keys key i j o s hj hij hf lo hi =
      (i, ground arith, omega arith, lo, λ k x h e. hi k x (omega arith) e)
  search_loop-finds (suc fuel) keys key i j o s hj hij hf lo hi = elim (Bool-cases (ltb i j)) [
    | inr stop ↦ (i, rw stop, omega arith, lo, λ k x h e. hi k x (ground arith) e)
    | inl more ↦
        let h : ℕ = (i + j) / 2 in
        let (x, e, g) = at-get_elem? keys h (ground arith) in
        elim (Bool-cases (is_lt (compare x key))) [
          | inl b ↦
              let (n, run, le, lo', hi') =
                search_loop-finds fuel keys key (h + 1) j o s hj (ground arith) (ground arith)
                  (below_mid keys key x h o s g b) hi in
              (n, rw (more, e, b) run, le, lo', hi')
          | inr b ↦
              let (n, run, le, lo', hi') =
                search_loop-finds fuel keys key i h o s (ground arith) (ground arith) (ground arith)
                  lo (keys_after_mid keys key x h o s g b) in
              (n, rw (more, e, b) run, le, lo', hi')
        ]
  ]

  -- `slices.BinarySearchFunc` over increasing keys ends without a panic, and gives the number of keys
  -- that are less than the one looked for, which are the first ones; it says whether that key is the next.
  pub binary_search-finds :
      (keys : List K) (key : K)
      → IsOrder compare
      → Sorted keys
      → (n : ℕ) × (binary_search compare keys key ≡ ok (n, equal_at compare keys n key))
        × (n ≤ length keys)
        × Below keys key n
        × Above keys key n
  unfolding binary_search
  binary_search-finds keys key o s =
      let (n, run, le, lo, hi) =
        search_loop-finds (length keys) keys key 0 (length keys) o s (omega arith) (omega arith)
          (omega arith) (λ k x h e. absurd (omega arith)) (λ k x h e. absurd (past keys k x h e)) in
      (n, rw run, le, lo, hi)
    where
      past : (keys : List K) (k : ℕ) (x : K) → length keys ≤ k → get_elem? keys k ≡ some x → ⊥
      past [] k x h e = cc
      past (y ∷ ys) zero x h e = absurd (omega arith)
      past (y ∷ ys) (suc k) x h e = past ys k x (omega arith) e
