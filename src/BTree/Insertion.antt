-- ===== src/BTree/Insertion.antt =====
-- btree/btree.go, `insertAt`: a key goes into a leaf where the search says.
use Prim.Native.Nat.{Ordering}
use plakar.Prelude.{
  ℕ, zero, suc, ◌+◌, ◌≤◌, ◌<◌, ◌≡◌, refl, inl, inr, Bool, true, false, none, some, List, [], ◌∷◌,
  ◌++◌, arith, length, get_elem?, take, drop, le→leb, length-append, length-take, length-drop,
  if◌then◌else◌, ok, ◌>>=◌, Bool-cases,
}
use plakar.BTree.{Node, is_lt, is_eq, equal_at, binary_search, find, insert_at}
use plakar.BTree.Search.{IsOrder, Sorted, Below, Above, binary_search-finds}
use plakar.BTree.Leaf.{lookup, find-lookup, lookup-none, none_equal, lt-ne-eq, eq_of}

abbrev inserted {ℓ} : {A : Type ℓ} → List A → ℕ → A → List A
inserted xs i x = take i xs ++ x ∷ drop i xs

length-inserted :
    {A : Type 0} (xs : List A) (i : ℕ) (x : A)
    → i ≤ length xs
    → length (inserted xs i x) ≡ length xs + 1
length-inserted xs i x h =
    omega (arith, length-append (take i xs) (x ∷ drop i xs), length-take i xs, length-drop i xs)

-- Where an element of the longer list comes from.
data Origin {A : Type 0} (xs : List A) (i : ℕ) (x : A) (j : ℕ) (y : A) : Type 0 where
  before : j < i → get_elem? xs j ≡ some y → Origin xs i x j y
  here : j ≡ i → y ≡ x → Origin xs i x j y
  after : (k : ℕ) → j ≡ suc k → i ≤ k → get_elem? xs k ≡ some y → Origin xs i x j y

get-inserted :
    {A : Type 0} (xs : List A) (i : ℕ) (x : A) (j : ℕ) (y : A)
    → i ≤ length xs
    → get_elem? (inserted xs i x) j ≡ some y
    → Origin xs i x j y
get-inserted xs zero x zero y h e = here refl (cc)
get-inserted xs zero x (suc j) y h e = after j refl (omega arith) e
get-inserted [] (suc i) x j y h e = absurd (omega arith)
get-inserted (z ∷ xs) (suc i) x zero y h e = before (omega arith) e
get-inserted (z ∷ xs) (suc i) x (suc j) y h e = shift (get-inserted xs i x j y (omega arith) e)
  where
    shift : Origin xs i x j y → Origin (z ∷ xs) (suc i) x (suc j) y
    shift (before h e) = before (omega arith) e
    shift (here h e) = here (omega arith) e
    shift (after k h l e) = after (suc k) (omega arith) (omega arith) e

if_ok : {A : Type 0} (b : Bool) (x y : A) → ok (if b then x else y) ≡ (if b then ok x else ok y)
if_ok true x y = refl
if_ok false x y = refl

module _ {K : Type 0} (compare : K → K → Ordering) where
  -- Two keys at places of the old list, in the order of the places.
  inserted-Sorted :
      (keys : List K) (key : K) (i : ℕ)
      → IsOrder compare
      → Sorted compare keys
      → i ≤ length keys
      → Below compare keys key i
      → Above compare keys key i
      → ((k : ℕ) (x : K) → get_elem? keys k ≡ some x → is_eq (compare x key) ≡ false)
      → Sorted compare (inserted keys i key)
  inserted-Sorted keys key i o s h lo hi ne j k a b jk ea eb =
      cases (get-inserted keys i key j a h ea) (get-inserted keys i key k b h eb)
    where
      is_gt : (c : Ordering) → is_lt c ≡ false → is_eq c ≡ false → c ≡ Ordering.gt
      is_gt Ordering.lt p q = cc
      is_gt Ordering.eq p q = cc
      is_gt Ordering.gt p q = refl

      lt_of : (c : Ordering) → is_lt c ≡ true → c ≡ Ordering.lt
      lt_of Ordering.lt p = refl
      lt_of Ordering.eq p = cc
      lt_of Ordering.gt p = cc

      cases : Origin keys i key j a → Origin keys i key k b → compare a b ≡ Ordering.lt
      cases (before p e) (before q f) = s j k a b jk e f
      cases (before p e) (here q f) = rw f (lt_of (compare a key) (lo j a p e))
      cases (before p e) (after m q l f) = s j m a b (omega arith) e f
      cases (here p e) (before q f) = absurd (omega arith)
      cases (here p e) (here q f) = absurd (omega arith)
      cases (here p e) (after m q l f) =
          rw e (o.gt_flip b key (is_gt (compare b key) (hi m b l f) (ne m b f)))
      cases (after m p l e) (before q f) = absurd (omega arith)
      cases (after m p l e) (here q f) = absurd (omega arith)
      cases (after m p l e) (after m' q l' f) = s m m' a b (omega arith) e f

  lookup-inserted :
      {V : Type 0} (keys : List K) (vs : List V) (key : K) (v : V) (i : ℕ) (k : K)
      → IsOrder compare
      → length vs ≡ length keys
      → i ≤ length keys
      → Below compare keys key i
      → lookup compare (inserted keys i key) (inserted vs i v) k
        ≡ (if is_eq (compare key k) then some v else lookup compare keys vs k)
  unfolding lookup
  lookup-inserted keys vs key v zero k o hl h lo = refl
  lookup-inserted [] vs key v (suc i) k o hl h lo = absurd (omega arith)
  lookup-inserted (x ∷ keys) [] key v (suc i) k o hl h lo = absurd (omega arith)
  lookup-inserted (x ∷ keys) (w ∷ vs) key v (suc i) k o hl h lo =
      let rest =
        lookup-inserted keys vs key v i k o (omega arith) (omega arith)
          (λ m y p e. lo (suc m) y (omega arith) e) in
      elim (Bool-cases (is_eq (compare key k))) [
        | inr other ↦ rw (rest, other)
        | inl same ↦
            let key-eq-k : key ≡ k = o.eq_same key k (eq_of (compare key k) same) in
            let passed : is_eq (compare x k) ≡ false =
              rw (← key-eq-k) (lt-ne-eq (compare x key) (lo 0 x (omega arith) refl)) in
            rw (passed, rest, same)
      ]

  -- `insertAt` of a key that a leaf does not have, where the search puts it: the keys stay increasing,
  -- there is one more of them and of the values, and `find` gives the new value for that key and for any
  -- other what it gave before.
  pub insert_at-find :
      {P V : Type 0} (n : Node K P V) (key : K) (v : V)
      → IsOrder compare
      → Sorted compare n.keys
      → length n.values ≡ length n.keys
      → find compare n key ≡ ok none
      → (n' : Node K P V) × ((do (i, found) ← binary_search compare n.keys key; insert_at i key v n)
          ≡ ok n')
        × Sorted compare n'.keys
        × (length n'.keys ≡ length n.keys + 1)
        × (length n'.values ≡ length n'.keys)
        × ((k : K)
            → find compare n' k ≡ (if is_eq (compare key k) then ok (some v) else find compare n k))
  unfolding insert_at
  insert_at-find {V} n key v o s hl absent =
      let (i, run, le, lo, hi) = binary_search-finds compare n.keys key o s in
      let gone = equal_at_none n.values i (find-lookup compare n key o s hl) absent lo hl in
      let n' = record n { keys = inserted n.keys i key; values = inserted n.values i v } in
      let s' : Sorted compare n'.keys =
        inserted-Sorted n.keys key i o s le lo hi
          (none_equal compare n.keys key i o s lo hi gone) in
      let kl = length-inserted n.keys i key le in
      let vl = length-inserted n.values i v (omega arith) in
      (
        n',
        rw (run, le→leb i (length n.keys) le, le→leb i (length n.values) (omega arith)),
        s',
        kl,
        omega arith,
        λ k.
            rw
              (
                find-lookup compare n' k o s' (omega arith),
                find-lookup compare n k o s hl,
                lookup-inserted n.keys n.values key v i k o hl le lo,
              )
              (if_ok (is_eq (compare key k)) (some v) (lookup compare n.keys n.values k)),
      )
    where
      equal_at_none :
          (vs : List V) (i : ℕ)
          → find compare n key ≡ ok (lookup compare n.keys vs key)
          → find compare n key ≡ ok none
          → Below compare n.keys key i
          → length vs ≡ length n.keys
          → equal_at compare n.keys i key ≡ false
      equal_at_none vs i e absent lo hl = lookup-none compare n.keys vs key i hl lo (cc)
