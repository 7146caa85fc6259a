-- ===== src/BTree/Scan/Order.antt =====
-- btree/iter.go: what a scan yields.
use plakar.Prelude.{
  ℕ, zero, suc, ◌+◌, ◌-◌, ◌≤◌, ◌<◌, ◌≡◌, refl, sym, ap, ◌∙◌, subst, Bool, true, false, Option, none,
  some, List, [], ◌∷◌, ◌++◌, arith, length, drop, ltb, Result, ok, stuck, ◌>>=◌,
}
use plakar.BTree.{Node, Storer, BTree, isleaf, at}
use plakar.BTree.Cache.Refines.{Holds}
use plakar.BTree.Scan.{ForwardIter, enter, next_leaf, next, current, leftmost, scan_all}

abbrev pub zip {ℓ κ} : {A : Type ℓ} {B : Type κ} → List A → List B → List (A × B)
zip [] ys = []
zip (x ∷ xs) [] = []
zip (x ∷ xs) (y ∷ ys) = (x, y) ∷ zip xs ys

drop-at {ℓ} :
    {A : Type ℓ} (k : ℕ) (xs : List A) (y : A) (ys : List A)
    → drop k xs ≡ y ∷ ys
    → (at xs k ≡ ok y) × (drop (suc k) xs ≡ ys) × (k < length xs)
drop-at zero [] y ys h = cc
drop-at zero (x ∷ xs) y ys h = (ground (arith, h), ground (arith, h), omega arith)
drop-at (suc k) [] y ys h = cc
drop-at (suc k) (x ∷ xs) y ys h = let (a, b, c) = drop-at k xs y ys h in (a, b, omega (arith, c))

drop-none {ℓ} : {A : Type ℓ} (k : ℕ) (xs : List A) → drop k xs ≡ [] → length xs ≤ k
drop-none zero [] h = omega arith
drop-none zero (x ∷ xs) h = cc
drop-none (suc k) [] h = omega arith
drop-none (suc k) (x ∷ xs) h = omega (arith, drop-none k xs h)

next_index : (n : ℕ) → n + 1 ≡ suc n
next_index n = omega arith

module _ {S K P V : Type 0} (st : Storer S K P V) where
  -- A client that goes through an iterator: the entries, and the iterator after its last `Next`.
  abbrev yielded :
      (ForwardIter S K P V → Result (List (K × V) × ForwardIter S K P V))
      → Bool × ForwardIter S K P V
      → Result (List (K × V) × ForwardIter S K P V)
  yielded again (false, it) = ok ([], it)
  yielded again (true, it) = do e ← current st it; (es, it') ← again it; ok (e ∷ es, it')

  unfoldable pub collect : ℕ → ForwardIter S K P V → Result (List (K × V) × ForwardIter S K P V)
  collect zero it = stuck
  collect (suc fuel) it = next st it >>= yielded (collect fuel)

  -- The iterator once `idx` was incremented.
  abbrev bumped : ForwardIter S K P V → ForwardIter S K P V
  bumped it = record it { upcoming = it.upcoming + 1 }

  current-at :
      (it : ForwardIter S K P V) (u : ℕ) (k : K) (v : V)
      → it.upcoming ≡ u + 1
      → at it.current.keys u ≡ ok k
      → at it.current.values u ≡ ok v
      → current st it ≡ ok (k, v)
  unfolding current
  current-at it u k v e hk hv =
      let idx : it.upcoming - 1 ≡ u = omega (arith, e) in
      let begun : ltb 0 it.upcoming ≡ true = ground (arith, e) in rw (begun, idx, hk, hv) refl

  next-inside :
      (it : ForwardIter S K P V)
      → it.failed ≡ none
      → it.upcoming < length it.current.values
      → next st it ≡ ok (true, bumped it)
  unfolding next
  next-inside it nf lt =
      let here : ltb it.upcoming (length it.current.values) ≡ true = ground (arith, lt) in
      rw (nf, here) refl

  next-over :
      (it : ForwardIter S K P V) (o : Option P)
      → it.failed ≡ none
      → length it.current.values ≤ it.upcoming
      → it.current.next ≡ o
      → next st it ≡ next_leaf st o (bumped it)
  unfolding next
  next-over it o nf le e =
      let behind : ltb it.upcoming (length it.current.values) ≡ false = ground (arith, le) in
      rw (nf, behind, e) refl

module _ {S K P V : Type 0} (same : P → P → Bool) (st : Storer S K P V) (h : Holds same st)
    (nodes : P → Option (Node K P V)) where
  -- The leaves that are linked one behind the other, and their entries in order; no leaf behind the first is empty.
  pub data After : Option P → List (K × V) → Type 0 where
    over : After none []
    link :
        (p : P) (n : Node K P V) (x : K) (xs : List K) (v : V) (vs : List V) (es : List (K × V))
        → nodes p ≡ some n
        → n.keys ≡ x ∷ xs
        → n.values ≡ v ∷ vs
        → length xs ≡ length vs
        → After n.next es
        → After (some p) ((x, v) ∷ zip xs vs ++ es)

  abbrev Finishes : List (K × V) → Result (List (K × V) × ForwardIter S K P V) → Type 0
  Finishes es r = (it : ForwardIter S K P V) × (r ≡ ok (es, it)) × (it.failed ≡ none)

  -- One entry, and those behind it.
  yields_one :
      (fuel : ℕ) (it it' : ForwardIter S K P V) (e : K × V) (es : List (K × V))
      → next st it ≡ ok (true, it')
      → current st it' ≡ ok e
      → Finishes es (collect st fuel it')
      → Finishes (e ∷ es) (collect st (suc fuel) it)
  unfolding collect
  yields_one fuel it it' e es n c (last, r, nf) = (last, rw (n, c, r) refl, nf)

  collect-Finishes :
      (fuel : ℕ) (it : ForwardIter S K P V) (ks : List K) (vs : List V) (es : List (K × V))
      → it.failed ≡ none
      → ((q : P) → h.contents it.store q ≡ nodes q)
      → drop it.upcoming it.current.keys ≡ ks
      → drop it.upcoming it.current.values ≡ vs
      → length ks ≡ length vs
      → After it.current.next es
      → length (zip ks vs ++ es) < fuel
      → Finishes (zip ks vs ++ es) (collect st fuel it)
  unfolding collect next next_leaf enter current
  collect-Finishes zero it ks vs es nf holds dk dv len a enough = absurd (omega arith)
  collect-Finishes (suc fuel) it [] (v ∷ vs) es nf holds dk dv len a enough =
      absurd (omega (arith, len))
  collect-Finishes (suc fuel) it (k ∷ ks) [] es nf holds dk dv len a enough =
      absurd (omega (arith, len))
  collect-Finishes (suc fuel) it (k ∷ ks) (v ∷ vs) es nf holds dk dv len a enough =
      let (ak, bk, ck) = drop-at it.upcoming it.current.keys k ks dk in
      let (av, bv, cv) = drop-at it.upcoming it.current.values v vs dv in
      yields_one fuel it (bumped st it) (k, v) _ (next-inside st it nf cv)
        (current-at st (bumped st it) it.upcoming k v refl ak av)
        (collect-Finishes fuel (bumped st it) ks vs es nf holds
          (ap (λ j. drop j it.current.keys) (next_index it.upcoming) ∙ bk)
          (ap (λ j. drop j it.current.values) (next_index it.upcoming) ∙ bv) (omega (arith, len)) a
          (omega (arith, enough)))
  collect-Finishes (suc fuel) it [] [] es nf holds dk dv len a enough =
      go (λ it' ks vs es. collect-Finishes fuel it' ks vs es) it.current.next es refl a enough
    where
      go :
          ((it' : ForwardIter S K P V) (ks : List K) (vs : List V) (es : List (K × V))
            → it'.failed ≡ none
            → ((q : P) → h.contents it'.store q ≡ nodes q)
            → drop it'.upcoming it'.current.keys ≡ ks
            → drop it'.upcoming it'.current.values ≡ vs
            → length ks ≡ length vs
            → After it'.current.next es
            → length (zip ks vs ++ es) < fuel
            → Finishes (zip ks vs ++ es) (collect st fuel it'))
          → (o : Option P) (es : List (K × V)) → it.current.next ≡ o
          → After o es
          → length es < suc fuel
          → Finishes es (collect st (suc fuel) it)
      go ih o es e over few = (
        bumped st it,
        rw (next-over st it none nf (drop-none it.upcoming it.current.values dv) e) refl,
        nf,
      )
      go ih o es e (link p n x xs v vs es' at_p kn vn len' a') few =
          let (s', got, kept) = h.get_lem p it.store n (holds p ∙ at_p) in
          let it' : ForwardIter S K P V = record it {
            store = s';
            ptr = p;
            current = n;
            upcoming = 1;
          } in
          yields_one fuel it it' (x, v) _
            (next-over st it (some p) nf (drop-none it.upcoming it.current.values dv) e
              ∙ rw got refl)
            (current-at st it' 0 x v refl (rw kn refl) (rw vn refl))
            (ih it' xs vs es' nf (λ q. kept q ∙ holds q) (rw kn refl) (rw vn refl) len' a'
              (omega (arith, few)))

  -- The first leaf below a pointer, and how far down it is.
  pub data First : P → Node K P V → ℕ → Type 0 where
    here : (p : P) (n : Node K P V) → nodes p ≡ some n → isleaf n ≡ true → First p n 0
    below :
        (p : P) (n : Node K P V) (q : P) (qs : List P) (leaf : Node K P V) (d : ℕ)
        → nodes p ≡ some n
        → n.pointers ≡ q ∷ qs
        → First q leaf d
        → First p leaf (suc d)

  abbrev Begins : Node K P V → Result (ForwardIter S K P V) → Type 0
  Begins leaf r =
      (it : ForwardIter S K P V) × (r ≡ ok it)
      × (it.current ≡ leaf)
      × (it.failed ≡ none)
      × (it.upcoming ≡ 0)
      × ((q : P) → h.contents it.store q ≡ nodes q)

  leftmost-Begins :
      (fuel : ℕ) (p : P) (s : S) (leaf : Node K P V) (d : ℕ)
      → ((q : P) → h.contents s q ≡ nodes q)
      → First p leaf d
      → d < fuel
      → Begins leaf (leftmost st fuel p s)
  unfolding leftmost isleaf
  leftmost-Begins zero p s leaf d holds f few = absurd (omega (arith, few))
  leftmost-Begins (suc fuel) p s leaf d holds (here _ _ at_p l) few =
      let (s', got, kept) = h.get_lem p s leaf (holds p ∙ at_p) in
      (
        record { store = s'; ptr = p; current = leaf; failed = none; upcoming = 0 },
        rw (got, l) refl,
        refl,
        refl,
        refl,
        λ q. kept q ∙ holds q,
      )
  leftmost-Begins (suc fuel) p s leaf d holds (below _ n q qs _ d' at_p first f) few =
      let (s', got, kept) = h.get_lem p s n (holds p ∙ at_p) in
      let (it, r, e, nf, begun, kept') =
        leftmost-Begins fuel q s' leaf d' (λ q. kept q ∙ holds q) f (omega (arith, few)) in
      let inner : isleaf n ≡ false = rw first (ground arith) in
      let to_q : at n.pointers 0 ≡ ok q = rw first refl in
      (it, rw (got, inner, to_q, r) refl, e, nf, begun, kept')

  -- ScanAll goes down to the first leaf, and a client that calls Next until it answers no gets the entries of that
  -- leaf and of those that it leads to, in order, with no error: where the store works, each leaf has as many values
  -- as keys, and none behind the first is empty. The bounds exceed the depth and the number of entries.
  pub scan_all-yields :
      (b : BTree S P) (leaf : Node K P V) (d depth fuel : ℕ) (es : List (K × V))
      → ((q : P) → h.contents b.store q ≡ nodes q)
      → First b.root leaf d
      → length leaf.keys ≡ length leaf.values
      → After leaf.next es
      → d < depth
      → length (zip leaf.keys leaf.values ++ es) < fuel
      → (it it' : ForwardIter S K P V) × (scan_all st depth b ≡ ok it)
        × (collect st fuel it ≡ ok (zip leaf.keys leaf.values ++ es, it'))
        × (it'.failed ≡ none)
  unfolding scan_all
  scan_all-yields b leaf d depth fuel es holds f len a few enough =
      let (it, r, e, nf, begun, kept) = leftmost-Begins depth b.root b.store leaf d holds f few in
      let (it', c, ended) =
        collect-Finishes fuel it leaf.keys leaf.values es nf kept (rw (begun, e) refl)
          (rw (begun, e) refl) len (subst (λ n. After n.next es) (sym e) a) enough in
      (it, it', r, c, ended)
