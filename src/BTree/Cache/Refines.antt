-- ===== src/BTree/Cache/Refines.antt =====
-- btree/cache.go: the cache behaves as the store behind it.
use plakar.Prelude.{
  ◌+◌, ◌-◌, ◌≤◌, ◌<◌, ◌≡◌, refl, sym, ap, ◌∙◌, ◌≢◌, ◌⊎◌, inl, inr, Bool, true, false, ◌||◌, Option,
  none, some, List, [], ◌∷◌, ◌++◌, arith, length, length-append, ◌==◌, if◌then◌else◌, Bool-cases,
  ok, subst,
}
use plakar.BTree.{Node, Storer}
use plakar.BTree.Cache.{
  Item, Cache, set_item, cache_node, write_back, flush_item, flush, flush_oldest, make_room,
  flush_list,
}

-- Equality of pointers.
pub record Decides {P : Type 0} (same : P → P → Bool) : Type 0 where
  pub eq : (p q : P) → same p q ≡ true → p ≡ q
  pub self : (p : P) → same p p ≡ true

-- A store that works: it holds a node under each pointer that it gave.
pub record Holds {S K P V : Type 0} (same : P → P → Bool) (st : Storer S K P V) : Type 0 where
  pub contents : S → P → Option (Node K P V)
  pub get_lem :
      (p : P) (s : S) (n : Node K P V)
      → contents s p ≡ some n
      → (s' : S) × (st.get p s ≡ ok (n, s')) × ((q : P) → contents s' q ≡ contents s q)
  pub update_lem :
      (p : P) (s : S) (n m : Node K P V)
      → contents s p ≡ some m
      → (s' : S) × (st.update p n s ≡ ok s')
        × ((q : P) → contents s' q ≡ (if same q p then some n else contents s q))
  pub put_lem :
      (s : S) (n : Node K P V)
      → (p : P) × (s' : S) × (st.put n s ≡ ok (p, s'))
        × (contents s p ≡ none)
        × ((q : P) → contents s' q ≡ (if same q p then some n else contents s q))

module _ {S K P V : Type 0} (same : P → P → Bool) (d : Decides same) (st : Storer S K P V)
    (h : Holds same st) where
  abbrev pub contains : P → List P → Bool
  contains q [] = false
  contains q (p ∷ ps) = same q p || contains q ps

  abbrev pub Distinct : List P → Type 0
  Distinct [] = Unit
  Distinct (p ∷ ps) = (contains p ps ≡ false) × Distinct ps

  abbrev pub cached? : Option (Item K P V) → Bool
  cached? none = false
  cached? (some i) = true

  -- A node as the cache has it, and as the store has it where the cache has none.
  abbrev pub shown : Option (Item K P V) → Option (Node K P V) → Option (Node K P V)
  shown none o = o
  shown (some i) o = some i.node

  abbrev pub view : Cache S K P V → P → Option (Node K P V)
  view c p = shown (c.items p) (h.contents c.store p)

  -- An item is of a node that the store has, and the store has it as it is unless the item is dirty.
  abbrev pub Backed : Option (Item K P V) → Option (Node K P V) → Type 0
  Backed none o = Unit
  Backed (some i) o = (n : Node K P V) × (o ≡ some n) × (i.dirty ≡ false → n ≡ i.node)

  -- The list of the pointers and the map agree, and the cache is no larger than it should be.
  pub record Good (c : Cache S K P V) : Type 0 where
    pub listed : (q : P) → contains q c.queue ≡ cached? (c.items q)
    pub distinct : Distinct c.queue
    pub counted : c.size ≡ length c.queue
    pub room : c.size ≤ c.target
    pub backed : (q : P) → Backed (c.items q) (h.contents c.store q)

  -- The store has each node as the cache shows it, once the one under `p` was written back.
  write_back-Holds :
      (p : P) (i : Item K P V) (s : S)
      → Backed (some i) (h.contents s p)
      → (s' : S) × (write_back same st p i s ≡ ok s')
        × ((q : P) → h.contents s' q ≡ (if same q p then some i.node else h.contents s q))
  write_back-Holds p i s (n, e, clean) = elim (Bool-cases i.dirty) [
    | inl dirty ↦ rw dirty (h.update_lem p s i.node n e)
    | inr fresh ↦ rw fresh (
      s,
      refl,
      λ q. elim (Bool-cases (same q p)) [
        | inl eq ↦ rw eq (ap (h.contents s) (d.eq q p eq) ∙ e ∙ ap some (clean fresh))
        | inr ne ↦ rw ne
      ],
    )
  ]

  -- The cache after its oldest node was written back and forgotten.
  record Flushed (p : P) (ps : List P) (c c' : Cache S K P V) : Type 0 where
    is : flush same st p c ≡ ok c'
    same_view : (q : P) → view c' q ≡ view c q
    items_are : (q : P) → c'.items q ≡ (if same q p then none else c.items q)
    good : Good (record c' { queue = ps })
    smaller : c'.size + 1 ≡ c.size
    bound : c'.target ≡ c.target

  flush-Flushed :
      (p : P) (ps : List P) (c : Cache S K P V)
      → Good (record c { queue = p ∷ ps })
      → (c' : Cache S K P V) × Flushed p ps c c'
  unfolding flush
  flush-Flushed p ps c g = by_item (c.items p) refl
    where
      by_item : (o : Option (Item K P V)) → c.items p ≡ o → (c' : Cache S K P V) × Flushed p ps c c'
      by_item none missing =
          absurd (ground (arith, g.listed p, missing, ap cached? missing, d.self p))
      by_item (some i) there =
          let at_p : Backed (some i) (h.contents c.store p) =
            subst (λ o. Backed o (h.contents c.store p)) there (g.backed p) in
          let (s', wrote, now) = write_back-Holds p i c.store at_p in
          let (apart, rest_distinct) = g.distinct in
          let full : c.size ≡ length ps + 1 = g.counted ∙ omega arith in
          (
            record c { store = s'; items = set_item same st p none c.items; size = c.size - 1 },
            record {
              is = ap (λ o. flush_item same st p o c) there ∙ rw wrote;
              same_view = λ q. elim (Bool-cases (same q p)) [
                | inl eq ↦ rw eq (
                    now q
                    ∙ rw eq (
                        sym (
                          ap (λ r. shown (c.items r) (h.contents c.store r)) (d.eq q p eq)
                          ∙ ap (λ o. shown o (h.contents c.store p)) there)))
                | inr ne ↦ rw ne (ap (shown (c.items q)) (now q ∙ rw ne))
              ];
              items_are = λ q. refl;
              good = record {
                listed = λ q. elim (Bool-cases (same q p)) [
                  | inl eq ↦ rw eq (ap (λ r. contains r ps) (d.eq q p eq) ∙ apart)
                  | inr ne ↦ rw ne (sym (ap (λ b. b || contains q ps) ne) ∙ g.listed q)
                ];
                distinct = rest_distinct;
                counted = omega (arith, full);
                room = omega (arith, g.room);
                backed = λ q. elim (Bool-cases (same q p)) [
                  | inl eq ↦ rw eq tt
                  | inr ne ↦ rw ne (subst (Backed (c.items q)) (sym (now q ∙ rw ne)) (g.backed q))
                ];
              };
              smaller = omega (arith, full);
              bound = refl;
            },
          )

  -- What the list names is written back.
  pub flush_list-Flushed :
      (ps : List P) (c : Cache S K P V)
      → Good (record c { queue = ps })
      → (c' : Cache S K P V) × (flush_list same st ps c ≡ ok c')
        × Good (record c' { queue = [] })
        × ((q : P) → view c' q ≡ view c q)
  unfolding flush_list
  flush_list-Flushed [] c g = (c, refl, g, λ q. refl)
  flush_list-Flushed (p ∷ ps) c g =
      let (c', f) = flush-Flushed p ps c g in
      let (c'', is, g'', same_view) = flush_list-Flushed ps c' f.good in
      (c'', rw (f.is) is, g'', λ q. same_view q ∙ f.same_view q)

  -- With room for one more, a node that the store has is taken into the cache.
  pub cache_node-Good :
      (p : P) (n : Node K P V) (c : Cache S K P V)
      → Good c
      → c.items p ≡ none
      → c.size < c.target
      → h.contents c.store p ≡ some n
      → Good (cache_node same st p n c) × ((q : P) → view (cache_node same st p n c) q ≡ view c q)
  unfolding cache_node
  cache_node-Good p n c g new space e = (
    record {
      listed = λ q. contains-append q c.queue ∙ elim (Bool-cases (same q p)) [
        | inl eq ↦ rw eq (or_true (contains q c.queue))
        | inr ne ↦ rw ne (or_false (contains q c.queue) ∙ g.listed q)
      ];
      distinct = Distinct-append c.queue g.distinct (g.listed p ∙ ap cached? new);
      counted = omega (arith, g.counted, length-append c.queue (p ∷ []));
      room = omega arith;
      backed = λ q. elim (Bool-cases (same q p)) [
        | inl eq ↦ rw eq (n, ap (h.contents c.store) (d.eq q p eq) ∙ e, λ _. refl)
        | inr ne ↦ rw ne (g.backed q)
      ];
    },
    λ q. elim (Bool-cases (same q p)) [
      | inl eq ↦ rw eq (
          sym (
            ap (λ r. shown (c.items r) (h.contents c.store r)) (d.eq q p eq)
            ∙ ap (λ o. shown o (h.contents c.store p)) new
            ∙ e))
      | inr ne ↦ rw ne
    ],
  )
    where
      or_true : (b : Bool) → (b || (true || false)) ≡ true
      or_true b = ground arith

      or_false : (b : Bool) → (b || (false || false)) ≡ b
      or_false b = ground arith

      contains-append :
          (q : P) (ps : List P) → contains q (ps ++ p ∷ []) ≡ (contains q ps || (same q p || false))
      contains-append q [] = refl
      contains-append q (r ∷ ps) = ground (arith, contains-append q ps)

      Distinct-append :
          (ps : List P) → Distinct ps → contains p ps ≡ false → Distinct (ps ++ p ∷ [])
      Distinct-append [] t k = (refl, tt)
      Distinct-append (r ∷ ps) (apart, t) k = (
        contains-append r ps ∙ elim (Bool-cases (same r p)) [
          | inl eq ↦ absurd (ground (arith, k, ap (same p) (d.eq r p eq), d.self p))
          | inr ne ↦ ground (arith, apart, ne)
        ],
        Distinct-append ps t (ground (arith, k)),
      )

  abbrev pub Same : Cache S K P V → Cache S K P V → Type 0
  Same c c' = (q : P) → view c' q ≡ view c q

  -- What `Get` does before it takes a node into the cache.
  pub make_room_lem :
      (c : Cache S K P V)
      → Good c
      → 0 < c.target
      → (c' : Cache S K P V) × (make_room same st c ≡ ok c')
        × Good c'
        × Same c c'
        × (c'.size < c'.target)
        × ((q : P) → c.items q ≡ none → c'.items q ≡ none)
  make_room_lem c g positive = by_size (Bool-cases (c.size == c.target)) c.queue refl
    where
      by_size :
          ((c.size == c.target) ≡ true) ⊎ ((c.size == c.target) ≡ false)
          → (ps : List P) → c.queue ≡ ps
          → (c' : Cache S K P V) × (make_room same st c ≡ ok c')
            × Good c'
            × Same c c'
            × (c'.size < c'.target)
            × ((q : P) → c.items q ≡ none → c'.items q ≡ none)
      by_size (inr less) ps e =
          (c, rw less, g, λ q. refl, omega (arith, g.room, not_equal less), λ q n. n)
        where
          not_equal : (c.size == c.target) ≡ false → c.size ≢ c.target
          not_equal h = λ q. ground (arith, h, q)
      by_size (inl full) [] e =
          absurd (ground (arith, full, positive, g.counted, ap (length {A = P}) e))
      by_size (inl full) (p ∷ ps) e =
          let (c', f) = flush-Flushed p ps c (subst (λ l. Good (record c { queue = l })) e g) in
          (
            record c' { queue = ps },
            rw full (ap (λ l. flush_oldest same st l c) e ∙ rw (f.is)),
            f.good,
            f.same_view,
            omega (arith, f.smaller, f.bound, g.room),
            λ q n.
                f.items_are q ∙ elim (Bool-cases (same q p)) [ inl eq ↦ rw eq | inr ne ↦ rw ne n ],
          )
