-- ===== src/BTree/Cache/Whole.antt =====
-- btree/cache.go: each operation of the cache, as one of the store.
use plakar.Prelude.{
  ℕ, ◌+◌, ◌<◌, ◌≡◌, refl, sym, ap, ◌∙◌, inl, inr, Bool, true, false, Option, none, some, [], arith,
  if◌then◌else◌, Bool-cases, ok, subst,
}
use plakar.BTree.{Node, Storer}
use plakar.BTree.Cache.{
  Item, Cache, set_item, cache_node, get_item, get, update_item, update, put, flushall,
}
use plakar.BTree.Cache.Refines.{
  Decides, Holds, Good, view, shown, cached?, Backed, Same, make_room_lem, cache_node-Good,
  flush_list-Flushed,
}

module _ {S K P V : Type 0} (same : P → P → Bool) (d : Decides same) (st : Storer S K P V)
    (h : Holds same st) where
  abbrev Fits : Cache S K P V → Type 0
  Fits = Good same d st h

  abbrev seen : Cache S K P V → P → Option (Node K P V)
  seen = view same d st h

  -- A store that shows the same nodes, wherever the cache has none of its own.
  Good-store :
      (c : Cache S K P V) (s : S) (miss : ℕ)
      → ((q : P) → h.contents s q ≡ h.contents c.store q)
      → Fits c
      → Fits (record c { store = s; miss = miss })
  Good-store c s miss e g = record {
    listed = g.listed;
    distinct = g.distinct;
    counted = g.counted;
    room = g.room;
    backed = λ q. subst (Backed same d st h (c.items q)) (sym (e q)) (g.backed q);
  }

  get-view :
      (p : P) (m : Node K P V) (c : Cache S K P V)
      → Fits c
      → 0 < c.target
      → seen c p ≡ some m
      → (c' : Cache S K P V) × (get same st p c ≡ ok (m, c')) × Fits c' × Same same d st h c c'
  unfolding get
  get-view p m c g positive e = by_item (c.items p) refl
    where
      by_item :
          (o : Option (Item K P V))
          → c.items p ≡ o
          → (c' : Cache S K P V) × (get_item same st p (c.items p) c ≡ ok (m, c'))
            × Fits c'
            × Same same d st h c c'
      by_item (some i) there =
          let node : i.node ≡ m =
            ground (arith, e, ap (λ o. shown same d st h o (h.contents c.store p)) there) in
          (
            record c { hits = c.hits + 1 },
            ap (λ o. get_item same st p o c) there ∙ rw node,
            record {
              listed = g.listed;
              distinct = g.distinct;
              counted = g.counted;
              room = g.room;
              backed = g.backed;
            },
            λ q. refl,
          )
      by_item none missing =
          let stored : h.contents c.store p ≡ some m =
            sym (ap (λ o. shown same d st h o (h.contents c.store p)) missing) ∙ e in
          let (s, got, as_before) = h.get_lem p c.store m stored in
          let c1 : Cache S K P V = record c { miss = c.miss + 1; store = s } in
          let (c2, is, g2, same2, space, kept) =
            make_room_lem same d st h c1 (Good-store c s (c.miss + 1) as_before g) positive in
          let new = kept p missing in
          let in_store : h.contents c2.store p ≡ some m =
            sym (ap (λ o. shown same d st h o (h.contents c2.store p)) new)
            ∙ same2 p
            ∙ ap (λ o. shown same d st h o (h.contents s p)) missing
            ∙ as_before p
            ∙ stored in
          let (g3, same3) = cache_node-Good same d st h p m c2 g2 new space in_store in
          (
            cache_node same st p m c2,
            ap (λ o. get_item same st p o c) missing ∙ rw (got, is),
            g3,
            λ q. same3 q ∙ same2 q ∙ ap (shown same d st h (c.items q)) (as_before q),
          )

  -- A store that has another node under `p`, where the cache has none.
  Good-written :
      (p : P) (n : Node K P V) (c : Cache S K P V) (s : S)
      → ((q : P) → h.contents s q ≡ (if same q p then some n else h.contents c.store q))
      → c.items p ≡ none
      → Fits c
      → Fits (record c { store = s })
        × ((q : P) → seen (record c { store = s }) q ≡ (if same q p then some n else seen c q))
  Good-written p n c s e missing g = (
    record {
      listed = g.listed;
      distinct = g.distinct;
      counted = g.counted;
      room = g.room;
      backed = λ q. elim (Bool-cases (same q p)) [
        | inl eq ↦
            subst (λ o. Backed same d st h o (h.contents s q))
              (sym (ap c.items (d.eq q p eq) ∙ missing)) tt
        | inr ne ↦ subst (Backed same d st h (c.items q)) (sym (e q ∙ rw ne)) (g.backed q)
      ];
    },
    λ q. elim (Bool-cases (same q p)) [
      | inl eq ↦ rw eq (
          ap (λ o. shown same d st h o (h.contents s q)) (ap c.items (d.eq q p eq) ∙ missing)
          ∙ e q
          ∙ rw eq)
      | inr ne ↦ rw ne (ap (shown same d st h (c.items q)) (e q ∙ rw ne))
    ],
  )

  update-view :
      (p : P) (n m : Node K P V) (c : Cache S K P V)
      → Fits c
      → seen c p ≡ some m
      → (c' : Cache S K P V) × (update same st p n c ≡ ok c')
        × Fits c'
        × ((q : P) → seen c' q ≡ (if same q p then some n else seen c q))
  unfolding update
  update-view p n m c g e = by_item (c.items p) refl
    where
      by_item :
          (o : Option (Item K P V))
          → c.items p ≡ o
          → (c' : Cache S K P V) × (update_item same st p (c.items p) n c ≡ ok c')
            × Fits c'
            × ((q : P) → seen c' q ≡ (if same q p then some n else seen c q))
      by_item none missing =
          let stored : h.contents c.store p ≡ some m =
            sym (ap (λ o. shown same d st h o (h.contents c.store p)) missing) ∙ e in
          let (s, wrote, now) = h.update_lem p c.store n m stored in
          let (g', v) = Good-written p n c s now missing g in
          (record c { store = s }, ap (λ o. update_item same st p o n c) missing ∙ rw wrote, g', v)
      by_item (some i) there =
          let (n0, stored, clean) =
            subst (λ o. Backed same d st h o (h.contents c.store p)) there (g.backed p) in
          let item : Item K P V = record { dirty = true; node = n } in
          (
            record c { items = set_item same st p (some item) c.items },
            ap (λ o. update_item same st p o n c) there,
            record {
              listed = λ q. g.listed q ∙ elim (Bool-cases (same q p)) [
                | inl eq ↦ rw eq (
                    ap (λ r. cached? same d st h (c.items r)) (d.eq q p eq)
                    ∙ ap (cached? same d st h) there)
                | inr ne ↦ rw ne
              ];
              distinct = g.distinct;
              counted = g.counted;
              room = g.room;
              backed = λ q. elim (Bool-cases (same q p)) [
                | inl eq ↦
                    rw eq (n0, ap (h.contents c.store) (d.eq q p eq) ∙ stored, λ x. absurd (cc))
                | inr ne ↦ rw ne (g.backed q)
              ];
            },
            λ q. elim (Bool-cases (same q p)) [ inl eq ↦ rw eq | inr ne ↦ rw ne ],
          )

  put-view :
      (n : Node K P V) (c : Cache S K P V)
      → Fits c
      → (p : P) × (c' : Cache S K P V) × (put same st n c ≡ ok (p, c'))
        × Fits c'
        × (seen c p ≡ none)
        × ((q : P) → seen c' q ≡ (if same q p then some n else seen c q))
  unfolding put
  put-view n c g =
      let (p, s, wrote, free, now) = h.put_lem c.store n in
      let missing = not_cached p free (c.items p) (g.backed p) in
      let (g', v) = Good-written p n c s now missing g in
      (
        p,
        record c { store = s },
        rw wrote,
        g',
        ap (λ o. shown same d st h o (h.contents c.store p)) missing ∙ free,
        v,
      )
    where
      not_cached :
          (p : P)
          → h.contents c.store p ≡ none
          → (o : Option (Item K P V)) → Backed same d st h o (h.contents c.store p)
          → o ≡ none
      not_cached p free none b = refl
      not_cached p free (some i) (n0, stored, clean) = absurd (ground (arith, free, stored))

  flushall-view :
      (c : Cache S K P V)
      → Fits c
      → (c' : Cache S K P V) × (flushall same st c ≡ ok c')
        × Fits c'
        × ((q : P) → h.contents c'.store q ≡ seen c q)
  unfolding flushall
  flushall-view c g =
      let (c', is, g', same') = flush_list-Flushed same d st h c.queue c g in
      (
        record c' { queue = [] },
        rw is,
        g',
        λ q.
            sym (
              ap (λ o. shown same d st h o (h.contents c'.store q))
                (nothing (c'.items q) (sym (g'.listed q))))
            ∙ same' q,
      )
    where
      nothing : (o : Option (Item K P V)) → cached? same d st h o ≡ false → o ≡ none
      nothing none e = refl
      nothing (some i) e = absurd (cc)

  -- The cache is a store: with what it and the store behind it show together as its contents, `Get` gives the
  -- node under a pointer and changes nothing that is shown, `Update` replaces the node under a pointer, `Put`
  -- adds one under a pointer that had none, and `flushall` leaves a store that has what was shown. None of them
  -- fails, and each keeps the cache well formed and no larger than its target, where the store works, the target
  -- is not 0 and the pointer has a node.
  pub cache-Holds :
      (p : P) (n m : Node K P V) (c : Cache S K P V)
      → Good same d st h c
      → 0 < c.target
      → view same d st h c p ≡ some m
      → ((c' : Cache S K P V) × (get same st p c ≡ ok (m, c'))
          × Good same d st h c'
          × ((q : P) → view same d st h c' q ≡ view same d st h c q))
        × ((c' : Cache S K P V) × (update same st p n c ≡ ok c')
            × Good same d st h c'
            × ((q : P)
                → view same d st h c' q ≡ (if same q p then some n else view same d st h c q)))
        × ((p' : P) × (c' : Cache S K P V) × (put same st n c ≡ ok (p', c'))
            × Good same d st h c'
            × (view same d st h c p' ≡ none)
            × ((q : P)
                → view same d st h c' q ≡ (if same q p' then some n else view same d st h c q)))
        × ((c' : Cache S K P V) × (flushall same st c ≡ ok c')
            × Good same d st h c'
            × ((q : P) → h.contents c'.store q ≡ view same d st h c q))
  cache-Holds p n m c g positive e =
      (get-view p m c g positive e, update-view p n m c g e, put-view n c g, flushall-view c g)
