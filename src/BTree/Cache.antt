-- ===== src/BTree/Cache.antt =====
-- btree/cache.go: the cache of nodes in front of a store. A failed operation gives only its error.
pub mod Refines
pub mod Whole
use plakar.Prelude.{
  ℕ, ◌+◌, ◌-◌, Bool, true, false, Option, none, some, List, [], ◌∷◌, ◌++◌, ◌==◌, if◌then◌else◌,
  Result, ok, err, panic, stuck, ◌>>=◌, ◌>>◌,
}
use plakar.BTree.{Node, Storer}

pub record Item (K P V : Type 0) : Type 0 where
  pub dirty : Bool
  pub node : Node K P V

-- `queue` is the linked list from `head` to `tail`, the oldest first; `items` is the map.
pub record Cache (S K P V : Type 0) : Type 0 where
  pub size : ℕ
  pub target : ℕ
  pub store : S
  pub items : P → Option (Item K P V)
  pub queue : List P
  pub hits : ℕ
  pub miss : ℕ

module _ {S K P V : Type 0} (same : P → P → Bool) (st : Storer S K P V) where
  -- A write to the map, and `delete`.
  abbrev pub set_item :
      P → Option (Item K P V) → (P → Option (Item K P V)) → P → Option (Item K P V)
  set_item p i items q = if same q p then i else items q

  unfoldable pub cachefor : S → ℕ → Cache S K P V
  cachefor store order = record {
    size = 0;
    target = order;
    store = store;
    items = λ p. none;
    queue = [];
    hits = 0;
    miss = 0;
  }

  unfoldable pub cache_node : P → Node K P V → Cache S K P V → Cache S K P V
  cache_node ptr node c = record c {
    size = c.size + 1;
    items = set_item ptr (some (record { dirty = false; node = node })) c.items;
    queue = c.queue ++ ptr ∷ [];
  }

  -- `c.store.Update` of a node that is dirty.
  abbrev pub write_back : P → Item K P V → S → Result S
  write_back ptr item s = if item.dirty then st.update ptr item.node s else ok s

  abbrev pub forget : P → Cache S K P V → S → Result (Cache S K P V)
  forget ptr c s = ok (record c { store = s; items = set_item ptr none c.items; size = c.size - 1 })

  -- A pointer that is not in the map panics.
  abbrev pub flush_item : P → Option (Item K P V) → Cache S K P V → Result (Cache S K P V)
  flush_item ptr none c = panic
  flush_item ptr (some item) c = write_back ptr item c.store >>= forget ptr c

  unfoldable pub flush : P → Cache S K P V → Result (Cache S K P V)
  flush ptr c = flush_item ptr (c.items ptr) c

  -- The oldest node makes room; on an empty list `c.head.ptr` panics.
  abbrev pub flush_oldest : List P → Cache S K P V → Result (Cache S K P V)
  flush_oldest [] c = panic
  flush_oldest (p ∷ ps) c = flush p c >>= λ c'. ok (record c' { queue = ps })

  abbrev pub make_room : Cache S K P V → Result (Cache S K P V)
  make_room c = if c.size == c.target then flush_oldest c.queue c else ok c

  abbrev pub get_item :
      P → Option (Item K P V) → Cache S K P V → Result (Node K P V × Cache S K P V)
  get_item ptr (some item) c = ok (item.node, record c { hits = c.hits + 1 })
  get_item ptr none c = do
    (node, s) ← st.get ptr c.store
    c' ← make_room (record c { miss = c.miss + 1; store = s })
    ok (node, cache_node ptr node c')

  unfoldable pub get : P → Cache S K P V → Result (Node K P V × Cache S K P V)
  unfolding cache_node flush
  get ptr c = get_item ptr (c.items ptr) c

  abbrev pub update_item :
      P → Option (Item K P V) → Node K P V → Cache S K P V → Result (Cache S K P V)
  update_item ptr (some item) node c =
      ok (record c { items = set_item ptr (some (record { dirty = true; node = node })) c.items })
  update_item ptr none node c = st.update ptr node c.store >>= λ s. ok (record c { store = s })

  unfoldable pub update : P → Node K P V → Cache S K P V → Result (Cache S K P V)
  update ptr node c = update_item ptr (c.items ptr) node c

  unfoldable pub put : Node K P V → Cache S K P V → Result (P × Cache S K P V)
  put node c = st.put node c.store >>= λ r. ok (r.0, record c { store = r.1 })

  unfoldable pub flush_list : List P → Cache S K P V → Result (Cache S K P V)
  flush_list [] c = ok c
  flush_list (p ∷ ps) c = flush p c >>= flush_list ps

  unfoldable pub flushall : Cache S K P V → Result (Cache S K P V)
  unfolding flush_list
  flushall c = flush_list c.queue c >>= λ c'. ok (record c' { queue = [] })

  -- The cache as the store that a tree uses.
  unfoldable pub cached : Storer (Cache S K P V) K P V
  cached = record { get = get; update = update; put = put }
