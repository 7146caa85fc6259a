-- ===== src/Caching/Store/Nodes.antt =====
-- caching/store.go: the nodes that are read back.
use plakar.Prelude.{
  ℕ, ◌+◌, ◌≡◌, refl, ap, ◌∙◌, inl, inr, false, none, [], ◌∷◌, arith, ◌==◌, if◌then◌else◌,
  Bool-cases, ok, ◌>>=◌,
}
use plakar.Text.{colon, decimal}
use plakar.Text.Segments.{beq_bytes-append}
use plakar.Text.Decimal.{beq_bytes-decimal}
use plakar.Wire.{Bytes, beq_bytes}
use plakar.Caching.Database.{Table, LevelDb, Works, has_key, find, or_not_found}
use plakar.Caching.Keys
use plakar.Caching.Keys.{prefixed, get-put, nil_if_missing}
use plakar.Caching.Store.{Msgpack, DbStore, or_error, get_node, update_node, put_node}
use plakar.BTree.{Node}

beq_bytes-prefixed :
    (prefix : Bytes) (i j : ℕ)
    → beq_bytes (prefixed prefix (decimal i)) (prefixed prefix (decimal j)) ≡ (i == j)
unfolding beq_bytes
beq_bytes-prefixed prefix i j =
    beq_bytes-append prefix (colon ∷ decimal i) (colon ∷ decimal j) ∙ beq_bytes-decimal i j

find-none : (k : Bytes) (t : Table) → has_key k t ≡ false → find k t ≡ none
unfolding find has_key
find-none k [] h = refl
find-none k ((k', v) ∷ t) h = ground (arith, find-none k t)

module _ {D K V : Type 0} (db : LevelDb D) (w : Works db) (m : Msgpack (Node K ℕ V)) where
  get-put_same :
      (prefix v : Bytes) (i j : ℕ) (d : D)
      → Keys.get db prefix (decimal j) (Keys.put db prefix (decimal i) v d).0
        ≡ (if j == i then ok v else Keys.get db prefix (decimal j) d)
  get-put_same prefix v i j d =
      get-put db w prefix (decimal j) prefix (decimal i) v d ∙ rw (beq_bytes-prefixed prefix j i)

  get_node-write :
      (n : Node K ℕ V) (v : Bytes) (i j k : ℕ) (ds : DbStore D)
      → (m.unmarshal v).0 ≡ n
      → get_node db m j
          (record ds { idx = k; cache = (Keys.put db ds.prefix (decimal i) v ds.cache).0 })
        ≡ (if j == i then ok n else get_node db m j ds)
  unfolding get_node
  get_node-write n v i j k ds h =
      ap (λ r. r >>= λ bytes. ok (m.unmarshal bytes).0) (get-put_same ds.prefix v i j ds.cache)
      ∙ elim (Bool-cases (j == i)) [ inl same ↦ rw same (ap ok h) | inr other ↦ rw other ]

  no_error :
      {A : Type 0} (prefix key v : Bytes) (d : D) (a : A)
      → or_error (Keys.put db prefix key v d).1 a ≡ ok a
  unfolding Keys.put
  no_error prefix key v d a = rw (w.put_works (prefixed prefix key) v d)

  -- Where msgpack encodes the node and decodes what it encoded, `Put` stores it under a new index and
  -- `Update` under the given one: `Get` of that index gives the node, and of any other what it gave
  -- before.
  pub get_node-put_node :
      (n : Node K ℕ V) (b : Bytes) (i j : ℕ) (ds : DbStore D)
      → m.marshal n ≡ ok b
      → (m.unmarshal b).0 ≡ n
      → (ds' : DbStore D) × (put_node db m n ds ≡ (ds', ok (ds.idx + 1)))
        × (get_node db m j ds' ≡ (if j == ds.idx + 1 then ok n else get_node db m j ds))
        × (ds'' : DbStore D) × (update_node db m i n ds ≡ ok ds'')
        × (get_node db m j ds'' ≡ (if j == i then ok n else get_node db m j ds))
  unfolding put_node update_node
  get_node-put_node n b i j ds h k = (
    after_put,
    rw h (
        ap (λ r. (after_put, r))
          (no_error ds.prefix (decimal (ds.idx + 1)) b ds.cache (ds.idx + 1))),
    get_node-write n b (ds.idx + 1) j (ds.idx + 1) ds k,
    record ds { cache = (Keys.put db ds.prefix (decimal i) b ds.cache).0 },
    rw h (no_error ds.prefix (decimal i) b ds.cache _),
    get_node-write n b i j ds.idx ds k,
  )
    where
      after_put : DbStore D
      after_put = record ds {
        idx = ds.idx + 1;
        cache = (Keys.put db ds.prefix (decimal (ds.idx + 1)) b ds.cache).0;
      }

  -- `Get` of an index that is not in the database gives a node and no error: what msgpack makes of no
  -- bytes.
  pub get_node-missing :
      (i : ℕ) (ds : DbStore D)
      → has_key (prefixed ds.prefix (decimal i)) (w.entries ds.cache) ≡ false
      → get_node db m i ds ≡ ok (m.unmarshal []).0
  unfolding get_node Keys.get
  get_node-missing i ds h =
      ap (λ r. nil_if_missing r >>= λ bytes. ok (m.unmarshal bytes).0)
        (w.get_finds (prefixed ds.prefix (decimal i)) ds.cache)
      ∙ ap (λ o. nil_if_missing (or_not_found o) >>= λ bytes. ok (m.unmarshal bytes).0)
          (find-none (prefixed ds.prefix (decimal i)) (w.entries ds.cache) h)
