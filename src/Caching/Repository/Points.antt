-- ===== src/Caching/Repository/Points.antt =====
-- caching/repository.go: the lookups of single keys, against the keys as data.
use plakar.Prelude.{
  ℕ, ◌≡◌, refl, ap, ◌∙◌, inl, inr, Bool, true, false, ◌&&◌, Option, none, some, [], ◌∷◌, ◌++◌, ◌==◌,
  if◌then◌else◌, Bool-cases, All, ok,
}
use plakar.Text.{codes, colon, hex, decimal}
use plakar.Text.Segments.{beq_bytes-segment, beq_bytes-NoColon}
use plakar.Text.Hex.{hex-NoColon, beq_bytes-hex}
use plakar.Text.Decimal.{decimal-NoColon, beq_bytes-decimal}
use plakar.Wire.{Bytes, beq_bytes}
use plakar.Caching.Database.{LevelDb, Works, or_not_found, find, has_key}
use plakar.Caching.Keys.{prefixed, typed, located, get, has, nil_if_missing}
use plakar.Caching.Repository.{
  has_state, get_state, has_delta, has_deleted, has_packfile, get_configuration,
}
use plakar.Caching.Repository.Entries.{
  Key, state_key, delta_key, deleted_key, packfile_key, configuration_key, encode, IsMac, IsKey,
  Entries, encode_all, Holds,
}

abbrev pub beq_key : Key → Key → Bool
beq_key (state_key a) (state_key b) = beq_bytes a b
beq_key (delta_key t m p) (delta_key t' m' p') = (t == t') && (beq_bytes m m' && beq_bytes p p')
beq_key (deleted_key t m) (deleted_key t' m') = (t == t') && beq_bytes m m'
beq_key (packfile_key a) (packfile_key b) = beq_bytes a b
beq_key (configuration_key a) (configuration_key b) = beq_bytes a b
beq_key _ _ = false

pub beq_bytes-typed :
    (t t' : ℕ) (m m' : Bytes)
    → IsMac m
    → IsMac m'
    → beq_bytes (typed t m) (typed t' m') ≡ ((t == t') && beq_bytes m m')
beq_bytes-typed t t' m m' h h' =
    beq_bytes-segment (decimal t) (decimal t') (hex m) (hex m') (decimal-NoColon t)
      (decimal-NoColon t')
    ∙ rw (beq_bytes-decimal t t', beq_bytes-hex m m' h.bytes h'.bytes)

beq_bytes-located :
    (t t' : ℕ) (m m' p p' : Bytes)
    → IsMac m
    → IsMac m'
    → IsMac p
    → IsMac p'
    → beq_bytes (located t m p) (located t' m' p')
      ≡ ((t == t') && (beq_bytes m m' && beq_bytes p p'))
beq_bytes-located t t' m m' p p' h h' i i' =
    beq_bytes-segment (decimal t) (decimal t') (hex m ++ colon ∷ hex p) (hex m' ++ colon ∷ hex p')
      (decimal-NoColon t) (decimal-NoColon t')
    ∙ rw (
      beq_bytes-decimal t t',
      beq_bytes-segment (hex m) (hex m') (hex p) (hex p') (hex-NoColon m h.bytes)
          (hex-NoColon m' h'.bytes),
      beq_bytes-hex m m' h.bytes h'.bytes,
      beq_bytes-hex p p' i.bytes i'.bytes,
    )

-- The format of the keys tells them apart.
pub beq_bytes-encode :
    (j k : Key) → IsKey j → IsKey k → beq_bytes (encode j) (encode k) ≡ beq_key j k
unfolding beq_bytes
beq_bytes-encode (state_key a) (state_key b) h i = beq_bytes-hex a b h.bytes i.bytes
beq_bytes-encode (state_key a) (delta_key t m p) h i = refl
beq_bytes-encode (state_key a) (deleted_key t m) h i = refl
beq_bytes-encode (state_key a) (packfile_key p) h i = refl
beq_bytes-encode (state_key a) (configuration_key k) h i = refl
beq_bytes-encode (delta_key t m p) (state_key b) h i = refl
beq_bytes-encode (delta_key t m p) (delta_key t' m' p') (h, hp) (i, ip) =
    beq_bytes-located t t' m m' p p' h i hp ip
beq_bytes-encode (delta_key t m p) (deleted_key t' m') h i = refl
beq_bytes-encode (delta_key t m p) (packfile_key p') h i = refl
beq_bytes-encode (delta_key t m p) (configuration_key k) h i = refl
beq_bytes-encode (deleted_key t m) (state_key b) h i = refl
beq_bytes-encode (deleted_key t m) (delta_key t' m' p') h i = refl
beq_bytes-encode (deleted_key t m) (deleted_key t' m') h i = beq_bytes-typed t t' m m' h i
beq_bytes-encode (deleted_key t m) (packfile_key p') h i = refl
beq_bytes-encode (deleted_key t m) (configuration_key k) h i = refl
beq_bytes-encode (packfile_key p) (state_key b) h i = refl
beq_bytes-encode (packfile_key p) (delta_key t' m' p') h i = refl
beq_bytes-encode (packfile_key p) (deleted_key t' m') h i = refl
beq_bytes-encode (packfile_key p) (packfile_key p') h i = beq_bytes-hex p p' h.bytes i.bytes
beq_bytes-encode (packfile_key p) (configuration_key k) h i = refl
beq_bytes-encode (configuration_key k) (state_key b) h i = refl
beq_bytes-encode (configuration_key k) (delta_key t' m' p') h i = refl
beq_bytes-encode (configuration_key k) (deleted_key t' m') h i = refl
beq_bytes-encode (configuration_key k) (packfile_key p') h i = refl
beq_bytes-encode (configuration_key k) (configuration_key k') h i = refl

-- The entry under a key.
unfoldable pub value_of : Key → Entries → Option Bytes
value_of j [] = none
value_of j ((k, v) ∷ es) = if beq_key j k then some v else value_of j es

abbrev pub is_some {ℓ} : {A : Type ℓ} → Option A → Bool
is_some none = false
is_some (some a) = true

abbrev pub or_nil : Option Bytes → Bytes
or_nil none = []
or_nil (some v) = v

find-encode :
    (j : Key) (es : Entries)
    → IsKey j
    → All (λ e. IsKey e.0) es
    → find (encode j) (encode_all es) ≡ value_of j es
unfolding find value_of
find-encode j [] h i = refl
find-encode j ((k, v) ∷ es) h (hk, i) = rw (beq_bytes-encode j k h hk, find-encode j es h i)

has_key-encode :
    (j : Key) (es : Entries)
    → IsKey j
    → All (λ e. IsKey e.0) es
    → has_key (encode j) (encode_all es) ≡ is_some (value_of j es)
unfolding has_key value_of
has_key-encode j [] h i = refl
has_key-encode j ((k, v) ∷ es) h (hk, i) =
    rw (beq_bytes-encode j k h hk, has_key-encode j es h i)
      (elim (Bool-cases (beq_key j k)) [ inl same ↦ rw same | inr other ↦ rw other ])

-- The key that `HasDelta` looks for is not one that `PutDelta` writes.
has_delta-key :
    (t : ℕ) (m : Bytes) (k : Key)
    → IsMac m
    → IsKey k
    → beq_bytes (prefixed (codes "__delta__") (typed t m)) (encode k) ≡ false
unfolding beq_bytes
has_delta-key t m (state_key b) h i = refl
has_delta-key t m (delta_key t' m' p) h (i, ip) =
    beq_bytes-segment (decimal t) (decimal t') (hex m) (hex m' ++ colon ∷ hex p) (decimal-NoColon t)
      (decimal-NoColon t')
    ∙ rw (beq_bytes-NoColon (hex m) (hex m') (hex p) (hex-NoColon m h.bytes))
        (and_false (beq_bytes (decimal t) (decimal t')))
  where
    and_false : (b : Bool) → (b && false) ≡ false
    and_false true = refl
    and_false false = refl
has_delta-key t m (deleted_key t' m') h i = refl
has_delta-key t m (packfile_key p) h i = refl
has_delta-key t m (configuration_key k) h i = refl

has_delta-none :
    (t : ℕ) (m : Bytes) (es : Entries)
    → IsMac m
    → All (λ e. IsKey e.0) es
    → has_key (prefixed (codes "__delta__") (typed t m)) (encode_all es) ≡ false
unfolding has_key
has_delta-none t m [] h i = refl
has_delta-none t m ((k, v) ∷ es) h (hk, i) =
    rw (has_delta-key t m k h hk) (has_delta-none t m es h i)

nil_if_missing-or_not_found : (o : Option Bytes) → nil_if_missing (or_not_found o) ≡ ok (or_nil o)
nil_if_missing-or_not_found none = refl
nil_if_missing-or_not_found (some v) = refl

module _ {D : Type 0} (db : LevelDb D) (w : Works db) (d : D) (es : Entries)
    (h : Holds db w d es) where
  has-value_of :
      (prefix key : Bytes) (k : Key)
      → IsKey k
      → prefixed prefix key ≡ encode k
      → has db prefix key d ≡ ok (is_some (value_of k es))
  unfolding has
  has-value_of prefix key k i e =
      w.has_finds (prefixed prefix key) d
      ∙ ap (λ t. ok (has_key (prefixed prefix key) t)) h.entries_are
      ∙ ap (λ q. ok (has_key q (encode_all es))) e
      ∙ ap ok (has_key-encode k es i h.keys_are)

  get-value_of :
      (prefix key : Bytes) (k : Key)
      → IsKey k
      → prefixed prefix key ≡ encode k
      → get db prefix key d ≡ ok (or_nil (value_of k es))
  unfolding get
  get-value_of prefix key k i e =
      ap nil_if_missing (w.get_finds (prefixed prefix key) d)
      ∙ ap (λ t. nil_if_missing (or_not_found (find (prefixed prefix key) t))) h.entries_are
      ∙ ap (λ q. nil_if_missing (or_not_found (find q (encode_all es)))) e
      ∙ ap (λ o. nil_if_missing (or_not_found o)) (find-encode k es i h.keys_are)
      ∙ nil_if_missing-or_not_found (value_of k es)

  -- The lookups of the cache, on a database that holds entries under the cache's keys: `HasState`,
  -- `HasDeleted` and `HasPackfile` say whether there is an entry, `GetState` and `GetConfiguration` give
  -- it, or nil.
  pub lookups-value_of :
      (id m p key : Bytes) (t : ℕ)
      → IsMac id
      → IsMac m
      → IsMac p
      → (has_state db id d ≡ ok (is_some (value_of (state_key id) es)))
        × (get_state db id d ≡ ok (or_nil (value_of (state_key id) es)))
        × (has_deleted db t m d ≡ ok (is_some (value_of (deleted_key t m) es)))
        × (has_packfile db p d ≡ ok (is_some (value_of (packfile_key p) es)))
        × (get_configuration db key d ≡ ok (or_nil (value_of (configuration_key key) es)))
  unfolding has_state get_state has_deleted has_packfile get_configuration
  lookups-value_of id m p key t hid hm hp = (
    has-value_of _ _ (state_key id) hid refl,
    get-value_of _ _ (state_key id) hid refl,
    has-value_of _ _ (deleted_key t m) hm refl,
    has-value_of _ _ (packfile_key p) hp refl,
    get-value_of _ _ (configuration_key key) tt refl,
  )

  -- `HasDelta` answers no, for every type and blob, whatever deltas the cache holds: the key that it
  -- looks for has no packfile in it, while each key that `PutDelta` writes has one.
  pub has_delta-misses : (t : ℕ) (m : Bytes) → IsMac m → has_delta db t m d ≡ ok false
  unfolding has_delta has
  has_delta-misses t m hm =
      w.has_finds (prefixed (codes "__delta__") (typed t m)) d
      ∙ ap (λ u. ok (has_key (prefixed (codes "__delta__") (typed t m)) u)) h.entries_are
      ∙ ap ok (has_delta-none t m es hm h.keys_are)
