-- ===== src/Caching/Repository/Fits.antt =====
-- caching/repository.go: which keys the prefixes of the iterators let through.
use plakar.Prelude.{
  ℕ, ◌≡◌, refl, ap, ◌∙◌, Bool, true, false, ◌&&◌, Option, none, some, [], ◌∷◌, ◌++◌, append_assoc,
  ◌==◌,
}
use plakar.Text.{codes, colon, has_prefix, hex, decimal}
use plakar.Text.Segments.{has_prefix-segment}
use plakar.Text.Hex.{hex-NoColon, beq_bytes-hex}
use plakar.Text.Decimal.{decimal-NoColon, beq_bytes-decimal}
use plakar.Wire.{Bytes, beq_bytes}
use plakar.Caching.Keys.{prefixed}
use plakar.Caching.Repository.Entries.{
  Key, state_key, delta_key, deleted_key, packfile_key, configuration_key, encode, IsMac, IsKey,
  when, delta_of, delta_typed, any_delta, any_deleted, deleted_typed, any_packfile,
}

and_true : (b : Bool) → (b && true) ≡ b
and_true true = refl
and_true false = refl

-- The prefix lets a key through exactly when the test does, and the key ends in the MAC.
pub data Fit (p : Bytes) (k : Key) (o : Option Bytes) : Type 0 where
  skipped : has_prefix (encode k) p ≡ false → o ≡ none → Fit p k o
  kept :
      (m q : Bytes)
      → has_prefix (encode k) p ≡ true
      → o ≡ some m
      → IsMac m
      → encode k ≡ q ++ colon ∷ hex m
      → Fit p k o

abbrev delta_front : ℕ → Bytes → Bytes
delta_front t m = prefixed (codes "__delta__") (decimal t ++ colon ∷ hex m)

delta_end : (t : ℕ) (m p : Bytes) → encode (delta_key t m p) ≡ delta_front t m ++ colon ∷ hex p
delta_end t m p = simp append_assoc

-- A key for which the test decides whether it has the prefix.
tested :
    (p q : Bytes) (k : Key) (b : Bool) (m : Bytes)
    → has_prefix (encode k) p ≡ b
    → IsMac m
    → encode k ≡ q ++ colon ∷ hex m
    → Fit p k (when b m)
tested p q k true m y h e = kept m q y refl h e
tested p q k false m y h e = skipped y refl

pub any_delta-Fit : (k : Key) → IsKey k → Fit (codes "__delta__:") k (any_delta k)
unfolding has_prefix
any_delta-Fit (state_key id) h = skipped refl refl
any_delta-Fit (delta_key t m p) (hm, hp) = kept p (delta_front t m) refl refl hp (delta_end t m p)
any_delta-Fit (deleted_key t m) h = skipped refl refl
any_delta-Fit (packfile_key p) h = skipped refl refl
any_delta-Fit (configuration_key k) h = skipped refl refl

pub delta_typed-Fit :
    (t : ℕ) (k : Key)
    → IsKey k
    → Fit (codes "__delta__:" ++ (decimal t ++ colon ∷ [])) k (delta_typed t k)
unfolding has_prefix
delta_typed-Fit t (state_key id) h = skipped refl refl
delta_typed-Fit t (delta_key t' m p) (hm, hp) =
    tested _ (delta_front t' m) (delta_key t' m p) (t' == t) p
      (has_prefix-segment (decimal t') (decimal t) (hex m ++ colon ∷ hex p) [] (decimal-NoColon t')
          (decimal-NoColon t)
        ∙ rw (beq_bytes-decimal t' t) (and_true (t' == t)))
      hp (delta_end t' m p)
delta_typed-Fit t (deleted_key t' m) h = skipped refl refl
delta_typed-Fit t (packfile_key p) h = skipped refl refl
delta_typed-Fit t (configuration_key k) h = skipped refl refl

pub delta_of-Fit :
    (t : ℕ) (m : Bytes) (k : Key)
    → IsMac m
    → IsKey k
    → Fit (codes "__delta__:" ++ (decimal t ++ colon ∷ (hex m ++ colon ∷ []))) k (delta_of t m k)
unfolding has_prefix
delta_of-Fit t m (state_key id) i h = skipped refl refl
delta_of-Fit t m (delta_key t' m' p) i (hm, hp) =
    tested _ (delta_front t' m') (delta_key t' m' p) ((t' == t) && beq_bytes m' m) p
      (has_prefix-segment (decimal t') (decimal t) (hex m' ++ colon ∷ hex p) (hex m ++ colon ∷ [])
          (decimal-NoColon t') (decimal-NoColon t)
        ∙ rw
            (
              beq_bytes-decimal t' t,
              has_prefix-segment (hex m') (hex m) (hex p) [] (hex-NoColon m' hm.bytes)
                  (hex-NoColon m i.bytes),
              beq_bytes-hex m' m hm.bytes i.bytes,
            )
            (ap (λ b. (t' == t) && b) (and_true (beq_bytes m' m))))
      hp (delta_end t' m' p)
delta_of-Fit t m (deleted_key t' m') i h = skipped refl refl
delta_of-Fit t m (packfile_key p) i h = skipped refl refl
delta_of-Fit t m (configuration_key k) i h = skipped refl refl

deleted_end :
    (t : ℕ) (m : Bytes)
    → encode (deleted_key t m) ≡ prefixed (codes "__deleted__") (decimal t) ++ colon ∷ hex m
deleted_end t m = refl

pub any_deleted-Fit : (k : Key) → IsKey k → Fit (codes "__deleted__:") k (any_deleted k)
unfolding has_prefix
any_deleted-Fit (state_key id) h = skipped refl refl
any_deleted-Fit (delta_key t m p) h = skipped refl refl
any_deleted-Fit (deleted_key t m) h =
    kept m (prefixed (codes "__deleted__") (decimal t)) refl refl h (deleted_end t m)
any_deleted-Fit (packfile_key p) h = skipped refl refl
any_deleted-Fit (configuration_key k) h = skipped refl refl

pub deleted_typed-Fit :
    (t : ℕ) (k : Key)
    → IsKey k
    → Fit (codes "__deleted__:" ++ (decimal t ++ colon ∷ [])) k (deleted_typed t k)
unfolding has_prefix
deleted_typed-Fit t (state_key id) h = skipped refl refl
deleted_typed-Fit t (delta_key t' m p) h = skipped refl refl
deleted_typed-Fit t (deleted_key t' m) h =
    tested _ (prefixed (codes "__deleted__") (decimal t')) (deleted_key t' m) (t' == t) m
      (has_prefix-segment (decimal t') (decimal t) (hex m) [] (decimal-NoColon t')
          (decimal-NoColon t)
        ∙ rw (beq_bytes-decimal t' t) (and_true (t' == t)))
      h (deleted_end t' m)
deleted_typed-Fit t (packfile_key p) h = skipped refl refl
deleted_typed-Fit t (configuration_key k) h = skipped refl refl

pub any_packfile-Fit : (k : Key) → IsKey k → Fit (codes "__packfile__:") k (any_packfile k)
unfolding has_prefix
any_packfile-Fit (state_key id) h = skipped refl refl
any_packfile-Fit (delta_key t m p) h = skipped refl refl
any_packfile-Fit (deleted_key t m) h = skipped refl refl
any_packfile-Fit (packfile_key p) h = kept p (codes "__packfile__") refl refl h refl
any_packfile-Fit (configuration_key k) h = skipped refl refl
