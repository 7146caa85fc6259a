-- ===== src/Caching/Database/Prefix.antt =====
-- The loops of the caches over the keys with a prefix: seek it, and stop at the first key without it.
use plakar.Prelude.{
  ◌≡◌, refl, sym, ap, inl, inr, true, false, [], ◌∷◌, arith, if◌then◌else◌, Bool-cases, All,
  All-map,
}
use plakar.Text.{has_prefix, lt_bytes}
use plakar.Wire.{Bytes}
use plakar.Caching.Database.{Table, from_key, Increasing, with_prefix}

-- `for iter.Seek(p); iter.Valid(); iter.Next() { if !HasPrefix(iter.Key(), p) { break } … }`
unfoldable pub run_of : Bytes → Table → Table
run_of p [] = []
run_of p ((k, v) ∷ t) = if has_prefix k p then (k, v) ∷ run_of p t else []

has_prefix-ge : (k p : Bytes) → has_prefix k p ≡ true → lt_bytes k p ≡ false
unfolding has_prefix lt_bytes
has_prefix-ge k [] h = refl
has_prefix-ge [] (y ∷ p) h = cc
has_prefix-ge (x ∷ k) (y ∷ p) h = ground (arith, has_prefix-ge k p)

-- Behind the keys with the prefix there is none.
past :
    (k k' p : Bytes)
    → lt_bytes k p ≡ false
    → has_prefix k p ≡ false
    → lt_bytes k k' ≡ true
    → has_prefix k' p ≡ false
unfolding has_prefix lt_bytes
past k k' [] h n l = cc
past k [] (y ∷ p) h n l = refl
past [] (z ∷ k') (y ∷ p) h n l = cc
past (x ∷ k) (z ∷ k') (y ∷ p) h n l = ground (arith, past k k' p)

ge_trans : (k k' p : Bytes) → lt_bytes k p ≡ false → lt_bytes k k' ≡ true → lt_bytes k' p ≡ false
unfolding lt_bytes
ge_trans k k' [] h l = refl
ge_trans k [] (y ∷ p) h l = cc
ge_trans [] (z ∷ k') (y ∷ p) h l = cc
ge_trans (x ∷ k) (z ∷ k') (y ∷ p) h l = ground (arith, ge_trans k k' p)

none_after :
    (k p : Bytes) (t : Table)
    → lt_bytes k p ≡ false
    → has_prefix k p ≡ false
    → All (λ f. lt_bytes k f.0 ≡ true) t
    → with_prefix p t ≡ []
unfolding with_prefix
none_after k p [] h n a = refl
none_after k p ((k', v) ∷ t) h n (l, a) = rw (past k k' p h n l) (none_after k p t h n a)

run_of-ge :
    (p : Bytes) (t : Table)
    → Increasing t
    → All (λ f. lt_bytes f.0 p ≡ false) t
    → run_of p t ≡ with_prefix p t
unfolding run_of with_prefix
run_of-ge p [] s g = refl
run_of-ge p ((k, v) ∷ t) (a, s) (l, g) = elim (Bool-cases (has_prefix k p)) [
  | inl match ↦ rw match (ap (λ r. (k, v) ∷ r) (run_of-ge p t s g))
  | inr other ↦ rw other (sym (none_after k p t l other a))
]

all_ge :
    (k p : Bytes) (t : Table)
    → lt_bytes k p ≡ false
    → All (λ f. lt_bytes k f.0 ≡ true) t
    → All (λ f. lt_bytes f.0 p ≡ false) t
all_ge k p t h a = All-map _ _ t (λ f l. ge_trans k f.0 p h l) a

short_of : (k p : Bytes) → lt_bytes k p ≡ true → has_prefix k p ≡ false
short_of k p h = elim (Bool-cases (has_prefix k p)) [
  | inl match ↦ ground (arith, has_prefix-ge k p match)
  | inr other ↦ other
]

-- The loop goes through the entries whose key has the prefix, all of them and in order.
pub run_of-with_prefix :
    (p : Bytes) (t : Table) → Increasing t → run_of p (from_key p t) ≡ with_prefix p t
unfolding run_of from_key with_prefix
run_of-with_prefix p [] s = refl
run_of-with_prefix p ((k, v) ∷ t) (a, s) = elim (Bool-cases (lt_bytes k p)) [
  | inl before ↦ rw (before, short_of k p before) (run_of-with_prefix p t s)
  | inr after ↦ rw after (run_of-ge p ((k, v) ∷ t) (a, s) (after, all_ge k p t after a))
]
