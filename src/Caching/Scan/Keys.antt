-- ===== src/Caching/Scan/Keys.antt =====
-- caching/scan.go: the keys below a prefix.
use plakar.Prelude.{
  reverse, ◌≡◌, refl, sym, ap, ◌∙◌, inl, inr, true, false, [], ◌∷◌, ◌++◌, map, arith, append-nil,
  length, drop, Bool-cases,
}
use mathlib.Core.List.{reverse-cons}
use plakar.Text.{has_prefix}
use plakar.Wire.{Bytes}
use plakar.Caching.Database.{Works, LevelDb, Table, with_prefix}
use plakar.Caching.Scan.{enumerate_keys_with_prefix, keys_with_prefix}

-- The entry with the prefix put back before its key.
abbrev pub prepend : Bytes → Bytes × Bytes → Bytes × Bytes
prepend p e = (p ++ e.0, e.1)

has_prefix-drop : (k p : Bytes) → has_prefix k p ≡ true → p ++ drop (length p) k ≡ k
unfolding has_prefix
has_prefix-drop k [] h = refl
has_prefix-drop [] (y ∷ p) h = cc
has_prefix-drop (x ∷ k) (y ∷ p) h = ground (arith, has_prefix-drop k p)

keys-prepend : (p : Bytes) (t : Table) → map (prepend p) (keys_with_prefix p t) ≡ with_prefix p t
unfolding keys_with_prefix with_prefix
keys-prepend p [] = refl
keys-prepend p ((k, v) ∷ t) = elim (Bool-cases (has_prefix k p)) [
  | inl match ↦ rw match (rw (has_prefix-drop k p match) (ap (λ r. (k, v) ∷ r) (keys-prepend p t)))
  | inr other ↦ rw other (keys-prepend p t)
]

with_prefix_idem : (p : Bytes) (t : Table) → with_prefix p (with_prefix p t) ≡ with_prefix p t
unfolding with_prefix
with_prefix_idem p [] = refl
with_prefix_idem p ((k, v) ∷ t) = elim (Bool-cases (has_prefix k p)) [
  | inl match ↦ rw (match, match) (ap (λ r. (k, v) ∷ r) (with_prefix_idem p t))
  | inr other ↦ rw other (with_prefix_idem p t)
]

keys-append :
    (p : Bytes) (s t : Table)
    → keys_with_prefix p (s ++ t) ≡ keys_with_prefix p s ++ keys_with_prefix p t
unfolding keys_with_prefix
keys-append p [] t = refl
keys-append p ((k, v) ∷ s) t = elim (Bool-cases (has_prefix k p)) [
  | inl match ↦ rw match (ap (λ r. (drop (length p) k, v) ∷ r) (keys-append p s t))
  | inr other ↦ rw other (keys-append p s t)
]

keys-reverse :
    (p : Bytes) (t : Table) → keys_with_prefix p (reverse t) ≡ reverse (keys_with_prefix p t)
unfolding keys_with_prefix
keys-reverse p [] = refl
keys-reverse p ((k, v) ∷ t) =
    ap (keys_with_prefix p) (reverse-cons (k, v) t)
    ∙ keys-append p (reverse t) ((k, v) ∷ [])
    ∙ ap (λ s. s ++ keys_with_prefix p ((k, v) ∷ [])) (keys-reverse p t)
    ∙ elim (Bool-cases (has_prefix k p)) [
      | inl match ↦ rw match (sym (reverse-cons (drop (length p) k, v) (keys_with_prefix p t)))
      | inr other ↦ rw other (append-nil (reverse (keys_with_prefix p t)))
    ]

-- `EnumerateKeysWithPrefix` yields the entries whose key has the prefix, all of them and in order, and
-- without the prefix, which put back gives the key; backwards it yields them in the opposite order.
pub enumerate_keys_with_prefix-order :
    {D : Type 0} (db : LevelDb D) (w : Works db) (p : Bytes) (d : D)
    → (map (prepend p) (enumerate_keys_with_prefix db p false d) ≡ with_prefix p (w.entries d))
      × (enumerate_keys_with_prefix db p true d ≡ reverse (enumerate_keys_with_prefix db p false d))
unfolding enumerate_keys_with_prefix
enumerate_keys_with_prefix-order db w p d = (
  keys-prepend p (db.within p d)
      ∙ ap (with_prefix p) (w.within_is p d)
      ∙ with_prefix_idem p (w.entries d),
  keys-reverse p (db.within p d),
)
