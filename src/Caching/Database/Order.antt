-- ===== src/Caching/Database/Order.antt =====
-- The order of the keys in a database, which an insertion keeps.
use plakar.Prelude.{◌≡◌, refl, inl, inr, true, false, [], ◌∷◌, arith, Bool-cases, All, All-map}
use plakar.Text.{lt_bytes}
use plakar.Wire.{Bytes, beq_bytes, beq_bytes_eq}
use plakar.Caching.Database.{Table, insert, Increasing}

lt_bytes_trans : (a b c : Bytes) → lt_bytes a b ≡ true → lt_bytes b c ≡ true → lt_bytes a c ≡ true
unfolding lt_bytes
lt_bytes_trans a b [] h k = cc
lt_bytes_trans a [] (z ∷ c) h k = cc
lt_bytes_trans [] (y ∷ b) (z ∷ c) h k = refl
lt_bytes_trans (x ∷ a) (y ∷ b) (z ∷ c) h k = ground (arith, lt_bytes_trans a b c)

lt_bytes_total : (a b : Bytes) → beq_bytes a b ≡ false → lt_bytes a b ≡ false → lt_bytes b a ≡ true
unfolding lt_bytes beq_bytes
lt_bytes_total [] [] h k = cc
lt_bytes_total [] (y ∷ b) h k = cc
lt_bytes_total (x ∷ a) [] h k = refl
lt_bytes_total (x ∷ a) (y ∷ b) h k = ground (arith, lt_bytes_total a b)

-- A key below all the others is below what is inserted above it.
below-insert :
    (j k v : Bytes) (t : Table)
    → lt_bytes j k ≡ true
    → All (λ f. lt_bytes j f.0 ≡ true) t
    → All (λ f. lt_bytes j f.0 ≡ true) (insert k v t)
unfolding insert
below-insert j k v [] l a = (l, tt)
below-insert j k v ((k', v') ∷ t) l (b, a) = elim (Bool-cases (beq_bytes k k')) [
  | inl same ↦ rw same (l, a)
  | inr other ↦ elim (Bool-cases (lt_bytes k k')) [
    | inl lt ↦ rw (other, lt) (l, (b, a))
    | inr ge ↦ rw (other, ge) (b, below-insert j k v t l a)
  ]
]

below_trans :
    (j k : Bytes) (t : Table)
    → lt_bytes j k ≡ true
    → All (λ f. lt_bytes k f.0 ≡ true) t
    → All (λ f. lt_bytes j f.0 ≡ true) t
below_trans j k t l a =
    All-map (λ f. lt_bytes k f.0 ≡ true) (λ f. lt_bytes j f.0 ≡ true) t
      (λ f. lt_bytes_trans j k f.0 l) a

pub insert-Increasing : (k v : Bytes) (t : Table) → Increasing t → Increasing (insert k v t)
unfolding insert
insert-Increasing k v [] s = (tt, tt)
insert-Increasing k v ((k', v') ∷ t) (a, s) = elim (Bool-cases (beq_bytes k k')) [
  | inl same ↦ let e = beq_bytes_eq k k' same in rw (same, e) (a, s)
  | inr other ↦ elim (Bool-cases (lt_bytes k k')) [
    | inl lt ↦ rw (other, lt) ((lt, below_trans k k' t lt a), (a, s))
    | inr ge ↦
        rw (other, ge)
          (below-insert k' k v t (lt_bytes_total k k' other ge) a, insert-Increasing k v t s)
  ]
]
