-- ===== src/Text/Decimal.antt =====
-- Decimals: `%d`.
use plakar.Prelude.{
  ℕ, zero, suc, ◌+◌, ◌-◌, ◌*◌, ◌/◌, ◌%◌, ◌<◌, ◌≡◌, sym, ap, ◌∙◌, inl, inr, false, [], ◌∷◌, arith,
  ltb, ◌==◌, Bool-cases, ==_iff,
}
use plakar.Text.{digits, decimal}
use plakar.Text.Segments.{NoColon}
use plakar.Wire.{Bytes, beq_bytes, beq_bytes_refl, beq_bytes_eq}

-- The number that digits stand for, after `n`.
abbrev value : ℕ → Bytes → ℕ
value n [] = n
value n (c ∷ cs) = value (n * 10 + (c - b'0')) cs

value-digits : (fuel n : ℕ) (acc : Bytes) → n < fuel → value 0 (digits fuel n acc) ≡ value n acc
unfolding digits
value-digits zero n acc h = absurd (omega arith)
value-digits (suc fuel) n acc h = elim (Bool-cases (ltb n 10)) [
  | inl small ↦ rw small (ap (λ k. value k acc) (omega arith))
  | inr big ↦ rw big (
      value-digits fuel (n / 10) ((b'0' + n % 10) ∷ acc) (ground arith)
      ∙ ap (λ k. value k acc) (omega arith))
]

digits-NoColon : (fuel n : ℕ) (acc : Bytes) → NoColon acc → NoColon (digits fuel n acc)
unfolding digits
digits-NoColon zero n acc h = h
digits-NoColon (suc fuel) n acc h = elim (Bool-cases (ltb n 10)) [
  | inl small ↦ rw small (λ e. ground arith, h)
  | inr big ↦ rw big (digits-NoColon fuel (n / 10) ((b'0' + n % 10) ∷ acc) (λ e. omega arith, h))
]

pub decimal-NoColon : (n : ℕ) → NoColon (decimal n)
unfolding decimal
decimal-NoColon n = digits-NoColon (suc n) n [] tt

decimal_injective : (m n : ℕ) → decimal m ≡ decimal n → m ≡ n
unfolding decimal
decimal_injective m n e =
    sym (value-digits (suc m) m [] (omega arith))
    ∙ ap (value 0) e
    ∙ value-digits (suc n) n [] (omega arith)

differ : (m n : ℕ) → (m == n) ≡ false → beq_bytes (decimal m) (decimal n) ≡ false
differ m n h = elim (Bool-cases (beq_bytes (decimal m) (decimal n))) [
  | inr no_match ↦ no_match
  | inl match ↦
      let e : m ≡ n = decimal_injective m n (beq_bytes_eq (decimal m) (decimal n) match) in
      ground arith
]

pub beq_bytes-decimal : (m n : ℕ) → beq_bytes (decimal m) (decimal n) ≡ (m == n)
beq_bytes-decimal m n = elim (Bool-cases (m == n)) [
  | inl same ↦ let e : m ≡ n = (==_iff m n).0 same in rw (same, e) (beq_bytes_refl (decimal n))
  | inr other ↦ rw other (differ m n other)
]
