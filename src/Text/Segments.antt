-- ===== src/Text/Segments.antt =====
-- Strings of segments that a colon ends: equal exactly when the segments are.
use plakar.Prelude.{
  ◌≡◌, refl, ◌≢◌, false, ◌&&◌, [], ◌∷◌, ◌++◌, arith, ◌==◌, if◌then◌else◌, All, All-append,
}
use plakar.Text.{has_prefix, after_last, colon}
use plakar.Wire.{Bytes, beq_bytes}

-- No byte is a colon.
abbrev pub NoColon : Bytes → Type 0
NoColon = All (λ b. b ≢ colon)

pub has_prefix-append : (p s t : Bytes) → has_prefix (p ++ s) (p ++ t) ≡ has_prefix s t
unfolding has_prefix
has_prefix-append [] s t = refl
has_prefix-append (x ∷ p) s t = ground (arith, has_prefix-append p s t)

pub has_prefix-segment :
    (a b r s : Bytes)
    → NoColon a
    → NoColon b
    → has_prefix (a ++ colon ∷ r) (b ++ colon ∷ s) ≡ (beq_bytes a b && has_prefix r s)
unfolding has_prefix beq_bytes
has_prefix-segment [] [] r s ha hb = refl
has_prefix-segment [] (y ∷ b) r s ha hb = ground arith
has_prefix-segment (x ∷ a) [] r s ha hb = ground arith
has_prefix-segment (x ∷ a) (y ∷ b) r s (_, ha) (_, hb) =
    ground (arith, has_prefix-segment a b r s ha hb)

pub beq_bytes-append : (p s t : Bytes) → beq_bytes (p ++ s) (p ++ t) ≡ beq_bytes s t
unfolding beq_bytes
beq_bytes-append [] s t = refl
beq_bytes-append (x ∷ p) s t = ground (arith, beq_bytes-append p s t)

pub beq_bytes-segment :
    (a b r s : Bytes)
    → NoColon a
    → NoColon b
    → beq_bytes (a ++ colon ∷ r) (b ++ colon ∷ s) ≡ (beq_bytes a b && beq_bytes r s)
unfolding beq_bytes
beq_bytes-segment [] [] r s ha hb = refl
beq_bytes-segment [] (y ∷ b) r s ha hb = ground arith
beq_bytes-segment (x ∷ a) [] r s ha hb = ground arith
beq_bytes-segment (x ∷ a) (y ∷ b) r s (_, ha) (_, hb) =
    ground (arith, beq_bytes-segment a b r s ha hb)

after_last-NoColon : (cur s : Bytes) → NoColon s → after_last cur s ≡ cur
unfolding after_last
after_last-NoColon cur [] h = refl
after_last-NoColon cur (x ∷ s) (hx, h) = ground (arith, after_last-NoColon cur s h)

-- The last segment, whatever stands before it.
pub after_last_segment : (cur p s : Bytes) → NoColon s → after_last cur (p ++ colon ∷ s) ≡ s
unfolding after_last
after_last_segment cur [] s h = after_last-NoColon s s h
after_last_segment cur (x ∷ p) s h =
    after_last_segment (if x == colon then p ++ colon ∷ s else cur) p s h

pub NoColon-append : (a b : Bytes) → NoColon a → NoColon b → NoColon (a ++ b)
NoColon-append a b = All-append (λ x. x ≢ colon) a b

-- A segment is no string with a colon in it.
pub beq_bytes-NoColon : (a b r : Bytes) → NoColon a → beq_bytes a (b ++ colon ∷ r) ≡ false
unfolding beq_bytes
beq_bytes-NoColon [] [] r h = refl
beq_bytes-NoColon [] (y ∷ b) r h = refl
beq_bytes-NoColon (x ∷ a) [] r (hx, h) = ground arith
beq_bytes-NoColon (x ∷ a) (y ∷ b) r (hx, h) = ground (arith, beq_bytes-NoColon a b r h)
