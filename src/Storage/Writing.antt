-- ===== src/Storage/Writing.antt =====
-- storage/serialization.go: `serializeReader.Read`.
use plakar.Prelude.{
  ℕ, zero, suc, ◌+◌, ◌-◌, ◌≤◌, ◌<◌, ◌≡◌, refl, sym, ap, ◌∙◌, inl, inr, true, none, some, [], ◌∷◌,
  ◌++◌, append_assoc, append-nil, arith, length, take, drop, take-append-drop, length-append,
  length-take, length-drop, ltb, ltb→lt, ◌==◌, if◌then◌else◌, Bool-cases, ok, Error, eof, Option,
  subst,
}
use Prim.Native.Nat.{min}
use plakar.Wire.{Bytes}
use plakar.State.{zeros}
use plakar.Storage.{
  Reader, Read, Phase, phase_header, phase_data, phase_footer, SerializeReader, read_header,
  after_inner, read_footer, read_phase, serialize_loop,
}
use plakar.Storage.Delivery.{Given, more, last, Delivers}
use plakar.Storage.Reading.{choose, not_equal}

module _ {R : Type 0} (rd : Reader R) (sum : Bytes → Bytes) (v : Delivers rd) where
  abbrev pub mac_of : Bytes → Bytes
  mac_of h = take 32 (sum h ++ zeros 32)

  abbrev pub to_come : Phase → SerializeReader R → Bytes
  to_come phase_header s =
      drop s.header_offset s.header
      ++ (v.remaining s.inner ++ mac_of (s.hasher ++ v.remaining s.inner))
  to_come phase_data s = v.remaining s.inner ++ mac_of (s.hasher ++ v.remaining s.inner)
  to_come phase_footer s = drop s.hmac_offset s.hmac

  abbrev pub still : Phase → SerializeReader R → ℕ
  still phase_header s = 36 + (v.left s.inner + (length s.header - s.header_offset))
  still phase_data s = 35 + v.left s.inner
  still phase_footer s = 1 + (32 - s.hmac_offset)

  abbrev pub Sound : Phase → SerializeReader R → Type 0
  Sound phase_header s = (s.header_offset ≤ length s.header) × (s.hmac_offset ≡ 0) × v.Valid s.inner
  Sound phase_data s = (s.hmac_offset ≡ 0) × v.Valid s.inner
  Sound phase_footer s = (s.hmac_offset ≤ 32) × (length s.hmac ≡ 32)

  -- What `Read` gives, once `out` is in the buffer.
  pub data Gives (n : ℕ) (out rest : Bytes) (left : ℕ) : Read (SerializeReader R) → Type 0 where
    gave :
        (s' : SerializeReader R) (p : Phase) (b o : Bytes)
        → s'.phase ≡ p
        → Sound p s'
        → o ≡ out ++ b
        → rest ≡ b ++ to_come p s'
        → length o ≤ n
        → still p s' ≤ left
        → Gives n out rest left (ok (s', o, none))
    ended :
        (s' : SerializeReader R) (b o : Bytes)
        → o ≡ out ++ b
        → rest ≡ b
        → length o ≤ n
        → Gives n out rest left (ok (s', o, some eof))

  Gives-shift :
      (n : ℕ) (out b0 rest rest0 : Bytes) (left left0 : ℕ) (x : Read (SerializeReader R))
      → rest0 ≡ b0 ++ rest
      → left ≤ left0
      → Gives n (out ++ b0) rest left x
      → Gives n out rest0 left0 x
  Gives-shift n out b0 rest rest0 left left0 _ e l (gave s' p b o ph sound eo er short fewer) =
      gave s' p (b0 ++ b) o ph sound (eo ∙ append_assoc out b0 b)
        (e ∙ ap (λ t. b0 ++ t) er ∙ sym (append_assoc b0 b (to_come p s'))) short (omega arith)
  Gives-shift n out b0 rest rest0 left left0 _ e l (ended s' b o eo er short) =
      ended s' (b0 ++ b) o (eo ∙ append_assoc out b0 b) (e ∙ ap (λ t. b0 ++ t) er) short

  -- A part of a list that is copied from an offset on.
  copied :
      (k off : ℕ) (xs : Bytes)
      → drop off xs ≡ take k (drop off xs) ++ drop (off + length (take k (drop off xs))) xs
  copied k off xs =
      sym (take-append-drop k (drop off xs))
      ∙ ap (λ t. take k (drop off xs) ++ t) (drop_more k off xs)
    where
      drop_nothing : (k : ℕ) → drop {A = ℕ} k [] ≡ []
      drop_nothing zero = refl
      drop_nothing (suc k) = refl

      drop_taken : (k : ℕ) (ys : Bytes) → drop k ys ≡ drop (length (take k ys)) ys
      drop_taken zero ys = refl
      drop_taken (suc k) [] = refl
      drop_taken (suc k) (y ∷ ys) = drop_taken k ys

      drop_drop : (k off : ℕ) (xs : Bytes) → drop k (drop off xs) ≡ drop (off + k) xs
      drop_drop k zero xs = let e : k ≡ 0 + k = omega arith in ap (λ m. drop m xs) e
      drop_drop k (suc off) [] = drop_nothing k ∙ sym (drop_nothing (suc off + k))
      drop_drop k (suc off) (x ∷ xs) =
          let e : suc (off + k) ≡ suc off + k = omega arith in
          drop_drop k off xs ∙ ap (λ m. drop m (x ∷ xs)) e

      drop_more :
          (k off : ℕ) (xs : Bytes)
          → drop k (drop off xs) ≡ drop (off + length (take k (drop off xs))) xs
      drop_more k off xs =
          drop_taken k (drop off xs) ∙ drop_drop (length (take k (drop off xs))) off xs

  empty : (xs : Bytes) → length xs ≡ 0 → xs ≡ []
  empty [] h = refl
  empty (x ∷ xs) h = absurd (omega arith)

  -- The last phase.
  pub read_footer-Gives :
      (n : ℕ) (s : SerializeReader R) (out : Bytes)
      → length out < n
      → s.phase ≡ phase_footer
      → Sound phase_footer s
      → Gives n out (to_come phase_footer s) (32 - s.hmac_offset) (read_footer rd sum n s out)
  unfolding read_footer
  read_footer-Gives n s out room ph (low, full) =
      let p = take (n - length out) (drop s.hmac_offset s.hmac) in
      let size = length-take (n - length out) (drop s.hmac_offset s.hmac) in
      let behind = length-drop s.hmac_offset s.hmac in
      let s' = record s { hmac_offset = s.hmac_offset + length p } in
      let same = copied (n - length out) s.hmac_offset s.hmac in
      choose (Gives n out (to_come phase_footer s) (32 - s.hmac_offset))
        (s.hmac_offset + length p == length s.hmac) _ _
        (λ e.
          ended s' p (out ++ p) refl
            (same
              ∙ ap (λ t. p ++ t)
                  (empty (drop (s.hmac_offset + length p) s.hmac)
                    (length-drop (s.hmac_offset + length p) s.hmac ∙ ground (arith, e)))
              ∙ append-nil p)
            (omega (arith, length-append out p, size)))
        (λ e.
          gave s' phase_footer p (out ++ p) ph (omega (arith, size, behind), full) refl same
            (omega (arith, length-append out p, size))
            (omega (arith, size, behind, not_equal (s.hmac_offset + length p) (length s.hmac) e)))

  -- A round, by the phase.
  pub loop-phase :
      (fuel n left : ℕ) (s : SerializeReader R) (p : Phase) (out : Bytes)
      → s.phase ≡ p
      → Sound p s
      → length out ≤ n
      → still p s ≤ left
      → (length out < n
          → Gives n out
              (to_come p s)
              left
              (read_phase rd sum n (serialize_loop rd sum fuel n) p s out))
      → Gives n out (to_come p s) left (serialize_loop rd sum (suc fuel) n s out)
  unfolding serialize_loop
  loop-phase fuel n left s p out ph sound room le round =
      subst (Gives n out (to_come p s) left)
        (ap
          (λ q.
            if ltb (length out) n
            then read_phase rd sum n (serialize_loop rd sum fuel n) q s out
            else ok (s, out, none))
          (sym ph))
        (choose (Gives n out (to_come p s) left) (ltb (length out) n) _ _
          (λ lt. round (ltb→lt (length out) n lt))
          (λ ge. gave s p [] out ph sound (sym (append-nil out)) refl room le))

  footer-Gives :
      (fuel n : ℕ) (s : SerializeReader R) (out : Bytes)
      → length out ≤ n
      → s.phase ≡ phase_footer
      → Sound phase_footer s
      → Gives n out
          (to_come phase_footer s)
          (still phase_footer s)
          (serialize_loop rd sum (suc fuel) n s out)
  unfolding read_phase
  footer-Gives fuel n s out room ph sound =
      loop-phase fuel n (still phase_footer s) s phase_footer out ph sound room (omega arith) λ lt.
        Gives-shift n out [] (to_come phase_footer s) (to_come phase_footer s) (32 - s.hmac_offset)
          (still phase_footer s) (read_footer rd sum n s out) refl (omega arith)
          (rw (append-nil out) (read_footer-Gives n s out lt ph sound))

  mac_size : (h : Bytes) → length (mac_of h) ≡ 32
  mac_size h = length-take 32 (sum h ++ zeros 32) ∙ omega (arith, length-append (sum h) (zeros 32))

  pub data-Gives :
      (fuel n : ℕ) (s : SerializeReader R) (out : Bytes)
      → length out < n
      → s.phase ≡ phase_data
      → Sound phase_data s
      → Gives n out (to_come phase_data s) (34 + v.left s.inner) (
          after_inner rd sum
            (serialize_loop rd sum (suc fuel) n)
            s
            out
            (rd.read (n - length out) s.inner))
  unfolding after_inner
  data-Gives fuel n s out room ph (zero_offset, valid) =
      by_read (rd.read (n - length out) s.inner)
        (v.gives (n - length out) s.inner (omega arith) valid)
    where
      by_read :
          (x : R × Bytes × Option Error)
          → Given v.Valid v.remaining v.left (n - length out) s.inner x
          → Gives n out
              (to_come phase_data s)
              (34 + v.left s.inner)
              (after_inner rd sum (serialize_loop rd sum (suc fuel) n) s out x)
      by_read _ (more r b valid' same short less) =
          gave (record s { inner = r; hasher = s.hasher ++ b }) phase_data b (out ++ b) ph
            (zero_offset, valid') refl
            (ap (λ t. t ++ mac_of (s.hasher ++ t)) same
              ∙ append_assoc b (v.remaining r) (mac_of (s.hasher ++ (b ++ v.remaining r)))
              ∙ ap (λ t. b ++ (v.remaining r ++ mac_of t))
                  (sym (append_assoc s.hasher b (v.remaining r))))
            (omega (arith, length-append out b)) (omega arith)
      by_read _ (last r b same short) =
          let s' : SerializeReader R = record s {
            inner = r;
            hasher = s.hasher ++ b;
            phase = phase_footer;
            hmac = mac_of (s.hasher ++ b);
          } in
          Gives-shift n out b (to_come phase_footer s') (to_come phase_data s)
            (still phase_footer s') (34 + v.left s.inner)
            (serialize_loop rd sum (suc fuel) n s' (out ++ b))
            (ap (λ t. t ++ mac_of (s.hasher ++ t)) same
              ∙ ap (λ o. b ++ drop o (mac_of (s.hasher ++ b))) (sym zero_offset))
            (omega arith)
            (footer-Gives fuel n s' (out ++ b) (omega (arith, length-append out b)) refl
              (omega arith, mac_size (s.hasher ++ b)))

  data-loop :
      (fuel n : ℕ) (s : SerializeReader R) (out : Bytes)
      → length out ≤ n
      → s.phase ≡ phase_data
      → Sound phase_data s
      → Gives n out
          (to_come phase_data s)
          (still phase_data s)
          (serialize_loop rd sum (suc (suc fuel)) n s out)
  unfolding read_phase
  data-loop fuel n s out room ph sound =
      loop-phase (suc fuel) n (still phase_data s) s phase_data out ph sound room (omega arith)
        λ lt.
          Gives-shift n out [] (to_come phase_data s) (to_come phase_data s) (34 + v.left s.inner)
            (still phase_data s)
            (after_inner rd sum (serialize_loop rd sum (suc fuel) n) s out
              (rd.read (n - length out) s.inner))
            refl (omega arith) (rw (append-nil out) (data-Gives fuel n s out lt ph sound))

  pub header-Gives :
      (fuel n : ℕ) (s : SerializeReader R) (out : Bytes)
      → length out < n
      → s.phase ≡ phase_header
      → Sound phase_header s
      → Gives n out
          (to_come phase_header s)
          (35 + (v.left s.inner + (length s.header - s.header_offset)))
          (read_header rd sum n (serialize_loop rd sum (suc (suc fuel)) n) s out)
  unfolding read_header
  header-Gives fuel n s out room ph (low, zero_offset, valid) =
      elim (Bool-cases (ltb s.header_offset (length s.header))) [
        | inl lt ↦ rw lt (
            choose (Gives n out (to_come phase_header s) bound) (length (out ++ p) == n) _ _
              (λ f.
                gave s' phase_header p (out ++ p) ph
                  (omega (arith, size, behind), zero_offset, valid) refl same (ground (arith, f))
                  (omega (arith, size, behind, ltb→lt s.header_offset (length s.header) lt)))
              (λ f.
                choose (Gives n out (to_come phase_header s) bound)
                  (s'.header_offset == length s.header) _ _
                  (λ e.
                    on s' p (out ++ p) refl same (ground (arith, e)) refl zero_offset valid
                      (omega (arith, length-append out p, size)) (omega arith))
                  (λ e. absurd (
                    omega (
                      arith,
                      not_equal (length (out ++ p)) n f,
                      not_equal s'.header_offset (length s.header) e,
                      length-append out p,
                      size,
                      behind,
                    )))))
        | inr ge ↦
            let e : s.header_offset ≡ length s.header = ground (arith, ge, low) in
            let t : (s.header_offset == length s.header) ≡ true = ground (arith, e) in
            rw (ge, t)
              (on s [] out (sym (append-nil out)) refl e refl zero_offset valid (omega arith)
                (omega arith))
      ]
    where
      p : Bytes
      p = take (n - length out) (drop s.header_offset s.header)

      size : length p ≡ min (n - length out) (length (drop s.header_offset s.header))
      size = length-take (n - length out) (drop s.header_offset s.header)

      behind : length (drop s.header_offset s.header) ≡ length s.header - s.header_offset
      behind = length-drop s.header_offset s.header

      s' : SerializeReader R
      s' = record s { header_offset = s.header_offset + length p }

      bound : ℕ
      bound = 35 + (v.left s.inner + (length s.header - s.header_offset))

      body : SerializeReader R → Bytes
      body u = v.remaining u.inner ++ mac_of (u.hasher ++ v.remaining u.inner)

      same : to_come phase_header s ≡ p ++ to_come phase_header s'
      same =
          ap (λ t. t ++ body s) (copied (n - length out) s.header_offset s.header)
          ∙ append_assoc p (drop s'.header_offset s.header) (body s)

      on :
          (u : SerializeReader R) (q o : Bytes)
          → o ≡ out ++ q
          → to_come phase_header s ≡ q ++ to_come phase_header u
          → u.header_offset ≡ length u.header
          → u.inner ≡ s.inner
          → u.hmac_offset ≡ 0
          → v.Valid u.inner
          → length o ≤ n
          → v.left u.inner ≤ v.left s.inner
          → Gives n out
              (to_come phase_header s)
              bound
              (serialize_loop rd sum (suc (suc fuel)) n (record u { phase = phase_data }) o)
      on u q o eo same' whole_header inner_same z valid' short fewer = rw eo (
          Gives-shift n out q (to_come phase_data u) (to_come phase_header s) (35 + v.left u.inner)
            bound
            (serialize_loop rd sum (suc (suc fuel)) n (record u { phase = phase_data }) (out ++ q))
            (same'
              ∙ ap (λ t. q ++ (t ++ body u))
                  (empty (drop u.header_offset u.header)
                    (length-drop u.header_offset u.header ∙ omega arith)))
            (omega arith)
            (data-loop fuel n (record u { phase = phase_data }) (out ++ q)
              (omega (arith, ap length eo)) refl (z, valid')))
