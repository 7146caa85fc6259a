-- ===== src/Storage/Reading.antt =====
-- storage/serialization.go: `deserializeReader.Read`.
use plakar.Prelude.{
  ℕ, zero, suc, ◌+◌, ◌-◌, ◌≤◌, ◌<◌, ◌≡◌, refl, sym, ap, ◌∙◌, ◌⊎◌, ◌≢◌, inl, inr, Bool, true, false,
  not, ◌&&◌, none, some, [], ◌++◌, append_assoc, append-nil, arith, length, take, take-append-drop,
  length-append, length-take, length-drop, ltb, ltb→lt, ◌==◌, if◌then◌else◌, Bool-cases, ok, Error,
  eof, hmac_mismatch, Option,
}
use Prim.Native.Nat.{min}
use plakar.Wire.{Bytes, beq_bytes}
use plakar.Storage.{
  Reader, Read, DeserializeReader, chunk_size, with_chunk, fill_up, flushable, flushed, check_hmac,
  hand_out, after_fill, deserialize_loop,
}
use plakar.Storage.Delivery.{Given, more, last, Delivers}

module _ {R : Type 0} (rd : Reader R) (sum : Bytes → Bytes) (v : Delivers rd) where
  -- What is still to come, the last 32 bytes included.
  abbrev pub rest : DeserializeReader R → Bytes
  rest s = s.left_over ++ (if s.at_eof then [] else v.remaining s.inner)

  abbrev pub rounds : DeserializeReader R → ℕ
  rounds s = if s.at_eof then 0 else suc (v.left s.inner)

  abbrev pub Good : DeserializeReader R → Type 0
  Good s = s.at_eof ≡ false → v.Valid s.inner

  -- What `Read` does: it fills the buffer, or it comes to the end and compares.
  pub data Outcome (s : DeserializeReader R) (n : ℕ) (out : Bytes)
      : Read (DeserializeReader R) → Type 0 where
    part :
        (s' : DeserializeReader R) (b o : Bytes)
        → o ≡ out ++ b
        → rest s ≡ b ++ rest s'
        → s'.hasher ≡ s.hasher ++ b
        → 32 ≤ length (rest s')
        → Good s'
        → rounds s' ≤ rounds s
        → length o ≡ n
        → Outcome s n out (ok (s', o, none))
    whole :
        (s' : DeserializeReader R) (b t o : Bytes)
        → o ≡ out ++ b
        → rest s ≡ b ++ t
        → length t ≡ 32
        → beq_bytes t (sum (s.hasher ++ b)) ≡ true
        → Outcome s n out (ok (s', o, some eof))
    broken :
        (s' : DeserializeReader R) (b t : Bytes)
        → rest s ≡ b ++ t
        → length t ≡ 32
        → beq_bytes t (sum (s.hasher ++ b)) ≡ false
        → Outcome s n out (ok (s', [], some hmac_mismatch))

  -- What `s` has done once `s1` has read on.
  Outcome-shift :
      (s s1 : DeserializeReader R) (n : ℕ) (out b0 : Bytes) (x : Read (DeserializeReader R))
      → rest s ≡ b0 ++ rest s1
      → s1.hasher ≡ s.hasher ++ b0
      → rounds s1 ≤ rounds s
      → Outcome s1 n (out ++ b0) x
      → Outcome s n out x
  Outcome-shift s s1 n out b0 _ e h l (part s' b o eo er eh long g le full) =
      part s' (b0 ++ b) o (eo ∙ append_assoc out b0 b)
        (e ∙ ap (λ t. b0 ++ t) er ∙ sym (append_assoc b0 b (rest s')))
        (eh ∙ ap (λ t. t ++ b) h ∙ append_assoc s.hasher b0 b) long g (omega arith) full
  Outcome-shift s s1 n out b0 _ e h l (whole s' b t o eo er lt eq) =
      whole s' (b0 ++ b) t o (eo ∙ append_assoc out b0 b)
        (e ∙ ap (λ u. b0 ++ u) er ∙ sym (append_assoc b0 b t)) lt
        (ap (λ u. beq_bytes t (sum u)) (sym (append_assoc s.hasher b0 b) ∙ sym (ap (λ u. u ++ b) h))
          ∙ eq)
  Outcome-shift s s1 n out b0 _ e h l (broken s' b t er lt eq) =
      broken s' (b0 ++ b) t (e ∙ ap (λ u. b0 ++ u) er ∙ sym (append_assoc b0 b t)) lt (
        ap (λ u. beq_bytes t (sum u)) (sym (append_assoc s.hasher b0 b) ∙ sym (ap (λ u. u ++ b) h))
        ∙ eq)

  -- The reader with a chunk more.
  pub record Fills (s s' : DeserializeReader R) : Type 0 where
    pub same : rest s' ≡ rest s
    pub hashed : s'.hasher ≡ s.hasher
    pub good : Good s'
    pub fewer : rounds s' < rounds s

  pub with_chunk-Fills :
      (s : DeserializeReader R) (x : R × Bytes × Option Error)
      → s.at_eof ≡ false
      → Given v.Valid v.remaining v.left chunk_size s.inner x
      → (s' : DeserializeReader R) × (with_chunk rd sum s x ≡ (s', none)) × Fills s s'
  unfolding with_chunk
  with_chunk-Fills s _ e (more r' b valid same short less) = (
    record s { inner = r'; left_over = s.left_over ++ b },
    refl,
    record {
      same =
          rw e
            (append_assoc s.left_over b (v.remaining r') ∙ ap (λ t. s.left_over ++ t) (sym same));
      hashed = refl;
      good = λ _. valid;
      fewer = rw e (omega arith);
    },
  )
  with_chunk-Fills s _ e (last r' b same short) = (
    record s { inner = r'; left_over = s.left_over ++ b; at_eof = true },
    refl,
    record {
      same = rw e (append-nil (s.left_over ++ b) ∙ ap (λ t. s.left_over ++ t) (sym same));
      hashed = refl;
      good = λ q. absurd (cc);
      fewer = rw e (omega arith);
    },
  )

  -- What a round hands out.
  abbrev pub piece : ℕ → DeserializeReader R → Bytes → Bytes
  piece n s out = take (min (flushable s) (n - length out)) s.left_over

  abbrev pub behind : ℕ → DeserializeReader R → Bytes → DeserializeReader R
  behind n s out = flushed (min (flushable s) (n - length out)) s

  abbrev pub tail_of : DeserializeReader R → Bytes
  tail_of s = if s.at_eof then [] else v.remaining s.inner

  pub length-piece :
      (n : ℕ) (s : DeserializeReader R) (out : Bytes)
      → length (piece n s out) ≡ min (flushable s) (n - length out)
  length-piece n s out = length-take (min (flushable s) (n - length out)) s.left_over ∙ omega arith

  pub length-behind :
      (n : ℕ) (s : DeserializeReader R) (out : Bytes)
      → length (behind n s out).left_over ≡ length s.left_over - min (flushable s) (n - length out)
  length-behind n s out = length-drop (min (flushable s) (n - length out)) s.left_over

  pub rest-piece :
      (n : ℕ) (s : DeserializeReader R) (out : Bytes)
      → rest s ≡ piece n s out ++ rest (behind n s out)
  rest-piece n s out =
      ap (λ t. t ++ tail_of s)
        (sym (take-append-drop (min (flushable s) (n - length out)) s.left_over))
      ∙ append_assoc (piece n s out) (behind n s out).left_over (tail_of s)

  behind_long :
      (n : ℕ) (s : DeserializeReader R) (out : Bytes)
      → 32 ≤ length (rest s)
      → 32 ≤ length (rest (behind n s out))
  behind_long n s out long = omega (
    arith,
    length-append s.left_over (tail_of s),
    length-append (behind n s out).left_over (tail_of s),
    length-behind n s out,
    long,
  )

pub not_equal : (x y : ℕ) → (x == y) ≡ false → x ≢ y
not_equal x y h = λ e. ground (arith, h, e)

pub choose {ℓ} :
    {A : Type ℓ} (P : A → Type ℓ) (b : Bool) (x y : A)
    → (b ≡ true → P x)
    → (b ≡ false → P y)
    → P (if b then x else y)
choose P true x y f g = f refl
choose P false x y f g = g refl

module _ {R : Type 0} (rd : Reader R) (sum : Bytes → Bytes) (v : Delivers rd) (n fuel : ℕ)
    (again : DeserializeReader R → Bytes → Read (DeserializeReader R)) where
  abbrev Rounds : Type 0
  Rounds =
      (s : DeserializeReader R) (out : Bytes)
      → length out ≤ n
      → Good rd sum v s
      → 32 ≤ length (rest rd sum v s)
      → rounds rd sum v s + (n - length out) < fuel
      → Outcome rd sum v s n out (again s out)

  ended :
      (s : DeserializeReader R) (out : Bytes)
      → s.at_eof ≡ true
      → length (behind rd sum v n s out).left_over ≡ 32
      → Outcome rd sum v s n out
          (check_hmac rd sum (behind rd sum v n s out) (out ++ piece rd sum v n s out))
  unfolding check_hmac
  ended s out e l =
      let b = piece rd sum v n s out in
      let t = (behind rd sum v n s out).left_over in
      let whole_rest : rest rd sum v s ≡ b ++ t =
        rest-piece rd sum v n s out
        ∙ ap (λ (q : Bool). b ++ (t ++ (if q then [] else v.remaining s.inner))) e
        ∙ ap (λ u. b ++ u) (append-nil t) in
      choose (Outcome rd sum v s n out) (beq_bytes t (sum (s.hasher ++ b))) _ _
        (λ same. whole _ b t (out ++ b) refl whole_rest l same)
        (λ other. broken _ b t whole_rest l other)

  -- A round of `Read` that has read its chunk.
  hand_out-Outcome :
      Rounds
      → (s : DeserializeReader R) (out : Bytes) → length out < n
      → Good rd sum v s
      → 32 ≤ length (rest rd sum v s)
      → rounds rd sum v s + (n - length out) ≤ fuel
      → (s.at_eof ≡ false → rounds rd sum v s + (n - length out) < fuel)
      → Outcome rd sum v s n out (hand_out rd sum n again s out)
  unfolding hand_out
  hand_out-Outcome ih s out room good long enough strict =
      choose (Outcome rd sum v s n out) (s.at_eof && (length s1.left_over == 32)) _ _
        (λ e. ended s out (ground (arith, e)) (ground (arith, e)))
        (λ e.
          choose (Outcome rd sum v s n out) ((flushable s == 0) && not s.at_eof) _ _
            (λ q. continued (omega (arith, strict (ground (arith, q)), room, length-append out b)))
            (λ q.
              choose (Outcome rd sum v s n out) (length (out ++ b) == n) _ _
                (λ f.
                  part s1 b (out ++ b) refl (rest-piece rd sum v n s out) refl
                    (behind_long rd sum v n s out long) good (omega arith) (ground (arith, f)))
                (λ f. continued (progress e (Bool-cases s.at_eof)))))
    where
      b : Bytes
      b = piece rd sum v n s out

      s1 : DeserializeReader R
      s1 = behind rd sum v n s out

      continued :
          rounds rd sum v s + (n - length (out ++ b)) < fuel
          → Outcome rd sum v s n out (again s1 (out ++ b))
      continued h =
          Outcome-shift rd sum v s s1 n out b (again s1 (out ++ b)) (rest-piece rd sum v n s out)
            refl (omega arith)
            (ih s1 (out ++ b) (omega (arith, length-append out b, length-piece rd sum v n s out))
              good (behind_long rd sum v n s out long) h)

      -- At the end of the stream a round hands out a byte or ends the loop.
      progress :
          (s.at_eof && (length s1.left_over == 32)) ≡ false
          → (s.at_eof ≡ true) ⊎ (s.at_eof ≡ false)
          → rounds rd sum v s + (n - length (out ++ b)) < fuel
      progress e (inr opened) = omega (arith, strict opened, length-append out b)
      progress e (inl closed) =
          let more_left : (length s1.left_over == 32) ≡ false = ground (arith, e, closed) in
          let nothing_behind : tail_of rd sum v s ≡ [] =
            ap (λ (q : Bool). if q then [] else v.remaining s.inner) closed in
          omega (
            arith,
            enough,
            long,
            room,
            not_equal (length s1.left_over) 32 more_left,
            length-append out b,
            length-piece rd sum v n s out,
            length-behind rd sum v n s out,
            length-append s.left_over (tail_of rd sum v s),
            ap length nothing_behind,
          )

module _ {R : Type 0} (rd : Reader R) (sum : Bytes → Bytes) (v : Delivers rd) (n : ℕ) where
  Outcome-of :
      (s s1 : DeserializeReader R) (out : Bytes) (x : Read (DeserializeReader R))
      → Fills rd sum v s s1
      → Outcome rd sum v s1 n out x
      → Outcome rd sum v s n out x
  Outcome-of s s1 out x f o =
      Outcome-shift rd sum v s s1 n out [] x (sym f.same) (f.hashed ∙ sym (append-nil s.hasher))
        (omega (arith, f.fewer)) (rw (append-nil out) o)

  -- `Read` ends within as many rounds as there are reads to come and bytes to fill, and one.
  pub deserialize_loop-Outcome :
      (fuel : ℕ) (s : DeserializeReader R) (out : Bytes)
      → length out ≤ n
      → Good rd sum v s
      → 32 ≤ length (rest rd sum v s)
      → rounds rd sum v s + (n - length out) < fuel
      → Outcome rd sum v s n out (deserialize_loop rd sum fuel n s out)
  unfolding deserialize_loop fill_up after_fill
  deserialize_loop-Outcome zero s out room good long h = absurd (omega arith)
  deserialize_loop-Outcome (suc fuel) s out room good long h =
      choose (Outcome rd sum v s n out) (ltb (length out) n) _ _
        (λ lt.
          filling (deserialize_loop-Outcome fuel) (ltb→lt (length out) n lt) (Bool-cases s.at_eof))
        (λ ge.
          part s [] out (sym (append-nil out)) refl (sym (append-nil s.hasher)) long good
            (omega arith) (ground (arith, ge)))
    where
      filling :
          Rounds rd sum v n fuel (deserialize_loop rd sum fuel n)
          → length out < n
          → (s.at_eof ≡ true) ⊎ (s.at_eof ≡ false)
          → Outcome rd sum v s n out
              (after_fill rd sum n (deserialize_loop rd sum fuel n) (fill_up rd sum s) out)
      filling ih lt (inl closed) =
          let same : fill_up rd sum s ≡ (s, none) =
            ap
              (λ (q : Bool).
                if q then (s, none) else with_chunk rd sum s (rd.read chunk_size s.inner))
              closed in
          rw same (
            hand_out-Outcome rd sum v n fuel (deserialize_loop rd sum fuel n) ih s out lt good long
              (omega arith) (λ e. absurd (cc)))
      filling ih lt (inr opened) =
          let (s1, e, f) =
            with_chunk-Fills rd sum v s (rd.read chunk_size s.inner) opened
              (v.gives chunk_size s.inner (omega arith) (good opened)) in
          let same : fill_up rd sum s ≡ (s1, none) =
            ap
              (λ (q : Bool).
                if q then (s, none) else with_chunk rd sum s (rd.read chunk_size s.inner))
              opened
            ∙ e in
          rw same (
            Outcome-of s s1 out (hand_out rd sum n (deserialize_loop rd sum fuel n) s1 out) f (
              hand_out-Outcome rd sum v n fuel (deserialize_loop rd sum fuel n) ih s1 out lt f.good
                (rw f.same long) (omega (arith, f.fewer)) (λ e. omega (arith, f.fewer))))
