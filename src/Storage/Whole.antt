-- ===== src/Storage/Whole.antt =====
-- storage/serialization.go: a resource read to its end.
use plakar.Prelude.{
  ℕ, ◌+◌, ◌≤◌, ◌<◌, ◌≡◌, ◌⊎◌, refl, sym, ap, ◌∙◌, inl, inr, true, false, Option, none, some, List,
  [], ◌∷◌, ◌++◌, append_assoc, append-nil, arith, All, All-map, length, length-append, Result, ok,
  err, panic, stuck, Error, eof, hmac_mismatch, ◌>>=◌,
}
use plakar.Wire.{Bytes, beq_bytes}
use plakar.Storage.{Reader, Read, DeserializeReader, deserialize_read, deserialize_loop}
use plakar.Storage.Delivery.{Delivers}
use plakar.Storage.Reading.{
  rest, rounds, Good, Outcome, part, whole, broken, deserialize_loop-Outcome,
}

-- Two ways to cut a list of which the first ends no later.
prefix_of :
    (b r body t : Bytes)
    → b ++ r ≡ body ++ t
    → length t ≤ length r
    → (body' : Bytes) × (body ≡ b ++ body') × (r ≡ body' ++ t)
prefix_of [] r body t e h = (body, refl, e)
prefix_of (x ∷ b) r [] t e h = absurd (omega (arith, ap length e, length-append b r))
prefix_of (x ∷ b) r (y ∷ body) t e h =
    let (body', p, q) = prefix_of b r body t (cc) h in (body', ground (arith, e, p), q)

-- Both parts, where the second ones are of one length.
pub cut_once :
    (b r body t : Bytes) → b ++ r ≡ body ++ t → length t ≡ length r → (body ≡ b) × (t ≡ r)
cut_once b r body t e h =
    let (body', p, q) = prefix_of b r body t e (omega arith) in
    nothing_between body' (omega (arith, ap length q, length-append body' t)) p q
  where
    nothing_between : (m : Bytes) → length m ≡ 0 → body ≡ b ++ m → r ≡ m ++ t → (body ≡ b) × (t ≡ r)
    nothing_between [] h p q = (p ∙ append-nil b, sym q)
    nothing_between (x ∷ m) h p q = absurd (omega arith)

abbrev pub total : List ℕ → ℕ
total [] = 0
total (n ∷ ns) = n + total ns

-- What a client does with the outcome of `Read`: it goes on until there is an error.
abbrev pub on_read :
    {S : Type 0} → Read S → (S → Result (Bytes × Option Error)) → Result (Bytes × Option Error)
on_read (ok (s, b, none)) again = again s >>= λ r. ok (b ++ r.0, r.1)
on_read (ok (s, b, some e)) again = ok (b, some e)
on_read (err e) again = err e
on_read panic again = panic
on_read stuck again = stuck

module _ {R : Type 0} (rd : Reader R) (sum : Bytes → Bytes) (fuel : ℕ) where
  -- A client that reads into buffers of these sizes until it gets an error: what it got, and the error.
  unfoldable pub drain : List ℕ → DeserializeReader R → Result (Bytes × Option Error)
  drain [] s = ok ([], none)
  drain (n ∷ ns) s = on_read (deserialize_read rd sum fuel n s) (drain ns)

module _ {R : Type 0} (rd : Reader R) (sum : Bytes → Bytes) (v : Delivers rd) (fuel : ℕ) where
  -- Buffers that hold something, and enough rounds for each.
  abbrev pub Fit : ℕ → List ℕ → Type 0
  Fit l = All (λ n. (0 < n) × (l + n < fuel))

  -- What a client gets from a stream that ends in the bytes `t`.
  abbrev Ends : DeserializeReader R → Bytes → Bytes → Result (Bytes × Option Error) → Type 0
  Ends s body t r =
      ((beq_bytes t (sum (s.hasher ++ body)) ≡ true) × (r ≡ ok (body, some eof)))
      ⊎ ((beq_bytes t (sum (s.hasher ++ body)) ≡ false)
          × (b : Bytes) × (r ≡ ok (b, some hmac_mismatch)))

  read_on :
      (s : DeserializeReader R) (n : ℕ) (ns : List ℕ) (body t : Bytes)
      (x : Read (DeserializeReader R))
      → Outcome rd sum v s n [] x
      → rest rd sum v s ≡ body ++ t
      → length t ≡ 32
      → length body < n + total ns
      → ((s' : DeserializeReader R) (body' : Bytes)
          → Good rd sum v s'
          → rounds rd sum v s' ≤ rounds rd sum v s
          → rest rd sum v s' ≡ body' ++ t
          → length body' < total ns
          → Ends s' body' t (drain rd sum fuel ns s'))
      → Ends s body t (on_read x (drain rd sum fuel ns))
  read_on s n ns body t _ (part s' b _ eo er eh long g fewer full) e lt short ih =
      let (body', p, q) = prefix_of b (rest rd sum v s') body t (sym er ∙ e) (omega arith) in
      let sizes : length body' < total ns =
        omega (arith, ap length p, length-append b body', ap length eo) in
      let same : s'.hasher ++ body' ≡ s.hasher ++ body =
        ap (λ h. h ++ body') eh ∙ append_assoc s.hasher b body' ∙ ap (λ u. s.hasher ++ u) (sym p) in
      elim (ih s' body' g fewer q sizes) [
        | inl (eq, r) ↦ inl (
          ap (λ h. beq_bytes t (sum h)) (sym same) ∙ eq,
          rw (r, eo) (ap (λ u. ok (u, some eof)) (sym p)),
        )
        | inr (ne, c, r) ↦ inr (ap (λ h. beq_bytes t (sum h)) (sym same) ∙ ne, b ++ c, rw (r, eo))
      ]
  read_on s n ns body t _ (whole s' b t' o eo er l eq) e lt short ih =
      let (p, q) = cut_once b t' body t (sym er ∙ e) (omega arith) in
      inl (
        ap (λ u. beq_bytes u (sum (s.hasher ++ body))) q
            ∙ ap (λ u. beq_bytes t' (sum (s.hasher ++ u))) p
            ∙ eq,
        rw (eo, p),
      )
  read_on s n ns body t _ (broken s' b t' er l ne) e lt short ih =
      let (p, q) = cut_once b t' body t (sym er ∙ e) (omega arith) in
      inr (
        ap (λ u. beq_bytes u (sum (s.hasher ++ body))) q
            ∙ ap (λ u. beq_bytes t' (sum (s.hasher ++ u))) p
            ∙ ne,
        [],
        refl,
      )

  pub drain-Ends :
      (ns : List ℕ) (s : DeserializeReader R) (body t : Bytes)
      → Good rd sum v s
      → Fit (rounds rd sum v s) ns
      → rest rd sum v s ≡ body ++ t
      → length t ≡ 32
      → length body < total ns
      → Ends s body t (drain rd sum fuel ns s)
  unfolding drain deserialize_read
  drain-Ends [] s body t g f e l h = absurd (omega arith)
  drain-Ends (n ∷ ns) s body t g ((pos, enough), f) e l h =
      read_on s n ns body t (deserialize_loop rd sum fuel n s [])
        (deserialize_loop-Outcome rd sum v n fuel s [] (omega arith) g
          (omega (arith, ap length e, length-append body t)) (omega arith))
        e l h
        (λ s' body' g' fewer e' h'.
          drain-Ends ns s' body' t g'
            (All-map (λ m. (0 < m) × (rounds rd sum v s + m < fuel))
              (λ m. (0 < m) × (rounds rd sum v s' + m < fuel)) ns
              (λ m q. (q.0, omega (arith, q.1, fewer))) f)
            e' l h')
