-- ===== src/Storage/Stalls.antt =====
-- storage/serialization.go: `deserializeReader.Read` on a stream that was cut off.
use plakar.Prelude.{
  ℕ, zero, suc, ◌-◌, ◌<◌, ◌≡◌, ◌⊎◌, refl, ap, ◌∙◌, inl, inr, Bool, true, false, not, ◌&&◌, none, [],
  ◌++◌, arith, length, length-append, ltb, ◌==◌, if◌then◌else◌, Bool-cases, stuck,
}
use Prim.Native.Nat.{min}
use plakar.Wire.{Bytes}
use plakar.Storage.{
  Reader, Read, DeserializeReader, chunk_size, with_chunk, fill_up, flushable, hand_out, after_fill,
  deserialize_loop, deserialize_read,
}
use plakar.Storage.Delivery.{Delivers}
use plakar.Storage.Reading.{
  rest, Good, with_chunk-Fills, piece, behind, tail_of, length-piece, length-behind, rest-piece,
  choose,
}

module _ {R : Type 0} (rd : Reader R) (sum : Bytes → Bytes) (v : Delivers rd) (n : ℕ) where
  abbrev Stalls : (DeserializeReader R → Bytes → Read (DeserializeReader R)) → Type 0
  Stalls again =
      (s : DeserializeReader R) (out : Bytes)
      → length out < n
      → Good rd sum v s
      → length (rest rd sum v s) < 32
      → again s out ≡ stuck

  hand_out-stuck :
      (again : DeserializeReader R → Bytes → Read (DeserializeReader R)) (s : DeserializeReader R)
      (out : Bytes)
      → Stalls again
      → length out < n
      → Good rd sum v s
      → length (rest rd sum v s) < 32
      → hand_out rd sum n again s out ≡ stuck
  unfolding hand_out
  hand_out-stuck again s out ih room good short =
      choose (λ x. x ≡ stuck) (s.at_eof && (length s1.left_over == 32)) _ _
        (λ e. absurd (omega (arith, few, cut, is_32 e)))
        (λ e.
          choose (λ x. x ≡ stuck) ((flushable s == 0) && not s.at_eof) _ _ (λ q. on)
            (λ q.
              choose (λ x. x ≡ stuck) (length (out ++ b) == n) _ _
                (λ f. absurd (
                  omega
                    (arith, few, is_full f, length-append out b, length-piece rd sum v n s out)))
                (λ f. on)))
    where
      b : Bytes
      b = piece rd sum v n s out

      s1 : DeserializeReader R
      s1 = behind rd sum v n s out

      few : length s.left_over < 32
      few = omega (arith, short, length-append s.left_over (tail_of rd sum v s))

      cut : length s1.left_over ≡ length s.left_over - min (flushable s) (n - length out)
      cut = length-behind rd sum v n s out

      is_32 : (s.at_eof && (length s1.left_over == 32)) ≡ true → length s1.left_over ≡ 32
      is_32 e = ground (arith, e)

      is_full : (length (out ++ b) == n) ≡ true → length (out ++ b) ≡ n
      is_full e = ground (arith, e)

      on : again s1 (out ++ b) ≡ stuck
      on =
          ih s1 (out ++ b) (omega (arith, few, length-append out b, length-piece rd sum v n s out))
            good
            (omega (
              arith,
              short,
              ap length (rest-piece rd sum v n s out),
              length-append b (rest rd sum v s1),
            ))

  stalls : (fuel : ℕ) → Stalls (deserialize_loop rd sum fuel n)
  unfolding deserialize_loop fill_up after_fill
  stalls zero s out room good short = refl
  stalls (suc fuel) s out room good short =
      choose (λ x. x ≡ stuck) (ltb (length out) n) _ _
        (λ lt. filling (stalls fuel) (Bool-cases s.at_eof))
        (λ ge. absurd (ground (arith, ge, room)))
    where
      filling :
          Stalls (deserialize_loop rd sum fuel n)
          → (s.at_eof ≡ true) ⊎ (s.at_eof ≡ false)
          → after_fill rd sum n (deserialize_loop rd sum fuel n) (fill_up rd sum s) out ≡ stuck
      filling ih (inl closed) =
          let same : fill_up rd sum s ≡ (s, none) =
            ap
              (λ (q : Bool).
                if q then (s, none) else with_chunk rd sum s (rd.read chunk_size s.inner))
              closed in
          rw same (hand_out-stuck (deserialize_loop rd sum fuel n) s out ih room good short)
      filling ih (inr opened) =
          let (s1, e, f) =
            with_chunk-Fills rd sum v s (rd.read chunk_size s.inner) opened
              (v.gives chunk_size s.inner (omega arith) (good opened)) in
          let same : fill_up rd sum s ≡ (s1, none) =
            ap
              (λ (q : Bool).
                if q then (s, none) else with_chunk rd sum s (rd.read chunk_size s.inner))
              opened
            ∙ e in
          rw same (
            hand_out-stuck (deserialize_loop rd sum fuel n) s1 out ih room f.good (rw f.same short))

  -- On a stream that has fewer than 32 bytes behind its header, `Read` into a buffer that is not empty never
  -- returns: no number of rounds is enough, though the stream comes to its end.
  pub deserialize_read-stuck :
      (fuel : ℕ) (s : DeserializeReader R)
      → 0 < n
      → Good rd sum v s
      → length (rest rd sum v s) < 32
      → deserialize_read rd sum fuel n s ≡ stuck
  unfolding deserialize_read
  deserialize_read-stuck fuel s pos good short = stalls fuel s [] pos good short
