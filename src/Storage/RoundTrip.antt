-- ===== src/Storage/RoundTrip.antt =====
-- storage/serialization.go: what `Serialize` writes, `Deserialize` reads.
use plakar.Prelude.{
  ℕ, suc, ◌+◌, ◌-◌, ◌<◌, ◌^◌, ◌≡◌, refl, sym, ap, ◌∙◌, inl, inr, Bool, true, some, none, List, [],
  ◌++◌, arith, All, length, take, take-append, All-map, subst, ltb, if◌then◌else◌, ok, eof,
}
use plakar.Wire.{Bytes, beq_bytes_refl}
use plakar.State.{zeros}
use plakar.Storage.{
  Reader, Read, Phase, phase_header, phase_data, phase_footer, SerializeReader, DeserializeReader,
  header_of, read_phase, serialize, serialize_loop, serialize_read, or_failed, serialized,
  deserialize,
}
use plakar.Storage.Delivery.{Given, more, last, Delivers}
use plakar.Storage.Whole.{total, drain}
use plakar.Storage.Header.{deserialize-reads, header_size}
use plakar.Storage.Writing.{
  to_come, still, Sound, Gives, gave, ended, read_footer-Gives, data-Gives, header-Gives,
}

module _ {R : Type 0} (rd : Reader R) (sum : Bytes → Bytes) (v : Delivers rd) where
  abbrev pub Valid : SerializeReader R → Type 0
  Valid s = Sound rd sum v s.phase s

  abbrev pub remaining : SerializeReader R → Bytes
  remaining s = to_come rd sum v s.phase s

  abbrev pub left : SerializeReader R → ℕ
  left s = still rd sum v s.phase s

  Given-of :
      (n bound : ℕ) (s : SerializeReader R) (p : Phase) (x : Read (SerializeReader R))
      → s.phase ≡ p
      → bound < still rd sum v p s
      → Gives rd sum v n [] (to_come rd sum v p s) bound x
      → Given Valid remaining left n s (or_failed s x)
  Given-of n bound s p _ ph less (gave s' q b o ph' sound eo er short fewer) =
      more s' o (subst (λ q. Sound rd sum v q s') (sym ph') sound)
        (ap (λ q. to_come rd sum v q s) ph
          ∙ er
          ∙ ap (λ t. t ++ to_come rd sum v q s') (sym eo)
          ∙ ap (λ q. o ++ to_come rd sum v q s') (sym ph'))
        short (omega (arith, ap (λ q. still rd sum v q s) ph, ap (λ q. still rd sum v q s') ph'))
  Given-of n bound s p _ ph less (ended s' b o eo er short) =
      last s' o (ap (λ q. to_come rd sum v q s) ph ∙ er ∙ sym eo) short

  -- Each phase, from an empty buffer.
  round-Gives :
      (n : ℕ) (s : SerializeReader R) (p : Phase)
      → 0 < n
      → s.phase ≡ p
      → Sound rd sum v p s
      → (bound : ℕ) × (bound < still rd sum v p s)
        × Gives rd sum v n []
            (to_come rd sum v p s)
            bound
            (read_phase rd sum n (serialize_loop rd sum 3 n) p s [])
  unfolding read_phase
  round-Gives n s phase_header pos ph sound = (
    35 + (v.left s.inner + (length s.header - s.header_offset)),
    omega arith,
    header-Gives rd sum v 1 n s [] pos ph sound,
  )
  round-Gives n s phase_data pos ph sound =
      (34 + v.left s.inner, omega arith, data-Gives rd sum v 2 n s [] pos ph sound)
  round-Gives n s phase_footer pos ph sound =
      (32 - s.hmac_offset, omega arith, read_footer-Gives rd sum v n s [] pos ph sound)

  pub serialize_read-Given :
      (n : ℕ) (s : SerializeReader R)
      → 0 < n
      → Valid s
      → Given Valid remaining left n s (or_failed s (serialize_read rd sum n s))
  unfolding serialize_read serialize_loop
  serialize_read-Given n s pos valid =
      let (bound, less, g) = round-Gives n s s.phase pos refl valid in
      let lt : ltb 0 n ≡ true = ground (arith, pos) in
      Given-of n bound s s.phase (serialize_loop rd sum 4 n s []) refl less (
        subst (Gives rd sum v n [] (to_come rd sum v s.phase s) bound)
          (sym (
            ap
              (λ (b : Bool).
                if b
                then read_phase rd sum n (serialize_loop rd sum 3 n) s.phase s []
                else ok (s, [], none))
              lt))
          g)

  abbrev pub serialized-Delivers : Delivers (serialized rd sum)
  serialized-Delivers = record {
    Valid = Valid;
    remaining = remaining;
    left = left;
    gives = serialize_read-Given;
  }

  -- `Deserialize` of what `Serialize` gives for a reader that delivers bytes: it gives the version, and a client
  -- that reads on, into buffers of any sizes but 0 that together have room for more than those bytes, gets exactly
  -- those bytes and EOF, with no mismatch, where the hasher gives 32 bytes. The bound on the rounds exceeds the
  -- reads of the stream and a buffer's size.
  pub deserialize-serialize :
      (fuel type version : ℕ) (ns : List ℕ) (r : R)
      → type < 2 ^ 32
      → version < 2 ^ 32
      → v.Valid r
      → ((b : Bytes) → length (sum b) ≡ 32)
      → All (λ n. (0 < n) × (53 + v.left r + n < fuel)) ns
      → length (v.remaining r) < total ns
      → 53 + v.left r < fuel
      → (s : DeserializeReader (SerializeReader R)) × (deserialize
            (serialized rd sum)
            sum
            fuel
            type
            (serialize rd sum type version r)
          ≡ ok (version, s))
        × (drain (serialized rd sum) sum fuel ns s ≡ ok (v.remaining r, some eof))
  unfolding serialize
  deserialize-serialize fuel type version ns r ht hv valid size fit room h =
      let start = serialize rd sum type version r in
      let header = header_of type version in
      let body = v.remaining r in
      let mac = sum (header ++ body) in
      let exact : take 32 (mac ++ zeros 32) ≡ mac =
        take-append 32 mac (zeros 32) (size (header ++ body)) in
      let header_length = header_size type version in
      let (s, is, ends) =
        deserialize-reads (serialized rd sum) sum serialized-Delivers type version fuel ns start
          body mac ht hv (omega arith, refl, valid) (ap (λ t. header ++ (body ++ t)) exact)
          (size (header ++ body))
          (All-map (λ n. (0 < n) × (53 + v.left r + n < fuel))
            (λ n. (0 < n) × (suc (left start) + n < fuel)) ns
            (λ n q. (q.0, omega (arith, q.1, header_length))) fit)
          room (omega (arith, header_length)) in
      elim ends [
        | inl (eq, got) ↦ (s, is, got)
        | inr (ne, b, got) ↦ absurd (ground (arith, ne, beq_bytes_refl mac))
      ]
