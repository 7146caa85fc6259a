-- ===== src/Storage/Header.antt =====
-- storage/serialization.go: `Deserialize` and what a client then reads.
use plakar.Prelude.{
  ℕ, zero, suc, ◌+◌, ◌-◌, ◌≤◌, ◌<◌, ◌^◌, ◌≡◌, refl, sym, ap, ◌∙◌, inl, inr, true, false, Option,
  some, List, [], ◌++◌, append_assoc, append-nil, arith, All, All-map, ◌⊎◌, length, take, drop,
  length-append, ltb, ltb→lt, Bool-cases, Result, ok, Error, eof, hmac_mismatch,
}
use plakar.Wire.{Bytes, beq_bytes, beq_bytes_refl, le, of_le, of_le-le, length-le}
use plakar.State.{zeros}
use plakar.Storage.{Reader, DeserializeReader, header_of, magic, after_read, read_full, deserialize}
use plakar.Storage.Delivery.{Given, more, last, Delivers}
use plakar.Storage.Whole.{cut_once, total, drain, drain-Ends}

module _ {R : Type 0} (rd : Reader R) (sum : Bytes → Bytes) (v : Delivers rd) where
  -- `io.ReadFull`, where more bytes are to come than it wants.
  record Took (n : ℕ) (r : R) (out : Bytes) (x : Result (R × Bytes)) : Type 0 where
    reader : R
    bytes : Bytes
    is : x ≡ ok (reader, out ++ bytes)
    valid : v.Valid reader
    same : v.remaining r ≡ bytes ++ v.remaining reader
    size : length (out ++ bytes) ≡ n
    fewer : v.left reader ≤ v.left r

  read_full-Took :
      (fuel n : ℕ) (r : R) (out : Bytes)
      → length out ≤ n
      → v.Valid r
      → n < length out + length (v.remaining r)
      → v.left r < fuel
      → Took n r out (read_full rd sum fuel n r out)
  unfolding read_full after_read
  read_full-Took zero n r out room valid long h = absurd (omega arith)
  read_full-Took (suc fuel) n r out room valid long h = elim (Bool-cases (ltb (length out) n)) [
    | inr done ↦ rw done (record {
      reader = r;
      bytes = [];
      is = ap (λ u. ok (r, u)) (sym (append-nil out));
      valid = valid;
      same = refl;
      size = ap length (append-nil out) ∙ ground (arith, done);
      fewer = omega arith;
    })
    | inl open_yet ↦ rw open_yet (
        step (rd.read (n - length out) r)
          (v.gives (n - length out) r (omega (arith, ltb→lt (length out) n open_yet)) valid)
          (read_full-Took fuel n))
  ]
    where
      step :
          (x : R × Bytes × Option Error)
          → Given v.Valid v.remaining v.left (n - length out) r x
          → ((r' : R) (out' : Bytes)
              → length out' ≤ n
              → v.Valid r'
              → n < length out' + length (v.remaining r')
              → v.left r' < fuel
              → Took n r' out' (read_full rd sum fuel n r' out'))
          → Took n r out (after_read rd sum n (read_full rd sum fuel n) out x)
      step _ (more r' b valid' same short less) ih =
          let t =
            ih r' (out ++ b) (omega (arith, length-append out b)) valid'
              (omega (arith, length-append out b, ap length same, length-append b (v.remaining r')))
              (omega arith) in
          record {
            reader = t.reader;
            bytes = b ++ t.bytes;
            is = t.is ∙ ap (λ u. ok (t.reader, u)) (append_assoc out b t.bytes);
            valid = t.valid;
            same =
                same
                ∙ ap (λ u. b ++ u) t.same
                ∙ sym (append_assoc b t.bytes (v.remaining t.reader));
            size = ap length (sym (append_assoc out b t.bytes)) ∙ t.size;
            fewer = omega (arith, t.fewer);
          }
      step _ (last r' b same short) ih = absurd (omega (arith, ap length same))

pub header_size : (type version : ℕ) → length (header_of type version) ≡ 16
unfolding header_of
header_size type version =
    omega (arith, length-append (le 4 type) (le 4 version), length-le 4 type, length-le 4 version)

module _ {R : Type 0} (rd : Reader R) (sum : Bytes → Bytes) (v : Delivers rd)
    (type version : ℕ) where
  magic_of_header : beq_bytes (take 8 (header_of type version)) magic ≡ true
  unfolding header_of le
  magic_of_header = beq_bytes_refl magic

  type_of_header : type < 2 ^ 32 → of_le (take 4 (drop 8 (header_of type version))) ≡ type
  unfolding header_of le of_le
  type_of_header h = of_le-le 4 type (omega arith)

  version_of_header : version < 2 ^ 32 → of_le (take 4 (drop 12 (header_of type version))) ≡ version
  unfolding header_of le of_le
  version_of_header h = of_le-le 4 version (omega arith)

  -- The reader that `Deserialize` returns.
  abbrev pub opened : R → DeserializeReader R
  opened r = record {
    inner = r;
    left_over = [];
    hasher = header_of type version;
    hmac = zeros 32;
    at_eof = false;
  }

  deserialize-opened :
      (fuel : ℕ) (r : R) (content : Bytes)
      → type < 2 ^ 32
      → version < 2 ^ 32
      → v.Valid r
      → v.remaining r ≡ header_of type version ++ content
      → 0 < length content
      → v.left r < fuel
      → (r' : R) × (deserialize rd sum fuel type r ≡ ok (version, opened r'))
        × v.Valid r'
        × (v.remaining r' ≡ content)
        × (v.left r' ≤ v.left r)
  unfolding deserialize
  deserialize-opened fuel r content ht hv valid e long h =
      let t =
        read_full-Took rd sum v fuel 16 r [] (omega arith) valid
          (omega (
            arith,
            ap length e,
            length-append (header_of type version) content,
            header_size type version,
          ))
          h in
      let (p, q) =
        cut_once (header_of type version) content t.bytes (v.remaining t.reader) (sym e ∙ t.same) (
          omega (
            arith,
            ap length t.same,
            ap length e,
            t.size,
            header_size type version,
            length-append (header_of type version) content,
            length-append t.bytes (v.remaining t.reader),
          )) in
      (
        t.reader,
        rw (t.is, p, magic_of_header, type_of_header ht, version_of_header hv) (ground arith),
        t.valid,
        q,
        t.fewer,
      )

  -- `Deserialize` of a stream that is a header of the type, some bytes and 32 more: it gives the version, and a
  -- client that reads on, into buffers of any sizes but 0 that together have room for more than those bytes, gets
  -- exactly those bytes and EOF where the last 32 are what the hasher makes of the header and the bytes, and ends
  -- with a mismatch where they are not. The bounds on the rounds exceed the reads of the stream and a buffer's
  -- size.
  pub deserialize-reads :
      (fuel : ℕ) (ns : List ℕ) (r : R) (body t : Bytes)
      → type < 2 ^ 32
      → version < 2 ^ 32
      → v.Valid r
      → v.remaining r ≡ header_of type version ++ (body ++ t)
      → length t ≡ 32
      → All (λ n. (0 < n) × (suc (v.left r) + n < fuel)) ns
      → length body < total ns
      → v.left r < fuel
      → (s : DeserializeReader R) × (deserialize rd sum fuel type r ≡ ok (version, s))
        × (((beq_bytes t (sum (header_of type version ++ body)) ≡ true)
              × (drain rd sum fuel ns s ≡ ok (body, some eof)))
            ⊎ ((beq_bytes t (sum (header_of type version ++ body)) ≡ false)
                × (b : Bytes) × (drain rd sum fuel ns s ≡ ok (b, some hmac_mismatch))))
  deserialize-reads fuel ns r body t ht hv valid e l fit room h =
      let (r', is, valid', same, fewer) =
        deserialize-opened fuel r (body ++ t) ht hv valid e (omega (arith, length-append body t))
          h in
      (
        opened r',
        is,
        drain-Ends rd sum v fuel ns (opened r') body t (λ _. valid')
            (All-map (λ n. (0 < n) × (suc (v.left r) + n < fuel))
              (λ n. (0 < n) × (suc (v.left r') + n < fuel)) ns
              (λ n q. (q.0, omega (arith, q.1, fewer))) fit)
            same l room,
      )
