-- ===== src/Storage.antt =====
-- storage/serialization.go: the framing of a resource in the storage, as readers over readers.
pub mod Delivery
pub mod Reading
pub mod Whole
pub mod Header
pub mod Writing
pub mod RoundTrip
pub mod Stalls
use plakar.Prelude.{
  ℕ, zero, suc, ◌+◌, ◌-◌, ◌%◌, ◌^◌, Bool, true, false, not, ◌&&◌, Option, none, some, List, [], ◌∷◌,
  ◌++◌, length, take, drop, ltb, ◌==◌, if◌then◌else◌, Result, ok, err, panic, stuck, guard, Error,
  eof, unexpected_eof, invalid_magic, invalid_resource_type, hmac_mismatch, broken_invariant, ◌>>=◌,
  ◌>>◌,
}
use Prim.Native.Nat.{min}
use plakar.Text.{codes}
use plakar.Wire.{Bytes, le, of_le, beq_bytes}
use plakar.State.{zeros}

-- `io.Reader`: `read n` is `Read` into a buffer of `n` bytes, with the bytes that it put there.
pub record Reader (R : Type 0) : Type 0 where
  pub read : ℕ → R → R × Bytes × Option Error

abbrev pub storage_header_size : ℕ
storage_header_size = 16

abbrev pub storage_footer_size : ℕ
storage_footer_size = 32

abbrev pub magic : Bytes
magic = codes "_PLAKAR_"

-- The header of a resource.
unfoldable pub header_of : ℕ → ℕ → Bytes
header_of type version = magic ++ (le 4 type ++ le 4 version)

-- What `Read` leaves: the reader, the bytes it put into the buffer, and its error.
abbrev pub Read : Type 0 → Type 0
Read S = Result (S × Bytes × Option Error)

pub data Phase : Type 0 where
  phase_header phase_data phase_footer : Phase

-- The hasher is the bytes written to it since its last reset; `sum` is what `Sum` makes of them.
pub record SerializeReader (R : Type 0) : Type 0 where
  pub header : Bytes
  pub header_offset : ℕ
  pub inner : R
  pub hasher : Bytes
  pub hmac : Bytes
  pub hmac_offset : ℕ
  pub phase : Phase

pub record DeserializeReader (R : Type 0) : Type 0 where
  pub inner : R
  pub left_over : Bytes
  pub hasher : Bytes
  pub hmac : Bytes
  pub at_eof : Bool

abbrev pub chunk_size : ℕ
chunk_size = 4096

-- The number of bytes that can be handed out: the last 32 are kept back.
abbrev pub flushable : {R : Type 0} → DeserializeReader R → ℕ
flushable s = length s.left_over - 32

abbrev pub flushed : {R : Type 0} → ℕ → DeserializeReader R → DeserializeReader R
flushed k s = record s { hasher = s.hasher ++ take k s.left_over; left_over = drop k s.left_over }

module _ {R : Type 0} (rd : Reader R) (sum : Bytes → Bytes) where
  -- `newSerializeReader`
  unfoldable pub serialize : ℕ → ℕ → R → SerializeReader R
  unfolding header_of
  serialize type version inner = record {
    header = header_of type version;
    header_offset = 0;
    inner = inner;
    hasher = header_of type version;
    hmac = zeros 32;
    hmac_offset = 0;
    phase = phase_header;
  }

  abbrev pub Loop : Type 0
  Loop = SerializeReader R → Bytes → Read (SerializeReader R)

  -- The body of the loop of `Read` in each phase; `again` is the next round, `out` what is in the buffer.
  unfoldable pub read_header : ℕ → Loop → Loop
  read_header n again s out =
      let part = take (n - length out) (drop s.header_offset s.header) in
      let out' = if ltb s.header_offset (length s.header) then out ++ part else out in
      let s' =
        if ltb s.header_offset (length s.header)
        then record s { header_offset = s.header_offset + length part }
        else s in
      if ltb s.header_offset (length s.header) && (length out' == n)
      then ok (s', out', none)
      else if s'.header_offset == length s'.header
      then again (record s' { phase = phase_data }) out'
      else again s' out'

  -- What follows `s.inner.Read`.
  unfoldable pub after_inner :
      Loop → SerializeReader R → Bytes → R × Bytes × Option Error → Read (SerializeReader R)
  after_inner again s out (r, b, none) =
      ok (record s { inner = r; hasher = s.hasher ++ b }, out ++ b, none)
  after_inner again s out (r, b, some eof) =
      again
        (record s {
          inner = r;
          hasher = s.hasher ++ b;
          phase = phase_footer;
          hmac = take 32 (sum (s.hasher ++ b) ++ zeros 32);
        })
        (out ++ b)
  after_inner again s out (r, b, some e) =
      ok (record s { inner = r; hasher = s.hasher ++ b }, out ++ b, some e)

  unfoldable pub read_footer : ℕ → SerializeReader R → Bytes → Read (SerializeReader R)
  read_footer n s out =
      let part = take (n - length out) (drop s.hmac_offset s.hmac) in
      let s' = record s { hmac_offset = s.hmac_offset + length part } in
      if s'.hmac_offset == length s.hmac
      then ok (s', out ++ part, some eof)
      else ok (s', out ++ part, none)

  unfoldable pub read_phase : ℕ → Loop → Phase → Loop
  unfolding read_header after_inner read_footer
  read_phase n again phase_header s out = read_header n again s out
  read_phase n again phase_data s out = after_inner again s out (rd.read (n - length out) s.inner)
  read_phase n again phase_footer s out = read_footer n s out

  unfoldable pub serialize_loop : ℕ → ℕ → Loop
  serialize_loop zero n s out = stuck
  serialize_loop (suc fuel) n s out =
      if ltb (length out) n
      then read_phase n (serialize_loop fuel n) s.phase s out
      else ok (s, out, none)

  -- `serializeReader.Read` into `n` bytes: no more than one round for each phase, and one.
  unfoldable pub serialize_read : ℕ → SerializeReader R → Read (SerializeReader R)
  unfolding serialize_loop read_phase
  serialize_read n s = serialize_loop 4 n s []

  -- The chunk that a round of `deserializeReader.Read` reads first, unless it is at the end.
  unfoldable pub with_chunk :
      DeserializeReader R → R × Bytes × Option Error → DeserializeReader R × Option Error
  with_chunk s (r, b, none) = (record s { inner = r; left_over = s.left_over ++ b }, none)
  with_chunk s (r, b, some eof) =
      (record s { inner = r; left_over = s.left_over ++ b; at_eof = true }, none)
  with_chunk s (r, b, some e) = (record s { inner = r; left_over = s.left_over ++ b }, some e)

  unfoldable pub fill_up : DeserializeReader R → DeserializeReader R × Option Error
  unfolding with_chunk
  fill_up s = if s.at_eof then (s, none) else with_chunk s (rd.read chunk_size s.inner)

  -- The comparison at the end of the stream.
  unfoldable pub check_hmac : DeserializeReader R → Bytes → Read (DeserializeReader R)
  check_hmac s out =
      let s' = record s { hmac = s.left_over } in
      if beq_bytes s'.hmac (sum s.hasher)
      then ok (s', out, some eof)
      else ok (s', [], some hmac_mismatch)

  abbrev pub Round : Type 0
  Round = DeserializeReader R → Bytes → Read (DeserializeReader R)

  -- A round once the chunk was read.
  unfoldable pub hand_out : ℕ → Round → Round
  unfolding check_hmac
  hand_out n again s out =
      let k = min (flushable s) (n - length out) in
      let s' = flushed k s in
      let out' = out ++ take k s.left_over in
      if s.at_eof && (length s'.left_over == 32)
      then check_hmac s' out'
      else if (flushable s == 0) && not s.at_eof
      then again s' out'
      else if length out' == n
      then ok (s', out', none)
      else again s' out'

  unfoldable pub after_fill :
      ℕ → Round → DeserializeReader R × Option Error → Bytes → Read (DeserializeReader R)
  unfolding hand_out
  after_fill n again (s, none) out = hand_out n again s out
  after_fill n again (s, some e) out = ok (s, out, some e)

  unfoldable pub deserialize_loop : ℕ → ℕ → Round
  unfolding after_fill fill_up
  deserialize_loop zero n s out = stuck
  deserialize_loop (suc fuel) n s out =
      if ltb (length out) n
      then after_fill n (deserialize_loop fuel n) (fill_up s) out
      else ok (s, out, none)

  -- `deserializeReader.Read` into `n` bytes, with a bound on the rounds.
  unfoldable pub deserialize_read : ℕ → ℕ → DeserializeReader R → Read (DeserializeReader R)
  unfolding deserialize_loop
  deserialize_read fuel n s = deserialize_loop fuel n s []

  -- `io.ReadFull` of what is missing to `n` bytes, with a bound on the rounds.
  abbrev pub short_read_of : Bytes → Error → Error
  short_read_of [] e = e
  short_read_of (x ∷ xs) eof = unexpected_eof
  short_read_of (x ∷ xs) e = e

  abbrev pub More : Type 0
  More = R → Bytes → Result (R × Bytes)

  unfoldable pub after_read : ℕ → More → Bytes → R × Bytes × Option Error → Result (R × Bytes)
  after_read n again out (r, b, none) = again r (out ++ b)
  after_read n again out (r, b, some e) =
      if ltb (length (out ++ b)) n then err (short_read_of (out ++ b) e) else ok (r, out ++ b)

  unfoldable pub read_full : ℕ → ℕ → More
  unfolding after_read
  read_full zero n r out = stuck
  read_full (suc fuel) n r out =
      if ltb (length out) n
      then after_read n (read_full fuel n) out (rd.read (n - length out) r)
      else ok (r, out)

  -- `newDeserializeReader`, with a bound on the rounds of `io.ReadFull`: the version and the reader.
  unfoldable pub deserialize : ℕ → ℕ → R → Result (ℕ × DeserializeReader R)
  unfolding read_full
  deserialize fuel type inner = do
    (r, buf) ← read_full fuel storage_header_size inner []
    guard (beq_bytes (take 8 buf) magic) invalid_magic
    guard (of_le (take 4 (drop 8 buf)) == type) invalid_resource_type
    ok (
      of_le (take 4 (drop 12 buf)),
      record { inner = r; left_over = []; hasher = buf; hmac = zeros 32; at_eof = false },
    )

-- `Read` as an `io.Reader`. Its rounds never run out.
abbrev pub or_failed : {S : Type 0} → S → Read S → S × Bytes × Option Error
or_failed s (ok x) = x
or_failed s (err e) = (s, [], some e)
or_failed s panic = (s, [], some broken_invariant)
or_failed s stuck = (s, [], some broken_invariant)

abbrev pub serialized : {R : Type 0} → Reader R → (Bytes → Bytes) → Reader (SerializeReader R)
serialized rd sum = record { read = λ n s. or_failed s (serialize_read rd sum n s) }
