-- ===== src/Tests/Storage.antt =====
-- storage/serialization.go over a reader of bytes in memory.
use plakar.Prelude.{
  ℕ, ◌<◌, ◌≡◌, ◌⊎◌, refl, sym, true, false, none, some, Option, [], ◌∷◌, ◌++◌, arith, length, take,
  drop, take-append-drop, length-take, length-drop, ok, stuck, Error, eof, hmac_mismatch,
}
use plakar.Wire.{Bytes, beq_bytes}
use plakar.State.{zeros}
use plakar.Storage.{
  Reader, SerializeReader, DeserializeReader, header_of, serialize, serialized, deserialize,
  deserialize_read,
}
use plakar.Storage.Delivery.{Given, more, last, Delivers}
use plakar.Storage.Whole.{drain}
use plakar.Storage.Header.{deserialize-reads}
use plakar.Storage.RoundTrip.{deserialize-serialize}
use plakar.Storage.Stalls.{deserialize_read-stuck}

abbrev read_bytes : ℕ → Bytes → Bytes × Bytes × Option Error
read_bytes n [] = ([], [], some eof)
read_bytes n (x ∷ xs) = (drop n (x ∷ xs), take n (x ∷ xs), none)

abbrev bytes_reader : Reader Bytes
bytes_reader = record { read = read_bytes }

abbrev Anything : Bytes → Type 0
Anything r = Unit {0}

read_bytes-Given :
    (n : ℕ) (r : Bytes) → 0 < n → Given Anything (λ t. t) (length {A = ℕ}) n r (read_bytes n r)
read_bytes-Given n [] pos = last [] [] refl (omega arith)
read_bytes-Given n (x ∷ xs) pos =
    more (drop n (x ∷ xs)) (take n (x ∷ xs)) tt (sym (take-append-drop n (x ∷ xs)))
      (omega (arith, length-take n (x ∷ xs))) (omega (arith, length-drop n (x ∷ xs)))

abbrev bytes_reader-Delivers : Delivers bytes_reader
unfolding read_bytes-Given
bytes_reader-Delivers = record {
  Valid = Anything;
  remaining = λ t. t;
  left = length;
  gives = λ n r pos u. read_bytes-Given n r pos;
}

abbrev no_sum : Bytes → Bytes
no_sum b = zeros 32

deserialize-serialize_example :
    (s : DeserializeReader (SerializeReader Bytes)) × (deserialize
        (serialized bytes_reader no_sum)
        no_sum
        70
        3
        (serialize bytes_reader no_sum 3 65536 (7 ∷ []))
      ≡ ok (65536, s))
    × (drain (serialized bytes_reader no_sum) no_sum 70 (8 ∷ []) s ≡ ok (7 ∷ [], some eof))
unfolding bytes_reader-Delivers
deserialize-serialize_example =
    deserialize-serialize bytes_reader no_sum bytes_reader-Delivers 70 3 65536 (8 ∷ []) (7 ∷ [])
      (omega arith) (omega arith) tt (λ b. refl) (omega arith) (omega arith) (omega arith)

deserialize-reads_example :
    (s : DeserializeReader Bytes) × (deserialize bytes_reader no_sum 90 3
        (header_of 3 65536 ++ ((7 ∷ []) ++ zeros 32))
      ≡ ok (65536, s))
    × (((beq_bytes (zeros 32) (no_sum (header_of 3 65536 ++ (7 ∷ []))) ≡ true)
          × (drain bytes_reader no_sum 90 (8 ∷ []) s ≡ ok (7 ∷ [], some eof)))
        ⊎ ((beq_bytes (zeros 32) (no_sum (header_of 3 65536 ++ (7 ∷ []))) ≡ false)
            × (b : Bytes) × (drain bytes_reader no_sum 90 (8 ∷ []) s ≡ ok (b, some hmac_mismatch))))
unfolding bytes_reader-Delivers header_of plakar.Wire.le
deserialize-reads_example =
    deserialize-reads bytes_reader no_sum bytes_reader-Delivers 3 65536 90 (8 ∷ [])
      (header_of 3 65536 ++ ((7 ∷ []) ++ zeros 32)) (7 ∷ []) (zeros 32) (omega arith) (omega arith)
      tt refl refl (omega arith) (omega arith) (omega arith)

-- A stream of one byte behind the header.
abbrev cut_off : DeserializeReader Bytes
cut_off = record {
  inner = 7 ∷ [];
  left_over = [];
  hasher = header_of 3 65536;
  hmac = zeros 32;
  at_eof = false;
}

deserialize_read-stuck_example : deserialize_read bytes_reader no_sum 1000 8 cut_off ≡ stuck
unfolding bytes_reader-Delivers
deserialize_read-stuck_example =
    deserialize_read-stuck bytes_reader no_sum bytes_reader-Delivers 8 1000 cut_off (omega arith)
      (λ e. tt) (omega arith)
