-- ===== src/Vfs/Reader/Contents.antt =====
-- snapshot/vfs/reader.go: what a client reads after `Seek`.
use plakar.Prelude.{
  ℕ, zero, suc, ◌+◌, ◌-◌, ◌%◌, ◌^◌, ◌≤◌, ◌<◌, ◌≡◌, refl, sym, ap, ◌∙◌, subst, Option, none, some,
  List, [], ◌∷◌, ◌++◌, append_assoc, arith, All, length, length-append, take, drop,
  take-append-drop, length-take, length-drop, ltb, Result, ok, Error, eof,
}
use plakar.Wire.{Bytes}
use plakar.Storage.{Read}
use plakar.Storage.Whole.{on_read}
use plakar.Storage.Reading.{choose}
use plakar.Vfs.Reader.{
  Chunk, ObjectReader, new_object_reader, read_chunk, after_chunk, after_open, opened, read_from,
  read, seek_in, seek_from, seek_start,
}

drop-suc {ℓ} :
    {A : Type ℓ} (n : ℕ) (xs : List A) (y : A) (ys : List A)
    → drop n xs ≡ y ∷ ys
    → drop (suc n) xs ≡ ys
drop-suc zero [] y ys h = cc
drop-suc zero (x ∷ xs) y ys h = cc
drop-suc (suc n) [] y ys h = cc
drop-suc (suc n) (x ∷ xs) y ys h = drop-suc n xs y ys h

drop-beyond : (n k : ℕ) (xs ys : Bytes) → length xs + k ≡ n → drop n (xs ++ ys) ≡ drop k ys
drop-beyond n k [] ys h = ap (λ j. drop j ys) (omega arith)
drop-beyond zero k (x ∷ xs) ys h = absurd (omega arith)
drop-beyond (suc n) k (x ∷ xs) ys h = drop-beyond n k xs ys (omega arith)

All-drop {ℓ κ} : {A : Type ℓ} (P : A → Type κ) (n : ℕ) (xs : List A) → All P xs → All P (drop n xs)
All-drop P zero xs h = h
All-drop P (suc n) [] h = h
All-drop P (suc n) (x ∷ xs) (h, hs) = All-drop P n xs hs

drop-within : (n : ℕ) (xs ys : Bytes) → n ≤ length xs → drop n (xs ++ ys) ≡ drop n xs ++ ys
drop-within zero xs ys h = refl
drop-within (suc n) [] ys h = absurd (omega arith)
drop-within (suc n) (x ∷ xs) ys h = drop-within n xs ys (omega arith)

module _ (get_blob : Bytes → Result Bytes) where
  -- A client that reads into buffers of these sizes until it gets an error: what it got, and the error.
  unfoldable pub drain : List ℕ → ObjectReader → Result (Bytes × Option Error)
  drain [] r = ok ([], none)
  drain (n ∷ ns) r = on_read (read get_blob n r) (drain ns)

module _ (get_blob : Bytes → Result Bytes) (blob : Bytes → Bytes) where
  -- `GetBlob` gives the bytes of these chunks, and their lengths are right.
  abbrev pub Stored : List Chunk → Type 0
  Stored cs =
      All
        (λ c.
          (get_blob c.content_mac ≡ ok (blob c.content_mac))
          × (length (blob c.content_mac) ≡ c.length))
        cs

  -- The bytes of the chunks, end to end.
  abbrev pub contents : List Chunk → Bytes
  contents [] = []
  contents (c ∷ cs) = blob c.content_mac ++ contents cs

  abbrev tail_of : List Chunk → Option Bytes → Bytes
  tail_of [] rd = []
  tail_of (c ∷ cs) none = blob c.content_mac ++ contents cs
  tail_of (c ∷ cs) (some left) = left ++ contents cs

  tail_of-none : (cs : List Chunk) → tail_of cs none ≡ contents cs
  tail_of-none [] = refl
  tail_of-none (c ∷ cs) = refl

  -- What a reader has still to give.
  abbrev remaining : ObjectReader → Bytes
  remaining r = tail_of (drop r.objoff r.chunks) r.rd

  -- A read gives the next bytes, one at least, or there is nothing left and it says so.
  data Outcome (chunks : List Chunk) (rest : Bytes) : Read ObjectReader → Type 0 where
    more :
        (r : ObjectReader) (b : Bytes)
        → r.chunks ≡ chunks
        → rest ≡ b ++ remaining r
        → 0 < length b
        → Outcome chunks rest (ok (r, b, none))
    last : (r : ObjectReader) → rest ≡ [] → Outcome chunks rest (ok (r, [], some eof))

  next_index : (n : ℕ) → n + 1 ≡ suc n
  next_index n = omega arith

  chunk-Outcome :
      (next : ObjectReader → Read ObjectReader) (n : ℕ) (c : Chunk) (cs : List Chunk)
      (r : ObjectReader) (left : Bytes)
      → 0 < n
      → drop r.objoff r.chunks ≡ c ∷ cs
      → ((r' : ObjectReader)
          → drop r'.objoff r'.chunks ≡ cs
          → r'.rd ≡ none
          → Outcome r'.chunks (contents cs) (next r'))
      → Outcome r.chunks (left ++ contents cs) (after_chunk get_blob next r (read_chunk n left))
  unfolding after_chunk read_chunk
  chunk-Outcome next n c cs r [] pos at ih =
      ih _ (ap (λ k. drop k r.chunks) (next_index r.objoff) ∙ drop-suc r.objoff r.chunks c cs at)
        refl
  chunk-Outcome next n c cs r (x ∷ xs) pos at ih =
      more _ (take n (x ∷ xs)) refl
        (rw at (
          ap (λ z. z ++ contents cs) (sym (take-append-drop n (x ∷ xs)))
          ∙ append_assoc (take n (x ∷ xs)) (drop n (x ∷ xs)) (contents cs)))
        (omega (arith, length-take n (x ∷ xs)))

  read_from-Outcome :
      (cs : List Chunk) (n : ℕ) (r : ObjectReader)
      → 0 < n
      → Stored cs
      → drop r.objoff r.chunks ≡ cs
      → Outcome r.chunks (tail_of cs r.rd) (read_from get_blob cs n r)
  unfolding read_from opened after_open
  read_from-Outcome [] n r pos s at = last r refl
  read_from-Outcome (c ∷ cs) n r pos (h, s) at =
      go
        (λ r' at' e.
          subst (λ z. Outcome r'.chunks z (read_from get_blob cs n r'))
            (ap (tail_of cs) e ∙ tail_of-none cs) (read_from-Outcome cs n r' pos s at'))
        r.rd
    where
      go :
          ((r' : ObjectReader)
            → drop r'.objoff r'.chunks ≡ cs
            → r'.rd ≡ none
            → Outcome r'.chunks (contents cs) (read_from get_blob cs n r'))
          → (o : Option Bytes)
          → Outcome r.chunks
              (tail_of (c ∷ cs) o)
              (after_open get_blob n (read_from get_blob cs n) r (opened get_blob c o))
      go ih none = rw h.0 (chunk-Outcome (read_from get_blob cs n) n c cs r _ pos at ih)
      go ih (some left) = chunk-Outcome (read_from get_blob cs n) n c cs r left pos at ih

  drain-remaining :
      (ns : List ℕ) (r : ObjectReader)
      → All (λ n. 0 < n) ns
      → Stored r.chunks
      → length (remaining r) < length ns
      → drain get_blob ns r ≡ ok (remaining r, some eof)
  unfolding drain read
  drain-remaining [] r pos s enough = absurd (omega arith)
  drain-remaining (n ∷ ns) r (p, pos) s enough =
      go (λ r' same. drain-remaining ns r' pos (subst Stored (sym same) s)) (remaining r)
        (read get_blob n r) enough
        (read_from-Outcome (drop r.objoff r.chunks) n r p (All-drop _ r.objoff r.chunks s) refl)
    where
      go :
          ((r' : ObjectReader)
            → r'.chunks ≡ r.chunks
            → length (remaining r') < length ns
            → drain get_blob ns r' ≡ ok (remaining r', some eof))
          → (rest : Bytes) (x : Read ObjectReader) → length rest < suc (length ns)
          → Outcome r.chunks rest x
          → on_read x (drain get_blob ns) ≡ ok (rest, some eof)
      go ih rest x few (more r' b same e some_bytes) =
          rw
            (ih r' same
              (omega (arith, few, some_bytes, ap length e, length-append b (remaining r'))))
            (ap (λ z. ok (z, some eof)) (sym e))
      go ih rest x few (last r' e) = ap (λ z. ok (z, some eof)) (sym e)

  seek_from-Sought :
      (cs : List Chunk) (offset o : ℕ) (r : ObjectReader)
      → Stored cs
      → drop r.objoff r.chunks ≡ cs
      → r.rd ≡ none
      → r.off + offset ≡ o
      → o < 2 ^ 64
      → offset ≤ length (contents cs)
      → (r' : ObjectReader) × (seek_from get_blob cs offset r ≡ (r', ok o))
        × (r'.chunks ≡ r.chunks)
        × (remaining r' ≡ drop offset (contents cs))
  unfolding seek_from seek_in
  seek_from-Sought [] offset o r s at closed sum small within =
      let none_left : 0 ≡ offset = omega (arith, within) in
      let at_end : r.off ≡ o = omega (arith, sum, within) in
      (r, ap (λ z. (r, ok z)) at_end, refl, rw at (ap (λ (k : ℕ). drop {A = ℕ} k []) none_left))
  seek_from-Sought (c ∷ cs) offset o r (h, s) at closed sum small within =
      choose
        (λ z.
          (r' : ObjectReader) × (z ≡ (r', ok o))
          × (r'.chunks ≡ r.chunks)
          × (remaining r' ≡ drop offset (contents (c ∷ cs))))
        (ltb c.length offset) _ _
        (λ lt.
          let less : c.length < offset = ground (arith, lt) in
          let (r', e, same, p) =
            seek_from-Sought cs (offset - c.length) o _ s
              (ap (λ k. drop k r.chunks) (next_index r.objoff) ∙ drop-suc r.objoff r.chunks c cs at)
              closed (omega (arith, less, sum, small)) small
              (omega
                (arith, within, h.1, less, length-append (blob c.content_mac) (contents cs))) in
          (
            r',
            e,
            same,
            p
                ∙ sym (
                    drop-beyond offset (offset - c.length) (blob c.content_mac) (contents cs)
                      (omega (arith, less, h.1))),
          ))
        (λ ge.
          let there : (r.off + offset) % 2 ^ 64 ≡ o = omega (arith, sum, small) in
          let inside : offset ≤ length (blob c.content_mac) = ground (arith, ge, h.1) in
          let sought : ObjectReader = record r {
            off = (r.off + offset) % 2 ^ 64;
            rd = some (drop offset (blob c.content_mac));
          } in
          rw h.0 (
            sought,
            ap (λ z. (sought, ok z)) there,
            refl,
            rw at (sym (drop-within offset (blob c.content_mac) (contents cs) inside)),
          ))

  -- A client that reads on until it gets an error gets all bytes of the object, and after Seek from the start, to an
  -- offset that is not behind the end, those from there on, and then EOF; Seek gives the offset. GetBlob gives the
  -- chunks, whose lengths are right, the buffers are not empty, and there are more of them than bytes.
  pub reads-contents :
      (r : ObjectReader) (offset : ℕ) (ns : List ℕ)
      → Stored r.chunks
      → All (λ n. 0 < n) ns
      → length (contents r.chunks) < length ns
      → offset ≤ length (contents r.chunks)
      → offset < 2 ^ 63
      → (drain get_blob ns (new_object_reader r.chunks r.size) ≡ ok (contents r.chunks, some eof))
        × (r' : ObjectReader) × (seek_start get_blob offset r ≡ (r', ok offset))
        × (drain get_blob ns r' ≡ ok (drop offset (contents r.chunks), some eof))
  unfolding new_object_reader seek_start
  reads-contents r offset ns s pos enough within small =
      let fresh : ObjectReader = new_object_reader r.chunks r.size in
      let all_left : remaining fresh ≡ contents r.chunks = tail_of-none r.chunks in
      let (r', e, same, p) =
        seek_from-Sought r.chunks offset offset (record r { rd = none; off = 0; objoff = 0 }) s refl
          refl (omega arith) (omega (arith, small)) within in
      (
        drain-remaining ns fresh pos s (omega (arith, enough, ap length all_left))
            ∙ ap (λ z. ok (z, some eof)) all_left,
        r',
        e,
        drain-remaining ns r' pos (subst Stored (sym same) s)
              (omega (arith, enough, ap length p, length-drop offset (contents r.chunks)))
            ∙ ap (λ z. ok (z, some eof)) p,
      )
