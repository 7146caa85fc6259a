-- ===== src/State/Updates/Serial.antt =====
-- repository/state/state.go, `UpdateSerialOr`: the serial is that of a latest state.
use plakar.Prelude.{
  ℕ, true, false, ◌≡◌, refl, List, [], ◌∷◌, some, Result, ok, All, Any, Any-map, arith, Bool-cases,
  inl, inr,
}
use plakar.Wire.{Bytes}
use plakar.Caching.StateCache.{StateCache}
use plakar.State.{Metadata, before}
use plakar.State.Local.{LocalState}
use plakar.State.Updates.{latest_in, update_serial_or}

-- The metadata that the cached states decode to.
abbrev pub Decodes : (Bytes → Result Metadata) → List (Bytes × Bytes) → List Metadata → Type 0
Decodes unmarshal [] [] = Unit
Decodes unmarshal [] (mt ∷ mts) = ⊥
Decodes unmarshal (e ∷ states) [] = ⊥
Decodes unmarshal (e ∷ states) (mt ∷ mts) = (unmarshal e.1 ≡ ok mt) × Decodes unmarshal states mts

-- `mt` is not before `other`.
abbrev pub NotBefore : Metadata → Metadata → Type 0
NotBefore mt other = before mt.timestamp other.timestamp ≡ false

not_before_trans : (a b c : ℕ) → before a b ≡ false → before b c ≡ false → before a c ≡ false
not_before_trans a b c h k = ground arith

before_asym : (a b : ℕ) → before a b ≡ true → before b a ≡ false
before_asym a b h = ground arith

module _ {C : Type 0} (i : StateCache C) (unmarshal : Bytes → Result Metadata) where
  abbrev Chosen : LocalState C → List (Bytes × Bytes) → List Metadata → Metadata → Metadata → Type 0
  Chosen ls states mts start mt =
      (latest_in i unmarshal states (some start) ls ≡ (ls, ok (some mt)))
      × NotBefore mt start
      × All (NotBefore mt) mts

  latest_in-Chosen :
      (states : List (Bytes × Bytes)) (mts : List Metadata) (start : Metadata) (ls : LocalState C)
      → Decodes unmarshal states mts
      → Any (Chosen ls states mts start) (start ∷ mts)
  unfolding latest_in
  latest_in-Chosen [] [] start ls h = inl (refl, ground arith, tt)
  latest_in-Chosen [] (mt ∷ mts) start ls h = absurd h
  latest_in-Chosen (e ∷ states) [] start ls h = absurd h
  latest_in-Chosen ((key, buf) ∷ states) (mt ∷ mts) start ls (hd, h) =
      elim (Bool-cases (before start.timestamp mt.timestamp)) [
        | inl newer ↦ inr (
            Any-map (Chosen ls states mts mt) (Chosen ls ((key, buf) ∷ states) (mt ∷ mts) start)
              (mt ∷ mts)
              (λ m (run, above, rest). (
                rw (hd, newer) run,
                not_before_trans m.timestamp mt.timestamp start.timestamp above
                    (before_asym start.timestamp mt.timestamp newer),
                (above, rest),
              ))
              (latest_in-Chosen states mts mt ls h))
        | inr older ↦ skip (Chosen ls ((key, buf) ∷ states) (mt ∷ mts) start) (
            Any-map (Chosen ls states mts start) (Chosen ls ((key, buf) ∷ states) (mt ∷ mts) start)
              (start ∷ mts)
              (λ m (run, above, rest). (
                rw (hd, older) run,
                above,
                (not_before_trans m.timestamp start.timestamp mt.timestamp above older, rest),
              ))
              (latest_in-Chosen states mts start ls h))
      ]
    where
      skip : (P : Metadata → Type 0) → Any P (start ∷ mts) → Any P (start ∷ mt ∷ mts)
      skip P (inl p) = inl p
      skip P (inr p) = inr (inr p)

  abbrev pub with_serial : LocalState C → Bytes → LocalState C
  with_serial ls serial = record ls { metadata = record ls.metadata { serial = serial } }

  -- `UpdateSerialOr` sets the serial to that of one of the states in the cache which no other state is
  -- later than, if there is a state, its metadata decodes, and the cache gives its states.
  pub update_serial_or-latest :
      (ls : LocalState C) (serial : Bytes) (states : List (Bytes × Bytes)) (mt : Metadata)
      (mts : List Metadata)
      → i.get_states ls.cache ≡ ok states
      → Decodes unmarshal states (mt ∷ mts)
      → Any
          (λ m.
            (update_serial_or i unmarshal serial ls ≡ (with_serial ls m.serial, ok tt))
            × All (NotBefore m) (mt ∷ mts))
          (mt ∷ mts)
  unfolding update_serial_or
  update_serial_or-latest ls serial [] mt mts e h = absurd h
  update_serial_or-latest ls serial ((key, buf) ∷ states) mt mts e (hd, h) =
      Any-map (Chosen ls states mts mt) _ (mt ∷ mts)
        (λ m (run, above, rest). (unfold latest_in in rw (e, hd, run), (above, rest)))
        (latest_in-Chosen states mts mt ls h)

  -- With no state in the cache `UpdateSerialOr` sets the serial that it is given.
  pub update_serial_or-none :
      (ls : LocalState C) (serial : Bytes)
      → i.get_states ls.cache ≡ ok []
      → update_serial_or i unmarshal serial ls ≡ (with_serial ls serial, ok tt)
  unfolding update_serial_or latest_in
  update_serial_or-none ls serial e = rw e
