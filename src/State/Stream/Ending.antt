-- ===== src/State/Stream/Ending.antt =====
-- repository/state/state.go: the loop of `deserializeFromStream` on any bytes.
use plakar.Prelude.{
  ℕ, zero, suc, ◌≤◌, ◌<◌, ◌≡◌, refl, [], ◌∷◌, ◌==◌, Option, none, some, Result, ok, err, panic,
  stuck, Error, arith, length, drop, length-drop, Bool-cases, inl, inr, ◌⊎◌, take, leb, eof,
  unexpected_eof,
}
use plakar.Wire.{Bytes, read_full, read_uint, of_le, read_full_takes}
use plakar.Caching.StateCache.{StateCache}
use plakar.State.{
  delta_entry_serialized_size, deleted_entry_serialized_size, packfile_entry_serialized_size,
  ConfigurationEntry, next_uint, fill, delta_entry_from_bytes, deleted_entry_from_bytes,
  packfile_entry_from_bytes, configuration_entry_from_bytes, et_metadata,
}
use plakar.State.Exec.{Exec, continue, checked}
use plakar.State.Local.{LocalState, outcome}
use plakar.State.Updates.{on_stored, put_configuration, insert_or_update_configuration}
use plakar.State.Stream.{
  read_location, read_deleted, read_packfile, read_configuration, switch, read_entry, merge_entries,
  read_metadata, deserialize_from_stream,
}
use plakar.Packfile.Accepts.{Ends, read_full-Ends}

-- The computation ends, and leaves no more than `n` bytes.
abbrev Within : ℕ → Result Bytes → Type 0
Within n (ok r) = length r ≤ n
Within n stuck = ⊥
Within n _ = Unit

continue-Within :
    {S A : Type 0} (n : ℕ) (m : Result A) (f : A → Exec S Bytes) (s : S)
    → Ends m
    → ((a : A) → m ≡ ok a → Within n (f a s).1)
    → Within n (continue m f s).1
continue-Within n (ok a) f s h k = k a refl
continue-Within n (err e) f s h k = tt
continue-Within n panic f s h k = tt
continue-Within n stuck f s h k = h

checked-Within :
    {S A : Type 0} (n : ℕ) (m : Result (A × Option Error)) (f : A → Exec S Bytes) (s : S)
    → Ends m
    → ((a : A) → Within n (f a s).1)
    → Within n (continue (checked m s).1 f (checked m s).0).1
checked-Within n (ok (a, none)) f s h k = k a
checked-Within n (ok (a, some e)) f s h k = tt
checked-Within n (err e) f s h k = tt
checked-Within n panic f s h k = tt
checked-Within n stuck f s h k = h

delta_entry-Ends : (buf : Bytes) → Ends (delta_entry_from_bytes buf)
unfolding delta_entry_from_bytes next_uint fill
delta_entry-Ends [] = tt
delta_entry-Ends (t ∷ r) = ground arith

deleted_entry-Ends : (buf : Bytes) → Ends (deleted_entry_from_bytes buf)
unfolding deleted_entry_from_bytes next_uint fill
deleted_entry-Ends [] = tt
deleted_entry-Ends (t ∷ r) = ground arith

packfile_entry-Ends : (buf : Bytes) → Ends (packfile_entry_from_bytes buf)
unfolding packfile_entry_from_bytes next_uint fill
packfile_entry-Ends r = ground arith

configuration_entry-Ends : (buf : Bytes) → Ends (configuration_entry_from_bytes buf)
unfolding configuration_entry_from_bytes next_uint
configuration_entry-Ends [] = tt
configuration_entry-Ends (t ∷ r) = ground arith

read_full-Within :
    {S : Type 0} (n size : ℕ) (r : Bytes) (f : Bytes × Bytes → Exec S Bytes) (s : S)
    → length r ≤ n
    → ((buf rest : Bytes) → length rest ≤ n → Within n (f (buf, rest) s).1)
    → Within n (continue (read_full size r) f s).1
read_full-Within n size r f s h k =
    continue-Within n (read_full size r) f s (read_full-Ends size r)
      λ (buf, rest) e. k buf rest (omega (arith, (read_full_takes size r buf rest e).1))

outcome-Ends : (e : Option Error) → Ends (outcome e)
outcome-Ends none = tt
outcome-Ends (some e) = tt

full_cases :
    (size : ℕ) (r : Bytes)
    → ((buf : Bytes) × (rest : Bytes) × (read_full size r ≡ ok (buf, rest))
        × (length rest ≤ length r))
      ⊎ ((e : Error) × (read_full size r ≡ err e))
unfolding read_full
full_cases size r = elim (Bool-cases (leb size (length r))) [
  | inl fits ↦ inl (take size r, drop size r, rw fits, omega (arith, length-drop size r))
  | inr short ↦ elim (Bool-cases (length r == 0)) [
    | inl z ↦ inr (eof, rw (short, z))
    | inr nz ↦ inr (unexpected_eof, rw (short, nz))
  ]
]

decoded_cases :
    {A : Type 0} (m : Result (A × Option Error))
    → Ends m
    → ((a : A) × (m ≡ ok (a, none)))
      ⊎ ((a : A) × (e : Error) × (m ≡ ok (a, some e)))
      ⊎ ((e : Error) × (m ≡ err e))
      ⊎ (m ≡ panic)
decoded_cases (ok (a, none)) h = inl (a, refl)
decoded_cases (ok (a, some e)) h = inr (inl (a, e, refl))
decoded_cases (err e) h = inr (inr (inl (e, refl)))
decoded_cases panic h = inr (inr (inr refl))
decoded_cases stuck h = absurd h

module _ {C : Type 0} (i : StateCache C) where
  on_stored-Ends :
      (m : Result Bytes) (ce : ConfigurationEntry) (ls : LocalState C)
      → Ends m
      → Ends (on_stored i m ce ls).1
  unfolding on_stored put_configuration configuration_entry_from_bytes
  on_stored-Ends (ok v) ce ls h = outcome-Ends _
  on_stored-Ends (err e) ce ls h = ground arith
  on_stored-Ends panic ce ls h = tt
  on_stored-Ends stuck ce ls h = h

  read_location-Within :
      (n size : ℕ) (r : Bytes) (ls : LocalState C)
      → length r ≤ n
      → Within n (read_location i size r ls).1
  unfolding read_location
  read_location-Within n size r ls h = elim (Bool-cases (size == delta_entry_serialized_size)) [
    | inr other ↦ rw other tt
    | inl same ↦ elim (full_cases delta_entry_serialized_size r) [
      | inr (e, short) ↦ rw (same, short) tt
      | inl (buf, rest, full, le) ↦
          elim (decoded_cases (delta_entry_from_bytes buf) (delta_entry-Ends buf)) [
            | inl (a, good) ↦ rw (same, full, good) (omega arith)
            | inr (inl (a, e, bad)) ↦ rw (same, full, bad) tt
            | inr (inr (inl (e, bad))) ↦ rw (same, full, bad) tt
            | inr (inr (inr p)) ↦ rw (same, full, p) tt
          ]
    ]
  ]

  read_deleted-Within :
      (n size : ℕ) (r : Bytes) (ls : LocalState C)
      → length r ≤ n
      → Within n (read_deleted i size r ls).1
  unfolding read_deleted
  read_deleted-Within n size r ls h = elim (Bool-cases (size == deleted_entry_serialized_size)) [
    | inr other ↦ rw other tt
    | inl same ↦ elim (full_cases deleted_entry_serialized_size r) [
      | inr (e, short) ↦ rw (same, short) tt
      | inl (buf, rest, full, le) ↦
          elim (decoded_cases (deleted_entry_from_bytes buf) (deleted_entry-Ends buf)) [
            | inl (a, good) ↦ rw (same, full, good) (omega arith)
            | inr (inl (a, e, bad)) ↦ rw (same, full, bad) tt
            | inr (inr (inl (e, bad))) ↦ rw (same, full, bad) tt
            | inr (inr (inr p)) ↦ rw (same, full, p) tt
          ]
    ]
  ]

  read_packfile-Within :
      (n size : ℕ) (r : Bytes) (ls : LocalState C)
      → length r ≤ n
      → Within n (read_packfile i size r ls).1
  unfolding read_packfile
  read_packfile-Within n size r ls h = elim (Bool-cases (size == packfile_entry_serialized_size)) [
    | inr other ↦ rw other tt
    | inl same ↦ elim (full_cases packfile_entry_serialized_size r) [
      | inr (e, short) ↦ rw (same, short) tt
      | inl (buf, rest, full, le) ↦
          elim (decoded_cases (packfile_entry_from_bytes buf) (packfile_entry-Ends buf)) [
            | inl (a, good) ↦ rw (same, full, good) (omega arith)
            | inr (inl (a, e, bad)) ↦ rw (same, full, bad) tt
            | inr (inr (inl (e, bad))) ↦ rw (same, full, bad) tt
            | inr (inr (inr p)) ↦ rw (same, full, p) tt
          ]
    ]
  ]

  module _ (looks_up : (key : Bytes) (c : C) → Ends (i.get_configuration key c)) where
    read_configuration-Within :
        (n size : ℕ) (r : Bytes) (ls : LocalState C)
        → length r ≤ n
        → Within n (read_configuration i size r ls).1
    unfolding read_configuration insert_or_update_configuration
    read_configuration-Within n size r ls h = read_full-Within n size r _ ls h λ buf rest le.
        checked-Within n (configuration_entry_from_bytes buf) _ ls (configuration_entry-Ends buf)
          λ ce.
            continue-Within n (on_stored i (i.get_configuration ce.key ls.cache) ce ls).1 _ _
              (on_stored-Ends _ ce ls (looks_up ce.key ls.cache)) λ a e. le

    switch-Within :
        (n et size : ℕ) (r : Bytes) (ls : LocalState C)
        → length r ≤ n
        → Within n (switch i et size r ls).1
    unfolding switch
    switch-Within n et size r ls h = ground (
      arith,
      read_location-Within n size r ls h,
      read_deleted-Within n size r ls h,
      read_packfile-Within n size r ls h,
      read_configuration-Within n size r ls h,
      length-drop size r,
    )

    read_entry-Within :
        (n et : ℕ) (r : Bytes) (ls : LocalState C)
        → length r ≤ n
        → Within n (read_entry i et r ls).1
    unfolding read_entry read_uint
    read_entry-Within n et r ls h = elim (full_cases 4 r) [
      | inr (e, short) ↦ rw short tt
      | inl (buf, rest, full, le) ↦ rw full (switch-Within n et (of_le buf) rest ls (omega arith))
    ]

    next_round :
        (fuel n : ℕ) (m : Result Bytes) (ls : LocalState C)
        → Within n m
        → n < fuel
        → ((r : Bytes) (ls : LocalState C) → length r < fuel → Ends (merge_entries i fuel r ls).1)
        → Ends (continue m (λ r. merge_entries i fuel r) ls).1
    next_round fuel n (ok r) ls h le go = go r ls (omega arith)
    next_round fuel n (err e) ls h le go = tt
    next_round fuel n panic ls h le go = tt
    next_round fuel n stuck ls h le go = h

    merge_entries-Ends :
        (fuel : ℕ) (r : Bytes) (ls : LocalState C)
        → length r < fuel
        → Ends (merge_entries i fuel r ls).1
    unfolding merge_entries
    merge_entries-Ends zero r ls h = absurd (omega arith)
    merge_entries-Ends (suc fuel) [] ls h = tt
    merge_entries-Ends (suc fuel) (et ∷ r) ls h = elim (Bool-cases (et == et_metadata)) [
      | inl last ↦ rw last tt
      | inr more ↦ rw more (
          next_round fuel (length r) (read_entry i et r ls).1 (read_entry i et r ls).0
            (read_entry-Within (length r) et r ls (omega arith)) (omega arith)
            (merge_entries-Ends fuel))
    ]

    read_metadata-Ends : (r : Bytes) (ls : LocalState C) → Ends (read_metadata i r ls).1
    unfolding read_metadata read_uint
    read_metadata-Ends r ls = elim (full_cases 4 r) [
      | inr (e, short) ↦ rw short tt
      | inl (a, r, first, _) ↦ elim (full_cases 8 r) [
        | inr (e, short) ↦ rw (first, short) tt
        | inl (b, r, second, _) ↦ elim (full_cases 16 r) [
          | inr (e, short) ↦ rw (first, second, short) tt
          | inl (c, r, third, _) ↦ rw (first, second, third) tt
        ]
      ]
    ]

    then_metadata :
        (m : Result Bytes) (ls : LocalState C)
        → Ends m
        → Ends (continue m (λ r. read_metadata i r) ls).1
    then_metadata (ok r) ls h = read_metadata-Ends r ls
    then_metadata (err e) ls h = tt
    then_metadata panic ls h = tt
    then_metadata stuck ls h = h

    -- `deserializeFromStream` ends on every input, into a cache whose lookups of configurations end: its
    -- loop never outlasts the bytes of the stream.
    pub deserialize_from_stream-Ends :
        (r : Bytes) (ls : LocalState C) → Ends (deserialize_from_stream i r ls).1
    unfolding deserialize_from_stream
    deserialize_from_stream-Ends r ls =
        then_metadata (merge_entries i (suc (length r)) r ls).1
          (merge_entries i (suc (length r)) r ls).0
          (merge_entries-Ends (suc (length r)) r ls (omega arith))
