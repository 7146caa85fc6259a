-- ===== src/State/Stream/Merge.antt =====
-- repository/state/state.go: a whole state, written by `SerializeToStream` and merged into another.
use plakar.Prelude.{
  zero, ◌∙◌, ◌-◌, ℕ, suc, ◌+◌, ◌%◌, ◌^◌, ◌≤◌, ◌<◌, ◌≡◌, refl, none, List, [], ◌∷◌, ◌++◌, arith,
  length, length-append, All, ok, map,
}
use plakar.Wire.{Bytes, le, length-le, read_uint-le, read_full-append}
use plakar.Caching.StateCache.{StateCache}
use plakar.State.{
  Metadata, DeltaEntry, DeletedEntry, PackfileEntry, ConfigurationEntry, et_configuration,
  delta_entry_to_bytes, deleted_entry_to_bytes, packfile_entry_to_bytes,
  configuration_entry_to_bytes,
}
use plakar.State.Entries
use plakar.State.Entries.{
  encoded, IsDeltaEntry, IsDeletedEntry, IsPackfileEntry, IsConfigurationEntry,
}
use plakar.State.Local.{LocalState}
use plakar.State.Updates.{insert_or_update_configuration}
use plakar.State.Stream.{
  write_entries, write_configurations, read_configuration, switch, read_entry, merge_entries,
}

-- The configuration part of the cache answers without an error.
pub record Quiet {C : Type 0} (i : StateCache C) : Type 0 where
  pub get_ok : (key : Bytes) (c : C) → (v : Bytes) × (i.get_configuration key c ≡ ok v)
  pub put_ok : (key v : Bytes) (c : C) → (i.put_configuration key v c).1 ≡ none

pub record IsMetadata (mt : Metadata) : Type 0 where
  pub version_range : mt.version < 256 ^ 4
  pub timestamp_range : mt.timestamp < 256 ^ 8
  pub serial_size : length mt.serial ≡ 16

-- What a cache holds, as entries in range, in the order in which it lists them.
pub record Holds {D : Type 0} (j : StateCache D) (c : D) (deltas : List (Bytes × DeltaEntry))
    (deleteds : List (Bytes × DeletedEntry)) (packfiles : List (Bytes × PackfileEntry))
    (configurations : List ConfigurationEntry) : Type 0 where
  pub deltas_are : j.get_deltas c ≡ encoded delta_entry_to_bytes deltas
  pub deleteds_are : j.get_deleteds c ≡ encoded deleted_entry_to_bytes deleteds
  pub packfiles_are : j.get_packfiles c ≡ encoded packfile_entry_to_bytes packfiles
  pub configurations_are : j.get_configurations c ≡ map configuration_entry_to_bytes configurations
  pub delta_range : All (λ e. IsDeltaEntry e.1) deltas
  pub deleted_range : All (λ e. IsDeletedEntry e.1) deleteds
  pub packfile_range : All (λ e. IsPackfileEntry e.1) packfiles
  pub configuration_range : All IsConfigurationEntry configurations

pub length-write_entries :
    (et size : ℕ) (es : List (Bytes × Bytes)) (tail : Bytes)
    → length es + length tail ≤ length (write_entries et size es tail)
unfolding write_entries
length-write_entries et size [] tail = omega arith
length-write_entries et size ((key, e) ∷ es) tail = omega (
  arith,
  length-append (le 4 size) (e ++ write_entries et size es tail),
  length-append e (write_entries et size es tail),
  length-write_entries et size es tail,
)

pub length-write_configurations :
    (es : List Bytes) (tail : Bytes)
    → length es + length tail ≤ length (write_configurations es tail)
unfolding write_configurations
length-write_configurations [] tail = omega arith
length-write_configurations (e ∷ es) tail = omega (
  arith,
  length-append (le 4 (length e % 2 ^ 32)) (e ++ write_configurations es tail),
  length-append e (write_configurations es tail),
  length-write_configurations es tail,
)

length-configuration_entry_to_bytes :
    (ce : ConfigurationEntry)
    → IsConfigurationEntry ce
    → length (configuration_entry_to_bytes ce) < 2 ^ 32
unfolding configuration_entry_to_bytes
length-configuration_entry_to_bytes ce h = omega (
  arith,
  length-append ce.key (le 2 (length ce.value % 2 ^ 16) ++ (ce.value ++ le 8 ce.created_at)),
  length-append (le 2 (length ce.value % 2 ^ 16)) (ce.value ++ le 8 ce.created_at),
  length-append ce.value (le 8 ce.created_at),
  length-le 2 (length ce.value % 2 ^ 16),
  length-le 8 ce.created_at,
  h.key_size,
  h.value_size,
)

module _ {C : Type 0} (i : StateCache C) where
  abbrev pub put_one_configuration : ConfigurationEntry → C → C
  put_one_configuration ce c = (i.put_configuration ce.key (configuration_entry_to_bytes ce) c).0

  unfoldable pub put_configurations : List ConfigurationEntry → C → C
  put_configurations [] c = c
  put_configurations (ce ∷ more) c = put_configurations more (put_one_configuration ce c)

  insert-Quiet :
      (ce : ConfigurationEntry) (ls : LocalState C)
      → Quiet i
      → insert_or_update_configuration i ce ls
        ≡ (record ls { cache = put_one_configuration ce ls.cache }, ok tt)
  unfolding insert_or_update_configuration
  insert-Quiet ce ls q =
      let (v, e) = q.get_ok ce.key ls.cache in
      rw (e, q.put_ok ce.key (configuration_entry_to_bytes ce) ls.cache)

  merge_entries-configuration :
      (ce : ConfigurationEntry) (fuel : ℕ) (rest : Bytes) (ls : LocalState C)
      → Quiet i
      → IsConfigurationEntry ce
      → merge_entries i
          (suc fuel)
          (et_configuration
            ∷ (le 4 (length (configuration_entry_to_bytes ce) % 2 ^ 32)
                ++ (configuration_entry_to_bytes ce ++ rest)))
          ls
        ≡ merge_entries i fuel rest (record ls { cache = put_one_configuration ce ls.cache })
  unfolding merge_entries read_entry switch read_configuration
  merge_entries-configuration ce fuel rest ls q h =
      let buf : Bytes = configuration_entry_to_bytes ce in
      let small : length buf % 2 ^ 32 ≡ length buf =
        omega (arith, length-configuration_entry_to_bytes ce h) in
      rw (
        small,
        read_uint-le 4 (length buf) (buf ++ rest)
            (omega (arith, length-configuration_entry_to_bytes ce h)),
        read_full-append (length buf) buf rest refl,
        Entries.configuration_entry_from_bytes-to_bytes ce h,
        insert-Quiet ce ls q,
      )

  pub merge_entries-write_configurations :
      (ces : List ConfigurationEntry) (fuel : ℕ) (tail : Bytes) (ls : LocalState C)
      → Quiet i
      → All IsConfigurationEntry ces
      → length ces ≤ fuel
      → merge_entries i fuel (write_configurations (map configuration_entry_to_bytes ces) tail) ls
        ≡ merge_entries i
            (fuel - length ces)
            tail
            (record ls { cache = put_configurations ces ls.cache })
  unfolding write_configurations put_configurations
  merge_entries-write_configurations [] fuel tail ls q h hf =
      let same : fuel - 0 ≡ fuel = omega arith in rw same
  merge_entries-write_configurations (ce ∷ ces) zero tail ls q h hf = absurd (omega arith)
  merge_entries-write_configurations (ce ∷ ces) (suc fuel) tail ls q (hc, h) hf =
      let same : suc fuel - suc (length ces) ≡ fuel - length ces = omega arith in
      merge_entries-configuration ce fuel
        (write_configurations (map configuration_entry_to_bytes ces) tail) ls q hc
      ∙ merge_entries-write_configurations ces fuel tail
          (record ls { cache = put_one_configuration ce ls.cache }) q h (omega arith)
      ∙ rw same
