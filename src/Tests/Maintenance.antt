-- ===== src/Tests/Maintenance.antt =====
-- cmd/plakar/subcommands/maintenance/maintenance.go over databases in memory.
use plakar.Prelude.{
  ◌≡◌, refl, ap, ◌∙◌, inl, inr, false, List, [], ◌∷◌, arith, ok, if◌then◌else◌, Bool-cases, All,
  subst, some, not_found,
}
use plakar.Text.{codes, hex, digits, lt_bytes}
use plakar.Wire.{Bytes, beq_bytes, beq_bytes_eq, beq_bytes_refl}
use plakar.Resources.{rt_packfile}
use plakar.Caching.Database.{Table, has_key, insert, with_prefix}
use plakar.Caching.Repository.Entries.{IsMac}
use plakar.Caching.Maintenance
use plakar.Caching.StateCache.{StateCache}
use plakar.State.{deleted_entry_to_bytes, before}
use plakar.State.Local.{LocalState, new_local_state}
use plakar.Maintenance.{Repository, among, update_cache, colour_pass}
use plakar.Maintenance.Colour.{delete_all}
use plakar.Maintenance.Records.{Each}
use plakar.Maintenance.Update.{Named, Complete, update_cache-Complete}
use plakar.Maintenance.Unused.{listed, colour_pass-unused}
use plakar.Maintenance.Sweep.{list_deleted_packfiles, sweep_pass}
use plakar.Maintenance.Sweep.Packfiles.{Removes, Spares, sweep_pass-keeps, sweep_pass-removes}
use plakar.Tests.Caches.{used}
use plakar.Tests.Memory.{Memory, memory, empty, has, remove}
use plakar.Tests.Sorted.{sorted, sorted_works, mac_of, mac_of-IsMac}

-- A snapshot that uses one of two packfiles.
abbrev repo : Repository
repo = record {
  list_snapshots = mac_of 1 ∷ [];
  list_deleted_snapshots = mac_of 2 ∷ [];
  load = λ s. ok tt;
  list_snapshot_packfiles = λ s. ok (ok (mac_of 8) ∷ []);
  list_packfiles = mac_of 8 ∷ mac_of 9 ∷ [];
  stored_packfiles = ok [];
  has_deleted_packfile = λ p. ok false;
  packfile_before = λ cutoff p. ok false;
}

ok-injective : {A : Type 0} {a b : A} → ok a ≡ ok b → a ≡ b
ok-injective h = cc

repo-Named : Named sorted sorted_works repo
repo-Named = record {
  packfiles_named =
      λ s ps e. subst (All (Each IsMac)) (ok-injective e) (mac_of-IsMac 8 (omega arith), tt);
  snapshots_named = (mac_of-IsMac 1 (omega arith), tt);
  deleted_named = (mac_of-IsMac 2 (omega arith), tt);
}

nothing-Complete : Complete sorted sorted_works repo []
unfolding has_key
nothing-Complete = record {
  tidy = record { increasing = tt; names = tt };
  recorded = λ s ps hs known e. absurd (cc);
}

update_cache-Complete_example : Complete sorted sorted_works repo (update_cache sorted repo []).0
update_cache-Complete_example =
    update_cache-Complete sorted sorted_works repo repo-Named [] nothing-Complete

abbrev ls : LocalState Memory
ls = new_local_state empty 10

ended : (update_cache sorted repo []).1 ≡ ok tt
unfolding update_cache Maintenance.has_snapshot has_key insert hex digits lt_bytes beq_bytes
    plakar.Maintenance.add_snapshots plakar.Caching.Keys.has plakar.Maintenance.put_packfiles
    Maintenance.put_packfile plakar.Caching.Keys.put Maintenance.put_snapshot
    plakar.Maintenance.forget_snapshots
ended = refl

colour_pass-unused_example :
    (marked : List Bytes) × All (λ p. among p (listed (ok (mac_of 8) ∷ [])) ≡ false) marked
    × ((colour_pass sorted repo memory 7 3
          (λ ps. ps)
          (λ b. ok tt)
          (update_cache sorted repo []).0
          ls).0
        ≡ (delete_all memory 7 marked ls).0)
unfolding beq_bytes
colour_pass-unused_example =
    colour_pass-unused sorted sorted_works repo memory 7 3 (λ ps. ps) (λ b. ok tt) ls repo-Named
      (mac_of 1) (ok (mac_of 8) ∷ []) [] nothing-Complete ended (mac_of-IsMac 1 (omega arith)) refl
      refl refl

has-remove :
    (q p : Bytes) (t : Table) → has p (remove q t) ≡ (if beq_bytes p q then false else has p t)
has-remove q p [] = elim (Bool-cases (beq_bytes p q)) [ inl same ↦ rw same | inr other ↦ rw other ]
has-remove q p ((k, v) ∷ t) = ground (
  arith,
  has-remove q p t,
  beq_bytes_eq k q,
  beq_bytes_eq k p,
  beq_bytes_eq p q,
  beq_bytes_refl p,
  beq_bytes_refl q,
)

memory-Removes : Removes memory
memory-Removes = record {
  del_works = λ q c. refl;
  del_packfile_lem = λ q p c.
      ap ok (has-remove q p c.packfiles)
      ∙ elim (Bool-cases (beq_bytes p q)) [ inl same ↦ rw same | inr other ↦ rw other ];
  del_delta_lem = λ t b q p c. refl;
  del_deleted_lem = λ t q p c. refl;
}

-- Two packfiles that are marked, of which a snapshot uses one.
abbrev marked : LocalState Memory
marked =
    new_local_state
      (record empty {
        packfiles = (mac_of 8, []) ∷ (mac_of 9, []) ∷ [];
        deleteds =
            (
              rt_packfile ∷ mac_of 8,
              deleted_entry_to_bytes (record { type = rt_packfile; blob = mac_of 8; when = 2 }),
            )
            ∷ (
              rt_packfile ∷ mac_of 9,
              deleted_entry_to_bytes (record { type = rt_packfile; blob = mac_of 9; when = 1 }),
            )
            ∷ [];
      })
      10

-- A cache of which no packfile can be deleted.
abbrev failing : StateCache Memory
failing = record memory { del_packfile = λ q c. (c, some not_found) }

failing-Spares : Spares failing
failing-Spares = record {
  del_packfile_lem = λ q p c other. refl;
  del_delta_lem = memory-Removes.del_delta_lem;
  del_deleted_lem = memory-Removes.del_deleted_lem;
}

sweep_pass-keeps_example :
    failing.has_packfile
      (mac_of 8)
      (sweep_pass failing sorted 5 used (λ s. s) (λ id b. ok tt) (codes "serial") 20 marked).0.cache
    ≡ failing.has_packfile (mac_of 8) marked.cache
unfolding with_prefix Maintenance.has_packfile hex digits plakar.Text.has_prefix
sweep_pass-keeps_example =
    sweep_pass-keeps sorted used failing failing-Spares (mac_of 8) (λ s. s) (λ id b. ok tt)
      (codes "serial") 20 5 marked refl

sweep_pass-removes_example :
    memory.has_packfile
      (mac_of 9)
      (sweep_pass memory sorted 5 used (λ s. s) (λ id b. ok tt) (codes "serial") 20 marked).0.cache
    ≡ ok false
unfolding with_prefix Maintenance.has_packfile hex digits list_deleted_packfiles beq_bytes
    plakar.State.Listing.list_deleted_resources plakar.State.Listing.deleteds_in new_local_state
    plakar.State.deleted_entry_from_bytes deleted_entry_to_bytes plakar.State.fill plakar.Wire.le
    plakar.State.next_uint plakar.Wire.of_le plakar.Text.has_prefix
sweep_pass-removes_example =
    sweep_pass-removes sorted used memory memory-Removes (mac_of 9) (λ s. s) (λ id b. ok tt)
      (codes "serial") 20 5 marked ((mac_of 8, 2) ∷ []) [] 1 refl refl refl
