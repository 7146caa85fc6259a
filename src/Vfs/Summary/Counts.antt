-- ===== src/Vfs/Summary/Counts.antt =====
-- snapshot/vfs/summary.go: what the counters of a summary add up to.
use native.Mathlib.Nat.{div-add-mod, mod-lt}
use plakar.Prelude.{lt→ltb, List, [], ◌∷◌, All, ℕ, ◌+◌, ◌*◌, ◌^◌, ◌≤◌, ◌<◌, ◌≡◌, refl, arith}
use plakar.Vfs.Summary.Modes.{
  FileMode, one, bits, one_for, plus, kind-type_bits, low_bits, special_bits, one-bound, one-is,
  inc-one, inc-one_for,
}
use plakar.Vfs.Summary.{
  Float64, FileSummary, Directory, Summary, add64, update_below, update_with_file_summary,
  update_averages,
}

module _ {F : Type 0} where
  abbrev pub counters : Directory F → List ℕ
  counters d = d.files ∷ d.directories ∷ d.symlinks ∷ d.devices ∷ d.pipes ∷ d.sockets ∷ []

  abbrev pub special : Directory F → List ℕ
  special d = d.setuid ∷ d.setgid ∷ d.sticky ∷ []

  -- The entries that a directory counts, of the six kinds.
  abbrev pub entries : Directory F → ℕ
  entries d = d.files + d.directories + d.symlinks + d.devices + d.pipes + d.sockets

  -- The entries that are counted below a directory.
  abbrev pub total : Summary F → ℕ
  total s =
      s.below.files + s.below.directories + s.below.symlinks + s.below.devices + s.below.pipes
      + s.below.sockets

module _ {F : Type 0} (fl : Float64 F) where
  -- `UpdateWithFileSummary` of an entry whose `fs.FileMode` is made of one type, permission bits, and setuid, setgid and
  -- sticky or not: the counter of the type goes up by one and the others of the six stay, where a character device
  -- counts as a device and an entry of irregular type as a file; the setuid, setgid and sticky counters go up where
  -- the bit is set; the entry's size is added to the directory's; what is below the directory stays as it is. The
  -- counts and the size stay below 2 ^ 64.
  pub update_with_file_summary-counts :
      (f : FileSummary F) (s : Summary F) (m : FileMode)
      → f.mode ≡ bits m
      → m.perm < 512
      → All (λ n. n + 1 < 2 ^ 64) (counters s.directory)
      → All (λ n. n + 1 < 2 ^ 64) (special s.directory)
      → s.directory.size + f.size < 2 ^ 64
      → (counters (update_with_file_summary fl f s).directory
          ≡ plus (counters s.directory) (one_for m.type))
        × (special (update_with_file_summary fl f s).directory
            ≡ plus (special s.directory) (one m.setuid ∷ one m.setgid ∷ one m.sticky ∷ []))
        × ((update_with_file_summary fl f s).directory.size ≡ s.directory.size + f.size)
        × ((update_with_file_summary fl f s).below ≡ s.below)
  unfolding update_with_file_summary
  update_with_file_summary-counts f s m e p h (hu, (hg, (ht, _))) k =
      let d = s.directory in
      let (l, b21, b19) =
        low_bits (one m.setuid) (one m.setgid) (one m.sticky) m.perm (one-bound m.setuid)
          (one-bound m.setgid) (one-bound m.sticky) p in
      let (u, g, t) =
        special_bits m.type (one m.setuid) (one m.setgid) (one m.sticky) m.perm (one-bound m.setuid)
          (one-bound m.setgid) (one-bound m.sticky) p in
      (
        rw (e, kind-type_bits m.type _ l b21 b19)
            (inc-one_for m.type d.files d.directories d.symlinks d.devices d.pipes d.sockets h),
        rw
            (
              e,
              one-is m.setuid _ u,
              one-is m.setgid _ g,
              one-is m.sticky _ t,
              inc-one m.setuid d.setuid hu,
              inc-one m.setgid d.setgid hg,
              inc-one m.sticky d.sticky ht,
            )
            refl,
        omega (arith, k),
        refl,
      )

  add_three : (a b c : ℕ) → a + b + c < 2 ^ 64 → add64 a (add64 b c) ≡ a + b + c
  add_three a b c h = omega arith

  -- `UpdateBelow` adds a child's own entries and those below the child to those below the directory, and
  -- its sizes and its errors, while the sums stay below 2 ^ 64.
  pub update_below-counts :
      (s b : Summary F)
      → total s + total b + entries b.directory < 2 ^ 64
      → s.below.size + b.below.size + b.directory.size < 2 ^ 64
      → s.below.errors + b.below.errors + b.directory.errors < 2 ^ 64
      → (total (update_below fl s b) ≡ total s + total b + entries b.directory)
        × ((update_below fl s b).below.size ≡ s.below.size + b.below.size + b.directory.size)
        × ((update_below fl s b).below.errors
            ≡ s.below.errors + b.below.errors + b.directory.errors)
        × ((update_below fl s b).directory ≡ s.directory)
  unfolding update_below
  update_below-counts s b h k e = (
    omega (
      arith,
      add_three s.below.files b.below.files b.directory.files (omega arith),
      add_three s.below.directories b.below.directories b.directory.directories (omega arith),
      add_three s.below.symlinks b.below.symlinks b.directory.symlinks (omega arith),
      add_three s.below.devices b.below.devices b.directory.devices (omega arith),
      add_three s.below.pipes b.below.pipes b.directory.pipes (omega arith),
      add_three s.below.sockets b.below.sockets b.directory.sockets (omega arith),
    ),
    omega arith,
    omega arith,
    refl,
  )

  -- The average size times the number of files is the size up to a remainder below that number, after
  -- `UpdateAverages` on a directory with files; the averages of one with none stay as they are.
  pub update_averages-avg_size :
      (s : Summary F)
      → (0 < s.directory.files
          → (let a = (update_averages fl s).directory.avg_size in
              (a * s.directory.files ≤ s.directory.size)
              × (s.directory.size < (a + 1) * s.directory.files)))
        × (s.directory.files ≡ 0 → update_averages fl s ≡ s)
  unfolding update_averages
  update_averages-avg_size s =
      let n = s.directory.files in
      let z = s.directory.size in
      (
        (λ h. rw (lt→ltb 0 n h) (
          omega (arith, div-add-mod z n, mod-lt z h),
          omega (arith, div-add-mod z n, mod-lt z h),
        )),
        (λ h. ground arith),
      )
