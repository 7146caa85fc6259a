-- ===== src/Vfs/Summary/Extremes.antt =====
-- snapshot/vfs/summary.go: the least and greatest values of a summary.
use plakar.Prelude.{◌≤◌, ◌<◌, ◌≡◌, ◌⊎◌, arith}
use Prim.Native.Nat.{max}
use plakar.Vfs.Summary.{Float64, FileSummary, Summary, update_below, update_with_file_summary}

module _ {F : Type 0} (fl : Float64 F) where
  -- `UpdateBelow` takes the greatest of the three greatest sizes.
  pub update_below-max_size :
      (s b : Summary F)
      → (update_below fl s b).below.max_size
        ≡ max s.below.max_size (max b.below.max_size b.directory.max_size)
  unfolding update_below
  update_below-max_size s b = ground arith

  -- Where nothing is below the child, so that its least size below is 0, `UpdateBelow` forgets the least
  -- size that it had: the child's own takes its place, however large.
  pub update_below-forgets_min_size :
      (s b : Summary F)
      → b.below.min_size ≡ 0
      → (update_below fl s b).below.min_size ≡ b.directory.min_size
  unfolding update_below
  update_below-forgets_min_size s b h = ground arith

  -- The least size of a directory survives `UpdateWithFileSummary` as a minimum while no size is 0. After
  -- an empty file it is 0, and the next file's size takes its place, however large.
  pub update_with_file_summary-min_size :
      (f g : FileSummary F) (s : Summary F)
      → ((0 < s.directory.min_size)
          → (0 < f.size)
          → (let m = (update_with_file_summary fl f s).directory.min_size in
              (m ≤ s.directory.min_size)
              × (m ≤ f.size)
              × ((m ≡ s.directory.min_size) ⊎ (m ≡ f.size))))
        × (f.size ≡ 0
            → (update_with_file_summary fl g (update_with_file_summary fl f s)).directory.min_size
              ≡ g.size)
  unfolding update_with_file_summary
  update_with_file_summary-min_size f g s = (λ h k. ground arith, λ h. ground arith)
