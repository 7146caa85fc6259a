-- ===== src/Tests/Vfs.antt =====
-- snapshot/vfs/summary.go: concrete summaries, with natural numbers for the floating-point ones.
use plakar.Prelude.{ℕ, ◌+◌, ◌/◌, ◌≡◌, refl, true, false, [], ◌∷◌, arith, ltb, leb, ◌==◌}
use plakar.Vfs.Summary.{Float64, FileSummary, Directory, Below, Summary, update_with_file_summary}
use plakar.Vfs.Summary.Modes.{FileMode, char_device, bits}
use plakar.Vfs.Summary.Counts.{counters, special, update_with_file_summary-counts}

abbrev naturals : Float64 ℕ
naturals = record {
  is_zero = λ a. a == 0;
  lt = ltb;
  add = λ a b. a + b;
  div = λ a b. a / b;
  of_uint64 = λ n. n;
  two = 2;
  seven = 7;
  le = leb;
}

-- A regular file of the given size.
abbrev file : ℕ → FileSummary ℕ
file n = record {
  size = n;
  objects = 1;
  chunks = 1;
  mode = 420;
  mod_time = 1000;
  content_type = [];
  entropy = 3;
}

abbrev directory : ℕ → ℕ → ℕ → ℕ → Directory ℕ
directory files lo hi size = record {
  directories = 1;
  files = files;
  symlinks = 0;
  devices = 0;
  pipes = 0;
  sockets = 0;
  children = files + 1;
  setuid = 0;
  setgid = 0;
  sticky = 0;
  objects = files;
  chunks = files;
  min_size = lo;
  max_size = hi;
  avg_size = 0;
  size = size;
  min_mod_time = 900;
  max_mod_time = 1100;
  min_entropy = 2;
  max_entropy = 5;
  sum_entropy = 9;
  avg_entropy = 3;
  hi_entropy = 0;
  lo_entropy = 0;
  mime_audio = 0;
  mime_video = 0;
  mime_image = 0;
  mime_text = 1;
  mime_application = 0;
  mime_other = 0;
  errors = 0;
}

abbrev below : ℕ → ℕ → ℕ → ℕ → Below ℕ
below files lo hi size = record {
  directories = 0;
  files = files;
  symlinks = 0;
  devices = 0;
  pipes = 0;
  sockets = 0;
  children = files;
  setuid = 0;
  setgid = 0;
  sticky = 0;
  objects = files;
  chunks = files;
  min_size = lo;
  max_size = hi;
  size = size;
  min_mod_time = 900;
  max_mod_time = 1100;
  min_entropy = 2;
  max_entropy = 5;
  hi_entropy = 0;
  lo_entropy = 0;
  mime_audio = 0;
  mime_video = 0;
  mime_image = 0;
  mime_text = 1;
  mime_application = 0;
  mime_other = 0;
  errors = 0;
}

abbrev parent : Summary ℕ
parent = record { directory = directory 2 10 40 50; below = below 3 4 70 80 }

-- A terminal: a character device that is setgid, and its mode is 0620.
abbrev tty : FileMode
tty = record { type = char_device; setuid = false; setgid = true; sticky = false; perm = 400 }

abbrev terminal : FileSummary ℕ
terminal = record (file 12) { mode = bits tty }

update_with_file_summary-counts_example :
    (counters (update_with_file_summary naturals terminal parent).directory
      ≡ 2 ∷ 1 ∷ 0 ∷ 1 ∷ 0 ∷ 0 ∷ [])
    × (special (update_with_file_summary naturals terminal parent).directory ≡ 0 ∷ 1 ∷ 0 ∷ [])
    × ((update_with_file_summary naturals terminal parent).directory.size ≡ 62)
    × ((update_with_file_summary naturals terminal parent).below ≡ parent.below)
update_with_file_summary-counts_example =
    update_with_file_summary-counts naturals terminal parent tty refl (omega arith)
      (omega arith, (omega arith, (omega arith, (omega arith, (omega arith, (omega arith, tt))))))
      (omega arith, (omega arith, (omega arith, tt))) (omega arith)
