-- ===== src/Vfs/Summary/Modes.antt =====
-- snapshot/vfs/summary.go: the switch on the mode of an entry, for the modes that have one type.
use plakar.Prelude.{
  ℕ, ◌+◌, ◌*◌, ◌/◌, ◌%◌, ◌^◌, ◌≤◌, ◌<◌, ◌≡◌, refl, Bool, true, false, List, [], ◌∷◌, arith, ◌==◌,
  All,
}
use plakar.Vfs.Summary.{kind, Kind, is_kind, inc, regular, dir, symlink, device, pipe, socket}

-- The types that an `fs.FileMode` can have, as Go documents them.
pub data FileType : Type 0 where
  regular_file directory symbolic_link block_device char_device named_pipe unix_socket : FileType
  irregular : FileType

-- A mode with one type.
pub record FileMode : Type 0 where
  pub type : FileType
  pub setuid : Bool
  pub setgid : Bool
  pub sticky : Bool
  pub perm : ℕ

abbrev pub one : Bool → ℕ
one false = 0
one true = 1

-- The bits of the type, of `os.ModeDir` and the others; a character device is a device too.
abbrev pub type_bits : FileType → ℕ
type_bits regular_file = 0
type_bits directory = 2 ^ 31
type_bits symbolic_link = 2 ^ 27
type_bits block_device = 2 ^ 26
type_bits char_device = 2 ^ 26 + 2 ^ 21
type_bits named_pipe = 2 ^ 25
type_bits unix_socket = 2 ^ 24
type_bits irregular = 2 ^ 19

-- The bits of a mode that are not of its type.
abbrev pub low : ℕ → ℕ → ℕ → ℕ → ℕ
low u g t p = u * 2 ^ 23 + g * 2 ^ 22 + t * 2 ^ 20 + p

abbrev pub bits : FileMode → ℕ
bits m = type_bits m.type + low (one m.setuid) (one m.setgid) (one m.sticky) m.perm

-- Files, directories, symlinks, devices, pipes, sockets: what one entry of the type adds to each.
abbrev pub one_for : FileType → List ℕ
one_for regular_file = 1 ∷ 0 ∷ 0 ∷ 0 ∷ 0 ∷ 0 ∷ []
one_for directory = 0 ∷ 1 ∷ 0 ∷ 0 ∷ 0 ∷ 0 ∷ []
one_for symbolic_link = 0 ∷ 0 ∷ 1 ∷ 0 ∷ 0 ∷ 0 ∷ []
one_for block_device = 0 ∷ 0 ∷ 0 ∷ 1 ∷ 0 ∷ 0 ∷ []
one_for char_device = 0 ∷ 0 ∷ 0 ∷ 1 ∷ 0 ∷ 0 ∷ []
one_for named_pipe = 0 ∷ 0 ∷ 0 ∷ 0 ∷ 1 ∷ 0 ∷ []
one_for unix_socket = 0 ∷ 0 ∷ 0 ∷ 0 ∷ 0 ∷ 1 ∷ []
one_for irregular = 1 ∷ 0 ∷ 0 ∷ 0 ∷ 0 ∷ 0 ∷ []

abbrev pub plus : List ℕ → List ℕ → List ℕ
plus [] ys = []
plus (x ∷ xs) [] = x ∷ xs
plus (x ∷ xs) (y ∷ ys) = (x + y) ∷ plus xs ys

-- What the switch makes of each type.
abbrev pub kind_of : FileType → Kind
kind_of regular_file = regular
kind_of directory = dir
kind_of symbolic_link = symlink
kind_of block_device = device
kind_of char_device = device
kind_of named_pipe = pipe
kind_of unix_socket = socket
kind_of irregular = regular

pub kind-type_bits :
    (t : FileType) (x : ℕ)
    → x < 2 ^ 24
    → x / 2 ^ 21 % 2 ≡ 0
    → x / 2 ^ 19 % 2 ≡ 0
    → kind (type_bits t + x) ≡ kind_of t
kind-type_bits regular_file x h a b = ground (arith, h, a, b)
kind-type_bits directory x h a b = ground (arith, h)
kind-type_bits symbolic_link x h a b = ground (arith, h)
kind-type_bits block_device x h a b = ground (arith, h)
kind-type_bits char_device x h a b = ground (arith, h)
kind-type_bits named_pipe x h a b = ground (arith, h)
kind-type_bits unix_socket x h a b = ground (arith, h)
kind-type_bits irregular x h a b = ground (arith, h, a, b)

pub low_bits :
    (u g t p : ℕ)
    → u ≤ 1
    → g ≤ 1
    → t ≤ 1
    → p < 512
    → (low u g t p < 2 ^ 24) × (low u g t p / 2 ^ 21 % 2 ≡ 0) × (low u g t p / 2 ^ 19 % 2 ≡ 0)
low_bits u g t p hu hg ht hp = (omega arith, omega arith, omega arith)

pub special_bits :
    (c : FileType) (u g t p : ℕ)
    → u ≤ 1
    → g ≤ 1
    → t ≤ 1
    → p < 512
    → ((type_bits c + low u g t p) / 2 ^ 23 % 2 ≡ u)
      × ((type_bits c + low u g t p) / 2 ^ 22 % 2 ≡ g)
      × ((type_bits c + low u g t p) / 2 ^ 20 % 2 ≡ t)
special_bits regular_file u g t p hu hg ht hp = (omega arith, omega arith, omega arith)
special_bits directory u g t p hu hg ht hp = (omega arith, omega arith, omega arith)
special_bits symbolic_link u g t p hu hg ht hp = (omega arith, omega arith, omega arith)
special_bits block_device u g t p hu hg ht hp = (omega arith, omega arith, omega arith)
special_bits char_device u g t p hu hg ht hp = (omega arith, omega arith, omega arith)
special_bits named_pipe u g t p hu hg ht hp = (omega arith, omega arith, omega arith)
special_bits unix_socket u g t p hu hg ht hp = (omega arith, omega arith, omega arith)
special_bits irregular u g t p hu hg ht hp = (omega arith, omega arith, omega arith)

pub one-bound : (b : Bool) → one b ≤ 1
one-bound false = omega arith
one-bound true = omega arith

pub one-is : (b : Bool) (n : ℕ) → n ≡ one b → (n == 1) ≡ b
one-is false n h = rw h refl
one-is true n h = rw h refl

pub inc-one : (b : Bool) (n : ℕ) → n + 1 < 2 ^ 64 → inc b n ≡ n + one b
inc-one false n h = omega arith
inc-one true n h = omega arith

-- The six counters, for an entry of a type.
pub inc-one_for :
    (t : FileType) (a b c d e f : ℕ)
    → All (λ n. n + 1 < 2 ^ 64) (a ∷ b ∷ c ∷ d ∷ e ∷ f ∷ [])
    → (let k = kind_of t in
        inc (is_kind k regular) a
        ∷ inc (is_kind k dir) b
        ∷ inc (is_kind k symlink) c
        ∷ inc (is_kind k device) d
        ∷ inc (is_kind k pipe) e
        ∷ inc (is_kind k socket) f
        ∷ [])
      ≡ plus (a ∷ b ∷ c ∷ d ∷ e ∷ f ∷ []) (one_for t)
inc-one_for t a b c d e f (ha, (hb, (hc, (hd, (he, (hf, _)))))) =
    let k = kind_of t in
    rw
      (
        inc-one (is_kind k regular) a ha,
        inc-one (is_kind k dir) b hb,
        inc-one (is_kind k symlink) c hc,
        inc-one (is_kind k device) d hd,
        inc-one (is_kind k pipe) e he,
        inc-one (is_kind k socket) f hf,
      )
      (ones t)
  where
    ones :
        (t : FileType)
        → (let k = kind_of t in
            (a + one (is_kind k regular))
            ∷ (b + one (is_kind k dir))
            ∷ (c + one (is_kind k symlink))
            ∷ (d + one (is_kind k device))
            ∷ (e + one (is_kind k pipe))
            ∷ (f + one (is_kind k socket))
            ∷ [])
          ≡ plus (a ∷ b ∷ c ∷ d ∷ e ∷ f ∷ []) (one_for t)
    ones regular_file = refl
    ones directory = refl
    ones symbolic_link = refl
    ones block_device = refl
    ones char_device = refl
    ones named_pipe = refl
    ones unix_socket = refl
    ones irregular = refl
