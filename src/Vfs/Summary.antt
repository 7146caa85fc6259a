-- ===== src/Vfs/Summary.antt =====
-- snapshot/vfs/summary.go: the summary of a directory, its own entries and all that is below it.
-- A count or a size is a uint64, and a modification time the bit pattern of an int64. The type of
-- floating-point numbers and its operations are parameters. The msgpack encoding is not modelled.
pub mod Modes
pub mod Counts
pub mod Extremes
use plakar.Prelude.{
  ℕ, zero, suc, ◌+◌, ◌-◌, ◌*◌, ◌/◌, ◌%◌, ◌^◌, ◌≤◌, ◌<◌, ◌≡◌, refl, sym, ap, ◌∙◌, ◌≢◌, ◌⊎◌, inl, inr,
  Bool, true, false, not, ◌&&◌, ◌||◌, Option, none, some, List, [], ◌∷◌, ◌++◌, arith, ltb, leb,
  ◌==◌, if◌then◌else◌, length, take,
}
use plakar.Wire.{Bytes, beq_bytes}
use plakar.State.{before}

-- Go's float64, as far as the summaries use it.
pub record Float64 (F : Type 0) : Type 0 where
  pub is_zero : F → Bool
  pub lt : F → F → Bool
  pub add : F → F → F
  pub div : F → F → F
  pub of_uint64 : ℕ → F
  pub two : F
  pub seven : F
  pub le : F → F → Bool

-- `mode` is an `fs.FileMode`; the content type is the bytes of a string.
pub record FileSummary (F : Type 0) : Type 0 where
  pub size : ℕ
  pub objects : ℕ
  pub chunks : ℕ
  pub mode : ℕ
  pub mod_time : ℕ
  pub content_type : Bytes
  pub entropy : F

pub record Directory (F : Type 0) : Type 0 where
  pub directories : ℕ
  pub files : ℕ
  pub symlinks : ℕ
  pub devices : ℕ
  pub pipes : ℕ
  pub sockets : ℕ
  pub children : ℕ
  pub setuid : ℕ
  pub setgid : ℕ
  pub sticky : ℕ
  pub objects : ℕ
  pub chunks : ℕ
  pub min_size : ℕ
  pub max_size : ℕ
  pub avg_size : ℕ
  pub size : ℕ
  pub min_mod_time : ℕ
  pub max_mod_time : ℕ
  pub min_entropy : F
  pub max_entropy : F
  pub sum_entropy : F
  pub avg_entropy : F
  pub hi_entropy : ℕ
  pub lo_entropy : ℕ
  pub mime_audio : ℕ
  pub mime_video : ℕ
  pub mime_image : ℕ
  pub mime_text : ℕ
  pub mime_application : ℕ
  pub mime_other : ℕ
  pub errors : ℕ

pub record Below (F : Type 0) : Type 0 where
  pub directories : ℕ
  pub files : ℕ
  pub symlinks : ℕ
  pub devices : ℕ
  pub pipes : ℕ
  pub sockets : ℕ
  pub children : ℕ
  pub setuid : ℕ
  pub setgid : ℕ
  pub sticky : ℕ
  pub objects : ℕ
  pub chunks : ℕ
  pub min_size : ℕ
  pub max_size : ℕ
  pub size : ℕ
  pub min_mod_time : ℕ
  pub max_mod_time : ℕ
  pub min_entropy : F
  pub max_entropy : F
  pub hi_entropy : ℕ
  pub lo_entropy : ℕ
  pub mime_audio : ℕ
  pub mime_video : ℕ
  pub mime_image : ℕ
  pub mime_text : ℕ
  pub mime_application : ℕ
  pub mime_other : ℕ
  pub errors : ℕ

pub record Summary (F : Type 0) : Type 0 where
  pub directory : Directory F
  pub below : Below F

-- `a + b` of uint64.
abbrev pub add64 : ℕ → ℕ → ℕ
add64 a b = (a + b) % 2 ^ 64

-- `if m == 0 || x < m { m = x }` and `if m == 0 || x > m { m = x }`.
abbrev pub lower : ℕ → ℕ → ℕ
lower m x = if m == 0 || ltb x m then x else m

abbrev pub raise : ℕ → ℕ → ℕ
raise m x = if m == 0 || ltb m x then x else m

abbrev pub earlier : ℕ → ℕ → ℕ
earlier m x = if m == 0 || before x m then x else m

abbrev pub later : ℕ → ℕ → ℕ
later m x = if m == 0 || before m x then x else m

-- One bit of a file mode: `mode & (1 << k) != 0`.
abbrev pub has_bit : ℕ → ℕ → Bool
has_bit k mode = mode / 2 ^ k % 2 == 1

-- `mode.IsRegular()`: no bit of `os.ModeType` is set.
abbrev pub is_regular : ℕ → Bool
is_regular mode = not (
    has_bit 31 mode
    || has_bit 27 mode
    || has_bit 25 mode
    || has_bit 24 mode
    || has_bit 26 mode
    || has_bit 21 mode
    || has_bit 19 mode)

abbrev pub has_prefix : Bytes → Bytes → Bool
has_prefix s p = beq_bytes (take (length p) s) p

pub data Kind : Type 0 where
  regular dir symlink device pipe socket : Kind

-- The cases of the switch on the mode, in order.
abbrev pub kind : ℕ → Kind
kind mode =
    if is_regular mode
    then regular
    else if has_bit 31 mode
    then dir
    else if has_bit 27 mode
    then symlink
    else if has_bit 26 mode
    then device
    else if has_bit 25 mode
    then pipe
    else if has_bit 24 mode
    then socket
    else regular

abbrev pub inc : Bool → ℕ → ℕ
inc true n = add64 n 1
inc false n = n

abbrev pub is_kind : Kind → Kind → Bool
is_kind regular regular = true
is_kind dir dir = true
is_kind symlink symlink = true
is_kind device device = true
is_kind pipe pipe = true
is_kind socket socket = true
is_kind _ _ = false

-- "text/", "image/", "audio/", "video/" and "application/".
abbrev text_prefix : Bytes
text_prefix = 116 ∷ 101 ∷ 120 ∷ 116 ∷ 47 ∷ []

abbrev image_prefix : Bytes
image_prefix = 105 ∷ 109 ∷ 97 ∷ 103 ∷ 101 ∷ 47 ∷ []

abbrev audio_prefix : Bytes
audio_prefix = 97 ∷ 117 ∷ 100 ∷ 105 ∷ 111 ∷ 47 ∷ []

abbrev video_prefix : Bytes
video_prefix = 118 ∷ 105 ∷ 100 ∷ 101 ∷ 111 ∷ 47 ∷ []

abbrev application_prefix : Bytes
application_prefix = 97 ∷ 112 ∷ 112 ∷ 108 ∷ 105 ∷ 99 ∷ 97 ∷ 116 ∷ 105 ∷ 111 ∷ 110 ∷ 47 ∷ []

pub data Mime : Type 0 where
  none_given text image audio video application other : Mime

-- The tests of the content type, in order; an empty one counts nowhere.
unfoldable pub mime : Bytes → Mime
mime [] = none_given
mime (c ∷ cs) =
    if has_prefix (c ∷ cs) text_prefix
    then text
    else if has_prefix (c ∷ cs) image_prefix
    then image
    else if has_prefix (c ∷ cs) audio_prefix
    then audio
    else if has_prefix (c ∷ cs) video_prefix
    then video
    else if has_prefix (c ∷ cs) application_prefix
    then application
    else other

abbrev pub is_mime : Mime → Mime → Bool
is_mime text text = true
is_mime image image = true
is_mime audio audio = true
is_mime video video = true
is_mime application application = true
is_mime other other = true
is_mime _ _ = false

module _ {F : Type 0} (fl : Float64 F) where
  abbrev pub lower_float : F → F → F
  lower_float m x = if fl.is_zero m || fl.lt x m then x else m

  abbrev pub raise_float : F → F → F
  raise_float m x = if fl.is_zero m || fl.lt m x then x else m

  unfoldable pub update_below : Summary F → Summary F → Summary F
  update_below s b = record s {
    below = record {
      directories = add64 s.below.directories (add64 b.below.directories b.directory.directories);
      files = add64 s.below.files (add64 b.below.files b.directory.files);
      symlinks = add64 s.below.symlinks (add64 b.below.symlinks b.directory.symlinks);
      devices = add64 s.below.devices (add64 b.below.devices b.directory.devices);
      pipes = add64 s.below.pipes (add64 b.below.pipes b.directory.pipes);
      sockets = add64 s.below.sockets (add64 b.below.sockets b.directory.sockets);
      children = add64 s.below.children (add64 b.below.children b.directory.children);
      setuid = add64 s.below.setuid (add64 b.below.setuid b.directory.setuid);
      setgid = add64 s.below.setgid (add64 b.below.setgid b.directory.setgid);
      sticky = add64 s.below.sticky (add64 b.below.sticky b.directory.sticky);
      objects = add64 s.below.objects (add64 b.below.objects b.directory.objects);
      chunks = add64 s.below.chunks (add64 b.below.chunks b.directory.chunks);
      min_size = lower (lower s.below.min_size b.below.min_size) b.directory.min_size;
      max_size = raise (raise s.below.max_size b.below.max_size) b.directory.max_size;
      size = add64 s.below.size (add64 b.below.size b.directory.size);
      min_mod_time =
          earlier (earlier s.below.min_mod_time b.below.min_mod_time) b.directory.min_mod_time;
      max_mod_time =
          later (later s.below.max_mod_time b.below.max_mod_time) b.directory.max_mod_time;
      min_entropy =
          lower_float (lower_float s.below.min_entropy b.below.min_entropy) b.directory.min_entropy;
      max_entropy =
          raise_float (raise_float s.below.max_entropy b.below.max_entropy) b.directory.max_entropy;
      hi_entropy = add64 s.below.hi_entropy (add64 b.below.hi_entropy b.directory.hi_entropy);
      lo_entropy = add64 s.below.lo_entropy (add64 b.below.lo_entropy b.directory.lo_entropy);
      mime_audio = add64 s.below.mime_audio (add64 b.directory.mime_audio b.below.mime_audio);
      mime_video = add64 s.below.mime_video (add64 b.directory.mime_video b.below.mime_video);
      mime_image = add64 s.below.mime_image (add64 b.directory.mime_image b.below.mime_image);
      mime_text = add64 s.below.mime_text (add64 b.directory.mime_text b.below.mime_text);
      mime_application =
          add64 s.below.mime_application
            (add64 b.directory.mime_application b.below.mime_application);
      mime_other = add64 s.below.mime_other (add64 b.directory.mime_other b.below.mime_other);
      errors = add64 s.below.errors (add64 b.directory.errors b.below.errors);
    };
  }

  unfoldable pub update_with_file_summary : FileSummary F → Summary F → Summary F
  update_with_file_summary f s = record s {
    directory = record s.directory {
      files = inc (is_kind (kind f.mode) regular) s.directory.files;
      directories = inc (is_kind (kind f.mode) dir) s.directory.directories;
      symlinks = inc (is_kind (kind f.mode) symlink) s.directory.symlinks;
      devices = inc (is_kind (kind f.mode) device) s.directory.devices;
      pipes = inc (is_kind (kind f.mode) pipe) s.directory.pipes;
      sockets = inc (is_kind (kind f.mode) socket) s.directory.sockets;
      setuid = inc (has_bit 23 f.mode) s.directory.setuid;
      setgid = inc (has_bit 22 f.mode) s.directory.setgid;
      sticky = inc (has_bit 20 f.mode) s.directory.sticky;
      objects =
          if ltb 0 f.objects then add64 s.directory.objects f.objects else s.directory.objects;
      chunks = if ltb 0 f.objects then add64 s.directory.chunks f.chunks else s.directory.chunks;
      min_mod_time = earlier s.directory.min_mod_time f.mod_time;
      max_mod_time = later s.directory.max_mod_time f.mod_time;
      min_size = lower s.directory.min_size f.size;
      max_size = raise s.directory.max_size f.size;
      min_entropy = lower_float s.directory.min_entropy f.entropy;
      max_entropy = raise_float s.directory.max_entropy f.entropy;
      lo_entropy = inc (fl.le f.entropy fl.two) s.directory.lo_entropy;
      hi_entropy =
          inc (not (fl.le f.entropy fl.two) && fl.le fl.seven f.entropy) s.directory.hi_entropy;
      mime_text = inc (is_mime (mime f.content_type) text) s.directory.mime_text;
      mime_image = inc (is_mime (mime f.content_type) image) s.directory.mime_image;
      mime_audio = inc (is_mime (mime f.content_type) audio) s.directory.mime_audio;
      mime_video = inc (is_mime (mime f.content_type) video) s.directory.mime_video;
      mime_application =
          inc (is_mime (mime f.content_type) application) s.directory.mime_application;
      mime_other = inc (is_mime (mime f.content_type) other) s.directory.mime_other;
      size = add64 s.directory.size f.size;
      sum_entropy = fl.add s.directory.sum_entropy f.entropy;
    };
  }

  unfoldable pub update_averages : Summary F → Summary F
  update_averages s =
      if ltb 0 s.directory.files
      then record s {
        directory = record s.directory {
          avg_size = s.directory.size / s.directory.files;
          avg_entropy = fl.div s.directory.sum_entropy (fl.of_uint64 s.directory.files);
        };
      }
      else s
