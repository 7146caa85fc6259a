-- ===== src/Tests/Packfile.antt =====
-- packfile/packfile.go: concrete packfiles.
use plakar.Prelude.{
  ℕ, ◌^◌, ◌<◌, ◌≡◌, refl, Option, List, [], ◌∷◌, ◌++◌, arith, length, ok, panic, ◌>>=◌,
}
use plakar.Wire.{Bytes, read_uint, read_full, of_le, le, to_mac, beq_bytes}
use plakar.Versioning.{new_version}
use plakar.State.{zeros}
use plakar.Packfile.{
  Blob, read_footer, read_index, read_blob, check_mac, blob_bytes, PackFile, PackFileFooter,
  footer_bytes, index_bytes, new_from_bytes, serialize, get_blob, new,
}
use plakar.Packfile.Codec.{IsBlob}
use plakar.Packfile.Reader.{IsPackFile, sealed, new_from_bytes-serialize}
use plakar.Packfile.Accepts.{Accepted, new_from_bytes-Accepted}
use plakar.Packfile.Blobs.{Addition, contents, add_all, first_added, get_blob-add_all}
use plakar.Packfile.Overflow.{get_blob_total, get_blob_panics}

abbrev mac_of : ℕ → Bytes
mac_of n = n ∷ zeros 31

-- A hash of 32 bytes: the length.
abbrev sum : Bytes → Bytes
sum b = mac_of (length b)

sum_size : (b : Bytes) → length (sum b) ≡ 32
sum_size b = refl

abbrev one : Blob
one = record { type = 5; version = 65536; mac = mac_of 1; offset = 0; length = 2; flags = 0 }

one-IsBlob : IsBlob one
one-IsBlob = record {
  type_range = omega arith;
  version_range = omega arith;
  mac_size = refl;
  offset_range = omega arith;
  length_range = omega arith;
  flags_range = omega arith;
}

abbrev footer : PackFileFooter
footer = record {
  version = 65536;
  timestamp = 1700000000;
  count = 1;
  index_offset = 2;
  index_mac = mac_of 9;
  flags = 0;
}

abbrev packfile : PackFile
packfile = record { hasher = []; blobs = 7 ∷ 8 ∷ []; index = one ∷ []; footer = footer }

packfile-IsPackFile : IsPackFile 1000 packfile
packfile-IsPackFile = record {
  records = (one-IsBlob, tt);
  inside = (omega arith, tt);
  data_size = refl;
  small = omega arith;
  allocatable = omega arith;
  timestamp_range = omega arith;
  count_range = omega arith;
  flags_range = omega arith;
}

new_from_bytes-serialize_example :
    (do (bytes, _) ← serialize sum 1000 packfile; new_from_bytes sum 1000 [] 5 65536 bytes)
    ≡ ok (sealed sum 1000 sum_size packfile)
new_from_bytes-serialize_example =
    new_from_bytes-serialize sum 1000 sum_size packfile [] 5 packfile-IsPackFile

-- The file that `Serialize` writes of the packfile, and what `NewFromBytes` loads of it.
abbrev loaded : PackFile
loaded = record packfile {
  hasher = index_bytes (one ∷ []);
  footer = record footer { index_mac = mac_of 56 };
}

abbrev file : Bytes
file = 7 ∷ 8 ∷ (index_bytes (one ∷ []) ++ footer_bytes loaded.footer)

file_loads : new_from_bytes sum 1000 [] 5 65536 file ≡ ok loaded
unfolding new_from_bytes read_footer read_uint read_full of_le le read_index read_blob check_mac
    to_mac beq_bytes new new_version index_bytes blob_bytes footer_bytes
file_loads = refl

new_from_bytes-Accepted_example : Accepted sum file loaded
new_from_bytes-Accepted_example = new_from_bytes-Accepted sum 1000 [] 5 65536 file loaded file_loads

get_blob_total_example : (o : Option Bytes) × (get_blob (mac_of 1) loaded ≡ ok o)
get_blob_total_example =
    get_blob_total sum 1000 [] 5 65536 file loaded (mac_of 1) file_loads (omega arith, tt)

abbrev adds : List Addition
adds =
    record { type = 5; version = 65536; mac = mac_of 1; bytes = 7 ∷ 8 ∷ []; flags = 0 }
    ∷ record { type = 5; version = 65536; mac = mac_of 2; bytes = 9 ∷ []; flags = 0 }
    ∷ []

small : length (contents adds) < 2 ^ 64
unfolding contents
small = omega arith

get_blob-add_all_example :
    get_blob (mac_of 2) (add_all adds (new [] 5)) ≡ ok (first_added (mac_of 2) adds)
get_blob-add_all_example =
    get_blob-add_all adds [] 5 (mac_of 2) (omega arith, (omega arith, tt)) small

abbrev second : Addition
second = record { type = 5; version = 65536; mac = mac_of 2; bytes = 9 ∷ []; flags = 0 }

-- A record of 8 bytes that ends past 2 ^ 64.
abbrev wrapping : Blob
wrapping = record {
  type = 5;
  version = 65536;
  mac = mac_of 1;
  offset = 18446744073709551612;
  length = 8;
  flags = 0;
}

abbrev hostile : PackFile
hostile = record {
  hasher = [];
  blobs = zeros 4;
  index = wrapping ∷ [];
  footer = record footer { index_offset = 4 };
}

hostile-IsPackFile : IsPackFile 1000 hostile
hostile-IsPackFile = record {
  records = (
    record {
      type_range = omega arith;
      version_range = omega arith;
      mac_size = refl;
      offset_range = omega arith;
      length_range = omega arith;
      flags_range = omega arith;
    },
    tt,
  );
  inside = (omega arith, tt);
  data_size = refl;
  small = omega arith;
  allocatable = omega arith;
  timestamp_range = omega arith;
  count_range = omega arith;
  flags_range = omega arith;
}

get_blob_panics_example :
    (written : Bytes × PackFile) × (q : PackFile) × (serialize sum 1000 hostile ≡ ok written)
    × (new_from_bytes sum 1000 [] 5 65536 written.0 ≡ ok q)
    × (get_blob (mac_of 1) q ≡ panic)
get_blob_panics_example =
    get_blob_panics sum 1000 sum_size hostile wrapping [] [] 5 hostile-IsPackFile refl (omega arith)
      (omega arith) (omega arith)
