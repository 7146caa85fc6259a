-- ===== src/Tests/Sorted.antt =====
-- A database in memory for the tests of the caches.
use plakar.Prelude.{ℕ, zero, suc, ◌<◌, refl, none, ◌∷◌, arith, ok}
use plakar.Text.Hex.{AreBytes}
use plakar.Wire.{Bytes}
use plakar.Caching.Database.{
  with_prefix, Table, LevelDb, Works, find, has_key, insert, remove, from_key, or_not_found,
}
use plakar.Caching.Repository.Entries.{IsMac}
use plakar.State.{zeros}

-- A database that is its entries in order.
abbrev pub sorted : LevelDb Table
sorted = record {
  put = λ k v d. (insert k v d, none);
  get = λ k d. or_not_found (find k d);
  has = λ k d. ok (has_key k d);
  delete = λ k d. (remove k d, none);
  seek = from_key;
  whole = λ d. d;
  within = with_prefix;
}

abbrev pub sorted_works : Works sorted
sorted_works = record {
  entries = λ d. d;
  put_works = λ k v d. refl;
  put_entries = λ k v d. refl;
  delete_works = λ k d. refl;
  delete_entries = λ k d. refl;
  get_finds = λ k d. refl;
  has_finds = λ k d. refl;
  seeks = λ k d. refl;
  whole_is = λ d. refl;
  within_is = λ p d. refl;
}

abbrev pub mac_of : ℕ → Bytes
mac_of n = n ∷ zeros 31

zeros-AreBytes : (n : ℕ) → AreBytes (zeros n)
zeros-AreBytes zero = tt
zeros-AreBytes (suc n) = (omega arith, zeros-AreBytes n)

pub mac_of-IsMac : (n : ℕ) → n < 256 → IsMac (mac_of n)
mac_of-IsMac n h = record { size = refl; bytes = (h, zeros-AreBytes 31) }
