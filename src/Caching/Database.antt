-- ===== src/Caching/Database.antt =====
-- github.com/syndtr/goleveldb, which is not part of the repository: the interface that the caches use,
-- and what they rely on. A database of type `D` is passed along; an iterator is the list of the entries
-- that it goes through.
pub mod Prefix
pub mod Order
use plakar.Prelude.{
  ℕ, zero, suc, ◌+◌, ◌-◌, ◌*◌, ◌/◌, ◌%◌, ◌^◌, ◌≤◌, ◌<◌, ◌≡◌, refl, sym, ap, ◌∙◌, ◌≢◌, ◌⊎◌, inl, inr,
  Bool, true, false, not, ◌&&◌, ◌||◌, Option, none, some, List, [], ◌∷◌, ◌++◌, map, arith,
  append_assoc, append-nil, length, take, drop, get_elem?, ltb, leb, ◌==◌, if◌then◌else◌,
  Bool-cases, All, All-append, All-map, Result, ok, err, panic, stuck, guard, ensure, ◌>>=◌, ◌>>◌,
  Error, length-append, not_found,
}
use plakar.Text.{lt_bytes, has_prefix}
use plakar.Wire.{beq_bytes_eq, beq_bytes_refl, Bytes, beq_bytes}

abbrev pub Table : Type 0
Table = List (Bytes × Bytes)

-- `seek k` is what an iterator goes through from `Seek(k)` on, `whole` what it goes through from its
-- start, `within p` what an iterator over the range `util.BytesPrefix(p)` goes through.
pub record LevelDb (D : Type 0) : Type 0 where
  pub put : Bytes → Bytes → D → D × Option Error
  pub get : Bytes → D → Result Bytes
  pub has : Bytes → D → Result Bool
  pub delete : Bytes → D → D × Option Error
  pub seek : Bytes → D → Table
  pub whole : D → Table
  pub within : Bytes → D → Table

-- The abstract view: the entries in the order of their keys.
unfoldable pub find : Bytes → Table → Option Bytes
find k [] = none
find k ((k', v) ∷ t) = if beq_bytes k k' then some v else find k t

unfoldable pub has_key : Bytes → Table → Bool
has_key k [] = false
has_key k ((k', v) ∷ t) = beq_bytes k k' || has_key k t

unfoldable pub insert : Bytes → Bytes → Table → Table
insert k v [] = (k, v) ∷ []
insert k v ((k', v') ∷ t) =
    if beq_bytes k k'
    then (k, v) ∷ t
    else if lt_bytes k k'
    then (k, v) ∷ (k', v') ∷ t
    else (k', v') ∷ insert k v t

unfoldable pub remove : Bytes → Table → Table
remove k [] = []
remove k ((k', v') ∷ t) = if beq_bytes k k' then t else (k', v') ∷ remove k t

-- The entries from the first key on that is not less than `k`.
unfoldable pub from_key : Bytes → Table → Table
from_key k [] = []
from_key k ((k', v) ∷ t) = if lt_bytes k' k then from_key k t else (k', v) ∷ t

-- The entries whose key has the prefix.
unfoldable pub with_prefix : Bytes → Table → Table
with_prefix p [] = []
with_prefix p ((k, v) ∷ t) = if has_prefix k p then (k, v) ∷ with_prefix p t else with_prefix p t

abbrev pub or_not_found : Option Bytes → Result Bytes
or_not_found none = err not_found
or_not_found (some v) = ok v

-- A database on which no operation fails, as its documentation has it: the keys are ordered bytewise,
-- and each stands for one value.
pub record Works {D : Type 0} (db : LevelDb D) : Type 0 where
  pub entries : D → Table
  pub put_works : (k v : Bytes) (d : D) → (db.put k v d).1 ≡ none
  pub put_entries : (k v : Bytes) (d : D) → entries (db.put k v d).0 ≡ insert k v (entries d)
  pub delete_works : (k : Bytes) (d : D) → (db.delete k d).1 ≡ none
  pub delete_entries : (k : Bytes) (d : D) → entries (db.delete k d).0 ≡ remove k (entries d)
  pub get_finds : (k : Bytes) (d : D) → db.get k d ≡ or_not_found (find k (entries d))
  pub has_finds : (k : Bytes) (d : D) → db.has k d ≡ ok (has_key k (entries d))
  pub seeks : (k : Bytes) (d : D) → db.seek k d ≡ from_key k (entries d)
  pub whole_is : (d : D) → db.whole d ≡ entries d
  pub within_is : (p : Bytes) (d : D) → db.within p d ≡ with_prefix p (entries d)

-- The keys increase.
abbrev pub Increasing : Table → Type 0
Increasing [] = Unit
Increasing (e ∷ t) = All (λ f. lt_bytes e.0 f.0 ≡ true) t × Increasing t

pub has_key-insert :
    (j k v : Bytes) (t : Table) → has_key j (insert k v t) ≡ (beq_bytes j k || has_key j t)
unfolding has_key insert
has_key-insert j k v [] = refl
has_key-insert j k v ((k', v') ∷ t) = ground (arith, beq_bytes_eq k k', has_key-insert j k v t)

pub find-insert :
    (j k v : Bytes) (t : Table)
    → find j (insert k v t) ≡ (if beq_bytes j k then some v else find j t)
unfolding find insert
find-insert j k v [] = refl
find-insert j k v ((k', v') ∷ t) = ground (
  arith,
  beq_bytes_eq k k',
  beq_bytes_eq j k,
  beq_bytes_eq j k',
  beq_bytes_refl k,
  find-insert j k v t,
)
