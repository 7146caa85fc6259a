-- ===== src/Prelude/Results.antt =====
-- What a Go call ends in: a value, an error value, a run-time panic, or fuel that ran out.
use mathlib.Core.Path.{◌≡◌, refl}
use mathlib.Core.Bool.{Bool, true, false}

pub data Error : Type 0 where
  eof unexpected_eof negative_seek blob_out_of_bounds index_mac_mismatch short_read : Error
  bad_hex bad_entry_type bad_entry_length bad_metadata already_exists not_found broken_invariant :
      Error
  already_locked invalid_magic invalid_resource_type hmac_mismatch blob_not_found : Error

pub data Result {ℓ} (A : Type ℓ) : Type ℓ where
  ok : A → Result A
  err : Error → Result A
  panic : Result A
  stuck : Result A

-- `if !b { panic(...) }` and `if !b { return err }`.
abbrev pub ensure : Bool → Result (Unit {0})
ensure false = panic
ensure true = ok tt

abbrev pub guard : Bool → Error → Result (Unit {0})
guard false error = err error
guard true error = ok tt

infixl 5 ◌>>=◌ ◌>>◌
abbrev pub ◌>>=◌ {ℓ κ} : {A : Type ℓ} {B : Type κ} → Result A → (A → Result B) → Result B
panic >>= next = panic
stuck >>= next = stuck
err error >>= next = err error
ok value >>= next = next value

pub >>=-assoc {ℓ κ μ} :
    {A : Type ℓ} {B : Type κ} {C : Type μ} (m : Result A) (f : A → Result B) (g : B → Result C)
    → (m >>= f >>= g) ≡ (m >>= λ a. f a >>= g)
>>=-assoc panic f g = refl
>>=-assoc stuck f g = refl
>>=-assoc (err error) f g = refl
>>=-assoc (ok value) f g = refl

abbrev pub ◌>>◌ {ℓ} : {B : Type ℓ} → Result (Unit {0}) → Result B → Result B
first >> second = first >>= λ _. second

-- A value that comes out of two calls in a row came from a value of the first.
pub >>=-eq-ok {ℓ κ} :
    {A : Type ℓ} {B : Type κ} (first : Result A) (next : A → Result B) {result : B}
    → (first >>= next) ≡ ok result
    → (value : A) × (first ≡ ok value) × (next value ≡ ok result)
>>=-eq-ok panic next h = cc
>>=-eq-ok stuck next h = cc
>>=-eq-ok (err error) next h = cc
>>=-eq-ok (ok value) next h = (value, refl, h)
