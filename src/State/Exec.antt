-- ===== src/State/Exec.antt =====
-- Methods that change an object and may fail: what was written before a failure stays written, so
-- the object comes back beside the error too.
use plakar.Prelude.{
  ◌≡◌, ◌≢◌, refl, Result, ok, err, panic, stuck, Error, Bool, true, false, Option, none, some,
}

abbrev pub Exec {ℓ} : Type ℓ → Type ℓ → Type ℓ
Exec S A = S → S × Result A

module _ {ℓ} {S A : Type ℓ} where
  abbrev pub pure : A → Exec S A
  pure a s = (s, ok a)

  abbrev pub raise : Error → Exec S A
  raise e s = (s, err e)

  abbrev pub lift : Result A → Exec S A
  lift r s = (s, r)

  abbrev pub gets : (S → A) → Exec S A
  gets f s = (s, ok (f s))

module _ {ℓ} {S A B : Type ℓ} where
  abbrev pub continue : Result A → (A → Exec S B) → Exec S B
  continue (ok a) f s = f a s
  continue (err e) f s = (s, err e)
  continue panic f s = (s, panic)
  continue stuck f s = (s, stuck)

  infixl 5 ◌>>=◌ ◌>>◌
  abbrev pub ◌>>=◌ : Exec S A → (A → Exec S B) → Exec S B
  ◌>>=◌ m f s = continue (m s).1 f (m s).0

  abbrev pub ◌>>◌ : Exec S A → Exec S B → Exec S B
  m >> n = m >>= λ _. n

-- `s = f(s)`.
abbrev pub modify : {S : Type 0} → (S → S) → Exec S (Unit {0})
modify f s = (f s, ok tt)

-- `if !b { return err }`.
abbrev pub require : {S : Type 0} → Bool → Error → Exec S (Unit {0})
require true e = pure tt
require false e = raise e

-- `if err != nil { return err }` after a decoder.
abbrev pub checked : {S A : Type 0} → Result (A × Option Error) → Exec S A
checked (ok (a, none)) s = (s, ok a)
checked (ok (a, some e)) s = (s, err e)
checked (err e) s = (s, err e)
checked panic s = (s, panic)
checked stuck s = (s, stuck)

-- A step after a result: what follows a value, and what stays after a failure.
pub continue-rule :
    {S A B : Type 0} (P : S × Result B → Type 0) (r : Result A) (f : A → Exec S B) (s : S)
    → ((a : A) → r ≡ ok a → P (f a s))
    → ((x : Result B) → ((b : B) → x ≢ ok b) → P (s, x))
    → P (continue r f s)
continue-rule P (ok a) f s h k = h a refl
continue-rule P (err e) f s h k = k (err e) (λ b q. cc)
continue-rule P panic f s h k = k panic (λ b q. cc)
continue-rule P stuck f s h k = k stuck (λ b q. cc)
