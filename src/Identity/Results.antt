-- ===== src/Identity/Results.antt =====
-- Steps that may fail, one after the other, and their inversion.
use regenerative_architectur.Base.{◌≡◌, refl, String, Bool, true, false, Option, none, some}
use regenerative_architectur.Oauth2.Records.{internal, Result, ok, err}

infixl 5 ◌>>=◌ ◌>>◌
abbrev pub ◌>>=◌ {ℓ} : {A B : Type ℓ} → Result A → (A → Result B) → Result B
◌>>=◌ (ok a) f = f a
◌>>=◌ (err e) f = err e

abbrev pub ◌>>◌ {ℓ} : {B : Type ℓ} → Result (Unit {ℓ}) → Result B → Result B
r >> k = r >>= λ _. k

abbrev pub return {ℓ} : {A : Type ℓ} → A → Result A
return a = ok a

-- `if !test { return nil, errors.New(message) }`
abbrev pub guard : Bool → String → Result (Unit {0})
guard true message = ok tt
guard false message = err (internal message)

-- `if x == nil { return nil, errors.New(message) }`
abbrev pub some_or {ℓ} : {A : Type ℓ} → Option A → String → Result A
some_or none message = err (internal message)
some_or (some a) message = ok a

module _ {ℓ} {A B : Type ℓ} where
  pub bind_ok :
      (r : Result A) (f : A → Result B) {b : B}
      → r >>= f ≡ ok b
      → (a : A) × (r ≡ ok a) × (f a ≡ ok b)
  bind_ok (ok a) f h = (a, refl, h)
  bind_ok (err e) f h = cc

  pub some_or_ok :
      (o : Option A) (message : String) (f : A → Result B) {b : B}
      → some_or o message >>= f ≡ ok b
      → (a : A) × (o ≡ some a) × (f a ≡ ok b)
  some_or_ok (some a) message f h = (a, refl, h)
  some_or_ok none message f h = cc

pub guard_ok :
    {B : Type 0} (test : Bool) (message : String) (f : Unit {0} → Result B) {b : B}
    → guard test message >>= f ≡ ok b
    → (test ≡ true) × (f tt ≡ ok b)
guard_ok true message f h = (refl, h)
guard_ok false message f h = cc
