-- ===== src/UseCases/Inversion.antt =====
-- Inversion of a use case that returns a value: what each of its steps did.
use regenerative_architectur.Base.{◌≡◌, refl, Bool, true, false, Option, none, some}
use regenerative_architectur.Oauth2.Records.{Error, OauthError, Result, ok, err}
use regenerative_architectur.UseCases.Monad.{
  World, M, continue, fail, guard, guard_else, some_or, put_refresh, put_codes, put_devices,
  put_requests,
}
use regenerative_architectur.Stores.RefreshTokens.{RefreshTokenStore}
use regenerative_architectur.Stores.AuthorizationRequests.{AuthorizationRequestStore}
use regenerative_architectur.Stores.AuthorizationCodes.{AuthorizationCodeStore}
use regenerative_architectur.Stores.DeviceCodes.{DeviceCodeStore}

module _ {A B : Type 0} where
  pub step_ok :
      (r : Result A × World) (f : A → M B) {b : B} {w' : World}
      → continue r f ≡ (ok b, w')
      → (a : A) × (v : World) × (r ≡ (ok a, v)) × (f a v ≡ (ok b, w'))
  step_ok (ok a, v) f h = (a, v, refl, h)
  step_ok (err e, v) f h = cc

  pub lift_ok :
      (r : Result A) (w : World) (f : A → M B) {b : B} {w' : World}
      → continue (r, w) f ≡ (ok b, w')
      → (a : A) × (r ≡ ok a) × (f a w ≡ (ok b, w'))
  lift_ok (ok a) w f h = (a, refl, h)
  lift_ok (err e) w f h = cc

  -- `otherwise` ends in an error, whatever it does before.
  pub some_ok :
      (o : Option A) (otherwise : M A) (w : World) (f : A → M B) {b : B} {w' v : World} {e : Error}
      → otherwise w ≡ (err e, v)
      → continue (some_or o otherwise w) f ≡ (ok b, w')
      → (a : A) × (o ≡ some a) × (f a w ≡ (ok b, w'))
  some_ok (some a) other w f ends h = (a, refl, h)
  some_ok none other w f ends h = cc

module _ {A B : Type 0} where
  pub try_refresh_ok :
      (r : Result A × RefreshTokenStore) (w : World) (f : A → M B) {b : B} {w' : World}
      → continue (put_refresh r w) f ≡ (ok b, w')
      → (a : A) × (s : RefreshTokenStore) × (r ≡ (ok a, s))
        × (f a (record w { refresh = s }) ≡ (ok b, w'))
  try_refresh_ok (ok a, s) w f h = (a, s, refl, h)
  try_refresh_ok (err e, s) w f h = cc

pub return_ok :
    {A : Type 0} {a b : A} {w w' : World}
    → ◌≡◌ {A = Result A × World} (ok a, w) (ok b, w')
    → (a ≡ b) × (w ≡ w')
return_ok h = (cc, cc)

module _ {B : Type 0} where
  pub guard_ok :
      (t : Bool) (e : OauthError) (w : World) (f : Unit {0} → M B) {b : B} {w' : World}
      → continue (guard t e w) f ≡ (ok b, w')
      → (t ≡ true) × (f tt w ≡ (ok b, w'))
  guard_ok true e w f h = (refl, h)
  guard_ok false e w f h = cc

  pub guard_else_ok :
      (t : Bool) (otherwise : M (Unit {0})) (w : World) (f : Unit {0} → M B) {b : B} {w' v : World}
      {e : Error}
      → otherwise w ≡ (err e, v)
      → continue (guard_else t otherwise w) f ≡ (ok b, w')
      → (t ≡ true) × (f tt w ≡ (ok b, w'))
  guard_else_ok true other w f ends h = (refl, h)
  guard_else_ok false other w f ends h = cc

module _ {A B : Type 0} where
  pub try_codes_ok :
      (r : Result A × AuthorizationCodeStore) (w : World) (f : A → M B) {b : B} {w' : World}
      → continue (put_codes r w) f ≡ (ok b, w')
      → (a : A) × (s : AuthorizationCodeStore) × (r ≡ (ok a, s))
        × (f a (record w { codes = s }) ≡ (ok b, w'))
  try_codes_ok (ok a, s) w f h = (a, s, refl, h)
  try_codes_ok (err e, s) w f h = cc

  pub try_devices_ok :
      (r : Result A × DeviceCodeStore) (w : World) (f : A → M B) {b : B} {w' : World}
      → continue (put_devices r w) f ≡ (ok b, w')
      → (a : A) × (s : DeviceCodeStore) × (r ≡ (ok a, s))
        × (f a (record w { devices = s }) ≡ (ok b, w'))
  try_devices_ok (ok a, s) w f h = (a, s, refl, h)
  try_devices_ok (err e, s) w f h = cc

module _ {A B : Type 0} where
  pub try_requests_ok :
      (r : Result A × AuthorizationRequestStore) (w : World) (f : A → M B) {b : B} {w' : World}
      → continue (put_requests r w) f ≡ (ok b, w')
      → (a : A) × (s : AuthorizationRequestStore) × (r ≡ (ok a, s))
        × (f a (record w { requests = s }) ≡ (ok b, w'))
  try_requests_ok (ok a, s) w f h = (a, s, refl, h)
  try_requests_ok (err e, s) w f h = cc

pub some_or_ok :
    {A : Type 0} (o : Option A) (e : OauthError) (w : World) {a : A} {w' : World}
    → some_or o (fail e) w ≡ (ok a, w')
    → (o ≡ some a) × (w ≡ w')
some_or_ok (some b) e w h = (cc, cc)
some_or_ok none e w h = absurd (cc)
