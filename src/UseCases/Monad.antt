-- ===== src/UseCases/Monad.antt =====
-- A use case changes the stores and the event log, and returns a value or an error. What was written
-- before an error stays written.
use regenerative_architectur.Base.{Bool, true, false, Option, none, some, List, ◌∷◌}
use regenerative_architectur.Stores.RefreshTokens.{RefreshTokenStore}
use regenerative_architectur.Stores.AuthorizationCodes.{AuthorizationCodeStore}
use regenerative_architectur.Stores.AuthorizationRequests.{AuthorizationRequestStore}
use regenerative_architectur.Stores.DeviceCodes.{DeviceCodeStore}
use regenerative_architectur.Stores.Denylist.{AccessTokenDenylist}
use regenerative_architectur.Oauth2.Records.{OauthError, oauth, Result, ok, err}
use regenerative_architectur.Oauth2.Events.{DomainEvent}

pub record World : Type 0 where
  pub refresh : RefreshTokenStore
  pub codes : AuthorizationCodeStore
  pub requests : AuthorizationRequestStore
  pub devices : DeviceCodeStore
  pub denylist : AccessTokenDenylist
  -- Newest first.
  pub events : List DomainEvent

abbrev pub M : Type 0 → Type 0
M A = World → Result A × World

abbrev pub continue : {A B : Type 0} → Result A × World → (A → M B) → Result B × World
continue (ok a, w) f = f a w
continue (err e, w) f = (err e, w)

infixl 5 ◌>>=◌ ◌>>◌
abbrev pub ◌>>=◌ : {A B : Type 0} → M A → (A → M B) → M B
◌>>=◌ m f w = continue (m w) f

abbrev pub ◌>>◌ : {B : Type 0} → M (Unit {0}) → M B → M B
m >> k = m >>= λ _. k

abbrev pub return : {A : Type 0} → A → M A
return a w = (ok a, w)

abbrev pub fail : {A : Type 0} → OauthError → M A
fail e w = (err (oauth e), w)

-- `if !ok { return nil, NewOAuthError(e) }`
abbrev pub guard : Bool → OauthError → M (Unit {0})
guard true e w = (ok tt, w)
guard false e w = (err (oauth e), w)

-- The same, after something else was done: `otherwise` ends in the error.
abbrev pub guard_else : Bool → M (Unit {0}) → M (Unit {0})
guard_else true otherwise w = (ok tt, w)
guard_else false otherwise w = otherwise w

-- `if err != nil { return nil, err }`
abbrev pub lift : {A : Type 0} → Result A → M A
lift r w = (r, w)

-- `if x == nil { otherwise }`
abbrev pub some_or : {A : Type 0} → Option A → M A → M A
some_or none otherwise w = otherwise w
some_or (some a) otherwise w = (ok a, w)

abbrev pub read : {A : Type 0} → (World → A) → M A
read f w = (ok (f w), w)

abbrev pub emit : DomainEvent → M (Unit {0})
emit e w = (ok tt, record w { events = e ∷ w.events })

-- A step of the refresh token store.
abbrev pub on_refresh : (RefreshTokenStore → RefreshTokenStore) → M (Unit {0})
on_refresh f w = (ok tt, record w { refresh = f w.refresh })

abbrev pub put_refresh : {A : Type 0} → Result A × RefreshTokenStore → World → Result A × World
put_refresh (r, s) w = (r, record w { refresh = s })

abbrev pub try_refresh : {A : Type 0} → (RefreshTokenStore → Result A × RefreshTokenStore) → M A
try_refresh f w = put_refresh (f w.refresh) w

abbrev pub put_codes : {A : Type 0} → Result A × AuthorizationCodeStore → World → Result A × World
put_codes (r, s) w = (r, record w { codes = s })

abbrev pub try_codes :
    {A : Type 0} → (AuthorizationCodeStore → Result A × AuthorizationCodeStore) → M A
try_codes f w = put_codes (f w.codes) w

abbrev pub put_requests :
    {A : Type 0} → Result A × AuthorizationRequestStore → World → Result A × World
put_requests (r, s) w = (r, record w { requests = s })

abbrev pub try_requests :
    {A : Type 0} → (AuthorizationRequestStore → Result A × AuthorizationRequestStore) → M A
try_requests f w = put_requests (f w.requests) w

abbrev pub put_devices : {A : Type 0} → Result A × DeviceCodeStore → World → Result A × World
put_devices (r, s) w = (r, record w { devices = s })

abbrev pub try_devices : {A : Type 0} → (DeviceCodeStore → Result A × DeviceCodeStore) → M A
try_devices f w = put_devices (f w.devices) w

-- `_ = call`: the error is dropped.
abbrev drop_error : {A : Type 0} → Result A × World → Result (Unit {0}) × World
drop_error (r, w) = (ok tt, w)

abbrev pub ignore_error : {A : Type 0} → M A → M (Unit {0})
ignore_error m w = drop_error (m w)

abbrev pub on_devices : (DeviceCodeStore → DeviceCodeStore) → M (Unit {0})
on_devices f w = (ok tt, record w { devices = f w.devices })

abbrev pub on_codes : (AuthorizationCodeStore → AuthorizationCodeStore) → M (Unit {0})
on_codes f w = (ok tt, record w { codes = f w.codes })

abbrev pub on_requests : (AuthorizationRequestStore → AuthorizationRequestStore) → M (Unit {0})
on_requests f w = (ok tt, record w { requests = f w.requests })

abbrev pub on_denylist : (AccessTokenDenylist → AccessTokenDenylist) → M (Unit {0})
on_denylist f w = (ok tt, record w { denylist = f w.denylist })
