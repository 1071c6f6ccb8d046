-- ===== src/Authentication/StepUp.antt =====
-- authentication/usecases/step_up.go: StepUpSatisfied and AvailableStepUpMethods.
use regenerative_architectur.Base.{
  ℕ, String, ◌≡◌, Bool, true, false, Option, none, some, List, [], ◌∷◌, arith, ◌||◌, ◌↔◌, ◌⊎◌,
  if◌then◌else◌,
}
use regenerative_architectur.Base.Int.{ℤ, leb_ℤ, max_ℤ, ◌-ℤ◌, ◌≤ℤ◌}
use regenerative_architectur.Spec.{Time, or_clock, unix}

-- domain.AuthenticationContext; its times are seconds since 1970.
pub record AuthenticationContext : Type 0 where
  pub sub : String
  pub auth_time : ℤ
  pub amr : List String
  pub acr : String
  pub session_id : String
  pub authentication_pending : Bool
  pub step_up_at : ℤ

abbrev pub step_up_recency_seconds : ℕ
step_up_recency_seconds = 300

pub data StepUpMethod : Type 0 where
  password totp : StepUpMethod

unfoldable pub step_up_satisfied : Time → Option AuthenticationContext → Time → Bool
step_up_satisfied clock none now = false
step_up_satisfied clock (some authn) now =
    let recent = max_ℤ authn.auth_time authn.step_up_at in
    if authn.authentication_pending || leb_ℤ recent (ℤ.pos 0)
    then false
    else leb_ℤ (unix (or_clock clock now) -ℤ recent) (ℤ.pos step_up_recency_seconds)

-- `none` is a nil user.
unfoldable pub available_step_up_methods : Option Bool → List StepUpMethod
available_step_up_methods none = password ∷ []
available_step_up_methods (some mfa_enrolled) =
    if mfa_enrolled then password ∷ totp ∷ [] else password ∷ []

-- A time after 1970 that is at most 300 seconds back.
abbrev pub IsRecent : ℤ → ℤ → Type 0
IsRecent now t = (ℤ.pos 1 ≤ℤ t) × (now -ℤ t ≤ℤ ℤ.pos 300)

IsRecent-iff :
    (now a b : ℤ) (pending : Bool)
    → ((if pending || leb_ℤ (max_ℤ a b) (ℤ.pos 0)
          then false
          else leb_ℤ (now -ℤ max_ℤ a b) (ℤ.pos step_up_recency_seconds))
        ≡ true)
      ↔ ((pending ≡ false) × (IsRecent now a ⊎ IsRecent now b))
IsRecent-iff now a b pending = ground arith

-- A step-up is not needed exactly when the authentication is complete and its log-in or its last step-up
-- lies after 1970 and at most 300 seconds back.
pub step_up_satisfied_iff :
    (clock : Time) (authn : AuthenticationContext) (now : Time)
    → (step_up_satisfied clock (some authn) now ≡ true) ↔ (
        (authn.authentication_pending ≡ false)
        × (IsRecent (unix (or_clock clock now)) authn.auth_time
            ⊎ IsRecent (unix (or_clock clock now)) authn.step_up_at))
unfolding step_up_satisfied
step_up_satisfied_iff clock authn now =
    IsRecent-iff (unix (or_clock clock now)) authn.auth_time authn.step_up_at
      authn.authentication_pending
