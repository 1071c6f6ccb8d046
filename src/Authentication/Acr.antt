-- ===== src/Authentication/Acr.antt =====
-- authentication/usecases/acr_vocabulary.go.
use mathlib.Core.Path.{subst}
use regenerative_architectur.Base.{
  ◌≡◌, refl, ◌⊎◌, String, Bool, true, false, ◌||◌, ◌&&◌, List, [], ◌∷◌, ◌==◌, arith, eq_iff, inl,
  inr, Bool-cases, contains, if◌then◌else◌,
}
use regenerative_architectur.Base.Words.{fields}

abbrev pub acr_password : String
acr_password = "urn:ra-idp:acr:pwd"

abbrev pub acr_mfa : String
acr_mfa = "urn:ra-idp:acr:mfa"

unfoldable pub mfa_amr_values : List String
mfa_amr_values = "otp" ∷ "webauthn" ∷ "hwk" ∷ "swk" ∷ []

unfoldable pub derive_acr : List String → String
unfolding mfa_amr_values
derive_acr [] = acr_password
derive_acr (method ∷ amr) =
    let rest = derive_acr amr in if contains mfa_amr_values method then acr_mfa else rest

abbrev pub meets : String → String → Bool
meets current value = value == current || (current == acr_mfa && value == acr_password)

unfoldable pub any_meets : String → List String → Bool
any_meets current [] = false
any_meets current (value ∷ values) = meets current value || any_meets current values

unfoldable pub acr_satisfies : String → String → Bool
unfolding any_meets fields
acr_satisfies current requested = any_meets current (fields requested)

any_meets_mono :
    (values : List String) → any_meets acr_password values ≡ true → any_meets acr_mfa values ≡ true
unfolding any_meets
any_meets_mono [] h = ground arith
any_meets_mono (value ∷ values) h = ground (
  arith,
  any_meets_mono values,
  eq_iff value acr_password,
  eq_iff value acr_mfa,
  eq_iff acr_mfa acr_mfa,
  eq_iff acr_password acr_mfa,
)

derive_acr-cases :
    (amr : List String) → (derive_acr amr ≡ acr_password) ⊎ (derive_acr amr ≡ acr_mfa)
unfolding derive_acr
derive_acr-cases [] = inl refl
derive_acr-cases (m ∷ amr) = elim (Bool-cases (contains mfa_amr_values m)) [
  | inl strong ↦ inr (rw strong refl)
  | inr weak ↦ rw weak (derive_acr-cases amr)
]

-- One more method never lowers what an authentication satisfies: a requested text of ACR values that the
-- ACR derived from some methods satisfies is satisfied by the ACR derived with a method more.
pub acr_satisfies-more_methods :
    (method : String) (amr : List String) (requested : String)
    → acr_satisfies (derive_acr amr) requested ≡ true
    → acr_satisfies (derive_acr (method ∷ amr)) requested ≡ true
unfolding acr_satisfies derive_acr
acr_satisfies-more_methods method amr requested h = elim (derive_acr-cases amr) [
  | inl weak ↦ elim (Bool-cases (contains mfa_amr_values method)) [
    | inl strong ↦ rw strong (
        any_meets_mono (fields requested)
          (subst (λ c. any_meets c (fields requested) ≡ true) weak h))
    | inr other ↦ rw other h
  ]
  | inr strong ↦ elim (Bool-cases (contains mfa_amr_values method)) [
    | inl also ↦ rw also (subst (λ c. any_meets c (fields requested) ≡ true) strong h)
    | inr other ↦ rw other h
  ]
]
