-- ===== src/Spec/Enums.antt =====
-- ra-idp-go/internal/shared/spec/enums.go and grants.go: enumerations and the grant matrix.
use regenerative_architectur.Base.{Bool, true, false, ◌||◌, Option, none, some, List, [], ◌∷◌}

pub data ClientType : Type 0 where
  public confidential : ClientType

pub data GrantType : Type 0 where
  authorization_code refresh_token client_credentials device_code token_exchange : GrantType

pub data SenderConstraintType : Type 0 where
  dpop mtls : SenderConstraintType

pub data UserStatus : Type 0 where
  active disabled pending_deletion deleted locked staged suspended : UserStatus

abbrev pub grant_eq : GrantType → GrantType → Bool
grant_eq authorization_code authorization_code = true
grant_eq refresh_token refresh_token = true
grant_eq client_credentials client_credentials = true
grant_eq device_code device_code = true
grant_eq token_exchange token_exchange = true
grant_eq _ _ = false

abbrev pub client_type_eq : ClientType → ClientType → Bool
client_type_eq public public = true
client_type_eq confidential confidential = true
client_type_eq _ _ = false

-- `containsGrant` and `slices.Contains` on grants.
unfoldable pub contains_grant : List GrantType → GrantType → Bool
contains_grant [] g = false
contains_grant (x ∷ xs) g = grant_eq x g || contains_grant xs g

-- What a grant may issue: "access_token", "refresh_token", "id_token".
pub data Issue : Type 0 where
  access_tokens refresh_tokens id_tokens : Issue

pub record GrantSpecEntry : Type 0 where
  pub allowed_client_types : List ClientType
  pub requires_pkce : Bool
  pub issues : List Issue

-- `none`: the map has no entry, as for the token exchange grant.
unfoldable pub grant_spec : GrantType → Option GrantSpecEntry
grant_spec authorization_code = some (record {
  allowed_client_types = public ∷ confidential ∷ [];
  requires_pkce = true;
  issues = access_tokens ∷ refresh_tokens ∷ id_tokens ∷ [];
})
grant_spec refresh_token = some (record {
  allowed_client_types = public ∷ confidential ∷ [];
  requires_pkce = false;
  issues = access_tokens ∷ refresh_tokens ∷ [];
})
grant_spec client_credentials = some (record {
  allowed_client_types = confidential ∷ [];
  requires_pkce = false;
  issues = access_tokens ∷ [];
})
grant_spec device_code = some (record {
  allowed_client_types = public ∷ confidential ∷ [];
  requires_pkce = false;
  issues = access_tokens ∷ refresh_tokens ∷ id_tokens ∷ [];
})
grant_spec token_exchange = none

unfoldable pub contains_client_type : List ClientType → ClientType → Bool
contains_client_type [] c = false
contains_client_type (x ∷ xs) c = client_type_eq x c || contains_client_type xs c

unfoldable pub grant_allows_client_type : GrantType → ClientType → Bool
unfolding grant_spec contains_client_type
grant_allows_client_type g c = elim (grant_spec g) [
  | none ↦ false
  | some s ↦ contains_client_type s.allowed_client_types c
]
