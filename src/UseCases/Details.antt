-- ===== src/UseCases/Details.antt =====
-- ra-idp-go/internal/oauth2/usecases/authorization_details.go.
use regenerative_architectur.Base.{
  String, true, false, Option, none, some, List, [], ◌∷◌, ◌==◌, find, put, if◌then◌else◌,
}
use regenerative_architectur.Base.Words.{is_blank}
use regenerative_architectur.Oauth2.Details.{
  AuthorizationDetail, AuthorizationDetailType, is_some, validate_against_type,
}
use regenerative_architectur.Oauth2.Records.{Result, ok, err, oauth, invalid_authorization_details}

-- AuthorizationDetailTypeRepository.FindByType; `none` is a nil repository.
abbrev pub DetailTypes : Type 0
DetailTypes = Option (String → String → Result (Option AuthorizationDetailType))

abbrev refused : {A : Type 0} → Result A
refused = err (oauth invalid_authorization_details)

-- ParseAuthorizationDetails; `unmarshal` is json.Unmarshal, and an empty list is nil.
unfoldable pub parse_authorization_details :
    (String → Option (List AuthorizationDetail)) → String → Result (List AuthorizationDetail)
unfolding is_blank
parse_authorization_details unmarshal raw = if is_blank raw then ok [] else elim (unmarshal raw) [
  | none ↦ refused
  | some [] ↦ refused
  | some (d ∷ details) ↦ ok (d ∷ details)
]

abbrev check_type :
    AuthorizationDetail
    → Result (Option AuthorizationDetailType)
    → Result (Unit {0})
    → Result (Unit {0})
check_type d (err e) rest = err e
check_type d (ok none) rest = refused
check_type d (ok (some t)) rest = elim (validate_against_type d t) [ true ↦ rest | false ↦ refused ]

-- The loop of ValidateAuthorizationDetails.
unfoldable pub validate_each :
    (String → String → Result (Option AuthorizationDetailType))
    → String
    → List AuthorizationDetail
    → Result (Unit {0})
unfolding validate_against_type
validate_each find_by_type tenant_id [] = ok tt
validate_each find_by_type tenant_id (d ∷ details) =
    let rest = validate_each find_by_type tenant_id details in
    elim (d.type == "") [
      | true ↦ refused
      | false ↦ check_type d (find_by_type tenant_id d.type) rest
    ]

unfoldable pub validate_authorization_details :
    DetailTypes → String → List AuthorizationDetail → Result (Unit {0})
unfolding validate_each
validate_authorization_details types tenant_id [] = ok tt
validate_authorization_details none tenant_id (d ∷ details) = refused
validate_authorization_details (some find_by_type) tenant_id (d ∷ details) =
    validate_each find_by_type tenant_id (d ∷ details)

abbrev add_type :
    String
    → Result (Option AuthorizationDetailType)
    → List (String × AuthorizationDetailType)
    → Result (List (String × AuthorizationDetailType))
add_type name (err e) out = err e
add_type name (ok none) out = ok out
add_type name (ok (some t)) out = ok (put name t out)

abbrev pub and_then {ℓ} : {A B : Type ℓ} → Result A → (A → Result B) → Result B
and_then (ok a) f = f a
and_then (err e) f = err e

-- The loop of LoadAuthorizationDetailTypes, over what it has loaded.
unfoldable pub load_each :
    (String → String → Result (Option AuthorizationDetailType))
    → String
    → List AuthorizationDetail
    → List (String × AuthorizationDetailType)
    → Result (List (String × AuthorizationDetailType))
load_each find_by_type tenant_id [] out = ok out
load_each find_by_type tenant_id (d ∷ details) out =
    and_then
      (elim (is_some (find d.type out)) [
        | true ↦ ok out
        | false ↦ add_type d.type (find_by_type tenant_id d.type) out
      ])
      (load_each find_by_type tenant_id details)

unfoldable pub load_authorization_detail_types :
    DetailTypes
    → String
    → List AuthorizationDetail
    → Result (List (String × AuthorizationDetailType))
unfolding load_each
load_authorization_detail_types none tenant_id details = ok []
load_authorization_detail_types (some find_by_type) tenant_id details =
    load_each find_by_type tenant_id details []
