-- ===== src/Stores/AuthorizationCodes.antt =====
-- memory/authorization_codes.go: AuthorizationCodeStore. Records go in and out as copies.
pub mod Laws
use regenerative_architectur.Base.{String, Option, none, some, List, [], find, put}
use regenerative_architectur.Spec.{Time}
use regenerative_architectur.Machines.CodeRecord.{
  AuthorizationCodeRecordState, issued, redeem, transition,
}
use regenerative_architectur.Oauth2.Records.{AuthorizationCodeRecord, Result, ok, err, internal}
use regenerative_architectur.Stores.Tenant.{default_tenant}

abbrev pub AuthorizationCodeStore : Type 0
AuthorizationCodeStore = List (String × AuthorizationCodeRecord)

unfoldable pub save : AuthorizationCodeRecord → AuthorizationCodeStore → AuthorizationCodeStore
save rec s = put rec.code (record rec { tenant_id = default_tenant rec.tenant_id }) s

unfoldable pub find_code : AuthorizationCodeStore → String → Option AuthorizationCodeRecord
find_code s code = find code s

abbrev redeem_transition :
    String
    → Time
    → AuthorizationCodeRecord
    → Option AuthorizationCodeRecordState
    → AuthorizationCodeStore
    → Result (Option AuthorizationCodeRecord) × AuthorizationCodeStore
redeem_transition code now rec none s = (err (internal "no transition"), s)
redeem_transition code now rec (some next) s =
    let rec' = record rec { state = next; redeemed_at = some now } in
    (ok (some rec'), put code rec' s)

abbrev redeem_state :
    String
    → Time
    → AuthorizationCodeRecord
    → AuthorizationCodeRecordState
    → AuthorizationCodeStore
    → Result (Option AuthorizationCodeRecord) × AuthorizationCodeStore
redeem_state code now rec issued s = redeem_transition code now rec (transition rec.state redeem) s
redeem_state code now rec _ s = (ok none, s)

-- `ok none` when the code is unknown or its state is not issued.
unfoldable pub redeem_code :
    String
    → Time
    → AuthorizationCodeStore
    → Result (Option AuthorizationCodeRecord) × AuthorizationCodeStore
unfolding transition
redeem_code code now s = elim (find code s) [
  | none ↦ (ok none, s)
  | some rec ↦ redeem_state code now rec rec.state s
]

unfoldable pub link_family :
    String → String → AuthorizationCodeStore → Result (Unit {0}) × AuthorizationCodeStore
link_family code family s = elim (find code s) [
  | none ↦ (err (internal "code not found"), s)
  | some rec ↦ (ok tt, put code (record rec { issued_family_id = some family }) s)
]
