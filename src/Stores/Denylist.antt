-- ===== src/Stores/Denylist.antt =====
-- memory/access_token_denylist.go: AccessTokenDenylist, with the clock as an argument.
use regenerative_architectur.Base.{
  String, Bool, true, false, none, some, List, find, put, remove, if◌then◌else◌,
}
use regenerative_architectur.Spec.{Time, before}

abbrev pub AccessTokenDenylist : Type 0
AccessTokenDenylist = List (String × Time)

unfoldable pub add : String → Time → AccessTokenDenylist → AccessTokenDenylist
add jti expires_at d = put jti expires_at d

-- An entry that has run out is dropped when it is asked for.
unfoldable pub is_revoked : Time → String → AccessTokenDenylist → Bool × AccessTokenDenylist
is_revoked clock jti d = elim (find jti d) [
  | none ↦ (false, d)
  | some expires_at ↦ if before expires_at clock then (false, remove jti d) else (true, d)
]
