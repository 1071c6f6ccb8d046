-- ===== src/Stores/Sessions.antt =====
-- memory/sessions.go: SessionStore, and spec.LoginSession of shared/spec/authentication.go.
use regenerative_architectur.Base.{
  String, Bool, not, ◌&&◌, Option, none, some, List, [], ◌∷◌, ◌==◌, find, put, remove,
  if◌then◌else◌,
}
use regenerative_architectur.Base.Int.{ℤ}
use regenerative_architectur.Spec.{Time, before}
use regenerative_architectur.Stores.Tenant.{default_tenant}

pub record LoginSession : Type 0 where
  pub id : String
  pub tenant_id : String
  pub sub : String
  pub auth_time : ℤ
  pub amr : List String
  pub acr : String
  pub authentication_pending : Bool
  pub expires_at : Time
  pub step_up_at : ℤ

abbrev pub SessionStore : Type 0
SessionStore = List (String × LoginSession)

abbrev pub stored : LoginSession → LoginSession
stored sess = record sess { tenant_id = default_tenant sess.tenant_id }

unfoldable pub save : LoginSession → SessionStore → SessionStore
save sess s = put sess.id (stored sess) s

-- A session past its expiry, by the store's clock, is not found and deleted.
abbrev pub unless_expired :
    Time → String → Option LoginSession → SessionStore → Option LoginSession × SessionStore
unless_expired clock id none s = (none, s)
unless_expired clock id (some sess) s =
    if before sess.expires_at clock then (none, remove id s) else (some sess, s)

unfoldable pub find_session : Time → String → SessionStore → Option LoginSession × SessionStore
find_session clock id s = unless_expired clock id (find id s) s

unfoldable pub delete : String → SessionStore → SessionStore
delete id s = remove id s

-- ListBySub drops what is past its expiry from the store, and returns the finished sessions of a user.
unfoldable pub prune : Time → SessionStore → SessionStore
prune clock [] = []
prune clock ((id, sess) ∷ s) =
    let rest = prune clock s in if before sess.expires_at clock then rest else (id, sess) ∷ rest

unfoldable pub sessions_of : String → SessionStore → List LoginSession
sessions_of sub [] = []
sessions_of sub ((id, sess) ∷ s) =
    let rest = sessions_of sub s in
    if sess.sub == sub && not sess.authentication_pending then sess ∷ rest else rest

unfoldable pub list_by_sub : Time → String → SessionStore → List LoginSession × SessionStore
unfolding prune sessions_of
list_by_sub clock sub s = (sessions_of sub (prune clock s), prune clock s)

unfoldable pub delete_all_for_sub : String → SessionStore → SessionStore
delete_all_for_sub sub [] = []
delete_all_for_sub sub ((id, sess) ∷ s) =
    let rest = delete_all_for_sub sub s in if sess.sub == sub then rest else (id, sess) ∷ rest
