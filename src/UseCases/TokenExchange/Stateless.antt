-- ===== src/UseCases/TokenExchange/Stateless.antt =====
-- A token exchange reads no store.
use regenerative_architectur.Base.{
  ◌≡◌, refl, ap, ◌∙◌, String, Bool, true, false, not, inl, inr, Option, none, some, List, [], ◌∷◌,
  ◌==◌, leb, Bool-cases,
}
use regenerative_architectur.Base.Int.{ℤ}
use regenerative_architectur.Base.Words.{fields}
use regenerative_architectur.Spec.{Time, or_clock}
use regenerative_architectur.Oauth2.Details.{AuthorizationDetail, details_subset_of}
use regenerative_architectur.Oauth2.Records.{Error, Result, ok, err}
use regenerative_architectur.UseCases.Monad.{World, M, continue, ◌>>=◌, guard_else, lift, some_or}
use regenerative_architectur.UseCases.Ports.{Ports}
use regenerative_architectur.UseCases.Refresh.{authorize}
use regenerative_architectur.UseCases.Details.{
  DetailTypes, validate_authorization_details, load_authorization_detail_types,
}
use regenerative_architectur.UseCases.Tokens.{IntrospectionResult, revoke_token}
use regenerative_architectur.UseCases.TokenExchange.{
  ExchangeTokenInput, Introspector, non_empty, single, is_served_type, active_token, act_depth,
  delegate, may_act_allows, narrow_scopes, is_ok, exchange_request, max_delegation_depth,
  find_subject, find_actor, narrow_details, issue_exchanged, exchange_at, exchange_token,
}

-- A step whose answer is the same in every world.
abbrev Blind : {A : Type 0} → M A → Type 0
Blind m = (w v : World) → (m w).0 ≡ (m v).0

ok_inj : {A : Type 0} {a b : A} → ◌≡◌ {A = Result A} (ok a) (ok b) → a ≡ b
ok_inj h = cc

err_inj : {A : Type 0} {e e' : Error} → ◌≡◌ {A = Result A} (err e) (err e') → e ≡ e'
err_inj h = cc

continue-Blind :
    {A B : Type 0} (x y : Result A × World) (f : A → M B)
    → x.0 ≡ y.0
    → ((a : A) → Blind (f a))
    → (continue x f).0 ≡ (continue y f).0
continue-Blind (ok a, w) (ok b, v) f h blind = blind a w v ∙ ap (λ x. (f x v).0) (ok_inj h)
continue-Blind (ok a, w) (err e, v) f h blind = absurd (cc)
continue-Blind (err e, w) (ok b, v) f h blind = absurd (cc)
continue-Blind (err e, w) (err e', v) f h blind = ap err (err_inj h)

module _ {A B : Type 0} where
  and_then-Blind : (m : M A) (f : A → M B) → Blind m → ((a : A) → Blind (f a)) → Blind (m >>= f)
  and_then-Blind m f h k w v = continue-Blind (m w) (m v) f (h w v) k

  lift-Blind : (r : Result A) (f : A → M B) → ((a : A) → Blind (f a)) → Blind (lift r >>= f)
  lift-Blind r f k w v = continue-Blind (r, w) (r, v) f refl k

  some_or-Blind :
      (o : Option A) (other : M A) (f : A → M B)
      → Blind other
      → ((a : A) → Blind (f a))
      → Blind (some_or o other >>= f)
  some_or-Blind none other f h k = and_then-Blind other f h k
  some_or-Blind (some a) other f h k = k a

module _ {B : Type 0} where
  guard_else-Blind :
      (b : Bool) (other : M (Unit {0})) (f : Unit {0} → M B)
      → Blind other
      → ((u : Unit {0}) → Blind (f u))
      → Blind (guard_else b other >>= f)
  guard_else-Blind true other f h k = k tt
  guard_else-Blind false other f h k = and_then-Blind other f h k

module _ (d : Ports) (introspector : Introspector) (types : DetailTypes) (tenant_id : String)
    (input : ExchangeTokenInput) (now : Time) where
  find_subject-Blind : Blind (find_subject d introspector types tenant_id input now)
  unfolding find_subject
  find_subject-Blind =
      some_or-Blind (single (non_empty input.resource)) _ _ (λ w v. refl)
        (λ resource.
          guard_else-Blind (is_served_type input.requested_token_type) _ _ (λ w v. refl)
            (λ _.
              guard_else-Blind (not (input.subject_token == "")) _ _ (λ w v. refl)
                (λ _.
                  guard_else-Blind (is_served_type input.subject_token_type) _ _ (λ w v. refl)
                    (λ _. lift-Blind (introspector input.subject_token) _ (λ found.
                      some_or-Blind (active_token found) _ _ (λ w v. refl)
                        (λ subject w v. refl))))))

  find_actor-Blind : Blind (find_actor d introspector types tenant_id input now)
  unfolding find_actor
  find_actor-Blind w v = elim (Bool-cases (input.actor_token == "")) [
    | inl absent ↦ rw (absent, find_actor) refl
    | inr given ↦
        rw (given, find_actor)
          (guard_else-Blind (is_served_type input.actor_token_type) _ _ (λ w v. refl)
            (λ _.
              lift-Blind (introspector input.actor_token) _
                (λ found. some_or-Blind (active_token found) _ _ (λ w v. refl) (λ actor w v. refl)))
            w v)
  ]

  narrow_details-Blind :
      (actor : String) (granted requested : List AuthorizationDetail)
      → Blind (narrow_details d introspector types tenant_id input now actor granted requested)
  unfolding narrow_details
  narrow_details-Blind actor granted [] = λ w v. refl
  narrow_details-Blind actor granted (r ∷ requested) =
      let asked = r ∷ requested in
      guard_else-Blind (is_ok (validate_authorization_details types tenant_id asked)) _ _
        (λ w v. refl)
        (λ _. lift-Blind (load_authorization_detail_types types tenant_id asked) _ (λ loaded.
          guard_else-Blind (details_subset_of asked granted loaded) _ _ (λ w v. refl)
            (λ _ w v. refl)))

  issue_exchanged-Blind :
      (resource : String) (subject : IntrospectionResult) (actor : String) (scopes : List String)
      (details : List AuthorizationDetail)
      → Blind (
          issue_exchanged d introspector types tenant_id input now resource subject actor scopes
            details)
  unfolding issue_exchanged
  issue_exchanged-Blind resource subject actor scopes details =
      lift-Blind (d.find_client tenant_id input.client_id) _ (λ found.
        some_or-Blind found _ _ (λ w v. refl)
          (λ c. lift-Blind (authorize d (exchange_request c resource scopes now)) _ (λ decision.
            guard_else-Blind decision.permit _ _ (λ w v. refl)
              (λ _. lift-Blind (d.sign_access_token _) _ (λ signed w v. refl)))))

  exchange_at-Blind : Blind (exchange_at d introspector types tenant_id input now)
  unfolding exchange_at
  exchange_at-Blind =
      and_then-Blind (find_subject d introspector types tenant_id input now) _ find_subject-Blind
        (λ found.
          and_then-Blind (find_actor d introspector types tenant_id input now) _ find_actor-Blind
            (λ actor.
              guard_else-Blind (not (actor == "")) _ _ (λ w v. refl)
                (λ _.
                  guard_else-Blind (may_act_allows found.1.may_act actor) _ _ (λ w v. refl)
                    (λ _.
                      guard_else-Blind
                        (leb (act_depth (delegate actor found.1.act)) max_delegation_depth) _ _
                        (λ w v. refl)
                        (λ _.
                          some_or-Blind (narrow_scopes (fields found.1.scope) (fields input.scope))
                            _ _ (λ w v. refl)
                            (λ scopes.
                              and_then-Blind
                                (narrow_details d introspector types tenant_id input now actor
                                  found.1.authorization_details input.authorization_details)
                                _
                                (narrow_details-Blind actor found.1.authorization_details
                                  input.authorization_details)
                                (λ details.
                                  issue_exchanged-Blind found.0 found.1 actor scopes details)))))))

-- Revoking the subject token does not keep it from being exchanged: in the state that a client's
-- revocation of it left, whatever the revocation did, the exchange answers what it answered before.
pub exchange_token-ignores_revocation :
    (d : Ports) (introspector : Introspector) (types : DetailTypes) (tenant_id : String)
    (input : ExchangeTokenInput) (now now' : Time) (w : World) (from_unix : ℤ → Time)
    (introspect : String → Result IntrospectionResult) (client_id : String)
    → (exchange_token d introspector types tenant_id input now'
        (revoke_token d from_unix introspect tenant_id client_id input.subject_token now w).1).0
      ≡ (exchange_token d introspector types tenant_id input now' w).0
unfolding exchange_token
exchange_token-ignores_revocation d introspector types tenant_id input now now' w from_unix
      introspect client_id =
    exchange_at-Blind d introspector types tenant_id input (or_clock d.clock now') _ w
