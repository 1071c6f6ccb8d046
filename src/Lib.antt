-- ===== src/Lib.antt =====
-- ra-idp-go, an OAuth 2.0 and OpenID Connect identity provider in Go: the core of its authorization server.
-- Paths are relative to ra-idp-go/internal.
--
-- Parts. Client applications send users through the authorization code flow (oauth2/usecases/authorize.go,
-- complete_login.go, exchange_code.go) or devices through the device flow (device_flow.go); both end in
-- access tokens and families of refresh tokens, which refresh_tokens.go rotates, revoke_token.go revokes
-- and introspect_token.go reports on. The use cases keep their state in stores behind ports, ask the
-- authorization policy (shared/spec/policy.go) and follow the state machines of shared/spec. Log-ins are
-- throttled and leave sessions, and sensitive operations ask for a recent authentication. An access token
-- is exchanged for a narrower one by exchange_token.go; requests can be pushed ahead
-- (push_authorization_request.go); audit events and event buckets are swept (retention.go).
--
-- Files.
--   Base: the conditional and tests, Go maps as association lists (Maps), slices (Lists), signed integers
--     (Int), pointers (Heap), strings.Fields and strings.Join (Words).
--   Machines: shared/spec/authorization_code_machine.go and device_code_machine.go. Table is the search that
--     the Transition functions share and runs of a machine; the Runs modules are about reachability.
--   Spec: times, enums.go and grants.go. Policy: policy.go; Actions is the rule table, Rules the evaluators,
--     Evaluate the decision. Oauth2: the records of oauth2.go and users.go, the events, and in Details the
--     validation and the order of domain/authorization_details.go.
--   Stores: shared/adapters/persistence/memory, one module per store. Each method runs under the store's
--     mutex, so it is one function on the store's state; methods that can fail return a result beside the
--     new state. Stores that enter one pointer under two keys are modelled over Heap, with the invariant
--     Linked that the two indexes agree. RefreshTokens/Abstract is what the refresh token store promises on
--     two plain maps of values, and RefreshTokens/Refinement relates the two.
--   UseCases: oauth2/usecases and oauth2/domain. Monad is explicit state passing over World, the stores and
--     the event log: what was written before an error stays written. Ports holds what the use cases are
--     given: the client and user repositories, the policy adapter, the token issuer, hashes, the clock, and
--     the verdicts of the validation schemas; Entropy is one draw of the random source. Inversion has the
--     lemmas that take a successful run apart. Refresh, Code, Device, Tokens, TokenExchange
--     and Par are the handlers, whole and in the order of the source, cut into stages; the modules beside
--     them prove what they do. Details is usecases/authorization_details.go.
--   Authentication: authentication/usecases: ACR derivation, the step-up gate, the session manager and the
--     revocation of sessions (Sessions), and the retention sweep (Retention).
--   Identity: identitymanagement/usecases/admin_agents.go. Agents holds the checks and the registration, with
--     the other operations in Update, Lifecycle and Bindings; Operations makes requests of them, Steps says
--     what a request may do to the repository, and Effects, Drafts and Handled that it does no more. Sound is
--     the invariant, with Exclusive and Clients on the bindings and Tenants on the keys.
--   Tests: the theorems applied to a small deployment.
--
-- Conventions and bounds. Times are nanoseconds since Go's zero time, as natural numbers; durations are
-- added without the wrap-around of int64, which is 292 years away, but in Retention, where the number of
-- days comes from the configuration and the wrap-around is written out. Go's int is used for small counters and
-- seconds and is modelled by natural numbers or by integers without a bound. No loop needs fuel: all are
-- recursions on lists or texts. The tenant of a request is an argument. Error descriptions are left out.
--
-- Not modelled: the authorization_details that the code grant carries from /authorize to the token, client
-- credentials, consents, the parsing of the cookie header, the sorted list of sessions, the password policy
-- and TOTP, the catalogue of applications, users and groups, SAML and WS-Federation, the HTTP adapters, and the SQL and Valkey stores; the crypto and the JSON Web Token code
-- stand behind ports. Concurrent requests are sequences of store steps; a use case is modelled as if it ran
-- alone between its first and its last step, but for a poll of the device flow around a decision
-- (Device/Interleaving).
pub mod Base
pub mod Machines
pub mod Spec
pub mod Policy
pub mod Oauth2
pub mod Stores
pub mod UseCases
pub mod Authentication
pub mod Identity
mod Tests
