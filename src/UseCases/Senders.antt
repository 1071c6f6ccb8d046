-- ===== src/UseCases/Senders.antt =====
-- The sender constraint that a proof of possession at the token endpoint gives, and its names.
use mathlib.Core.Option
use regenerative_architectur.Base.{String, Option, none, some, ◌==◌, if◌then◌else◌}
use regenerative_architectur.Spec.{SenderConstraintType, dpop, mtls}
use regenerative_architectur.Oauth2.Records.{SenderConstraint}

-- DPoP wins over mTLS; an empty text is no proof.
unfoldable pub sender_constraint_of : String → String → Option SenderConstraint
sender_constraint_of jkt x5t =
    if jkt == ""
    then (if x5t == "" then none else some (record { type = mtls; jkt = ""; x5t_s256 = x5t }))
    else some (record { type = dpop; jkt = jkt; x5t_s256 = "" })

abbrev pub token_type_of : Option SenderConstraint → String
token_type_of none = "Bearer"
token_type_of (some sc) = elim sc.type [ dpop ↦ "DPoP" | mtls ↦ "Bearer" ]

-- senderConstraintTag
abbrev pub tag_of : Option SenderConstraint → Option SenderConstraintType
tag_of sc = Option.map (λ s. s.type) sc
