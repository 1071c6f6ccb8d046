-- ===== src/UseCases/Device/Domain.antt =====
-- oauth2/domain/device_authorization.go.
use Prim.Native.Char.{Char, code}
use regenerative_architectur.Base.{
  ℕ, String, Bool, true, false, not, ◌||◌, ◌&&◌, leb, if◌then◌else◌,
}
use regenerative_architectur.Spec.{Time, seconds, before, or_clock}
use regenerative_architectur.Machines.DeviceFlow.{DeviceCodeFlowState, expired}
use regenerative_architectur.Oauth2.Records.{DeviceAuthorization}
use regenerative_architectur.UseCases.Ports.{Ports}

abbrev pub device_code_ttl_seconds : ℕ
device_code_ttl_seconds = 600

abbrev pub device_code_ttl : ℕ
device_code_ttl = seconds device_code_ttl_seconds

-- A to Z or 0 to 9.
abbrev pub is_index_char : Char → Bool
is_index_char c = let n = code c in leb 65 n && leb n 90 || leb 48 n && leb n 57

unfoldable pub keep_index_chars : String → String
keep_index_chars String.[] = String.[]
keep_index_chars (String.◌∷◌ c s) =
    let rest = keep_index_chars s in if is_index_char c then String.◌∷◌ c rest else rest

unfoldable pub normalize_user_code : Ports → String → String
unfolding keep_index_chars
normalize_user_code d input = keep_index_chars (d.to_upper input)

abbrev is_expired_state : DeviceCodeFlowState → Bool
is_expired_state expired = true
is_expired_state _ = false

unfoldable pub is_device_expired : Time → DeviceAuthorization → Time → Bool
is_device_expired clock rec now =
    is_expired_state rec.state || not (before (or_clock clock now) rec.expires_at)
