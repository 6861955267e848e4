-- ===== src/Validation.antt =====
-- response/orchestrator/engine.py, `_validate_command`: what a signed command must be before the
-- orchestrator acts on it, and again before it is applied. The authenticator is the `Protocol` of
-- response/decision.py, an argument here.
pub mod Named
pub mod Accepted
mod Tests
use enterprise_netsec_iac.Common.{
  ℕ, ◌+◌, ◌-◌, ◌*◌, ◌^◌, String, Bool, true, false, not, ◌&&◌, ◌||◌, Option, none, some, List, [],
  ◌∷◌, ◌==◌, str_eq, if◌then◌else◌, ltb, leb, is_some, Kind, Error, Result, ok, err, error,
  command_rejected, correlation_rejected,
}
use enterprise_netsec_iac.Common.Pure.{◌>>=◌, ◌>>◌, require, refuse}
use enterprise_netsec_iac.Value.{
  Value, Fields, null, bool, int, float, text, list, dict, get, has_exactly, is_true, as_text,
  as_dict, nonempty_text, or_raise,
}
use enterprise_netsec_iac.Value.Number.{ℤ, pos, negsuc, Float, finite}
use enterprise_netsec_iac.Platform.{Platform, Stamp, second}
use enterprise_netsec_iac.Policy.Protection.{
  Action, block_ip, isolate_host, TargetType, ip, host, Target,
}
use enterprise_netsec_iac.Policy.Rules.{ResponsePolicy, action_text}
use enterprise_netsec_iac.Policy.Catalog.{PolicyCatalog, find_policy}
use enterprise_netsec_iac.Audit.{Command}

-- `value == text`
abbrev pub is_text : Value → String → Bool
is_text (text s) t = str_eq s t
is_text _ t = false

-- `value == n`, which an equal float and, for 0 and 1, a Boolean satisfy too.
abbrev pub is_number : Value → ℕ → Bool
is_number (int (pos k)) n = k == n
is_number (float (finite (pos k) e)) n = k == n * 2 ^ e
is_number (bool true) n = n == 1
is_number (bool false) n = n == 0
is_number _ n = false

abbrev rejected {ℓ} : {A : Type ℓ} → String → Result A
rejected = error command_rejected

-- `_parse_rfc3339` of engine.py.
unfoldable pub parse_rfc3339 : Platform → Value → Result ℕ
parse_rfc3339 lib v = do
  s ← or_raise (nonempty_text v) command_rejected "must be an RFC3339 timestamp"
  stamp ← or_raise (lib.fromisoformat s) command_rejected "is invalid"
  require stamp.aware command_rejected "must include a timezone"
  ok stamp.micros

abbrev pub parse_type : Value → Option TargetType
parse_type (text s) = if str_eq s "ip" then some ip else if str_eq s "host" then some host else none
parse_type _ = none

-- The policy that the command names, if the command carries its identifier, version and digest.
unfoldable pub command_policy : PolicyCatalog → Value → Result ResponsePolicy
unfolding find_policy
command_policy catalog v = do
  fields ← or_raise (as_dict v) command_rejected "response command policy is malformed"
  require (has_exactly ("id" ∷ "version" ∷ "sha256" ∷ []) fields) command_rejected
      "response command policy is malformed"
  id ← or_raise (as_text (get "id" fields)) command_rejected "response command policy is unknown"
  p ←
      or_raise (find_policy id catalog.policies) command_rejected
        "response command policy is unknown"
  require (is_text (get "version" fields) p.version && is_text (get "sha256" fields) p.sha256)
      command_rejected "response command policy version or hash does not match active policy"
  ok p

unfoldable pub command_target : Platform → Value → Result Target
command_target lib v = do
  fields ← or_raise (as_dict v) command_rejected "response command target is malformed"
  require (has_exactly ("type" ∷ "value" ∷ []) fields) command_rejected
      "response command target is malformed"
  type ←
      or_raise (parse_type (get "type" fields)) command_rejected
        "response command target has an unsupported type or value"
  value ←
      or_raise (nonempty_text (get "value" fields)) command_rejected
        "response command target has an unsupported type or value"
  refuse (ltb 255 (lib.text_length value)) command_rejected
      "response command target has an unsupported type or value"
  ok (record { type = type; value = value })

-- The action and the target go together, and an address to block is an address.
unfoldable pub check_action_target : Platform → Action → Target → Result (Unit {0})
check_action_target lib block_ip t = elim t.type [
  | host ↦ error command_rejected "block_ip command must target an IP address"
  | ip ↦
      require (is_some (lib.ip_address t.value)) command_rejected
        "block_ip command target is not a valid IP address"
]
check_action_target lib isolate_host t = elim t.type [
  | ip ↦ error command_rejected "isolate_host command must target a host"
  | host ↦ ok tt
]

abbrev pub authorization_fields : List String
authorization_fields = "issuer" ∷ "key_id" ∷ "signature" ∷ "issued_at" ∷ "expires_at" ∷ []

unfoldable pub check_authorization : Platform → ℕ → Value → ℕ → Result (Unit {0})
unfolding parse_rfc3339
check_authorization lib valid_for v now = do
  fields ← or_raise (as_dict v) command_rejected "response command authorization is malformed"
  require (has_exactly authorization_fields fields) command_rejected
      "response command authorization is malformed"
  require (is_text (get "issuer" fields) "decision_engine") command_rejected
      "response command issuer is not trusted"
  issued_at ← parse_rfc3339 lib (get "issued_at" fields)
  expires_at ← parse_rfc3339 lib (get "expires_at" fields)
  refuse (leb expires_at issued_at) command_rejected
      "response command authorization expiry must follow issuance"
  refuse (ltb (now + 60 * second) issued_at) command_rejected
      "response command authorization is issued too far in the future"
  refuse (ltb (valid_for * second) (expires_at - issued_at)) command_rejected
      "response command authorization lifetime exceeds active policy"

-- `except CorrelationRejected as exc: raise CommandRejected(str(exc))`
abbrev as_command_error : Error → Error
as_command_error e = elim e.kind [
  | correlation_rejected ↦ record { kind = command_rejected; message = e.message }
  | other ↦ e
]

abbrev convert_error {ℓ} : {A : Type ℓ} → Result A → Result A
convert_error (ok a) = ok a
convert_error (err e) = err (as_command_error e)

abbrev pub command_fields : List String
command_fields =
    "schema_version" ∷ "request_id" ∷ "decision_event_id" ∷ "correlation_id" ∷ "policy" ∷ "target"
    ∷ "action" ∷ "ttl_seconds" ∷ "allowlist_checked" ∷ "rollback_required" ∷ "idempotency_key"
    ∷ "authorization" ∷ []

-- The schema, the identifiers and the promised safeguards: the fields and the idempotency key.
unfoldable pub check_envelope : Value → Result (Fields × String)
check_envelope command = do
  fields ← or_raise (as_dict command) command_rejected "response command must be an object"
  require (has_exactly command_fields fields) command_rejected
      "response command has missing or unsupported fields"
  require (is_text (get "schema_version" fields) "response-command-v1") command_rejected
      "unsupported response command schema"
  request ←
      or_raise (nonempty_text (get "request_id" fields)) command_rejected
        "response command request_id must be non-empty"
  decision ←
      or_raise (nonempty_text (get "decision_event_id" fields)) command_rejected
        "response command decision_event_id must be non-empty"
  correlation ←
      or_raise (nonempty_text (get "correlation_id" fields)) command_rejected
        "response command correlation_id must be non-empty"
  key ←
      or_raise (nonempty_text (get "idempotency_key" fields)) command_rejected
        "response command idempotency_key must be non-empty"
  require (is_true (get "allowlist_checked" fields) && is_true (get "rollback_required" fields))
      command_rejected "response command must require allowlist checking and rollback"
  ok (fields, key)

-- The policy that the command names, and its target under the action of that policy.
unfoldable pub check_policy : Platform → PolicyCatalog → Fields → Result (ResponsePolicy × Target)
unfolding command_policy command_target check_action_target
check_policy lib catalog fields = do
  p ← command_policy catalog (get "policy" fields)
  require (is_text (get "action" fields) (action_text p.action)) command_rejected
      "response command action differs from active policy"
  require (is_number (get "ttl_seconds" fields) p.ttl_seconds) command_rejected
      "response command TTL differs from active policy"
  target ← command_target lib (get "target" fields)
  check_action_target lib p.action target
  ok (p, target)

-- `_validate_command`, whose statements are those of the two checks above and these.
unfoldable pub validate_command :
    Platform → PolicyCatalog → (Value → ℕ → Result (Unit {0})) → Value → ℕ → Result Command
unfolding check_envelope check_policy check_authorization
validate_command lib catalog verify command now = do
  (fields, key) ← check_envelope command
  (p, target) ← check_policy lib catalog fields
  check_authorization lib catalog.command_valid_for_seconds (get "authorization" fields) now
  convert_error (verify command now)
  ok (record {
    raw = command;
    idempotency_key = key;
    policy_id = p.id;
    target = target;
    action = p.action;
    ttl_seconds = p.ttl_seconds;
  })
