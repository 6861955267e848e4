-- ===== src/Decision/Contract.antt =====
-- The contract between the decision engine and the orchestrator: a command that the one issues is a
-- command that the other accepts.
use enterprise_netsec_iac.Common.{
  ℕ, ◌+◌, ◌*◌, ◌-◌, ◌≤◌, ◌<◌, String, ◌≡◌, true, false, some, arith, str_eq, eq_refl, ltb, leb,
  Result, ok,
}
use enterprise_netsec_iac.Value.{Value, int, text, field, end}
use enterprise_netsec_iac.Value.Number.{pos}
use enterprise_netsec_iac.Platform.{Platform, second, to_millis}
use enterprise_netsec_iac.Policy.Protection.{TargetType, ip, host, Target}
use enterprise_netsec_iac.Policy.Rules.{ResponsePolicy, action_text}
use enterprise_netsec_iac.Policy.Catalog.{PolicyCatalog, find_policy}
use enterprise_netsec_iac.Validation.{
  is_number, parse_rfc3339, command_policy, command_target, check_action_target,
  check_authorization, check_envelope, check_policy, validate_command,
}
use enterprise_netsec_iac.Decision.Engine.{
  target_value, policy_value, authorization, command_value, command_fields_of, signed_command,
}

policy_value-accepted :
    (catalog : PolicyCatalog) (p : ResponsePolicy)
    → find_policy p.id catalog.policies ≡ some p
    → command_policy catalog (policy_value p) ≡ ok p
unfolding command_policy
policy_value-accepted catalog p active = ground (arith, active, eq_refl p.version, eq_refl p.sha256)

target_value-accepted :
    (lib : Platform) (t : Target)
    → str_eq t.value "" ≡ false
    → lib.text_length t.value ≤ 255
    → command_target lib (target_value t) ≡ ok t
unfolding command_target
target_value-accepted lib t named short = by_type t.type t.value named short
  where
    by_type :
        (y : TargetType) (v : String)
        → str_eq v "" ≡ false
        → lib.text_length v ≤ 255
        → command_target lib (target_value (record { type = y; value = v }))
          ≡ ok (record { type = y; value = v })
    by_type ip v named short = ground (arith, named, short)
    by_type host v named short = ground (arith, named, short)

time-accepted :
    (lib : Platform) (at : ℕ)
    → str_eq (lib.isoformat at) "" ≡ false
    → lib.fromisoformat (lib.isoformat at) ≡ some (record { micros = at; aware = true })
    → parse_rfc3339 lib (text (lib.isoformat at)) ≡ ok at
unfolding parse_rfc3339
time-accepted lib at written read = ground (arith, written, read)

to_millis-later : (now n : ℕ) → to_millis (now + n * second) ≡ to_millis now + n * second
to_millis-later now n = omega arith

authorization-accepted :
    (lib : Platform) (key_id signature : String) (valid now : ℕ)
    → 0 < valid
    → parse_rfc3339 lib (text (lib.isoformat (to_millis now))) ≡ ok (to_millis now)
    → parse_rfc3339 lib (text (lib.isoformat (to_millis (now + valid * second))))
      ≡ ok (to_millis (now + valid * second))
    → check_authorization lib valid
        (authorization lib key_id valid now (field "signature" (text signature) end))
        now
      ≡ ok tt
unfolding check_authorization
authorization-accepted lib key_id signature valid now some_time issued expires =
    let order : leb (to_millis (now + valid * second)) (to_millis now) ≡ false =
      ground (arith, to_millis-later now valid, some_time) in
    let past : ltb (now + 60 * second) (to_millis now) ≡ false = ground arith in
    let lifetime : ltb (valid * second) (to_millis (now + valid * second) - to_millis now) ≡ false =
      ground (arith, to_millis-later now valid) in
    simp (issued, expires, order, past, lifetime)

envelope-accepted :
    (request decision correlation key : String) (p : ResponsePolicy) (t : Target) (auth : Value)
    → str_eq request "" ≡ false
    → str_eq decision "" ≡ false
    → str_eq correlation "" ≡ false
    → str_eq key "" ≡ false
    → check_envelope (command_value request decision correlation p t key auth)
      ≡ ok (command_fields_of request decision correlation p t key auth, key)
unfolding check_envelope
envelope-accepted request decision correlation key p t auth a b c d = simp (a, b, c, d)

policy-accepted :
    (lib : Platform) (catalog : PolicyCatalog) (request decision correlation key : String)
    → (p : ResponsePolicy) (t : Target) (auth : Value) → find_policy p.id catalog.policies ≡ some p
    → str_eq t.value "" ≡ false
    → lib.text_length t.value ≤ 255
    → check_action_target lib p.action t ≡ ok tt
    → check_policy lib catalog (command_fields_of request decision correlation p t key auth)
      ≡ ok (p, t)
unfolding check_policy
policy-accepted lib catalog request decision correlation key p t auth active named short suits =
    let same_ttl : is_number (int (pos p.ttl_seconds)) p.ttl_seconds ≡ true = ground arith in
    simp (
      policy_value-accepted catalog p active,
      eq_refl (action_text p.action),
      same_ttl,
      target_value-accepted lib t named short,
      suits,
    )

-- The orchestrator accepts every command that the engine signs, at the moment at which it was signed,
-- if the policy is the one that the catalog has under its name, the target is a text of at most 255
-- characters that suits the policy's action, the identifiers are not empty, commands are valid for some
-- time, the platform reads the two timestamps as they were written, and the authenticator accepts it.
pub signed_command-accepted :
    (lib : Platform) (catalog : PolicyCatalog) (verify : Value → ℕ → Result (Unit {0}))
    → (sign : Value → String) (key_id : String) (now : ℕ)
    → (request decision correlation key : String) (p : ResponsePolicy) (t : Target)
    → str_eq request "" ≡ false
    → str_eq decision "" ≡ false
    → str_eq correlation "" ≡ false
    → str_eq key "" ≡ false
    → find_policy p.id catalog.policies ≡ some p
    → str_eq t.value "" ≡ false
    → lib.text_length t.value ≤ 255
    → check_action_target lib p.action t ≡ ok tt
    → 0 < catalog.command_valid_for_seconds
    → parse_rfc3339 lib (text (lib.isoformat (to_millis now))) ≡ ok (to_millis now)
    → parse_rfc3339 lib
        (text (lib.isoformat (to_millis (now + catalog.command_valid_for_seconds * second))))
      ≡ ok (to_millis (now + catalog.command_valid_for_seconds * second))
    → let command =
        signed_command lib sign key_id catalog.command_valid_for_seconds now request decision
          correlation p t key in
      verify command now ≡ ok tt
      → validate_command lib catalog verify command now
        ≡ ok (record {
          raw = command;
          idempotency_key = key;
          policy_id = p.id;
          target = t;
          action = p.action;
          ttl_seconds = p.ttl_seconds;
        })
unfolding validate_command signed_command
signed_command-accepted lib catalog verify sign key_id now request decision correlation key p t a b
      c d active named short suits some_time issued expires signed =
    let auth = authorization lib key_id catalog.command_valid_for_seconds now (
      field "signature"
        (text (
          sign (
            command_value request decision correlation p t key
              (authorization lib key_id catalog.command_valid_for_seconds now end))))
        end) in
    simp (
      envelope-accepted request decision correlation key p t auth a b c d,
      policy-accepted lib catalog request decision correlation key p t auth active named short
          suits,
      authorization-accepted lib key_id
          (sign (
            command_value request decision correlation p t key
              (authorization lib key_id catalog.command_valid_for_seconds now end)))
          catalog.command_valid_for_seconds now some_time issued expires,
      signed,
    )
