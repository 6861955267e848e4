-- ===== src/Validation/Accepted.antt =====
-- What a command that `_validate_command` accepts is.
use enterprise_netsec_iac.Common.{
  ℕ, ◌+◌, ◌-◌, ◌*◌, ◌≤◌, ◌<◌, ◌≡◌, refl, ap, true, ◌&&◌, some, arith, Result, ok, err, String, ltb,
  leb,
}
use enterprise_netsec_iac.Common.Pure.{
  ok-eq-ok, >>=-eq-ok, require, refuse, require-eq-ok, refuse-eq-ok,
}
use enterprise_netsec_iac.Value.{
  Value, Fields, get, as_dict, has_exactly, is_true, or_raise, nonempty_text, text,
}
use enterprise_netsec_iac.Platform.{Platform, second}
use enterprise_netsec_iac.Policy.Protection.{Target}
use enterprise_netsec_iac.Policy.Rules.{ResponsePolicy, action_text}
use enterprise_netsec_iac.Policy.Catalog.{PolicyCatalog}
use enterprise_netsec_iac.Audit.{Command}
use enterprise_netsec_iac.Validation.Named.{
  IsActive, IsAimed, Suits, or_raise-eq-ok, is_text-eq, command_policy-IsActive,
  command_target-IsAimed, check_action_target-Suits,
}
use enterprise_netsec_iac.Validation.{
  authorization_fields, command_fields, convert_error, check_envelope, check_policy, is_text,
  is_number, parse_rfc3339, command_policy, command_target, check_action_target,
  check_authorization, validate_command,
}

-- The authorization of a command: it begins before it ends, no later than a minute from now, and lasts no longer than allowed.
pub record IsAuthorized (lib : Platform) (valid_for : ℕ) (v : Value) (now : ℕ) : Type 0 where
  pub fields : Fields
  pub issued_at : ℕ
  pub expires_at : ℕ
  pub shape : as_dict v ≡ some fields
  pub issuer : is_text (get "issuer" fields) "decision_engine" ≡ true
  pub issued : parse_rfc3339 lib (get "issued_at" fields) ≡ ok issued_at
  pub expires : parse_rfc3339 lib (get "expires_at" fields) ≡ ok expires_at
  pub order : issued_at < expires_at
  pub past : issued_at ≤ now + 60 * second
  pub lifetime : expires_at - issued_at ≤ valid_for * second

authorized :
    (lib : Platform) (valid_for : ℕ) (v : Value) (now : ℕ)
    → check_authorization lib valid_for v now ≡ ok tt
    → IsAuthorized lib valid_for v now
unfolding check_authorization
authorized lib valid_for v now h =
    let (fields, shape, h1) = >>=-eq-ok (or_raise (as_dict v) _ _) _ h in
    let (_, exact, h2) = >>=-eq-ok (require (has_exactly authorization_fields fields) _ _) _ h1 in
    let (_, issuer, h3) =
      >>=-eq-ok (require (is_text (get "issuer" fields) "decision_engine") _ _) _ h2 in
    let (issued_at, issued, h4) = >>=-eq-ok (parse_rfc3339 lib (get "issued_at" fields)) _ h3 in
    let (expires_at, expires, h5) = >>=-eq-ok (parse_rfc3339 lib (get "expires_at" fields)) _ h4 in
    let (_, order, h6) = >>=-eq-ok (refuse (leb expires_at issued_at) _ _) _ h5 in
    let (_, past, lifetime) = >>=-eq-ok (refuse (ltb (now + 60 * second) issued_at) _ _) _ h6 in
    record {
      fields = fields;
      issued_at = issued_at;
      expires_at = expires_at;
      shape = or_raise-eq-ok (as_dict v) _ _ shape;
      issuer = require-eq-ok (is_text (get "issuer" fields) "decision_engine") _ _ issuer;
      issued = issued;
      expires = expires;
      order = ground (arith, refuse-eq-ok (leb expires_at issued_at) _ _ order);
      past = ground (arith, refuse-eq-ok (ltb (now + 60 * second) issued_at) _ _ past);
      lifetime =
          ground
            (arith, refuse-eq-ok (ltb (valid_for * second) (expires_at - issued_at)) _ _ lifetime);
    }

-- What the first checks leave.
pub record IsEnveloped (command : Value) (fields : Fields) (key : String) : Type 0 where
  pub shape : as_dict command ≡ some fields
  pub key_field : nonempty_text (get "idempotency_key" fields) ≡ some key
  pub safeguards :
      (is_true (get "allowlist_checked" fields) && is_true (get "rollback_required" fields)) ≡ true

enveloped :
    (command : Value) {fields : Fields} {key : String}
    → check_envelope command ≡ ok (fields, key)
    → IsEnveloped command fields key
unfolding check_envelope
enveloped command {fields = fs} {key = k} h =
    let (fields, shape, h1) = >>=-eq-ok (or_raise (as_dict command) _ _) _ h in
    let (_, _, h2) = >>=-eq-ok (require (has_exactly command_fields fields) _ _) _ h1 in
    let (_, _, h3) =
      >>=-eq-ok (require (is_text (get "schema_version" fields) "response-command-v1") _ _) _ h2 in
    let (_, _, h4) = >>=-eq-ok (or_raise (nonempty_text (get "request_id" fields)) _ _) _ h3 in
    let (_, _, h5) =
      >>=-eq-ok (or_raise (nonempty_text (get "decision_event_id" fields)) _ _) _ h4 in
    let (_, _, h6) = >>=-eq-ok (or_raise (nonempty_text (get "correlation_id" fields)) _ _) _ h5 in
    let (key, named, h7) =
      >>=-eq-ok (or_raise (nonempty_text (get "idempotency_key" fields)) _ _) _ h6 in
    let (_, safe, done) =
      >>=-eq-ok
        (require
          (is_true (get "allowlist_checked" fields) && is_true (get "rollback_required" fields)) _
          _)
        _ h7 in
    let same : (fields, key) ≡ (fs, k) = ok-eq-ok done in
    rw (← ap (λ x. x.0) same, ← ap (λ x. x.1) same)
      (record {
        shape = or_raise-eq-ok (as_dict command) _ _ shape;
        key_field = or_raise-eq-ok (nonempty_text (get "idempotency_key" fields)) _ _ named;
        safeguards =
            require-eq-ok
              (is_true (get "allowlist_checked" fields) && is_true (get "rollback_required" fields))
              _ _ safe;
      })

-- What the policy checks leave: the fields of the command say the name, the version and the digest of a
-- policy of the catalog, its action and its lifetime, and a target that suits the action.
pub record IsRuled (lib : Platform) (catalog : PolicyCatalog) (fields : Fields)
    (rule : ResponsePolicy) (target : Target) : Type 0 where
  pub active : IsActive catalog (get "policy" fields) rule
  pub action : get "action" fields ≡ text (action_text rule.action)
  pub ttl : is_number (get "ttl_seconds" fields) rule.ttl_seconds ≡ true
  pub aimed : IsAimed lib (get "target" fields) target
  pub suits : Suits lib rule.action target

ruled :
    (lib : Platform) (catalog : PolicyCatalog) (fields : Fields) {p : ResponsePolicy} {t : Target}
    → check_policy lib catalog fields ≡ ok (p, t)
    → IsRuled lib catalog fields p t
unfolding check_policy
ruled lib catalog fields {p} {t} h =
    let (rule, active, h1) = >>=-eq-ok (command_policy catalog (get "policy" fields)) _ h in
    let (_, acts, h2) =
      >>=-eq-ok (require (is_text (get "action" fields) (action_text rule.action)) _ _) _ h1 in
    let (_, lasts, h3) =
      >>=-eq-ok (require (is_number (get "ttl_seconds" fields) rule.ttl_seconds) _ _) _ h2 in
    let (target, aimed, h4) = >>=-eq-ok (command_target lib (get "target" fields)) _ h3 in
    let (_, suits, done) = >>=-eq-ok (check_action_target lib rule.action target) _ h4 in
    let same : (rule, target) ≡ (p, t) = ok-eq-ok done in
    rw (← ap (λ x. x.0) same, ← ap (λ x. x.1) same)
      (record {
        active = command_policy-IsActive catalog (get "policy" fields) active;
        action =
            is_text-eq (get "action" fields) (action_text rule.action)
              (require-eq-ok (is_text (get "action" fields) (action_text rule.action)) _ _ acts);
        ttl = require-eq-ok (is_number (get "ttl_seconds" fields) rule.ttl_seconds) _ _ lasts;
        aimed = command_target-IsAimed lib (get "target" fields) aimed;
        suits = check_action_target-Suits lib rule.action target suits;
      })

-- A command that was accepted, and the one that the orchestrator keeps.
pub record IsAccepted (lib : Platform) (catalog : PolicyCatalog)
    (verify : Value → ℕ → Result (Unit {0})) (command : Value) (now : ℕ) (c : Command)
    : Type 0 where
  pub fields : Fields
  pub rule : ResponsePolicy
  pub enveloped : IsEnveloped command fields c.idempotency_key
  pub ruled : IsRuled lib catalog fields rule c.target
  pub raw : c.raw ≡ command
  pub policy_id : c.policy_id ≡ rule.id
  pub action : c.action ≡ rule.action
  pub ttl : c.ttl_seconds ≡ rule.ttl_seconds
  pub authorization :
      IsAuthorized lib catalog.command_valid_for_seconds (get "authorization" fields) now
  pub signature : verify command now ≡ ok tt

converted : (r : Result (Unit {0})) → convert_error r ≡ ok tt → r ≡ ok tt
converted (ok u) h = refl
converted (err e) h = cc

-- Every command that validation accepts is a dictionary whose fields say the name, the version and the
-- digest of a policy of the catalog; its action and lifetime are the policy's, and its target is a text of
-- at most 255 characters that suits the action. Its authorization begins before it ends, at most a minute
-- from now, and lasts no longer than the catalog allows, and the authenticator has accepted the command.
pub validate_command-IsAccepted :
    (lib : Platform) (catalog : PolicyCatalog) (verify : Value → ℕ → Result (Unit {0}))
    → (command : Value) (now : ℕ) {c : Command}
    → validate_command lib catalog verify command now ≡ ok c
    → IsAccepted lib catalog verify command now c
unfolding validate_command
validate_command-IsAccepted lib catalog verify command now {c} h =
    let ((fields, key), envelope, h1) = >>=-eq-ok (check_envelope command) _ h in
    let ((rule, target), policy, h2) = >>=-eq-ok (check_policy lib catalog fields) _ h1 in
    let (_, auth, h3) =
      >>=-eq-ok
        (check_authorization lib catalog.command_valid_for_seconds (get "authorization" fields) now)
        _ h2 in
    let (_, signed, done) = >>=-eq-ok (convert_error (verify command now)) _ h3 in
    let same = ok-eq-ok done in
    rw (← same) (record {
      fields = fields;
      rule = rule;
      enveloped = enveloped command envelope;
      ruled = ruled lib catalog fields policy;
      raw = refl;
      policy_id = refl;
      action = refl;
      ttl = refl;
      authorization =
          authorized lib catalog.command_valid_for_seconds (get "authorization" fields) now auth;
      signature = converted (verify command now) signed;
    })
