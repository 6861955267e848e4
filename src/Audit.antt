-- ===== src/Audit.antt =====
-- response/orchestrator/audit.py: the states of a response, its audit events, and the check of a transition.
-- An event keeps the fields that the code reads again or that tell what was
-- done; `audit_event_id` is a digest of three of them and is left out. Instants are in microseconds,
-- rounded to milliseconds where the event writes them as text.
pub mod Lifecycle
pub mod Proven
mod Tests
use enterprise_netsec_iac.Common.{
  ℕ, ◌+◌, String, ◌≡◌, Bool, true, false, not, ◌&&◌, ◌||◌, Option, none, some, List, [], ◌∷◌, ◌==◌,
  str_eq, if◌then◌else◌, any, is_some, length, last?, Result, ok, err, error, command_rejected,
}
use enterprise_netsec_iac.Common.Pure.{◌>>=◌, ◌>>◌, require, refuse}
use enterprise_netsec_iac.Value.{Value}
use enterprise_netsec_iac.Policy.Protection.{
  Action, block_ip, isolate_host, TargetType, ip, host, Target,
}

pub data State : Type 0 where
  requested applied verified expired rolled_back failed : State

abbrev pub same_state : State → State → Bool
same_state requested requested = true
same_state applied applied = true
same_state verified verified = true
same_state expired expired = true
same_state rolled_back rolled_back = true
same_state failed failed = true
same_state _ _ = false

abbrev pub same_previous : Option State → Option State → Bool
same_previous none none = true
same_previous (some a) (some b) = same_state a b
same_previous _ _ = false

abbrev pub same_action : Action → Action → Bool
same_action block_ip block_ip = true
same_action isolate_host isolate_host = true
same_action _ _ = false

abbrev pub same_type : TargetType → TargetType → Bool
same_type ip ip = true
same_type host host = true
same_type _ _ = false

abbrev pub same_target : Target → Target → Bool
same_target s t = same_type s.type t.type && str_eq s.value t.value

-- A command that passed `_validate_command`: the dictionary itself, and the fields read from it.
pub record Command : Type 0 where
  pub raw : Value
  pub idempotency_key : String
  pub policy_id : String
  pub target : Target
  pub action : Action
  pub ttl_seconds : ℕ

pub data Operation : Type 0 where
  apply_operation revert_operation : Operation

pub record Application : Type 0 where
  pub applied_at : ℕ
  pub adapter_reference : String

pub record Verification : Type 0 where
  pub verified_at : ℕ
  pub evidence_refs : List String

pub data Cause : Type 0 where
  ttl_expired failed_verification manual recovery : Cause

pub record Rollback : Type 0 where
  pub completed_at : ℕ
  pub cause : Cause
  pub evidence_refs : List String

pub record Failure : Type 0 where
  pub code : String
  pub message : String
  pub failed_at : ℕ

pub record ActionIntent : Type 0 where
  pub operation : Operation
  pub started_at : Option ℕ
  pub adapter_reference : Option String

pub record AuditEvent : Type 0 where
  pub timestamp : ℕ
  pub response_id : String
  pub transition_number : ℕ
  pub policy_id : String
  pub idempotency_key : String
  pub target : Target
  pub action : Action
  pub state : State
  pub previous_state : Option State
  pub expires_at : ℕ
  pub application : Option Application
  pub verification : Option Verification
  pub rollback : Option Rollback
  pub failure : Option Failure
  pub action_intent : Option ActionIntent

-- `_ALLOWED`; a state with no entry, such as the two terminal ones, allows nothing.
unfoldable pub allowed : Option State → State → Bool
allowed none requested = true
allowed (some requested) applied = true
allowed (some requested) failed = true
allowed (some requested) rolled_back = true
allowed (some applied) verified = true
allowed (some applied) rolled_back = true
allowed (some applied) failed = true
allowed (some verified) expired = true
allowed (some verified) rolled_back = true
allowed (some verified) failed = true
allowed (some failed) failed = true
allowed (some failed) rolled_back = true
allowed _ _ = false

abbrev pub last_state : List AuditEvent → Option State
last_state history = elim (last? history) [ none ↦ none | some e ↦ some e.state ]

abbrev pub has_application : List AuditEvent → Bool
has_application = any (λ e. same_state e.state applied)

-- A transition out of FAILED, and the rollback of a request, are recoveries.
unfoldable pub is_recovery : Option State → State → Bool
is_recovery (some failed) s = true
is_recovery (some requested) rolled_back = true
is_recovery p s = false

unfoldable pub validate_transition : AuditEvent → List AuditEvent → Result (Unit {0})
unfolding allowed is_recovery
validate_transition e history = do
  refuse (str_eq e.response_id "") command_rejected "audit event lacks response_id"
  require (same_previous e.previous_state (last_state history)) command_rejected
      "audit event previous_state does not match append-only history"
  require (allowed (last_state history) e.state) command_rejected "invalid response transition"
  refuse
      (is_recovery (last_state history) e.state
        && (not (has_application history) && not (is_some e.action_intent)))
      command_rejected "recovery requires an application or recorded action intent"
  require (e.transition_number == length history + 1) command_rejected
      "audit event transition_number is not monotonic"
