-- ===== src/Orchestrator/Machine.antt =====
-- response/orchestrator/engine.py: the state of `ResponseOrchestrator`, what it is given, and the
-- private methods that write the journal or call an adapter. The orchestrator has a store; the mode
-- with a bare ledger is not modelled. The caller-visible messages are left out.
use Prim.Native.String.{◌++◌ as concat}
use enterprise_netsec_iac.Common.{
  ℕ, ◌+◌, String, Bool, true, false, ◌&&◌, Option, none, some, List, [], ◌∷◌, ◌++◌, ◌==◌, str_eq,
  if◌then◌else◌, any, Result, ok, err, error, command_rejected, storage_error, Method, pure, modify,
  ◌>>◌,
}
use enterprise_netsec_iac.Value.{Value, or_raise}
use enterprise_netsec_iac.Platform.{Platform, to_millis}
use enterprise_netsec_iac.Policy.Catalog.{PolicyCatalog}
use enterprise_netsec_iac.Audit.{
  State, failed, Command, Operation, Application, Verification, Rollback, Failure, AuditEvent,
}
use enterprise_netsec_iac.Store.{ResponseRecord, Journal, checkpoint}

-- response/adapters/base.py, `AdapterOutcome`.
pub record AdapterOutcome : Type 0 where
  pub ok : Bool
  pub adapter_reference : Option String
  pub evidence_refs : List String
  pub code : Option String
  pub message : Option String

-- What a call of an adapter comes back with: an exception, a value that is no outcome, or an outcome.
pub data Reply : Type 0 where
  raised malformed : Reply
  returned : AdapterOutcome → Reply

pub data AdapterCall : Type 0 where
  apply_call verify_call revert_call : AdapterCall

-- A call that was made: which method, for which response, with which reference.
pub record Call : Type 0 where
  pub method : AdapterCall
  pub response_id : String
  pub reference : Option String

-- A transaction commits, is refused, or commits with its answer lost.
pub data Disk : Type 0 where
  works refuses unsure : Disk

pub record Dedup : Type 0 where
  pub key : String
  pub response_id : String
  pub until : ℕ

-- `_records`, `_dedup`, `_storage_failed` and the store; `calls` is the trace of the adapter calls, and
-- `replies` and `disk` are what the adapters and the disk will answer, calm when they run out.
pub record Orchestrator : Type 0 where
  pub records : List ResponseRecord
  pub dedup : List Dedup
  pub storage_failed : Bool
  pub journal : Journal
  pub calls : List Call
  pub replies : List Reply
  pub disk : List Disk

pub record Environment : Type 0 where
  pub lib : Platform
  pub catalog : PolicyCatalog
  -- `CommandAuthenticator.verify`
  pub authenticate : Value → ℕ → Result (Unit {0})
  -- `recovery_reference` of the adapter of the command's action
  pub recovery_reference : Command → Result String

pub record OrchestrationResult : Type 0 where
  pub response_id : String
  pub state : State
  pub accepted : Bool
  pub deduplicated : Bool
  pub audit_event : Option AuditEvent

abbrev pub result : String → State → Bool → AuditEvent → OrchestrationResult
result i s a e = record {
  response_id = i;
  state = s;
  accepted = a;
  deduplicated = false;
  audit_event = some e;
}

-- `_response_id`
unfoldable pub response_id_of : Environment → String → String
response_id_of env key = concat "resp-" (env.lib.text_prefix (env.lib.sha256 key) 24)

-- The record object is shared with the dictionary: a change of it shows under its key, if it is there.
abbrev pub put : ResponseRecord → List ResponseRecord → List ResponseRecord
put r [] = []
put r (s ∷ ss) = if str_eq s.response_id r.response_id then r ∷ ss else s ∷ put r ss

abbrev pub find_record : String → List ResponseRecord → Option ResponseRecord
find_record i [] = none
find_record i (r ∷ rs) = if str_eq r.response_id i then some r else find_record i rs

-- `_record`
unfoldable pub get_record : String → Method Orchestrator ResponseRecord
get_record i s = (or_raise (find_record i s.records) command_rejected "unknown response", s)

unfoldable pub write_back : ResponseRecord → Method Orchestrator (Unit {0})
write_back r = modify (λ s. record s { records = put r s.records })

abbrev next_disk : List Disk → Disk
next_disk [] = works
next_disk (d ∷ ds) = d

abbrev later_disk : List Disk → List Disk
later_disk [] = []
later_disk (d ∷ ds) = ds

-- The snapshot that is stored: the expiry is written in milliseconds.
abbrev pub snapshot_of : ResponseRecord → ResponseRecord
snapshot_of r = record r { expires_at = to_millis r.expires_at }

-- A transaction of the store under the next answer of the disk; any exception closes the orchestrator.
abbrev pub settle : Result Journal → Method Orchestrator (Unit {0})
settle (err e) s = (err e, record s { storage_failed = true })
settle (ok j) s = elim (next_disk s.disk) [
  | works ↦ (ok tt, record s { journal = j; disk = later_disk s.disk })
  | refuses ↦ (
    error storage_error "disk I/O error",
    record s { storage_failed = true; disk = later_disk s.disk },
  )
  | unsure ↦ (
    error storage_error "disk I/O error",
    record s { journal = j; storage_failed = true; disk = later_disk s.disk },
  )
]

-- What a transition puts into its event, and whether it ends the pending operation.
pub record Payload : Type 0 where
  pub application : Option Application
  pub verification : Option Verification
  pub rollback : Option Rollback
  pub failure : Option Failure
  pub clear_intent : Bool

abbrev pub no_payload : Payload
no_payload = record {
  application = none;
  verification = none;
  rollback = none;
  failure = none;
  clear_intent = false;
}

-- `AuditEventFactory.build`, called as `_transition` calls it.
unfoldable pub build_event : ResponseRecord → State → ℕ → Payload → AuditEvent
build_event r state now p = record {
  timestamp = to_millis now;
  response_id = r.response_id;
  transition_number = r.transition_number + 1;
  policy_id = r.command.policy_id;
  idempotency_key = r.command.idempotency_key;
  target = r.command.target;
  action = r.command.action;
  state = state;
  previous_state = if r.transition_number == 0 then none else some r.state;
  expires_at = to_millis r.expires_at;
  application = p.application;
  verification = p.verification;
  rollback = p.rollback;
  failure = p.failure;
  action_intent = elim r.pending_operation [
    | none ↦ none
    | some o ↦ some (record {
      operation = o;
      started_at = r.operation_started_at;
      adapter_reference = r.adapter_reference;
    })
  ];
}

unfoldable pub moved : ResponseRecord → State → Payload → ResponseRecord
moved r state p = record r {
  state = state;
  transition_number = r.transition_number + 1;
  pending_operation = if p.clear_intent then none else r.pending_operation;
  operation_started_at = if p.clear_intent then none else r.operation_started_at;
}

-- `_application`, and the event that `_applied_at` reads: the last one with an application.
unfoldable pub find_application : List AuditEvent → Option Application
find_application [] = none
find_application (e ∷ es) = elim (find_application es) [ none ↦ e.application | some a ↦ some a ]

-- `outcome.code or fallback`
abbrev pub or_text : Option String → String → String
or_text none d = d
or_text (some s) d = if str_eq s "" then d else s

-- `_invoke`: an exception and a value that is no outcome become failures.
abbrev failure_outcome : String → AdapterOutcome
failure_outcome code = record {
  ok = false;
  adapter_reference = none;
  evidence_refs = [];
  code = some code;
  message = some "recovery is required";
}

abbrev checked_reply : String → Reply → AdapterOutcome
checked_reply code raised = failure_outcome code
checked_reply code malformed = failure_outcome "ADAPTER_INVALID_OUTCOME"
checked_reply code (returned o) =
    if any (λ ref. str_eq ref "") o.evidence_refs
    then failure_outcome "ADAPTER_INVALID_OUTCOME"
    else o

abbrev next_reply : List Reply → Reply
next_reply [] = raised
next_reply (x ∷ xs) = x

abbrev later_replies : List Reply → List Reply
later_replies [] = []
later_replies (x ∷ xs) = xs

unfoldable pub invoke :
    AdapterCall → ResponseRecord → Option String → String → Method Orchestrator AdapterOutcome
invoke method r reference code s = (
  ok (checked_reply code (next_reply s.replies)),
  record s {
    calls =
        s.calls
        ++ record { method = method; response_id = r.response_id; reference = reference } ∷ [];
    replies = later_replies s.replies;
  },
)

-- `outcome.ok and outcome.evidence_refs`
abbrev pub has_some : List String → Bool
has_some [] = false
has_some (x ∷ xs) = true

abbrev pub proven : AdapterOutcome → Bool
proven o = o.ok && has_some o.evidence_refs

abbrev pub started : ResponseRecord → Operation → ℕ → ResponseRecord
started r o now = record r {
  pending_operation = some o;
  operation_started_at = some (to_millis now);
}

module _ (env : Environment) where
  -- `_checkpoint`
  unfoldable pub commit : ResponseRecord → Option AuditEvent → Method Orchestrator (Unit {0})
  commit r e s = settle (checkpoint env.lib (snapshot_of r) e s.journal) s

  -- `_transition`: the record as it is after it, and the event.
  unfoldable pub transition :
      ResponseRecord → State → ℕ → Payload → Method Orchestrator (ResponseRecord × AuditEvent)
  transition r state now p = do
    let event = build_event r state now p
    let r' = moved r state p
    commit r' (some event)
    write_back r'
    pure (r', event)

  -- `_begin_operation`: the record changes before the checkpoint.
  unfoldable pub begin_operation :
      ResponseRecord → Operation → ℕ → Method Orchestrator ResponseRecord
  begin_operation r o now = do
    write_back (started r o now)
    commit (started r o now) none
    pure (started r o now)

  abbrev pub failure_payload : ℕ → String → String → Failure
  failure_payload now code message = record {
    code = env.lib.text_prefix code 128;
    message = env.lib.text_prefix message 2048;
    failed_at = to_millis now;
  }

  abbrev pub failed_payload : ℕ → String → String → Payload
  failed_payload now code message = record no_payload {
    failure = some (failure_payload now code message);
  }

  -- `_fail` and `_fail_from_outcome`
  unfoldable pub fail :
      ResponseRecord → ℕ → String → String → Method Orchestrator (ResponseRecord × AuditEvent)
  fail r now code message = transition r failed now (failed_payload now code message)

  unfoldable pub fail_from_outcome :
      ResponseRecord
      → ℕ
      → AdapterOutcome
      → String
      → Method Orchestrator (ResponseRecord × AuditEvent)
  fail_from_outcome r now o fallback =
      fail r now (or_text o.code fallback)
        (or_text o.message "constrained adapter failed without a message")
