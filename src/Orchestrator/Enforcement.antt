-- ===== src/Orchestrator/Enforcement.antt =====
-- response/orchestrator/engine.py: the operations that call an adapter (`apply`, `verify`, `expire_due`,
-- `rollback`, `recover_pending`), the queues of the scheduler, and the start from a store.
use enterprise_netsec_iac.Common.{
  ℕ, String, Bool, true, false, not, ◌&&◌, Option, none, some, List, [], ◌∷◌, str_eq, if◌then◌else◌,
  filter, map, leb, is_some, is_none, Kind, Result, ok, err, error, command_rejected, policy_error,
  assertion_error, Method, pure, lift, gets, ◌>>=◌, ◌>>◌,
}
use enterprise_netsec_iac.Common.Pure
use enterprise_netsec_iac.Value.{or_raise}
use enterprise_netsec_iac.Platform.{to_millis}
use enterprise_netsec_iac.Policy.Protection.{assert_target_allowed}
use enterprise_netsec_iac.Validation.{validate_command}
use enterprise_netsec_iac.Audit.{
  State, requested, applied, verified, expired, rolled_back, failed, apply_operation,
  revert_operation, Application, Rollback, Cause, ttl_expired, failed_verification, manual,
  recovery,
}
use enterprise_netsec_iac.Store.{ResponseRecord, events}
use enterprise_netsec_iac.Orchestrator.Machine.{
  AdapterOutcome, apply_call, verify_call, revert_call, Orchestrator, Environment,
  OrchestrationResult, result, get_record, write_back, Payload, no_payload, find_application,
  invoke, proven, or_text, transition, begin_operation, failure_payload, fail, fail_from_outcome,
}
use enterprise_netsec_iac.Orchestrator.Operations.{
  is_state, reversible, refuse_if, serialized, assert_target_available,
}

-- `_applied_at`
unfoldable pub applied_at : ResponseRecord → Method Orchestrator ℕ
applied_at r = do
  found ← gets (λ s. find_application (events r.response_id s.journal))
  lift (elim found [
    | none ↦ error command_rejected "response audit history lacks an applied timestamp"
    | some a ↦ ok a.applied_at
  ])

-- The reference that an application returned, if it is usable.
abbrev pub usable_reference : AdapterOutcome → Option String
usable_reference o =
    if o.ok
    then elim o.adapter_reference [
      | none ↦ none
      | some ref ↦ if str_eq ref "" then none else some ref
    ]
    else none

-- What each transition of an enforced response records.
abbrev pub rollback_of : ℕ → Cause → AdapterOutcome → Rollback
rollback_of now cause o = record {
  completed_at = to_millis now;
  cause = cause;
  evidence_refs = o.evidence_refs;
}

abbrev pub reverted_payload : ℕ → Option Application → Cause → AdapterOutcome → Payload
reverted_payload now a cause o = record no_payload {
  application = a;
  rollback = some (rollback_of now cause o);
  clear_intent = true;
}

abbrev pub applied_payload : ℕ → String → Payload
applied_payload now ref = record no_payload {
  application = some (record { applied_at = to_millis now; adapter_reference = ref });
  clear_intent = true;
}

abbrev pub verified_payload : ℕ → ℕ → String → AdapterOutcome → Payload
verified_payload now at ref o = record no_payload {
  application = some (record { applied_at = at; adapter_reference = ref });
  verification = some (record { verified_at = to_millis now; evidence_refs = o.evidence_refs });
}

module _ (env : Environment) where
  abbrev pub unverified_payload : ℕ → ℕ → String → AdapterOutcome → AdapterOutcome → Payload
  unverified_payload now at ref o undone = record no_payload {
    application = some (record { applied_at = at; adapter_reference = ref });
    rollback = some (rollback_of now failed_verification undone);
    failure = some (
        failure_payload env now (or_text o.code "VERIFICATION_FAILED")
          (or_text o.message "adapter did not prove containment"));
    clear_intent = true;
  }

  -- `_revert`
  unfoldable pub revert :
      ResponseRecord → ℕ → State → Cause → Method Orchestrator OrchestrationResult
  revert r now terminal cause = do
    ref ← lift (or_raise r.adapter_reference assertion_error "")
    r' ← begin_operation env r revert_operation now
    o ← invoke revert_call r' (some ref) "ADAPTER_OUTCOME_UNKNOWN"
    if proven o
        then (do
          a ← gets (λ s. find_application (events r.response_id s.journal))
          (_, e) ← transition env r' terminal now (reverted_payload now a cause o)
          pure (result r.response_id terminal true e))
        else (do
          (_, e) ← fail_from_outcome env r' now o "ADAPTER_REVERT_FAILED"
          pure (result r.response_id failed false e))

  -- `apply` after the call of the adapter, by the reference that it returned.
  unfoldable pub after_apply :
      ResponseRecord → ℕ → AdapterOutcome → Option String → Method Orchestrator OrchestrationResult
  after_apply r now o none = do
    (_, e) ← fail_from_outcome env r now o "ADAPTER_APPLY_FAILED"
    pure (result r.response_id failed false e)
  after_apply r now o (some ref) = do
    write_back (record r { adapter_reference = some ref })
    (_, e) ←
        transition env (record r { adapter_reference = some ref }) applied now
          (applied_payload now ref)
    pure (result r.response_id applied true e)

  -- `apply` from the intent on.
  unfoldable pub enforce : ResponseRecord → ℕ → Method Orchestrator OrchestrationResult
  enforce r now = do
    r' ← begin_operation env r apply_operation now
    o ← invoke apply_call r' none "APPLICATION_OUTCOME_UNKNOWN"
    after_apply r' now o (usable_reference o)

  -- The reauthorisation at the side effect: the command is validated again, and its target checked.
  unfoldable pub reauthorize : ResponseRecord → ℕ → Result (Unit {0})
  reauthorize r now =
      Pure.◌>>=◌ (validate_command env.lib env.catalog env.authenticate r.command.raw now)
        λ _. assert_target_allowed env.lib env.catalog.protections r.command.action r.command.target

  unfoldable pub reserve : ResponseRecord → ℕ → Method Orchestrator OrchestrationResult
  reserve r now = do
    records ← gets (λ s. s.records)
    lift (assert_target_available env r records)
    ref ← lift (env.recovery_reference r.command)
    refuse_if (str_eq ref "") command_rejected
        "adapter must provide a stable recovery reference before apply"
    write_back (record r { adapter_reference = some ref })
    enforce (record r { adapter_reference = some ref }) now

  -- `except (CommandRejected, PolicyError)`; any other exception goes on to the caller.
  abbrev is_refusal : Kind → Bool
  is_refusal command_rejected = true
  is_refusal policy_error = true
  is_refusal _ = false

  unfoldable pub after_reauthorize :
      ResponseRecord → ℕ → Result (Unit {0}) → Method Orchestrator OrchestrationResult
  after_reauthorize r now (ok u) = reserve r now
  after_reauthorize r now (err x) =
      if is_refusal x.kind
      then (do
        (_, e) ← fail env r now "REAUTHORIZATION_FAILED" "queued command no longer authorized"
        pure (result r.response_id failed false e))
      else lift (err x)

  -- `apply` on the record of the response.
  unfoldable pub apply_known : ResponseRecord → String → ℕ → Method Orchestrator OrchestrationResult
  apply_known r i now = do
    refuse_if (not (is_state requested r)) command_rejected "response is not REQUESTED"
    refuse_if (not r.authorized) command_rejected
        "response submission did not complete authorization"
    refuse_if (is_some r.adapter_reference) command_rejected
        "prior adapter application requires audit reconciliation"
    if leb r.expires_at now
        then (do
          (_, e) ←
              fail env r now "EXPIRED_BEFORE_APPLY"
                "containment TTL elapsed before adapter invocation"
          pure (result i failed false e))
        else after_reauthorize r now (reauthorize r now)

  -- The body of `apply`, which `_serialized` wraps.
  unfoldable pub apply_body : String → ℕ → Method Orchestrator OrchestrationResult
  apply_body i now = do r ← get_record i; apply_known r i now

  unfoldable pub apply : String → ℕ → Method Orchestrator OrchestrationResult
  apply i now = serialized (apply_body i now)

  -- `verify` after evidence: the application is quoted from the audit history.
  unfoldable pub record_verified :
      ResponseRecord → String → ℕ → AdapterOutcome → Method Orchestrator OrchestrationResult
  record_verified r ref now o = do
    at ← applied_at r
    (_, e) ← transition env r verified now (verified_payload now at ref o)
    pure (result r.response_id verified true e)

  -- `verify` without evidence: the action is rolled back, and the failure is kept.
  unfoldable pub roll_back_unverified :
      ResponseRecord → String → ℕ → AdapterOutcome → Method Orchestrator OrchestrationResult
  roll_back_unverified r ref now o = do
    r' ← begin_operation env r revert_operation now
    undone ← invoke revert_call r' (some ref) "ADAPTER_OUTCOME_UNKNOWN"
    if proven undone
        then (do
          at ← applied_at r'
          (_, e) ← transition env r' rolled_back now (unverified_payload now at ref o undone)
          pure (result r.response_id rolled_back false e))
        else (do
          (_, e) ← fail_from_outcome env r' now undone "VERIFY_AND_ROLLBACK_FAILED"
          pure (result r.response_id failed false e))

  -- The body of `verify`, which `_serialized` wraps.
  unfoldable pub verify_body : String → ℕ → Method Orchestrator OrchestrationResult
  verify_body i now = do
    r ← get_record i
    refuse_if (not (is_state applied r)) command_rejected "response is not APPLIED"
    refuse_if (is_some r.pending_operation) command_rejected
        "unfinished adapter operation must be recovered before verification"
    if leb r.expires_at now then revert r now rolled_back ttl_expired else (do
      ref ← lift (or_raise r.adapter_reference assertion_error "")
      o ← invoke verify_call r (some ref) "ADAPTER_OUTCOME_UNKNOWN"
      if proven o then record_verified r ref now o else roll_back_unverified r ref now o)

  unfoldable pub verify : String → ℕ → Method Orchestrator OrchestrationResult
  verify i now = serialized (verify_body i now)

  abbrev pub is_due : ℕ → ResponseRecord → Bool
  is_due now r = reversible r && leb r.expires_at now

  -- The loops of `expire_due` and `recover_pending`, over the records as the call found them.
  abbrev pub terminal_of : ResponseRecord → State
  terminal_of r = if is_state verified r then expired else rolled_back

  unfoldable pub expire_each :
      List ResponseRecord → ℕ → Method Orchestrator (List OrchestrationResult)
  expire_each [] now = pure []
  expire_each (r ∷ rs) now =
      let rest = expire_each rs now in
      if is_due now r
      then (do done ← revert r now (terminal_of r) ttl_expired; others ← rest; pure (done ∷ others))
      else rest

  unfoldable pub expire_due : ℕ → Method Orchestrator (List OrchestrationResult)
  expire_due now = serialized (λ s. expire_each s.records now s)

  unfoldable pub recover_each :
      List ResponseRecord → ℕ → Method Orchestrator (List OrchestrationResult)
  recover_each [] now = pure []
  recover_each (r ∷ rs) now =
      let rest = recover_each rs now in
      if is_some r.pending_operation
      then (do done ← revert r now rolled_back recovery; others ← rest; pure (done ∷ others))
      else rest

  unfoldable pub recover_pending : ℕ → Method Orchestrator (List OrchestrationResult)
  recover_pending now = serialized (λ s. recover_each s.records now s)

  abbrev is_manual : Cause → Bool
  is_manual manual = true
  is_manual recovery = true
  is_manual _ = false

  -- The body of `rollback`, which `_serialized` wraps.
  unfoldable pub rollback_body : String → Cause → ℕ → Method Orchestrator OrchestrationResult
  rollback_body i cause now = do
    refuse_if (not (is_manual cause)) command_rejected
        "manual rollback cause must be manual or recovery"
    r ← get_record i
    refuse_if (not (reversible r)) command_rejected "response cannot be rolled back"
    revert r now rolled_back cause

  unfoldable pub rollback : String → Cause → ℕ → Method Orchestrator OrchestrationResult
  rollback i cause now = serialized (rollback_body i cause now)

  -- `pending_apply` and `awaiting_verification`
  abbrev pub is_queued : ResponseRecord → Bool
  is_queued r =
      is_state requested r
      && (r.authorized && (is_none r.adapter_reference && is_none r.pending_operation))

  abbrev pub is_unverified : ResponseRecord → Bool
  is_unverified r = is_state applied r && is_none r.pending_operation

  unfoldable pub pending_apply : Method Orchestrator (List String)
  pending_apply = serialized (gets (λ s. map (λ r. r.response_id) (filter is_queued s.records)))

  unfoldable pub awaiting_verification : Method Orchestrator (List String)
  awaiting_verification =
      serialized (gets (λ s. map (λ r. r.response_id) (filter is_unverified s.records)))
