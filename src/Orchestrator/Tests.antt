-- ===== src/Orchestrator/Tests.antt =====
-- Runs of the orchestrator, and each theorem about it at one of them.
use enterprise_netsec_iac.Common.{
  ◌⊎◌, some, ℕ, ◌*◌, String, ◌≡◌, refl, inl, List, [], ◌∷◌, ◌++◌, map, arith, All,
}
use enterprise_netsec_iac.Audit.{State, requested, applied, verified, expired, AuditEvent}
use enterprise_netsec_iac.Store.{checkpoint, requested_since, load}
use enterprise_netsec_iac.Policy.Protection.{assert_target_allowed}
use enterprise_netsec_iac.Validation.{validate_command}
use enterprise_netsec_iac.Orchestrator.Enforcement.{
  apply, apply_body, apply_known, verify, verify_body, expire_due, expire_each, after_reauthorize,
  reauthorize, reserve, enforce, after_apply, record_verified, applied_at, revert,
}
use enterprise_netsec_iac.Store.Trail.{IsSound}
use enterprise_netsec_iac.Platform.{second}
use enterprise_netsec_iac.Fixtures.{toy_environment, toy_command, success}
use enterprise_netsec_iac.Orchestrator.Machine.{
  Orchestrator, works, unsure, raised, response_id_of, find_record, transition, commit, build_event,
  moved, write_back, get_record, begin_operation, invoke, find_application,
}
use enterprise_netsec_iac.Orchestrator.Operations.{
  submit, submit_body, submit_known, accept_new, register, authorize, after_protection, admit,
  assert_target_available,
}
use enterprise_netsec_iac.Orchestrator.Restart.{
  Input, submit_input, apply_input, verify_input, expire_input, recover_input, restart_input, serve,
  fresh, serve_one, restart, start, check_snapshots, check_snapshot,
}
use enterprise_netsec_iac.Orchestrator.Trail.{
  IsEvidenced, audit_is_lifecycle, events_carry_evidence, audit_is_append_only,
}
use enterprise_netsec_iac.Store.{ResponseRecord}
use enterprise_netsec_iac.Orchestrator.Authorized.{
  IsPermitted, apply_needs_permission, submit_is_quiet,
}
use enterprise_netsec_iac.Orchestrator.Once.{IsCovered, applied_at_most_once}

abbrev now : ℕ
now = 1001 * second

abbrev the_response : String
the_response = "resp-#key-1"

abbrev ready : Orchestrator
ready = fresh (success ∷ success ∷ success ∷ []) []

-- The whole life of a containment, which ends at its expiry.
abbrev whole_life : List Input
whole_life =
    submit_input toy_command now
    ∷ apply_input the_response now
    ∷ verify_input the_response now
    ∷ restart_input
    ∷ expire_input (1400 * second)
    ∷ []

abbrev states_of : List AuditEvent → List State
states_of = map (λ e. e.state)

whole_life_states :
    states_of (serve toy_environment whole_life ready).journal.audit
    ≡ requested ∷ applied ∷ verified ∷ expired ∷ []
unfolding serve serve_one submit submit_body apply apply_body apply_known verify verify_body
    expire_due expire_each restart start validate_command response_id_of submit_known accept_new
    transition commit build_event moved checkpoint register write_back authorize after_protection
    assert_target_allowed requested_since admit get_record after_reauthorize reauthorize reserve
    assert_target_available enforce begin_operation invoke after_apply record_verified applied_at
    find_application load check_snapshots check_snapshot revert
whole_life_states = refl

-- The answer of the application is lost with the process, and the command comes again.
abbrev stormy : List Input
stormy =
    submit_input toy_command now
    ∷ apply_input the_response now
    ∷ restart_input
    ∷ submit_input toy_command now
    ∷ apply_input the_response now
    ∷ recover_input now
    ∷ []

abbrev lossy : Orchestrator
lossy = fresh (raised ∷ success ∷ []) (works ∷ works ∷ works ∷ unsure ∷ [])

fresh_IsSound : IsSound ready.journal
fresh_IsSound = record { trail = λ i. inl refl; once = λ i. omega arith }

audit_is_lifecycle_example : IsSound (serve toy_environment whole_life ready).journal
audit_is_lifecycle_example = audit_is_lifecycle toy_environment whole_life ready fresh_IsSound

events_carry_evidence_example :
    All IsEvidenced (serve toy_environment whole_life ready).journal.audit
events_carry_evidence_example = events_carry_evidence toy_environment whole_life ready tt

audit_is_append_only_example :
    (new : List AuditEvent) × ((serve toy_environment whole_life ready).journal.audit
      ≡ ready.journal.audit ++ new)
audit_is_append_only_example = audit_is_append_only toy_environment whole_life ready

applied_at_most_once_example : IsCovered the_response (serve toy_environment stormy lossy)
applied_at_most_once_example =
    applied_at_most_once toy_environment the_response stormy lossy (omega arith, omega arith)

submit_is_quiet_example : (submit toy_environment toy_command now ready).1.calls ≡ ready.calls
submit_is_quiet_example = submit_is_quiet toy_environment toy_command now ready

-- After its submission the response is in the state for an application.
abbrev submitted : Orchestrator
submitted = serve toy_environment (submit_input toy_command now ∷ []) ready

apply_needs_permission_example :
    ((apply toy_environment the_response now submitted).1.calls ≡ submitted.calls)
    ⊎ ((r : ResponseRecord) × (find_record the_response submitted.records ≡ some r)
        × IsPermitted toy_environment r now)
apply_needs_permission_example = apply_needs_permission toy_environment the_response now submitted
