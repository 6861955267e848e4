-- ===== src/Service/Tests.antt =====
-- The service on a new store, and each theorem at one run.
use enterprise_netsec_iac.Common.{
  ℕ, List, [], ◌∷◌, ◌≡◌, ◌≤◌, ◌*◌, refl, true, false, some, none, ok,
}
use enterprise_netsec_iac.Audit.{AuditEvent, requested}
use enterprise_netsec_iac.Platform.{second}
use enterprise_netsec_iac.Fixtures.{toy_environment, toy_command, success}
use enterprise_netsec_iac.Orchestrator.Restart.{fresh}
use enterprise_netsec_iac.Policy.Protection.{ip, block_ip}
use enterprise_netsec_iac.Service.{
  Service, Delivery, ServiceMode, undelivered, created, enforce, observe, no_report, export,
  ExportReport,
}
use enterprise_netsec_iac.Service.Observed.{
  Request, accept_request, tick_request, serve_requests, unmarked, observe_changes_nothing,
}
use enterprise_netsec_iac.Service.Exported.{export_delivers}

abbrev service_in : ServiceMode → List Delivery → Service
service_in mode answers = record {
  orchestrator = fresh (success ∷ success ∷ []) [];
  mode = mode;
  has_exporter = true;
  recover_every = 6;
  ticks = 0;
  started = false;
  counters = record { accepted = 0; rejected = 0; recovered = 0; lifecycle = no_report };
  last_export = record { delivered = 0; blocked = none };
  answers = answers;
  documents = [];
}

abbrev noon : ℕ
noon = 1001 * second

abbrev one_command : List Request
one_command = accept_request toy_command noon ∷ tick_request noon ∷ []

observe_changes_nothing_example :
    unmarked (serve_requests toy_environment one_command (service_in observe [])).orchestrator
    ≡ unmarked (fresh (success ∷ success ∷ []) [])
observe_changes_nothing_example =
    observe_changes_nothing toy_environment one_command (service_in observe []) (tt, (tt, tt)) refl

-- An event of a trail, for the exporter.
abbrev event_number : ℕ → AuditEvent
event_number n = record {
  timestamp = noon;
  response_id = "resp-1";
  transition_number = n;
  policy_id = "COR-001";
  idempotency_key = "key-1";
  target = record { type = ip; value = "203.0.113.9" };
  action = block_ip;
  state = requested;
  previous_state = none;
  expires_at = noon;
  application = none;
  verification = none;
  rollback = none;
  failure = none;
  action_intent = none;
}

-- Three events wait; the third document is refused.
abbrev three_waiting : Service
three_waiting =
    let s = service_in enforce (created ∷ created ∷ undelivered "HTTP_503" ∷ []) in
    record s {
      orchestrator = record s.orchestrator {
        journal = record s.orchestrator.journal {
          audit = event_number 1 ∷ event_number 2 ∷ event_number 3 ∷ [];
        };
      };
    }

abbrev two_delivered : ExportReport
two_delivered = record { delivered = 2; blocked = some "HTTP_503" }

third_refused : (export 200 three_waiting).0 ≡ ok two_delivered
unfolding export
third_refused = refl

export_delivers_example :
    ((export 200 three_waiting).1.documents ≡ event_number 1 ∷ event_number 2 ∷ []) × (2 ≤ 200)
unfolding export
export_delivers_example = export_delivers 200 three_waiting {r = two_delivered} refl
