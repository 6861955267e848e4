-- ===== src/Service.antt =====
-- response/service/runner.py: `ResponseService`, which takes commands in and drives the orchestrator, and
-- `AuditExporter`, which delivers its events. The clock's instants are arguments; Elasticsearch is the
-- answers it will give, with the trace of the documents that it took. Locks and texts are not modelled.
pub mod Observed
pub mod Exported
mod Tests
use enterprise_netsec_iac.Common.{
  ℕ, ◌+◌, ◌%◌, max, String, Bool, true, false, not, Option, none, some, List, [], ◌∷◌, ◌++◌, ◌==◌,
  if◌then◌else◌, Result, ok, err, error, runtime_error, command_rejected, Method, pure, lift, gets,
  modify, ◌>>=◌, ◌>>◌, length, zero, suc, Kind,
}
use enterprise_netsec_iac.Value.{Value}
use enterprise_netsec_iac.Audit.{State, applied, verified, rolled_back, AuditEvent}
use enterprise_netsec_iac.Store.{unexported_events, mark_exported}
use enterprise_netsec_iac.Orchestrator.Machine.{Orchestrator, Environment, OrchestrationResult}
use enterprise_netsec_iac.Orchestrator.Operations.{submit}
use enterprise_netsec_iac.Orchestrator.Enforcement.{
  apply, verify, expire_due, recover_pending, pending_apply, awaiting_verification,
}

pub data ServiceMode : Type 0 where
  observe enforce : ServiceMode

-- What `create` comes to: the document is there, a `DeliveryError` with its code, another exception.
pub data Delivery : Type 0 where
  created broken : Delivery
  undelivered : String → Delivery

pub record ExportReport : Type 0 where
  pub delivered : ℕ
  pub blocked : Option String

pub record Report : Type 0 where
  pub applied_count : ℕ
  pub verified_count : ℕ
  pub reverted_count : ℕ
  pub failed_count : ℕ

pub record Counters : Type 0 where
  pub accepted : ℕ
  pub rejected : ℕ
  pub recovered : ℕ
  pub lifecycle : Report

pub record Service : Type 0 where
  pub orchestrator : Orchestrator
  pub mode : ServiceMode
  pub has_exporter : Bool
  pub recover_every : ℕ
  pub ticks : ℕ
  pub started : Bool
  pub counters : Counters
  pub last_export : ExportReport
  pub answers : List Delivery
  pub documents : List AuditEvent

abbrev pub no_report : Report
no_report = record { applied_count = 0; verified_count = 0; reverted_count = 0; failed_count = 0 }

-- A call of the orchestrator.
abbrev pub orchestrate : {A : Type 0} → Method Orchestrator A → Method Service A
orchestrate m s = let (r, o) = m s.orchestrator in (r, record s { orchestrator = o })

abbrev pub next_answer : List Delivery → Delivery
next_answer [] = created
next_answer (d ∷ ds) = d

abbrev pub later_answers : List Delivery → List Delivery
later_answers [] = []
later_answers (d ∷ ds) = ds

abbrev pub first_events : ℕ → List AuditEvent → List AuditEvent
first_events zero es = []
first_events (suc n) [] = []
first_events (suc n) (e ∷ es) = e ∷ first_events n es

-- The body of the loop of `export` after a document was taken.
unfoldable pub mark_document : AuditEvent → Service → Service
unfolding mark_exported
mark_document e s = record s {
  orchestrator = record s.orchestrator { journal = mark_exported e s.orchestrator.journal };
  documents = s.documents ++ e ∷ [];
}

-- The loop of `AuditExporter.export`.
unfoldable pub export_each : List AuditEvent → ℕ → Method Service ExportReport
unfolding mark_document
export_each [] n s = (ok (record { delivered = n; blocked = none }), s)
export_each (e ∷ es) n s =
    let s' = record s { answers = later_answers s.answers } in
    elim (next_answer s.answers) [
      | created ↦ export_each es (n + 1) (mark_document e s')
      | undelivered code ↦ (ok (record { delivered = n; blocked = some code }), s')
      | broken ↦ (error runtime_error "unexpected response", s')
    ]

unfoldable pub export : ℕ → Method Service ExportReport
unfolding export_each unexported_events
export limit s = export_each (first_events limit (unexported_events s.orchestrator.journal)) 0 s

module _ (env : Environment) where
  unfoldable pub start : ℕ → Method Service (Unit {0})
  start now = do
    recovered ← orchestrate (recover_pending env now)
    modify (λ s. record s {
      counters = record s.counters { recovered = s.counters.recovered + length recovered };
      started = true;
    })

  -- The answer of `accept`, without its texts.
  pub record Acceptance : Type 0 where
    pub accepted : Bool
    pub state : Option State

  abbrev pub count_rejected : Service → Service
  count_rejected s = record s {
    counters = record s.counters { rejected = s.counters.rejected + 1 };
  }

  abbrev count_answer : Bool → Service → Service
  count_answer true s = record s {
    counters = record s.counters { accepted = s.counters.accepted + 1 };
  }
  count_answer false s = count_rejected s

  -- What `accept` makes of the submission: only `CommandRejected` is an answer.
  abbrev pub answer_submission : Result OrchestrationResult → Service → Result Acceptance × Service
  answer_submission (ok r) s =
      (ok (record { accepted = r.accepted; state = some r.state }), count_answer r.accepted s)
  answer_submission (err e) s = elim e.kind [
    | command_rejected ↦ (ok (record { accepted = false; state = none }), count_rejected s)
    | _ ↦ (err e, s)
  ]

  unfoldable pub accept : Value → ℕ → Method Service Acceptance
  accept command now s = elim s.mode [
    | observe ↦ (ok (record { accepted = false; state = none }), count_rejected s)
    | enforce ↦
        if not s.started
        then (error runtime_error "service has not completed startup recovery", s)
        else (let (r, s') = orchestrate (submit env command now) s in answer_submission r s')
  ]

  abbrev count_applied : State → Report → Report
  count_applied applied r = record r { applied_count = r.applied_count + 1 }
  count_applied _ r = record r { failed_count = r.failed_count + 1 }

  abbrev count_verified : State → Report → Report
  count_verified verified r = record r { verified_count = r.verified_count + 1 }
  count_verified rolled_back r = record r { reverted_count = r.reverted_count + 1 }
  count_verified _ r = record r { failed_count = r.failed_count + 1 }

  abbrev pub count_reverted : List OrchestrationResult → Report → Report
  count_reverted [] r = r
  count_reverted (o ∷ os) r = count_reverted os (
      if o.accepted
      then record r { reverted_count = r.reverted_count + 1 }
      else record r { failed_count = r.failed_count + 1 })

  unfoldable pub apply_each : ℕ → List String → Report → Method Service Report
  apply_each now [] report = pure report
  apply_each now (i ∷ is) report = do
    outcome ← orchestrate (apply env i now)
    apply_each now is (count_applied outcome.state report)

  unfoldable pub verify_each : ℕ → List String → Report → Method Service Report
  verify_each now [] report = pure report
  verify_each now (i ∷ is) report = do
    outcome ← orchestrate (verify env i now)
    verify_each now is (count_verified outcome.state report)

  -- `if self._ticks % self._recover_every == 0`
  unfoldable pub recover_sometimes : ℕ → Report → Method Service Report
  recover_sometimes now report = do
    modify (λ s. record s { ticks = s.ticks + 1 })
    due ← gets (λ s. s.ticks % s.recover_every == 0)
    if due
        then (do
          outcomes ← orchestrate (recover_pending env now)
          pure (count_reverted outcomes report))
        else pure report

  -- The lifecycle work of one pass.
  unfoldable pub lifecycle_pass : ℕ → Method Service Report
  unfolding apply_each verify_each recover_sometimes
  lifecycle_pass now = do
    waiting ← orchestrate (pending_apply env)
    report ← apply_each now waiting no_report
    unverified ← orchestrate (awaiting_verification env)
    report ← verify_each now unverified report
    expired ← orchestrate (expire_due env now)
    recover_sometimes now (count_reverted expired report)

  abbrev pub add_report : Report → Service → Service
  add_report r s =
      let old = s.counters.lifecycle in
      record s {
        counters = record s.counters {
          lifecycle = record {
            applied_count = old.applied_count + r.applied_count;
            verified_count = old.verified_count + r.verified_count;
            reverted_count = old.reverted_count + r.reverted_count;
            failed_count = old.failed_count + r.failed_count;
          };
        };
      }

  abbrev pub export_error : ExportReport
  export_error = record { delivered = 0; blocked = some "EXPORT_ERROR" }

  -- An export that raises is noted, and stops nothing.
  unfoldable pub export_safely : Service → Service
  unfolding export
  export_safely s =
      let (r, s') = export 200 s in
      if s.has_exporter
      then elim r [
        | ok report ↦ record s' { last_export = report }
        | err e ↦ record s' { last_export = export_error }
      ]
      else s

  unfoldable pub pass_for : ServiceMode → ℕ → Method Service Report
  unfolding lifecycle_pass
  pass_for observe now = pure no_report
  pass_for enforce now = lifecycle_pass now

  unfoldable pub tick : ℕ → Method Service Report
  unfolding pass_for export_safely
  tick now = do
    mode ← gets (λ s. s.mode)
    report ← pass_for mode now
    modify (add_report report)
    modify export_safely
    pure report
