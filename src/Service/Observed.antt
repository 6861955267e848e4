-- ===== src/Service/Observed.antt =====
-- response/service/runner.py: what a service in observe mode does to its orchestrator.
use enterprise_netsec_iac.Common.{
  if◌then◌else◌, ℕ, ◌≡◌, refl, Bool, true, false, List, [], ◌∷◌, ok, err, Result, All, arith, ◌+◌,
  error, runtime_error, ◌∙◌, some,
}
use enterprise_netsec_iac.Value.{Value}
use enterprise_netsec_iac.Audit.{AuditEvent}
use enterprise_netsec_iac.Store.{mark_exported}
use enterprise_netsec_iac.Orchestrator.Machine.{Orchestrator, Environment}
use enterprise_netsec_iac.Service.{
  Service, Delivery, created, broken, undelivered, observe, enforce, start, accept, tick, pass_for,
  export_safely, export, export_each, mark_document, ExportReport, ServiceMode, later_answers,
  next_answer, export_error,
}

-- What may be asked of the service.
pub data Request : Type 0 where
  start_request tick_request : ℕ → Request
  accept_request : Value → ℕ → Request

unfoldable pub serve_request : Environment → Request → Service → Service
unfolding start accept tick
serve_request env (start_request now) s = (start env now s).1
serve_request env (tick_request now) s = (tick env now s).1
serve_request env (accept_request c now) s = (accept env c now s).1

unfoldable pub serve_requests : Environment → List Request → Service → Service
unfolding serve_request
serve_requests env [] s = s
serve_requests env (r ∷ rs) s = serve_requests env rs (serve_request env r s)

-- A request other than the recovery at the start.
abbrev pub IsWork : Request → Type 0
IsWork (start_request now) = ⊥
IsWork _ = Unit

-- An orchestrator but for the marks of what was exported.
abbrev pub unmarked : Orchestrator → Orchestrator
unmarked o = record o { journal = record o.journal { exported = [] } }

-- The service observes, and has the orchestrator `o`, which only marks may tell from its own.
record IsIdle (o : Orchestrator) (s : Service) : Type 0 where
  observing : s.mode ≡ observe
  same : unmarked s.orchestrator ≡ unmarked o

mark_exported-unmarked :
    (e : AuditEvent) (o : Orchestrator)
    → unmarked (record o { journal = mark_exported e o.journal }) ≡ unmarked o
unfolding mark_exported
mark_exported-unmarked e o = ground arith

module _ (env : Environment) (o : Orchestrator) where
  mark_document-IsIdle : (e : AuditEvent) (s : Service) → IsIdle o s → IsIdle o (mark_document e s)
  unfolding mark_document
  mark_document-IsIdle e s h = record {
    observing = h.observing;
    same = mark_exported-unmarked e s.orchestrator ∙ h.same;
  }

  export_each-IsIdle :
      (es : List AuditEvent) (n : ℕ) (s : Service) → IsIdle o s → IsIdle o (export_each es n s).1
  unfolding export_each mark_document
  export_each-IsIdle [] n s h = h
  export_each-IsIdle (e ∷ es) n s h = answered (next_answer s.answers) (
      export_each-IsIdle es (n + 1) _
        (mark_document-IsIdle e _ (record { observing = h.observing; same = h.same })))
    where
      answered :
          (d : Delivery)
          → IsIdle o
              (export_each es
                (n + 1)
                (mark_document e (record s { answers = later_answers s.answers }))).1
          → IsIdle o
              (elim d as (λ x. Result ExportReport × Service) [
                | created ↦
                    export_each es
                      (n + 1)
                      (mark_document e (record s { answers = later_answers s.answers }))
                | undelivered code ↦ (
                  ok (record { delivered = n; blocked = some code }),
                  record s { answers = later_answers s.answers },
                )
                | broken ↦ (
                  error runtime_error "unexpected response",
                  record s { answers = later_answers s.answers },
                )
              ]).1
      answered created g = g
      answered (undelivered code) g = record { observing = h.observing; same = h.same }
      answered broken g = record { observing = h.observing; same = h.same }

  IsIdle-if :
      (test : Bool) (a b : Service) → IsIdle o a → IsIdle o b → IsIdle o (if test then a else b)
  IsIdle-if true a b h g = h
  IsIdle-if false a b h g = g

  noted :
      (r : Result ExportReport) (s : Service)
      → IsIdle o s
      → IsIdle o (elim r as (λ x. Service) [
        | ok report ↦ record s { last_export = report }
        | err e ↦ record s { last_export = export_error env }
      ])
  noted (ok report) s h = record { observing = h.observing; same = h.same }
  noted (err e) s h = record { observing = h.observing; same = h.same }

  export_safely-IsIdle : (s : Service) → IsIdle o s → IsIdle o (export_safely env s)
  unfolding export_safely export
  export_safely-IsIdle s h =
      IsIdle-if s.has_exporter _ s
        (noted (export 200 s).0 (export 200 s).1 (export_each-IsIdle _ 0 s h)) h

  tick-IsIdle : (now : ℕ) (s : Service) → IsIdle o s → IsIdle o (tick env now s).1
  unfolding tick pass_for
  tick-IsIdle now s h = ticked s.mode h.observing
    where
      ticked :
          (mode : ServiceMode)
          → mode ≡ observe
          → IsIdle o (tick env now (record s { mode = mode })).1
      ticked observe e = export_safely-IsIdle _ (record { observing = refl; same = h.same })
      ticked enforce e = cc

  accept-IsIdle : (c : Value) (now : ℕ) (s : Service) → IsIdle o s → IsIdle o (accept env c now s).1
  unfolding accept
  accept-IsIdle c now s h = accepted s.mode h.observing
    where
      accepted :
          (mode : ServiceMode)
          → mode ≡ observe
          → IsIdle o (accept env c now (record s { mode = mode })).1
      accepted observe e = record { observing = refl; same = h.same }
      accepted enforce e = cc

  serve_requests-IsIdle :
      (rs : List Request) (s : Service)
      → All IsWork rs
      → IsIdle o s
      → IsIdle o (serve_requests env rs s)
  unfolding serve_requests serve_request
  serve_requests-IsIdle [] s work h = h
  serve_requests-IsIdle (start_request now ∷ rs) s (work, later) h = elim work [ ]
  serve_requests-IsIdle (tick_request now ∷ rs) s (work, later) h =
      serve_requests-IsIdle rs _ later (tick-IsIdle now s h)
  serve_requests-IsIdle (accept_request c now ∷ rs) s (work, later) h =
      serve_requests-IsIdle rs _ later (accept-IsIdle c now s h)

-- A service in observe mode calls no adapter and changes no record, no event, no intent and no admission,
-- whatever commands it is given and however often its scheduler runs: its orchestrator stays as it was, but
-- for the marks of exported events.
pub observe_changes_nothing :
    (env : Environment) (rs : List Request) (s : Service)
    → All IsWork rs
    → s.mode ≡ observe
    → unmarked (serve_requests env rs s).orchestrator ≡ unmarked s.orchestrator
observe_changes_nothing env rs s work observing =
    (serve_requests-IsIdle env s.orchestrator rs s work
      (record { observing = observing; same = refl })).same
