-- ===== src/Orchestrator/Trail.antt =====
-- What the audit trail of any run of the orchestrator is: a lifecycle per response, with evidence in
-- every event, and append-only. Runs go over any inputs, answers of the adapters, failures of the disk
-- and restarts.
use enterprise_netsec_iac.Common.{
  ℕ, ◌≡◌, ◌∙◌, ap, true, none, some, List, [], ◌∷◌, ◌++◌, All, All-append_one, append_assoc,
  append-nil, sym,
}
use enterprise_netsec_iac.Audit.{
  State, requested, applied, verified, expired, rolled_back, failed, Application, Verification,
  Rollback, Failure, AuditEvent,
}
use enterprise_netsec_iac.Store.{ResponseRecord, Journal}
use enterprise_netsec_iac.Store.Trail.{IsSound, checkpoint-IsSound, checkpoint-audit}
use enterprise_netsec_iac.Orchestrator.Machine.{
  Orchestrator, Environment, Payload, snapshot_of, build_event, moved, has_some,
}
use enterprise_netsec_iac.Orchestrator.Restart.{Input, serve}
use enterprise_netsec_iac.Orchestrator.Steps.{IsBackedBy}
use enterprise_netsec_iac.Orchestrator.Journaled.{JournalStable, serve-journal}

-- What an event of each state carries.
abbrev pub IsEvidenced : AuditEvent → Type 0
IsEvidenced e = elim e.state [
  | requested ↦ Unit {0}
  | applied ↦ (a : Application) × (e.application ≡ some a)
  | verified ↦ (v : Verification) × (e.verification ≡ some v) × (has_some v.evidence_refs ≡ true)
  | expired ↦ (x : Rollback) × (e.rollback ≡ some x) × (has_some x.evidence_refs ≡ true)
  | rolled_back ↦ (x : Rollback) × (e.rollback ≡ some x) × (has_some x.evidence_refs ≡ true)
  | failed ↦ (f : Failure) × (e.failure ≡ some f)
]

build_event-IsEvidenced :
    (r : ResponseRecord) (t : State) (now : ℕ) (p : Payload)
    → IsBackedBy t p
    → IsEvidenced (build_event r t now p)
unfolding build_event
build_event-IsEvidenced r requested now p b = tt
build_event-IsEvidenced r applied now p b = b
build_event-IsEvidenced r verified now p b = b
build_event-IsEvidenced r expired now p b = b
build_event-IsEvidenced r rolled_back now p b = b
build_event-IsEvidenced r failed now p b = b

module _ (env : Environment) where
  IsSound-Stable : JournalStable env IsSound
  IsSound-Stable = record {
    on_note = λ r j c h. checkpoint-IsSound env.lib (snapshot_of r) none j (λ x q. cc) c h;
    on_event = λ r t now p j b c h.
        checkpoint-IsSound env.lib (snapshot_of (moved r t p)) (some (build_event r t now p)) j
          (λ x q. unfold build_event moved in cc) c h;
  }

  -- After any inputs on a journal whose responses each have a lifecycle as their events and at most one
  -- apply intent, the journal still is like this, whatever the adapters answer, whichever commits fail,
  -- and however often the process restarts.
  pub audit_is_lifecycle :
      (xs : List Input) (s : Orchestrator) → IsSound s.journal → IsSound (serve env xs s).journal
  audit_is_lifecycle = serve-journal env IsSound IsSound-Stable

  abbrev AllEvidenced : Journal → Type 0
  AllEvidenced j = All IsEvidenced j.audit

  AllEvidenced-Stable : JournalStable env AllEvidenced
  AllEvidenced-Stable = record {
    on_note = λ r j c h. rw (checkpoint-audit env.lib (snapshot_of r) none j c) h;
    on_event = λ r t now p j b c h.
        rw (checkpoint-audit env.lib (snapshot_of (moved r t p)) (some (build_event r t now p)) j c)
          (All-append_one IsEvidenced j.audit (build_event r t now p) h
            (build_event-IsEvidenced r t now p b));
  }

  -- After any inputs on a journal whose events all carry the evidence of their states, all events of the journal
  -- do: an applied event has an application, a verified one a verification with an evidence reference, an
  -- expired or rolled back one a rollback with an evidence reference, and a failed one a failure.
  pub events_carry_evidence :
      (xs : List Input) (s : Orchestrator)
      → All IsEvidenced s.journal.audit
      → All IsEvidenced (serve env xs s).journal.audit
  events_carry_evidence = serve-journal env AllEvidenced AllEvidenced-Stable

  module _ (old : List AuditEvent) where
    abbrev Extends : Journal → Type 0
    Extends j = (new : List AuditEvent) × (j.audit ≡ old ++ new)

    Extends-Stable : JournalStable env Extends
    Extends-Stable = record {
      on_note = λ r j c (new, e). (new, checkpoint-audit env.lib (snapshot_of r) none j c ∙ e);
      on_event = λ r t now p j b c (new, e). (
        new ++ build_event r t now p ∷ [],
        checkpoint-audit env.lib (snapshot_of (moved r t p)) (some (build_event r t now p)) j c
            ∙ (ap (λ l. l ++ build_event r t now p ∷ []) e
                ∙ append_assoc old new (build_event r t now p ∷ [])),
      );
    }

  -- Any inputs only append events to the audit trail.
  pub audit_is_append_only :
      (xs : List Input) (s : Orchestrator)
      → (new : List AuditEvent) × ((serve env xs s).journal.audit ≡ s.journal.audit ++ new)
  audit_is_append_only xs s =
      serve-journal env (Extends s.journal.audit) (Extends-Stable s.journal.audit) xs s
        ([], sym (append-nil s.journal.audit))
