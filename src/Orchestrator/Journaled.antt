-- ===== src/Orchestrator/Journaled.antt =====
-- Properties of the journal alone: what every committed checkpoint keeps, every run keeps.
use enterprise_netsec_iac.Common.{
  ℕ, String, ◌≡◌, refl, Option, none, some, List, [], ◌∷◌, arith, Result, ok, err,
}
use enterprise_netsec_iac.Common.Keeps.{Keeps, Keeps-then, Keeps-pure, keeps_rules}
use enterprise_netsec_iac.Platform.{to_millis}
use enterprise_netsec_iac.Audit.{State, applied, failed, AuditEvent}
use enterprise_netsec_iac.Store.{ResponseRecord, Journal, checkpoint}
use enterprise_netsec_iac.Orchestrator.Machine.{
  Disk, Orchestrator, Environment, AdapterOutcome, AdapterCall, verify_call, revert_call, Payload,
  failed_payload, failure_payload, snapshot_of, build_event, moved, settle, commit, write_back,
  invoke, transition, begin_operation, fail, fail_from_outcome,
}
use enterprise_netsec_iac.Orchestrator.Operations.{register}
use enterprise_netsec_iac.Orchestrator.Enforcement.{enforce, applied_payload, after_apply}
use enterprise_netsec_iac.Orchestrator.Restart.{Input, restart, serve}
use enterprise_netsec_iac.Orchestrator.Steps.{IsBackedBy, Stable, serve-stable}

-- A commit leaves the journal as it was, or as a successful checkpoint leaves it; if it returns, the
-- latter. It makes no call.
pub data Settled (env : Environment) (r : ResponseRecord) (e : Option AuditEvent)
    (s t : Orchestrator) : Type 0 where
  kept : t.journal ≡ s.journal → Settled env r e s t
  wrote :
      (j : Journal)
      → checkpoint env.lib (snapshot_of r) e s.journal ≡ ok j
      → t.journal ≡ j
      → Settled env r e s t

pub commit-Settled :
    (env : Environment) (r : ResponseRecord) (e : Option AuditEvent) (s : Orchestrator)
    → Settled env r e s (commit env r e s).1
unfolding commit
commit-Settled env r e s = by_checkpoint (checkpoint env.lib (snapshot_of r) e s.journal) refl
  where
    by_checkpoint :
        (c : Result Journal)
        → checkpoint env.lib (snapshot_of r) e s.journal ≡ c
        → Settled env r e s (settle c s).1
    by_checkpoint (err x) q = kept refl
    by_checkpoint (ok j) q =
        elim s.disk as (λ d. Settled env r e s (settle (ok j) (record s { disk = d })).1) [
          | [] ↦ wrote j q refl
          | Disk.works ∷ ds ↦ wrote j q refl
          | Disk.refuses ∷ ds ↦ kept refl
          | Disk.unsure ∷ ds ↦ wrote j q refl
        ]

pub restart-journal : (env : Environment) (s : Orchestrator) → (restart env s).journal ≡ s.journal
unfolding restart
restart-journal env s = ground arith

pub record JournalStable (env : Environment) (Q : Journal → Type 0) : Type 0 where
  pub on_note :
      (r : ResponseRecord) (j : Journal) {j' : Journal}
      → checkpoint env.lib (snapshot_of r) none j ≡ ok j'
      → Q j
      → Q j'
  pub on_event :
      (r : ResponseRecord) (t : State) (now : ℕ) (p : Payload) (j : Journal) {j' : Journal}
      → IsBackedBy t p
      → checkpoint env.lib (snapshot_of (moved r t p)) (some (build_event r t now p)) j ≡ ok j'
      → Q j
      → Q j'

module _ (env : Environment) (Q : Journal → Type 0) (k : JournalStable env Q) where
  abbrev InJournal : Orchestrator → Type 0
  InJournal s = Q s.journal

  note-Keeps : (r : ResponseRecord) → Keeps InJournal (commit env r none)
  note-Keeps r = record { at = λ s h. settled s (commit-Settled env r none s) h }
    where
      settled :
          (s : Orchestrator) {t : Orchestrator} → Settled env r none s t → Q s.journal → Q t.journal
      settled s (kept e) h = rw e h
      settled s (wrote j c e) h = rw e (k.on_note r s.journal c h)

  event-Keeps :
      (r : ResponseRecord) (t : State) (now : ℕ) (p : Payload)
      → IsBackedBy t p
      → Keeps InJournal (commit env (moved r t p) (some (build_event r t now p)))
  event-Keeps r t now p b = record {
    at = λ s h. settled s (commit-Settled env (moved r t p) (some (build_event r t now p)) s) h;
  }
    where
      settled :
          (s : Orchestrator) {u : Orchestrator}
          → Settled env (moved r t p) (some (build_event r t now p)) s u
          → Q s.journal
          → Q u.journal
      settled s (kept e) h = rw e h
      settled s (wrote j c e) h = rw e (k.on_event r t now p s.journal b c h)

  write_back-Keeps : (r : ResponseRecord) → Keeps InJournal (write_back r)
  unfolding write_back
  write_back-Keeps r = record { at = λ s h. h }

  invoke-Keeps :
      (m : AdapterCall) (r : ResponseRecord) (ref : Option String) (c : String)
      → Keeps InJournal (invoke m r ref c)
  unfolding invoke
  invoke-Keeps m r ref c = record { at = λ s h. h }

  transition-Keeps :
      (r : ResponseRecord) (t : State) (now : ℕ) (p : Payload)
      → IsBackedBy t p
      → Keeps InJournal (transition env r t now p)
  unfolding transition
  transition-Keeps r t now p b = Keeps-then _ _ (event-Keeps r t now p b) (
      Keeps-then _ _ (write_back-Keeps (moved r t p))
        (Keeps-pure (moved r t p, build_event r t now p)))

  fail-Keeps : (r : ResponseRecord) (now : ℕ) (c m : String) → Keeps InJournal (fail env r now c m)
  unfolding fail
  fail-Keeps r now c m =
      transition-Keeps r failed now (failed_payload env now c m) (failure_payload env now c m, refl)

  failed-Keeps :
      (r : ResponseRecord) (now : ℕ) (o : AdapterOutcome) (c : String)
      → Keeps InJournal (fail_from_outcome env r now o c)
  unfolding fail_from_outcome
  failed-Keeps r now o c = fail-Keeps r now _ _

  applied-Keeps :
      (r : ResponseRecord) (now : ℕ) (ref : String)
      → Keeps InJournal (transition env r applied now (applied_payload now ref))
  applied-Keeps r now ref =
      transition-Keeps r applied now (applied_payload now ref)
        (record { applied_at = to_millis now; adapter_reference = ref }, refl)

  after_apply-Keeps :
      (r : ResponseRecord) (now : ℕ) (o : AdapterOutcome) (ref : Option String)
      → Keeps InJournal (after_apply env r now o ref)
  unfolding after_apply
  after_apply-Keeps r now o none = search (keeps_rules, failed-Keeps)
  after_apply-Keeps r now o (some ref) = search (keeps_rules, write_back-Keeps, applied-Keeps)

  enforce-Keeps : (r : ResponseRecord) (now : ℕ) → Keeps InJournal (enforce env r now)
  unfolding enforce begin_operation
  enforce-Keeps r now =
      search (keeps_rules, write_back-Keeps, note-Keeps, invoke-Keeps, after_apply-Keeps) depth 9

  journal-Stable : Stable env InJournal
  journal-Stable = record {
    on_write_back = write_back-Keeps;
    on_register = λ r now. unfold register in record { at = λ s h. h };
    on_prune = λ now. record { at = λ s h. h };
    on_commit = note-Keeps;
    on_transition = transition-Keeps;
    on_verify = invoke-Keeps verify_call;
    on_revert = invoke-Keeps revert_call;
    on_enforce = enforce-Keeps;
    on_restart = λ s h. rw (restart-journal env s) h;
  }

  -- What every checkpoint keeps holds of the journal after any inputs.
  pub serve-journal :
      (xs : List Input) (s : Orchestrator) → Q s.journal → Q (serve env xs s).journal
  serve-journal = serve-stable env journal-Stable
