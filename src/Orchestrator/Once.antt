-- ===== src/Orchestrator/Once.antt =====
-- Nothing is applied twice: the intent of an application is committed, once for ever, before the
-- adapter is called.
use enterprise_netsec_iac.Common.{
  ℕ, suc, ◌+◌, if◌then◌else◌, ◌≤◌, String, ◌≡◌, refl, Bool, true, false, ◌&&◌, Option, none, some,
  List, [], ◌∷◌, arith, count, count-append, str_eq, eq_iff, Result, ok, err, Method, ◌>>=◌,
}
use enterprise_netsec_iac.Common.Keeps.{
  Keeps, Ensures, Ensures-bind, ensured, >>-pure-ok, keeps_rules,
}
use enterprise_netsec_iac.Audit.{State, failed, AuditEvent, apply_operation}
use enterprise_netsec_iac.Store.{ResponseRecord, Journal, checkpoint}
use enterprise_netsec_iac.Store.Trail.{intents_of, checkpoint-intents, checkpoint-new_intent}
use enterprise_netsec_iac.Orchestrator.Machine.{
  Disk, Orchestrator, Environment, OrchestrationResult, AdapterOutcome, AdapterCall, apply_call,
  verify_call, revert_call, Payload, put, snapshot_of, settle, commit, write_back, invoke,
  transition, begin_operation, fail, fail_from_outcome, started,
}
use enterprise_netsec_iac.Orchestrator.Operations.{register}
use enterprise_netsec_iac.Orchestrator.Enforcement.{enforce, usable_reference, after_apply}
use enterprise_netsec_iac.Orchestrator.Restart.{Input, restart, serve}
use enterprise_netsec_iac.Orchestrator.Steps.{Stable, serve-stable}
use enterprise_netsec_iac.Orchestrator.Journaled.{
  Settled, kept, wrote, commit-Settled, restart-journal,
}

abbrev is_apply_call : AdapterCall → Bool
is_apply_call apply_call = true
is_apply_call _ = false

-- How often an adapter was asked to apply a response.
abbrev pub applies_of : String → Orchestrator → ℕ
applies_of i s = count (λ c. is_apply_call c.method && str_eq c.response_id i) s.calls

-- No more applications of a response than intents, and at most one intent.
abbrev pub IsCovered : String → Orchestrator → Type 0
IsCovered i s = (applies_of i s ≤ intents_of i s.journal) × (intents_of i s.journal ≤ 1)

settle-calls : (c : Result Journal) (s : Orchestrator) → (settle c s).1.calls ≡ s.calls
settle-calls (err e) s = refl
settle-calls (ok j) s =
    elim s.disk as (λ d. (settle (ok j) (record s { disk = d })).1.calls ≡ s.calls) [
      | [] ↦ refl
      | Disk.works ∷ ds ↦ refl
      | Disk.refuses ∷ ds ↦ refl
      | Disk.unsure ∷ ds ↦ refl
    ]

pub commit-calls :
    (env : Environment) (r : ResponseRecord) (e : Option AuditEvent) (s : Orchestrator)
    → (commit env r e s).1.calls ≡ s.calls
unfolding commit
commit-calls env r e s = settle-calls (checkpoint env.lib (snapshot_of r) e s.journal) s

restart-calls : (env : Environment) (s : Orchestrator) → (restart env s).calls ≡ s.calls
unfolding restart
restart-calls env s = ground arith

settle-ok :
    (c : Result Journal) (s : Orchestrator)
    → (settle c s).0 ≡ ok tt
    → (j : Journal) × (c ≡ ok j) × ((settle c s).1.journal ≡ j)
settle-ok (err e) s h = cc
settle-ok (ok j) s h = works s.disk h
  where
    works :
        (d : List Disk)
        → (settle (ok j) (record s { disk = d })).0 ≡ ok tt
        → (k : Journal) × (Result.ok j ≡ ok k)
          × ((settle (ok j) (record s { disk = d })).1.journal ≡ k)
    works [] h = (j, refl, refl)
    works (Disk.works ∷ ds) h = (j, refl, refl)
    works (Disk.refuses ∷ ds) h = cc
    works (Disk.unsure ∷ ds) h = cc

commit-ok :
    (env : Environment) (r : ResponseRecord) (e : Option AuditEvent) (s : Orchestrator)
    → (commit env r e s).0 ≡ ok tt
    → (j : Journal) × (checkpoint env.lib (snapshot_of r) e s.journal ≡ ok j)
      × ((commit env r e s).1.journal ≡ j)
unfolding commit
commit-ok env r e s h = settle-ok (checkpoint env.lib (snapshot_of r) e s.journal) s h

module _ (env : Environment) (i : String) where
  abbrev Covered : Orchestrator → Type 0
  Covered s = IsCovered i s

  commit-Keeps : (r : ResponseRecord) (e : Option AuditEvent) → Keeps Covered (commit env r e)
  commit-Keeps r e = record {
    at = λ s h. settled s (commit-Settled env r e s) (commit-calls env r e s) h;
  }
    where
      settled :
          (s : Orchestrator) {t : Orchestrator}
          → Settled env r e s t
          → t.calls ≡ s.calls
          → Covered s
          → Covered t
      settled s (kept j) c h = rw (c, j) h
      settled s (wrote j w q) c (few, least) =
          let (more, once) = checkpoint-intents env.lib (snapshot_of r) e s.journal w i least in
          rw (c, q) (omega (arith, few, more), once)

  write_back-Keeps : (r : ResponseRecord) → Keeps Covered (write_back r)
  unfolding write_back
  write_back-Keeps r = record { at = λ s h. h }

  calls-append :
      (m : AdapterCall) (r : ResponseRecord) (ref : Option String) (c : String) (s : Orchestrator)
      → applies_of i (invoke m r ref c s).1
        ≡ applies_of i s + (if is_apply_call m && str_eq r.response_id i then 1 else 0)
  unfolding invoke
  calls-append m r ref c s = ground (
    arith,
    count-append (λ c. is_apply_call c.method && str_eq c.response_id i) s.calls
        (record { method = m; response_id = r.response_id; reference = ref } ∷ []),
  )

  invoke-journal :
      (m : AdapterCall) (r : ResponseRecord) (ref : Option String) (c : String) (s : Orchestrator)
      → (invoke m r ref c s).1.journal ≡ s.journal
  unfolding invoke
  invoke-journal m r ref c s = refl

  invoke-Keeps :
      (m : AdapterCall) (r : ResponseRecord) (ref : Option String) (c : String)
      → is_apply_call m ≡ false
      → Keeps Covered (invoke m r ref c)
  invoke-Keeps m r ref c other = record {
    at = λ s h. ground (arith, calls-append m r ref c s, invoke-journal m r ref c s);
  }

  transition-Keeps :
      (r : ResponseRecord) (t : State) (now : ℕ) (p : Payload)
      → Keeps Covered (transition env r t now p)
  unfolding transition
  transition-Keeps r t now p = search (keeps_rules, commit-Keeps, write_back-Keeps)

  fail-Keeps : (r : ResponseRecord) (now : ℕ) (c m : String) → Keeps Covered (fail env r now c m)
  unfolding fail
  fail-Keeps r now c m = transition-Keeps r failed now _

  failed-Keeps :
      (r : ResponseRecord) (now : ℕ) (o : AdapterOutcome) (c : String)
      → Keeps Covered (fail_from_outcome env r now o c)
  unfolding fail_from_outcome
  failed-Keeps r now o c = fail-Keeps r now _ _

  after_apply-Keeps :
      (r : ResponseRecord) (now : ℕ) (o : AdapterOutcome) (ref : Option String)
      → Keeps Covered (after_apply env r now o ref)
  unfolding after_apply
  after_apply-Keeps r now o none = search (keeps_rules, failed-Keeps)
  after_apply-Keeps r now o (some ref) = search (keeps_rules, write_back-Keeps, transition-Keeps)

  -- One more application is covered by an intent.
  abbrev IsReserved : ResponseRecord → Orchestrator → Type 0
  IsReserved r s =
      Covered s × (str_eq r.response_id i ≡ true → suc (applies_of i s) ≤ intents_of i s.journal)

  commit-IsReserved :
      (r : ResponseRecord) (s : Orchestrator)
      → r.pending_operation ≡ some apply_operation
      → Covered s
      → (commit env r none s).0 ≡ ok tt
      → IsReserved r (commit env r none s).1
  commit-IsReserved r s pending h done =
      let (j, written, at) = commit-ok env r none s done in
      let (before, after) =
        checkpoint-new_intent env.lib (snapshot_of r) s.journal pending written in
      (
        (commit-Keeps r none).at s h,
        λ mine.
            let same : r.response_id ≡ i = ground (arith, eq_iff r.response_id i) in
            let none_yet : intents_of i s.journal ≡ 0 = rw (← same) before in
            let one : intents_of i (commit env r none s).1.journal ≡ 1 =
              rw at (rw (← same) after) in
            rw (commit-calls env r none s) (omega (arith, h.0, none_yet, one)),
      )

  begin_operation-Ensures :
      (r : ResponseRecord) (now : ℕ)
      → Ensures Covered IsReserved (begin_operation env r apply_operation now)
  unfolding begin_operation write_back
  begin_operation-Ensures r now = record {
    keeps = search (keeps_rules, write_back-Keeps, commit-Keeps);
    gives = λ s h a e.
        let s' : Orchestrator = record s {
          records = put (started r apply_operation now) s.records;
        } in
        let (done, same, final) =
          >>-pure-ok (commit env (started r apply_operation now) none) _ s' e in
        rw (final, ← same) (commit-IsReserved (started r apply_operation now) s' refl h done);
  }

  apply-Covered :
      (r : ResponseRecord) (c : String) (s : Orchestrator)
      → IsReserved r s
      → Covered (invoke apply_call r none c s).1
  apply-Covered r c s (h, more) =
      ground (arith, calls-append apply_call r none c s, invoke-journal apply_call r none c s)

  -- `enforce` after the intent.
  abbrev attempt : ℕ → ResponseRecord → Method Orchestrator OrchestrationResult
  attempt now r =
      ◌>>=◌ (invoke apply_call r none "APPLICATION_OUTCOME_UNKNOWN")
        (λ o. after_apply env r now o (usable_reference o))

  attempt-Covered :
      (r : ResponseRecord) (now : ℕ) (s : Orchestrator)
      → IsReserved r s
      → Covered (attempt now r s).1
  attempt-Covered r now s h =
      let called = apply-Covered r "APPLICATION_OUTCOME_UNKNOWN" s h in
      ensured Covered (invoke apply_call r none "APPLICATION_OUTCOME_UNKNOWN" s).0
        (λ o. after_apply env r now o (usable_reference o))
        (invoke apply_call r none "APPLICATION_OUTCOME_UNKNOWN" s).1 called
        (λ o _.
          (after_apply-Keeps r now o (usable_reference o)).at
            (invoke apply_call r none "APPLICATION_OUTCOME_UNKNOWN" s).1 called)

  enforce-Keeps : (r : ResponseRecord) (now : ℕ) → Keeps Covered (enforce env r now)
  unfolding enforce
  enforce-Keeps r now =
      Ensures-bind {Q = IsReserved} (begin_operation env r apply_operation now) (attempt now)
        (begin_operation-Ensures r now) (λ r' s h. attempt-Covered r' now s h)

  Covered-Stable : Stable env Covered
  Covered-Stable = record {
    on_write_back = write_back-Keeps;
    on_register = λ r now. unfold register in record { at = λ s h. h };
    on_prune = λ now. record { at = λ s h. h };
    on_commit = λ r. commit-Keeps r none;
    on_transition = λ r t now p b. transition-Keeps r t now p;
    on_verify = λ r ref c. invoke-Keeps verify_call r ref c refl;
    on_revert = λ r ref c. invoke-Keeps revert_call r ref c refl;
    on_enforce = enforce-Keeps;
    on_restart = λ s h. rw (restart-journal env s, restart-calls env s) h;
  }

  -- If every response has at most one apply intent and no more applications than intents, this is so
  -- after any inputs, whatever the adapters answer, whichever commits fail, and however often the
  -- process restarts: an adapter is never asked twice to apply a response.
  pub applied_at_most_once :
      (xs : List Input) (s : Orchestrator) → IsCovered i s → IsCovered i (serve env xs s)
  applied_at_most_once = serve-stable env Covered-Stable
