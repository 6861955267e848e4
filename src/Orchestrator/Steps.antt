-- ===== src/Orchestrator/Steps.antt =====
-- From the steps of the orchestrator to its runs: a property of the journal and of the adapter calls
-- that every step keeps holds after any inputs. `Stable` names the steps, and is what a proof of such a
-- property supplies.
use enterprise_netsec_iac.Common.{
  arith, ◌⊎◌, inl, inr, ℕ, String, ◌≡◌, refl, Bool, true, false, Option, none, some, List, [], ◌∷◌,
  Result, ok, err, Method, raise, runtime_error, modify, if◌then◌else◌,
}
use enterprise_netsec_iac.Common.Keeps.{
  Keeps, Keeps-bind, Keeps-then, Keeps-lift, Keeps-if, keeps_rules,
}
use enterprise_netsec_iac.Value.{Value}
use enterprise_netsec_iac.Platform.{to_millis}
use enterprise_netsec_iac.Audit.{
  State, Operation, revert_operation, ttl_expired, failed_verification, recovery, requested,
  applied, verified, expired, rolled_back, failed, Cause, AuditEvent, Command, Application,
  Verification, Rollback, Failure,
}
use enterprise_netsec_iac.Store.{ResponseRecord}
use enterprise_netsec_iac.Orchestrator.Machine.{
  Orchestrator, Environment, AdapterOutcome, verify_call, revert_call, Payload, no_payload,
  has_some, proven, failure_payload, failed_payload, commit, get_record, write_back, invoke,
  transition, begin_operation, fail, fail_from_outcome,
}
use enterprise_netsec_iac.Orchestrator.Operations.{
  serialized, prune, register, admit, after_protection, authorize, submit_known, new_record,
  accept_new, duplicate_result, submit, submit_body,
}
use enterprise_netsec_iac.Orchestrator.Enforcement.{
  terminal_of, rollback_of, reverted_payload, verified_payload, unverified_payload, applied_at,
  revert, enforce, reserve, after_reauthorize, apply, apply_body, apply_known, verify_body,
  rollback_body, record_verified, roll_back_unverified, verify, expire_each, expire_due,
  recover_each, recover_pending, rollback,
}
use enterprise_netsec_iac.Orchestrator.Restart.{
  Input, submit_input, apply_input, verify_input, rollback_input, expire_input, recover_input,
  restart_input, restart, serve_one, serve,
}

-- What the payload of a transition into a state must hold.
abbrev pub IsBackedBy : State → Payload → Type 0
IsBackedBy applied p = (a : Application) × (p.application ≡ some a)
IsBackedBy verified p =
    (v : Verification) × (p.verification ≡ some v) × (has_some v.evidence_refs ≡ true)
IsBackedBy expired p = (x : Rollback) × (p.rollback ≡ some x) × (has_some x.evidence_refs ≡ true)
IsBackedBy rolled_back p =
    (x : Rollback) × (p.rollback ≡ some x) × (has_some x.evidence_refs ≡ true)
IsBackedBy failed p = (f : Failure) × (p.failure ≡ some f)
IsBackedBy requested p = Unit

pub record Stable (env : Environment) (P : Orchestrator → Type 0) : Type 0 where
  pub on_write_back : (r : ResponseRecord) → Keeps P (write_back r)
  pub on_register : (r : ResponseRecord) (now : ℕ) → Keeps P (register env r now)
  pub on_prune : (now : ℕ) → Keeps P (modify (λ s. record s { dedup = prune now s.dedup }))
  pub on_commit : (r : ResponseRecord) → Keeps P (commit env r none)
  pub on_transition :
      (r : ResponseRecord) (t : State) (now : ℕ) (p : Payload)
      → IsBackedBy t p
      → Keeps P (transition env r t now p)
  pub on_verify :
      (r : ResponseRecord) (ref : Option String) (c : String) → Keeps P (invoke verify_call r ref c)
  pub on_revert :
      (r : ResponseRecord) (ref : Option String) (c : String) → Keeps P (invoke revert_call r ref c)
  pub on_enforce : (r : ResponseRecord) (now : ℕ) → Keeps P (enforce env r now)
  pub on_restart : (s : Orchestrator) → P s → P (restart env s)

module _ (env : Environment) {P : Orchestrator → Type 0} (k : Stable env P) where
  open k use {
    on_write_back, on_register, on_prune, on_commit, on_transition, on_verify, on_revert,
    on_enforce, on_restart,
  }

  fail-Keeps : (r : ResponseRecord) (now : ℕ) (c m : String) → Keeps P (fail env r now c m)
  unfolding fail
  fail-Keeps r now c m =
      on_transition r failed now (failed_payload env now c m) (failure_payload env now c m, refl)

  fail_from_outcome-Keeps :
      (r : ResponseRecord) (now : ℕ) (o : AdapterOutcome) (c : String)
      → Keeps P (fail_from_outcome env r now o c)
  unfolding fail_from_outcome
  fail_from_outcome-Keeps r now o c = fail-Keeps r now _ _

  begin_operation-Keeps :
      (r : ResponseRecord) (o : Operation) (now : ℕ) → Keeps P (begin_operation env r o now)
  unfolding begin_operation
  begin_operation-Keeps r o now = search (keeps_rules, on_write_back, on_commit)

  get_record-Keeps : (i : String) → Keeps P (get_record i)
  unfolding get_record
  get_record-Keeps i = record { at = λ s h. h }

  applied_at-Keeps : (r : ResponseRecord) → Keeps P (applied_at r)
  unfolding applied_at
  applied_at-Keeps r = search keeps_rules

  proven-has_some : (o : AdapterOutcome) → proven o ≡ true → has_some o.evidence_refs ≡ true
  proven-has_some o h = ground arith

  abbrev IsUndone : State → Type 0
  IsUndone t = (t ≡ rolled_back) ⊎ (t ≡ expired)

  undone-IsBackedBy :
      (t : State) (p : Payload) (x : Rollback)
      → IsUndone t
      → p.rollback ≡ some x
      → has_some x.evidence_refs ≡ true
      → IsBackedBy t p
  undone-IsBackedBy t p x (inl e) q h = rw e (x, q, h)
  undone-IsBackedBy t p x (inr e) q h = rw e (x, q, h)

  reverted-Keeps :
      (r : ResponseRecord) (now : ℕ) (t : State) (c : Cause)
      → IsUndone t
      → (a : Option Application) (o : AdapterOutcome) → proven o ≡ true
      → Keeps P (transition env r t now (reverted_payload now a c o))
  reverted-Keeps r now t c u a o good = on_transition r t now (reverted_payload now a c o) (
      undone-IsBackedBy t (reverted_payload now a c o) (rollback_of now c o) u refl
        (proven-has_some o good))

  revert-Keeps :
      (r : ResponseRecord) (now : ℕ) (t : State) (c : Cause)
      → IsUndone t
      → Keeps P (revert env r now t c)
  unfolding revert
  revert-Keeps r now t c u = Keeps-bind _ _ (Keeps-lift _) λ ref.
      Keeps-bind _ _ (begin_operation-Keeps r revert_operation now) λ r'.
        Keeps-bind _ _ (on_revert r' (some ref) "ADAPTER_OUTCOME_UNKNOWN") λ o.
          Keeps-if (proven o) _ _
            (λ good.
              search
                (keeps_rules, λ (a : Option Application). reverted-Keeps r' now t c u a o good))
            (λ bad. search (keeps_rules, fail_from_outcome-Keeps))

  reserve-Keeps : (r : ResponseRecord) (now : ℕ) → Keeps P (reserve env r now)
  unfolding reserve
  reserve-Keeps r now = search (keeps_rules, on_write_back, on_enforce) depth 9

  after_reauthorize-Keeps :
      (r : ResponseRecord) (now : ℕ) (x : Result (Unit {0}))
      → Keeps P (after_reauthorize env r now x)
  unfolding after_reauthorize
  after_reauthorize-Keeps r now (ok u) = reserve-Keeps r now
  after_reauthorize-Keeps r now (err x) = search (keeps_rules, fail-Keeps)

  serialized-Keeps : {A : Type 0} (m : Method Orchestrator A) → Keeps P m → Keeps P (serialized m)
  serialized-Keeps m km = record { at = λ s h. open_or_not s.storage_failed m km s h }
    where
      open_or_not :
          {A : Type 0} (b : Bool) (m : Method Orchestrator A)
          → Keeps P m
          → (s : Orchestrator) → P s
          → P (if b then raise runtime_error "response persistence failed" s else m s).1
      open_or_not true m km s h = h
      open_or_not false m km s h = km.at s h

  apply-Keeps : (i : String) (now : ℕ) → Keeps P (apply env i now)
  unfolding apply apply_body apply_known
  apply-Keeps i now =
      serialized-Keeps (apply_body env i now)
        (search (keeps_rules, get_record-Keeps, fail-Keeps, after_reauthorize-Keeps) depth 12)

  record_verified-Keeps :
      (r : ResponseRecord) (ref : String) (now : ℕ) (o : AdapterOutcome)
      → proven o ≡ true
      → Keeps P (record_verified env r ref now o)
  unfolding record_verified
  record_verified-Keeps r ref now o good = search (
    keeps_rules,
    applied_at-Keeps,
    λ (at : ℕ). on_transition r verified now (verified_payload now at ref o) (
      record { verified_at = to_millis now; evidence_refs = o.evidence_refs },
      refl,
      proven-has_some o good,
    ),
  )

  unverified-Keeps :
      (r : ResponseRecord) (ref : String) (now : ℕ) (o undone : AdapterOutcome)
      → proven undone ≡ true
      → (at : ℕ)
      → Keeps P (transition env r rolled_back now (unverified_payload env now at ref o undone))
  unverified-Keeps r ref now o undone good at =
      on_transition r rolled_back now (unverified_payload env now at ref o undone)
        (rollback_of now failed_verification undone, refl, proven-has_some undone good)

  roll_back_unverified-Keeps :
      (r : ResponseRecord) (ref : String) (now : ℕ) (o : AdapterOutcome)
      → Keeps P (roll_back_unverified env r ref now o)
  unfolding roll_back_unverified
  roll_back_unverified-Keeps r ref now o =
      Keeps-bind _ _ (begin_operation-Keeps r revert_operation now) λ r'.
        Keeps-bind _ _ (on_revert r' (some ref) "ADAPTER_OUTCOME_UNKNOWN") λ undone.
          Keeps-if (proven undone) _ _
            (λ good.
              search (keeps_rules, applied_at-Keeps, unverified-Keeps r' ref now o undone good))
            (λ bad. search (keeps_rules, fail_from_outcome-Keeps))

  verify-Keeps : (i : String) (now : ℕ) → Keeps P (verify env i now)
  unfolding verify verify_body
  verify-Keeps i now = serialized-Keeps (verify_body env i now) (
      search
        (
          keeps_rules,
          get_record-Keeps,
          on_verify,
          record_verified-Keeps,
          roll_back_unverified-Keeps,
          λ (r : ResponseRecord). revert-Keeps r now rolled_back ttl_expired (inl refl),
        )
        depth 12)

  rollback-Keeps : (i : String) (c : Cause) (now : ℕ) → Keeps P (rollback env i c now)
  unfolding rollback rollback_body
  rollback-Keeps i c now = serialized-Keeps (rollback_body env i c now) (
      search
        (
          keeps_rules,
          get_record-Keeps,
          λ (r : ResponseRecord). revert-Keeps r now rolled_back c (inl refl),
        )
        depth 12)

  terminal_lem : (r : ResponseRecord) → IsUndone (terminal_of env r)
  terminal_lem r = ground arith

  expire_each-Keeps : (rs : List ResponseRecord) (now : ℕ) → Keeps P (expire_each env rs now)
  unfolding expire_each
  expire_each-Keeps [] now = search keeps_rules
  expire_each-Keeps (r ∷ rs) now = search (
    keeps_rules,
    revert-Keeps r now (terminal_of env r) ttl_expired (terminal_lem r),
    expire_each-Keeps rs now,
  )

  recover_each-Keeps : (rs : List ResponseRecord) (now : ℕ) → Keeps P (recover_each env rs now)
  unfolding recover_each
  recover_each-Keeps [] now = search keeps_rules
  recover_each-Keeps (r ∷ rs) now =
      search
        (keeps_rules, revert-Keeps r now rolled_back recovery (inl refl), recover_each-Keeps rs now)

  admit-Keeps : (r : ResponseRecord) (e : AuditEvent) (now n : ℕ) → Keeps P (admit env r e now n)
  unfolding admit
  admit-Keeps r e now n = search (keeps_rules, fail-Keeps, on_write_back, on_commit) depth 9

  after_protection-Keeps :
      (r : ResponseRecord) (e : AuditEvent) (now : ℕ) (o : Option (Unit {0}))
      → Keeps P (after_protection env r e now o)
  unfolding after_protection
  after_protection-Keeps r e now none = search (keeps_rules, fail-Keeps)
  after_protection-Keeps r e now (some _) = search (keeps_rules, admit-Keeps)

  authorize-Keeps :
      (r : ResponseRecord) (e : AuditEvent) (now : ℕ) → Keeps P (authorize env r e now)
  unfolding authorize
  authorize-Keeps r e now = after_protection-Keeps r e now _

  submit_known-Keeps :
      (c : Command) (i : String) (now : ℕ) (o : Option String)
      → Keeps P (submit_known env c i now o)
  unfolding submit_known accept_new duplicate_result
  submit_known-Keeps c i now none =
      Keeps-bind _ _ (on_transition (new_record env c i now) requested now no_payload tt)
        λ x. Keeps-then _ _ (on_register x.0 now) (authorize-Keeps x.0 x.1 now)
  submit_known-Keeps c i now (some j) = search (keeps_rules, get_record-Keeps)

  submit-Keeps : (c : Value) (now : ℕ) → Keeps P (submit env c now)
  unfolding submit submit_body
  submit-Keeps c now =
      serialized-Keeps (submit_body env c now)
        (search (keeps_rules, on_prune, submit_known-Keeps) depth 9)

  serve_one-stable : (x : Input) (s : Orchestrator) → P s → P (serve_one env x s)
  unfolding serve_one expire_due recover_pending
  serve_one-stable (submit_input c now) s h = (submit-Keeps c now).at s h
  serve_one-stable (apply_input i now) s h = (apply-Keeps i now).at s h
  serve_one-stable (verify_input i now) s h = (verify-Keeps i now).at s h
  serve_one-stable (rollback_input i c now) s h = (rollback-Keeps i c now).at s h
  serve_one-stable (expire_input now) s h =
      (serialized-Keeps (λ t. expire_each env t.records now t)
          (record { at = λ t g. (expire_each-Keeps t.records now).at t g })).at
        s h
  serve_one-stable (recover_input now) s h =
      (serialized-Keeps (λ t. recover_each env t.records now t)
          (record { at = λ t g. (recover_each-Keeps t.records now).at t g })).at
        s h
  serve_one-stable restart_input s h = on_restart s h

  -- A stable property holds after any inputs.
  pub serve-stable : (xs : List Input) (s : Orchestrator) → P s → P (serve env xs s)
  unfolding serve
  serve-stable [] s h = h
  serve-stable (x ∷ xs) s h = serve-stable xs (serve_one env x s) (serve_one-stable x s h)
