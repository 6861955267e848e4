-- ===== src/Orchestrator/Operations.antt =====
-- response/orchestrator/engine.py: the public operations of `ResponseOrchestrator`, statement by
-- statement. A `now` is the instant of the call in microseconds; `_serialized` refuses every call once
-- a commit has failed.
use enterprise_netsec_iac.Common.{
  ℕ, ◌+◌, ◌-◌, ◌*◌, String, Bool, true, false, not, ◌&&◌, ◌||◌, Option, none, some, List, [], ◌∷◌,
  ◌++◌, str_eq, if◌then◌else◌, filter, ltb, is_some, is_none, Kind, Result, ok, err, error,
  command_rejected, runtime_error, value_error, Method, pure, raise, lift, gets, modify, ◌>>=◌,
  ◌>>◌,
}
use enterprise_netsec_iac.Common.Pure
use enterprise_netsec_iac.Value.{Value}
use enterprise_netsec_iac.Platform.{second}
use enterprise_netsec_iac.Policy.Protection.{ip, host, assert_target_allowed}
use enterprise_netsec_iac.Validation.{validate_command}
use enterprise_netsec_iac.Audit.{
  State, requested, applied, verified, failed, Command, AuditEvent, same_state, same_action,
}
use enterprise_netsec_iac.Store.{ResponseRecord, latest, requested_since}
use enterprise_netsec_iac.Orchestrator.Machine.{
  Dedup, Orchestrator, Environment, OrchestrationResult, result, response_id_of, find_record,
  get_record, write_back, no_payload, transition, fail, commit,
}

abbrev pub is_state : State → ResponseRecord → Bool
is_state s r = same_state r.state s

-- A record that `expire_due` and `rollback` may still reverse.
abbrev pub recoverable : ResponseRecord → Bool
recoverable r = is_some r.pending_operation || (is_state failed r && is_some r.adapter_reference)

abbrev pub reversible : ResponseRecord → Bool
reversible r = is_state applied r || (is_state verified r || recoverable r)

abbrev find_dedup : String → List Dedup → Option Dedup
find_dedup k [] = none
find_dedup k (d ∷ ds) = if str_eq d.key k then some d else find_dedup k ds

-- `_prune_dedup`
abbrev pub prune : ℕ → List Dedup → List Dedup
prune now = filter (λ d. ltb now d.until)

-- The response that a key stands for already, by the cache or by the records.
abbrev pub duplicate_of : String → String → Orchestrator → Option String
duplicate_of key i s = elim (find_dedup key s.dedup) [
  | some d ↦ some d.response_id
  | none ↦ if is_some (find_record i s.records) then some i else none
]

abbrev pub to_option {ℓ} : {A : Type ℓ} → Result A → Option A
to_option (ok a) = some a
to_option (err e) = none

-- `if …: raise`
abbrev pub refuse_if : Bool → Kind → String → Method Orchestrator (Unit {0})
refuse_if b k m = lift (Pure.refuse b k m)

abbrev pub serialized : {A : Type 0} → Method Orchestrator A → Method Orchestrator A
serialized m s =
    if s.storage_failed then raise runtime_error "response persistence failed" s else m s

module _ (env : Environment) where
  -- The canonical identity of a contained target.
  unfoldable pub identity : Command → Result String
  identity c = elim c.target.type [
    | host ↦ ok (env.lib.lower (env.lib.strip c.target.value))
    | ip ↦ elim (env.lib.ip_address c.target.value) [
      | none ↦ error value_error "not an IP address"
      | some a ↦ ok (env.lib.address_text a)
    ]
  ]

  unfoldable pub same_identity : Command → Command → Result Bool
  same_identity a b =
      Pure.◌>>=◌ (identity a)
        λ x. Pure.◌>>=◌ (identity b) λ y. ok (same_action a.action b.action && str_eq x y)

  -- Whether another record holds its target: an unfinished operation, an active containment, or a
  -- failure after an apply was begun.
  abbrev pub holds_target : ResponseRecord → Bool
  holds_target r = recoverable r || (is_state applied r || is_state verified r)

  -- `_assert_target_available`
  unfoldable pub assert_target_available : ResponseRecord → List ResponseRecord → Result (Unit {0})
  assert_target_available r [] = ok tt
  assert_target_available r (o ∷ os) =
      let rest = assert_target_available r os in
      if str_eq o.response_id r.response_id || not (holds_target o)
      then rest
      else Pure.◌>>=◌ (same_identity o.command r.command) λ same.
        if same
        then error command_rejected "target has an active or unresolved containment operation"
        else rest

  -- The two checks of `submit` on a response that has been recorded as requested, and its admission.
  unfoldable pub admit :
      ResponseRecord → AuditEvent → ℕ → ℕ → Method Orchestrator OrchestrationResult
  admit r event now submissions =
      if ltb env.catalog.rate_limit.max_actions submissions
      then (do
        (_, e) ←
            fail env r now "RATE_LIMITED"
              "automatic response rate limit reached; no adapter was invoked"
        pure (result r.response_id failed false e))
      else (do
        write_back (record r { authorized = true })
        commit env (record r { authorized = true }) none
        pure (result r.response_id requested true event))

  unfoldable pub after_protection :
      ResponseRecord → AuditEvent → ℕ → Option (Unit {0}) → Method Orchestrator OrchestrationResult
  after_protection r event now none = do
    (_, e) ← fail env r now "TARGET_PROTECTED" "target protection"
    pure (result r.response_id failed false e)
  after_protection r event now (some _) = do
    submissions ← gets (λ s.
        requested_since r.command.policy_id (now - env.catalog.rate_limit.window_seconds * second)
          s.journal)
    admit r event now submissions

  unfoldable pub authorize :
      ResponseRecord → AuditEvent → ℕ → Method Orchestrator OrchestrationResult
  authorize r event now = after_protection r event now (
      to_option
        (assert_target_allowed env.lib env.catalog.protections r.command.action r.command.target))

  abbrev pub new_record : Command → String → ℕ → ResponseRecord
  new_record c i now = record {
    response_id = i;
    command = c;
    expires_at = now + c.ttl_seconds * second;
    state = requested;
    transition_number = 0;
    adapter_reference = none;
    authorized = false;
    pending_operation = none;
    operation_started_at = none;
  }

  -- `self._records[response_id] = record` and `self._dedup[idempotency_key] = …`
  unfoldable pub register : ResponseRecord → ℕ → Method Orchestrator (Unit {0})
  register r now = modify λ s. record s {
    records = s.records ++ r ∷ [];
    dedup =
        s.dedup
        ++ record {
          key = r.command.idempotency_key;
          response_id = r.response_id;
          until = now + env.catalog.dedup_seconds * second;
        }
          ∷ [];
  }

  unfoldable pub duplicate_result : String → Method Orchestrator OrchestrationResult
  duplicate_result i = do
    r ← get_record i
    e ← gets (λ s. latest i s.journal)
    pure (record {
      response_id = i;
      state = r.state;
      accepted = r.authorized && (not (is_state failed r) && is_none r.pending_operation);
      deduplicated = true;
      audit_event = e;
    })

  unfoldable pub accept_new : Command → String → ℕ → Method Orchestrator OrchestrationResult
  accept_new c i now = do
    (r, event) ← transition env (new_record c i now) requested now no_payload
    register r now
    authorize r event now

  -- A key that is known does not begin a second response.
  unfoldable pub submit_known :
      Command → String → ℕ → Option String → Method Orchestrator OrchestrationResult
  submit_known c i now none = accept_new c i now
  submit_known c i now (some j) = duplicate_result j

  -- The body of `submit`, which `_serialized` wraps.
  unfoldable pub submit_body : Value → ℕ → Method Orchestrator OrchestrationResult
  submit_body command now = do
    c ← lift (validate_command env.lib env.catalog env.authenticate command now)
    modify (λ s. record s { dedup = prune now s.dedup })
    let i = response_id_of env c.idempotency_key
    known ← gets (duplicate_of c.idempotency_key i)
    submit_known c i now known

  unfoldable pub submit : Value → ℕ → Method Orchestrator OrchestrationResult
  submit command now = serialized (submit_body command now)
