-- ===== src/Adapters/Wazuh.antt =====
-- response/adapters/wazuh.py: the isolation of an endpoint, through a client with two installed responses.
-- The client's state is the endpoint side, and its methods are arguments.
use enterprise_netsec_iac.Common.{
  String, Bool, true, false, [], ◌∷◌, Result, ok, err, Method, lift, ◌>>=◌, pure, returning, ◌≡◌,
  ◌↔◌, arith,
}
use enterprise_netsec_iac.Value.{Fields}
use enterprise_netsec_iac.Orchestrator.Machine.{AdapterOutcome}
use enterprise_netsec_iac.Adapters.Endpoint.{
  command_host, recovery_reference, wazuh_ref, isolate_action, recover_action,
}
use enterprise_netsec_iac.Adapters.Client.{succeeded}
use enterprise_netsec_iac.Adapters.{success, failure}

-- `WazuhControlledResponseClient`
pub record WazuhClient (S : Type 0) : Type 0 where
  pub start_isolation : String → String → Method S String
  pub isolation_is_enforced : String → String → Method S Bool
  pub restore_isolation : String → String → Method S String
  pub isolation_is_removed : String → String → Method S Bool

module _ {S : Type 0} (client : WazuhClient S) where
  -- The outcome of `apply`, after the call.
  abbrev apply_outcome : String → Result String → AdapterOutcome
  apply_outcome own (err e) =
      failure "WAZUH_ISOLATE_FAILED" "controlled Wazuh isolation request failed" []
  apply_outcome own (ok reference) = success own (wazuh_ref isolate_action reference ∷ [])

  unfoldable pub apply : Fields → Method S AdapterOutcome
  unfolding command_host recovery_reference
  apply command = do
    who ← lift (command_host command)
    own ← lift (recovery_reference command)
    returning (λ s.
        let (answer, s') = client.start_isolation who.0 who.1 s in (apply_outcome own answer, s'))

  abbrev verify_outcome : String → Result Bool → AdapterOutcome
  verify_outcome own (err e) =
      failure "WAZUH_ISOLATE_VERIFY_ERROR" "cannot verify controlled Wazuh isolation" []
  verify_outcome own (ok false) =
      failure "WAZUH_ISOLATE_VERIFY_FAILED" "Wazuh did not prove endpoint isolation" []
  verify_outcome own (ok true) = success own (wazuh_ref isolate_action "verified" ∷ [])

  unfoldable pub verify : Fields → String → Method S AdapterOutcome
  unfolding command_host
  verify command own = do
    who ← lift (command_host command)
    returning (λ s.
        let (answer, s') = client.isolation_is_enforced who.0 who.1 s in
        (verify_outcome own answer, s'))

  abbrev revert_outcome : String → Result (String × Bool) → AdapterOutcome
  revert_outcome own (err e) = failure "WAZUH_RECOVER_FAILED" "controlled Wazuh recovery failed" []
  revert_outcome own (ok (reference, false)) =
      failure "WAZUH_RECOVER_VERIFY_FAILED" "Wazuh did not prove endpoint recovery" []
  revert_outcome own (ok (reference, true)) =
      success own (wazuh_ref recover_action reference ∷ wazuh_ref recover_action "verified" ∷ [])

  unfoldable pub restore : String → String → Method S (String × Bool)
  restore host operation = do
    reference ← client.restore_isolation host operation
    gone ← client.isolation_is_removed host operation
    pure (reference, gone)

  unfoldable pub revert : Fields → String → Method S AdapterOutcome
  unfolding command_host restore
  revert command own = do
    who ← lift (command_host command)
    returning (λ s. let (answer, s') = restore who.0 who.1 s in (revert_outcome own answer, s'))

  module _ (command : Fields) (host operation : String)
      (is_host : command_host command ≡ ok (host, operation)) (own : String) (s : S) where
    -- A verification succeeds exactly when the client, asked about the operation of the command on its
    -- host, answers that the isolation is enforced; a reversal succeeds exactly when the client has
    -- taken the isolation back and, asked after that, answers that it is gone.
    pub isolation_outcome_iff :
        {v r : AdapterOutcome}
        → (verify command own s).0 ≡ ok v
        → (revert command own s).0 ≡ ok r
        → ((v.ok ≡ true) ↔ ((client.isolation_is_enforced host operation s).0 ≡ ok true))
          × ((r.ok ≡ true) ↔ (
              (succeeded (client.restore_isolation host operation s).0 ≡ true)
              × ((client.isolation_is_removed host operation
                    (client.restore_isolation host operation s).1).0
                  ≡ ok true)))
    unfolding verify revert restore
    isolation_outcome_iff e e' = ground (arith, is_host)
