-- ===== src/Adapters/Endpoint.antt =====
-- response/adapters/wazuh.py: which endpoint a command is about, and the references that name it.
use enterprise_netsec_iac.Common.Pure.{◌>>=◌, ◌>>◌, require}
use enterprise_netsec_iac.Common.{String, Result, ok, value_error, ◌&&◌, ◌∷◌}
use enterprise_netsec_iac.Adapters.{joined, []}
use enterprise_netsec_iac.Value.{Fields, or_raise, as_dict, get, nonempty_text}
use enterprise_netsec_iac.Validation.{is_text}

abbrev pub isolate_action : String
isolate_action = "cxyz-isolate-endpoint"

abbrev pub recover_action : String
recover_action = "cxyz-restore-endpoint"

abbrev pub wazuh_ref : String → String → String
wazuh_ref action reference = joined ("wazuh:" ∷ action ∷ ":" ∷ reference ∷ [])

-- `_command_host`: the host and the identity of the operation.
unfoldable pub command_host : Fields → Result (String × String)
command_host command = do
  target ← or_raise (as_dict (get "target" command)) value_error "isolate_host for host targets"
  require (is_text (get "action" command) "isolate_host" && is_text (get "type" target) "host")
      value_error "Wazuh adapter accepts only isolate_host commands for host targets"
  host ←
      or_raise (nonempty_text (get "value" target)) value_error
        "Wazuh command lacks host or correlation identity"
  operation ←
      or_raise (nonempty_text (get "idempotency_key" command)) value_error
        "Wazuh command lacks host or correlation identity"
  ok (host, operation)

unfoldable pub recovery_reference : Fields → Result String
unfolding command_host
recovery_reference command = do who ← command_host command; ok (wazuh_ref isolate_action who.1)
