-- ===== src/Features/Endpoint.antt =====
-- ai/features/engine.py, `_endpoint_features`: the counts of one host's window.
use Prim.Native.String.{◌++◌ as concat}
use enterprise_netsec_iac.Common.{
  ℕ, String, Bool, false, not, ◌&&◌, ◌||◌, Option, none, some, List, [], ◌∷◌, str_eq, any, filter,
  count, length, contains, ◌++◌,
}
use enterprise_netsec_iac.Value.{Value, null}
use enterprise_netsec_iac.Platform.{Platform}
use enterprise_netsec_iac.Features.Events.{Python, nested, categories}
use enterprise_netsec_iac.Features.Network.{lower_of, is_failed_login}

pub record EndpointFeatures : Type 0 where
  pub process_count : ℕ
  pub rare_process_count : ℕ
  pub powershell_count : ℕ
  pub failed_login_count : ℕ
  pub fim_change_count : ℕ
  pub account_change_count : ℕ
  pub privilege_change_count : ℕ

module _ (lib : Platform) (py : Python) where
  abbrev lowered : Value → List String
  lowered null = []
  lowered v = lib.lower (py.text_of v) ∷ []

  -- `" ".join(…)`
  abbrev spaced : List String → String
  spaced [] = ""
  spaced (s ∷ []) = s
  spaced (s ∷ t ∷ ss) = concat s (concat " " (spaced (t ∷ ss)))

  -- `_event_action_text`
  unfoldable pub event_action_text : Value → String
  event_action_text event = spaced (
      lowered (nested ("event" ∷ "action" ∷ []) event)
      ++ lowered (nested ("process" ∷ "name" ∷ []) event)
      ++ lowered (nested ("process" ∷ "command_line" ∷ []) event)
      ++ lowered (nested ("rule" ∷ "description" ∷ []) event))

  abbrev pub mentions : List String → Value → Bool
  mentions tokens event = any (λ t. py.has_part t (event_action_text event)) tokens

  abbrev pub in_category : String → Value → Bool
  in_category name event = contains name (categories py event)

  -- The rare processes by definition, and those outside the baseline, if there is one.
  abbrev pub is_rare : List String → Option (List String) → Value → Bool
  is_rare rare baseline event =
      let name = lower_of lib py (nested ("process" ∷ "name" ∷ []) event) in
      not (str_eq name "")
      && (contains name rare
          || elim baseline [ none ↦ false | some known ↦ not (contains name known) ])

  unfoldable pub endpoint_features :
      List String → Option (List String) → List Value → EndpointFeatures
  unfolding event_action_text
  endpoint_features rare baseline events =
      let processes = filter (in_category "process") events in
      record {
        process_count = length processes;
        rare_process_count = count (is_rare rare baseline) processes;
        powershell_count = count (mentions ("powershell" ∷ "pwsh" ∷ [])) processes;
        failed_login_count = count (is_failed_login lib py) events;
        fim_change_count = count (in_category "file") events;
        account_change_count =
            count (mentions ("account" ∷ "useradd" ∷ "usermod" ∷ "userdel" ∷ [])) events;
        privilege_change_count =
            count (mentions ("privilege" ∷ "sudo" ∷ "setuid" ∷ "capability" ∷ [])) events;
      }
