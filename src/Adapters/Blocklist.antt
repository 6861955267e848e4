-- ===== src/Adapters/Blocklist.antt =====
-- response/adapters/blocklist.py, `BlocklistAdapter`: an address on the blocklist of every firewall peer.
-- The object is its peers, each with the state behind its client; a method raises only for a command
-- that it does not take, since the errors of the peers become outcomes. Apply and Release have the
-- operations.
use enterprise_netsec_iac.Common.{
  ℕ, ◌+◌, String, not, ◌&&◌, ◌||◌, Option, none, some, List, [], ◌∷◌, map, str_eq, if◌then◌else◌,
  ltb, length, any, Result, ok, error, value_error,
}
use enterprise_netsec_iac.Common.Pure.{◌>>=◌, ◌>>◌, require}
use enterprise_netsec_iac.Value.{Value, Fields, int, get, as_text, as_dict, nonempty_text, or_raise}
use enterprise_netsec_iac.Value.Number.{pos}
use enterprise_netsec_iac.Platform.{Platform}
use enterprise_netsec_iac.Policy.Fields.{all_distinct}
use enterprise_netsec_iac.Validation.{is_text}
use enterprise_netsec_iac.Adapters.{joined}
use enterprise_netsec_iac.Adapters.Client.{BlocklistClient}

-- `SOC_BLOCKLIST_ALIAS` and `BACKSTOP_GRACE_SECONDS`
abbrev pub soc_blocklist_alias : String
soc_blocklist_alias = "SOC_BLOCKLIST"

abbrev pub backstop_grace_seconds : ℕ
backstop_grace_seconds = 300

-- A peer, with what is behind its injected client.
pub record BlocklistPeer (S : Type 0) : Type 0 where
  pub name : String
  pub state : S

-- `_command_address`
unfoldable pub command_address : Platform → Fields → Result String
command_address lib command = do
  target ← or_raise (as_dict (get "target" command)) value_error "block_ip commands for IP targets"
  require (is_text (get "action" command) "block_ip" && is_text (get "type" target) "ip")
      value_error "firewall adapters accept only block_ip commands for IP targets"
  value ← or_raise (as_text (get "value" target)) value_error "must be a string IP address"
  address ← or_raise (lib.ip_address value) value_error "is not an IP address"
  ok (lib.address_text address)

-- `_idempotency_key`
unfoldable pub idempotency_key : Fields → Result String
idempotency_key command =
    or_raise (nonempty_text (get "idempotency_key" command)) value_error
      "firewall command has no idempotency key"

-- `_lifetime`: the backstop of the firewall is the lifetime of the command and the grace time.
abbrev pub seconds_with_grace : Value → Option ℕ
seconds_with_grace (int (pos ttl)) = if ltb 0 ttl then some (ttl + backstop_grace_seconds) else none
seconds_with_grace _ = none

abbrev pub lifetime : Fields → Option ℕ
lifetime command = seconds_with_grace (get "ttl_seconds" command)

-- `", ".join(…)`
abbrev pub comma_separated : List String → String
comma_separated [] = ""
comma_separated (s ∷ []) = s
comma_separated (s ∷ t ∷ ss) = joined (s ∷ ", " ∷ comma_separated (t ∷ ss) ∷ [])

-- The adapter of a name, which `upper` writes in capitals, on clients of one kind.
pub record Firewall (S : Type 0) : Type 0 where
  pub name : String
  pub upper : String → String
  pub client : BlocklistClient S

module _ {S : Type 0} (f : Firewall S) where
  -- `__init__`: the peers that the adapter takes.
  unfoldable pub check_peers : List (BlocklistPeer S) → Result (List (BlocklistPeer S))
  check_peers peers =
      let names = map (λ p. p.name) peers in
      if ltb (length peers) 2 || any (λ n. str_eq n "") names || not (all_distinct names)
      then error value_error "at least two uniquely named firewall peers are required"
      else ok peers

  unfoldable pub recovery_reference : Platform → Fields → Result String
  unfolding command_address idempotency_key
  recovery_reference lib command = do
    address ← command_address lib command
    key ← idempotency_key command
    ok (joined (f.name ∷ "-ha:" ∷ soc_blocklist_alias ∷ ":" ∷ key ∷ []))

  -- `_evidence_ref`
  unfoldable pub evidence_ref : String → String → String → String
  evidence_ref peer operation reference =
      joined
        (f.name ∷ ":" ∷ peer ∷ ":" ∷ soc_blocklist_alias ∷ ":" ∷ operation ∷ ":" ∷ reference ∷ [])
