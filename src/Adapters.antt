-- ===== src/Adapters.antt =====
-- response/adapters/: what carries out a command on the firewalls or on an endpoint, and answers with an
-- outcome. base.py has the outcome and what an adapter offers the orchestrator; its children follow
-- blocklist.py (Client, Blocklist) and wazuh.py (Wazuh). Owned joins the blocklist to the client of
-- response/transports/ownership.py.
use Prim.Native.String.{◌++◌ as concat}
use enterprise_netsec_iac.Common.{String, true, false, none, some, List, [], ◌∷◌}
use enterprise_netsec_iac.Orchestrator.Machine.{AdapterOutcome}
pub mod Client
pub mod Blocklist
pub mod Apply
pub mod Release
pub mod Applied
pub mod Reverted
pub mod Owned
pub mod Spared
pub mod Endpoint
pub mod Wazuh
mod Tests

abbrev pub success : String → List String → AdapterOutcome
success reference refs = record {
  ok = true;
  adapter_reference = some reference;
  evidence_refs = refs;
  code = none;
  message = none;
}

abbrev pub failure : String → String → List String → AdapterOutcome
failure c m refs = record {
  ok = false;
  adapter_reference = none;
  evidence_refs = refs;
  code = some c;
  message = some m;
}

-- The parts of a formatted string, one after the other.
abbrev pub joined : List String → String
joined [] = ""
joined (s ∷ ss) = concat s (joined ss)
