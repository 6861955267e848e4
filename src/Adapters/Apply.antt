-- ===== src/Adapters/Apply.antt =====
-- response/adapters/blocklist.py, `apply`: the address is added on one peer after the other, and on all
-- peers that were tried it is taken back if one of them fails.
use enterprise_netsec_iac.Common.{
  ℕ, String, Bool, true, false, Option, List, [], ◌∷◌, ◌++◌, if◌then◌else◌, ok, err, Method, lift,
  ◌>>=◌, returning,
}
use enterprise_netsec_iac.Value.{Fields}
use enterprise_netsec_iac.Platform.{Platform}
use enterprise_netsec_iac.Orchestrator.Machine.{AdapterOutcome}
use enterprise_netsec_iac.Adapters.{success, failure, joined}
use enterprise_netsec_iac.Adapters.Client.{answered}
use enterprise_netsec_iac.Adapters.Blocklist.{
  BlocklistPeer, Firewall, soc_blocklist_alias, evidence_ref, command_address, idempotency_key,
  lifetime, recovery_reference,
}

-- What one peer comes to: its state, the evidence, and whether the peer did what was asked.
pub record Visit (S : Type 0) : Type 0 where
  pub peer : BlocklistPeer S
  pub refs : List String
  pub done : Bool

-- The loop of `apply`: the peers that were tried, those that were not, and the evidence.
pub record Attempt (S : Type 0) : Type 0 where
  pub tried : List (BlocklistPeer S)
  pub untried : List (BlocklistPeer S)
  pub refs : List String
  pub complete : Bool

module _ {S : Type 0} (f : Firewall S) where
  -- The body of the loop of `apply`.
  unfoldable pub add_to : String → String → Option ℕ → BlocklistPeer S → Visit S
  unfolding evidence_ref
  add_to a k l p =
      let (added, s) = f.client.add a k l p.state in
      elim added [
        | err e ↦ record { peer = record p { state = s }; refs = []; done = false }
        | ok reference ↦
            let (present, s') = f.client.contains a s in
            let confirmed = answered true present in
            record {
              peer = record p { state = s' };
              refs =
                  evidence_ref f p.name "add" reference
                  ∷ (if confirmed
                      then evidence_ref f p.name "membership" soc_blocklist_alias ∷ []
                      else []);
              done = confirmed;
            }
      ]

  unfoldable pub add_to_all : String → String → Option ℕ → List (BlocklistPeer S) → Attempt S
  unfolding add_to
  add_to_all a k l [] = record { tried = []; untried = []; refs = []; complete = true }
  add_to_all a k l (p ∷ ps) =
      let visit = add_to a k l p in
      let rest = add_to_all a k l ps in
      if visit.done
      then record rest { tried = visit.peer ∷ rest.tried; refs = visit.refs ++ rest.refs }
      else record { tried = visit.peer ∷ []; untried = ps; refs = visit.refs; complete = false }

  -- The body of the loop of `_rollback_peers`.
  unfoldable pub roll_back : String → String → BlocklistPeer S → BlocklistPeer S × String
  unfolding evidence_ref
  roll_back a k p =
      let (answer, s) = f.client.remove a k p.state in
      (
        record p { state = s },
        evidence_ref f p.name "compensate" (elim answer [ ok r ↦ r | err e ↦ "failed" ]),
      )

  -- `_rollback_peers`, the last peer first.
  unfoldable pub rollback_peers :
      String → String → List (BlocklistPeer S) → List (BlocklistPeer S) × List String
  unfolding roll_back
  rollback_peers a k [] = ([], [])
  rollback_peers a k (p ∷ ps) =
      let (ps', refs) = rollback_peers a k ps in
      let (p', ref) = roll_back a k p in (p' ∷ ps', refs ++ ref ∷ [])

  -- `apply`, once the command has an address and a key.
  unfoldable pub apply_to :
      String
      → String
      → Option ℕ
      → String
      → List (BlocklistPeer S)
      → AdapterOutcome × List (BlocklistPeer S)
  unfolding add_to_all rollback_peers
  apply_to a k l reference peers =
      let attempt = add_to_all a k l peers in
      let (reverted, rollback_refs) = rollback_peers a k attempt.tried in
      if attempt.complete then (success reference attempt.refs, attempt.tried) else (
        failure (joined (f.upper f.name ∷ "_HA_APPLY_FAILED" ∷ []))
            "SOC_BLOCKLIST apply failed; applied peers were reverted where possible"
            (attempt.refs ++ rollback_refs),
        reverted ++ attempt.untried,
      )

  unfoldable pub apply : Platform → Fields → Method (List (BlocklistPeer S)) AdapterOutcome
  unfolding apply_to recovery_reference command_address idempotency_key
  apply lib command = do
    a ← lift (command_address lib command)
    k ← lift (idempotency_key command)
    reference ← lift (recovery_reference f lib command)
    returning (apply_to a k (lifetime command) reference)
