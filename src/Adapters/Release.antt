-- ===== src/Adapters/Release.antt =====
-- response/adapters/blocklist.py, `verify` and `revert`: the address is read on one peer after the other,
-- or the key's claim on it is released on each of them.
use enterprise_netsec_iac.Common.{
  String, Bool, true, false, Option, none, some, List, [], ◌∷◌, ◌++◌, if◌then◌else◌, ok, err,
  Method, lift, ◌>>=◌, returning,
}
use enterprise_netsec_iac.Value.{Fields}
use enterprise_netsec_iac.Platform.{Platform}
use enterprise_netsec_iac.Orchestrator.Machine.{AdapterOutcome}
use enterprise_netsec_iac.Adapters.{success, failure, joined}
use enterprise_netsec_iac.Adapters.Client.{released_without_removal}
use enterprise_netsec_iac.Adapters.Blocklist.{
  BlocklistPeer, Firewall, soc_blocklist_alias, evidence_ref, command_address, idempotency_key,
  comma_separated,
}

-- The loop of `verify`: the peers, the evidence, the peers without the address, and the peer that could
-- not be read, at which the loop ended.
pub record Review (S : Type 0) : Type 0 where
  pub peers : List (BlocklistPeer S)
  pub refs : List String
  pub missing : List String
  pub unreadable : Option String

-- The loop of `revert`.
pub record Release (S : Type 0) : Type 0 where
  pub peers : List (BlocklistPeer S)
  pub refs : List String
  pub failures : List String

module _ {S : Type 0} (f : Firewall S) where
  unfoldable pub read_all : String → List (BlocklistPeer S) → Review S
  unfolding evidence_ref
  read_all a [] = record { peers = []; refs = []; missing = []; unreadable = none }
  read_all a (p ∷ ps) =
      let (present, s) = f.client.contains a p.state in
      let p' = record p { state = s } in
      let rest = read_all a ps in
      elim present [
        | err e ↦ record { peers = p' ∷ ps; refs = []; missing = []; unreadable = some p.name }
        | ok b ↦ record {
          peers = p' ∷ rest.peers;
          refs = evidence_ref f p.name "verify" soc_blocklist_alias ∷ rest.refs;
          missing = if b then rest.missing else p.name ∷ rest.missing;
          unreadable = rest.unreadable;
        }
      ]

  -- What `verify` makes of the reading.
  unfoldable pub verified_outcome : String → Review S → AdapterOutcome
  verified_outcome reference r = elim r.unreadable [
    | some name ↦
        failure (joined (f.upper f.name ∷ "_HA_VERIFY_ERROR" ∷ []))
          (joined ("cannot verify " ∷ name ∷ " fixed-set membership" ∷ [])) r.refs
    | none ↦ elim r.missing [
      | [] ↦ success reference r.refs
      | m ∷ ms ↦
          failure (joined (f.upper f.name ∷ "_HA_VERIFY_FAILED" ∷ []))
            (joined ("SOC_BLOCKLIST is absent on peer(s): " ∷ comma_separated (m ∷ ms) ∷ [])) r.refs
    ]
  ]

  unfoldable pub verify :
      Platform → Fields → String → Method (List (BlocklistPeer S)) AdapterOutcome
  unfolding read_all verified_outcome command_address
  verify lib command reference = do
    a ← lift (command_address lib command)
    returning (λ peers. (verified_outcome reference (read_all a peers), (read_all a peers).peers))

  -- The body of the loop of `revert`: the peer, the evidence, and whether the release was seen.
  unfoldable pub release_on :
      String → String → BlocklistPeer S → BlocklistPeer S × List String × Bool
  unfolding evidence_ref
  release_on a k p =
      let (answer, s) = f.client.remove a k p.state in
      elim answer [
        | err e ↦ (record p { state = s }, [], false)
        | ok reference ↦
            let removed = evidence_ref f p.name "remove" reference in
            let (present, s') = f.client.contains a s in
            let p' = record p { state = s' } in
            elim present [
              | err e ↦ (p', removed ∷ [], false)
              | ok b ↦
                  if b
                  then if released_without_removal reference
                    then (
                      p',
                      removed ∷ evidence_ref f p.name "released" soc_blocklist_alias ∷ [],
                      true,
                    )
                    else (p', removed ∷ [], false)
                  else (
                    p',
                    removed ∷ evidence_ref f p.name "absence" soc_blocklist_alias ∷ [],
                    true,
                  )
            ]
      ]

  unfoldable pub release_all : String → String → List (BlocklistPeer S) → Release S
  unfolding release_on
  release_all a k [] = record { peers = []; refs = []; failures = [] }
  release_all a k (p ∷ ps) =
      let (p', refs, released) = release_on a k p in
      let rest = release_all a k ps in
      record {
        peers = p' ∷ rest.peers;
        refs = refs ++ rest.refs;
        failures = if released then rest.failures else p.name ∷ rest.failures;
      }

  unfoldable pub reverted_outcome : String → Release S → AdapterOutcome
  reverted_outcome reference r = elim r.failures [
    | [] ↦ success reference r.refs
    | m ∷ ms ↦
        failure (joined (f.upper f.name ∷ "_HA_REVERT_FAILED" ∷ []))
          (joined (
            "SOC_BLOCKLIST removal could not be verified on peer(s): "
            ∷ comma_separated (m ∷ ms)
            ∷ []))
          r.refs
  ]

  unfoldable pub revert :
      Platform → Fields → String → Method (List (BlocklistPeer S)) AdapterOutcome
  unfolding release_all reverted_outcome command_address idempotency_key
  revert lib command reference = do
    a ← lift (command_address lib command)
    k ← lift (idempotency_key command)
    returning (λ peers.
        (reverted_outcome reference (release_all a k peers), (release_all a k peers).peers))
