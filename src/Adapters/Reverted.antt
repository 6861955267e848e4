-- ===== src/Adapters/Reverted.antt =====
-- What the blocklist adapter has seen when it answers that a command is verified or reverted, on any
-- client that keeps its contract.
use enterprise_netsec_iac.Common.{
  String, ◌≡◌, List, ok, false, true, contains, All, arith, [], ◌∷◌, eq_refl, Bool-cases, inl,
  All-map, inr, refl, ◌⊎◌, ◌++◌, contains-append, ◌↔◌, sym, ◌∙◌, ap,
}
use enterprise_netsec_iac.Adapters.Client.{IsOwnershipAware}
use enterprise_netsec_iac.Adapters.Blocklist.{
  Firewall, BlocklistPeer, evidence_ref, soc_blocklist_alias, command_address, idempotency_key,
}
use enterprise_netsec_iac.Adapters.Release.{
  read_all, verified_outcome, release_on, release_all, reverted_outcome, verify, revert,
}
use enterprise_netsec_iac.Platform.{Platform}
use enterprise_netsec_iac.Value.{Fields}
use enterprise_netsec_iac.Orchestrator.Machine.{AdapterOutcome}
use enterprise_netsec_iac.Common.Pure.{ok-eq-ok}

no_failures :
    (names : List String) → (names ≡ []) ⊎ ((m : String × List String) × (names ≡ m.0 ∷ m.1))
no_failures [] = inl refl
no_failures (m ∷ ms) = inr ((m, ms), refl)

module _ {S : Type 0} (f : Firewall S) (law : IsOwnershipAware f.client) (a k : String) where
  -- The answer of the peer is that the address is there.
  pub Reports : BlocklistPeer S → Type 0
  Reports p = (f.client.contains a p.state).0 ≡ ok true

  read_all-Reports :
      (reference : String) (ps : List (BlocklistPeer S))
      → (verified_outcome f reference (read_all f a ps)).ok ≡ true
      → All Reports ps
  unfolding read_all verified_outcome Reports
  read_all-Reports reference [] h = tt
  read_all-Reports reference (p ∷ ps) h = ground (arith, read_all-Reports reference ps)

  Reports-read_all :
      (reference : String) (ps : List (BlocklistPeer S))
      → All Reports ps
      → (verified_outcome f reference (read_all f a ps)).ok ≡ true
  unfolding read_all verified_outcome Reports
  Reports-read_all reference [] h = refl
  Reports-read_all reference (p ∷ ps) (h, hs) = ground (arith, h, Reports-read_all reference ps hs)

  -- No claim of the key is left on the peer, and if the address is still there, the evidence says that
  -- the claim was released without a removal.
  pub IsReleased : List String → BlocklistPeer S → Type 0
  IsReleased refs p =
      (law.holds a k p.state ≡ false)
      × (law.blocked a p.state ≡ true
          → contains (evidence_ref f p.name "released" soc_blocklist_alias) refs ≡ true)

  release_on-IsReleased :
      (p : BlocklistPeer S)
      → (release_on f a k p).2 ≡ true
      → IsReleased (release_on f a k p).1 (release_on f a k p).0
  unfolding release_on IsReleased
  release_on-IsReleased p h = ground (
    arith,
    h,
    law.remove_releases a k p.state,
    law.contains_reads a (f.client.remove a k p.state).1,
    law.contains_keeps a k (f.client.remove a k p.state).1,
    eq_refl (evidence_ref f p.name "released" soc_blocklist_alias),
  )

  IsReleased-append :
      (refs more : List String) (p : BlocklistPeer S)
      → IsReleased refs p
      → IsReleased (refs ++ more) p
  unfolding IsReleased
  IsReleased-append refs more p h =
      ground
        (arith, h, contains-append (evidence_ref f p.name "released" soc_blocklist_alias) refs more)

  IsReleased-after :
      (refs more : List String) (p : BlocklistPeer S)
      → IsReleased more p
      → IsReleased (refs ++ more) p
  unfolding IsReleased
  IsReleased-after refs more p h =
      ground
        (arith, h, contains-append (evidence_ref f p.name "released" soc_blocklist_alias) refs more)

  release_all-IsReleased :
      (ps : List (BlocklistPeer S))
      → (release_all f a k ps).failures ≡ []
      → All (IsReleased (release_all f a k ps).refs) (release_all f a k ps).peers
  unfolding release_all
  release_all-IsReleased [] h = tt
  release_all-IsReleased (p ∷ ps) h = elim (Bool-cases (release_on f a k p).2) [
    | inl done ↦ (
      IsReleased-append _ _ _ (release_on-IsReleased p done),
      All-map _ (IsReleased-after _ _) (release_all-IsReleased ps (ground (arith, h, done))),
    )
    | inr left ↦ ground (arith, h, left)
  ]

  reverted_outcome-IsReleased :
      (reference : String) (ps : List (BlocklistPeer S))
      → (reverted_outcome f reference (release_all f a k ps)).ok ≡ true
      → All
          (IsReleased (reverted_outcome f reference (release_all f a k ps)).evidence_refs)
          (release_all f a k ps).peers
  unfolding reverted_outcome
  reverted_outcome-IsReleased reference ps h = elim (no_failures (release_all f a k ps).failures) [
    | inl none_failed ↦ rw none_failed (release_all-IsReleased ps none_failed)
    | inr ((m, ms), some_failed) ↦ ground (arith, h, some_failed)
  ]

module _ {S : Type 0} (f : Firewall S) (law : IsOwnershipAware f.client) (lib : Platform)
    (command : Fields) {a k : String} (is_address : command_address lib command ≡ ok a)
    (is_key : idempotency_key command ≡ ok k) (reference : String)
    (peers : List (BlocklistPeer S)) where
  verify_lem :
      (verify f lib command reference peers).0
      ≡ ok (verified_outcome f reference (read_all f a peers))
  unfolding verify
  verify_lem = simp is_address

  revert_lem : revert f lib command reference peers ≡ (
    ok (reverted_outcome f reference (release_all f a k peers)),
    (release_all f a k peers).peers,
  )
  unfolding revert
  revert_lem = simp (is_address, is_key)

  -- The adapter answers that a command is verified exactly when every peer, asked in turn, says that the
  -- address is on its blocklist: an exception of one peer or a missing entry on one is a failure.
  pub verify_iff :
      {o : AdapterOutcome}
      → (verify f lib command reference peers).0 ≡ ok o
      → (o.ok ≡ true) ↔ All (Reports f law a k) peers
  verify_iff e = (
    λ h. read_all-Reports f law a k reference peers (ap (λ o. o.ok) (verify_outcome e) ∙ h),
    λ h. sym (ap (λ o. o.ok) (verify_outcome e)) ∙ Reports-read_all f law a k reference peers h,
  )
    where
      verify_outcome :
          {o : AdapterOutcome}
          → (verify f lib command reference peers).0 ≡ ok o
          → verified_outcome f reference (read_all f a peers) ≡ o
      verify_outcome e = ok-eq-ok (sym verify_lem ∙ e)

  -- If the adapter answers that a command is reverted, then on every peer no claim of the command's key
  -- is left, and either the address is off the blocklist or the evidence says for that peer that the
  -- claim was released without a removal.
  pub revert_releases :
      {o : AdapterOutcome}
      → (revert f lib command reference peers).0 ≡ ok o
      → o.ok ≡ true
      → All (IsReleased f law a k o.evidence_refs) (revert f lib command reference peers).1
  revert_releases {o} e h =
      let outcome = ok-eq-ok (sym (ap (λ r. r.0) revert_lem) ∙ e) in
      rw (revert_lem, ← outcome)
        (reverted_outcome-IsReleased f law a k reference peers (ap (λ o. o.ok) outcome ∙ h))
