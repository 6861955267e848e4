-- ===== src/Adapters/Applied.antt =====
-- What the blocklist adapter has done when it answers that it applied a command, and what it leaves
-- behind when it answers that it did not, on any client that keeps its contract.
use enterprise_netsec_iac.Common.{
  ℕ, String, ◌≡◌, refl, ap, true, false, Option, List, [], ◌∷◌, ◌++◌, map, ◌∙◌, arith, contains,
  All, ok, err, Result, Bool-cases, inl, inr, eq_refl, contains-append, All-map, All-append, sym,
}
use enterprise_netsec_iac.Adapters.Client.{IsOwnershipAware, succeeded}
use enterprise_netsec_iac.Adapters.Blocklist.{
  BlocklistPeer, Firewall, evidence_ref, command_address, idempotency_key, recovery_reference,
  lifetime, soc_blocklist_alias,
}
use enterprise_netsec_iac.Adapters.Apply.{
  add_to, add_to_all, roll_back, rollback_peers, apply_to, apply,
}
use enterprise_netsec_iac.Platform.{Platform}
use enterprise_netsec_iac.Value.{Fields}
use enterprise_netsec_iac.Adapters.{joined, AdapterOutcome}
use enterprise_netsec_iac.Common.Pure.{ok-eq-ok}

module _ {S : Type 0} (f : Firewall S) (law : IsOwnershipAware f.client) (a k : String) where
  -- The address is blocked on the peer, and the key has a claim on it.
  pub Confirmed : BlocklistPeer S → Type 0
  Confirmed p = (law.blocked a p.state ≡ true) × (law.holds a k p.state ≡ true)

  add_to_done :
      (l : Option ℕ) (p : BlocklistPeer S)
      → (add_to f a k l p).done ≡ true
      → Confirmed (add_to f a k l p).peer
  unfolding add_to Confirmed
  add_to_done l p h = ground (
    arith,
    law.add_claims a k l p.state,
    law.contains_reads a (f.client.add a k l p.state).1,
    law.contains_keeps a k (f.client.add a k l p.state).1,
  )

  add_to_name : (l : Option ℕ) (p : BlocklistPeer S) → (add_to f a k l p).peer.name ≡ p.name
  unfolding add_to
  add_to_name l p = ground arith

  add_to_all_complete :
      (l : Option ℕ) (ps : List (BlocklistPeer S))
      → (add_to_all f a k l ps).complete ≡ true
      → All Confirmed (add_to_all f a k l ps).tried
  unfolding add_to_all
  add_to_all_complete l [] h = tt
  add_to_all_complete l (p ∷ ps) h = elim (Bool-cases (add_to f a k l p).done) [
    | inl done ↦ rw done (add_to_done l p done, add_to_all_complete l ps (ground (arith, h, done)))
    | inr failed ↦ ground (arith, h, failed)
  ]

  add_to_all_names :
      (l : Option ℕ) (ps : List (BlocklistPeer S))
      → (add_to_all f a k l ps).complete ≡ true
      → map (λ p. p.name) (add_to_all f a k l ps).tried ≡ map (λ p. p.name) ps
  unfolding add_to_all
  add_to_all_names l [] h = refl
  add_to_all_names l (p ∷ ps) h = ground (arith, add_to_all_names l ps, add_to_name l p)

  -- If the key still has a claim on the peer, the evidence says that its compensation failed.
  pub Compensated : List String → BlocklistPeer S → Type 0
  Compensated refs p =
      law.holds a k p.state ≡ true
      → contains (evidence_ref f p.name "compensate" "failed") refs ≡ true

  roll_back_failed :
      (p : BlocklistPeer S)
      → succeeded (f.client.remove a k p.state).0 ≡ false
      → (roll_back f a k p).1 ≡ evidence_ref f p.name "compensate" "failed"
  unfolding roll_back
  roll_back_failed p h = ap (evidence_ref f p.name "compensate") (failed_text _ h)
    where
      failed_text :
          (r : Result String)
          → succeeded r ≡ false
          → (elim r [ ok s ↦ s | err e ↦ "failed" ]) ≡ "failed"
      failed_text (ok s) e = cc
      failed_text (err e) _ = refl

  roll_back-Compensated :
      (refs : List String) (p : BlocklistPeer S)
      → Compensated (refs ++ (roll_back f a k p).1 ∷ []) (roll_back f a k p).0
  unfolding Compensated roll_back
  roll_back-Compensated refs p held = ground (
    arith,
    held,
    roll_back_failed p,
    law.remove_releases a k p.state,
    contains-append (evidence_ref f p.name "compensate" "failed") refs ((roll_back f a k p).1 ∷ []),
    eq_refl (evidence_ref f p.name "compensate" "failed"),
  )

  Compensated-append :
      (refs more : List String) (p : BlocklistPeer S)
      → Compensated refs p
      → Compensated (refs ++ more) p
  unfolding Compensated
  Compensated-append refs more p h held =
      ground
        (arith, h held, contains-append (evidence_ref f p.name "compensate" "failed") refs more)

  Compensated-after :
      (refs more : List String) (p : BlocklistPeer S)
      → Compensated more p
      → Compensated (refs ++ more) p
  unfolding Compensated
  Compensated-after refs more p h held =
      ground
        (arith, h held, contains-append (evidence_ref f p.name "compensate" "failed") refs more)

  rollback_peers-Compensated :
      (ps : List (BlocklistPeer S))
      → All (Compensated (rollback_peers f a k ps).1) (rollback_peers f a k ps).0
  unfolding rollback_peers
  rollback_peers-Compensated [] = tt
  rollback_peers-Compensated (p ∷ ps) = (
    roll_back-Compensated _ p,
    All-map _ (Compensated-append _ _) (rollback_peers-Compensated ps),
  )

  -- The key has no claim on the peer.
  unfoldable pub IsUnclaimed : BlocklistPeer S → Type 0
  IsUnclaimed p = law.holds a k p.state ≡ false

  add_to_all_untried :
      (l : Option ℕ) (ps : List (BlocklistPeer S))
      → All IsUnclaimed ps
      → All IsUnclaimed (add_to_all f a k l ps).untried
  unfolding add_to_all
  add_to_all_untried l [] h = tt
  add_to_all_untried l (p ∷ ps) (h, hs) = elim (Bool-cases (add_to f a k l p).done) [
    | inl done ↦ rw done (add_to_all_untried l ps hs)
    | inr failed ↦ rw failed hs
  ]

  Compensated-IsUnclaimed :
      (refs : List String) (p : BlocklistPeer S) → IsUnclaimed p → Compensated refs p
  unfolding Compensated IsUnclaimed
  Compensated-IsUnclaimed refs p h held = cc

  pub apply_to_confirms :
      (l : Option ℕ) (r : String) (ps : List (BlocklistPeer S))
      → (apply_to f a k l r ps).0.ok ≡ true
      → All Confirmed (apply_to f a k l r ps).1
        × (map (λ p. p.name) (apply_to f a k l r ps).1 ≡ map (λ p. p.name) ps)
  unfolding apply_to
  apply_to_confirms l r ps h = elim (Bool-cases (add_to_all f a k l ps).complete) [
    | inl done ↦ rw done (add_to_all_complete l ps done, add_to_all_names l ps done)
    | inr failed ↦ ground (arith, h, failed)
  ]

  pub apply_to_compensates :
      (l : Option ℕ) (r : String) (ps : List (BlocklistPeer S))
      → All IsUnclaimed ps
      → (apply_to f a k l r ps).0.ok ≡ false
      → All (Compensated (apply_to f a k l r ps).0.evidence_refs) (apply_to f a k l r ps).1
  unfolding apply_to
  apply_to_compensates l r ps free h = elim (Bool-cases (add_to_all f a k l ps).complete) [
    | inl done ↦ ground (arith, h, done)
    | inr failed ↦ rw failed (
        All-append _ _ _ (All-map _ (Compensated-after _ _) (rollback_peers-Compensated _))
          (All-map _ (Compensated-IsUnclaimed _) (add_to_all_untried l ps free)))
  ]

module _ {S : Type 0} (f : Firewall S) (law : IsOwnershipAware f.client) (lib : Platform)
    (command : Fields) {a k : String} (is_address : command_address lib command ≡ ok a)
    (is_key : idempotency_key command ≡ ok k) (peers : List (BlocklistPeer S)) where
  abbrev reference : String
  reference = joined (f.name ∷ "-ha:" ∷ soc_blocklist_alias ∷ ":" ∷ k ∷ [])

  apply_lem : apply f lib command peers ≡ (
    ok (apply_to f a k (lifetime command) reference peers).0,
    (apply_to f a k (lifetime command) reference peers).1,
  )
  unfolding apply recovery_reference
  apply_lem = simp (is_address, is_key)

  apply_outcome :
      {o : AdapterOutcome}
      → (apply f lib command peers).0 ≡ ok o
      → (apply_to f a k (lifetime command) reference peers).0 ≡ o
  apply_outcome e = ok-eq-ok (sym (ap (λ r. r.0) apply_lem) ∙ e)

  -- If the adapter answers that it applied a command, then every peer has the address on its blocklist,
  -- with a claim of the command's key, and the peers are those there were, in their order.
  pub apply_confirms :
      {o : AdapterOutcome}
      → (apply f lib command peers).0 ≡ ok o
      → o.ok ≡ true
      → All (Confirmed f law a k) (apply f lib command peers).1
        × (map (λ p. p.name) (apply f lib command peers).1 ≡ map (λ p. p.name) peers)
  apply_confirms e h = rw apply_lem (
      apply_to_confirms f law a k (lifetime command) reference peers
        (ap (λ o. o.ok) (apply_outcome e) ∙ h))

  -- If the adapter answers that it did not apply a command, and the command's key had no claim before,
  -- then on each peer the key has no claim on the address, or the evidence says that taking it back has
  -- failed on that peer.
  pub apply_compensates :
      {o : AdapterOutcome}
      → All (IsUnclaimed f law a k) peers
      → (apply f lib command peers).0 ≡ ok o
      → o.ok ≡ false
      → All (Compensated f law a k o.evidence_refs) (apply f lib command peers).1
  apply_compensates free e h =
      rw (apply_lem, ← apply_outcome e)
        (apply_to_compensates f law a k (lifetime command) reference peers free
          (ap (λ o. o.ok) (apply_outcome e) ∙ h))
