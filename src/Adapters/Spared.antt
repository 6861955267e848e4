-- ===== src/Adapters/Spared.antt =====
-- Sequences of commands to the blocklist adapter: what every call of the client keeps, every peer keeps.
use enterprise_netsec_iac.Common.{
  String, ◌≡◌, ℕ, Option, List, [], ◌∷◌, All, All-append, Bool-cases, inl, inr, true, false, ◌⊎◌,
  arith, Result-cases, contains, Method, All-map,
}
use enterprise_netsec_iac.Value.{Fields}
use enterprise_netsec_iac.Common.Keeps.{Keeps, Keeps-bind, Keeps-lift, Keeps-returning, Keeps-pure}
use enterprise_netsec_iac.Adapters.Client.{BlocklistClient}
use enterprise_netsec_iac.Adapters.Apply.{
  apply, add_to, add_to_all, rollback_peers, apply_to, roll_back,
}
use enterprise_netsec_iac.Adapters.Release.{verify, revert, release_on, read_all, release_all}
use enterprise_netsec_iac.Adapters.Blocklist.{Firewall, BlocklistPeer}
use enterprise_netsec_iac.Platform.{Platform}
use enterprise_netsec_iac.Ownership.{
  Peer, Tag, add_soc_blocklist_address, remove_soc_blocklist_address, soc_blocklist_contains,
}
use enterprise_netsec_iac.Adapters.Owned.{owned_client, with_address, answer, owned_firewall}
use enterprise_netsec_iac.Ownership.Rows.{held}
use enterprise_netsec_iac.Ownership.Kept.{IsKept, add-IsKept, remove-IsKept, probe-IsKept}

-- What the orchestrator asks of the adapter.
pub data Task : Type 0 where
  apply_task : Fields → Task
  verify_task revert_task : Fields → String → Task

unfoldable pub do_task :
    {S : Type 0} → Firewall S → Platform → Task → List (BlocklistPeer S) → List (BlocklistPeer S)
unfolding apply verify revert
do_task f lib (apply_task command) peers = (apply f lib command peers).1
do_task f lib (verify_task command reference) peers = (verify f lib command reference peers).1
do_task f lib (revert_task command reference) peers = (revert f lib command reference peers).1

unfoldable pub do_tasks :
    {S : Type 0}
    → Firewall S
    → Platform
    → List Task
    → List (BlocklistPeer S)
    → List (BlocklistPeer S)
unfolding do_task
do_tasks f lib [] peers = peers
do_tasks f lib (t ∷ ts) peers = do_tasks f lib ts (do_task f lib t peers)

-- A predicate that each call of the client keeps, whether it returns or raises.
pub record IsKeptBy {S : Type 0} (c : BlocklistClient S) (P : S → Type 0) : Type 0 where
  pub add_keeps : (a k : String) (l : Option ℕ) (s : S) → P s → P (c.add a k l s).1
  pub remove_keeps : (a k : String) (s : S) → P s → P (c.remove a k s).1
  pub contains_keeps : (a : String) (s : S) → P s → P (c.contains a s).1

module _ {S : Type 0} (f : Firewall S) (P : S → Type 0) (kept : IsKeptBy f.client P) where
  abbrev pub On : BlocklistPeer S → Type 0
  On p = P p.state

  -- A peer after its turn is as a call of the client left it, or as a read after that left it.
  add_to_state :
      (a k : String) (l : Option ℕ) (p : BlocklistPeer S)
      → let s = (f.client.add a k l p.state).1 in
        ((add_to f a k l p).peer.state ≡ s)
        ⊎ ((add_to f a k l p).peer.state ≡ (f.client.contains a s).1)
  unfolding add_to
  add_to_state a k l p = ground arith

  add_to-On :
      (a k : String) (l : Option ℕ) (p : BlocklistPeer S) → On p → On (add_to f a k l p).peer
  add_to-On a k l p h = elim (add_to_state a k l p) [
    | inl e ↦ rw e (kept.add_keeps a k l p.state h)
    | inr e ↦ rw e (kept.contains_keeps a _ (kept.add_keeps a k l p.state h))
  ]

  release_on_state :
      (a k : String) (p : BlocklistPeer S)
      → let s = (f.client.remove a k p.state).1 in
        ((release_on f a k p).0.state ≡ s)
        ⊎ ((release_on f a k p).0.state ≡ (f.client.contains a s).1)
  unfolding release_on
  release_on_state a k p = ground arith

  release_on-On : (a k : String) (p : BlocklistPeer S) → On p → On (release_on f a k p).0
  release_on-On a k p h = elim (release_on_state a k p) [
    | inl e ↦ rw e (kept.remove_keeps a k p.state h)
    | inr e ↦ rw e (kept.contains_keeps a _ (kept.remove_keeps a k p.state h))
  ]

  add_to_all-On :
      (a k : String) (l : Option ℕ) (ps : List (BlocklistPeer S))
      → All On ps
      → All On (add_to_all f a k l ps).tried × All On (add_to_all f a k l ps).untried
  unfolding add_to_all
  add_to_all-On a k l [] h = (tt, tt)
  add_to_all-On a k l (p ∷ ps) (h, hs) =
      let (tried, untried) = add_to_all-On a k l ps hs in
      elim (Bool-cases (add_to f a k l p).done) [
        | inl done ↦ rw done ((add_to-On a k l p h, tried), untried)
        | inr failed ↦ rw failed ((add_to-On a k l p h, tt), hs)
      ]

  rollback_peers-On :
      (a k : String) (ps : List (BlocklistPeer S)) → All On ps → All On (rollback_peers f a k ps).0
  unfolding rollback_peers roll_back
  rollback_peers-On a k [] h = tt
  rollback_peers-On a k (p ∷ ps) (h, hs) =
      (kept.remove_keeps a k p.state h, rollback_peers-On a k ps hs)

  apply_to-On :
      (a k : String) (l : Option ℕ) (r : String) (ps : List (BlocklistPeer S))
      → All On ps
      → All On (apply_to f a k l r ps).1
  unfolding apply_to
  apply_to-On a k l r ps h =
      let (tried, untried) = add_to_all-On a k l ps h in
      elim (Bool-cases (add_to_all f a k l ps).complete) [
        | inl done ↦ rw done tried
        | inr failed ↦ rw failed (All-append _ _ _ (rollback_peers-On a k _ tried) untried)
      ]

  read_all-On :
      (a : String) (ps : List (BlocklistPeer S)) → All On ps → All On (read_all f a ps).peers
  unfolding read_all
  read_all-On a [] h = tt
  read_all-On a (p ∷ ps) (h, hs) = elim (Result-cases (f.client.contains a p.state).0) [
    | inl (b, e) ↦ rw (e, All) (kept.contains_keeps a p.state h, read_all-On a ps hs)
    | inr (x, e) ↦ rw (e, All) (kept.contains_keeps a p.state h, hs)
  ]

  release_all-On :
      (a k : String) (ps : List (BlocklistPeer S)) → All On ps → All On (release_all f a k ps).peers
  unfolding release_all
  release_all-On a k [] h = tt
  release_all-On a k (p ∷ ps) (h, hs) = (release_on-On a k p h, release_all-On a k ps hs)

  ruleset on_rules =
      (Keeps-bind, Keeps-lift, Keeps-returning, apply_to-On, read_all-On, release_all-On)

  apply-On : (lib : Platform) (command : Fields) → Keeps (All On) (apply f lib command)
  unfolding apply
  apply-On lib command = search on_rules depth 9

  verify-On :
      (lib : Platform) (command : Fields) (reference : String)
      → Keeps (All On) (verify f lib command reference)
  unfolding verify
  verify-On lib command reference = search on_rules depth 9

  revert-On :
      (lib : Platform) (command : Fields) (reference : String)
      → Keeps (All On) (revert f lib command reference)
  unfolding revert
  revert-On lib command reference = search on_rules depth 9

  pub do_tasks-On :
      (lib : Platform) (ts : List Task) (ps : List (BlocklistPeer S))
      → All On ps
      → All On (do_tasks f lib ts ps)
  unfolding do_tasks do_task
  do_tasks-On lib [] ps h = h
  do_tasks-On lib (apply_task c ∷ ts) ps h = do_tasks-On lib ts _ ((apply-On lib c).at ps h)
  do_tasks-On lib (verify_task c r ∷ ts) ps h = do_tasks-On lib ts _ ((verify-On lib c r).at ps h)
  do_tasks-On lib (revert_task c r ∷ ts) ps h = do_tasks-On lib ts _ ((revert-On lib c r).at ps h)

module _ (lib : Platform) (ending : String → String) (a : String) where
  with_address-Keeps :
      {A : Type 0} (call : String → Method Peer A) (address : String)
      → ((n : String) → Keeps (IsKept a) (call n))
      → Keeps (IsKept a) (with_address lib ending call address)
  with_address-Keeps call address k = search (Keeps-bind, Keeps-lift, k) depth 4

  answer-Keeps :
      (call : Method Peer Tag) → Keeps (IsKept a) call → Keeps (IsKept a) (answer lib ending call)
  answer-Keeps call k = search (Keeps-bind, Keeps-pure, k) depth 4

  owned_client-IsKeptBy : IsKeptBy (owned_client lib ending) (IsKept a)
  unfolding owned_client
  owned_client-IsKeptBy = record {
    add_keeps = λ b k l s h.
        (with_address-Keeps (λ n. answer lib ending (add_soc_blocklist_address n k)) b
            (λ n.
              answer-Keeps (add_soc_blocklist_address n k) (record { at = add-IsKept a n k }))).at
          s h;
    remove_keeps = λ b k s h.
        (with_address-Keeps (λ n. answer lib ending (remove_soc_blocklist_address n k)) b
            (λ n.
              answer-Keeps (remove_soc_blocklist_address n k)
                (record { at = remove-IsKept a n k }))).at
          s h;
    contains_keeps = λ b s h.
        (with_address-Keeps soc_blocklist_contains b (λ n. record { at = probe-IsKept a n })).at s
          h;
  }

-- If an address is on the blocklist of every peer and no operation has claimed it there, it still is on
-- every blocklist after any sequence of commands that are applied, verified or reverted through the
-- ownership clients, whatever the transports lose.
pub foreign_entry_spared :
    (name : String) (upper : String → String) (lib : Platform) (ending : String → String)
    (a : String) (ts : List Task) (ps : List (BlocklistPeer Peer))
    → All (λ p. (contains a p.state.members ≡ true) × (held a p.state.rows ≡ false)) ps
    → All
        (λ p. contains a p.state.members ≡ true)
        (do_tasks (owned_firewall lib ending name upper) lib ts ps)
foreign_entry_spared name upper lib ending a ts ps h =
    All-map _ (λ p kept. kept.member)
      (do_tasks-On _ (IsKept a) (owned_client-IsKeptBy lib ending a) lib ts ps
        (All-map ps (λ p (on, free). record { member = on; covered = λ e. cc }) h))
