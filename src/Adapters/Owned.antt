-- ===== src/Adapters/Owned.antt =====
-- response/transports/ownership.py behind response/adapters/blocklist.py: `OwnedBlocklistClient` keeps the
-- contract of a client, and through it the adapter leaves foreign entries alone.
use enterprise_netsec_iac.Common.{
  String, ◌≡◌, refl, ok, err, error, lift, pure, ◌>>=◌, true, false, ap, Bool, Result, Method, none,
  some, [], ◌∷◌, contains, value_error,
}
use enterprise_netsec_iac.Platform.{Platform}
use enterprise_netsec_iac.Ownership.{
  Peer, Tag, owned_tag, preexisting, added, shared, absent, removed, add_soc_blocklist_address,
  remove_soc_blocklist_address, soc_blocklist_contains,
}
use enterprise_netsec_iac.Ownership.Rows.{held_by}
use enterprise_netsec_iac.Ownership.Released.{add_confirms, remove_drops_claim, contains_answers}
use enterprise_netsec_iac.Adapters.{joined}
use enterprise_netsec_iac.Adapters.Client.{IsOwnershipAware, BlocklistClient, succeeded, answered}
use enterprise_netsec_iac.Adapters.Blocklist.{Firewall, BlocklistPeer}
use enterprise_netsec_iac.Adapters.Applied.{IsUnclaimed}

-- `OwnedBlocklistClient` as a client: each method first writes the address in its normal form (`_norm`),
-- and an answer is written as its kind and the end of the key, which `ending` cuts off.
module _ (lib : Platform) (ending : String → String) where
  unfoldable pub norm : String → Result String
  norm address = elim (lib.ip_address address) [
    | none ↦ error value_error "is not an IP address"
    | some parsed ↦ ok (lib.address_text parsed)
  ]

  unfoldable pub tag_text : Tag → String
  tag_text t = joined (
      elim t.kind [
        | owned_tag ↦ "owned"
        | preexisting ↦ "preexisting"
        | added ↦ "added"
        | shared ↦ "shared"
        | absent ↦ "absent"
        | removed ↦ "removed"
      ]
      ∷ ":"
      ∷ ending t.key
      ∷ [])

  abbrev pub with_address : {A : Type 0} → (String → Method Peer A) → String → Method Peer A
  with_address call address = do normal ← lift (norm address); call normal

  abbrev pub answer : Method Peer Tag → Method Peer String
  answer call = do t ← call; pure (tag_text t)

  unfoldable pub owned_client : BlocklistClient Peer
  unfolding norm tag_text
  owned_client = record {
    add = λ a k l. with_address (λ n. answer (add_soc_blocklist_address n k)) a;
    remove = λ a k. with_address (λ n. answer (remove_soc_blocklist_address n k)) a;
    contains = with_address soc_blocklist_contains;
  }

  abbrev pub owned_firewall : String → (String → String) → Firewall Peer
  owned_firewall name upper = record { name = name; upper = upper; client = owned_client }

  answer_lem :
      (call : Method Peer Tag) (p : Peer)
      → ((answer call p).1 ≡ (call p).1)
        × (succeeded (answer call p).0 ≡ true → (t : Tag) × ((call p).0 ≡ ok t))
  answer_lem call p = returned (call p).0
    where
      returned :
          (r : Result Tag)
          → ((answer (λ p. (r, (call p).1)) p).1 ≡ (call p).1)
            × (succeeded (answer (λ p. (r, (call p).1)) p).0 ≡ true → (t : Tag) × (r ≡ ok t))
      returned (ok t) = (refl, λ h. (t, refl))
      returned (err e) = (refl, λ h. cc)

  -- The claims, on an address that `norm` reads.
  add_keeps_contract :
      (a k : String) (p : Peer)
      → succeeded (answer (add_soc_blocklist_address a k) p).0 ≡ true
      → held_by a k (answer (add_soc_blocklist_address a k) p).1.rows ≡ true
  add_keeps_contract a k p h =
      let (same, answered) = answer_lem (add_soc_blocklist_address a k) p in
      rw same (add_confirms a k p (answered h).1).1

  remove_keeps_contract :
      (a k : String) (p : Peer)
      → succeeded (answer (remove_soc_blocklist_address a k) p).0 ≡ true
      → held_by a k (answer (remove_soc_blocklist_address a k) p).1.rows ≡ false
  remove_keeps_contract a k p h =
      let (same, answered) = answer_lem (remove_soc_blocklist_address a k) p in
      rw same (remove_drops_claim a k p (answered h).1)

  read_keeps_contract :
      (a : String) (p : Peer)
      → (answered true (soc_blocklist_contains a p).0 ≡ true → contains a p.members ≡ true)
        × (answered false (soc_blocklist_contains a p).0 ≡ true → contains a p.members ≡ false)
  read_keeps_contract a p = read (soc_blocklist_contains a p).0 (contains_answers a p).0
    where
      read :
          (r : Result Bool)
          → ((b : Bool) → r ≡ ok b → contains a p.members ≡ b)
          → (answered true r ≡ true → contains a p.members ≡ true)
            × (answered false r ≡ true → contains a p.members ≡ false)
      read (ok true) tells = (λ _. tells true refl, λ h. cc)
      read (ok false) tells = (λ h. cc, λ _. tells false refl)
      read (err e) tells = (λ h. cc, λ h. cc)

  unfoldable pub at_normal : String → Result String → String
  at_normal a r = elim r [ ok n ↦ n | err e ↦ a ]

  add_contract :
      (r : Result String) (a k : String) (p : Peer)
      → succeeded ((lift r >>= λ n. answer (add_soc_blocklist_address n k)) p).0 ≡ true
      → let p' = ((lift r >>= λ n. answer (add_soc_blocklist_address n k)) p).1 in
        held_by (at_normal a r) k p'.rows ≡ true
  unfolding at_normal
  add_contract (ok n) a k p h = add_keeps_contract n k p h
  add_contract (err e) a k p h = cc

  remove_contract :
      (r : Result String) (a k : String) (p : Peer)
      → succeeded ((lift r >>= λ n. answer (remove_soc_blocklist_address n k)) p).0 ≡ true
      → let p' = ((lift r >>= λ n. answer (remove_soc_blocklist_address n k)) p).1 in
        held_by (at_normal a r) k p'.rows ≡ false
  unfolding at_normal
  remove_contract (ok n) a k p h = remove_keeps_contract n k p h
  remove_contract (err e) a k p h = cc

  read_contract :
      (r : Result String) (a k : String) (p : Peer)
      → let m = lift r >>= soc_blocklist_contains in
        let n = at_normal a r in
        (answered true (m p).0 ≡ true → contains n p.members ≡ true)
        × (answered false (m p).0 ≡ true → contains n p.members ≡ false)
        × (contains n (m p).1.members ≡ contains n p.members)
        × (held_by n k (m p).1.rows ≡ held_by n k p.rows)
  unfolding at_normal
  read_contract (ok n) a k p =
      let (reads_true, reads_false) = read_keeps_contract n p in
      (
        reads_true,
        reads_false,
        ap (contains n) (contains_answers n p).1,
        ap (held_by n k) (contains_answers n p).2,
      )
  read_contract (err e) a k p = (λ h. cc, λ h. cc, refl, refl)

  -- `OwnedBlocklistClient` keeps the contract that the adapter relies on, whatever the transport loses.
  pub owned_client-IsOwnershipAware : IsOwnershipAware owned_client
  unfolding owned_client
  owned_client-IsOwnershipAware = record {
    blocked = λ a p. contains (at_normal a (norm a)) p.members;
    holds = λ a k p. held_by (at_normal a (norm a)) k p.rows;
    add_claims = λ a k l p. add_contract (norm a) a k p;
    remove_releases = λ a k p. remove_contract (norm a) a k p;
    contains_reads = λ a p. ((read_contract (norm a) a "" p).0, (read_contract (norm a) a "" p).1);
    contains_keeps = λ a k p. ((read_contract (norm a) a k p).2, (read_contract (norm a) a k p).3);
  }

  -- A peer on which the key has no row is one on which it has no claim.
  pub no_row-IsUnclaimed :
      (f : String) (upper : String → String) (a k : String) (p : BlocklistPeer Peer)
      → held_by (at_normal a (norm a)) k p.state.rows ≡ false
      → IsUnclaimed (owned_firewall f upper) owned_client-IsOwnershipAware a k p
  unfolding IsUnclaimed owned_client-IsOwnershipAware
  no_row-IsUnclaimed f upper a k p h = h
