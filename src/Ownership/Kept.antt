-- ===== src/Ownership/Kept.antt =====
-- Runs of the client: any requests, from any owners, through any faults of the transport.
use enterprise_netsec_iac.Common.{
  String, ◌≡◌, true, false, not, List, [], ◌∷◌, eq_iff, arith, any, contains,
}
use enterprise_netsec_iac.Ownership.{
  Peer, Claim, adding, owned, at_address, by_owner, upsert, Mode, owners, is_foreign,
  add_soc_blocklist_address, remove_soc_blocklist_address, soc_blocklist_contains,
}
use enterprise_netsec_iac.Ownership.Rows.{
  held, held_by, held_by_others, any-filter, contains-mark, contains-unmark, held-upsert,
  held-without_self, held-without_ne, held-held_by,
}

pub data Request : Type 0 where
  add remove : String → String → Request
  probe : String → Request

-- One request; its result or exception is the caller's, and the peer goes on from what it left.
unfoldable pub serve_one : Request → Peer → Peer
unfolding add_soc_blocklist_address remove_soc_blocklist_address soc_blocklist_contains
serve_one (add a k) p = (add_soc_blocklist_address a k p).1
serve_one (remove a k) p = (remove_soc_blocklist_address a k p).1
serve_one (probe a) p = (soc_blocklist_contains a p).1

unfoldable pub serve : List Request → Peer → Peer
unfolding serve_one
serve [] p = p
serve (r ∷ rs) p = serve rs (serve_one r p)

-- The address is on the firewall, and every claim of it is marked as one of a foreign entry.
pub record IsKept (a : String) (p : Peer) : Type 0 where
  pub member : contains a p.members ≡ true
  pub covered : held a p.rows ≡ true → is_foreign a p ≡ true

-- The test `idempotency_key in owners`, and the one on the other owners, as tests on the rows.
pub owns_lem : (a k : String) (p : Peer) → any (by_owner k) (owners a p) ≡ held_by a k p.rows
owns_lem a k p = any-filter (by_owner k) (at_address a) p.rows

pub others_lem :
    (a k : String) (p : Peer)
    → any (λ c. not (by_owner k c)) (owners a p) ≡ held_by_others a k p.rows
others_lem a k p = any-filter (λ c. not (by_owner k c)) (at_address a) p.rows

abbrev row : String → String → Mode → Claim
row a k m = record { address = a; owner = k; mode = m }

pub add-IsKept :
    (a b k : String) (p : Peer) → IsKept a p → IsKept a (add_soc_blocklist_address b k p).1
unfolding add_soc_blocklist_address
add-IsKept a b k p h = ground (
  arith,
  eq_iff b a,
  contains-mark a b p.members,
  contains-mark a b p.foreign_entries,
  owns_lem b k p,
  held-held_by b k p.rows,
  held-upsert a (row b k owned) p.rows,
  held-upsert a (row b k adding) p.rows,
  held-upsert a (row b k owned) (upsert (row b k adding) p.rows),
)

pub remove-IsKept :
    (a b k : String) (p : Peer) → IsKept a p → IsKept a (remove_soc_blocklist_address b k p).1
unfolding remove_soc_blocklist_address
remove-IsKept a b k p h = ground (
  arith,
  eq_iff b a,
  owns_lem b k p,
  others_lem b k p,
  contains-unmark a b p.members,
  contains-unmark a b p.foreign_entries,
  held-without_self b k p.rows,
  held-without_ne a b k p.rows,
  held-held_by b k p.rows,
)

pub probe-IsKept : (a b : String) (p : Peer) → IsKept a p → IsKept a (soc_blocklist_contains b p).1
unfolding soc_blocklist_contains
probe-IsKept a b p h = ground arith

serve-IsKept : (a : String) (rs : List Request) (p : Peer) → IsKept a p → IsKept a (serve rs p)
unfolding serve serve_one
serve-IsKept a [] p h = h
serve-IsKept a (add b k ∷ rs) p h = serve-IsKept a rs _ (add-IsKept a b k p h)
serve-IsKept a (remove b k ∷ rs) p h = serve-IsKept a rs _ (remove-IsKept a b k p h)
serve-IsKept a (probe b ∷ rs) p h = serve-IsKept a rs _ (probe-IsKept a b p h)

-- If an address is on the firewall and no operation has claimed it, it is still on the firewall after
-- any sequence of requests for any addresses by any owners, whatever the transport loses.
pub foreign_entry_kept :
    (a : String) (rs : List Request) (p : Peer)
    → contains a p.members ≡ true
    → held a p.rows ≡ false
    → contains a (serve rs p).members ≡ true
foreign_entry_kept a rs p member free =
    (serve-IsKept a rs p (record { member = member; covered = λ e. cc })).member

-- An entry that the plane put on the firewall has an owner, and is not marked as a foreign one.
pub record IsOwned (a : String) (p : Peer) : Type 0 where
  pub own : is_foreign a p ≡ false
  pub backed : contains a p.members ≡ true → held a p.rows ≡ true

add-IsOwned :
    (a b k : String) (p : Peer) → IsOwned a p → IsOwned a (add_soc_blocklist_address b k p).1
unfolding add_soc_blocklist_address
add-IsOwned a b k p h = ground (
  arith,
  eq_iff b a,
  contains-mark a b p.members,
  contains-mark a b p.foreign_entries,
  owns_lem b k p,
  held-held_by b k p.rows,
  held-upsert a (row b k owned) p.rows,
  held-upsert a (row b k adding) p.rows,
  held-upsert a (row b k owned) (upsert (row b k adding) p.rows),
)

remove-IsOwned :
    (a b k : String) (p : Peer) → IsOwned a p → IsOwned a (remove_soc_blocklist_address b k p).1
unfolding remove_soc_blocklist_address
remove-IsOwned a b k p h = ground (
  arith,
  eq_iff b a,
  owns_lem b k p,
  others_lem b k p,
  contains-unmark a b p.members,
  contains-unmark a b p.foreign_entries,
  held-without_self b k p.rows,
  held-without_ne a b k p.rows,
  held-held_by b k p.rows,
)

probe-IsOwned : (a b : String) (p : Peer) → IsOwned a p → IsOwned a (soc_blocklist_contains b p).1
unfolding soc_blocklist_contains
probe-IsOwned a b p h = ground arith

serve-IsOwned : (a : String) (rs : List Request) (p : Peer) → IsOwned a p → IsOwned a (serve rs p)
unfolding serve serve_one
serve-IsOwned a [] p h = h
serve-IsOwned a (add b k ∷ rs) p h = serve-IsOwned a rs _ (add-IsOwned a b k p h)
serve-IsOwned a (remove b k ∷ rs) p h = serve-IsOwned a rs _ (remove-IsOwned a b k p h)
serve-IsOwned a (probe b ∷ rs) p h = serve-IsOwned a rs _ (probe-IsOwned a b p h)

-- If an address starts off the firewall and unmarked, then after any requests and any losses of the
-- transport it is on the firewall only while some operation owns it.
pub entry_owned :
    (a : String) (rs : List Request) (p : Peer)
    → contains a p.members ≡ false
    → is_foreign a p ≡ false
    → contains a (serve rs p).members ≡ true
    → held a (serve rs p).rows ≡ true
entry_owned a rs p off own = (serve-IsOwned a rs p (record { own = own; backed = λ e. cc })).backed
