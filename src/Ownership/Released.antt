-- ===== src/Ownership/Released.antt =====
-- What a successful call of the client has done, and what a failed one leaves behind.
use enterprise_netsec_iac.Common.{String, ◌≡◌, true, false, ◌||◌, eq_iff, arith, contains, ok, Bool}
use enterprise_netsec_iac.Ownership.{
  Peer, Claim, Mode, adding, owned, Tag, tag, removed, upsert, is_foreign,
  add_soc_blocklist_address, remove_soc_blocklist_address, soc_blocklist_contains,
}
use enterprise_netsec_iac.Ownership.Rows.{
  held, held_by, held_by_others, contains-mark, contains-unmark, held-without_self,
  held_by-upsert_self, held_by-without_self, without, without-without,
}
use enterprise_netsec_iac.Ownership.Kept.{owns_lem, others_lem}

abbrev row : String → String → Mode → Claim
row a k m = record { address = a; owner = k; mode = m }

-- A successful add leaves the address on the firewall, with a row for the caller's key.
pub add_confirms :
    (a k : String) (p : Peer) {t : Tag}
    → (add_soc_blocklist_address a k p).0 ≡ ok t
    → let p' = (add_soc_blocklist_address a k p).1 in
      (contains a p'.members ≡ true) × (held_by a k p'.rows ≡ true)
unfolding add_soc_blocklist_address
add_confirms a k p h = ground (
  arith,
  eq_iff a a,
  contains-mark a a p.members,
  held_by-upsert_self (row a k owned) p.rows,
  held_by-upsert_self (row a k owned) (upsert (row a k adding) p.rows),
)

-- Whatever an add returns or raises, if it changed whether the address is on the firewall, the
-- caller's key has a row for it, so a later remove under that key can release it.
pub add_intent_first :
    (a k : String) (p : Peer)
    → let p' = (add_soc_blocklist_address a k p).1 in
      contains a p.members ≡ false → contains a p'.members ≡ true → held_by a k p'.rows ≡ true
unfolding add_soc_blocklist_address
add_intent_first a k p off on = ground (
  arith,
  eq_iff a a,
  owns_lem a k p,
  contains-mark a a p.members,
  held_by-upsert_self (row a k owned) p.rows,
  held_by-upsert_self (row a k adding) p.rows,
  held_by-upsert_self (row a k owned) (upsert (row a k adding) p.rows),
)

-- A remove answers `removed` only if the key was the last owner of an entry that is not foreign, and
-- then the address is off the firewall and nobody owns it.
pub remove_last_owner :
    (a k : String) (p : Peer)
    → (remove_soc_blocklist_address a k p).0 ≡ ok (tag removed k)
    → let p' = (remove_soc_blocklist_address a k p).1 in
      (held_by a k p.rows ≡ true)
      × ((held_by_others a k p.rows || is_foreign a p) ≡ false)
      × (contains a p'.members ≡ false)
      × (held a p'.rows ≡ false)
unfolding remove_soc_blocklist_address
remove_last_owner a k p h = ground (
  arith,
  eq_iff a a,
  owns_lem a k p,
  others_lem a k p,
  contains-unmark a a p.members,
  held-without_self a k p.rows,
)

-- While another operation owns the address, or the entry is a foreign one, a remove leaves the set on
-- the firewall as it is and meets no transport, and every row but the caller's own for the address stays
-- as it is, in its place.
pub remove_spares_others :
    (a k : String) (p : Peer)
    → (held_by_others a k p.rows || is_foreign a p) ≡ true
    → let p' = (remove_soc_blocklist_address a k p).1 in
      (p'.members ≡ p.members)
      × (p'.weather ≡ p.weather)
      × (without a k p'.rows ≡ without a k p.rows)
unfolding remove_soc_blocklist_address
remove_spares_others a k p h =
    ground (arith, owns_lem a k p, others_lem a k p, without-without a k p.rows)

-- After a remove that returns, the key has no row for the address.
pub remove_drops_claim :
    (a k : String) (p : Peer) {t : Tag}
    → (remove_soc_blocklist_address a k p).0 ≡ ok t
    → held_by a k (remove_soc_blocklist_address a k p).1.rows ≡ false
unfolding remove_soc_blocklist_address
remove_drops_claim a k p h =
    ground (arith, owns_lem a k p, others_lem a k p, held_by-without_self a k p.rows)

-- A read that returns says what is on the set, and no read changes the set or the rows.
pub contains_answers :
    (a : String) (p : Peer)
    → ((b : Bool) → (soc_blocklist_contains a p).0 ≡ ok b → contains a p.members ≡ b)
      × ((soc_blocklist_contains a p).1.members ≡ p.members)
      × ((soc_blocklist_contains a p).1.rows ≡ p.rows)
unfolding soc_blocklist_contains
contains_answers a p = (λ b h. ground arith, ground arith, ground arith)
