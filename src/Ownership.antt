-- ===== src/Ownership.antt =====
-- response/transports/ownership.py: who holds an address of the blocklist of one firewall peer.
-- `Peer` is the client's state: the rows of the tables `owners` and `foreign_entries`, the set on the
-- firewall, and the faults that the transport will meet. An address is given in its normal form
-- (`_norm` maps a text to it or raises); locks are not modelled, since each call holds the lock.
pub mod Rows
pub mod Released
pub mod Kept
mod Tests
use enterprise_netsec_iac.Common.{
  String, Bool, true, false, not, ◌&&◌, ◌||◌, Option, none, some, List, [], ◌∷◌, str_eq,
  if◌then◌else◌, any, all, filter, contains, Kind, ok, err, error, adapter_error, value_error,
  Method, pure, lift, raise, gets, modify, ◌>>=◌, ◌>>◌,
}

pub data Mode : Type 0 where
  adding owned : Mode

-- A row of the table `owners`.
pub record Claim : Type 0 where
  pub address : String
  pub owner : String
  pub mode : Mode

-- What a call over the network meets: it works, it never arrives, or its answer is lost.
pub data Weather : Type 0 where
  calm lost_before lost_after : Weather

pub record Peer : Type 0 where
  pub rows : List Claim
  pub foreign_entries : List String
  pub members : List String
  pub weather : List Weather

-- The reference that a call returns: `_tag` writes it as `kind:` and the end of the key.
pub data TagKind : Type 0 where
  owned_tag preexisting added shared absent removed : TagKind

pub record Tag : Type 0 where
  pub kind : TagKind
  pub key : String

abbrev pub tag : TagKind → String → Tag
tag k key = record { kind = k; key = key }

-- `OwnershipLedger.owners`: the owners of an address.
abbrev pub at_address : String → Claim → Bool
at_address a c = str_eq c.address a

abbrev pub by_owner : String → Claim → Bool
by_owner k c = str_eq c.owner k

abbrev pub owners : String → Peer → List Claim
owners a p = filter (at_address a) p.rows

abbrev pub is_foreign : String → Peer → Bool
is_foreign a p = contains a p.foreign_entries

-- `INSERT … ON CONFLICT(address, owner) DO UPDATE SET mode=excluded.mode`
unfoldable pub upsert : Claim → List Claim → List Claim
upsert c [] = c ∷ []
upsert c (r ∷ rs) = if at_address c.address r && by_owner c.owner r then c ∷ rs else r ∷ upsert c rs

abbrev pub mark : String → List String → List String
mark a xs = if contains a xs then xs else a ∷ xs

abbrev pub unmark : String → List String → List String
unmark a = filter (λ b. not (str_eq b a))

pub claim : String → String → Mode → Bool → Peer → Peer
unfolding upsert
claim a k m foreign p = record p {
  rows = upsert (record { address = a; owner = k; mode = m }) p.rows;
  foreign_entries = if foreign then mark a p.foreign_entries else p.foreign_entries;
}

pub release : String → String → Peer → Peer
release a k p =
    let rows' = filter (λ c. not (at_address a c && by_owner k c)) p.rows in
    record p {
      rows = rows';
      foreign_entries =
          if any (at_address a) rows' then p.foreign_entries else unmark a p.foreign_entries;
    }

-- The backend's operations on the set, each under the next fault of the transport.
abbrev pub next_weather : List Weather → Weather
next_weather [] = calm
next_weather (w ∷ ws) = w

abbrev pub later_weather : List Weather → List Weather
later_weather [] = []
later_weather (w ∷ ws) = ws

pub raw_contains : String → Method Peer Bool
raw_contains a p = elim (next_weather p.weather) [
  | calm ↦ (ok (contains a p.members), record p { weather = later_weather p.weather })
  | _ ↦ (error adapter_error "timeout", record p { weather = later_weather p.weather })
]

-- A change of the set arrives or not, and is answered or not.
raw_change : (List String → List String) → Method Peer (Unit {0})
raw_change f p = elim (next_weather p.weather) [
  | calm ↦ (ok tt, record p { members = f p.members; weather = later_weather p.weather })
  | lost_before ↦ (error adapter_error "timeout", record p { weather = later_weather p.weather })
  | lost_after ↦ (
    error adapter_error "timeout",
    record p { members = f p.members; weather = later_weather p.weather },
  )
]

pub raw_add : String → Method Peer (Unit {0})
unfolding raw_change
raw_add a = raw_change (mark a)

pub raw_remove : String → Method Peer (Unit {0})
unfolding raw_change
raw_remove a = raw_change (unmark a)

-- `if not self._raw.contains(address): self._raw.add(address, …)`
ensure_present : String → Method Peer (Unit {0})
unfolding raw_contains raw_add
ensure_present a = do present ← raw_contains a; if present then pure tt else raw_add a

-- The three branches of `add_soc_blocklist_address`.
add_again : String → String → Method Peer Tag
unfolding ensure_present claim
add_again a k = do ensure_present a; modify (claim a k owned false); pure (tag owned_tag k)

add_first : String → String → Method Peer Tag
unfolding raw_contains raw_add claim
add_first a k = do
  present ← raw_contains a
  if present then (do modify (claim a k owned true); pure (tag preexisting k)) else (do
    modify (claim a k adding false)
    raw_add a
    modify (claim a k owned false)
    pure (tag added k))

add_shared : String → String → Method Peer Tag
unfolding ensure_present claim
add_shared a k = do modify (claim a k owned false); ensure_present a; pure (tag shared k)

unfoldable pub add_soc_blocklist_address : String → String → Method Peer Tag
unfolding add_again add_first add_shared
add_soc_blocklist_address a k p =
    if any (by_owner k) (owners a p)
    then add_again a k p
    else if not (any (at_address a) p.rows) && not (is_foreign a p)
    then add_first a k p
    else add_shared a k p

unfoldable pub remove_soc_blocklist_address : String → String → Method Peer Tag
unfolding raw_remove release
remove_soc_blocklist_address a k p =
    let others = any (λ c. not (by_owner k c)) (owners a p) in
    if not (any (by_owner k) (owners a p))
    then (ok (tag absent k), p)
    else if others || is_foreign a p
    then (ok (tag (if others then shared else preexisting) k), release a k p)
    else (do raw_remove a; modify (release a k); pure (tag removed k)) p

unfoldable pub soc_blocklist_contains : String → Method Peer Bool
unfolding raw_contains
soc_blocklist_contains a = raw_contains a
