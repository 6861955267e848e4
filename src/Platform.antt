-- ===== src/Platform.antt =====
-- What the response plane uses of Python's standard library and of `hashlib`, as one interface: the
-- reading and writing of addresses and timestamps, the case and the margins of texts, and digests.
-- Addresses, networks and instants themselves are concrete.
use enterprise_netsec_iac.Common.{
  ℕ, ◌-◌, ◌/◌, ◌%◌, ◌^◌, String, Bool, true, false, ◌&&◌, Option, none, some, str_eq, ◌==◌, ◌&&◌,
}
use enterprise_netsec_iac.Value.{Value}

-- `ipaddress.IPv4Address` and `IPv6Address`, by the number that an address stands for; an address of the
-- second kind may have a zone, `scope_id`.
pub data Address : Type 0 where
  ipv4 : ℕ → Address
  ipv6 : ℕ → Option String → Address

abbrev pub same_zone : Option String → Option String → Bool
same_zone none none = true
same_zone (some s) (some t) = str_eq s t
same_zone _ _ = false

-- `==`, which compares the zones too.
abbrev pub same_address : Address → Address → Bool
same_address (ipv4 a) (ipv4 b) = a == b
same_address (ipv6 a s) (ipv6 b t) = a == b && same_zone s t
same_address _ _ = false

-- `ip_network(…, strict=False)`: its address, and how many low bits are free.
pub record Network : Type 0 where
  pub address : Address
  pub host_bits : ℕ

-- `address in network`, which does not look at the zone.
abbrev pub in_network : Address → Network → Bool
in_network (ipv4 a) n = elim n.address [
  | ipv4 b ↦ a / 2 ^ n.host_bits == b / 2 ^ n.host_bits
  | ipv6 b t ↦ false
]
in_network (ipv6 a s) n = elim n.address [
  | ipv4 b ↦ false
  | ipv6 b t ↦ a / 2 ^ n.host_bits == b / 2 ^ n.host_bits
]

-- The properties of an address that the registries of `ipaddress` decide.
pub record AddressClass : Type 0 where
  pub is_unspecified : Bool
  pub is_loopback : Bool
  pub is_link_local : Bool
  pub is_multicast : Bool
  pub is_reserved : Bool
  pub is_private : Bool

-- A parsed timestamp: microseconds of UTC since the year 1, and whether the text had an offset.
pub record Stamp : Type 0 where
  pub micros : ℕ
  pub aware : Bool

abbrev pub second : ℕ
second = 1_000_000

-- What `isoformat(timespec="milliseconds")` keeps of an instant.
abbrev pub to_millis : ℕ → ℕ
to_millis t = t - t % 1000

pub record Platform : Type 0 where
  pub ip_address : String → Option Address
  pub address_text : Address → String
  pub ip_network : String → Option Network
  pub network_text : Network → String
  pub address_class : Address → AddressClass
  -- of the text with each `Z` replaced by `+00:00`
  pub fromisoformat : String → Option Stamp
  -- `_rfc3339`, of an instant that `to_millis` has rounded
  pub isoformat : ℕ → String
  pub strip : String → String
  pub lower : String → String
  -- `text[:n]`
  pub text_prefix : String → ℕ → String
  pub text_length : String → ℕ
  -- the SHA-256 of a text in hexadecimal, and `json.dumps` with sorted keys and no spaces
  pub sha256 : String → String
  pub canonical_json : Value → String

-- `sha256_hex` of response/policy.py.
abbrev pub sha256_hex : Platform → Value → String
sha256_hex lib v = lib.sha256 (lib.canonical_json v)
