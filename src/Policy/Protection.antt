-- ===== src/Policy/Protection.antt =====
-- response/policy.py, `ProtectionPolicy`: the targets that automatic containment never touches.
use enterprise_netsec_iac.Common.{
  String, Bool, false, ◌&&◌, ◌||◌, Option, none, some, List, [], ◌∷◌, map, any, contains, Result,
  ok, error, policy_error, if◌then◌else◌,
}
use enterprise_netsec_iac.Common.Pure.{◌>>=◌, ◌>>◌, require, refuse}
use enterprise_netsec_iac.Value.{Value, get, has_only, bool, find}
use enterprise_netsec_iac.Platform.{Platform, Address, Network, same_address, in_network}
use enterprise_netsec_iac.Policy.Fields.{require_mapping, require_string, string_list}

-- `SUPPORTED_ACTIONS`, and the two types of target.
pub data Action : Type 0 where
  block_ip isolate_host : Action

pub data TargetType : Type 0 where
  ip host : TargetType

pub record Target : Type 0 where
  pub type : TargetType
  pub value : String

pub record ProtectionPolicy : Type 0 where
  pub allowlisted_ips : List Address
  pub allowlisted_networks : List Network
  pub protected_ips : List Address
  pub protected_networks : List Network
  pub protected_hosts : List String
  pub allowed_isolation_hosts : List String
  pub block_private_ip_targets : Bool

abbrev pub among : Address → List Address → Bool
among a = any (same_address a)

abbrev pub in_some : Address → List Network → Bool
in_some a = any (in_network a)

-- The checks on an address, in the order in which `assert_target_allowed` makes them.
unfoldable pub address_allowed : Platform → ProtectionPolicy → Address → Result (Unit {0})
address_allowed lib p a = do
  refuse (is_unspecified || is_loopback || is_link_local || is_multicast) policy_error
      "automatic containment cannot target special-use IP addresses"
  refuse is_reserved policy_error "automatic containment cannot target reserved IP addresses"
  refuse (p.block_private_ip_targets && is_private) policy_error
      "automatic containment of private IP addresses is disabled"
  refuse (among a p.allowlisted_ips || in_some a p.allowlisted_networks) policy_error
      "target is explicitly allowlisted"
  refuse (among a p.protected_ips) policy_error
      "target is protected DNS, NTP, RADIUS, SOC, or management infrastructure"
  refuse (in_some a p.protected_networks) policy_error
      "target is in a protected management or SOC network"
  where
    open lib.address_class a use {
      is_unspecified, is_loopback, is_link_local, is_multicast, is_reserved, is_private,
    }

unfoldable pub assert_host_allowed : ProtectionPolicy → String → Result (Unit {0})
assert_host_allowed p h = do
  refuse (contains h p.protected_hosts) policy_error "target is a protected management or SOC host"
  require (contains h p.allowed_isolation_hosts) policy_error
      "host is not explicitly eligible for controlled isolation"

unfoldable pub assert_target_allowed :
    Platform → ProtectionPolicy → Action → Target → Result (Unit {0})
unfolding address_allowed assert_host_allowed require_string
assert_target_allowed lib p block_ip t = elim t.type [
  | host ↦ error policy_error "block_ip requires an IP target"
  | ip ↦ elim (lib.ip_address t.value) [
    | none ↦ error policy_error "block_ip target is not a valid IP address"
    | some a ↦ address_allowed lib p a
  ]
]
assert_target_allowed lib p isolate_host t = elim t.type [
  | ip ↦ error policy_error "isolate_host requires a host target"
  | host ↦ do name ← require_string lib (Value.text t.value); assert_host_allowed p (lib.lower name)
]

-- `frozenset`, as a list without repetitions.
abbrev pub frozenset : List String → List String
frozenset [] = []
frozenset (s ∷ ss) = let rest = frozenset ss in if contains s ss then rest else s ∷ rest

module _ (lib : Platform) where
  abbrev each {ℓ} : {A : Type ℓ} → (String → Option A) → List String → Option (List A)
  each f [] = some []
  each f (s ∷ ss) = elim (f s) [
    | none ↦ none
    | some a ↦ elim (each f ss) [ none ↦ none | some as_ ↦ some (a ∷ as_) ]
  ]

  unfoldable pub addresses : Value → Result (List Address)
  unfolding string_list
  addresses v = do
    names ← string_list lib v
    elim (each lib.ip_address names) [
      | none ↦ error policy_error "contains an invalid IP address"
      | some xs ↦ ok xs
    ]

  unfoldable pub networks : Value → Result (List Network)
  unfolding string_list
  networks v = do
    names ← string_list lib v
    elim (each lib.ip_network names) [
      | none ↦ error policy_error "contains an invalid CIDR"
      | some xs ↦ ok xs
    ]

  -- `data.get("block_private_ip_targets", False)`, which must be a Boolean.
  abbrev private_flag : Option Value → Result Bool
  private_flag none = ok false
  private_flag (some (bool b)) = ok b
  private_flag (some _) = error policy_error "block_private_ip_targets must be boolean"

  unfoldable pub protections_from_mapping : Value → Result ProtectionPolicy
  unfolding addresses networks string_list require_mapping
  protections_from_mapping v = do
    mapping ← require_mapping v
    require
        (has_only
          ("allowlisted_ips" ∷ "allowlisted_networks" ∷ "protected_ips" ∷ "protected_networks"
            ∷ "protected_hosts" ∷ "allowed_isolation_hosts" ∷ "block_private_ip_targets" ∷ [])
          mapping)
        policy_error "defaults.protections has unsupported fields"
    private ← private_flag (find "block_private_ip_targets" mapping)
    ips ← addresses (get "allowlisted_ips" mapping)
    nets ← networks (get "allowlisted_networks" mapping)
    guarded_ips ← addresses (get "protected_ips" mapping)
    guarded_nets ← networks (get "protected_networks" mapping)
    hosts ← string_list lib (get "protected_hosts" mapping)
    eligible ← string_list lib (get "allowed_isolation_hosts" mapping)
    ok (record {
      allowlisted_ips = ips;
      allowlisted_networks = nets;
      protected_ips = guarded_ips;
      protected_networks = guarded_nets;
      protected_hosts = frozenset (map lib.lower hosts);
      allowed_isolation_hosts = frozenset (map lib.lower eligible);
      block_private_ip_targets = private;
    })
