-- ===== src/Policy/Eligible.antt =====
-- Which targets automatic containment may touch: the checks of `assert_target_allowed` as a predicate.
use enterprise_netsec_iac.Common.{
  String, ◌≡◌, refl, ◌↔◌, true, false, some, arith, ◌⊎◌, ok, Option-cases, inl, inr, Bool-cases,
  All, ◌≢◌, Some,
}
use enterprise_netsec_iac.Common.Pure.{◌>>=◌, >>=-eq-ok}
use enterprise_netsec_iac.Value.{Value}
use enterprise_netsec_iac.Platform.{Platform, Address, in_network}
use enterprise_netsec_iac.Policy.Fields.{require_string}
use enterprise_netsec_iac.Policy.Listed.{
  any-All, All-any, among-false, false-among, contains-false, false-contains, contains-Some,
  Some-contains,
}
use enterprise_netsec_iac.Policy.Protection.{
  Action, block_ip, isolate_host, TargetType, ip, host, Target, ProtectionPolicy, address_allowed,
  assert_host_allowed, assert_target_allowed,
}

-- An address that is of no special class and on no list.
pub record IsOpenAddress (lib : Platform) (p : ProtectionPolicy) (a : Address) : Type 0 where
  pub specified : (lib.address_class a).is_unspecified ≡ false
  pub remote : (lib.address_class a).is_loopback ≡ false
  pub routed : (lib.address_class a).is_link_local ≡ false
  pub unicast : (lib.address_class a).is_multicast ≡ false
  pub unreserved : (lib.address_class a).is_reserved ≡ false
  pub public : p.block_private_ip_targets ≡ true → (lib.address_class a).is_private ≡ false
  pub unlisted : All (λ b. a ≢ b) p.allowlisted_ips
  pub outside_allowlist : All (λ n. in_network a n ≡ false) p.allowlisted_networks
  pub unprotected : All (λ b. a ≢ b) p.protected_ips
  pub outside_protected : All (λ n. in_network a n ≡ false) p.protected_networks

-- A host that is named, lower-cased, among the eligible hosts and not among the protected ones.
abbrev pub IsOpenHost : ProtectionPolicy → String → Type 0
IsOpenHost p h = All (λ n. n ≢ h) p.protected_hosts × Some (λ n. n ≡ h) p.allowed_isolation_hosts

abbrev pub IsEligible : Platform → ProtectionPolicy → Action → Target → Type 0
IsEligible lib p block_ip t =
    (t.type ≡ ip) × (a : Address) × (lib.ip_address t.value ≡ some a) × IsOpenAddress lib p a
IsEligible lib p isolate_host t =
    (t.type ≡ host)
    × (name : String) × (require_string lib (Value.text t.value) ≡ ok name)
    × IsOpenHost p (lib.lower name)

pub address_allowed-open :
    (lib : Platform) (p : ProtectionPolicy) (a : Address)
    → address_allowed lib p a ≡ ok tt
    → IsOpenAddress lib p a
unfolding address_allowed
address_allowed-open lib p a h = record {
  specified = ground arith;
  remote = ground arith;
  routed = ground arith;
  unicast = ground arith;
  unreserved = ground arith;
  public = λ b. ground arith;
  unlisted = among-false a p.allowlisted_ips (ground arith);
  outside_allowlist = any-All (in_network a) p.allowlisted_networks (ground arith);
  unprotected = among-false a p.protected_ips (ground arith);
  outside_protected = any-All (in_network a) p.protected_networks (ground arith);
}

pub open-address_allowed :
    (lib : Platform) (p : ProtectionPolicy) (a : Address)
    → IsOpenAddress lib p a
    → address_allowed lib p a ≡ ok tt
unfolding address_allowed
open-address_allowed lib p a h =
    let unlisted = false-among a p.allowlisted_ips h.unlisted in
    let outside_allowlist = All-any (in_network a) p.allowlisted_networks h.outside_allowlist in
    let unprotected = false-among a p.protected_ips h.unprotected in
    let outside_protected = All-any (in_network a) p.protected_networks h.outside_protected in
    elim (Bool-cases p.block_private_ip_targets) [
      | inl private ↦
          ground
            (arith, h.public private, unlisted, outside_allowlist, unprotected, outside_protected)
      | inr public ↦ ground (arith, unlisted, outside_allowlist, unprotected, outside_protected)
    ]

host_allowed-open :
    (p : ProtectionPolicy) (h : String) → assert_host_allowed p h ≡ ok tt → IsOpenHost p h
unfolding assert_host_allowed
host_allowed-open p h e = (
  contains-false h p.protected_hosts (ground arith),
  contains-Some h p.allowed_isolation_hosts (ground arith),
)

open-host_allowed :
    (p : ProtectionPolicy) (h : String) → IsOpenHost p h → assert_host_allowed p h ≡ ok tt
unfolding assert_host_allowed
open-host_allowed p h (a, b) =
    ground
      (arith, false-contains h p.protected_hosts a, Some-contains h p.allowed_isolation_hosts b)

type-cases : (y : TargetType) → (y ≡ ip) ⊎ (y ≡ host)
type-cases ip = inl refl
type-cases host = inr refl

block_ip-IsEligible :
    (lib : Platform) (p : ProtectionPolicy) (t : Target)
    → assert_target_allowed lib p block_ip t ≡ ok tt
    → IsEligible lib p block_ip t
unfolding assert_target_allowed
block_ip-IsEligible lib p t h = elim (type-cases t.type) [
  | inr other ↦ ground arith
  | inl typed ↦ elim (Option-cases (lib.ip_address t.value)) [
    | inl nothing ↦ ground arith
    | inr (a, parsed) ↦ (typed, a, parsed, address_allowed-open lib p a (ground arith))
  ]
]

isolate_host-IsEligible :
    (lib : Platform) (p : ProtectionPolicy) (t : Target)
    → assert_target_allowed lib p isolate_host t ≡ ok tt
    → IsEligible lib p isolate_host t
unfolding assert_target_allowed
isolate_host-IsEligible lib p t h = elim (type-cases t.type) [
  | inl other ↦ ground arith
  | inr typed ↦
      let host_check : (require_string lib (Value.text t.value) >>= λ name.
      assert_host_allowed p (lib.lower name))
          ≡ ok tt =
        ground arith in
      let (name, given, open_) = >>=-eq-ok (require_string lib (Value.text t.value)) _ host_check in
      (typed, name, given, host_allowed-open p (lib.lower name) open_)
]

allowed-IsEligible :
    (lib : Platform) (p : ProtectionPolicy) (a : Action) (t : Target)
    → assert_target_allowed lib p a t ≡ ok tt
    → IsEligible lib p a t
allowed-IsEligible lib p block_ip t h = block_ip-IsEligible lib p t h
allowed-IsEligible lib p isolate_host t h = isolate_host-IsEligible lib p t h

IsEligible-allowed :
    (lib : Platform) (p : ProtectionPolicy) (a : Action) (t : Target)
    → IsEligible lib p a t
    → assert_target_allowed lib p a t ≡ ok tt
unfolding assert_target_allowed
IsEligible-allowed lib p block_ip t (typed, a, parsed, open_) =
    ground (arith, open-address_allowed lib p a open_)
IsEligible-allowed lib p isolate_host t (typed, name, given, open_) =
    ground (arith, open-host_allowed p (lib.lower name) open_)

-- The target check passes exactly on the eligible targets: a block needs an address of no special class,
-- not private where private addresses are ruled out, and neither allowlisted nor protected, by address
-- or by network; an isolation needs a host on the list of eligible hosts and not a protected one.
pub assert_target_allowed_iff :
    (lib : Platform) (p : ProtectionPolicy) (a : Action) (t : Target)
    → (assert_target_allowed lib p a t ≡ ok tt) ↔ IsEligible lib p a t
assert_target_allowed_iff lib p a t = (allowed-IsEligible lib p a t, IsEligible-allowed lib p a t)
