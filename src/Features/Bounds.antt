-- ===== src/Features/Bounds.antt =====
-- The counts of a window never exceed what they count.
use enterprise_netsec_iac.Common.{
  ℕ, ◌≡◌, ◌≤◌, suc, String, Bool, List, [], ◌∷◌, arith, filter, count, length, ok, Option, none,
  some, Result,
}
use enterprise_netsec_iac.Common.Pure.{>>=-eq-ok, ok-eq-ok}
use enterprise_netsec_iac.Value.{Value}
use native.Mathlib.Nat.{le_trans}
use enterprise_netsec_iac.Platform.{Platform}
use enterprise_netsec_iac.Features.Events.{Python, nested}
use enterprise_netsec_iac.Features.Network.{
  NetworkFeatures, network_features, distinct, distinct_numbers, present, ports_of, port_of,
  bytes_of, is_connection, is_dns_query, destination, domain,
}

length-filter_le : (p : Value → Bool) (vs : List Value) → length (filter p vs) ≤ length vs
length-filter_le p [] = omega arith
length-filter_le p (v ∷ vs) = ground (arith, length-filter_le p vs)

count_le : (p : Value → Bool) (vs : List Value) → count p vs ≤ length vs
count_le p [] = omega arith
count_le p (v ∷ vs) = ground (arith, count_le p vs)

distinct_le : (ss : List String) → distinct ss ≤ length ss
distinct_le [] = omega arith
distinct_le (s ∷ ss) = ground (arith, distinct_le ss)

distinct_numbers_le : (ns : List ℕ) → distinct_numbers ns ≤ length ns
distinct_numbers_le [] = omega arith
distinct_numbers_le (n ∷ ns) = ground (arith, distinct_numbers_le ns)

module _ (lib : Platform) (py : Python) where
  length-present :
      (f : Value → Option String) (vs : List Value) → length (present lib py f vs) ≤ length vs
  length-present f [] = omega arith
  length-present f (v ∷ vs) = ground (arith, length-present f vs)

  length-ports_of :
      (vs : List Value) {ports : List ℕ} → ports_of lib py vs ≡ ok ports → length ports ≤ length vs
  unfolding ports_of
  length-ports_of [] {ports} h = let same : [] ≡ ports = ok-eq-ok h in rw (← same) (omega arith)
  length-ports_of (v ∷ vs) {ports} h =
      let (port, _, h1) = >>=-eq-ok (port_of lib py (nested ("destination" ∷ "port" ∷ []) v)) _ h in
      let (rest, tail, h2) = >>=-eq-ok (ports_of lib py vs) _ h1 in
      let shorter = length-ports_of vs tail in one port rest h2 shorter
    where
      one :
          (port : Option ℕ) (rest : List ℕ)
          → Result.ok (elim port [ none ↦ rest | some n ↦ n ∷ rest ]) ≡ ok ports
          → length rest ≤ length vs
          → length ports ≤ suc (length vs)
      one none rest e le = let same : rest ≡ ports = ok-eq-ok e in rw (← same) (omega (arith, le))
      one (some n) rest e le =
          let same : (n ∷ rest) ≡ ports = ok-eq-ok e in rw (← same) (omega (arith, le))

  -- Whenever the features of a window are computed, the destinations, the ports and the blocked connections
  -- are at most the connections, the domains at most the queries, and every count at most the events.
  pub network_features_bounds :
      (events : List Value) {f : NetworkFeatures}
      → network_features lib py events ≡ ok f
      → (f.unique_dst_ip ≤ f.connection_count)
        × (f.unique_dst_port ≤ f.connection_count)
        × (f.blocked ≤ f.connection_count)
        × (f.unique_domain_count ≤ f.dns_query_count)
        × (f.connection_count ≤ length events)
        × (f.dns_query_count ≤ length events)
        × (f.tls_count ≤ length events)
        × (f.suricata_alert_count ≤ length events)
        × (f.failed_auth_count ≤ length events)
  unfolding network_features
  network_features_bounds events {f} h =
      let connections = filter (is_connection lib py) events in
      let queries = filter (is_dns_query lib py) events in
      let (ports, read, h1) = >>=-eq-ok (ports_of lib py connections) _ h in
      let (bytes, _, h2) = >>=-eq-ok (bytes_of lib py connections) _ h1 in
      rw (← ok-eq-ok {b = f} h2) (
        le_trans (distinct_le _) (length-present (destination lib py) connections),
        le_trans (distinct_numbers_le ports) (length-ports_of connections read),
        count_le _ connections,
        le_trans (distinct_le _) (length-present (domain lib py) queries),
        length-filter_le _ events,
        length-filter_le _ events,
        count_le _ events,
        count_le _ events,
        count_le _ events,
      )
