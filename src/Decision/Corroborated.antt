-- ===== src/Decision/Corroborated.antt =====
-- When signals corroborate an anomaly: some signal meets some requirement of the policy.
use enterprise_netsec_iac.Common.{
  ℕ, ◌≡◌, ◌≤◌, true, Option, none, some, List, arith, eq_iff, Some, Some-any, any-Some, Some-map,
  any, refl,
}
use enterprise_netsec_iac.Policy.Rules.{Signal, SignalRequirement, ResponsePolicy, matches, reaches}
use enterprise_netsec_iac.Decision.Engine.{corroborates}

-- A bound that is set is met by a number that is there and not below it.
abbrev pub Reaches : Option ℕ → Option ℕ → Type 0
Reaches none value = Unit
Reaches (some bound) none = ⊥
Reaches (some bound) (some n) = bound ≤ n

pub record IsMet (r : SignalRequirement) (s : Signal) : Type 0 where
  pub kind : s.type ≡ r.kind
  pub severe : Reaches r.min_severity s.severity
  pub frequent : Reaches r.min_count s.count

abbrev pub IsCorroborated : ResponsePolicy → List Signal → Type 0
IsCorroborated p signals = Some (λ r. Some (IsMet r) signals) p.require_any

reaches-Reaches : (bound value : Option ℕ) → reaches bound value ≡ true → Reaches bound value
reaches-Reaches none value h = tt
reaches-Reaches (some b) none h = cc
reaches-Reaches (some b) (some n) h = ground arith

Reaches-reaches : (bound value : Option ℕ) → Reaches bound value → reaches bound value ≡ true
Reaches-reaches none value h = refl
Reaches-reaches (some b) none h = elim h [ ]
Reaches-reaches (some b) (some n) h = ground arith

matches-IsMet : (r : SignalRequirement) (s : Signal) → matches r s ≡ true → IsMet r s
unfolding matches
matches-IsMet r s h = record {
  kind = ground (arith, eq_iff s.type r.kind);
  severe = reaches-Reaches r.min_severity s.severity (ground arith);
  frequent = reaches-Reaches r.min_count s.count (ground arith);
}

IsMet-matches : (r : SignalRequirement) (s : Signal) → IsMet r s → matches r s ≡ true
unfolding matches
IsMet-matches r s m = ground (
  arith,
  eq_iff s.type r.kind,
  m.kind,
  Reaches-reaches r.min_severity s.severity m.severe,
  Reaches-reaches r.min_count s.count m.frequent,
)

pub corroborates-IsCorroborated :
    (p : ResponsePolicy) (signals : List Signal)
    → corroborates p signals ≡ true
    → IsCorroborated p signals
corroborates-IsCorroborated p signals h =
    Some-map p.require_any
      (λ r met. Some-map signals (matches-IsMet r) (Some-any (matches r) signals met))
      (Some-any (λ r. any (matches r) signals) p.require_any h)

pub IsCorroborated-corroborates :
    (p : ResponsePolicy) (signals : List Signal)
    → IsCorroborated p signals
    → corroborates p signals ≡ true
IsCorroborated-corroborates p signals h =
    any-Some (λ r. any (matches r) signals) p.require_any
      (Some-map p.require_any
        (λ r met. any-Some (matches r) signals (Some-map signals (IsMet-matches r) met)) h)
