-- ===== src/Decision/Gate.antt =====
-- When the decision engine issues a command: the conditions of a containment, as a predicate.
use enterprise_netsec_iac.Common.{
  ℕ, ◌+◌, ◌*◌, ◌≤◌, String, ◌≡◌, ◌≢◌, refl, ap, ◌∙◌, ◌↔◌, true, false, Option, none, some, List, [],
  ◌∷◌, map, arith, All, eq_iff, ok,
}
use enterprise_netsec_iac.Common.Pure.{
  >>=-eq-ok, require, refuse, require-eq-ok, refuse-eq-ok, ok-eq-ok,
}
use enterprise_netsec_iac.Value.{Value}
use enterprise_netsec_iac.Value.Number.{leq}
use enterprise_netsec_iac.Platform.{Platform, second}
use enterprise_netsec_iac.Policy.Protection.{Target, assert_target_allowed}
use enterprise_netsec_iac.Policy.Rules.{Signal, ResponsePolicy}
use enterprise_netsec_iac.Policy.Catalog.{PolicyCatalog, policy}
use enterprise_netsec_iac.Audit.{same_target}
use enterprise_netsec_iac.Decision.Evidence.{
  Anomaly, validate_anomaly, validate_target, validate_signals,
}
use enterprise_netsec_iac.Decision.Engine.{
  Rejection, Decision, freshness, rejection_reason, is_about, is_the_anomaly, check_signals, weigh,
  evaluate, decide, decision_material, correlation_of, identifier,
}
use enterprise_netsec_iac.Decision.Corroborated.{
  IsCorroborated, corroborates-IsCorroborated, IsCorroborated-corroborates,
}

-- Evidence that is neither too old nor more than a minute ahead.
abbrev pub IsFresh : ℕ → ℕ → ℕ → Type 0
IsFresh age now t = (now ≤ t + age * second) × (t ≤ now + 60 * second)

-- What warrants a containment, apart from whom the evidence is about.
pub record IsWarranted (lib : Platform) (catalog : PolicyCatalog) (p : ResponsePolicy) (a : Anomaly)
    (signals : List Signal) (target : Target) (now : ℕ) : Type 0 where
  pub fresh :
      All
        (IsFresh catalog.evidence_max_age_seconds now)
        (a.observed_at ∷ map (λ s. s.observed_at) signals)
  pub anomalous : a.is_anomaly ≡ true
  pub scored : leq p.min_ai_score a.score ≡ true
  pub corroborated : IsCorroborated p signals
  pub allowed : assert_target_allowed lib catalog.protections p.action target ≡ ok tt

freshness-All : (age now : ℕ) (ts : List ℕ) → freshness age now ts ≡ none → All (IsFresh age now) ts
unfolding freshness
freshness-All age now [] h = tt
freshness-All age now (t ∷ ts) h =
    ((ground arith, ground arith), freshness-All age now ts (ground arith))

All-freshness : (age now : ℕ) (ts : List ℕ) → All (IsFresh age now) ts → freshness age now ts ≡ none
unfolding freshness
All-freshness age now [] h = refl
All-freshness age now (t ∷ ts) ((young, past), later) =
    ground (arith, All-freshness age now ts later)

rejection_reason-IsWarranted :
    (lib : Platform) (catalog : PolicyCatalog) (p : ResponsePolicy) (a : Anomaly)
    → (signals : List Signal) (target : Target) (now : ℕ)
    → rejection_reason lib catalog p a signals target now ≡ none
    → IsWarranted lib catalog p a signals target now
unfolding rejection_reason
rejection_reason-IsWarranted lib catalog p a signals target now h = record {
  fresh =
      freshness-All catalog.evidence_max_age_seconds now
        (a.observed_at ∷ map (λ s. s.observed_at) signals) (ground arith);
  anomalous = ground arith;
  scored = ground arith;
  corroborated = corroborates-IsCorroborated p signals (ground arith);
  allowed = ground arith;
}

IsWarranted-rejection_reason :
    (lib : Platform) (catalog : PolicyCatalog) (p : ResponsePolicy) (a : Anomaly)
    → (signals : List Signal) (target : Target) (now : ℕ)
    → IsWarranted lib catalog p a signals target now
    → rejection_reason lib catalog p a signals target now ≡ none
unfolding rejection_reason
IsWarranted-rejection_reason lib catalog p a signals target now w = ground (
  arith,
  All-freshness catalog.evidence_max_age_seconds now
      (a.observed_at ∷ map (λ s. s.observed_at) signals) w.fresh,
  w.anomalous,
  w.scored,
  IsCorroborated-corroborates p signals w.corroborated,
  w.allowed,
)

-- The engine finds no reason to refuse exactly when all evidence is fresh, the anomaly is one and reaches
-- the policy's score, a signal meets a requirement of the policy, and the target may be contained.
pub rejection_reason_iff :
    (lib : Platform) (catalog : PolicyCatalog) (p : ResponsePolicy) (a : Anomaly)
    → (signals : List Signal) (target : Target) (now : ℕ)
    → (rejection_reason lib catalog p a signals target now ≡ none)
      ↔ IsWarranted lib catalog p a signals target now
rejection_reason_iff lib catalog p a signals target now = (
  rejection_reason-IsWarranted lib catalog p a signals target now,
  IsWarranted-rejection_reason lib catalog p a signals target now,
)

-- A signal about the target that is not the anomaly under another name.
abbrev pub IsIndependent : Anomaly → Target → Signal → Type 0
IsIndependent a target s = (is_about target s ≡ true) × (s.reference ≢ a.event_id)

-- The evidence behind a command.
pub record IsGrounded (lib : Platform) (catalog : PolicyCatalog) (policy_id : String)
    (anomaly independent_signals target : Value) (now : ℕ) : Type 0 where
  pub rule : ResponsePolicy
  pub found : Anomaly
  pub aim : Target
  pub signals : List Signal
  pub named : policy catalog policy_id ≡ ok rule
  pub read : validate_anomaly lib anomaly ≡ ok found
  pub aimed : validate_target lib target ≡ ok aim
  pub seen : validate_signals lib independent_signals ≡ ok signals
  pub same : same_target found.target aim ≡ true
  pub independent : All (IsIndependent found aim) signals
  pub warranted : IsWarranted lib catalog rule found signals aim now

module _ (lib : Platform) (catalog : PolicyCatalog) (sign : Value → String) (key_id : String) where
  check_signals-All :
      (a : Anomaly) (t : Target) (ss : List Signal)
      → check_signals lib catalog sign key_id a t ss ≡ ok tt
      → All (IsIndependent a t) ss
  unfolding check_signals
  check_signals-All a t [] h = tt
  check_signals-All a t (s ∷ ss) h =
      let (_, about, h1) = >>=-eq-ok (require (is_about t s) _ _) _ h in
      let (_, other, rest) = >>=-eq-ok (refuse (is_the_anomaly a s) _ _) _ h1 in
      let distinct = refuse-eq-ok (is_the_anomaly a s) _ _ other in
      (
        (require-eq-ok (is_about t s) _ _ about, ground (arith, eq_iff s.reference a.event_id)),
        check_signals-All a t ss rest,
      )

  decide-eligible :
      (p : ResponsePolicy) (a : Anomaly) (ss : List Signal) (t : Target) (now : ℕ)
      → (decision correlation : String) (o : Option Rejection)
      → (decide lib catalog sign key_id p a ss t now decision correlation o).eligible ≡ true
      → o ≡ none
  unfolding decide
  decide-eligible p a ss t now decision correlation none e = refl
  decide-eligible p a ss t now decision correlation (some r) e = cc

  weigh-IsWarranted :
      (p : ResponsePolicy) (a : Anomaly) (ss : List Signal) (t : Target) (now : ℕ)
      → (label : Option String) {d : Decision}
      → weigh lib catalog sign key_id p a ss t now label ≡ ok d
      → d.eligible ≡ true
      → IsWarranted lib catalog p a ss t now
  unfolding weigh
  weigh-IsWarranted p a [] t now label h e =
      let same = ok-eq-ok h in let never : false ≡ true = ap (λ x. x.eligible) same ∙ e in cc
  weigh-IsWarranted p a (s ∷ ss) t now label {d} h e =
      let material = decision_material lib p a (s ∷ ss) t in
      let (correlation, _, done) = >>=-eq-ok (correlation_of lib label material) _ h in
      let same = ok-eq-ok done in
      rejection_reason-IsWarranted lib catalog p a (s ∷ ss) t now (
        decide-eligible p a (s ∷ ss) t now (identifier lib "dec" material) correlation
          (rejection_reason lib catalog p a (s ∷ ss) t now) (ap (λ x. x.eligible) same ∙ e))

  -- If the engine answers that a containment is eligible, then the policy is in the catalog, the anomaly,
  -- the target and the signals have passed their checks, all are about that target, no signal is the
  -- anomaly itself, and the containment is warranted.
  pub evaluate-IsGrounded :
      (policy_id : String) (anomaly independent_signals target : Value) (now : ℕ)
      → (label : Option String) {d : Decision}
      → evaluate lib catalog sign key_id policy_id anomaly independent_signals target now label
        ≡ ok d
      → d.eligible ≡ true
      → IsGrounded lib catalog policy_id anomaly independent_signals target now
  unfolding evaluate
  evaluate-IsGrounded policy_id anomaly independent_signals target now label {d} h e =
      let (p, named, h1) = >>=-eq-ok (policy catalog policy_id) _ h in
      let (a, read, h2) = >>=-eq-ok (validate_anomaly lib anomaly) _ h1 in
      let (t, aimed, h3) = >>=-eq-ok (validate_target lib target) _ h2 in
      let (ss, seen, h4) = >>=-eq-ok (validate_signals lib independent_signals) _ h3 in
      let (_, same, h5) = >>=-eq-ok (require (same_target a.target t) _ _) _ h4 in
      let (_, independent, weighed) =
        >>=-eq-ok (check_signals lib catalog sign key_id a t ss) _ h5 in
      record {
        rule = p;
        found = a;
        aim = t;
        signals = ss;
        named = named;
        read = read;
        aimed = aimed;
        seen = seen;
        same = require-eq-ok (same_target a.target t) _ _ same;
        independent = check_signals-All a t ss independent;
        warranted = weigh-IsWarranted p a ss t now label weighed e;
      }
