-- ===== src/Policy/Loaded.antt =====
-- What holds of every policy catalog that was loaded.
use enterprise_netsec_iac.Common.{
  ltb-false→le, ℕ, ◌≤◌, String, ◌≡◌, ap, true, ltb, List, [], ◌∷◌, map, arith, All, ok,
}
use enterprise_netsec_iac.Common.Pure.{
  >>=-eq-ok, ok-eq-ok, require, refuse, require-eq-ok, refuse-eq-ok,
}
use enterprise_netsec_iac.Value.{
  Value, Items, Fields, get, has_only, has_exactly, is_true, nil, cons, int, float, list,
}
use enterprise_netsec_iac.Value.Number.{pos, finite, Rational, leq, nine_tenths, one_q}
use enterprise_netsec_iac.Platform.{Platform}
use enterprise_netsec_iac.Policy.Fields.{
  require_mapping, require_positive_int, require_string, all_distinct,
}
use enterprise_netsec_iac.Policy.Protection.{protections_from_mapping}
use enterprise_netsec_iac.Policy.Rules.{
  rate_limit_from_mapping, ResponsePolicy, action_from, policy_score, require_any_from,
  policy_from_mapping,
}
use enterprise_netsec_iac.Policy.Catalog.{
  PolicyCatalog, read_limits, bind_rules, is_schema, rules_from, policies_from, bind_safeguards,
  safeguard_material, catalog_from_mapping,
}

require_positive_int-le :
    (v : Value) (least : ℕ) {n : ℕ} → require_positive_int v least ≡ ok n → least ≤ n
unfolding require_positive_int
require_positive_int-le (int (pos k)) least h = ground arith
require_positive_int-le _ least h = cc

abbrev IsHigh : Rational → Type 0
IsHigh q = (leq nine_tenths q ≡ true) × (leq q one_q ≡ true)

policy_score-IsHigh : (v : Value) {q : Rational} → policy_score v ≡ ok q → IsHigh q
unfolding policy_score
policy_score-IsHigh (int n) h = ground arith
policy_score-IsHigh (float (finite m e)) h = ground arith
policy_score-IsHigh _ h = cc

-- A rule lasts between a minute and a day, and its threshold is between 0.9 and 1.
pub record IsBounded (p : ResponsePolicy) : Type 0 where
  pub long : 60 ≤ p.ttl_seconds
  pub short : p.ttl_seconds ≤ 86400
  pub high : leq nine_tenths p.min_ai_score ≡ true
  pub unit : leq p.min_ai_score one_q ≡ true

pub policy_from_mapping-IsBounded :
    (lib : Platform) (v : Value) {p : ResponsePolicy}
    → policy_from_mapping lib v ≡ ok p
    → IsBounded p
unfolding policy_from_mapping
policy_from_mapping-IsBounded lib v h =
    let (mapping, _, h1) = >>=-eq-ok (require_mapping v) _ h in
    let (_, _, h2) =
      >>=-eq-ok
        (require
          (has_only ("id" ∷ "version" ∷ "enabled" ∷ "action" ∷ "ttl_seconds" ∷ "when" ∷ []) mapping)
          _ _)
        _ h1 in
    let (_, _, h3) = >>=-eq-ok (require (is_true (get "enabled" mapping)) _ _) _ h2 in
    let (id, _, h4) = >>=-eq-ok (require_string lib (get "id" mapping)) _ h3 in
    let (version, _, h5) = >>=-eq-ok (require_string lib (get "version" mapping)) _ h4 in
    let (name, _, h6) = >>=-eq-ok (require_string lib (get "action" mapping)) _ h5 in
    let (action, _, h7) = >>=-eq-ok (action_from lib name) _ h6 in
    let (ttl, long, h8) = >>=-eq-ok (require_positive_int (get "ttl_seconds" mapping) 60) _ h7 in
    let (_, short, h9) = >>=-eq-ok (refuse (ltb 86400 ttl) _ _) _ h8 in
    let (when, _, h10) = >>=-eq-ok (require_mapping (get "when" mapping)) _ h9 in
    let (_, _, h11) =
      >>=-eq-ok (require (has_exactly ("ai_score_gte" ∷ "require_any" ∷ []) when) _ _) _ h10 in
    let (score, high, h12) = >>=-eq-ok (policy_score (get "ai_score_gte" when)) _ h11 in
    let (requirements, _, done) = >>=-eq-ok (require_any_from lib (get "require_any" when)) _ h12 in
    let same = ok-eq-ok done in
    let (above, below) = policy_score-IsHigh (get "ai_score_gte" when) high in
    let least = require_positive_int-le (get "ttl_seconds" mapping) 60 long in
    let most : ttl ≤ 86400 = ltb-false→le 86400 ttl (refuse-eq-ok (ltb 86400 ttl) _ _ short) in
    rw (← same) (record { long = least; short = most; high = above; unit = below })

rules_from-IsBounded :
    (lib : Platform) (vs : Items) {ps : List ResponsePolicy}
    → rules_from lib vs ≡ ok ps
    → All IsBounded ps
unfolding rules_from
rules_from-IsBounded lib nil h = rw (← ok-eq-ok h) tt
rules_from-IsBounded lib (cons v vs) h =
    let (rule, first, h1) = >>=-eq-ok (policy_from_mapping lib v) _ h in
    let (rules, later, done) = >>=-eq-ok (rules_from lib vs) _ h1 in
    rw (← ok-eq-ok done)
      (policy_from_mapping-IsBounded lib v first, rules_from-IsBounded lib vs later)

policies_from-IsBounded :
    (lib : Platform) (v : Value) {ps : List ResponsePolicy}
    → policies_from lib v ≡ ok ps
    → All IsBounded ps
unfolding policies_from
policies_from-IsBounded lib (list (cons v vs)) h = rules_from-IsBounded lib (cons v vs) h
policies_from-IsBounded lib _ h = cc

bound_rules-IsBounded :
    (lib : Platform) (safeguards : Value) (ps : List ResponsePolicy)
    → All IsBounded ps
    → All IsBounded (map (bind_safeguards lib safeguards) ps)
bound_rules-IsBounded lib safeguards [] h = tt
bound_rules-IsBounded lib safeguards (p ∷ ps) (b, bs) = (
  record { long = b.long; short = b.short; high = b.high; unit = b.unit },
  bound_rules-IsBounded lib safeguards ps bs,
)

-- The bounds of a catalog.
pub record IsLoaded (c : PolicyCatalog) : Type 0 where
  pub dedup : 60 ≤ c.dedup_seconds
  pub valid_least : 30 ≤ c.command_valid_for_seconds
  pub valid_most : c.command_valid_for_seconds ≤ 900
  pub age_least : 30 ≤ c.evidence_max_age_seconds
  pub age_most : c.evidence_max_age_seconds ≤ 86400
  pub rules : All IsBounded c.policies
  pub unique : all_distinct (map (λ p. p.id) c.policies) ≡ true

limits-bounded :
    (lib : Platform) (defaults : Fields) {d v a : ℕ}
    → read_limits lib defaults ≡ ok (d, v, a)
    → (60 ≤ d) × (30 ≤ v) × (v ≤ 900) × (30 ≤ a) × (a ≤ 86400)
unfolding read_limits
limits-bounded lib defaults h =
    let (dedup, d, h6) = >>=-eq-ok (require_positive_int (get "dedup_seconds" defaults) 60) _ h in
    let (valid, vl, h7) =
      >>=-eq-ok (require_positive_int (get "command_valid_for_seconds" defaults) 30) _ h6 in
    let (_, vm, h8) = >>=-eq-ok (refuse (ltb 900 valid) _ _) _ h7 in
    let (age, al, h9) =
      >>=-eq-ok (require_positive_int (get "evidence_max_age_seconds" defaults) 30) _ h8 in
    let (_, am, done) = >>=-eq-ok (refuse (ltb 86400 age) _ _) _ h9 in
    let same = ok-eq-ok done in
    rw (← ap (λ x. x.0) same, ← ap (λ x. x.1) same, ← ap (λ x. x.2) same)
      (
        require_positive_int-le (get "dedup_seconds" defaults) 60 d,
        require_positive_int-le (get "command_valid_for_seconds" defaults) 30 vl,
        ltb-false→le 900 valid (refuse-eq-ok (ltb 900 valid) _ _ vm),
        require_positive_int-le (get "evidence_max_age_seconds" defaults) 30 al,
        ltb-false→le 86400 age (refuse-eq-ok (ltb 86400 age) _ _ am),
      )

bind_rules-IsBounded :
    (lib : Platform) (safeguards : Value) (rules : List ResponsePolicy) {ps : List ResponsePolicy}
    → bind_rules lib safeguards rules ≡ ok ps
    → All IsBounded rules
    → (All IsBounded ps) × (all_distinct (map (λ p. p.id) ps) ≡ true)
unfolding bind_rules
bind_rules-IsBounded lib safeguards rules h bounded =
    let bound = map (bind_safeguards lib safeguards) rules in
    let (_, distinct, done) = >>=-eq-ok (require (all_distinct (map (λ p. p.id) bound)) _ _) _ h in
    rw (← ok-eq-ok done) (
      bound_rules-IsBounded lib safeguards rules bounded,
      require-eq-ok (all_distinct (map (λ p. p.id) bound)) _ _ distinct,
    )

-- Every catalog that is read from a document keeps duplicates for at least a minute, lets a command be
-- valid for 30 to 900 seconds and evidence be 30 to 86400 seconds old, and has rules of different names,
-- each for 60 to 86400 seconds and with a threshold from 0.9 to 1.
pub catalog_from_mapping-IsLoaded :
    (lib : Platform) (v : Value) (source : String) {c : PolicyCatalog}
    → catalog_from_mapping lib v source ≡ ok c
    → IsLoaded c
unfolding catalog_from_mapping
catalog_from_mapping-IsLoaded lib v source h =
    let (mapping, _, h1) = >>=-eq-ok (require_mapping v) _ h in
    let (_, _, h2) =
      >>=-eq-ok
        (require (has_exactly ("schema_version" ∷ "defaults" ∷ "policies" ∷ []) mapping) _ _) _
        h1 in
    let (_, _, h3) =
      >>=-eq-ok
        (require (is_schema lib (get "schema_version" mapping) "response-policy-set-v1") _ _) _
        h2 in
    let (defaults, _, h4) = >>=-eq-ok (require_mapping (get "defaults" mapping)) _ h3 in
    let (_, _, h5) =
      >>=-eq-ok
        (require
          (has_exactly
            ("protections" ∷ "rate_limit" ∷ "dedup_seconds" ∷ "command_valid_for_seconds"
              ∷ "evidence_max_age_seconds" ∷ [])
            defaults)
          _ _)
        _ h4 in
    let ((dedup, valid, age), limits, h6) = >>=-eq-ok (read_limits lib defaults) _ h5 in
    let (protections, _, h7) =
      >>=-eq-ok (protections_from_mapping lib (get "protections" defaults)) _ h6 in
    let (rate, _, h8) = >>=-eq-ok (rate_limit_from_mapping (get "rate_limit" defaults)) _ h7 in
    let (rules, read, h9) = >>=-eq-ok (policies_from lib (get "policies" mapping)) _ h8 in
    let safeguards = safeguard_material lib protections rate dedup valid age in
    let (policies, bound, done) = >>=-eq-ok (bind_rules lib safeguards rules) _ h9 in
    let (d, vl, vm, al, am) = limits-bounded lib defaults limits in
    let (bounded, distinct) =
      bind_rules-IsBounded lib safeguards rules bound
        (policies_from-IsBounded lib (get "policies" mapping) read) in
    rw (← ok-eq-ok done) (record {
      dedup = d;
      valid_least = vl;
      valid_most = vm;
      age_least = al;
      age_most = am;
      rules = bounded;
      unique = distinct;
    })
