-- ===== src/Policy/Rules.antt =====
-- response/policy.py, `SignalRequirement`, `RateLimit` and `ResponsePolicy`: one rule of the policy
-- document, and when an independent signal satisfies it.
use enterprise_netsec_iac.Common.{
  ℕ, ◌-◌, ◌^◌, String, Bool, true, false, ◌&&◌, ◌||◌, Option, none, some, List, [], ◌∷◌, str_eq,
  if◌then◌else◌, ltb, leb, contains, Result, ok, error, policy_error, overflow_error,
}
use enterprise_netsec_iac.Common.Pure.{◌>>=◌, ◌>>◌, require, refuse}
use enterprise_netsec_iac.Value.{
  Value, Items, Fields, get, has_only, has_exactly, bool, null, int, float, text, list, dict, nil,
  cons, end, field, is_true,
}
use enterprise_netsec_iac.Value.Number.{
  pos, negsuc, finite, Rational, whole, leq, one_q, nine_tenths,
}
use enterprise_netsec_iac.Platform.{Platform, sha256_hex}
use enterprise_netsec_iac.Policy.Fields.{require_mapping, require_string, require_positive_int}
use enterprise_netsec_iac.Policy.Protection.{Action, block_ip, isolate_host, Target}

-- `SUPPORTED_SIGNAL_TYPES`
abbrev pub supported_signal_types : List String
supported_signal_types =
    "suricata" ∷ "wazuh" ∷ "authentication" ∷ "threat_intel" ∷ "protected_asset" ∷ "honeypot" ∷ []

-- A corroborating signal after `_validate_independent_signals`: the optional fields hold numbers.
pub record Signal : Type 0 where
  pub type : String
  pub reference : String
  pub observed_at : ℕ
  pub target : Target
  pub severity : Option ℕ
  pub count : Option ℕ
  pub confidence : Option Rational

pub record SignalRequirement : Type 0 where
  pub kind : String
  pub min_severity : Option ℕ
  pub min_count : Option ℕ

-- A bound that is set is met only by a number that is there and reaches it.
abbrev pub reaches : Option ℕ → Option ℕ → Bool
reaches none value = true
reaches (some bound) none = false
reaches (some bound) (some n) = leb bound n

unfoldable pub matches : SignalRequirement → Signal → Bool
matches r s =
    str_eq s.type r.kind && (reaches r.min_severity s.severity && reaches r.min_count s.count)

pub record RateLimit : Type 0 where
  pub max_actions : ℕ
  pub window_seconds : ℕ

pub record ResponsePolicy : Type 0 where
  pub id : String
  pub version : String
  pub action : Action
  pub ttl_seconds : ℕ
  pub min_ai_score : Rational
  pub require_any : List SignalRequirement
  pub sha256 : String

unfoldable pub rate_limit_from_mapping : Value → Result RateLimit
unfolding require_mapping require_positive_int
rate_limit_from_mapping v = do
  mapping ← require_mapping v
  require (has_exactly ("max_actions" ∷ "window_seconds" ∷ []) mapping) policy_error
      "defaults.rate_limit must contain only max_actions and window_seconds"
  actions ← require_positive_int (get "max_actions" mapping) 1
  window ← require_positive_int (get "window_seconds" mapping) 1
  ok (record { max_actions = actions; window_seconds = window })

unfoldable pub optional_int : Value → ℕ → Result (Option ℕ)
unfolding require_positive_int
optional_int null minimum = ok none
optional_int v minimum = do n ← require_positive_int v minimum; ok (some n)

abbrev pub action_text : Action → String
action_text block_ip = "block_ip"
action_text isolate_host = "isolate_host"

unfoldable pub parse_action : String → Option Action
parse_action s =
    if str_eq s "block_ip"
    then some block_ip
    else if str_eq s "isolate_host"
    then some isolate_host
    else none

-- From this integer on, rounding to a float overflows.
abbrev pub float_limit : ℕ
float_limit = 2 ^ 1024 - 2 ^ 970

-- `float(score)` with `0.9 <= float(score) <= 1`: an integer too large for a float raises, NaN and the
-- infinities are out of range.
unfoldable pub policy_score : Value → Result Rational
policy_score (int n) =
    if leq (whole (pos float_limit)) (whole n) || leq (whole n) (whole (negsuc (float_limit - 1)))
    then error overflow_error "int too large to convert to float"
    else (do
      require (leq nine_tenths (whole n) && leq (whole n) one_q) policy_error
          "ai_score_gte must be between 0.90 and 1"
      ok (whole n))
policy_score (float (finite m e)) =
    let score : Rational = record { numerator = m; exponent = e } in
    do
      require (leq nine_tenths score && leq score one_q) policy_error
          "ai_score_gte must be between 0.90 and 1"
      ok score
policy_score _ = error policy_error "ai_score_gte must be between 0.90 and 1"

abbrev optional_field : String → Option ℕ → Fields → Fields
optional_field k none fs = fs
optional_field k (some n) fs = field k (int (pos n)) fs

abbrev requirement_value : SignalRequirement → Value
requirement_value r = dict (
    field "type" (text r.kind)
      (optional_field "min_severity" r.min_severity (optional_field "min_count" r.min_count end)))

abbrev requirement_values : List SignalRequirement → Items
requirement_values [] = nil
requirement_values (r ∷ rs) = cons (requirement_value r) (requirement_values rs)

module _ (lib : Platform) where
  unfoldable pub requirement_from_mapping : Value → Result SignalRequirement
  unfolding require_mapping require_string optional_int
  requirement_from_mapping v = do
    mapping ← require_mapping v
    require (has_only ("type" ∷ "min_severity" ∷ "min_count" ∷ []) mapping) policy_error
        "has unsupported fields"
    kind ← require_string lib (get "type" mapping)
    require (contains kind supported_signal_types) policy_error
        "type must be an independent signal type"
    min_severity ← optional_int (get "min_severity" mapping) 0
    min_count ← optional_int (get "min_count" mapping) 1
    ok (record { kind = kind; min_severity = min_severity; min_count = min_count })

  unfoldable pub requirements_from : Items → Result (List SignalRequirement)
  unfolding requirement_from_mapping
  requirements_from nil = ok []
  requirements_from (cons v vs) = do
    r ← requirement_from_mapping v
    rs ← requirements_from vs
    ok (r ∷ rs)

  -- `require_any` must be a list with at least one requirement.
  unfoldable pub require_any_from : Value → Result (List SignalRequirement)
  unfolding requirements_from
  require_any_from (list (cons v vs)) = requirements_from (cons v vs)
  require_any_from _ = error policy_error "require_any must contain an independent signal"

  unfoldable pub action_from : String → Result Action
  unfolding parse_action
  action_from s = elim (parse_action s) [
    | none ↦ error policy_error "action is unsupported"
    | some a ↦ ok a
  ]

  unfoldable pub normalized_rule :
      String → String → Action → ℕ → Rational → List SignalRequirement → Value
  normalized_rule id version action ttl score requirements = dict (
      field "id" (text id) (
        field "version" (text version) (
          field "enabled" (bool true) (
            field "action" (text (action_text action)) (
              field "ttl_seconds" (int (pos ttl)) (
                field "when"
                  (dict (
                    field "ai_score_gte" (float (finite score.numerator score.exponent))
                      (field "require_any" (list (requirement_values requirements)) end)))
                  end))))))

  unfoldable pub policy_from_mapping : Value → Result ResponsePolicy
  unfolding require_mapping require_string require_positive_int action_from policy_score
      require_any_from normalized_rule
  policy_from_mapping v = do
    mapping ← require_mapping v
    require
        (has_only ("id" ∷ "version" ∷ "enabled" ∷ "action" ∷ "ttl_seconds" ∷ "when" ∷ []) mapping)
        policy_error "has unsupported fields"
    require (is_true (get "enabled" mapping)) policy_error "must set enabled: true"
    id ← require_string lib (get "id" mapping)
    version ← require_string lib (get "version" mapping)
    action ← action_from (← require_string lib (get "action" mapping))
    ttl ← require_positive_int (get "ttl_seconds" mapping) 60
    refuse (ltb 86400 ttl) policy_error "ttl_seconds exceeds one day"
    when ← require_mapping (get "when" mapping)
    require (has_exactly ("ai_score_gte" ∷ "require_any" ∷ []) when) policy_error
        "when must contain ai_score_gte and require_any"
    score ← policy_score (get "ai_score_gte" when)
    requirements ← require_any_from (get "require_any" when)
    ok (record {
      id = id;
      version = version;
      action = action;
      ttl_seconds = ttl;
      min_ai_score = score;
      require_any = requirements;
      sha256 = sha256_hex lib (normalized_rule id version action ttl score requirements);
    })
