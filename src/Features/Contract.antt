-- ===== src/Features/Contract.antt =====
-- ai/features/contracts.py: the features of each schema, and what a feature dictionary must be.
use enterprise_netsec_iac.Common.{
  String, List, [], ◌∷◌, str_eq, if◌then◌else◌, Result, ok, error, value_error, ◌≡◌, Bool, ◌⊎◌,
  true, arith, ◌&&◌, false, ◌+◌, ◌%◌, ◌^◌, ◌==◌, ◌||◌, ◌-◌, map,
}
use enterprise_netsec_iac.Value.{Value, Fields, int, float, get, or_raise, as_dict, has_exactly}
use enterprise_netsec_iac.Value.Number.{
  Rational, pos_part, leq, whole, neg_part, pos, negsuc, finite, zero_q, one_q,
}
use enterprise_netsec_iac.Policy.Rules.{float_limit}
use enterprise_netsec_iac.Common.Pure.{◌>>=◌, ◌>>◌, require}

abbrev pub network_features : List String
network_features =
    "connection_count" ∷ "unique_dst_ip" ∷ "unique_dst_port" ∷ "bytes_out" ∷ "bytes_in"
    ∷ "blocked_ratio" ∷ "dns_query_count" ∷ "unique_domain_count" ∷ "tls_count"
    ∷ "suricata_alert_count" ∷ "failed_auth_count" ∷ []

abbrev pub endpoint_features : List String
endpoint_features =
    "process_count" ∷ "rare_process_count" ∷ "powershell_count" ∷ "failed_login_count"
    ∷ "fim_change_count" ∷ "account_change_count" ∷ "privilege_change_count" ∷ []

-- `expected_feature_names`
unfoldable pub expected_feature_names : String → Result (List String)
expected_feature_names schema =
    if str_eq schema "network-window-v1"
    then ok network_features
    else if str_eq schema "endpoint-window-v1"
    then ok endpoint_features
    else error value_error "unsupported feature schema"

-- The two schemas, and no other, have features.
pub expected_feature_names-ok :
    (schema : String) {names : List String}
    → expected_feature_names schema ≡ ok names
    → (names ≡ network_features) ⊎ (names ≡ endpoint_features)
unfolding expected_feature_names
expected_feature_names-ok schema h = ground (arith, h)

-- `math.isfinite(value)`, which a whole number beyond the floats does not pass, as a number.
unfoldable pub finite_value : Value → Result Rational
finite_value (int n) =
    if leq (whole (pos float_limit)) (whole n) || leq (whole n) (whole (negsuc (float_limit - 1)))
    then error value_error "feature must be finite"
    else ok (whole n)
finite_value (float (finite m e)) = ok (record { numerator = m; exponent = e })
finite_value (float _) = error value_error "feature must be finite"
finite_value _ = error value_error "feature must be numeric"

-- `value == int(value)`
abbrev pub is_whole : Rational → Bool
is_whole q = (pos_part q.numerator + neg_part q.numerator) % 2 ^ q.exponent == 0

-- One turn of the loop of `require_exact_features`.
unfoldable pub check_feature : String → Value → Result (Unit {0})
unfolding finite_value
check_feature name value = do
  number ← finite_value value
  require (leq zero_q number) value_error "feature must be non-negative"
  require (if str_eq name "blocked_ratio" then leq number one_q else is_whole number) value_error
      "blocked_ratio must be in [0, 1], any other feature an integer count"

unfoldable pub check_features : List String → Fields → Result (Unit {0})
unfolding check_feature
check_features [] features = ok tt
check_features (name ∷ names) features = do
  check_feature name (get name features)
  check_features names features

unfoldable pub require_exact_features : String → Value → Result (Unit {0})
unfolding expected_feature_names check_features
require_exact_features schema value = do
  features ← or_raise (as_dict value) value_error "features must be an object"
  names ← expected_feature_names schema
  require (has_exactly names features) value_error "feature keys do not match"
  check_features names features

-- `ordered_feature_row`; `float_of` is Python's `float` on a number.
module _ {X : Type 0} (float_of : Value → X) where
  unfoldable pub ordered_feature_row : String → Value → Result (List X)
  unfolding require_exact_features expected_feature_names
  ordered_feature_row schema value = do
    require_exact_features schema value
    features ← or_raise (as_dict value) value_error "features must be an object"
    names ← expected_feature_names schema
    ok (map (λ n. float_of (get n features)) names)

abbrev same_texts : List String → List String → Bool
same_texts [] [] = true
same_texts (s ∷ ss) (t ∷ ts) = str_eq s t && same_texts ss ts
same_texts _ _ = false

-- `validate_feature_name_order`
unfoldable pub validate_feature_name_order : String → List String → Result (Unit {0})
unfolding expected_feature_names
validate_feature_name_order schema names = do
  expected ← expected_feature_names schema
  require (same_texts names expected) value_error "model feature order does not match"
