-- ===== src/Decision/Evidence.antt =====
-- response/decision.py: the checks of the anomaly, of the target and of the independent signals. An
-- instant that the code writes as text and reads again is kept as the number of that text.
use Prim.Native.Nat.{Ordering}
use Prim.Native.String.{compare}
use enterprise_netsec_iac.Common.{
  ℕ, ◌^◌, ◌%◌, ◌/◌, ◌-◌, String, Bool, true, false, not, ◌||◌, Option, none, some, List, [], ◌∷◌,
  ◌==◌, str_eq, if◌then◌else◌, ltb, contains, Result, ok, error, correlation_rejected,
}
use enterprise_netsec_iac.Common.Pure.{◌>>=◌, ◌>>◌, require, refuse}
use enterprise_netsec_iac.Value.{
  Value, Items, bool, int, float, text, list, nil, cons, get, find, has_exactly, has_only, as_dict,
  nonempty_text, or_raise,
}
use enterprise_netsec_iac.Value.Number.{
  pos, negsuc, finite, Rational, whole, leq, in_unit, zero_q, one_q,
}
use enterprise_netsec_iac.Platform.{Platform, to_millis}
use enterprise_netsec_iac.Policy.Protection.{TargetType, ip, host, Target}
use enterprise_netsec_iac.Policy.Rules.{Signal, supported_signal_types, float_limit}
use enterprise_netsec_iac.Validation.{parse_type}

abbrev rejected {ℓ} : {A : Type ℓ} → String → Result A
rejected = error correlation_rejected

-- `_finite_number`; a Boolean is no number here.
unfoldable pub finite_number : Value → Result Rational
finite_number (int n) =
    if leq (whole (pos float_limit)) (whole n) || leq (whole n) (whole (negsuc (float_limit - 1)))
    then rejected "must be a finite number"
    else ok (whole n)
finite_number (float (finite m e)) = ok (record { numerator = m; exponent = e })
finite_number _ = rejected "must be a finite number"

-- `_parse_rfc3339` of decision.py.
unfoldable pub read_time : Platform → Value → Result ℕ
read_time lib v = do
  s ← or_raise (nonempty_text v) correlation_rejected "must be an RFC3339 timestamp"
  stamp ← or_raise (lib.fromisoformat s) correlation_rejected "is not a valid timestamp"
  require stamp.aware correlation_rejected "must include a timezone"
  ok stamp.micros

abbrev pub boolean : Value → Option Bool
boolean (bool b) = some b
boolean _ = none

abbrev pub as_text_value : Value → Option String
as_text_value (text s) = some s
as_text_value _ = none

-- The normal form of an address or of a host's name.
unfoldable pub normal_value : Platform → TargetType → String → Result String
normal_value lib ip s = elim (lib.ip_address s) [
  | none ↦ rejected "IP target must be a valid IPv4 or IPv6 address"
  | some a ↦ ok (lib.address_text a)
]
normal_value lib host s = ok (lib.lower s)

-- `_validate_target`
unfoldable pub validate_target : Platform → Value → Result Target
unfolding normal_value
validate_target lib v = do
  fields ← or_raise (as_dict v) correlation_rejected "target must be an object"
  require (has_exactly ("type" ∷ "value" ∷ []) fields) correlation_rejected
      "target must contain only type and value"
  type ←
      or_raise (parse_type (get "type" fields)) correlation_rejected
        "target must contain a supported type and non-empty value"
  given ←
      or_raise (as_text_value (get "value" fields)) correlation_rejected
        "target must contain a supported type and non-empty value"
  refuse (str_eq (lib.strip given) "" || ltb 255 (lib.text_length (lib.strip given)))
      correlation_rejected "target must contain a supported type and non-empty value"
  value ← normal_value lib type (lib.strip given)
  ok (record { type = type; value = value })

pub record Anomaly : Type 0 where
  pub event_id : String
  pub model_id : String
  pub score : Rational
  pub threshold : Rational
  pub is_anomaly : Bool
  pub observed_at : ℕ
  pub target : Target

abbrev pub same_bool : Bool → Bool → Bool
same_bool true b = b
same_bool false b = not b

-- `_validate_anomaly`
unfoldable pub validate_anomaly : Platform → Value → Result Anomaly
unfolding finite_number read_time validate_target
validate_anomaly lib v = do
  fields ← or_raise (as_dict v) correlation_rejected "anomaly must be an object"
  event_id ←
      or_raise (nonempty_text (get "event_id" fields)) correlation_rejected
        "anomaly.event_id is required"
  model_id ←
      or_raise (nonempty_text (get "model_id" fields)) correlation_rejected
        "anomaly.model_id is required"
  score ← finite_number (get "score" fields)
  require (in_unit score) correlation_rejected "anomaly.score must be between 0 and 1"
  threshold ← finite_number (get "threshold" fields)
  require (in_unit threshold) correlation_rejected "anomaly.threshold must be between 0 and 1"
  is_anomaly ←
      or_raise (boolean (get "is_anomaly" fields)) correlation_rejected
        "anomaly.is_anomaly must be boolean"
  require (same_bool is_anomaly (leq threshold score)) correlation_rejected
      "anomaly flag disagrees with score and model threshold"
  observed_at ← read_time lib (get "observed_at" fields)
  target ← validate_target lib (get "target" fields)
  ok (record {
    event_id = event_id;
    model_id = model_id;
    score = score;
    threshold = threshold;
    is_anomaly = is_anomaly;
    observed_at = to_millis observed_at;
    target = target;
  })

-- A field that is absent, or a number that is not negative.
unfoldable pub optional_number : Option Value → Result (Option Rational)
unfolding finite_number
optional_number none = ok none
optional_number (some v) = do
  n ← finite_number v
  require (leq zero_q n) correlation_rejected "cannot be negative"
  ok (some n)

-- `int(number)` of one that equals it.
abbrev pub whole_part : Rational → Option ℕ
whole_part n = elim n.numerator [
  | pos m ↦ if m % 2 ^ n.exponent == 0 then some (m / 2 ^ n.exponent) else none
  | negsuc m ↦ none
]

unfoldable pub optional_whole : Option Value → Result (Option ℕ)
unfolding optional_number
optional_whole v = do
  n ← optional_number v
  elim n [
    | none ↦ ok none
    | some q ↦ elim (whole_part q) [ none ↦ rejected "must be an integer" | some k ↦ ok (some k) ]
  ]

unfoldable pub optional_share : Option Value → Result (Option Rational)
unfolding optional_number
optional_share v = do
  n ← optional_number v
  elim n [
    | none ↦ ok none
    | some q ↦ if leq q one_q then ok (some q) else rejected "confidence cannot exceed 1"
  ]

abbrev is_ai : Value → Bool
is_ai (text s) = str_eq s "ai"
is_ai _ = false

-- A text that strips to something: the text without its margins.
abbrev stripped : Platform → Value → Option String
stripped lib (text s) = if str_eq (lib.strip s) "" then none else some (lib.strip s)
stripped lib _ = none

abbrev supported_type : Value → Option String
supported_type (text s) = if contains s supported_signal_types then some s else none
supported_type _ = none

-- The body of the loop of `_validate_independent_signals`, under the references seen before.
unfoldable pub validate_signal : Platform → List String → Value → Result Signal
unfolding read_time validate_target optional_whole optional_share
validate_signal lib seen v = do
  fields ← or_raise (as_dict v) correlation_rejected "must be an object"
  require
      (has_only
        ("type" ∷ "reference" ∷ "severity" ∷ "count" ∷ "observed_at" ∷ "confidence" ∷ "target" ∷ [])
        fields)
      correlation_rejected "has unsupported fields"
  refuse (is_ai (get "type" fields)) correlation_rejected "AI output cannot corroborate itself"
  type ←
      or_raise (supported_type (get "type" fields)) correlation_rejected "has an unsupported type"
  reference ←
      or_raise (stripped lib (get "reference" fields)) correlation_rejected "reference is required"
  observed_at ← read_time lib (get "observed_at" fields)
  refuse (contains reference seen) correlation_rejected "duplicate corroborating signal"
  target ← validate_target lib (get "target" fields)
  severity ← optional_whole (find "severity" fields)
  count ← optional_whole (find "count" fields)
  confidence ← optional_share (find "confidence" fields)
  ok (record {
    type = type;
    reference = reference;
    observed_at = to_millis observed_at;
    target = target;
    severity = severity;
    count = count;
    confidence = confidence;
  })

unfoldable pub signals_from : Platform → List String → Items → Result (List Signal)
signals_from lib seen nil = ok []
signals_from lib seen (cons v vs) = do
  s ← validate_signal lib seen v
  rest ← signals_from lib (s.reference ∷ seen) vs
  ok (s ∷ rest)

-- `sorted` by type and reference.
abbrev is_after : Signal → Signal → Bool
is_after s t = elim (compare s.type t.type) [
  | Ordering.lt ↦ false
  | Ordering.gt ↦ true
  | Ordering.eq ↦ elim (compare s.reference t.reference) [ Ordering.gt ↦ true | _ ↦ false ]
]

abbrev pub insert_signal : Signal → List Signal → List Signal
insert_signal s [] = s ∷ []
insert_signal s (t ∷ ts) =
    let later = insert_signal s ts in if is_after s t then t ∷ later else s ∷ t ∷ ts

abbrev pub sorted_signals : List Signal → List Signal
sorted_signals [] = []
sorted_signals (s ∷ ss) = insert_signal s (sorted_signals ss)

-- `_validate_independent_signals`
unfoldable pub validate_signals : Platform → Value → Result (List Signal)
validate_signals lib (list vs) = do ss ← signals_from lib [] vs; ok (sorted_signals ss)
validate_signals lib _ = rejected "independent_signals must be a list"
