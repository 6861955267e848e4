-- ===== src/Policy/Fields.antt =====
-- response/policy.py, the helpers that read one field of a policy document. An error message keeps
-- its constant text and leaves out the label of the field.
use Prim.Native.String.{compare}
use Prim.Native.Nat.{Ordering}
use enterprise_netsec_iac.Common.{
  ℕ, String, Bool, true, not, ◌&&◌, List, [], ◌∷◌, str_eq, ltb, if◌then◌else◌, contains, Result, ok,
  error, policy_error,
}
use enterprise_netsec_iac.Common.Pure.{◌>>=◌, ◌>>◌, require}
use enterprise_netsec_iac.Value.{Value, Items, Fields, null, int, text, list, dict, nil, cons}
use enterprise_netsec_iac.Value.Number.{pos}
use enterprise_netsec_iac.Platform.{Platform}

unfoldable pub require_mapping : Value → Result Fields
require_mapping (dict fs) = ok fs
require_mapping _ = error policy_error "must be a mapping"

unfoldable pub require_positive_int : Value → ℕ → Result ℕ
require_positive_int (int (pos n)) minimum =
    if ltb n minimum then error policy_error "must be an integer >= minimum" else ok n
require_positive_int _ minimum = error policy_error "must be an integer >= minimum"

-- Sorting texts by code points, as `sorted` does.
unfoldable pub insert_text : String → List String → List String
insert_text s [] = s ∷ []
insert_text s (t ∷ ts) =
    let later = t ∷ insert_text s ts in elim (compare s t) [ Ordering.gt ↦ later | _ ↦ s ∷ t ∷ ts ]

unfoldable pub sorted : List String → List String
unfolding insert_text
sorted [] = []
sorted (s ∷ ss) = insert_text s (sorted ss)

abbrev pub texts : List String → Items
texts [] = nil
texts (s ∷ ss) = cons (text s) (texts ss)

-- `len(set(values)) == len(values)`
abbrev pub all_distinct : List String → Bool
all_distinct [] = true
all_distinct (s ∷ ss) = not (contains s ss) && all_distinct ss

module _ (lib : Platform) where
  unfoldable pub require_string : Value → Result String
  require_string (text s) =
      if str_eq (lib.strip s) ""
      then error policy_error "must be a non-empty string"
      else ok (lib.strip s)
  require_string _ = error policy_error "must be a non-empty string"

  unfoldable pub require_strings : Items → Result (List String)
  unfolding require_string
  require_strings nil = ok []
  require_strings (cons v vs) = do s ← require_string v; ss ← require_strings vs; ok (s ∷ ss)

  unfoldable pub string_list : Value → Result (List String)
  unfolding require_strings
  string_list null = ok []
  string_list (list vs) = do
    values ← require_strings vs
    require (all_distinct values) policy_error "must not contain duplicate values"
    ok values
  string_list _ = error policy_error "must be a list of strings"
