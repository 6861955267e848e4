-- ===== src/Value.antt =====
-- The values of Python that cross the boundaries of the response plane: what `json` and `yaml` load.
-- A dictionary is its list of keys and values in order, each key once.
pub mod Number
use enterprise_netsec_iac.Common.{
  ℕ, zero, String, Bool, true, false, ◌&&◌, ◌||◌, Option, none, some, List, [], ◌∷◌, str_eq,
  if◌then◌else◌, any, all, contains, Kind, Result, ok, err, error, not,
}
use enterprise_netsec_iac.Common.Pure.{◌>>=◌}
use Number.{ℤ, Float, finite, pos}

mutual
  pub data Value : Type 0 where
    null : Value
    bool : Bool → Value
    int : ℤ → Value
    float : Float → Value
    text : String → Value
    list : Items → Value
    dict : Fields → Value

  pub data Items : Type 0 where
    nil : Items
    cons : Value → Items → Items

  pub data Fields : Type 0 where
    end : Fields
    field : String → Value → Fields → Fields

-- A float that JSON has.
abbrev pub is_finite : Float → Bool
is_finite (finite m e) = true
is_finite _ = false

-- What `json.dumps(…, allow_nan=False)` takes; it raises on NaN and the infinities.
abbrev mutual
  pub is_json : Value → Bool
  is_json (float f) = is_finite f
  is_json (list vs) = items_are_json vs
  is_json (dict fs) = fields_are_json fs
  is_json _ = true

  pub items_are_json : Items → Bool
  items_are_json nil = true
  items_are_json (cons v vs) = is_json v && items_are_json vs

  pub fields_are_json : Fields → Bool
  fields_are_json end = true
  fields_are_json (field k v fs) = is_json v && fields_are_json fs

-- `bool(value)`
abbrev pub is_truthy : Value → Bool
is_truthy null = false
is_truthy (bool b) = b
is_truthy (int (pos zero)) = false
is_truthy (float (finite (pos zero) e)) = false
is_truthy (text s) = not (str_eq s "")
is_truthy (list nil) = false
is_truthy (dict end) = false
is_truthy _ = true

-- `data.get(key)`, apart from a missing key being no value at all here.
abbrev pub find : String → Fields → Option Value
find k end = none
find k (field j v fs) = if str_eq j k then some v else find k fs

-- `data.get(key)` where a missing key reads as `None`.
abbrev pub get : String → Fields → Value
get k fs = elim (find k fs) [ none ↦ null | some v ↦ v ]

abbrev pub keys : Fields → List String
keys end = []
keys (field k v fs) = k ∷ keys fs

-- `set(data) == {…}`
abbrev pub has_exactly : List String → Fields → Bool
has_exactly names fs =
    all (λ n. contains n (keys fs)) names && all (λ k. contains k names) (keys fs)

-- `not set(data) - {…}`
abbrev pub has_only : List String → Fields → Bool
has_only names fs = all (λ k. contains k names) (keys fs)

abbrev pub is_true : Value → Bool
is_true (bool b) = b
is_true _ = false

abbrev pub as_text : Value → Option String
as_text (text s) = some s
as_text _ = none

abbrev pub as_dict : Value → Option Fields
as_dict (dict fs) = some fs
as_dict _ = none

-- `isinstance(value, Sequence) and not isinstance(value, (str, bytes))`
abbrev pub as_list : Value → Option Items
as_list (list xs) = some xs
as_list _ = none

-- A value that must be there, or the exception.
abbrev pub or_raise {ℓ} : {A : Type ℓ} → Option A → Kind → String → Result A
or_raise none k m = error k m
or_raise (some a) k m = ok a

-- `isinstance(value, str) and value`
abbrev pub nonempty_text : Value → Option String
nonempty_text (text s) = if str_eq s "" then none else some s
nonempty_text _ = none
