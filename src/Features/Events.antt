-- ===== src/Features/Events.antt =====
-- ai/features/engine.py: reading a normalised event, and the selection of a window's events. An instant is
-- microseconds; the errors of the contract are Python's value errors.
use Prim.Native.String.{compare}
use Prim.Native.Nat.{Ordering}
use enterprise_netsec_iac.Common.{
  ℕ, ◌/◌, ◌^◌, ◌-◌, String, Bool, true, false, ◌&&◌, Option, none, some, List, [], ◌∷◌, str_eq,
  if◌then◌else◌, leb, ltb, ◌==◌, Result, ok, error, value_error, overflow_error, map, ◌*◌,
}
use enterprise_netsec_iac.Common.Pure.{◌>>=◌, ◌>>◌, require}
use enterprise_netsec_iac.Value.{
  Value, Items, null, bool, int, float, text, list, dict, nil, cons, get, nonempty_text, or_raise,
}
use enterprise_netsec_iac.Value.Number.{ℤ, pos, negsuc, finite, infinity}
use enterprise_netsec_iac.Platform.{Platform, second}

-- What the engine uses of Python's texts, beside `Platform`: `int(s)`, `s.isdigit()`, `s.rstrip(".")`,
-- `part in s` and `str(value)`.
pub record Python : Type 0 where
  pub int_of_text : String → Option ℤ
  pub isdigit : String → Bool
  pub rstrip_dots : String → String
  pub has_part : String → String → Bool
  pub text_of : Value → String
  -- `_rfc3339` of ai/features/engine.py: `isoformat` with all the digits there are
  pub isoformat : ℕ → String

-- `_nested`
abbrev pub nested : List String → Value → Value
nested [] v = v
nested (k ∷ ks) (dict fs) = nested ks (get k fs)
nested (k ∷ ks) _ = null

-- `_as_utc`, of a text.
unfoldable pub as_utc : Platform → String → Result ℕ
as_utc lib s = do
  stamp ← or_raise (lib.fromisoformat s) value_error "Invalid isoformat string"
  require stamp.aware value_error "timestamps must include an explicit UTC offset"
  ok stamp.micros

abbrev pub at_least_zero : ℤ → ℕ
at_least_zero (pos n) = n
at_least_zero (negsuc n) = 0

-- `_numeric`
unfoldable pub numeric : Python → Value → Result ℕ
numeric py null = ok 0
numeric py (bool b) = ok 0
numeric py (int n) = ok (at_least_zero n)
numeric py (float (finite m e)) = ok (at_least_zero m / 2 ^ e)
numeric py (float (infinity negative)) = error overflow_error "cannot convert float infinity"
numeric py (text s) = elim (py.int_of_text s) [
  | none ↦ error value_error "telemetry byte/count field is not numeric"
  | some n ↦ ok (at_least_zero n)
]
numeric py _ = error value_error "telemetry byte/count field is not numeric"

-- `_categories`
abbrev pub item_texts : Python → Items → List String
item_texts py nil = []
item_texts py (cons v vs) = py.text_of v ∷ item_texts py vs

abbrev pub texts_of : Python → Value → List String
texts_of py (text s) = s ∷ []
texts_of py (list vs) = item_texts py vs
texts_of py _ = []

abbrev pub categories : Python → Value → List String
categories py event = texts_of py (nested ("event" ∷ "category" ∷ []) event)

-- `_event_id` and `_event_timestamp`
unfoldable pub event_id : Value → Result String
event_id event =
    or_raise (nonempty_text (nested ("event" ∷ "id" ∷ []) event)) value_error
      "normalized event is missing event.id"

unfoldable pub event_timestamp : Platform → Value → Result ℕ
unfolding as_utc event_id
event_timestamp lib event = elim (nested ("@timestamp" ∷ []) event) [
  | text s ↦ as_utc lib s
  | _ ↦ event_id event >>= λ i. error value_error "event is missing @timestamp"
]

-- The two dictionaries of `_validate_and_select`, under their common keys.
pub record Entry : Type 0 where
  pub id : String
  pub fingerprint : String
  pub event : Value

abbrev pub find_entry : String → List Entry → Option Entry
find_entry i [] = none
find_entry i (e ∷ es) = if str_eq e.id i then some e else find_entry i es

unfoldable pub put_entry : Entry → List Entry → List Entry
put_entry e [] = e ∷ []
put_entry e (f ∷ fs) = let rest = put_entry e fs in if str_eq f.id e.id then e ∷ fs else f ∷ rest

abbrev pub same_fingerprint : Option Entry → String → Bool
same_fingerprint none fingerprint = true
same_fingerprint (some e) fingerprint = str_eq e.fingerprint fingerprint

module _ (lib : Platform) (start end : ℕ) where
  abbrev pub is_normalised : Value → Bool
  is_normalised (dict fs) = elim (nested ("cxyz" ∷ "schema_version" ∷ []) (dict fs)) [
    | text s ↦ str_eq s "soc-event-v1"
    | _ ↦ false
  ]
  is_normalised _ = false

  -- An event whose time is in the window, into the dictionaries.
  unfoldable pub keep_event : Value → List Entry → Result (List Entry)
  unfolding event_id put_entry
  keep_event event entries = do
    i ← event_id event
    require (same_fingerprint (find_entry i entries) (lib.canonical_json event)) value_error
        "event.id resolves to conflicting normalized telemetry"
    ok (
        put_entry (record { id = i; fingerprint = lib.canonical_json event; event = event })
          entries)

  -- One turn of the loop.
  unfoldable pub select_event : Value → List Entry → Result (List Entry)
  unfolding event_timestamp keep_event
  select_event event entries = do
    require (is_normalised event) value_error
        "feature input must be normalized soc-event-v1 telemetry"
    timestamp ← event_timestamp lib event
    if leb start timestamp && ltb timestamp end then keep_event event entries else ok entries

  unfoldable pub select_events : List Value → List Entry → Result (List Entry)
  unfolding select_event
  select_events [] entries = ok entries
  select_events (event ∷ events) entries = do
    entries' ← select_event event entries
    select_events events entries'

-- `sorted(selected)`
unfoldable pub insert_entry : Entry → List Entry → List Entry
insert_entry e [] = e ∷ []
insert_entry e (f ∷ fs) =
    let rest = insert_entry e fs in
    elim (compare e.id f.id) [ Ordering.gt ↦ f ∷ rest | _ ↦ e ∷ f ∷ fs ]

unfoldable pub sort_entries : List Entry → List Entry
unfolding insert_entry
sort_entries [] = []
sort_entries (e ∷ es) = insert_entry e (sort_entries es)

unfoldable pub validate_and_select : Platform → ℕ → ℕ → List Value → Result (List Value)
unfolding select_events sort_entries
validate_and_select lib start end events = do
  entries ← select_events lib start end events []
  ok (map (λ e. e.event) (sort_entries entries))

-- `_window_bounds`
unfoldable pub window_bounds : Platform → String → String → Result (ℕ × ℕ)
unfolding as_utc
window_bounds lib window_start window_end = do
  start ← as_utc lib window_start
  end ← as_utc lib window_end
  require (ltb start end) value_error "window_end must be after window_start"
  require (end - start == 300 * second) value_error "exactly one five-minute window"
  ok (start, end)
