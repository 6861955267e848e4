-- ===== src/Features/Network.antt =====
-- ai/features/engine.py, `_network_features`: the counts of one source's window.
use enterprise_netsec_iac.Common.{
  ℕ, ◌+◌, String, Bool, true, false, not, ◌&&◌, ◌||◌, Option, none, some, List, [], ◌∷◌, str_eq,
  if◌then◌else◌, any, filter, count, length, contains, Result, ok, error, value_error, ◌==◌, suc,
  is_some,
}
use enterprise_netsec_iac.Value.{Value, null, int, text, as_dict, nonempty_text}
use enterprise_netsec_iac.Value.Number.{pos}
use enterprise_netsec_iac.Platform.{Platform}
use enterprise_netsec_iac.Features.Events.{Python, nested, numeric, categories, at_least_zero}
use enterprise_netsec_iac.Common.Pure.{◌>>=◌}

-- How many values a set of texts has.
abbrev pub distinct : List String → ℕ
distinct [] = 0
distinct (s ∷ ss) = let rest = distinct ss in if contains s ss then rest else suc rest

abbrev contains_number : ℕ → List ℕ → Bool
contains_number n = any (λ m. m == n)

abbrev pub distinct_numbers : List ℕ → ℕ
distinct_numbers [] = 0
distinct_numbers (n ∷ ns) =
    let rest = distinct_numbers ns in if contains_number n ns then rest else suc rest

abbrev pub is_a : Value → String → Bool
is_a (text s) t = str_eq s t
is_a _ t = false

-- `_dataset(event) == …`
abbrev pub has_dataset : String → Value → Bool
has_dataset name event = is_a (nested ("event" ∷ "dataset" ∷ []) event) name

-- The features; `blocked` of `connection_count` is the ratio before its division.
pub record NetworkFeatures : Type 0 where
  pub connection_count : ℕ
  pub unique_dst_ip : ℕ
  pub unique_dst_port : ℕ
  pub bytes_out : ℕ
  pub bytes_in : ℕ
  pub blocked : ℕ
  pub dns_query_count : ℕ
  pub unique_domain_count : ℕ
  pub tls_count : ℕ
  pub suricata_alert_count : ℕ
  pub failed_auth_count : ℕ

module _ (lib : Platform) (py : Python) where
  abbrev pub lower_of : Value → String
  lower_of (text s) = lib.lower s
  lower_of _ = ""

  -- `_blocked`
  abbrev pub is_blocked : Value → Bool
  is_blocked event = elim (nested ("event" ∷ "action" ∷ []) event) [
    | text s ↦
        contains (lib.lower s) ("block" ∷ "blocked" ∷ "deny" ∷ "denied" ∷ "drop" ∷ "reject" ∷ [])
    | _ ↦ false
  ]

  -- `_suricata_type`
  abbrev pub suricata_type : Value → String
  suricata_type event = lower_of (nested ("event_type" ∷ []) event)

  abbrev pub is_suricata : String → Value → Bool
  is_suricata kind event = has_dataset "suricata.eve" event && str_eq (suricata_type event) kind

  -- `_is_connection_record`
  abbrev pub is_connection : Value → Bool
  is_connection event = has_dataset "firewall.syslog" event || is_suricata "flow" event

  -- `_event_bytes`
  unfoldable pub event_bytes : Value → Result (ℕ × ℕ)
  unfolding numeric
  event_bytes event =
      if has_dataset "suricata.eve" event
      then if not (str_eq (suricata_type event) "flow") then ok (0, 0) else (do
        outbound ← numeric py (nested ("flow" ∷ "bytes_toserver" ∷ []) event)
        inbound ← numeric py (nested ("flow" ∷ "bytes_toclient" ∷ []) event)
        ok (outbound, inbound))
      else (do outbound ← numeric py (nested ("network" ∷ "bytes" ∷ []) event); ok (outbound, 0))

  -- `_domain`
  abbrev first_domain : List (List String) → Value → Option String
  first_domain [] event = none
  first_domain (path ∷ paths) event = elim (nonempty_text (nested path event)) [
    | some s ↦ some (py.rstrip_dots (lib.lower s))
    | none ↦ first_domain paths event
  ]

  abbrev pub domain : Value → Option String
  domain =
      first_domain
        (("dns" ∷ "question" ∷ "name" ∷ []) ∷ ("dns" ∷ "rrname" ∷ []) ∷ ("dns" ∷ "query" ∷ []) ∷ [])

  -- `_is_dns_query`
  abbrev pub is_dns_query : Value → Bool
  is_dns_query event = is_suricata "dns" event && elim (nested ("dns" ∷ "type" ∷ []) event) [
    | null ↦ true
    | text s ↦ contains (lib.lower s) ("query" ∷ "request" ∷ [])
    | _ ↦ false
  ]

  -- The texts of a comprehension that keeps the non-empty ones.
  abbrev pub present : (Value → Option String) → List Value → List String
  present f [] = []
  present f (v ∷ vs) =
      let rest = present f vs in
      elim (f v) [ none ↦ rest | some s ↦ if str_eq s "" then rest else s ∷ rest ]

  abbrev pub destination : Value → Option String
  destination event = nonempty_text (nested ("destination" ∷ "ip" ∷ []) event)

  -- `int(value)` of a port whose text has only digits.
  unfoldable pub port_of : Value → Result (Option ℕ)
  port_of (int (pos n)) = ok (some n)
  port_of (text s) =
      if py.isdigit s
      then elim (py.int_of_text s) [
        | none ↦ error value_error "invalid literal for int()"
        | some n ↦ ok (some (at_least_zero n))
      ]
      else ok none
  port_of _ = ok none

  unfoldable pub ports_of : List Value → Result (List ℕ)
  unfolding port_of
  ports_of [] = ok []
  ports_of (event ∷ events) = do
    port ← port_of (nested ("destination" ∷ "port" ∷ []) event)
    ports ← ports_of events
    ok (elim port [ none ↦ ports | some n ↦ n ∷ ports ])

  unfoldable pub bytes_of : List Value → Result (ℕ × ℕ)
  unfolding event_bytes
  bytes_of [] = ok (0, 0)
  bytes_of (event ∷ events) = do
    both ← event_bytes event
    rest ← bytes_of events
    ok (both.0 + rest.0, both.1 + rest.1)

  abbrev pub is_alert : Value → Bool
  is_alert event =
      has_dataset "suricata.eve" event
      && (str_eq (suricata_type event) "alert" || is_some (as_dict (nested ("alert" ∷ []) event)))

  -- `"authentication" in _categories(event) and str(…outcome).lower() == "failure"`
  abbrev pub is_failed_login : Value → Bool
  is_failed_login event =
      contains "authentication" (categories py event)
      && str_eq (lib.lower (py.text_of (nested ("event" ∷ "outcome" ∷ []) event))) "failure"

  unfoldable pub network_features : List Value → Result NetworkFeatures
  unfolding ports_of bytes_of
  network_features events =
      let connections = filter is_connection events in
      let queries = filter is_dns_query events in
      do
        ports ← ports_of connections
        bytes ← bytes_of connections
        ok (record {
          connection_count = length connections;
          unique_dst_ip = distinct (present destination connections);
          unique_dst_port = distinct_numbers ports;
          bytes_out = bytes.0;
          bytes_in = bytes.1;
          blocked = count is_blocked connections;
          dns_query_count = length queries;
          unique_domain_count = distinct (present domain queries);
          tls_count = count (is_suricata "tls") events;
          suricata_alert_count = count is_alert events;
          failed_auth_count = count is_failed_login events;
        })
