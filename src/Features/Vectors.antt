-- ===== src/Features/Vectors.antt =====
-- ai/features/engine.py, `build_network_vectors` and `build_endpoint_vectors`: one vector for each entity of a
-- window. The hash of the schema file is an argument; `divide` is Python's division of two integers.
use Prim.Native.String.{◌++◌ as concat, compare}
use Prim.Native.Nat.{Ordering}
use enterprise_netsec_iac.Common.{
  filter, leb, ◌++◌, ℕ, String, Bool, true, false, not, Option, none, some, List, [], ◌∷◌, str_eq,
  if◌then◌else◌, map, length, Result, ok, value_error, is_some,
}
use enterprise_netsec_iac.Common.Pure.{◌>>=◌, ◌>>◌, require}
use enterprise_netsec_iac.Value.{Value, nonempty_text}
use enterprise_netsec_iac.Platform.{Platform, ipv4}
use enterprise_netsec_iac.Policy.Fields.{sorted}
use enterprise_netsec_iac.Features.Events.{
  Python, nested, as_utc, event_id, validate_and_select, window_bounds,
}
use enterprise_netsec_iac.Features.Network.{NetworkFeatures, network_features}
use enterprise_netsec_iac.Features.Endpoint.{EndpointFeatures, endpoint_features}

-- `grouped`: each entity with its events, in the order of the first one.
pub record Group : Type 0 where
  pub entity : String
  pub events : List Value

unfoldable pub add_to_group : String → Value → List Group → List Group
add_to_group entity event [] = record { entity = entity; events = event ∷ [] } ∷ []
add_to_group entity event (g ∷ gs) =
    let rest = add_to_group entity event gs in
    if str_eq g.entity entity then record g { events = g.events ++ event ∷ [] } ∷ gs else g ∷ rest

-- What `source.ip` or `host.name` must be: texts that are not empty are entities, others are passed over.
unfoldable pub group_by :
    List String → (String → Result (Unit {0})) → List Value → List Group → Result (List Group)
unfolding add_to_group
group_by path check [] groups = ok groups
group_by path check (event ∷ events) groups = elim (nonempty_text (nested path event)) [
  | none ↦ group_by path check events groups
  | some entity ↦
      check entity >>= λ _. group_by path check events (add_to_group entity event groups)
]

pub record Vector (F : Type 0) : Type 0 where
  pub feature_schema : String
  pub feature_schema_sha256 : String
  pub vector_id : String
  pub entity_type : String
  pub entity : String
  pub window_start : ℕ
  pub window_end : ℕ
  pub source_event_count : ℕ
  pub source_event_set_sha256 : String
  pub generator_git_sha : String
  pub generated_at : ℕ
  pub features : F

module _ (lib : Platform) (py : Python) where
  abbrev lines : List String → String
  lines [] = ""
  lines (s ∷ []) = s
  lines (s ∷ t ∷ ss) = concat s (concat "\n" (lines (t ∷ ss)))

  unfoldable pub event_ids : List Value → Result (List String)
  unfolding event_id
  event_ids [] = ok []
  event_ids (event ∷ events) = do i ← event_id event; is ← event_ids events; ok (i ∷ is)

  -- `_source_event_set_sha256`
  unfoldable pub source_event_set_sha256 : List Value → Result String
  unfolding event_ids sorted
  source_event_set_sha256 events = do
    is ← event_ids events
    require (not (leb (length is) 0)) value_error "cannot create an empty feature vector"
    ok (lib.sha256 (lines (sorted is)))

  -- `_vector_id`
  unfoldable pub vector_id : String → String → String → ℕ → ℕ → String → String
  vector_id schema entity_type entity start end event_hash = concat schema (
      concat ":" (
        lib.text_prefix
          (lib.sha256 (
            concat schema (
              concat "|" (
                concat entity_type (
                  concat "|" (
                    concat entity (
                      concat "|" (
                        concat (py.isoformat start)
                          (concat "|" (concat (py.isoformat end) (concat "|" event_hash)))))))))))
          40))

  -- The vector of one entity; `features` counts its events.
  unfoldable pub build_vector :
      {F : Type 0}
      → String
      → String
      → String
      → ℕ
      → ℕ
      → String
      → ℕ
      → (List Value → Result F)
      → Group
      → Result (Vector F)
  unfolding source_event_set_sha256 vector_id
  build_vector schema schema_hash entity_type start end git_sha emitted_at features group = do
    event_hash ← source_event_set_sha256 group.events
    counted ← features group.events
    ok (record {
      feature_schema = schema;
      feature_schema_sha256 = schema_hash;
      vector_id = vector_id schema entity_type group.entity start end event_hash;
      entity_type = entity_type;
      entity = group.entity;
      window_start = start;
      window_end = end;
      source_event_count = length group.events;
      source_event_set_sha256 = event_hash;
      generator_git_sha = git_sha;
      generated_at = emitted_at;
      features = counted;
    })

  unfoldable pub build_each :
      {F : Type 0} → (Group → Result (Vector F)) → List Group → Result (List (Vector F))
  build_each build [] = ok []
  build_each build (g ∷ gs) = do v ← build g; vs ← build_each build gs; ok (v ∷ vs)

  -- `sorted(grouped)`, by a test on the entities.
  unfoldable pub insert_group : (String → String → Bool) → Group → List Group → List Group
  insert_group before g [] = g ∷ []
  insert_group before g (h ∷ hs) =
      let rest = insert_group before g hs in
      if before h.entity g.entity then h ∷ rest else g ∷ h ∷ hs

  unfoldable pub sort_groups : (String → String → Bool) → List Group → List Group
  unfolding insert_group
  sort_groups before [] = []
  sort_groups before (g ∷ gs) = insert_group before g (sort_groups before gs)

  abbrev text_before : String → String → Bool
  text_before a b = elim (compare a b) [ Ordering.lt ↦ true | _ ↦ false ]

  abbrev is_ipv4 : String → Bool
  is_ipv4 s = elim (lib.ip_address s) [ some (ipv4 n) ↦ true | _ ↦ false ]

  -- `key=lambda value: (ip_address(value).version, value)`
  abbrev address_before : String → String → Bool
  address_before a b =
      if is_ipv4 a
      then (if is_ipv4 b then text_before a b else true)
      else if is_ipv4 b
      then false
      else text_before a b

  abbrev check_address : String → Result (Unit {0})
  check_address s =
      require (is_some (lib.ip_address s)) value_error "source.ip is not an IP address"

  -- `_as_utc(generated_at) if generated_at is not None else end`
  abbrev emitted : Option String → ℕ → Result ℕ
  emitted none end = ok end
  emitted (some s) end = as_utc lib s

  unfoldable pub build_network_vectors :
      String
      → List Value
      → String
      → String
      → String
      → Option String
      → Result (List (Vector NetworkFeatures))
  unfolding window_bounds validate_and_select group_by sort_groups build_vector network_features
      as_utc build_each
  build_network_vectors schema_hash events window_start window_end git_sha generated_at = do
    bounds ← window_bounds lib window_start window_end
    selected ← validate_and_select lib bounds.0 bounds.1 events
    groups ← group_by ("source" ∷ "ip" ∷ []) check_address selected []
    emitted_at ← emitted generated_at bounds.1
    build_each
        (build_vector "network-window-v1" schema_hash "src_ip" bounds.0 bounds.1 git_sha emitted_at
          (network_features lib py))
        (sort_groups address_before groups)

  -- `{process.lower() for process in … if process}`
  abbrev lowered_names : List String → List String
  lowered_names processes = map lib.lower (filter (λ p. not (str_eq p "")) processes)

  unfoldable pub build_endpoint_vectors :
      String
      → List Value
      → String
      → String
      → String
      → List String
      → Option (List String)
      → Option String
      → Result (List (Vector EndpointFeatures))
  unfolding window_bounds validate_and_select group_by sort_groups build_vector endpoint_features
      as_utc build_each
  build_endpoint_vectors schema_hash events window_start window_end git_sha rare baseline
        generated_at =
      do
        bounds ← window_bounds lib window_start window_end
        selected ← validate_and_select lib bounds.0 bounds.1 events
        groups ← group_by ("host" ∷ "name" ∷ []) (λ _. ok tt) selected []
        emitted_at ← emitted generated_at bounds.1
        build_each
            (build_vector "endpoint-window-v1" schema_hash "host" bounds.0 bounds.1 git_sha
              emitted_at
              (λ es. ok (
                endpoint_features lib py (lowered_names rare)
                  (elim baseline [ none ↦ none | some ps ↦ some (lowered_names ps) ]) es)))
            (sort_groups text_before groups)
