-- ===== src/Validation/Named.antt =====
-- response/orchestrator/engine.py, `_validate_command`: the policy and the target that a command names, as
-- the values of its fields.
use enterprise_netsec_iac.Common.{
  ◌≡◌, ◌≢◌, ◌≤◌, refl, ap, ◌∙◌, sym, String, true, Option, none, some, List, [], ◌∷◌, arith, str_eq,
  eq_iff, Bool-cases, inl, inr, Some, is_some, ok, Kind, ◌&&◌, ltb,
}
use enterprise_netsec_iac.Common.Pure.{
  >>=-eq-ok, ok-eq-ok, require, refuse, require-eq-ok, refuse-eq-ok,
}
use enterprise_netsec_iac.Value.{
  Value, Fields, text, get, as_dict, as_text, nonempty_text, or_raise, has_exactly,
}
use enterprise_netsec_iac.Platform.{Platform}
use enterprise_netsec_iac.Policy.Protection.{
  Action, block_ip, isolate_host, TargetType, ip, host, Target,
}
use enterprise_netsec_iac.Policy.Rules.{ResponsePolicy}
use enterprise_netsec_iac.Policy.Catalog.{PolicyCatalog, find_policy}
use enterprise_netsec_iac.Validation.{
  is_text, parse_type, command_policy, command_target, check_action_target,
}

pub or_raise-eq-ok :
    {A : Type 0} (o : Option A) (k : Kind) (m : String) {a : A} → or_raise o k m ≡ ok a → o ≡ some a
or_raise-eq-ok none k m h = cc
or_raise-eq-ok (some a) k m h = ground arith

pub is_text-eq : (v : Value) (t : String) → is_text v t ≡ true → v ≡ text t
is_text-eq (text s) t h = ap text (ground (arith, eq_iff s t))
is_text-eq _ t h = cc

as_text-eq : (v : Value) {s : String} → as_text v ≡ some s → v ≡ text s
as_text-eq (text t) h = ground arith
as_text-eq _ h = cc

nonempty_text-eq : (v : Value) {s : String} → nonempty_text v ≡ some s → (v ≡ text s) × (s ≢ "")
nonempty_text-eq (text t) {s} h = elim (Bool-cases (str_eq t "")) [
  | inl empty ↦ ground (arith, h, empty)
  | inr named ↦
      let same : t ≡ s = ground (arith, h, named) in
      (ap text same, rw (← same) (ground (arith, named, eq_iff t "")))
]
nonempty_text-eq _ h = cc

-- The words for the types of a target.
abbrev pub type_word : TargetType → String
type_word ip = "ip"
type_word host = "host"

parse_type-eq : (v : Value) (y : TargetType) → parse_type v ≡ some y → v ≡ text (type_word y)
parse_type-eq (text s) y h = elim (Bool-cases (str_eq s "ip")) [
  | inl is ↦ ground (arith, h, is, eq_iff s "ip")
  | inr not_ip ↦ elim (Bool-cases (str_eq s "host")) [
    | inl is ↦ ground (arith, h, not_ip, is, eq_iff s "host")
    | inr other ↦ ground (arith, h, not_ip, other)
  ]
]
parse_type-eq _ y h = cc

pub find_policy-Some :
    (i : String) (ps : List ResponsePolicy) {p : ResponsePolicy}
    → find_policy i ps ≡ some p
    → Some (λ q. q ≡ p) ps × (p.id ≡ i)
unfolding find_policy
find_policy-Some i [] h = cc
find_policy-Some i (q ∷ qs) {p} h = elim (Bool-cases (str_eq q.id i)) [
  | inl is ↦
      let same : q ≡ p = ground (arith, h, is) in
      (inl same, ap (λ r. r.id) (sym same) ∙ ground (arith, is, eq_iff q.id i))
  | inr other ↦
      let (there, named) = find_policy-Some i qs (ground (arith, h, other)) in (inr there, named)
]

-- The value of `policy` has the identifier, the version and the digest of a policy of the catalog.
pub record IsActive (catalog : PolicyCatalog) (v : Value) (rule : ResponsePolicy) : Type 0 where
  pub fields : Fields
  pub shape : as_dict v ≡ some fields
  pub id : get "id" fields ≡ text rule.id
  pub version : get "version" fields ≡ text rule.version
  pub sha256 : get "sha256" fields ≡ text rule.sha256
  pub known : Some (λ p. p ≡ rule) catalog.policies

pub command_policy-IsActive :
    (catalog : PolicyCatalog) (v : Value) {rule : ResponsePolicy}
    → command_policy catalog v ≡ ok rule
    → IsActive catalog v rule
unfolding command_policy
command_policy-IsActive catalog v {rule} h =
    let (fields, shape, h1) = >>=-eq-ok (or_raise (as_dict v) _ _) _ h in
    let (_, _, h2) =
      >>=-eq-ok (require (has_exactly ("id" ∷ "version" ∷ "sha256" ∷ []) fields) _ _) _ h1 in
    let (i, is_id, h3) = >>=-eq-ok (or_raise (as_text (get "id" fields)) _ _) _ h2 in
    let (p, found, h4) = >>=-eq-ok (or_raise (find_policy i catalog.policies) _ _) _ h3 in
    let (_, matching, h5) =
      >>=-eq-ok
        (require
          (is_text (get "version" fields) p.version && is_text (get "sha256" fields) p.sha256) _ _)
        _ h4 in
    let both =
      require-eq-ok
        (is_text (get "version" fields) p.version && is_text (get "sha256" fields) p.sha256) _ _
        matching in
    let (known, named) =
      find_policy-Some i catalog.policies
        (or_raise-eq-ok (find_policy i catalog.policies) _ _ found) in
    let same : p ≡ rule = ok-eq-ok h5 in
    rw (← same) (record {
      fields = fields;
      shape = or_raise-eq-ok (as_dict v) _ _ shape;
      id =
          as_text-eq (get "id" fields) (or_raise-eq-ok (as_text (get "id" fields)) _ _ is_id)
          ∙ ap text (sym named);
      version = is_text-eq (get "version" fields) p.version (ground (arith, both));
      sha256 = is_text-eq (get "sha256" fields) p.sha256 (ground (arith, both));
      known = known;
    })

-- The value of `target` has a type and a text of at most 255 characters.
pub record IsAimed (lib : Platform) (v : Value) (t : Target) : Type 0 where
  pub fields : Fields
  pub shape : as_dict v ≡ some fields
  pub type : get "type" fields ≡ text (type_word t.type)
  pub value : get "value" fields ≡ text t.value
  pub named : t.value ≢ ""
  pub short : lib.text_length t.value ≤ 255

pub command_target-IsAimed :
    (lib : Platform) (v : Value) {t : Target} → command_target lib v ≡ ok t → IsAimed lib v t
unfolding command_target
command_target-IsAimed lib v {t} h =
    let (fields, shape, h1) = >>=-eq-ok (or_raise (as_dict v) _ _) _ h in
    let (_, _, h2) = >>=-eq-ok (require (has_exactly ("type" ∷ "value" ∷ []) fields) _ _) _ h1 in
    let (y, typed, h3) = >>=-eq-ok (or_raise (parse_type (get "type" fields)) _ _) _ h2 in
    let (s, given, h4) = >>=-eq-ok (or_raise (nonempty_text (get "value" fields)) _ _) _ h3 in
    let (_, short, h5) = >>=-eq-ok (refuse (ltb 255 (lib.text_length s)) _ _) _ h4 in
    let (is_value, named) =
      nonempty_text-eq (get "value" fields)
        (or_raise-eq-ok (nonempty_text (get "value" fields)) _ _ given) in
    let same : record { type = y; value = s } ≡ t = ok-eq-ok h5 in
    rw (← same) (record {
      fields = fields;
      shape = or_raise-eq-ok (as_dict v) _ _ shape;
      type =
          parse_type-eq (get "type" fields) y
            (or_raise-eq-ok (parse_type (get "type" fields)) _ _ typed);
      value = is_value;
      named = named;
      short = ground (arith, refuse-eq-ok (ltb 255 (lib.text_length s)) _ _ short);
    })

-- A block has an address as its target, an isolation a host.
abbrev pub Suits : Platform → Action → Target → Type 0
Suits lib block_ip t = (t.type ≡ ip) × (is_some (lib.ip_address t.value) ≡ true)
Suits lib isolate_host t = t.type ≡ host

pub check_action_target-Suits :
    (lib : Platform) (a : Action) (t : Target) → check_action_target lib a t ≡ ok tt → Suits lib a t
unfolding check_action_target
check_action_target-Suits lib a t h = of_type a t.type t.value h
  where
    of_type :
        (a : Action) (y : TargetType) (s : String)
        → check_action_target lib a (record { type = y; value = s }) ≡ ok tt
        → Suits lib a (record { type = y; value = s })
    of_type block_ip ip s h = (refl, require-eq-ok (is_some (lib.ip_address s)) _ _ h)
    of_type block_ip host s h = cc
    of_type isolate_host ip s h = cc
    of_type isolate_host host s h = refl
