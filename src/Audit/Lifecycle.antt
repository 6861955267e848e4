-- ===== src/Audit/Lifecycle.antt =====
-- The lifecycle that the audit trail allows, as a family of its own, and the histories of a response
-- that the check of a transition lets through.
use enterprise_netsec_iac.Common.{
  ◌+◌, ◌≡◌, ◌≢◌, refl, ◌∙◌, Bool, true, false, not, ◌&&◌, ◌⊎◌, inl, inr, Option, none, some, List,
  [], ◌∷◌, ◌++◌, arith, any, is_some, str_eq, eq_iff, length, last?-append_one, any-append, ok,
}
use enterprise_netsec_iac.Audit.{
  State, requested, applied, verified, expired, rolled_back, failed, AuditEvent, allowed,
  is_recovery, last_state, has_application, same_previous, same_state, validate_transition,
}

-- The states from which a response can still move.
pub data IsOpen : State → Type 0 where
  requested_open : IsOpen requested
  applied_open : IsOpen applied
  verified_open : IsOpen verified
  failed_open : IsOpen failed

infix 40 ◌⟶◌
-- A request is applied, verified and lifted at its expiry; from any open state it is rolled back or
-- fails.
pub data ◌⟶◌ : State → State → Type 0 where
  enforce : requested ⟶ applied
  prove : applied ⟶ verified
  lift : verified ⟶ expired
  undo : {s : State} → IsOpen s → s ⟶ rolled_back
  break : {s : State} → IsOpen s → s ⟶ failed

ruleset edges =
    (enforce, prove, lift, undo, break, requested_open, applied_open, verified_open, failed_open)

pub allowed-⟶ : (s t : State) → allowed (some s) t ≡ true → s ⟶ t
unfolding allowed
allowed-⟶ requested requested h = cc
allowed-⟶ requested verified h = cc
allowed-⟶ requested expired h = cc
allowed-⟶ applied requested h = cc
allowed-⟶ applied applied h = cc
allowed-⟶ applied expired h = cc
allowed-⟶ verified requested h = cc
allowed-⟶ verified applied h = cc
allowed-⟶ verified verified h = cc
allowed-⟶ expired requested h = cc
allowed-⟶ expired _ h = cc
allowed-⟶ rolled_back requested h = cc
allowed-⟶ rolled_back _ h = cc
allowed-⟶ failed requested h = cc
allowed-⟶ failed applied h = cc
allowed-⟶ failed verified h = cc
allowed-⟶ failed expired h = cc
allowed-⟶ _ _ h = search edges

pub ⟶-allowed : {s t : State} → s ⟶ t → allowed (some s) t ≡ true
unfolding allowed
⟶-allowed enforce = refl
⟶-allowed prove = refl
⟶-allowed lift = refl
⟶-allowed (undo requested_open) = refl
⟶-allowed (undo applied_open) = refl
⟶-allowed (undo verified_open) = refl
⟶-allowed (undo failed_open) = refl
⟶-allowed (break requested_open) = refl
⟶-allowed (break applied_open) = refl
⟶-allowed (break verified_open) = refl
⟶-allowed (break failed_open) = refl

-- What a recovery needs: an application in the history, or an intent in the event.
abbrev pub IsBacked : State → AuditEvent → List AuditEvent → Type 0
IsBacked s e h =
    is_recovery (some s) e.state ≡ true
    → (has_application h ≡ true) ⊎ (is_some e.action_intent ≡ true)

-- A history: it begins with a request, and each later event continues the one before it.
pub data IsHistory : List AuditEvent → Type 0 where
  begun :
      (e : AuditEvent)
      → e.response_id ≢ ""
      → e.state ≡ requested
      → e.previous_state ≡ none
      → e.transition_number ≡ 1
      → IsHistory (e ∷ [])
  grown :
      (h h' : List AuditEvent) (e : AuditEvent) (s : State)
      → IsHistory h
      → last_state h ≡ some s
      → e.response_id ≢ ""
      → s ⟶ e.state
      → e.previous_state ≡ some s
      → e.transition_number ≡ length h + 1
      → IsBacked s e h
      → h' ≡ h ++ e ∷ []
      → IsHistory h'

pub last_state-append_one :
    (h : List AuditEvent) (e : AuditEvent) → last_state (h ++ e ∷ []) ≡ some e.state
last_state-append_one h e = ground (arith, last?-append_one h e)

same_previous-eq : (p q : Option State) → same_previous p q ≡ true → p ≡ q
same_previous-eq p q h = ground arith

-- The facts that a successful check leaves, whatever the history.
record IsChecked (e : AuditEvent) (h : List AuditEvent) : Type 0 where
  named : str_eq e.response_id "" ≡ false
  continues : e.previous_state ≡ last_state h
  permitted : allowed (last_state h) e.state ≡ true
  backed :
      (is_recovery (last_state h) e.state
        && (not (has_application h) && not (is_some e.action_intent)))
      ≡ false
  counted : e.transition_number ≡ length h + 1

checked : (e : AuditEvent) (h : List AuditEvent) → validate_transition e h ≡ ok tt → IsChecked e h
unfolding validate_transition
checked e h v = record {
  named = ground arith;
  continues = same_previous-eq e.previous_state (last_state h) (ground arith);
  permitted = ground arith;
  backed = ground arith;
  counted = ground arith;
}

first_request : (s : State) → allowed none s ≡ true → s ≡ requested
unfolding allowed
first_request requested h = refl
first_request applied h = cc
first_request _ h = cc

backed_lem :
    (h : List AuditEvent) (e : AuditEvent) (s : State)
    → last_state h ≡ some s
    → (is_recovery (last_state h) e.state
        && (not (has_application h) && not (is_some e.action_intent)))
      ≡ false
    → IsBacked s e h
backed_lem h e s was b r = ground arith

last_state-cons :
    (x : AuditEvent) (xs : List AuditEvent) → (s : State) × (last_state (x ∷ xs) ≡ some s)
last_state-cons x [] = (x.state, refl)
last_state-cons x (y ∷ ys) = last_state-cons y ys

named_lem : (e : AuditEvent) → str_eq e.response_id "" ≡ false → e.response_id ≢ ""
named_lem e h = ground (arith, eq_iff e.response_id "")

-- An event that passes the check after a history, or after nothing, makes a history with it.
pub validate_transition-IsHistory :
    (e : AuditEvent) (h : List AuditEvent)
    → (h ≡ []) ⊎ IsHistory h
    → validate_transition e h ≡ ok tt
    → IsHistory (h ++ e ∷ [])
validate_transition-IsHistory e [] past v =
    let c = checked e [] v in
    begun e (named_lem e c.named) (first_request e.state c.permitted) c.continues
      (omega (arith, c.counted))
validate_transition-IsHistory e (x ∷ xs) (inl empty) v = cc
validate_transition-IsHistory e (x ∷ xs) (inr past) v =
    let c = checked e (x ∷ xs) v in
    let (s, was) = last_state-cons x xs in
    grown (x ∷ xs) (x ∷ xs ++ e ∷ []) e s past was (named_lem e c.named)
      (allowed-⟶ s e.state (rw was at c.permitted)) (c.continues ∙ was) c.counted
      (λ r. backed_lem (x ∷ xs) e s was c.backed r) refl

-- What a state claims of the events that led to it.
abbrev pub has_state : State → List AuditEvent → Bool
has_state s = any (λ e. same_state e.state s)

abbrev pub IsProven : State → List AuditEvent → Type 0
IsProven applied h = has_state applied h ≡ true
IsProven verified h = (has_state applied h ≡ true) × (has_state verified h ≡ true)
IsProven expired h =
    (has_state applied h ≡ true) × (has_state verified h ≡ true) × (has_state expired h ≡ true)
IsProven _ h = Unit

step-IsProven :
    {s t : State}
    → s ⟶ t
    → (h : List AuditEvent) (e : AuditEvent) → e.state ≡ t
    → IsProven s h
    → IsProven t (h ++ e ∷ [])
step-IsProven enforce h e at p =
    ground (arith, any-append (λ x. same_state x.state applied) h (e ∷ []))
step-IsProven prove h e at p = ground (
  arith,
  any-append (λ x. same_state x.state applied) h (e ∷ []),
  any-append (λ x. same_state x.state verified) h (e ∷ []),
)
step-IsProven lift h e at p = ground (
  arith,
  any-append (λ x. same_state x.state applied) h (e ∷ []),
  any-append (λ x. same_state x.state verified) h (e ∷ []),
  any-append (λ x. same_state x.state expired) h (e ∷ []),
)
step-IsProven (undo o) h e at p = tt
step-IsProven (break o) h e at p = tt

requested-IsProven : (s : State) (h : List AuditEvent) → s ≡ requested → IsProven s h
requested-IsProven requested h e = tt
requested-IsProven rolled_back h e = tt
requested-IsProven failed h e = tt
requested-IsProven applied h e = cc
requested-IsProven verified h e = cc
requested-IsProven expired h e = cc

pub IsHistory-IsProven :
    {h : List AuditEvent} → IsHistory h → {s : State} → last_state h ≡ some s → IsProven s h
IsHistory-IsProven (begun e named first previous number) {s} last =
    requested-IsProven s (e ∷ []) (ground arith)
IsHistory-IsProven (grown h h' e s past was named step previous number backed whole) {s = t} last =
    let p = step-IsProven step h e refl (IsHistory-IsProven past was) in
    let same : e.state ≡ t = ground (arith, last_state-append_one h e) in rw whole (rw (← same) p)
