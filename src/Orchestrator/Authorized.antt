-- ===== src/Orchestrator/Authorized.antt =====
-- What an adapter call needs: submission makes none, and an application makes one only for a response
-- that is requested, authorised, unexpired and authorised again at that moment.
use enterprise_netsec_iac.Common.{
  ℕ, ◌<◌, String, ◌≡◌, refl, Bool, true, false, ◌∙◌, not, Kind, Option, Option-cases, none, some,
  List, arith, leb, is_some, ◌⊎◌, inl, inr, Bool-cases, Result, ok, err, Method, modify, ◌>>◌,
}
use enterprise_netsec_iac.Common.Keeps.{Keeps, Keeps-if, keeps_rules}
use enterprise_netsec_iac.Audit.{State, requested, failed, AuditEvent, Command}
use enterprise_netsec_iac.Common.Pure.{>>=-eq-ok}
use enterprise_netsec_iac.Value.{Value}
use enterprise_netsec_iac.Policy.Eligible.{IsEligible, assert_target_allowed_iff}
use enterprise_netsec_iac.Validation.{validate_command}
use enterprise_netsec_iac.Validation.Accepted.{IsAccepted, validate_command-IsAccepted}
use enterprise_netsec_iac.Store.{ResponseRecord}
use enterprise_netsec_iac.Orchestrator.Machine.{
  Orchestrator, Environment, Call, Payload, find_record, get_record, write_back, commit, transition,
  fail,
}
use enterprise_netsec_iac.Orchestrator.Operations.{
  refuse_if, is_state, prune, submit, submit_body, submit_known, accept_new, register, authorize,
  after_protection, admit, duplicate_result,
}
use enterprise_netsec_iac.Orchestrator.Enforcement.{
  apply, apply_body, reauthorize, after_reauthorize, apply_known,
}
use enterprise_netsec_iac.Orchestrator.Once.{commit-calls}

-- A method that calls no adapter.
abbrev pub CallsAre : List Call → Orchestrator → Type 0
CallsAre cs s = s.calls ≡ cs

module _ (env : Environment) (cs : List Call) where
  commit-quiet : (r : ResponseRecord) (e : Option AuditEvent) → Keeps (CallsAre cs) (commit env r e)
  commit-quiet r e = record { at = λ s h. rw (commit-calls env r e s) h }

  write_back-quiet : (r : ResponseRecord) → Keeps (CallsAre cs) (write_back r)
  unfolding write_back
  write_back-quiet r = record { at = λ s h. h }

  transition-quiet :
      (r : ResponseRecord) (t : State) (now : ℕ) (p : Payload)
      → Keeps (CallsAre cs) (transition env r t now p)
  unfolding transition
  transition-quiet r t now p = search (keeps_rules, commit-quiet, write_back-quiet)

  fail-quiet :
      (r : ResponseRecord) (now : ℕ) (c m : String) → Keeps (CallsAre cs) (fail env r now c m)
  unfolding fail
  fail-quiet r now c m = transition-quiet r failed now _

module _ (env : Environment) (cs : List Call) where
  register-quiet : (r : ResponseRecord) (now : ℕ) → Keeps (CallsAre cs) (register env r now)
  unfolding register
  register-quiet r now = record { at = λ s h. h }

  prune-quiet :
      (now : ℕ) → Keeps (CallsAre cs) (modify (λ s. record s { dedup = prune now s.dedup }))
  prune-quiet now = record { at = λ s h. h }

  get_record-quiet : (i : String) → Keeps (CallsAre cs) (get_record i)
  unfolding get_record
  get_record-quiet i = record { at = λ s h. h }

  after_protection-quiet :
      (r : ResponseRecord) (e : AuditEvent) (now : ℕ) (o : Option (Unit {0}))
      → Keeps (CallsAre cs) (after_protection env r e now o)
  unfolding after_protection admit
  after_protection-quiet r e now none = search (keeps_rules, fail-quiet env cs)
  after_protection-quiet r e now (some _) =
      search (keeps_rules, fail-quiet env cs, write_back-quiet env cs, commit-quiet env cs) depth 12

  submit_known-quiet :
      (c : Command) (i : String) (now : ℕ) (o : Option String)
      → Keeps (CallsAre cs) (submit_known env c i now o)
  unfolding submit_known accept_new duplicate_result authorize
  submit_known-quiet c i now none =
      search (keeps_rules, transition-quiet env cs, register-quiet, after_protection-quiet)
  submit_known-quiet c i now (some j) = search (keeps_rules, get_record-quiet)

  submit_body-quiet : (c : Value) (now : ℕ) → Keeps (CallsAre cs) (submit_body env c now)
  unfolding submit_body
  submit_body-quiet c now = search (keeps_rules, prune-quiet, submit_known-quiet) depth 9

-- A submission calls no adapter, whatever it returns or raises.
pub submit_is_quiet :
    (env : Environment) (c : Value) (now : ℕ) (s : Orchestrator)
    → (submit env c now s).1.calls ≡ s.calls
unfolding submit
submit_is_quiet env c now s = elim (Bool-cases s.storage_failed) [
  | inl closed ↦ ground arith
  | inr open_ ↦
      let reached : (submit env c now s).1.calls ≡ (submit_body env c now s).1.calls =
        ground arith in
      reached ∙ (submit_body-quiet env s.calls c now).at s refl
]

-- What an adapter is asked to apply.
pub record IsPermitted (env : Environment) (r : ResponseRecord) (now : ℕ) : Type 0 where
  pub waiting : is_state requested r ≡ true
  pub authorized : r.authorized ≡ true
  pub untouched : is_some r.adapter_reference ≡ false
  pub in_time : now < r.expires_at
  pub command : Command
  pub accepted : IsAccepted env.lib env.catalog env.authenticate r.command.raw now command
  pub eligible : IsEligible env.lib env.catalog.protections r.command.action r.command.target

reauthorize-checks :
    (env : Environment) (r : ResponseRecord) (now : ℕ)
    → reauthorize env r now ≡ ok tt
    → (c : Command) × IsAccepted env.lib env.catalog env.authenticate r.command.raw now c
      × IsEligible env.lib env.catalog.protections r.command.action r.command.target
unfolding reauthorize
reauthorize-checks env r now h =
    let (c, valid, allowed) =
      >>=-eq-ok (validate_command env.lib env.catalog env.authenticate r.command.raw now) _ h in
    (
      c,
      validate_command-IsAccepted env.lib env.catalog env.authenticate r.command.raw now valid,
      (assert_target_allowed_iff env.lib env.catalog.protections r.command.action
            r.command.target).0
          allowed,
    )

module _ (env : Environment) (r : ResponseRecord) (now : ℕ) (cs : List Call) where
  -- No call yet, or the permission for one.
  abbrev Guarded : Orchestrator → Type 0
  Guarded s = (s.calls ≡ cs) ⊎ IsPermitted env r now

  guard : {A : Type 0} (m : Method Orchestrator A) → Keeps (CallsAre cs) m → Keeps Guarded m
  guard m k = record { at = λ s h. elim h [ inl q ↦ inl (k.at s q) | inr p ↦ inr p ] }

  Keeps-refuse :
      {A : Type 0} (b : Bool) (k : Kind) (m : String) (n : Method Orchestrator A)
      → (b ≡ false → Keeps Guarded n)
      → Keeps Guarded (refuse_if b k m >> n)
  Keeps-refuse true k m n kn = record { at = λ s h. h }
  Keeps-refuse false k m n kn = record { at = λ s h. (kn refl).at s h }

  after_reauthorize-Keeps :
      (x : Result (Unit {0}))
      → (x ≡ ok tt → IsPermitted env r now)
      → Keeps Guarded (after_reauthorize env r now x)
  unfolding after_reauthorize
  after_reauthorize-Keeps (ok u) permitted = record { at = λ s h. inr (permitted refl) }
  after_reauthorize-Keeps (err e) permitted =
      guard (after_reauthorize env r now (err e)) (search (keeps_rules, fail-quiet env cs))

  apply_known-Keeps : (i : String) → Keeps Guarded (apply_known env r i now)
  unfolding apply_known
  apply_known-Keeps i = Keeps-refuse (not (is_state requested r)) _ _ _ λ waiting.
      Keeps-refuse (not r.authorized) _ _ _ λ authorized.
        Keeps-refuse (is_some r.adapter_reference) _ _ _ λ untouched.
          Keeps-if (leb r.expires_at now) _ _
            (λ late. guard _ (search (keeps_rules, fail-quiet env cs)))
            (λ early. after_reauthorize-Keeps (reauthorize env r now) λ valid.
              let (c, accepted, eligible) = reauthorize-checks env r now valid in
              record {
                waiting = ground arith;
                authorized = ground arith;
                untouched = untouched;
                in_time = ground arith;
                command = c;
                accepted = accepted;
                eligible = eligible;
              })

-- An application either calls no adapter, or is of a known response that is requested, authorised,
-- without a reference and before its expiry, whose command is accepted at this moment and whose target is
-- eligible.
pub apply_needs_permission :
    (env : Environment) (i : String) (now : ℕ) (s : Orchestrator)
    → ((apply env i now s).1.calls ≡ s.calls)
      ⊎ ((r : ResponseRecord) × (find_record i s.records ≡ some r) × IsPermitted env r now)
unfolding apply apply_body get_record
apply_needs_permission env i now s = elim (Bool-cases s.storage_failed) [
  | inl closed ↦ inl (ground arith)
  | inr open_ ↦ elim (Option-cases (find_record i s.records)) [
    | inl unknown ↦ inl (ground arith)
    | inr (r, known) ↦
        let reached : (apply env i now s).1.calls ≡ (apply_known env r i now s).1.calls =
          ground arith in
        elim ((apply_known-Keeps env r now s.calls i).at s (inl refl)) [
          | inl quiet ↦ inl (reached ∙ quiet)
          | inr permitted ↦ inr (r, known, permitted)
        ]
  ]
]
