-- ===== src/Store/Trail.antt =====
-- The journal keeps an audit trail: its tables only grow, the events of every response are a history
-- of the lifecycle, and no response has two apply intents.
use mathlib.Core.Path.{subst}
use enterprise_netsec_iac.Common.{
  ℕ, ◌≤◌, String, ◌≡◌, refl, ◌∙◌, sym, true, false, ◌⊎◌, inl, inr, Option, none, some, List, [],
  ◌∷◌, ◌++◌, arith, count, contains, filter-append_one, str_eq, eq_iff, ok, Bool-cases,
}
use enterprise_netsec_iac.Common.Pure.{>>=-eq-ok, require, require-eq-ok}
use enterprise_netsec_iac.Platform.{Platform}
use enterprise_netsec_iac.Audit.{AuditEvent, validate_transition, apply_operation}
use enterprise_netsec_iac.Audit.Lifecycle.{IsHistory, validate_transition-IsHistory}
use enterprise_netsec_iac.Store.{
  ResponseRecord, Journal, of_response, events, latest, insert_intent, insert_event, matches_latest,
  write_change, upsert_record, checkpoint,
}

-- What a committed checkpoint did.
pub record Committed (lib : Platform) (r : ResponseRecord) (e : Option AuditEvent) (j j' : Journal)
    : Type 0 where
  pub written : Journal
  pub change : write_change r e j ≡ ok written
  pub audit : j'.audit ≡ written.audit
  pub intents : j'.apply_intents ≡ written.apply_intents
  pub agrees : matches_latest r (latest r.response_id j') ≡ true
  pub stored : upsert_record lib r written.records ≡ ok j'.records

pub checkpoint-Committed :
    (lib : Platform) (r : ResponseRecord) (e : Option AuditEvent) (j : Journal) {j' : Journal}
    → checkpoint lib r e j ≡ ok j'
    → Committed lib r e j j'
unfolding checkpoint
checkpoint-Committed lib r e j {j'} h =
    let (k, change, rest) = >>=-eq-ok (write_change r e j) _ h in
    let (_, agrees, rest') =
      >>=-eq-ok (require (matches_latest r (latest r.response_id k)) _ _) _ rest in
    let (rs, stored, done) = >>=-eq-ok (upsert_record lib r k.records) _ rest' in
    record {
      written = k;
      change = change;
      audit = ground arith;
      intents = ground arith;
      agrees = ground (arith, require-eq-ok (matches_latest r (latest r.response_id k)) _ _ agrees);
      stored = ground arith;
    }

abbrev pub intents_of : String → Journal → ℕ
intents_of i j = count (λ y. str_eq y i) j.apply_intents

-- The audit events of each response are none or a history, and it has at most one apply intent.
pub record IsSound (j : Journal) : Type 0 where
  pub trail : (i : String) → (events i j ≡ []) ⊎ IsHistory (events i j)
  pub once : (i : String) → intents_of i j ≤ 1

count-not_contains :
    (i : String) (xs : List String) → contains i xs ≡ false → count (λ y. str_eq y i) xs ≡ 0
count-not_contains i [] h = refl
count-not_contains i (x ∷ xs) h = ground (arith, count-not_contains i xs)

insert_intent-audit :
    (r : ResponseRecord) (j : Journal) {k : Journal} → insert_intent r j ≡ ok k → k.audit ≡ j.audit
unfolding insert_intent
insert_intent-audit r j h = ground arith

pub insert_intent-once :
    (r : ResponseRecord) (j : Journal) {k : Journal}
    → insert_intent r j ≡ ok k
    → (i : String) → intents_of i j ≤ 1
    → intents_of i k ≤ 1
unfolding insert_intent
insert_intent-once r j h i least =
    ground (arith, eq_iff r.response_id i, count-not_contains r.response_id j.apply_intents)

pub insert_event-audit :
    (r : ResponseRecord) (e : AuditEvent) (j : Journal) {k : Journal}
    → insert_event r e j ≡ ok k
    → (validate_transition e (events r.response_id j) ≡ ok tt)
      × (k.audit ≡ j.audit ++ e ∷ [])
      × (k.apply_intents ≡ j.apply_intents)
unfolding insert_event
insert_event-audit r e j h =
    let (_, valid, rest) = >>=-eq-ok (validate_transition e (events r.response_id j)) _ h in
    (valid, ground arith, ground arith)

trail-append :
    (e : AuditEvent) (j k : Journal)
    → k.audit ≡ j.audit ++ e ∷ []
    → validate_transition e (events e.response_id j) ≡ ok tt
    → (i : String) → (events i j ≡ []) ⊎ IsHistory (events i j)
    → (events i k ≡ []) ⊎ IsHistory (events i k)
trail-append e j k grown valid i past = elim (Bool-cases (str_eq e.response_id i)) [
  | inl mine ↦
      let same : e.response_id ≡ i = ground (arith, eq_iff e.response_id i) in
      let long : events i k ≡ events i j ++ e ∷ [] =
        ground (arith, filter-append_one (of_response i) j.audit e) in
      inr (rw long (validate_transition-IsHistory e (events i j) past (rw (← same) valid)))
  | inr other ↦
      let short : events i k ≡ events i j =
        ground (arith, filter-append_one (of_response i) j.audit e) in
      rw short past
]

-- A committed checkpoint appends its event, if it has one, to the audit trail.
pub checkpoint-audit :
    (lib : Platform) (r : ResponseRecord) (e : Option AuditEvent) (j : Journal) {j' : Journal}
    → checkpoint lib r e j ≡ ok j'
    → j'.audit ≡ elim e [ none ↦ j.audit | some x ↦ j.audit ++ x ∷ [] ]
unfolding write_change
checkpoint-audit lib r none j h =
    let c = checkpoint-Committed lib r none j h in c.audit ∙ insert_intent-audit r j c.change
checkpoint-audit lib r (some x) j h =
    let c = checkpoint-Committed lib r (some x) j h in
    let (_, grown, _) = insert_event-audit r x j c.change in c.audit ∙ grown

insert_intent-grows :
    (r : ResponseRecord) (j : Journal) {k : Journal}
    → insert_intent r j ≡ ok k
    → (i : String) → intents_of i j ≤ intents_of i k
unfolding insert_intent
insert_intent-grows r j h i = ground arith

-- A committed checkpoint takes no intent away, and leaves each response one at most.
pub checkpoint-intents :
    (lib : Platform) (r : ResponseRecord) (e : Option AuditEvent) (j : Journal) {j' : Journal}
    → checkpoint lib r e j ≡ ok j'
    → (i : String) → intents_of i j ≤ 1
    → (intents_of i j ≤ intents_of i j') × (intents_of i j' ≤ 1)
unfolding write_change
checkpoint-intents lib r none j h i least =
    let c = checkpoint-Committed lib r none j h in
    rw c.intents (insert_intent-grows r j c.change i, insert_intent-once r j c.change i least)
checkpoint-intents lib r (some x) j h i least =
    let c = checkpoint-Committed lib r (some x) j h in
    let (_, _, same) = insert_event-audit r x j c.change in
    rw (c.intents ∙ same) (omega arith, least)

-- The checkpoint of a pending apply adds the one intent of its response.
pub checkpoint-new_intent :
    (lib : Platform) (r : ResponseRecord) (j : Journal) {j' : Journal}
    → r.pending_operation ≡ some apply_operation
    → checkpoint lib r none j ≡ ok j'
    → (intents_of r.response_id j ≡ 0) × (intents_of r.response_id j' ≡ 1)
unfolding write_change insert_intent
checkpoint-new_intent lib r j pending h =
    let c = checkpoint-Committed lib r none j h in
    ground (
      arith,
      c.change,
      c.intents,
      eq_iff r.response_id r.response_id,
      count-not_contains r.response_id j.apply_intents,
    )

-- A committed checkpoint, with no event or one of its own response, keeps the journal sound.
pub checkpoint-IsSound :
    (lib : Platform) (r : ResponseRecord) (e : Option AuditEvent) (j : Journal) {j' : Journal}
    → ((x : AuditEvent) → e ≡ some x → x.response_id ≡ r.response_id)
    → checkpoint lib r e j ≡ ok j'
    → IsSound j
    → IsSound j'
unfolding write_change
checkpoint-IsSound lib r none j {j'} own h s =
    let c = checkpoint-Committed lib r none j h in
    let same : j'.audit ≡ j.audit = c.audit ∙ insert_intent-audit r j c.change in
    record {
      trail = λ i. rw same (s.trail i);
      once = λ i. rw c.intents (insert_intent-once r j c.change i (s.once i));
    }
checkpoint-IsSound lib r (some x) j {j'} own h s =
    let c = checkpoint-Committed lib r (some x) j h in
    let (valid, grown, intents) = insert_event-audit r x j c.change in
    let mine : validate_transition x (events x.response_id j) ≡ ok tt =
      subst (λ i. validate_transition x (events i j) ≡ ok tt) (sym (own x refl)) valid in
    record {
      trail = λ i. trail-append x j j' (c.audit ∙ grown) mine i (s.trail i);
      once = λ i. rw (c.intents ∙ intents) (s.once i);
    }
