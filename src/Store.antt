-- ===== src/Store.antt =====
-- response/orchestrator/store.py: the journal of the response plane. `Journal` holds the tables; a
-- change is one transaction, which raises and changes nothing or is committed whole. A row of `audit`
-- is its payload, whose `response_id` is the row's. The locks and the file checks are not modelled.
pub mod Trail
use enterprise_netsec_iac.Common.{
  ℕ, ◌+◌, String, ◌≡◌, Bool, true, false, not, ◌&&◌, ◌||◌, Option, none, some, List, [], ◌∷◌, ◌++◌,
  ◌==◌, str_eq, if◌then◌else◌, any, all, filter, count, contains, ltb, last?, Result, ok, err,
  error, command_rejected, storage_error,
}
use enterprise_netsec_iac.Common.Pure.{◌>>=◌, ◌>>◌, require, refuse}
use enterprise_netsec_iac.Platform.{Platform}
use enterprise_netsec_iac.Audit.{
  State, requested, Command, Operation, apply_operation, AuditEvent, same_state,
  validate_transition,
}

-- `_ResponseRecord` of engine.py; a snapshot of the table `records` is one with a rounded expiry.
pub record ResponseRecord : Type 0 where
  pub response_id : String
  pub command : Command
  pub expires_at : ℕ
  pub state : State
  pub transition_number : ℕ
  pub adapter_reference : Option String
  pub authorized : Bool
  pub pending_operation : Option Operation
  pub operation_started_at : Option ℕ

pub record Admission : Type 0 where
  pub response_id : String
  pub policy_id : String
  pub admitted_at : ℕ

pub record Journal : Type 0 where
  pub records : List ResponseRecord
  pub audit : List AuditEvent
  pub apply_intents : List String
  pub admissions : List Admission
  pub exported : List (String × ℕ)

abbrev pub of_response : String → AuditEvent → Bool
of_response i e = str_eq e.response_id i

-- `events`, the history of one response in order.
abbrev pub events : String → Journal → List AuditEvent
events i j = filter (of_response i) j.audit

abbrev pub latest : String → Journal → Option AuditEvent
latest i j = last? (events i j)

-- `INSERT OR IGNORE INTO admissions`
abbrev pub record_admission : AuditEvent → List Admission → List Admission
record_admission e as_ =
    if any (λ a. str_eq a.response_id e.response_id) as_
    then as_
    else as_
      ++ record { response_id = e.response_id; policy_id = e.policy_id; admitted_at = e.timestamp }
        ∷ []

abbrev pub is_apply : Option Operation → Bool
is_apply (some apply_operation) = true
is_apply _ = false

-- The row of `apply_intents` that a checkpoint without an event inserts for a pending apply.
unfoldable pub insert_intent : ResponseRecord → Journal → Result Journal
insert_intent r j =
    if is_apply r.pending_operation
    then if contains r.response_id j.apply_intents
      then error command_rejected "application already attempted; recovery required"
      else ok (record j { apply_intents = r.response_id ∷ j.apply_intents })
    else ok j

unfoldable pub insert_event : ResponseRecord → AuditEvent → Journal → Result Journal
unfolding validate_transition
insert_event r e j = do
  validate_transition e (events r.response_id j)
  ok (record j {
    audit = j.audit ++ e ∷ [];
    admissions = if e.transition_number == 1 then record_admission e j.admissions else j.admissions;
  })

abbrev pub matches_latest : ResponseRecord → Option AuditEvent → Bool
matches_latest r none = false
matches_latest r (some e) = same_state e.state r.state && e.transition_number == r.transition_number

-- The trigger `record_input_immutable`: a row keeps its command and its expiry.
abbrev pub same_input : Platform → ResponseRecord → ResponseRecord → Bool
same_input lib a b =
    str_eq (lib.canonical_json a.command.raw) (lib.canonical_json b.command.raw)
    && a.expires_at == b.expires_at

-- `INSERT … ON CONFLICT(id) DO UPDATE`, under that trigger.
unfoldable pub upsert_record :
    Platform → ResponseRecord → List ResponseRecord → Result (List ResponseRecord)
upsert_record lib r [] = ok (r ∷ [])
upsert_record lib r (s ∷ ss) =
    let later = (do ss' ← upsert_record lib r ss; ok (s ∷ ss')) in
    if str_eq s.response_id r.response_id
    then if same_input lib s r
      then ok (r ∷ ss)
      else error storage_error "response input is immutable"
    else later

unfoldable pub write_change : ResponseRecord → Option AuditEvent → Journal → Result Journal
unfolding insert_intent insert_event
write_change r none j = insert_intent r j
write_change r (some e) j = insert_event r e j

unfoldable pub checkpoint : Platform → ResponseRecord → Option AuditEvent → Journal → Result Journal
unfolding write_change upsert_record
checkpoint lib r event j = do
  j' ← write_change r event j
  require (matches_latest r (latest r.response_id j')) command_rejected
      "checkpoint must match the latest audit event"
  records' ← upsert_record lib r j'.records
  ok (record j' { records = records' })

-- `load`: every snapshot agrees with the last event of its response, or the store is refused.
unfoldable pub load : Journal → Result (List ResponseRecord)
load j = do
  require (all (λ r. matches_latest r (latest r.response_id j)) j.records) command_rejected
      "response checkpoint differs from its audit history"
  ok j.records

-- `requested_since`
unfoldable pub requested_since : String → ℕ → Journal → ℕ
requested_since policy since j =
    count (λ a. str_eq a.policy_id policy && ltb since a.admitted_at) j.admissions

abbrev pub is_exported : Journal → AuditEvent → Bool
is_exported j e = any (λ x. str_eq x.0 e.response_id && x.1 == e.transition_number) j.exported

-- `unexported_events` without its limit, oldest first, and `mark_exported`.
unfoldable pub unexported_events : Journal → List AuditEvent
unexported_events j = filter (λ e. not (is_exported j e)) j.audit

unfoldable pub mark_exported : AuditEvent → Journal → Journal
mark_exported e j =
    if is_exported j e
    then j
    else record j { exported = (e.response_id, e.transition_number) ∷ j.exported }
