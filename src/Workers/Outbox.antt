-- ===== src/Workers/Outbox.antt =====
-- soc/workers/outbox.py, `Outbox`: the jobs of the feature worker, from a vector to the delivery of its
-- scored event. The state is the tables `jobs` and `meta`, in the order of their insertion; instants are
-- microseconds, and each call is given the time of the clock. The files, their permissions and the lock
-- of the worker are not modelled.
pub mod Due
pub mod Kept
pub mod Retry
pub mod Requeue
pub mod Totals
mod Tests
use Prim.Native.String.{◌++◌ as concat, compare}
use Prim.Native.Nat.{Ordering, suc}
use enterprise_netsec_iac.Common.{
  zero, suc, ℕ, ◌+◌, ◌*◌, ◌^◌, min, String, Bool, true, false, not, ◌&&◌, ◌||◌, Option, none, some,
  List, [], ◌∷◌, ◌++◌, Method, Result, ok, err, error, storage_error, value_error, ◌>>=◌, ◌>>◌,
  gets, pure, lift, modify, str_eq, if◌then◌else◌, any, filter, count, ltb, leb, is_some,
  runtime_error, ◌==◌,
}
use enterprise_netsec_iac.Value.{Value, is_json}
use enterprise_netsec_iac.Platform.{Platform, second}

pub data JobState : Type 0 where
  pending scored sent deadletter : JobState

pub record Job : Type 0 where
  pub id : String
  pub metadata_hash : String
  pub vector : String
  pub event : Option String
  pub state : JobState
  pub attempts : ℕ
  pub next_attempt : ℕ
  pub error_code : Option String
  pub created_at : ℕ
  pub updated_at : ℕ

pub record Outbox : Type 0 where
  pub jobs : List Job
  pub meta : List (String × String)

abbrev pub is_in : JobState → Job → Bool
is_in pending j = elim j.state [ pending ↦ true | _ ↦ false ]
is_in scored j = elim j.state [ scored ↦ true | _ ↦ false ]
is_in sent j = elim j.state [ sent ↦ true | _ ↦ false ]
is_in deadletter j = elim j.state [ deadletter ↦ true | _ ↦ false ]

abbrev pub has_id : String → Job → Bool
has_id i j = str_eq j.id i

abbrev pub same_event : Option String → Option String → Bool
same_event none none = true
same_event (some a) (some b) = str_eq a b
same_event _ _ = false

-- The triggers `immutable_input` and `immutable_result`, of an update from the first job to the second.
abbrev pub is_immutable_update : Job → Job → Bool
is_immutable_update old new =
    not (str_eq new.vector old.vector)
    || not (str_eq new.metadata_hash old.metadata_hash)
    || not (str_eq new.id old.id)
    || (is_some old.event && not (same_event old.event new.event))

-- `UPDATE jobs SET … WHERE …`: a trigger that fires on one row refuses the whole statement.
unfoldable pub update_jobs : (Job → Bool) → (Job → Job) → List Job → Result (List Job)
update_jobs where_ set_ [] = ok []
update_jobs where_ set_ (j ∷ js) = elim (update_jobs where_ set_ js) [
  | err e ↦ err e
  | ok js' ↦
      if where_ j
      then if is_immutable_update j (set_ j)
        then error storage_error "outbox input or result is immutable"
        else ok (set_ j ∷ js')
      else ok (j ∷ js')
]

-- The update and its `rowcount`.
unfoldable pub update : (Job → Bool) → (Job → Job) → Method Outbox ℕ
unfolding update_jobs
update where_ set_ o = elim (update_jobs where_ set_ o.jobs) [
  | err e ↦ (err e, o)
  | ok js ↦ (ok (count where_ o.jobs), record o { jobs = js })
]

module _ (lib : Platform) (fullmatch : String → String → Bool) where
  abbrev pub job_id : String → String → String
  job_id metadata_hash body = lib.sha256 (concat metadata_hash (concat "\n" body))

  abbrev pub new_job : ℕ → String → String → Job
  new_job now metadata_hash body = record {
    id = job_id metadata_hash body;
    metadata_hash = metadata_hash;
    vector = body;
    event = none;
    state = pending;
    attempts = 0;
    next_attempt = 0;
    error_code = none;
    created_at = now;
    updated_at = now;
  }

  -- `INSERT OR IGNORE`
  unfoldable pub enqueue : Value → String → ℕ → Method Outbox Bool
  enqueue vector metadata_hash now o =
      let body = lib.canonical_json vector in
      if not (fullmatch "[a-f0-9]{64}" metadata_hash)
      then (error value_error "approved metadata SHA-256 is required", o)
      else if not (is_json vector)
      then (error value_error "Out of range float values are not JSON compliant", o)
      else if any (has_id (job_id metadata_hash body)) o.jobs
      then (ok false, o)
      else (ok true, record o { jobs = o.jobs ++ new_job now metadata_hash body ∷ [] })

  unfoldable pub save_event : String → Value → ℕ → Method Outbox (Unit {0})
  unfolding update
  save_event i event now = do
    lift (
        if is_json event
        then ok tt
        else error value_error "Out of range float values are not JSON compliant")
    n ←
        update (λ j. has_id i j && is_in pending j)
          (λ j. record j {
            event = some (lib.canonical_json event);
            state = scored;
            error_code = none;
            updated_at = now;
          })
    pure tt

-- `sent`
unfoldable pub mark_sent : String → ℕ → Method Outbox (Unit {0})
unfolding update
mark_sent i now = do
  n ←
      update (λ j. has_id i j && is_in scored j)
        (λ j. record j { state = sent; error_code = none; updated_at = now })
  pure tt

abbrev pub find_job : String → List Job → Option Job
find_job i [] = none
find_job i (j ∷ js) = if has_id i j then some j else find_job i js

-- `delay` of `failed`, in seconds.
unfoldable pub backoff : ℕ → ℕ
backoff attempts = min 3600 (5 * 2 ^ min attempts 10)

unfoldable pub failed : String → String → Bool → ℕ → Method Outbox (Unit {0})
unfolding update backoff
failed i code retryable now o = elim (find_job i o.jobs) [
  | none ↦ (error runtime_error "'NoneType' object is not subscriptable", o)
  | some row ↦
      let attempts = row.attempts + 1 in
      (do
        n ← update (has_id i) (λ j. record j {
          state = if retryable then row.state else deadletter;
          attempts = attempts;
          next_attempt = now + backoff attempts * second;
          error_code = some code;
          updated_at = now;
        })
        pure tt)
        o
]

unfoldable pub requeue : String → ℕ → Method Outbox (Unit {0})
unfolding update
requeue i now o =
    let (answer, o') =
      update (λ j. has_id i j && is_in deadletter j)
        (λ j. record j {
          state = elim j.event [ none ↦ pending | some e ↦ scored ];
          next_attempt = 0;
          error_code = none;
          updated_at = now;
        })
        o in
    elim answer [
      | err e ↦ (err e, o')
      | ok n ↦ if n == 1 then (ok tt, o') else (error value_error "unknown dead-letter job", o)
    ]

-- `ORDER BY created_at, id`
abbrev pub comes_first : Job → Job → Bool
comes_first a b =
    if a.created_at == b.created_at
    then elim (compare a.id b.id) [ Ordering.gt ↦ false | _ ↦ true ]
    else ltb a.created_at b.created_at

unfoldable pub insert_job : Job → List Job → List Job
insert_job j [] = j ∷ []
insert_job j (k ∷ ks) =
    let rest = insert_job j ks in if comes_first j k then j ∷ k ∷ ks else k ∷ rest

unfoldable pub sort_jobs : List Job → List Job
unfolding insert_job
sort_jobs [] = []
sort_jobs (j ∷ js) = insert_job j (sort_jobs js)

-- `LIMIT n`
abbrev pub take : ℕ → List Job → List Job
take zero js = []
take (suc n) [] = []
take (suc n) (j ∷ js) = j ∷ take n js

abbrev pub is_due : ℕ → Job → Bool
is_due now j = (is_in pending j || is_in scored j) && leb j.next_attempt now

unfoldable pub due : ℕ → ℕ → Outbox → List Job
unfolding sort_jobs
due limit now o = take limit (sort_jobs (filter (is_due now) o.jobs))

-- `get_meta` and `set_meta`
abbrev pub find_meta : String → List (String × String) → Option String
find_meta k [] = none
find_meta k ((j, v) ∷ ms) = if str_eq j k then some v else find_meta k ms

unfoldable pub get_meta : String → Method Outbox (Option String)
get_meta k = gets (λ o. find_meta k o.meta)

unfoldable pub put_meta : String → String → List (String × String) → List (String × String)
put_meta k v [] = (k, v) ∷ []
put_meta k v ((j, w) ∷ ms) =
    let rest = put_meta k v ms in if str_eq j k then (j, v) ∷ ms else (j, w) ∷ rest

unfoldable pub set_meta : String → String → Method Outbox (Unit {0})
unfolding put_meta
set_meta k v = modify (λ o. record o { meta = put_meta k v o.meta })

pub record Status : Type 0 where
  pub pending_jobs : ℕ
  pub scored_jobs : ℕ
  pub sent_jobs : ℕ
  pub deadletter_jobs : ℕ

unfoldable pub status : Outbox → Status
status o = record {
  pending_jobs = count (is_in pending) o.jobs;
  scored_jobs = count (is_in scored) o.jobs;
  sent_jobs = count (is_in sent) o.jobs;
  deadletter_jobs = count (is_in deadletter) o.jobs;
}
