-- ===== src/Workers/Outbox/Requeue.antt =====
-- A job that fails for good waits as a dead letter, and a requeue brings it back.
use enterprise_netsec_iac.Common.{
  ◌>>=◌, ◌∙◌, Bool-cases, ℕ, ◌≡◌, refl, ◌+◌, String, List, [], ◌∷◌, Option, some, none, true, false,
  arith, map, count, ok, ◌⊎◌, inl, inr, eq_refl, if◌then◌else◌, Bool, ap, ◌&&◌, eq_iff, Bool-cases,
  ◌*◌,
}
use enterprise_netsec_iac.Workers.Outbox.{
  Job, Outbox, is_immutable_update, update_jobs, same_event, has_id, is_in, pending, scored,
  deadletter, find_job, failed, requeue, backoff, update,
}
use enterprise_netsec_iac.Platform.{second}

same_event_self : (e : Option String) → same_event e e ≡ true
same_event_self none = refl
same_event_self (some e) = eq_refl e

-- An update of other fields meets no trigger.
is_quiet :
    (j k : Job)
    → j.id ≡ k.id
    → j.vector ≡ k.vector
    → j.metadata_hash ≡ k.metadata_hash
    → j.event ≡ k.event
    → is_immutable_update j k ≡ false
is_quiet j k a b c d = ground (
  arith,
  a,
  b,
  c,
  d,
  eq_iff k.id j.id,
  eq_iff k.vector j.vector,
  eq_iff k.metadata_hash j.metadata_hash,
  same_event_self j.event,
)

abbrev changed : (Job → Bool) → (Job → Job) → Job → Job
changed w f j = if w j then f j else j

update_jobs-quiet :
    (w : Job → Bool) (f : Job → Job) (js : List Job)
    → ((j : Job) → is_immutable_update j (f j) ≡ false)
    → update_jobs w f js ≡ ok (map (changed w f) js)
unfolding update_jobs
update_jobs-quiet w f [] q = refl
update_jobs-quiet w f (j ∷ js) q = elim (Bool-cases (w j)) [
  | inl e ↦ rw (update_jobs-quiet w f js q, e, q j) refl
  | inr e ↦ rw (update_jobs-quiet w f js q, e) refl
]

find_job-map :
    (i : String) (g : Job → Job) (js : List Job) {j : Job}
    → ((k : Job) → (g k).id ≡ k.id)
    → find_job i js ≡ some j
    → find_job i (map g js) ≡ some (g j)
find_job-map i g [] same h = cc
find_job-map i g (k ∷ ks) {j} same h = ground (arith, h, same k, find_job-map i g ks {j = j} same)

find_job-has_id :
    (i : String) (js : List Job) {j : Job} → find_job i js ≡ some j → has_id i j ≡ true
find_job-has_id i [] h = cc
find_job-has_id i (k ∷ ks) {j} h = ground (arith, h, find_job-has_id i ks {j = j})

update_lem :
    (w : Job → Bool) (f : Job → Job) (o : Outbox)
    → ((j : Job) → is_immutable_update j (f j) ≡ false)
    → update w f o ≡ (ok (count w o.jobs), record o { jobs = map (changed w f) o.jobs })
unfolding update
update_lem w f o q = rw (update_jobs-quiet w f o.jobs q, update) refl

-- The two updates.
abbrev buried : ℕ → String → ℕ → Job → Job
buried attempts code now j = record j {
  state = deadletter;
  attempts = attempts;
  next_attempt = now + backoff attempts * second;
  error_code = some code;
  updated_at = now;
}

abbrev revived : ℕ → Job → Job
revived now j = record j {
  state = elim j.event [ none ↦ pending | some e ↦ scored ];
  next_attempt = 0;
  error_code = none;
  updated_at = now;
}

count-buried :
    (i : String) (f : Job → Job) (js : List Job)
    → ((k : Job) → (f k).id ≡ k.id)
    → ((k : Job) → is_in deadletter (f k) ≡ true)
    → count (λ k. has_id i k && is_in deadletter k) (map (changed (has_id i) f) js)
      ≡ count (has_id i) js
count-buried i f [] same dead = refl
count-buried i f (j ∷ js) same dead = elim (Bool-cases (has_id i j)) [
  | inl e ↦ ground (arith, e, same j, dead j, count-buried i f js same dead)
  | inr e ↦ ground (arith, e, count-buried i f js same dead)
]

module _ (i code : String) (t t' : ℕ) (o : Outbox) {j : Job} (there : find_job i o.jobs ≡ some j)
    (once : count (has_id i) o.jobs ≡ 1) where
  abbrev bury : Job → Job
  bury = buried (j.attempts + 1) code t

  failed_lem :
      failed i code false t o ≡ (ok tt, record o { jobs = map (changed (has_id i) bury) o.jobs })
  unfolding failed
  failed_lem =
      let updated = update_lem (has_id i) bury o (λ k. is_quiet k (bury k) refl refl refl refl) in
      rw (there, failed) (rw (updated, ◌>>=◌) (ap (λ u. (ok tt, u.1)) updated))

  abbrev dead : Job → Bool
  dead k = has_id i k && is_in deadletter k

  abbrev after_failure : Outbox
  after_failure = record o { jobs = map (changed (has_id i) bury) o.jobs }

  requeue_lem :
      requeue i t' after_failure
      ≡ (ok tt, record o { jobs = map (changed dead (revived t')) after_failure.jobs })
  unfolding requeue
  requeue_lem =
      let updated =
        update_lem dead (revived t') after_failure
          (λ k. is_quiet k (revived t' k) refl refl refl refl) in
      rw (updated, requeue)
        (rw (count-buried i bury o.jobs (λ k. refl) (λ k. refl), once)
          (ap (λ u. (ok tt, u.1)) updated))

  back :
      ((j.state ≡ pending) × (j.event ≡ none))
        ⊎ ((j.state ≡ scored) × ((e : String) × (j.event ≡ some e)))
      → revived t' (bury j) ≡ record j {
        attempts = j.attempts + 1;
        next_attempt = 0;
        error_code = none;
        updated_at = t';
      }
  back shape = ground (arith, shape)

  -- If a job is in the outbox once, and is pending without a result or scored with one, then after it has
  -- failed for good, a requeue succeeds and the job is back as it was, with one attempt more, due at once
  -- and without an error.
  pub requeue-failed :
      ((j.state ≡ pending) × (j.event ≡ none))
        ⊎ ((j.state ≡ scored) × ((e : String) × (j.event ≡ some e)))
      → let again = requeue i t' (failed i code false t o).1 in
        (again.0 ≡ ok tt)
        × (find_job i again.1.jobs
            ≡ some (record j {
              attempts = j.attempts + 1;
              next_attempt = 0;
              error_code = none;
              updated_at = t';
            }))
  requeue-failed shape =
      rw (failed_lem, requeue_lem)
        (
          refl,
          find_job-map i (changed dead (revived t')) _ (λ k. ground arith)
                (find_job-map i (changed (has_id i) bury) o.jobs (λ k. ground arith) there)
              ∙ rw (find_job-has_id i o.jobs there)
                  (rw (find_job-has_id i o.jobs there) (ap some (back shape))),
        )
