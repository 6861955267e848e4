-- ===== src/Workers/Outbox/Tests.antt =====
-- A job through the outbox, and each theorem at one run.
use enterprise_netsec_iac.Common.{
  ℕ, String, Bool, List, true, false, ok, error, ◌≡◌, refl, some, none, [], ◌∷◌, value_error,
  length, ◌≤◌, All, inl, ◌+◌, ◌<◌,
}
use enterprise_netsec_iac.Value.{null}
use enterprise_netsec_iac.Fixtures.{toy_platform}
use enterprise_netsec_iac.Workers.Outbox.Kept.{
  Request, serve, serve-Continues, Continues, enqueue_job, save_result, job_failed, job_sent,
  requeue_job,
}
use enterprise_netsec_iac.Workers.Outbox.{
  Job, Outbox, failed, requeue, enqueue, due, status, pending, scored, find_job, backoff,
}
use enterprise_netsec_iac.Workers.Outbox.Due.{due_lem, IsDue, IsIn}
use enterprise_netsec_iac.Workers.Outbox.Retry.{backoff_bounds}
use enterprise_netsec_iac.Workers.Outbox.Requeue.{requeue-failed}
use enterprise_netsec_iac.Workers.Outbox.Totals.{status_lem, enqueue-enqueue}

abbrev any_hash : String → String → Bool
any_hash pattern s = true

abbrev empty : Outbox
empty = record { jobs = []; meta = [] }

abbrev waiting : Job
waiting = record {
  id = "job-1";
  metadata_hash = "m";
  vector = "v";
  event = none;
  state = pending;
  attempts = 0;
  next_attempt = 0;
  error_code = none;
  created_at = 5;
  updated_at = 5;
}

abbrev scored_job : Job
scored_job = record waiting { id = "job-2"; event = some "e"; state = scored; created_at = 4 }

abbrev two_jobs : Outbox
two_jobs = record { jobs = waiting ∷ scored_job ∷ []; meta = [] }

oldest_first : due 1 10 two_jobs ≡ scored_job ∷ []
unfolding due
oldest_first = refl

unknown_requeue : (requeue "job-1" 9 two_jobs).0 ≡ error value_error "unknown dead-letter job"
unfolding requeue
unknown_requeue = refl

abbrev calls : List (ℕ × Request)
calls =
    (6, enqueue_job null "m")
    ∷ (7, save_result "job-1" null)
    ∷ (8, job_failed "job-1" "HTTP_503" true)
    ∷ (9, job_sent "job-2")
    ∷ (10, job_failed "job-1" "HTTP_400" false)
    ∷ (11, requeue_job "job-1")
    ∷ []

serve-Continues_example : Continues two_jobs.jobs (serve toy_platform any_hash calls two_jobs).jobs
serve-Continues_example = serve-Continues toy_platform any_hash calls two_jobs

due_lem_example :
    (length (due 3 10 two_jobs) ≤ 3)
    × All (IsDue 10) (due 3 10 two_jobs)
    × (length (due 3 10 two_jobs) < 3
        → (j : Job) → IsIn j two_jobs.jobs
        → IsDue 10 j
        → IsIn j (due 3 10 two_jobs))
due_lem_example = due_lem 3 10 two_jobs

backoff_bounds_example : (10 ≤ backoff 4) × (backoff 4 ≤ 3600) × (backoff 3 ≤ backoff 4)
backoff_bounds_example = backoff_bounds 3

requeue-failed_example :
    let again = requeue "job-1" 30 (failed "job-1" "HTTP_400" false 20 two_jobs).1 in
    (again.0 ≡ ok tt)
    × (find_job "job-1" again.1.jobs ≡ some (record waiting { attempts = 1; updated_at = 30 }))
requeue-failed_example =
    requeue-failed "job-1" "HTTP_400" 20 30 two_jobs refl refl (inl (refl, refl))

four_counts :
    let s = status two_jobs in s.pending_jobs + s.scored_jobs + s.sent_jobs + s.deadletter_jobs ≡ 2
four_counts = status_lem two_jobs

enqueue-enqueue_example :
    enqueue toy_platform any_hash null "m" 7 (enqueue toy_platform any_hash null "m" 6 empty).1
    ≡ (ok false, (enqueue toy_platform any_hash null "m" 6 empty).1)
unfolding enqueue
enqueue-enqueue_example = enqueue-enqueue toy_platform any_hash null "m" 6 7 empty {b = true} refl
