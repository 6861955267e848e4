-- ===== src/Workers/Outbox/Totals.antt =====
-- Every job is counted once, and is taken in once.
use enterprise_netsec_iac.Common.{
  ℕ, ◌≡◌, refl, ◌+◌, String, List, [], ◌∷◌, true, false, arith, count, length, ok, Bool, any,
  any-append, eq_refl, Bool-cases, inl, inr, not, ◌++◌,
}
use enterprise_netsec_iac.Value.{Value, is_json}
use enterprise_netsec_iac.Platform.{Platform}
use enterprise_netsec_iac.Workers.Outbox.{
  Job, Outbox, is_in, pending, scored, sent, deadletter, status, enqueue, job_id, has_id, new_job,
}

count_states :
    (js : List Job)
    → count (is_in pending) js
        + count (is_in scored) js
        + count (is_in sent) js
        + count (is_in deadletter) js
      ≡ length js
count_states [] = refl
count_states (j ∷ js) = ground (arith, count_states js)

-- The four counts of the status are together the number of jobs, and no job is in two of them.
pub status_lem :
    (o : Outbox)
    → let s = status o in
      s.pending_jobs + s.scored_jobs + s.sent_jobs + s.deadletter_jobs ≡ length o.jobs
unfolding status
status_lem o = count_states o.jobs

-- A vector that was taken in, or was there, is not taken in again under the same model: the second call
-- answers `False` and changes nothing.
pub enqueue-enqueue :
    (lib : Platform) (fullmatch : String → String → Bool) (v : Value) (h : String) (t t' : ℕ)
    (o : Outbox) {b : Bool}
    → (enqueue lib fullmatch v h t o).0 ≡ ok b
    → enqueue lib fullmatch v h t' (enqueue lib fullmatch v h t o).1
      ≡ (ok false, (enqueue lib fullmatch v h t o).1)
unfolding enqueue
enqueue-enqueue lib fullmatch v h t t' o {b} e =
    let i = job_id lib fullmatch h (lib.canonical_json v) in
    elim (Bool-cases (not (fullmatch "[a-f0-9]{64}" h))) [
      | inl bad ↦ ground (arith, bad, e)
      | inr good ↦ elim (Bool-cases (not (is_json v))) [
        | inl infinite ↦ ground (arith, good, infinite, e)
        | inr finite ↦ elim (Bool-cases (any (has_id i) o.jobs)) [
          | inl there ↦ rw (good, finite, there) (rw there refl)
          | inr new ↦ rw (good, finite, new) (rw found refl)
        ]
      ]
    ]
  where
    i : String
    i = job_id lib fullmatch h (lib.canonical_json v)

    found : any (has_id i) (o.jobs ++ new_job lib fullmatch t h (lib.canonical_json v) ∷ []) ≡ true
    found = ground (
      arith,
      any-append (has_id i) o.jobs (new_job lib fullmatch t h (lib.canonical_json v) ∷ []),
      eq_refl i,
    )
