-- ===== src/Workers/Outbox/Kept.antt =====
-- Runs of the outbox: any calls, at any times, whatever they return or raise.
use enterprise_netsec_iac.Common.{
  not, any, pure, Option-cases, if◌then◌else◌, ℕ, ◌≡◌, refl, String, List, [], ◌∷◌, Option, some,
  none, true, false, arith, ◌∙◌, Bool, ◌++◌, eq_iff, ok, Result-cases, Result, inl, err, inr, error,
  storage_error, Bool-cases, ◌⊎◌, ◌&&◌, lift,
}
use enterprise_netsec_iac.Common.Keeps.{Keeps, Keeps-bind, Keeps-pure, Keeps-then, Keeps-lift}
use enterprise_netsec_iac.Workers.Outbox.{
  Job, Outbox, Value, Platform, enqueue, save_event, mark_sent, failed, requeue, set_meta,
  same_event, is_immutable_update, update_jobs, update, has_id, find_job, job_id, is_in, deadletter,
  pending, scored, is_json,
}

pub data Request : Type 0 where
  enqueue_job : Value → String → Request
  save_result : String → Value → Request
  job_sent : String → Request
  job_failed : String → String → Bool → Request
  requeue_job : String → Request
  write_meta : String → String → Request

module _ (lib : Platform) (fullmatch : String → String → Bool) where
  -- A call at a time, with the outbox as it leaves it.
  unfoldable pub serve_one : ℕ → Request → Outbox → Outbox
  unfolding enqueue save_event mark_sent failed requeue set_meta
  serve_one now (enqueue_job v h) o = (enqueue lib fullmatch v h now o).1
  serve_one now (save_result i e) o = (save_event lib fullmatch i e now o).1
  serve_one now (job_sent i) o = (mark_sent i now o).1
  serve_one now (job_failed i code retryable) o = (failed i code retryable now o).1
  serve_one now (requeue_job i) o = (requeue i now o).1
  serve_one now (write_meta k v) o = (set_meta k v o).1

  unfoldable pub serve : List (ℕ × Request) → Outbox → Outbox
  unfolding serve_one
  serve [] o = o
  serve ((now, r) ∷ rs) o = serve rs (serve_one now r o)

-- What no call may change of a job.
pub record IsSameJob (old new : Job) : Type 0 where
  pub same_id : old.id ≡ new.id
  pub same_metadata : old.metadata_hash ≡ new.metadata_hash
  pub same_vector : old.vector ≡ new.vector
  pub same_creation : old.created_at ≡ new.created_at
  pub same_result : (e : String) → old.event ≡ some e → new.event ≡ some e

-- The second list has every job of the first at its place, with the same input and result, and perhaps
-- further jobs behind them.
pub Continues : List Job → List Job → Type 0
Continues [] new = Unit
Continues (j ∷ js) [] = ⊥
Continues (j ∷ js) (k ∷ ks) = IsSameJob j k × Continues js ks

IsSameJob-refl : (j : Job) → IsSameJob j j
IsSameJob-refl j = record {
  same_id = refl;
  same_metadata = refl;
  same_vector = refl;
  same_creation = refl;
  same_result = λ e h. h;
}

IsSameJob-trans : (i j k : Job) → IsSameJob i j → IsSameJob j k → IsSameJob i k
IsSameJob-trans i j k f g = record {
  same_id = f.same_id ∙ g.same_id;
  same_metadata = f.same_metadata ∙ g.same_metadata;
  same_vector = f.same_vector ∙ g.same_vector;
  same_creation = f.same_creation ∙ g.same_creation;
  same_result = λ e h. g.same_result e (f.same_result e h);
}

Continues-refl : (js : List Job) → Continues js js
unfolding Continues
Continues-refl [] = tt
Continues-refl (j ∷ js) = (IsSameJob-refl j, Continues-refl js)

Continues-trans : (is js ks : List Job) → Continues is js → Continues js ks → Continues is ks
unfolding Continues
Continues-trans [] js ks f g = tt
Continues-trans (i ∷ is) [] ks f g = elim f [ ]
Continues-trans (i ∷ is) (j ∷ js) [] f g = elim g [ ]
Continues-trans (i ∷ is) (j ∷ js) (k ∷ ks) (f, fs) (g, gs) =
    (IsSameJob-trans i j k f g, Continues-trans is js ks fs gs)

Continues-append_one : (js : List Job) (j : Job) → Continues js (js ++ j ∷ [])
unfolding Continues
Continues-append_one [] j = tt
Continues-append_one (k ∷ ks) j = (IsSameJob-refl k, Continues-append_one ks j)

same_event-eq : (a b : Option String) (e : String) → same_event a b ≡ true → a ≡ some e → b ≡ some e
same_event-eq none b e h g = cc
same_event-eq (some a) none e h g = cc
same_event-eq (some a) (some b) e h g = ground (arith, eq_iff a b, g)

-- An update that no trigger refuses, if it leaves the time of creation.
allowed_update :
    (old new : Job)
    → is_immutable_update old new ≡ false
    → old.created_at ≡ new.created_at
    → IsSameJob old new
allowed_update old new h g = record {
  same_id = ground (arith, eq_iff new.id old.id);
  same_metadata = ground (arith, eq_iff new.metadata_hash old.metadata_hash);
  same_vector = ground (arith, eq_iff new.vector old.vector);
  same_creation = g;
  same_result = λ e k. same_event-eq old.event new.event e (ground (arith, h, k)) k;
}

update_jobs-Continues :
    (w : Job → Bool) (f : Job → Job) (js : List Job) {js' : List Job}
    → ((j : Job) → j.created_at ≡ (f j).created_at)
    → update_jobs w f js ≡ ok js'
    → Continues js js'
unfolding update_jobs Continues
update_jobs-Continues w f [] g h = tt
update_jobs-Continues w f (j ∷ js) {js'} g h =
    later (update_jobs w f js) (λ rest e. update_jobs-Continues w f js g e) h
  where
    later :
        (r : Result (List Job))
        → ((rest : List Job) → r ≡ ok rest → Continues js rest)
        → (elim r [
          | err e ↦ err e
          | ok rest ↦
              if w j
              then if is_immutable_update j (f j)
                then error storage_error "outbox input or result is immutable"
                else ok (f j ∷ rest)
              else ok (j ∷ rest)
        ])
          ≡ ok js'
        → Continues (j ∷ js) js'
    later (err e) ih h = cc
    later (ok rest) ih h = elim (Bool-cases (w j)) [
      | inr other ↦
          let same : (j ∷ rest) ≡ js' = ground (arith, h, other) in
          rw (← same) (IsSameJob-refl j, ih rest refl)
      | inl chosen ↦ elim (Bool-cases (is_immutable_update j (f j))) [
        | inl refused ↦ ground (arith, h, chosen, refused)
        | inr allowed ↦
            let same : (f j ∷ rest) ≡ js' = ground (arith, h, chosen, allowed) in
            rw (← same) (allowed_update j (f j) allowed (g j), ih rest refl)
      ]
    ]

update-Continues :
    (w : Job → Bool) (f : Job → Job) (o : Outbox)
    → ((j : Job) → j.created_at ≡ (f j).created_at)
    → Continues o.jobs (update w f o).1.jobs
unfolding update
update-Continues w f o g = elim (Result-cases (update_jobs w f o.jobs)) [
  | inl (js, e) ↦ rw (e, update) (update_jobs-Continues w f o.jobs g e)
  | inr (x, e) ↦ rw (e, update) (Continues-refl o.jobs)
]

module _ (js : List Job) where
  Later : Outbox → Type 0
  Later o = Continues js o.jobs

  update-Later :
      (w : Job → Bool) (f : Job → Job)
      → ((j : Job) → j.created_at ≡ (f j).created_at)
      → Keeps Later (update w f)
  unfolding Later
  update-Later w f g = record {
    at = λ o h. Continues-trans js o.jobs _ h (update-Continues w f o g);
  }

  enqueue-Later :
      (lib : Platform) (fullmatch : String → String → Bool) (v : Value) (h : String) (now : ℕ)
      → Keeps Later (enqueue lib fullmatch v h now)
  unfolding enqueue Later
  enqueue-Later lib fullmatch v h now = record {
    at = λ o k. elim (Bool-cases (not (fullmatch "[a-f0-9]{64}" h))) [
      | inl bad ↦ rw bad k
      | inr good ↦ elim (Bool-cases (not (is_json v))) [
        | inl infinite ↦ rw (good, infinite) k
        | inr finite ↦
            elim (Bool-cases
              (any (has_id (job_id lib fullmatch h (lib.canonical_json v))) o.jobs)) [
                | inl there ↦ rw (good, finite, there) k
                | inr new ↦
                    rw (good, finite, new)
                      (Continues-trans js o.jobs _ k (Continues-append_one o.jobs _))
              ]
      ]
    ];
  }

  failed-Later :
      (i code : String) (retryable : Bool) (now : ℕ) → Keeps Later (failed i code retryable now)
  unfolding failed
  failed-Later i code retryable now = record {
    at = λ o k. elim (Option-cases (find_job i o.jobs)) [
      | inl e ↦ rw (e, failed) k
      | inr (row, e) ↦
          rw (e, failed)
            ((Keeps-bind (update (has_id i) _) (λ _. pure tt) (update-Later _ _ (λ j. refl))
                (λ _. Keeps-pure tt)).at
              o k)
    ];
  }

  -- `requeue` leaves the outbox as it was, or as its update left it.
  requeue_state :
      (i : String) (now : ℕ) (o : Outbox)
      → ((requeue i now o).1 ≡ o)
        ⊎ ((requeue i now o).1
            ≡ (update
                (λ j. has_id i j && is_in deadletter j)
                (λ j. record j {
                  state = elim j.event [ none ↦ pending | some e ↦ scored ];
                  next_attempt = 0;
                  error_code = none;
                  updated_at = now;
                })
                o).1)
  unfolding requeue
  requeue_state i now o = ground arith

  requeue-Later : (i : String) (now : ℕ) → Keeps Later (requeue i now)
  requeue-Later i now = record {
    at = λ o k. elim (requeue_state i now o) [
      | inl e ↦ rw e k
      | inr e ↦ rw e ((update-Later _ _ (λ j. refl)).at o k)
    ];
  }

  serve_one-Later :
      (lib : Platform) (fullmatch : String → String → Bool) (now : ℕ) (r : Request) (o : Outbox)
      → Later o
      → Later (serve_one lib fullmatch now r o)
  unfolding serve_one save_event mark_sent set_meta Later
  serve_one-Later lib fullmatch now (enqueue_job v h) o k =
      (enqueue-Later lib fullmatch v h now).at o k
  serve_one-Later lib fullmatch now (save_result i e) o k =
      (Keeps-then (lift _) _ (Keeps-lift _) (
          Keeps-bind (update _ _) (λ _. pure tt) (update-Later _ _ (λ j. refl))
            (λ _. Keeps-pure tt))).at
        o k
  serve_one-Later lib fullmatch now (job_sent i) o k =
      (Keeps-bind (update _ _) (λ _. pure tt) (update-Later _ _ (λ j. refl))
          (λ _. Keeps-pure tt)).at
        o k
  serve_one-Later lib fullmatch now (job_failed i code retryable) o k =
      (failed-Later i code retryable now).at o k
  serve_one-Later lib fullmatch now (requeue_job i) o k = (requeue-Later i now).at o k
  serve_one-Later lib fullmatch now (write_meta a b) o k = k

-- No call loses a job, changes what it is about, or changes a result once it is there: whatever calls are
-- made at whatever times, each job is still at its place with the same identifier, model, vector and
-- creation, and with the result that it had.
pub serve-Continues :
    (lib : Platform) (fullmatch : String → String → Bool) (rs : List (ℕ × Request)) (o : Outbox)
    → Continues o.jobs (serve lib fullmatch rs o).jobs
unfolding serve Later Continues
serve-Continues lib fullmatch [] o = Continues-refl o.jobs
serve-Continues lib fullmatch ((now, r) ∷ rs) o =
    Continues-trans _ _ _ (serve_one-Later o.jobs lib fullmatch now r o (Continues-refl o.jobs))
      (serve-Continues lib fullmatch rs _)
