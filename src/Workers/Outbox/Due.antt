-- ===== src/Workers/Outbox/Due.antt =====
-- Which jobs the outbox hands out.
use enterprise_netsec_iac.Common.{
  ℕ, ◌≡◌, refl, min, suc, zero, List, [], ◌∷◌, true, arith, filter, length, All, inl, inr, Bool,
  Bool-cases, All-map, Some, ◌⊎◌, ◌≤◌, ◌<◌, ap, ◌∙◌,
}
use enterprise_netsec_iac.Workers.Outbox.{
  Job, JobState, pending, scored, sent, deadletter, Outbox, insert_job, sort_jobs, take, is_due,
  due, comes_first,
}

length-take : (n : ℕ) (js : List Job) → length (take n js) ≡ min n (length js)
length-take zero js = omega arith
length-take (suc n) [] = omega arith
length-take (suc n) (j ∷ js) = omega (arith, length-take n js)

All-insert_job :
    (P : Job → Type 0) (j : Job) (js : List Job) → P j → All P js → All P (insert_job j js)
unfolding insert_job
All-insert_job P j [] h hs = (h, tt)
All-insert_job P j (k ∷ ks) h (g, gs) = elim (Bool-cases (comes_first j k)) [
  | inl e ↦ rw e (h, (g, gs))
  | inr e ↦ rw e (g, All-insert_job P j ks h gs)
]

All-sort_jobs : (P : Job → Type 0) (js : List Job) → All P js → All P (sort_jobs js)
unfolding sort_jobs
All-sort_jobs P [] h = tt
All-sort_jobs P (j ∷ js) (h, hs) = All-insert_job P j _ h (All-sort_jobs P js hs)

All-take : (P : Job → Type 0) (n : ℕ) (js : List Job) → All P js → All P (take n js)
All-take P zero js h = tt
All-take P (suc n) [] h = tt
All-take P (suc n) (j ∷ js) (h, hs) = (h, All-take P n js hs)

All-filter : (p : Job → Bool) (js : List Job) → All (λ j. p j ≡ true) (filter p js)
All-filter p [] = tt
All-filter p (j ∷ js) = elim (Bool-cases (p j)) [
  | inl e ↦ rw e (e, All-filter p js)
  | inr e ↦ rw e (All-filter p js)
]

-- A job that is waiting for its score or its delivery, and whose next attempt is not in the future.
abbrev pub IsDue : ℕ → Job → Type 0
IsDue now j = ((j.state ≡ pending) ⊎ (j.state ≡ scored)) × (j.next_attempt ≤ now)

abbrev pub IsIn : Job → List Job → Type 0
IsIn j = Some (λ k. k ≡ j)

is_due-IsDue : (now : ℕ) (j : Job) → is_due now j ≡ true → IsDue now j
is_due-IsDue now j h = in_state j.state h
  where
    in_state :
        (s : JobState)
        → is_due now (record j { state = s }) ≡ true
        → IsDue now (record j { state = s })
    in_state pending h = (inl refl, ground arith)
    in_state scored h = (inr refl, ground arith)
    in_state sent h = cc
    in_state deadletter h = cc

IsDue-is_due : (now : ℕ) (j : Job) → IsDue now j → is_due now j ≡ true
IsDue-is_due now j (inl waiting, past) = ground (arith, waiting, past)
IsDue-is_due now j (inr waiting, past) = ground (arith, waiting, past)

IsIn-filter :
    (p : Job → Bool) (j : Job) (js : List Job) → IsIn j js → p j ≡ true → IsIn j (filter p js)
IsIn-filter p j [] h e = elim h [ ]
IsIn-filter p j (k ∷ ks) (inl same) e = let kept : p k ≡ true = ap p same ∙ e in rw kept (inl same)
IsIn-filter p j (k ∷ ks) (inr later) e = elim (Bool-cases (p k)) [
  | inl kept ↦ rw kept (inr (IsIn-filter p j ks later e))
  | inr dropped ↦ rw dropped (IsIn-filter p j ks later e)
]

IsIn-insert_job : (j k : Job) (ks : List Job) → IsIn j (k ∷ ks) → IsIn j (insert_job k ks)
unfolding insert_job
IsIn-insert_job j k [] h = h
IsIn-insert_job j k (l ∷ ls) h = elim (Bool-cases (comes_first k l)) [
  | inl first ↦ rw first h
  | inr after ↦ rw after (moved (IsIn-insert_job j k ls) h)
]
  where
    moved :
        (IsIn j (k ∷ ls) → IsIn j (insert_job k ls))
        → IsIn j (k ∷ l ∷ ls)
        → IsIn j (l ∷ insert_job k ls)
    moved ih (inl same) = inr (ih (inl same))
    moved ih (inr (inl same)) = inl same
    moved ih (inr (inr later)) = inr (ih (inr later))

IsIn-sort_jobs : (j : Job) (js : List Job) → IsIn j js → IsIn j (sort_jobs js)
unfolding sort_jobs
IsIn-sort_jobs j [] h = h
IsIn-sort_jobs j (k ∷ ks) (inl same) = IsIn-insert_job j k (sort_jobs ks) (inl same)
IsIn-sort_jobs j (k ∷ ks) (inr later) =
    IsIn-insert_job j k (sort_jobs ks) (inr (IsIn-sort_jobs j ks later))

none_below : 0 < 0 → ⊥
none_below h = omega (arith, h)

take_all : (n : ℕ) (js : List Job) → length (take n js) < n → take n js ≡ js
take_all zero js h = elim (none_below h) [ ]
take_all (suc n) [] h = refl
take_all (suc n) (j ∷ js) h = ap (λ ks. j ∷ ks) (take_all n js (omega (arith, h)))

-- The outbox hands out at most as many jobs as the limit, each of them is pending or scored and its next
-- attempt is not in the future, and if they are fewer than the limit, all jobs like that are among them.
pub due_lem :
    (limit now : ℕ) (o : Outbox)
    → (length (due limit now o) ≤ limit)
      × All (IsDue now) (due limit now o)
      × (length (due limit now o) < limit
          → (j : Job) → IsIn j o.jobs
          → IsDue now j
          → IsIn j (due limit now o))
unfolding due
due_lem limit now o = (
  omega (arith, length-take limit (sort_jobs (filter (is_due now) o.jobs))),
  All-map _ (is_due-IsDue now)
      (All-take _ limit _ (All-sort_jobs _ _ (All-filter (is_due now) o.jobs))),
  λ few j there waits. rw (take_all limit (sort_jobs (filter (is_due now) o.jobs)) few) (
      IsIn-sort_jobs j (filter (is_due now) o.jobs)
        (IsIn-filter (is_due now) j o.jobs there (IsDue-is_due now j waits))),
)
