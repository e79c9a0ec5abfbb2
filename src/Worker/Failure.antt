-- ===== src/Worker/Failure.antt =====
-- What a transport failure does to its job (`_backoff_delay`, `_transport_failure`, `_retry_at` of
-- tools/saipal_analyst/worker.py).
use saipal.Base.{
  ℕ, ◌+◌, ◌-◌, ◌*◌, ◌^◌, ◌≤◌, ◌<◌, ◌≡◌, refl, ◌⊎◌, inl, inr, Bool, true, false, not, some, String,
  ◌<>◌, zero, suc, ltb, ltb→lt, Bool-cases, ◌==◌, if◌then◌else◌, Result, ok, ◌>>=◌, arith, min,
}
use saipal.Jobs.Stage.{
  Stage, investigator_calling, investigator_response, critic_calling, finalizer_calling, retry_wait,
  blocked, Stage-discrete, stage_eq, may_go,
}
use saipal.Jobs.Job.{Job, due_at}
use saipal.Jobs.Advance.{advance}
use saipal.Jobs.Resume.{next_action, wait, retry}
use saipal.Budgets.Ledger.{BackendClass, auth, retryable, permanent, over_limit, second}

abbrev pub backoff_cap : ℕ
backoff_cap = 30 * second

unfoldable pub backoff_delay : ℕ → ℕ
backoff_delay attempts = min (second * 2 ^ (attempts - 1)) backoff_cap

abbrev pub class_name : BackendClass → String
class_name auth = "AUTH"
class_name retryable = "RETRYABLE"
class_name permanent = "PERMANENT"
class_name over_limit = "LIMIT"

abbrev pub is_retryable : BackendClass → Bool
is_retryable retryable = true
is_retryable _ = false

-- The note that the unit ends with in this run.
pub data Note : Type 0 where
  note_done note_blocked note_blocked_binding note_stale note_retry_wait : Note

abbrev pub block : Job → String → String → Job
block job error_class detail = record job {
  stage = blocked;
  error_class = some error_class;
  error_detail = some detail;
}

unfoldable pub transport_failure :
    ℕ → ℕ → String → BackendClass → String → Job → Result (Note × Job)
unfolding backoff_delay advance
transport_failure max_retries wall clock k detail job =
    if not (is_retryable k)
    then ok (note_blocked, block job ("BACKEND_" <> class_name k) detail)
    else let counted : Job = record job { transport_attempts = job.transport_attempts + 1 } in
      if ltb max_retries counted.transport_attempts
      then ok (note_blocked, block counted "BACKEND_RETRYABLE_EXHAUSTED" detail)
      else advance clock
          (record counted {
            next_retry_at = due_at (wall + backoff_delay counted.transport_attempts);
            error_class = some "BACKEND_RETRYABLE";
            error_detail = some detail;
          })
          retry_wait
        >>= λ waiting. ok (note_retry_wait, waiting)

-- A retry is due after one second at least and after the cap at most.
pub record IsWaiting (wall max_retries : ℕ) (before after : Job) : Type 0 where
  pub waits : after.stage ≡ retry_wait
  pub paid : after.transport_attempts ≡ before.transport_attempts + 1
  pub allowed : after.transport_attempts ≤ max_retries
  pub early : (now : ℕ) → now < wall + second → next_action now after ≡ wait
  pub late : (now : ℕ) → wall + backoff_cap ≤ now → next_action now after ≡ retry

abbrev pub MayFail : Stage → Type 0
MayFail s =
    (s ≡ investigator_calling)
    ⊎ ((s ≡ investigator_response) ⊎ ((s ≡ critic_calling) ⊎ (s ≡ finalizer_calling)))

two_pow_pos : (n : ℕ) → 1 ≤ 2 ^ n
two_pow_pos zero = omega arith
two_pow_pos (suc n) = omega (arith, two_pow_pos n)

backoff_range : (n : ℕ) → (second ≤ backoff_delay n) × (backoff_delay n ≤ backoff_cap)
unfolding backoff_delay
backoff_range n = (omega (arith, two_pow_pos (n - 1)), omega arith)

may_wait : (s : Stage) → MayFail s → (may_go s retry_wait ≡ true) × ((s == retry_wait) ≡ false)
unfolding may_go Stage-discrete
may_wait s (inl e) = rw e (refl, refl)
may_wait s (inr (inl e)) = rw e (refl, refl)
may_wait s (inr (inr (inl e))) = rw e (refl, refl)
may_wait s (inr (inr (inr e))) = rw e (refl, refl)

-- The job that waits for its retry.
abbrev waiting_job : ℕ → String → String → Job → Job
waiting_job wall clock detail job = record job {
  stage = retry_wait;
  updated_at = clock;
  transport_attempts = job.transport_attempts + 1;
  next_retry_at = due_at (wall + backoff_delay (job.transport_attempts + 1));
  error_class = some "BACKEND_RETRYABLE";
  error_detail = some detail;
}

waiting_job-IsWaiting :
    (max_retries wall : ℕ) (clock detail : String) (job : Job)
    → job.transport_attempts + 1 ≤ max_retries
    → IsWaiting wall max_retries job (waiting_job wall clock detail job)
unfolding next_action
waiting_job-IsWaiting max_retries wall clock detail job le =
    let (least, most) = backoff_range (job.transport_attempts + 1) in
    record {
      waits = refl;
      paid = refl;
      allowed = le;
      early = λ now h. ground (arith, least);
      late = λ now h. ground (arith, most);
    }

transport_failure-retry :
    (max_retries wall : ℕ) (clock detail : String) (job : Job)
    → MayFail job.stage
    → job.transport_attempts + 1 ≤ max_retries
    → transport_failure max_retries wall clock retryable detail job
      ≡ ok (note_retry_wait, waiting_job wall clock detail job)
unfolding transport_failure
transport_failure-retry max_retries wall clock detail job s le =
    let (legal, other) = may_wait job.stage s in
    rw (within max_retries (job.transport_attempts + 1) le, other, legal) refl
  where
    within : (m n : ℕ) → n ≤ m → ltb m n ≡ false
    within m n h = ground arith

-- A transport failure of any class, at a stage in which the worker calls or repairs, never breaks
-- the table of moves. The job waits for a retry exactly if the class is retryable and the retries
-- of the job are not spent: not due in the first second, due after the cap. Otherwise it is
-- blocked, whatever the class.
pub transport_failure_lem :
    (max_retries wall : ℕ) (clock detail : String) (k : BackendClass) (job : Job)
    → MayFail job.stage
    → (after : Job) × (((transport_failure max_retries wall clock k detail job
            ≡ ok (note_retry_wait, after))
          × (k ≡ retryable)
          × IsWaiting wall max_retries job after)
        ⊎ ((transport_failure max_retries wall clock k detail job ≡ ok (note_blocked, after))
            × (after.stage ≡ blocked)
            × ((is_retryable k ≡ false) ⊎ (max_retries < job.transport_attempts + 1))))
unfolding transport_failure
transport_failure_lem max_retries wall clock detail auth job s = (_, inr (refl, refl, inl refl))
transport_failure_lem max_retries wall clock detail permanent job s =
    (_, inr (refl, refl, inl refl))
transport_failure_lem max_retries wall clock detail over_limit job s =
    (_, inr (refl, refl, inl refl))
transport_failure_lem max_retries wall clock detail retryable job s =
    elim (Bool-cases (ltb max_retries (job.transport_attempts + 1))) [
      | inl spent ↦ (
        block (record job { transport_attempts = job.transport_attempts + 1 })
            "BACKEND_RETRYABLE_EXHAUSTED" detail,
        inr (rw spent refl, refl, inr (ltb→lt max_retries (job.transport_attempts + 1) spent)),
      )
      | inr left ↦ (
        waiting_job wall clock detail job,
        inl (
          transport_failure-retry max_retries wall clock detail job s (room left),
          refl,
          waiting_job-IsWaiting max_retries wall clock detail job (room left),
        ),
      )
    ]
  where
    room :
        ltb max_retries (job.transport_attempts + 1) ≡ false
        → job.transport_attempts + 1 ≤ max_retries
    room e = not_lt max_retries (job.transport_attempts + 1) e
      where
        not_lt : (m n : ℕ) → ltb m n ≡ false → n ≤ m
        not_lt m n f = ground arith
