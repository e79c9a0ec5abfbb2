-- ===== src/Drive/Answered.antt =====
-- What the call of a role and the validation of its answer leave of the job
-- (`call_role`, `validate_with_repair` and `_transport_failure` of tools/saipal_analyst/worker.py).
use saipal.Base.{
  ℕ, ◌+◌, ◌≡◌, refl, sym, ap, inl, inr, none, String, leb, Result, ok, err, ◌>>=◌, Bool-cases, ltb,
}
use mathlib.Core.Path.{subst}
use saipal.Jobs.Stage.{Stage, ready, blocked, retry_wait, stage_eq}
use saipal.Jobs.Job.{unset, Job, has_text}
use saipal.Jobs.Advance.{advance, advance_inv}
use saipal.Jobs.Resume.{Role, investigator, critic_role, finalizer, role_response}
use saipal.Budgets.Ledger.{BackendClass, auth, retryable, permanent, over_limit}
use saipal.Worker.Call.{World, CallResult, stopped, answered, backend_failed, Stop, guarded_call}
use saipal.Worker.Failure.{
  Note, note_blocked, note_retry_wait, MayFail, transport_failure, transport_failure_lem,
}
use saipal.Drive.State.{
  Parsed, accepted, rejected, Env, Drive, Ending, over_budget, returned, job_of,
}
use saipal.Drive.Steps.{
  Said, said, failing, heard, call_role, or_empty, repair_text, repairs_of, keep_repair, Validation,
  valid, unheard, invalid, judge_repaired, judge_repair, ask_repair, after_rejection, judge_first,
  validate_with_repair, max_repairs, fail_over,
}
use saipal.Drive.Rules.{Holds, after-Holds}
use saipal.Drive.Frame.{strip, guarded_call-IsFramed}

-- The job without what a call notes in it and without its repairs.
abbrev pub soft : Job → Job
soft j = record (strip j) {
  investigator_repairs = 0;
  critic_repairs = 0;
  finalizer_repairs = 0;
  investigator_repair_text = none;
  critic_repair_text = none;
  finalizer_repair_text = none;
}

keep_repair-soft : (role : Role) (text : String) (j : Job) → soft (keep_repair role text j) ≡ soft j
keep_repair-soft investigator text j = refl
keep_repair-soft critic_role text j = refl
keep_repair-soft finalizer text j = refl

-- What a validated object is: the parser's answer to some text.
abbrev pub Judged : (String → Parsed) → Validation → Type 0
Judged parse (valid v) = (text : String) × (parse text ≡ accepted v)
Judged parse (unheard k) = Unit
Judged parse (invalid why) = Unit

module _ (env : Env) (P : Job → Type 0) (E : Ending → Drive → Type 0)
    (stops : (s : Stop) (d : Drive) → P (soft (job_of d)) → E (over_budget s) d) where
  abbrev Kept : Drive → Type 0
  Kept d = P (soft (job_of d))

  heard-Holds : (r : CallResult) (d : Drive) → Kept d → Holds (λ _ d1. Kept d1) E (heard r d)
  heard-Holds (stopped s) d h = stops s d h
  heard-Holds (answered text) d h = h
  heard-Holds (backend_failed k) d h = h

  pub call_role-Holds :
      (role : Role) (w : World) (d : Drive)
      → Kept d
      → Holds (λ _ d1. Kept d1) E (call_role env role w d)
  unfolding call_role
  call_role-Holds role w d h =
      heard-Holds (guarded_call env.hashing env.budget role w d.run).result _
        (subst P (sym (ap soft (guarded_call-IsFramed env.hashing env.budget role w d.run).kept)) h)

  module _ (parse : String → Parsed) where
    abbrev Q : Validation → Drive → Type 0
    Q result d = Judged parse result × Kept d

    judge_repaired-Holds :
        (note text : String) (o : Parsed) (d : Drive)
        → parse text ≡ o
        → Kept d
        → Holds Q E (judge_repaired note o d)
    judge_repaired-Holds note text (accepted v) d e h = ((text, e), h)
    judge_repaired-Holds note text (rejected why) d e h = (tt, h)

    judge_repair-Holds :
        (role : Role) (note : String) (answer : Said) (d : Drive)
        → Kept d
        → Holds Q E (judge_repair role parse note answer d)
    judge_repair-Holds role note (failing k) d h = (tt, h)
    judge_repair-Holds role note (said text) d h =
        judge_repaired-Holds _ text (parse text) _ refl
          (subst P (sym (keep_repair-soft role text (job_of d))) h)

    ask_repair-Holds :
        (role : Role) (note : String) (d : Drive)
        → Kept d
        → Holds Q E (ask_repair env role parse note d)
    unfolding ask_repair
    ask_repair-Holds role note d h =
        after-Holds (λ _ d1. Kept d1) Q E (call_role env role (env.repair role) (counted d))
          (judge_repair role parse note) (call_role-Holds role (env.repair role) (counted d) h)
          (judge_repair-Holds role note)
      where
        counted : Drive → Drive
        counted d1 = record d1 {
          summary = record d1.summary { repair_calls = d1.summary.repair_calls + 1 };
        }

    after_rejection-Holds :
        (role : Role) (note first : String) (d : Drive)
        → Kept d
        → Holds Q E (after_rejection env role parse note first d)
    unfolding after_rejection
    after_rejection-Holds role note first d h =
        elim (Bool-cases (has_text (repair_text role (job_of d)))) [
          | inl stored ↦
              rw stored (judge_repaired-Holds _ (or_empty (repair_text role (job_of d))) _ d refl h)
          | inr missing ↦ elim (Bool-cases (leb max_repairs (repairs_of role (job_of d)))) [
            | inl spent ↦ rw (missing, spent) (tt, h)
            | inr left ↦ rw (missing, left) (ask_repair-Holds role note d h)
          ]
        ]

    judge_first-Holds :
        (role : Role) (note text : String) (o : Parsed) (d : Drive)
        → parse text ≡ o
        → Kept d
        → Holds Q E (judge_first env role parse note o d)
    judge_first-Holds role note text (accepted v) d e h = ((text, e), h)
    judge_first-Holds role note text (rejected first) d e h =
        after_rejection-Holds role note first d h

    pub validate_with_repair-Holds :
        (role : Role) (note : String) (d : Drive)
        → Kept d
        → Holds
            (λ result d1. Judged parse result × P (soft (job_of d1)))
            E
            (validate_with_repair env role parse note d)
    unfolding validate_with_repair
    validate_with_repair-Holds role note d h =
        judge_first-Holds role note (or_empty (role_response role (job_of d))) _ d refl h

-- The job without what a failure or a move writes in it.
abbrev pub core : Job → Job
core j = record j {
  stage = ready;
  updated_at = "";
  transport_attempts = 0;
  next_retry_at = unset;
  error_class = none;
  error_detail = none;
}

pub advance-core :
    (now : String) (j : Job) (to : Stage) {k : Job} → advance now j to ≡ ok k → core k ≡ core j
advance-core now j to e = elim (advance_inv now j to e) [
  | inl (same, stays) ↦ ap core stays
  | inr (legal, stepped) ↦ ap core stepped
]

-- The job that a failure leaves, if it leaves one, has this core.
abbrev CoreOf : Result (Note × Job) → Job → Type 0
CoreOf (err code) c = Unit
CoreOf (ok (note, j)) c = core j ≡ c

waiting-core :
    (r : Result Job) (c : Job)
    → ((j : Job) → r ≡ ok j → core j ≡ c)
    → CoreOf (r >>= λ waiting. ok (note_retry_wait, waiting)) c
waiting-core (err code) c k = tt
waiting-core (ok j) c k = k j refl

failure-core :
    (max_retries wall : ℕ) (clock detail : String) (k : BackendClass) (j : Job)
    → CoreOf (transport_failure max_retries wall clock k detail j) (core j)
unfolding transport_failure
failure-core max_retries wall clock detail auth j = refl
failure-core max_retries wall clock detail permanent j = refl
failure-core max_retries wall clock detail over_limit j = refl
failure-core max_retries wall clock detail retryable j =
    elim (Bool-cases (ltb max_retries (j.transport_attempts + 1))) [
      | inl spent ↦ rw spent refl
      | inr left ↦ rw left (waiting-core _ (core j) (λ k e. advance-core clock _ retry_wait e))
    ]

transport_failure-core :
    (max_retries wall : ℕ) (clock detail : String) (k : BackendClass) (j : Job) {note : Note}
    {after : Job}
    → transport_failure max_retries wall clock k detail j ≡ ok (note, after)
    → core after ≡ core j
transport_failure-core max_retries wall clock detail k j e =
    subst (λ r. CoreOf r (core j)) e (failure-core max_retries wall clock detail k j)

-- A failure of the backend at a stage that may fail ends the drive with a blocked or a waiting job.
pub fail_over-Holds :
    {A : Type 0} (env : Env) (R : A → Drive → Type 0) (E : Ending → Drive → Type 0)
    (k : BackendClass) (d : Drive)
    → MayFail (job_of d).stage
    → ((d1 : Drive)
        → (job_of d1).stage ≡ blocked
        → core (job_of d1) ≡ core (job_of d)
        → d1.run.model_calls ≡ d.run.model_calls
        → E (returned note_blocked) d1)
    → ((d1 : Drive)
        → (job_of d1).stage ≡ retry_wait
        → core (job_of d1) ≡ core (job_of d)
        → d1.run.model_calls ≡ d.run.model_calls
        → E (returned note_retry_wait) d1)
    → Holds R E (fail_over env k d)
unfolding fail_over
fail_over-Holds env R E k d may blocks waits =
    let (after_, ends) =
      transport_failure_lem env.max_retries env.wall env.now (env.failure_text k) k (job_of d)
        may in
    elim ends [
      | inl (e, _, w) ↦ rw e (waits _ w.waits (transport_failure-core _ _ _ _ _ (job_of d) e) refl)
      | inr (e, b, _) ↦ rw e (blocks _ b (transport_failure-core _ _ _ _ _ (job_of d) e) refl)
    ]
