-- ===== src/Jobs/Resume.antt =====
-- What a restarted worker does with a job, read from what the journal holds
-- (`resume_stage`, `next_action`, `_retry_due`, `next_attempt_id`, `mark_ambiguous_attempt` of
-- tools/saipal_analyst/jobs.py).
use saipal.Base.{
  ℕ, ◌+◌, Bool, true, false, Option, some, List, [], ◌∷◌, ◌++◌, String, ◌<>◌, ◌==◌, string_eq,
  if◌then◌else◌, leb, ◌||◌, ◌&&◌, not,
}
use saipal.Base.Dict.{lookup, insert}
use saipal.Jobs.Stage.{
  Stage, ready, investigator_calling, investigator_response, candidate_ready, critic_calling,
  critic_ready, finalizer_calling, final_ready, submitting, done, retry_wait, blocked,
  blocked_binding, stale, remote_outcome_unknown, Stage-discrete, stage_eq,
}
use saipal.Jobs.Job.{Job, RetryTime, unset, due_at, unreadable, has_text, has_payload, Hashing}

pub data Action : Type 0 where
  skip ambiguous call validate critic finalize submit retry wait : Action

unfoldable pub resume_stage : Job → Stage
unfolding Stage-discrete
resume_stage job =
    if has_payload job.candidate
    then (if has_text job.finalizer_digest
        then final_ready
        else if has_payload job.critic_payload
        then critic_ready
        else candidate_ready)
    else if has_text job.response_text
    then investigator_response
    else if job.stage == remote_outcome_unknown
    then remote_outcome_unknown
    else ready

-- The paid attempt that the journal names for a role, if its text is not empty.
abbrev pub has_attempt : String → Job → Bool
has_attempt role job = has_text (lookup role job.attempt_ids)

unfoldable pub retry_due : ℕ → RetryTime → Bool
retry_due now unset = true
retry_due now (due_at t) = leb t now
retry_due now unreadable = true

-- `next_action` by the stage; `now` is the wall time.
unfoldable pub action_at : ℕ → Job → Stage → Action
unfolding retry_due
action_at now job done = skip
action_at now job blocked = skip
action_at now job blocked_binding = skip
action_at now job stale = skip
action_at now job remote_outcome_unknown = ambiguous
action_at now job ready = call
action_at now job investigator_calling =
    if not (has_text job.response_text)
    then (if has_attempt "investigator" job then ambiguous else call)
    else validate
action_at now job investigator_response = validate
action_at now job candidate_ready = critic
action_at now job critic_calling =
    if not (has_text job.critic_response_text) && has_attempt "critic" job
    then ambiguous
    else critic
action_at now job critic_ready = finalize
action_at now job finalizer_calling =
    if not (has_text job.finalizer_response_text) && has_attempt "finalizer" job
    then ambiguous
    else finalize
action_at now job final_ready = submit
action_at now job submitting = submit
action_at now job retry_wait = if retry_due now job.next_retry_at then retry else wait

unfoldable pub next_action : ℕ → Job → Action
unfolding action_at
next_action now job = action_at now job job.stage

module _ (h : Hashing) where
  -- The identity of the next paid attempt, and the job that records it.
  unfoldable pub next_attempt_id : Job → String → String → String × Job
  next_attempt_id job role payload_digest =
      let attempt_id : String = h.sha256_32 (
        job.job_id
        <> "|"
        <> role
        <> "|"
        <> h.decimal (job.transport_attempts + 1)
        <> "|"
        <> payload_digest) in
      (attempt_id, record job { attempt_ids = insert role attempt_id job.attempt_ids })

-- `pair not in job["ambiguous_attempt_ids"]`
abbrev pub listed : String × String → List (String × String) → Bool
listed (r, a) [] = false
listed (r, a) ((r', a') ∷ rest) = (r == r' && a == a') || listed (r, a) rest

unfoldable pub mark_ambiguous_attempt : Job → String → String → Job
mark_ambiguous_attempt job role attempt_id = record job {
  ambiguous_attempt_ids =
      if listed (role, attempt_id) job.ambiguous_attempt_ids
      then job.ambiguous_attempt_ids
      else job.ambiguous_attempt_ids ++ ((role, attempt_id) ∷ []);
  error_class = some "REMOTE_OUTCOME_POSSIBLE";
  error_detail = some (
      "a paid " <> role
      <> " attempt may have reached the provider before the process died; outcome unknown");
}

-- The three roles that a worker calls a model in.
pub data Role : Type 0 where
  investigator critic_role finalizer : Role

abbrev pub role_name : Role → String
role_name investigator = "investigator"
role_name critic_role = "critic"
role_name finalizer = "finalizer"

abbrev pub calling_stage : Role → Stage
calling_stage investigator = investigator_calling
calling_stage critic_role = critic_calling
calling_stage finalizer = finalizer_calling

-- The field that holds the role's raw answer.
abbrev pub role_response : Role → Job → Option String
role_response investigator job = job.response_text
role_response critic_role job = job.critic_response_text
role_response finalizer job = job.finalizer_response_text
