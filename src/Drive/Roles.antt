-- ===== src/Drive/Roles.antt =====
-- The answers of the three roles, from the call to the final candidate (`_drive_unit` of
-- tools/saipal_analyst/worker.py).
use saipal.Base.{
  Bool, true, false, not, ◌&&◌, ◌||◌, Option, none, some, String, ◌==◌, string_eq, option_eq,
  if◌then◌else◌,
}
use saipal.Base.Dict.{lookup}
use saipal.Jobs.Stage.{
  investigator_calling, investigator_response, candidate_ready, critic_calling, critic_ready,
  finalizer_calling, final_ready, Stage-discrete, stage_eq,
}
use saipal.Jobs.Job.{Job, Payload, has_text}
use saipal.Jobs.Resume.{Role, investigator, critic_role, finalizer}
use saipal.Drive.Critic.{needs_critic}
use saipal.Drive.State.{
  Env, crashed, M, ◌>>=◌, ◌>>◌, pure, end, the_job, edit, persist, move, stage, give_up,
}
use saipal.Drive.Steps.{
  Said, call_role, or_fail, validate_with_repair, checked, adopt, resolve, or_text, or_empty,
}

abbrev pub keep_response : Env → String → Job → Job
keep_response env text j = record j {
  response_text = some text;
  response_digest = some (env.digest text);
}

abbrev pub hear_investigator : Env → Said → M (Unit {0})
hear_investigator env answer = do
  text ← or_fail env answer
  stage env investigator_response (keep_response env text)
  edit resolve

unfoldable pub call_investigator : Env → M (Unit {0})
call_investigator env = do
  stage env investigator_calling (λ j. j)
  answer ← call_role env investigator (env.call investigator)
  hear_investigator env answer

-- The repaired response is the one that counts.
abbrev pub source_digest : Env → Job → Job
source_digest env j = record j {
  response_digest =
      if has_text j.investigator_repair_text
      then some (env.digest (or_empty j.investigator_repair_text))
      else j.response_digest;
}

unfoldable pub validate_response : Env → M (Unit {0})
validate_response env = do
  result ← validate_with_repair env investigator env.parse_candidate "investigator output"
  v ← checked env result
  edit (λ j. source_digest env (adopt env v j))
  move env candidate_ready
  persist

-- `job["candidate"]`, where the code reads its fields.
abbrev pub the_candidate : Option Payload → M Payload
the_candidate none = end crashed
the_candidate (some c) = pure c

abbrev pub unless : Bool → M (Unit {0}) → M (Unit {0})
unless true m = pure tt
unless false m = m

-- `persist_raw` of the two later roles.
abbrev pub keep_raw : Role → String → Job → Job
keep_raw investigator text j = record j { response_text = some text }
keep_raw critic_role text j = record j { critic_response_text = some text }
keep_raw finalizer text j = record j { finalizer_response_text = some text }

-- The call of a later role, and its raw answer made durable.
unfoldable pub call_late : Env → Role → M (Unit {0})
call_late env role = do
  answer ← call_role env role (env.call role)
  text ← or_fail env answer
  edit (keep_raw role text)
  persist
  edit resolve

abbrev pub keep_critic : Env → Payload → Job → Job
keep_critic env v j = record j {
  critic_payload = some v;
  critic_digest = some (env.digest (or_text j.critic_repair_text j.critic_response_text));
}

unfoldable pub with_critic : Env → M (Unit {0})
unfolding Stage-discrete
with_critic env = do
  j ← the_job
  unless (not (j.stage == candidate_ready)) (stage env critic_calling (λ k. k))
  unless (has_text j.critic_response_text) (call_late env critic_role)
  result ← validate_with_repair env critic_role env.parse_critic "critic output"
  v ← checked env result
  stage env critic_ready (keep_critic env v)

-- Is the candidate final as it stands?
unfoldable pub decide_critic : Env → Payload → M Bool
decide_critic env c =
    if needs_critic env.policy env.packet (lookup "verdict" c)
    then (do with_critic env; pure false)
    else (do move env final_ready; persist; pure true)

unfoldable pub criticise : Env → M Bool
criticise env = do j ← the_job; c ← the_candidate j.candidate; decide_critic env c

abbrev pub keep_finalizer : Env → Job → Job
keep_finalizer env j = record j {
  finalizer_digest = some (env.digest (or_text j.finalizer_repair_text j.finalizer_response_text));
}

unfoldable pub with_finalizer : Env → M (Unit {0})
unfolding Stage-discrete
with_finalizer env = do
  j ← the_job
  unless (not (j.stage == critic_ready)) (stage env finalizer_calling (λ k. k))
  unless (has_text j.finalizer_response_text) (call_late env finalizer)
  result ← validate_with_repair env finalizer env.parse_candidate "finalizer output"
  v ← checked env result
  edit (adopt env v)
  stage env final_ready (keep_finalizer env)

abbrev pub candidate_verdict : Option Payload → Option String
candidate_verdict none = none
candidate_verdict (some c) = lookup "verdict" c

-- A critic that disagrees, or that does not agree to a drift.
unfoldable pub is_disputed : Option String → Option String → Bool
is_disputed verdict decision =
    decision == some "DISAGREE" || (verdict == some "DRIFT" && not (decision == some "AGREE"))

abbrev pub settle_critic : Env → Option Payload → Option Payload → M (Unit {0})
settle_critic env candidate none =
    give_up "VALIDATION_FAILED" "finalize without a persisted critic payload"
settle_critic env candidate (some verdict) =
    if is_disputed (candidate_verdict candidate) (lookup "decision" verdict)
    then (if not env.policy.finalizer_on_disagreement
        then give_up "BLOCKED_OUTPUT" "critic disagreement with finalizer disabled"
        else with_finalizer env)
    else stage env final_ready (λ j. j)

unfoldable pub finalize_candidate : Env → M (Unit {0})
finalize_candidate env = do j ← the_job; settle_critic env j.candidate j.critic_payload
