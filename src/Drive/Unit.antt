-- ===== src/Drive/Unit.antt =====
-- The submission of the final candidate, the turns of the loop and the drive around them
-- (`_drive_unit` of tools/saipal_analyst/worker.py).
use saipal.Base.{
  ℕ, zero, suc, ◌+◌, Bool, true, false, not, ◌||◌, Option, none, some, [], ◌∷◌, ◌++◌, String, ◌<>◌,
  ◌==◌, string_eq, option_eq, ltb, if◌then◌else◌, PalError, candidate_out_of_scope,
  evidence_not_found,
}
use saipal.Base.Dict.{lookup, restrict}
use saipal.Jobs.Stage.{
  submitting, done, retry_wait, blocked, blocked_binding, stale, remote_outcome_unknown,
  Stage-discrete, stage_eq, stage_name,
}
use saipal.Jobs.Job.{Job, Payload, WorkUnit, new_job, due_at}
use saipal.Jobs.Resume.{
  Action, skip, ambiguous, call, validate, critic, finalize, submit, retry, wait, next_action,
  resume_stage,
}
use saipal.Jobs.Compaction.{compact_done_job}
use saipal.Worker.Failure.{
  note_done, note_blocked, note_blocked_binding, note_stale, note_retry_wait, backoff_delay,
}
use saipal.Drive.State.{
  Refusal, KernelAnswer, receipted, refused, Env, returned, M, ◌>>=◌, ◌>>◌, pure, end, the_job,
  edit, tally, persist, move, stage, give_up,
}
use saipal.Drive.Roles.{
  call_investigator, validate_response, the_candidate, unless, criticise, finalize_candidate,
}

abbrev pub is_scope : PalError → Bool
is_scope candidate_out_of_scope = true
is_scope evidence_not_found = true
is_scope _ = false

abbrev pub count_refusal : Job → Job
count_refusal j = record j { submit_attempts = j.submit_attempts + 1 }

abbrev pub due_later : Env → Job → Job
due_later env j = record j { next_retry_at = due_at (env.wall + backoff_delay j.submit_attempts) }

abbrev pub retry_later : Env → M (Unit {0})
retry_later env = do
  edit (due_later env)
  move env retry_wait
  persist
  end (returned note_retry_wait)

unfoldable pub wait_for_kernel : Env → Refusal → M (Unit {0})
wait_for_kernel env r = do
  tally (λ s. record s { kernel_refusals = s.kernel_refusals + 1 })
  edit count_refusal
  j ← the_job
  (if ltb env.max_retries j.submit_attempts
      then give_up (env.code_name r.code) r.message
      else retry_later env)

abbrev pub go_stale : String → M (Unit {0})
go_stale message = do
  tally (λ s. record s { stale_refusals = s.stale_refusals + 1 })
  edit (λ j. record j { stage = stale; error_class = some "STALE"; error_detail = some message })
  persist
  tally (λ s. record s { jobs_stale = s.jobs_stale + 1 })
  end (returned note_stale)

-- The receipt's provenance: an error is counted, and keeps the payloads.
abbrev pub write_provenance : Option Refusal → M Bool
write_provenance none = pure true
write_provenance (some r) = do
  tally (λ s. record s { errors = s.errors ++ (r.message ∷ []) })
  pure false

unfoldable pub close_done : Env → Payload → String → M (Unit {0})
close_done env c receipt_id = do
  edit (λ j. record j { receipt_id = some receipt_id })
  tally (λ s. record s { submit_successes = s.submit_successes + 1 })
  linked ← write_provenance env.provenance
  edit (λ j. record j { stage = done })
  persist
  unless (not linked) (do edit (compact_done_job env.now); persist)
  tally (λ s. record s {
    jobs_completed = s.jobs_completed + 1;
    receipts = s.receipts ++ ((receipt_id, lookup "verdict" c) ∷ []);
  })
  end (returned note_done)

abbrev pub take_answer : Env → Payload → KernelAnswer → M (Unit {0})
take_answer env c (receipted receipt_id) = close_done env c receipt_id
take_answer env c (refused r) =
    if is_scope r.code || env.mentions_stale r.message
    then go_stale r.message
    else wait_for_kernel env r

-- The candidate as the kernel gets it.
abbrev pub submission_of : Payload → Payload
submission_of c = restrict (λ key. not (key == "analyst_provenance")) c

abbrev pub seal : Env → Job → Job
seal env j = record j { candidate_digest = some (env.digest (env.dumps j.candidate)) }

abbrev pub call_kernel : Env → Payload → M (Unit {0})
call_kernel env c = do
  tally (λ s. record s { submit_attempts = s.submit_attempts + 1 })
  take_answer env c (env.kernel (submission_of c))

unfoldable pub submit_final : Env → M (Unit {0})
submit_final env = do
  stage env submitting (seal env)
  j ← the_job
  c ← the_candidate j.candidate
  call_kernel env c

abbrev pub from_finalize : Env → M (Unit {0})
from_finalize env = do finalize_candidate env; submit_final env

abbrev pub from_critic : Env → M (Unit {0})
from_critic env = do final ← criticise env; if final then submit_final env else from_finalize env

abbrev pub from_validate : Env → M (Unit {0})
from_validate env = do validate_response env; from_critic env

-- A paid attempt of unknown outcome is never replayed.
abbrev pub leave_unknown : M (Unit {0})
leave_unknown = do
  edit (λ j. record j {
    stage = remote_outcome_unknown;
    error_class = some "REMOTE_OUTCOME_UNKNOWN";
    error_detail =
        some
          "paid remote attempt has unknown outcome; operator review or an explicitly idempotent retry policy is required";
  })
  persist
  tally (λ s. record s { jobs_blocked = s.jobs_blocked + 1 })
  end (returned note_blocked)

unfoldable pub resume : Env → M (Unit {0})
unfolding Stage-discrete
resume env = do
  j ← the_job
  unless (resume_stage j == j.stage) (do move env (resume_stage j); persist)

-- One turn of the loop. It goes on only after a resumption.
unfoldable pub perform : Env → Action → M (Unit {0})
perform env skip = end (returned note_blocked)
perform env ambiguous = leave_unknown
perform env call = do call_investigator env; from_validate env
perform env validate = from_validate env
perform env critic = from_critic env
perform env finalize = from_finalize env
perform env submit = submit_final env
perform env retry = resume env
perform env wait =
    -- The stage is written before the text is made, so it is BLOCKED that the text names.
    give_up "VALIDATION_FAILED" ("no drivable action for stage '" <> (stage_name blocked <> "'"))

unfoldable pub drive_on : ℕ → Env → M (Unit {0})
drive_on zero env = pure tt
drive_on (suc turns) env = do j ← the_job; perform env (next_action env.wall j); drive_on turns env

unfoldable pub open_job : Env → WorkUnit → Option Job → M (Unit {0})
open_job env u (some j) = edit (λ _. j)
open_job env u none = do edit (λ _. new_job env.hashing env.now u); persist

abbrev pub cleared : Job → Job
cleared j = record j { error_class = none; error_detail = none }

-- A unit that waits for its protocol to be bound.
abbrev pub bind_or_leave : Env → Option String → M (Unit {0})
bind_or_leave env (some reason) = do
  edit (λ j. record j { error_detail = some reason })
  persist
  tally (λ s. record s { jobs_blocked_binding = s.jobs_blocked_binding + 1 })
  end (returned note_blocked_binding)
bind_or_leave env none = do edit cleared; j ← the_job; move env (resume_stage j); persist

unfoldable pub reactivate : Env → M (Unit {0})
unfolding Stage-discrete
reactivate env = do
  j ← the_job
  unless (not (j.stage == blocked_binding)) (bind_or_leave env env.unbound)

abbrev pub read_packet : Env → Option Refusal → M (Unit {0})
read_packet env none = pure tt
read_packet env (some r) = give_up (env.code_name r.code) r.message

-- The turns of the loop are an argument.
unfoldable pub drive_unit : ℕ → Env → WorkUnit → Option Job → M (Unit {0})
unfolding drive_on open_job reactivate
drive_unit turns env u found = do
  open_job env u found
  reactivate env
  read_packet env env.packet_refused
  drive_on turns env
