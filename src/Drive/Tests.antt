-- ===== src/Drive/Tests.antt =====
-- Runs of a drive and its theorems at concrete units.
use saipal.Base.{
  ℕ, ◌*◌, ◌≡◌, refl, Bool, true, false, Option, none, some, List, [], ◌∷◌, String, string_eq, ◌==◌,
  arith, sym, ap, if◌then◌else◌, validation_failed, session_conflict, text_take,
}
use saipal.Jobs.Stage.{
  Stage, final_ready, critic_ready, investigator_calling, done, submitting, critic_calling,
  candidate_ready, investigator_response, Stage-discrete, transitions, may_go,
}
use saipal.Jobs.Job.{Job, Payload, has_text, has_payload, WorkUnit, Hashing, new_job}
use saipal.Jobs.Advance.{advance}
use saipal.Jobs.Resume.{
  Role, next_action, next_attempt_id, mark_ambiguous_attempt, action_at, resume_stage,
}
use saipal.Jobs.Compaction.{compact_done_job, is_bare}
use saipal.Budgets.Ledger.{fresh_ledger, second, hour}
use saipal.Budgets.Windows.{budget_allows, record_consumption}
use saipal.Budgets.Circuit.{
  circuit_probe_allowed, circuit_allows, record_backend_success, record_backend_failure,
}
use saipal.Worker.Call.{
  World, Reply, replied, failed, guarded_call, past_gate, transport, settle, move_circuit,
}
use saipal.Worker.Failure.{note_done, transport_failure, backoff_delay}
use saipal.Drive.Critic.{Policy, needs_critic, high_signal, sampled, hex_value}
use saipal.Drive.State.{
  Parsed, accepted, rejected, Refusal, receipted, refused, Env, Summary, Drive, Ending, returned,
  raised, Progress, going, ended,
}
use saipal.Drive.Steps.{call_role, validate_with_repair, after_rejection, ask_repair, fail_over}
use saipal.Drive.Rules.{Ends}
use saipal.Drive.Owed.{owed}
use saipal.Drive.Bounded.{IsPaid, drive_unit-IsPaid}
use saipal.Drive.Settled.{drive_unit-Ends}
use saipal.Drive.Sound.{IsDrivable, candidate_of, IsSound, drive_unit-IsSound}
use saipal.Drive.Refused.{held, IsLost, refusal_is_forgotten}
use saipal.Drive.Roles.{
  call_investigator, validate_response, criticise, decide_critic, with_critic, call_late,
  with_finalizer, finalize_candidate, is_disputed,
}
use saipal.Drive.Unit.{
  submit_final, seal, close_done, wait_for_kernel, perform, drive_on, open_job, reactivate,
  drive_unit, resume,
}

-- A stand-in for SHA-256 and the decimal text.
abbrev tag : Hashing
tag = record { decimal = λ n. "1"; sha256_32 = λ s. "c0ffee" }

abbrev world : String → World
world text = record {
  elapsed = 10 * second;
  now = 72000 * second;
  config_digest = "cfg";
  user_digest = "u";
  reply = replied text 100 20;
  can_mark = true;
  can_move_circuit = true;
  can_charge = true;
}

abbrev drift : Payload
drift = ("verdict", "DRIFT") ∷ ("analyst_provenance", "m") ∷ []

abbrev agreement : Payload
agreement = ("decision", "AGREE") ∷ []

abbrev strict : Policy
strict = record {
  critic_on_drift = true;
  critic_on_high_signal_no_drift = false;
  clean_sample_percent = 0;
  finalizer_on_disagreement = true;
}

abbrev answers : Role → World
answers role = world "good"

abbrev env : Env
env = record {
  hashing = tag;
  now = "t1";
  wall = 72000 * second;
  budget = record {
    max_calls = 9;
    max_wall = 600 * second;
    hourly = record { max_model_attempts_per_hour = none; max_semantic_units_per_hour = none };
  };
  max_retries = 3;
  policy = strict;
  packet = record { unit_digest = "0badcafe"; signals = [] };
  packet_refused = none;
  unbound = none;
  call = answers;
  repair = answers;
  failure_text = λ k. "failed";
  parse_candidate = λ text. if text == "good" then accepted drift else rejected "no JSON";
  parse_critic = λ text. if text == "good" then accepted agreement else rejected "no JSON";
  digest = λ text. "5ca1ab1e";
  dumps = λ c. "{}";
  kernel = λ c. receipted "R-1";
  mentions_stale = λ text. false;
  code_name = λ code. "VALIDATION_FAILED";
  provenance = none;
}

abbrev unit : WorkUnit
unit = record {
  session_id = "ses";
  episode_index = 1;
  slice_index = 0;
  unit_digest = "0badcafe";
  finality = "FINAL";
  backend_type = "openai_compatible";
  model = "m";
  run_id = "run";
}

abbrev nothing_counted : Summary
nothing_counted = record {
  repair_calls = 0;
  submit_attempts = 0;
  submit_successes = 0;
  kernel_refusals = 0;
  stale_refusals = 0;
  jobs_completed = 0;
  jobs_blocked = 0;
  jobs_blocked_binding = 0;
  jobs_stale = 0;
  errors = [];
  receipts = [];
}

fresh : Job
unfolding new_job
fresh = new_job tag "t0" unit

start : Job → Drive
start j = record {
  run = record { model_calls = 0; job = j; ledger = fresh_ledger };
  saved = [];
  effects = [];
  summary = nothing_counted;
}

abbrev ending_of : Progress (Unit {0}) → Option Ending
ending_of (going _ d) = none
ending_of (ended e d) = some e

abbrev stages_of : List Job → List Stage
stages_of [] = []
stages_of (j ∷ js) = j.stage ∷ stages_of js

abbrev written : Progress (Unit {0}) → List Stage
written (going _ d) = stages_of d.saved
written (ended e d) = stages_of d.saved

drive : Env → Job → Progress (Unit {0})
unfolding drive_unit drive_on open_job reactivate resume perform next_action action_at resume_stage
    call_investigator advance may_go transitions Stage-discrete call_role guarded_call past_gate
    transport settle move_circuit budget_allows record_consumption circuit_allows
    circuit_probe_allowed record_backend_success record_backend_failure mark_ambiguous_attempt
    next_attempt_id validate_response validate_with_repair after_rejection ask_repair fail_over
    criticise decide_critic needs_critic sampled hex_value high_signal with_critic call_late
    finalize_candidate is_disputed with_finalizer submit_final close_done wait_for_kernel
    compact_done_job is_bare hour text_take fresh start transport_failure backoff_delay
drive env j = drive_unit 2 env unit (some j) (start j)

-- A drift that the critic agrees to is submitted, and the job ends as a tombstone.
judged : ending_of (drive env fresh) ≡ some (returned note_done)
unfolding drive
judged = refl

judged_stages :
    written (drive env fresh)
    ≡ done ∷ done ∷ submitting ∷ final_ready ∷ critic_ready ∷ critic_calling ∷ critic_calling
      ∷ critic_calling ∷ candidate_ready ∷ investigator_response ∷ investigator_calling
      ∷ investigator_calling ∷ []
unfolding drive
judged_stages = refl

drive_unit-Ends_example : Ends (drive_unit 2 env unit (some fresh) (start fresh))
drive_unit-Ends_example = drive_unit-Ends env unit (some fresh) (start fresh)

abbrev weight : Parsed → Bool
weight (accepted v) = has_payload (some v)
weight (rejected why) = true

text_good :
    (b : Bool) (v : Payload)
    → (if b then accepted drift else rejected "no JSON") ≡ accepted v
    → has_payload (some v) ≡ true
text_good true v e = sym (ap weight e)
text_good false v e = sym (ap weight e)

fresh-IsDrivable : IsDrivable env (some fresh)
unfolding fresh
fresh-IsDrivable = (refl, λ e c h. cc)

drive_unit-IsSound_example :
    IsSound env (candidate_of (some fresh)) (drive_unit 2 env unit (some fresh) (start fresh))
drive_unit-IsSound_example =
    drive_unit-IsSound env unit (some fresh) (start fresh)
      (λ text v e. text_good (text == "good") v e) fresh-IsDrivable

abbrev refusal : Refusal
refusal = record { code = session_conflict; message = "the receipt index is held" }

abbrev refusing : Env
refusing = record env { kernel = λ c. refused refusal }

refusal_is_forgotten_example :
    IsLost
      (start (held fresh drift))
      (seal refusing (held fresh drift) ∷ [])
      (drive_unit 2 refusing unit (some (held fresh drift)) (start (held fresh drift)))
unfolding fresh start
refusal_is_forgotten_example =
    refusal_is_forgotten refusing unit fresh drift refusal (start (held fresh drift)) refl refl refl
      (omega arith)

-- A job left at the critic's call by a policy that wanted one, under a policy that does not: the
-- drive ends by a refused move.
abbrev lenient : Env
lenient = record env { policy = record strict { critic_on_drift = false } }

abbrev at_critic : Job
at_critic = record fresh { stage = critic_calling; candidate = some drift }

policy_changed : ending_of (drive lenient at_critic) ≡ some (raised validation_failed)
unfolding drive
policy_changed = refl

-- A job whose repair was sent and whose process died before the answer was stored: the drive pays
-- for the repair again.
abbrev repair_sent : Job
repair_sent = record fresh {
  stage = investigator_response;
  response_text = some "bad";
  attempt_ids = ("investigator", "A") ∷ [];
}

abbrev calls_of : Progress (Unit {0}) → ℕ
calls_of (going _ d) = d.run.model_calls
calls_of (ended _ d) = d.run.model_calls

repair_repeated : calls_of (drive lenient repair_sent) ≡ 1
unfolding drive
repair_repeated = refl

abbrev speaking : Reply → Bool
speaking (replied text i o) = has_text (some text)
speaking (failed k) = true

drive_unit-IsPaid_example :
    IsPaid (start fresh) fresh (drive_unit 2 env unit (some fresh) (start fresh))
unfolding fresh
drive_unit-IsPaid_example =
    drive_unit-IsPaid env unit fresh (start fresh) (λ role text i o e. sym (ap speaking e)) refl

-- A fresh job lacks three answers and three repairs; a drive that the critic agrees to buys two.
judged_calls : calls_of (drive env fresh) ≡ 2
unfolding drive
judged_calls = refl

fresh_owes : owed fresh ≡ 6
unfolding owed fresh
fresh_owes = refl
