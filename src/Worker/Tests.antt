-- ===== src/Worker/Tests.antt =====
-- Runs of the guarded call and its theorems at concrete calls.
use saipal.Base.{
  ◌+◌, ◌*◌, ◌≡◌, refl, ◌≢◌, ◌⊎◌, inl, not, true, false, none, some, List, [], ◌∷◌, ◌≤◌, String, ok,
  arith, eq_iff, ◌<◌,
}
use saipal.Jobs.Stage.{Stage-discrete, investigator_calling, retry_wait, blocked}
use saipal.Jobs.Job.{Job, Hashing, new_job}
use saipal.Jobs.Resume.{investigator, retry_due, next_action, ambiguous, next_attempt_id}
use saipal.Analysis.Episodes.{Episode}
use saipal.Analysis.Session.{Session, Digests, cold, offer, semantic_state, episode_finality}
use saipal.Worker.Choice.{bindable, by_stage, classify_unit}
use saipal.Worker.Busy.{is_settled, is_offered}
use saipal.Worker.Eligible.{IsWorkable, runnable-IsWorkable, classify_settled}
use saipal.Base.Dict.{Dict}
use saipal.Budgets.Ledger.{fresh_ledger, hour, second, retryable}
use saipal.Budgets.Windows.{usage_at, budget_allows, record_consumption}
use saipal.Budgets.Circuit.{
  circuit_probe_allowed, circuit_allows, record_backend_success, record_backend_failure,
}
use saipal.Worker.Call.{
  World, replied, RunBudget, Run, answered, stopped, no_calls_left, guarded_call, past_gate,
  transport, settle, move_circuit, sent, named,
}
use saipal.Worker.Failure.{
  transport_failure, transport_failure_lem, note_retry_wait, note_blocked, backoff_delay, IsWaiting,
  is_retryable,
}
use saipal.Worker.Asks.{Ask, ask, NoLater, attempts_at, sent_in, lost_in}
use saipal.Worker.Hourly.{sent-le-limit}
use saipal.Worker.Guard.{Fate, guarded_call-Fate, sent_is_ambiguous}

abbrev tag : Hashing
tag = record { decimal = λ n. "1"; sha256_32 = λ s. "c0ffee" }

tag_nonempty : (s : String) → tag.sha256_32 s ≢ ""
tag_nonempty s = ground (arith, eq_iff "c0ffee" "")

calling_job : Job
unfolding new_job
calling_job =
    record (new_job tag "t0" (record {
      session_id = "ses";
      episode_index = 1;
      slice_index = 0;
      unit_digest = "d1";
      finality = "FINAL";
      backend_type = "openai_compatible";
      model = "m";
      run_id = "run";
    })) { stage = investigator_calling }

abbrev budget : RunBudget
budget = record {
  max_calls = 2;
  max_wall = 600 * second;
  hourly = record { max_model_attempts_per_hour = some 4; max_semantic_units_per_hour = none };
}

abbrev world : World
world = record {
  elapsed = 10 * second;
  now = 72000 * second;
  config_digest = "cfg";
  user_digest = "u";
  reply = replied "{}" 100 20;
  can_mark = true;
  can_move_circuit = true;
  can_charge = true;
}

abbrev run : Run
run = record { model_calls = 0; job = calling_job; ledger = fresh_ledger }

one_call :
    let c = guarded_call tag budget investigator world run in
    (c.result ≡ answered "{}")
    × (c.effects ≡ named "c0ffee" ∷ sent ∷ [])
    × (c.run.ledger.windows
        ≡ (20, record { model_attempts = 1; units = 0; input_tokens = 100; output_tokens = 20 })
          ∷ [])
unfolding guarded_call next_attempt_id budget_allows circuit_allows circuit_probe_allowed
    record_consumption
one_call = (refl, refl, refl)

calls_spent :
    (guarded_call tag budget investigator world (record run { model_calls = 2 })).result
    ≡ stopped no_calls_left
unfolding guarded_call
calls_spent = refl

no_mark :
    (guarded_call tag budget investigator (record world { can_mark = false }) run).effects ≡ []
unfolding guarded_call budget_allows circuit_allows circuit_probe_allowed
no_mark = refl

guarded_call-Fate_example :
    Fate tag budget investigator world run (guarded_call tag budget investigator world run)
guarded_call-Fate_example = guarded_call-Fate tag budget investigator world run

sent_is_ambiguous_example :
    let c = guarded_call tag budget investigator world run in
    (c.effects ≡ []) ⊎ (next_action 7 c.run.job ≡ ambiguous)
sent_is_ambiguous_example =
    sent_is_ambiguous tag budget investigator world run 7 tag_nonempty (unfold calling_job in refl)
      (unfold calling_job in refl)

third_delay : backoff_delay 3 ≡ 4 * second
unfolding backoff_delay
third_delay = refl

capped_delay : backoff_delay 9 ≡ 30 * second
unfolding backoff_delay
capped_delay = refl

transport_failure_lem_example :
    (after : Job) × (((transport_failure 2 50 "t1" retryable "HTTP 500" calling_job
          ≡ ok (note_retry_wait, after))
        × (retryable ≡ retryable)
        × IsWaiting 50 2 calling_job after)
      ⊎ ((transport_failure 2 50 "t1" retryable "HTTP 500" calling_job ≡ ok (note_blocked, after))
          × (after.stage ≡ blocked)
          × ((is_retryable retryable ≡ false) ⊎ (2 < calling_job.transport_attempts + 1))))
transport_failure_lem_example =
    transport_failure_lem 2 50 "t1" "HTTP 500" retryable calling_job
      (inl (unfold calling_job in refl))

abbrev digests : Digests
digests = record { decimal = λ n. "1"; sha256_text = λ s. "feed" }

abbrev only : Episode
only = record {
  index = 0;
  start_seq = 1;
  end_seq = 2;
  kind = "work";
  trigger_seq = none;
  event_count = 2;
  start_evidence_ref = none;
  end_evidence_ref = none;
}

abbrev pending : Session
pending = record {
  session_id = "ses";
  generation = 1;
  bundle_sha256 = "b1";
  temperature = cold;
  status = "IMPORTED";
  updated_at = "t1";
  imported_at = "t0";
  binding_status = "BOUND";
  episodes = only ∷ [];
  semantic = none;
}

-- The unit's job waited for a retry that is due.
abbrev journal : Dict String Job
journal = ("c0ffee", record calling_job { stage = retry_wait }) ∷ []

runnable-IsWorkable_example : IsWorkable digests tag 8 0 false journal pending
unfolding classify_unit semantic_state episode_finality by_stage bindable retry_due Stage-discrete
    calling_job
runnable-IsWorkable_example = runnable-IsWorkable digests tag 8 0 false journal pending refl

classify_settled_example :
    is_settled (classify_unit digests tag 8 0 false journal pending)
    ≡ not (is_offered (offer digests 8 pending))
classify_settled_example = classify_settled digests tag 8 0 false journal pending

-- Three calls of one hour under a limit of four; the charge of the second is lost.
abbrev asks : List Ask
asks =
    record {
      role = investigator;
      world = world;
      model_calls = 0;
      job = calling_job;
      max_calls = 2;
      max_wall = 600 * second;
    }
    ∷ record {
      role = investigator;
      world = record world { now = 72001 * second; can_charge = false };
      model_calls = 1;
      job = calling_job;
      max_calls = 2;
      max_wall = 600 * second;
    }
    ∷ record {
      role = investigator;
      world = record world { now = 72002 * second };
      model_calls = 0;
      job = calling_job;
      max_calls = 2;
      max_wall = 600 * second;
    }
    ∷ []

fresh-NoLater : NoLater 0 fresh_ledger.windows
fresh-NoLater k lt = unfold usage_at in refl

sent-le-limit_example :
    sent_in tag budget.hourly 20 fresh_ledger asks + attempts_at fresh_ledger.windows 20
    ≤ 4 + lost_in tag budget.hourly 20 fresh_ledger asks
sent-le-limit_example =
    sent-le-limit tag budget.hourly 4 20 0 fresh_ledger asks refl (omega arith) fresh-NoLater
      (unfold usage_at in omega arith)

three_sent : sent_in tag budget.hourly 20 fresh_ledger asks ≡ 3
unfolding sent_in ask guarded_call past_gate transport settle move_circuit budget_allows
    record_consumption circuit_allows circuit_probe_allowed record_backend_success
    record_backend_failure hour calling_job
three_sent = refl
