-- ===== src/Requeue/Apply.antt =====
-- The fresh attempt of an admitted job (`_excerpt`, `_apply` of tools/saipal_analyst/requeue.py).
-- The operator's note comes stripped of white space.
use saipal.Base.{
  text_take, ℕ, ◌+◌, ◌≡◌, refl, ◌∙◌, ap, Bool, false, Option, none, some, [], ◌∷◌, ◌++◌, String,
  ◌<>◌, ◌==◌, string_eq, leb, length, take_last, if◌then◌else◌, Result, ok, ◌>>=◌, arith, min,
  length-take_last, length-append, last?, last?-take_last,
}
use Prim.Native.String.{count as text_length}
use saipal.Jobs.Stage.{ready, blocked, may_go}
use saipal.Jobs.Job.{
  Job, WorkUnit, Hashing, new_job, Material, RequeueEntry, unset, has_text, has_payload,
}
use saipal.Jobs.Advance.{advance}
use saipal.Jobs.Resume.{
  call, next_action, Role, investigator, critic_role, finalizer, role_name, role_response,
  has_attempt,
}

abbrev pub max_history : ℕ
max_history = 8

abbrev pub excerpt_limit : ℕ
excerpt_limit = 240

unfoldable pub excerpt : Option String → Option String
unfolding text_take
excerpt none = none
excerpt (some text) =
    if text == ""
    then none
    else if leb (text_length text) excerpt_limit
    then some text
    else some (text_take 239 text <> "…")

-- `value or other`
abbrev pub text_or : Option String → String → String
text_or value other = if has_text value then (elim value [ none ↦ other | some s ↦ s ]) else other

abbrev pub detail_text : String
detail_text = "semantic refusal requeued for one fresh attempt"

-- What an operator asks for, and the time.
pub record Order : Type 0 where
  pub material : Material
  pub note : Option String
  pub forced : Bool
  pub at : String

unfoldable pub entry_of : Order → Job → RequeueEntry
unfolding excerpt
entry_of order job = record {
  at = order.at;
  from_stage = job.stage;
  error_class = job.error_class;
  error_detail = excerpt job.error_detail;
  reason = text_or order.note detail_text;
  forced = order.forced;
  material = order.material;
  attempts = job.attempts;
  transport_attempts = job.transport_attempts;
  response_digest = job.response_digest;
  candidate_digest = job.candidate_digest;
  critic_digest = job.critic_digest;
  finalizer_digest = job.finalizer_digest;
}

-- `CLEARED_FIELDS`, `RESET_FIELDS` and `CLEARED_COUNTERS`.
unfoldable pub clear_attempt : Job → Job
clear_attempt job = record job {
  response_text = none;
  response_digest = none;
  investigator_repair_text = none;
  critic_response_text = none;
  critic_repair_text = none;
  critic_payload = none;
  critic_digest = none;
  finalizer_response_text = none;
  finalizer_repair_text = none;
  finalizer_digest = none;
  candidate = none;
  candidate_digest = none;
  verdict = none;
  attempt_ids = [];
  ambiguous_attempt_ids = [];
  repairs = 0;
  investigator_repairs = 0;
  critic_repairs = 0;
  finalizer_repairs = 0;
  error_class = none;
  error_detail = none;
  next_retry_at = unset;
}

abbrev pub or_else : String → String → String
or_else first second = if first == "" then second else first

unfoldable pub reopen : Order → Job → Job
unfolding entry_of clear_attempt
reopen order job = record (clear_attempt job) {
  requeues = take_last max_history (job.requeues ++ (entry_of order job ∷ []));
  backend_type = or_else order.material.backend_type job.backend_type;
  model = or_else order.material.model job.model;
}

-- The job after the requeue; `now` is the clock that `advance` reads.
unfoldable pub apply : String → Order → Job → Result Job
unfolding reopen advance
apply now order job =
    advance now (reopen order job) ready >>= λ moved. ok (record moved { updated_at = order.at })

-- The unit of a job.
abbrev pub unit_of : Job → WorkUnit
unit_of j = record {
  session_id = j.session_id;
  episode_index = j.episode_index;
  slice_index = j.slice_index;
  unit_digest = j.unit_digest;
  finality = j.finality;
  backend_type = j.backend_type;
  model = j.model;
  run_id = j.run_id;
}

-- A job with the identity, the cumulative counters, the receipt and the history of another.
abbrev pub carried : Job → Job → Job
carried from j = record j {
  job_id = from.job_id;
  created_at = from.created_at;
  attempts = from.attempts;
  transport_attempts = from.transport_attempts;
  submit_attempts = from.submit_attempts;
  receipt_id = from.receipt_id;
  requeues = from.requeues;
}

-- What a fresh attempt is: the model is called, no paid attempt is named, and the job is a new job
-- of its unit but for its identity, its receipt, what was spent, and the history.
pub record IsFresh (now : ℕ) (order : Order) (before after : Job) : Type 0 where
  pub calls : next_action now after ≡ call
  pub silent : (r : Role) → has_text (role_response r after) ≡ false
  pub unnamed : (r : Role) → has_attempt (role_name r) after ≡ false
  pub no_candidate : has_payload after.candidate ≡ false
  pub blank : (h : Hashing) → carried after (new_job h order.at (unit_of after)) ≡ after
  pub same_identity : (after.job_id ≡ before.job_id) × (after.created_at ≡ before.created_at)
  pub same_unit :
      (after.session_id ≡ before.session_id)
      × (after.episode_index ≡ before.episode_index)
      × (after.slice_index ≡ before.slice_index)
      × (after.unit_digest ≡ before.unit_digest)
      × (after.finality ≡ before.finality)
  pub spent :
      (after.attempts ≡ before.attempts)
      × (after.transport_attempts ≡ before.transport_attempts)
      × (after.submit_attempts ≡ before.submit_attempts)
  pub history_length : length after.requeues ≡ min max_history (length before.requeues + 1)
  pub recorded : last? after.requeues ≡ some (entry_of order before)

silent_role :
    (r : Role) (job : Job)
    → job.response_text ≡ none
    → job.critic_response_text ≡ none
    → job.finalizer_response_text ≡ none
    → has_text (role_response r job) ≡ false
silent_role investigator job e f g = rw e refl
silent_role critic_role job e f g = rw f refl
silent_role finalizer job e f g = rw g refl

pub apply_fresh :
    (now : ℕ) (clock : String) (order : Order) (job : Job)
    → job.stage ≡ blocked
    → (after : Job) × (apply clock order job ≡ ok after) × IsFresh now order job after
unfolding apply reopen clear_attempt advance may_go next_action new_job
apply_fresh now clock order job e = (
  record (reopen order job) { stage = ready; updated_at = order.at },
  rw e refl,
  record {
    calls = refl;
    silent = λ r. silent_role r _ refl refl refl;
    unnamed = λ r. refl;
    no_candidate = refl;
    blank = λ h. refl;
    same_identity = (refl, refl);
    same_unit = (refl, refl, refl, refl, refl);
    spent = (refl, refl, refl);
    history_length =
        length-take_last max_history (job.requeues ++ (entry_of order job ∷ []))
        ∙ ap (min max_history) (length-append job.requeues (entry_of order job ∷ []));
    recorded = last?-take_last max_history job.requeues (entry_of order job) (omega arith);
  },
)
