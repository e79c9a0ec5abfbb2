-- ===== src/Jobs/Job.antt =====
-- One job of the journal (`JOB_FIELDS`, `new_job` of tools/saipal_analyst/jobs.py).
use saipal.Base.{ℕ, Bool, true, false, Option, none, some, List, [], ◌∷◌, String, ◌==◌}
use saipal.Base.{string_eq, if◌then◌else◌, ◌<>◌}
use saipal.Base.Dict.{Dict}
use saipal.Jobs.Stage.{Stage, ready}

-- A JSON object that a model answered. The journal reads of it only whether it is empty.
abbrev pub Payload : Type 0
Payload = Dict String String

-- `next_retry_at`: absent, a time, or a value that `float` refuses.
pub data RetryTime : Type 0 where
  unset : RetryTime
  due_at : ℕ → RetryTime
  unreadable : RetryTime

-- What a requeue was admitted under (`material_identity` of tools/saipal_analyst/requeue.py).
pub record Material : Type 0 where
  pub config_digest : String
  pub backend_type : String
  pub model : String

-- `REQUEUE_ENTRY_FIELDS`; the four digests are `cleared_digests`.
pub record RequeueEntry : Type 0 where
  pub at : String
  pub from_stage : Stage
  pub error_class : Option String
  pub error_detail : Option String
  pub reason : String
  pub forced : Bool
  pub material : Material
  pub attempts : ℕ
  pub transport_attempts : ℕ
  pub response_digest : Option String
  pub candidate_digest : Option String
  pub critic_digest : Option String
  pub finalizer_digest : Option String

pub record Job : Type 0 where
  pub job_id : String
  pub session_id : String
  pub episode_index : ℕ
  pub slice_index : ℕ
  pub unit_digest : String
  pub finality : String
  pub stage : Stage
  pub attempts : ℕ
  pub transport_attempts : ℕ
  pub submit_attempts : ℕ
  pub repairs : ℕ
  pub investigator_repairs : ℕ
  pub critic_repairs : ℕ
  pub finalizer_repairs : ℕ
  pub backend_type : String
  pub model : String
  pub created_at : String
  pub updated_at : String
  pub run_id : String
  pub attempt_ids : Dict String String
  pub ambiguous_attempt_ids : List (String × String)
  pub response_digest : Option String
  pub response_text : Option String
  pub investigator_repair_text : Option String
  pub critic_digest : Option String
  pub critic_payload : Option Payload
  pub critic_response_text : Option String
  pub critic_repair_text : Option String
  pub finalizer_digest : Option String
  pub finalizer_response_text : Option String
  pub finalizer_repair_text : Option String
  pub candidate_digest : Option String
  pub candidate : Option Payload
  pub receipt_id : Option String
  pub error_class : Option String
  pub error_detail : Option String
  pub next_retry_at : RetryTime
  pub verdict : Option String
  pub requeues : List RequeueEntry

-- Python's truth of an optional text and of an optional object.
abbrev pub has_text : Option String → Bool
has_text none = false
has_text (some s) = if s == "" then false else true

abbrev pub has_payload : Option Payload → Bool
has_payload none = false
has_payload (some []) = false
has_payload (some (_ ∷ _)) = true

-- What `new_job` is called with, but for the clock and the identity.
pub record WorkUnit : Type 0 where
  pub session_id : String
  pub episode_index : ℕ
  pub slice_index : ℕ
  pub unit_digest : String
  pub finality : String
  pub backend_type : String
  pub model : String
  pub run_id : String

-- What the identities rest on: Python's decimal text of a number and SHA-256 in hexadecimal, cut
-- to 32 digits.
pub record Hashing : Type 0 where
  pub decimal : ℕ → String
  pub sha256_32 : String → String

module _ (h : Hashing) where
  unfoldable pub unit_job_id : String → ℕ → ℕ → String → String
  unit_job_id session_id episode_index slice_index unit_digest = h.sha256_32 (
      session_id
      <> "|"
      <> h.decimal episode_index
      <> "|"
      <> h.decimal slice_index
      <> "|"
      <> unit_digest)

  unfoldable pub new_job : String → WorkUnit → Job
  unfolding unit_job_id
  new_job now u = record {
    job_id = unit_job_id u.session_id u.episode_index u.slice_index u.unit_digest;
    session_id = u.session_id;
    episode_index = u.episode_index;
    slice_index = u.slice_index;
    unit_digest = u.unit_digest;
    finality = u.finality;
    stage = ready;
    attempts = 0;
    transport_attempts = 0;
    submit_attempts = 0;
    repairs = 0;
    investigator_repairs = 0;
    critic_repairs = 0;
    finalizer_repairs = 0;
    backend_type = u.backend_type;
    model = u.model;
    created_at = now;
    updated_at = now;
    run_id = u.run_id;
    attempt_ids = [];
    ambiguous_attempt_ids = [];
    response_digest = none;
    response_text = none;
    investigator_repair_text = none;
    critic_digest = none;
    critic_payload = none;
    critic_response_text = none;
    critic_repair_text = none;
    finalizer_digest = none;
    finalizer_response_text = none;
    finalizer_repair_text = none;
    candidate_digest = none;
    candidate = none;
    receipt_id = none;
    error_class = none;
    error_detail = none;
    next_retry_at = unset;
    verdict = none;
    requeues = [];
  }
