-- ===== src/Requeue/Report.antt =====
-- What a pass reports (`report` in `_plan`, `_refusal` of tools/saipal_analyst/requeue.py).
use saipal.Base.{ℕ, ◌+◌, Option, none, some, List, [], String, ◌<>◌, string_eq, length}
use saipal.Base.Dict.{Dict, lookup, insert}
use saipal.Jobs.Stage.{Stage, blocked_binding, remote_outcome_unknown, stale}
use saipal.Jobs.Job.{Job, RequeueEntry}
use saipal.Requeue.Decide.{Reason}

pub record RequeuedRow : Type 0 where
  pub job_id : String
  pub session_id : String
  pub error_class : String
  pub requeues_spent : ℕ
  pub reason : Reason

pub record RefusedRow : Type 0 where
  pub job_id : String
  pub session_id : String
  pub stage : Stage
  pub error_class : Option String
  pub reason : Reason
  pub requeues_spent : ℕ
  pub next_action : Option String

pub record Report : Type 0 where
  pub scanned : ℕ
  pub eligible : ℕ
  pub requeued_rows : List RequeuedRow
  pub refused_rows : List RefusedRow
  pub not_applicable_counts : Dict String ℕ
  pub by_class : Dict String ℕ
  pub remaining : ℕ
  pub history : List RequeueEntry

abbrev pub empty_report : Report
empty_report = record {
  scanned = 0;
  eligible = 0;
  requeued_rows = [];
  refused_rows = [];
  not_applicable_counts = [];
  by_class = [];
  remaining = 0;
  history = [];
}

-- The commands of `OTHER_STAGES`.
unfoldable pub next_command : Stage → Option String
next_command blocked_binding = some (
    "python -B tools/saipal.py authority enroll --release-root PATH, "
    <> "then rebind --dry-run: a rebind to BOUND re-eligibilizes the job automatically")
next_command remote_outcome_unknown = some "resolve the paid attempt explicitly before any retry"
next_command stale = some "re-import the session; a requeue would be a no-op"
next_command _ = none

unfoldable pub refusal : Job → Reason → RefusedRow
unfolding next_command
refusal job reason = record {
  job_id = job.job_id;
  session_id = job.session_id;
  stage = job.stage;
  error_class = job.error_class;
  reason = reason;
  requeues_spent = length job.requeues;
  next_action = next_command job.stage;
}

unfoldable pub row_of : Job → String → Reason → RequeuedRow
row_of job error_class reason = record {
  job_id = job.job_id;
  session_id = job.session_id;
  error_class = error_class;
  requeues_spent = length job.requeues;
  reason = reason;
}

-- `d[key] = d.get(key, 0) + 1`
abbrev pub count_of : Option ℕ → ℕ
count_of none = 0
count_of (some n) = n

abbrev pub count_in : String → Dict String ℕ → Dict String ℕ
count_in key d = insert key (count_of (lookup key d) + 1) d
