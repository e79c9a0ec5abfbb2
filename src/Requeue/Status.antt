-- ===== src/Requeue/Status.antt =====
-- The count that the doctor publishes beside a dry run (`requeue_status` of
-- tools/saipal_analyst/requeue.py).
use saipal.Base.{
  some, ℕ, ◌+◌, ◌≡◌, refl, false, none, [], ◌∷◌, String, length, length-append, ok, arith,
}
use saipal.Base.Dict.{Dict}
use saipal.Jobs.Stage.{stage_eq}
use saipal.Jobs.Job.{Job, Material}
use saipal.Requeue.Decide.{decide}
use saipal.Requeue.Plan.{
  Request, Outcome, left_alone, off_path, declined, beyond_limit, taken, outcome_of, plan_as,
  plan_one, plan_all, plan, sorted_jobs, scan_job, find_eligible, write_back, Status, status_one,
  status_all, requeue_status,
}
use saipal.Requeue.Report.{Report, empty_report}
use saipal.Requeue.Passes.{note_taken_dry}

-- The dry run with no class, limit, index or force.
abbrev pub survey : Material → ℕ → Request
survey material max_requeues = record {
  order = record { material = material; note = none; forced = false; at = "" };
  max_requeues = max_requeues;
  indexed = none;
  wanted = none;
  limit = none;
  applies = false;
  clock = "";
}

abbrev is_taken : Outcome → ℕ
is_taken (taken _) = 1
is_taken _ = 0

status_one-ready :
    (m : Material) (k n : ℕ) (s : Status) (job : Job)
    → (status_one (some m) k s job).ready_count
      ≡ s.ready_count + is_taken (outcome_of (survey m k) n job)
unfolding status_one outcome_of decide
status_one-ready m k n s job = ground arith

plan_as-rows :
    (m : Material) (k : ℕ) (o : Outcome) (r : Report) (job : Job)
    → (r' : Report) × (plan_as (survey m k) o r job ≡ ok (r', job))
      × (length r'.requeued_rows ≡ length r.requeued_rows + is_taken o)
unfolding plan_as
plan_as-rows m k (left_alone key) r job = (_, refl, omega arith)
plan_as-rows m k (off_path reason) r job = (_, refl, omega arith)
plan_as-rows m k (declined reason) r job = (_, refl, omega arith)
plan_as-rows m k beyond_limit r job = (_, refl, omega arith)
plan_as-rows m k (taken reason) r job = (
  _,
  note_taken_dry (survey m k) reason (find_eligible job r) job refl,
  length-append r.requeued_rows (_ ∷ []),
)

status_all-rows :
    (m : Material) (k : ℕ) (s : Status) (r : Report) (jobs : Dict String Job)
    → (r' : Report) × (plan_all (survey m k) r jobs ≡ ok (r', jobs))
      × ((status_all (some m) k s jobs).ready_count + length r.requeued_rows
          ≡ s.ready_count + length r'.requeued_rows)
unfolding plan_all plan_one status_all
status_all-rows m k s r [] = (r, refl, refl)
status_all-rows m k s r ((id, job) ∷ rest) =
    let n = length r.requeued_rows in
    let (r1, one, grown) = plan_as-rows m k (outcome_of (survey m k) n job) (scan_job r) job in
    let (r2, more, counted) = status_all-rows m k (status_one (some m) k s job) r1 rest in
    (r2, rw (one, more) refl, omega (arith, grown, counted, status_one-ready m k n s job))

-- The units that the status calls ready are as many as a dry run with no filter, limit, index or
-- force would requeue.
pub requeue_status-plan :
    (material : Material) (max_requeues : ℕ) (journal : Dict String Job)
    → (r : Report) × (after : Dict String Job) × (plan (survey material max_requeues) journal
        ≡ ok (r, after))
      × ((requeue_status (some material) max_requeues journal).ready_count ≡ length r.requeued_rows)
unfolding plan requeue_status
requeue_status-plan material max_requeues journal =
    let (r, planned, counted) =
      status_all-rows material max_requeues
        (record { ready_count = 0; refused_count = 0; blocked_by_class = [] }) empty_report
        (sorted_jobs journal) in
    (r, write_back (sorted_jobs journal) journal, rw planned refl, omega (arith, counted))
