-- ===== src/Requeue/Plan.antt =====
-- One pass over the journal (`_jobs`, `_plan`, `_refusal`, `requeue` and `requeue_status`
-- of tools/saipal_analyst/requeue.py). The configuration's material and allowance,
-- the sessions of the index and the outcome of the worker lock are arguments.
use saipal.Base.{
  ℕ, ◌+◌, Bool, true, false, not, Option, none, some, List, [], ◌∷◌, ◌++◌, String, ◌<>◌, ◌==◌,
  string_eq, leb, length, last?, if◌then◌else◌, Result, ok, err, ◌>>=◌, writer_busy, contains,
}
use Prim.Native.String.{compare}
use Prim.Native.Nat.{Ordering}
use saipal.Base.Dict.{Dict, insert}
use saipal.Requeue.Report.{RequeuedRow, Report, empty_report, refusal, row_of, count_in}
use saipal.Jobs.Stage.{blocked, Stage-discrete, stage_eq, stage_name}
use saipal.Jobs.Job.{Job, Material, RequeueEntry}
use saipal.Requeue.Decide.{
  Reason, not_indexed, requeued, refused, is_last_material, decide_by, decide,
}
use saipal.Requeue.Apply.{Order, apply, entry_of, text_or}

-- `sorted(journal["jobs"].items())`
abbrev pub comes_before : String → String → Bool
comes_before a b = elim (compare a b) [ Ordering.gt ↦ false | _ ↦ true ]

abbrev pub place : String × Job → Dict String Job → Dict String Job
place (id, job) [] = (id, job) ∷ []
place (id, job) ((other, job') ∷ rest) =
    if comes_before id other
    then (id, job) ∷ (other, job') ∷ rest
    else (other, job') ∷ place (id, job) rest

unfoldable pub sorted_jobs : Dict String Job → Dict String Job
sorted_jobs [] = []
sorted_jobs ((id, job) ∷ rest) = place (id, job) (sorted_jobs rest)

-- What the operator and the configuration ask for.
pub record Request : Type 0 where
  pub order : Order
  pub max_requeues : ℕ
  pub indexed : Option (List String)
  pub wanted : Option (List String)
  pub limit : Option ℕ
  pub applies : Bool
  pub clock : String

-- The ways through the body of the loop.
pub data Outcome : Type 0 where
  left_alone : String → Outcome
  off_path : Reason → Outcome
  declined : Reason → Outcome
  beyond_limit : Outcome
  taken : Reason → Outcome

abbrev pub class_of : Job → String
class_of job = text_or job.error_class "UNCLASSIFIED"

abbrev pub is_outside : Option (List String) → String → Bool
is_outside none x = false
is_outside (some xs) x = not (contains xs x)

abbrev pub is_full : Option ℕ → ℕ → Bool
is_full none n = false
is_full (some limit) n = leb limit n

-- What the pass does with a job when it has requeued `done` so far.
unfoldable pub outcome_of : Request → ℕ → Job → Outcome
unfolding decide Stage-discrete
outcome_of q done job =
    let (verdict, reason) = decide job q.order.material q.max_requeues q.order.forced in
    if not (job.stage == blocked)
    then (elim verdict [ refused ↦ off_path reason | _ ↦ left_alone (stage_name job.stage) ])
    else if is_outside q.wanted (class_of job)
    then left_alone ("class:" <> class_of job)
    else if is_outside q.indexed job.session_id
    then declined not_indexed
    else elim verdict [
      | refused ↦ declined reason
      | _ ↦ if is_full q.limit done then beyond_limit else taken reason
    ]

abbrev pub scan_job : Report → Report
scan_job r = record r { scanned = r.scanned + 1 }

abbrev pub find_eligible : Job → Report → Report
find_eligible job r = record r {
  eligible = r.eligible + 1;
  by_class = count_in (class_of job) r.by_class;
}

unfoldable pub note_taken : Request → Reason → Report → Job → Result (Report × Job)
unfolding row_of
note_taken q reason r job =
    if not q.applies
    then ok (
      record r { requeued_rows = r.requeued_rows ++ (row_of job (class_of job) reason ∷ []) },
      job,
    )
    else apply q.clock q.order job >>= λ job'. ok (
      record r {
        requeued_rows = r.requeued_rows ++ (row_of job' (class_of job) reason ∷ []);
        history = r.history ++ (entry_of q.order job ∷ []);
      },
      job',
    )

-- The body of the loop: the report and the job that it leaves.
unfoldable pub plan_as : Request → Outcome → Report → Job → Result (Report × Job)
unfolding refusal note_taken
plan_as q (left_alone key) r job =
    ok (record r { not_applicable_counts = count_in key r.not_applicable_counts }, job)
plan_as q (off_path reason) r job =
    ok (record r { refused_rows = r.refused_rows ++ (refusal job reason ∷ []) }, job)
plan_as q (declined reason) r job = ok (
  record (find_eligible job r) { refused_rows = r.refused_rows ++ (refusal job reason ∷ []) },
  job,
)
plan_as q beyond_limit r job =
    ok (record (find_eligible job r) { remaining = r.remaining + 1 }, job)
plan_as q (taken reason) r job = note_taken q reason (find_eligible job r) job

unfoldable pub plan_one : Request → Report → Job → Result (Report × Job)
unfolding outcome_of plan_as
plan_one q r job = plan_as q (outcome_of q (length r.requeued_rows) job) (scan_job r) job

unfoldable pub plan_all : Request → Report → Dict String Job → Result (Report × Dict String Job)
unfolding plan_one
plan_all q r [] = ok (r, [])
plan_all q r ((id, job) ∷ rest) =
    plan_one q r job >>= λ one. plan_all q one.0 rest >>= λ more. ok (more.0, (id, one.1) ∷ more.1)

-- The jobs are changed where they stand in the journal.
abbrev pub write_back : Dict String Job → Dict String Job → Dict String Job
write_back [] journal = journal
write_back ((id, job) ∷ rest) journal = write_back rest (insert id job journal)

unfoldable pub plan : Request → Dict String Job → Result (Report × Dict String Job)
unfolding plan_all sorted_jobs
plan q journal =
    plan_all q empty_report (sorted_jobs journal) >>= λ p. ok (p.0, write_back p.1 journal)

-- What a call of `requeue` leaves: the report, and the journal that is saved, if one is.
pub record Pass : Type 0 where
  pub report : Report
  pub saved : Option (Dict String Job)

abbrev pub has_rows : List RequeuedRow → Bool
has_rows [] = false
has_rows (_ ∷ _) = true

unfoldable pub requeue : Bool → Bool → Request → Dict String Job → Result Pass
unfolding plan
requeue dry_run locked q journal =
    if dry_run
    then (plan (record q { applies = false }) journal
        >>= (λ p. ok (record { report = p.0; saved = none })))
    else if not locked
    then err writer_busy
    else plan (record q { applies = true }) journal >>= λ p.
        ok (record { report = p.0; saved = if has_rows p.0.requeued_rows then some p.1 else none })

-- `requeue_status`: the refused units that a requeue would take, and the others. The classes stand
-- in the order of their first unit; the source sorts them for display.
pub record Status : Type 0 where
  pub ready_count : ℕ
  pub refused_count : ℕ
  pub blocked_by_class : Dict String ℕ

-- No requeue has the material of a configuration that cannot be used.
abbrev pub is_known_material : Option Material → Option RequeueEntry → Bool
is_known_material none last = false
is_known_material (some material) last = is_last_material material last

unfoldable pub status_one : Option Material → ℕ → Status → Job → Status
unfolding decide_by Stage-discrete
status_one material max_requeues s job =
    if not (job.stage == blocked)
    then s
    else let counted : Status = record s {
      blocked_by_class = count_in (class_of job) s.blocked_by_class;
    } in
      elim (decide_by job (is_known_material material (last? job.requeues)) max_requeues false).0 [
        | requeued ↦ record counted { ready_count = s.ready_count + 1 }
        | _ ↦ record counted { refused_count = s.refused_count + 1 }
      ]

unfoldable pub status_all : Option Material → ℕ → Status → Dict String Job → Status
unfolding status_one
status_all material max_requeues s [] = s
status_all material max_requeues s ((id, job) ∷ rest) =
    status_all material max_requeues (status_one material max_requeues s job) rest

unfoldable pub requeue_status : Option Material → ℕ → Dict String Job → Status
unfolding status_all sorted_jobs
requeue_status material max_requeues journal =
    status_all material max_requeues
      (record { ready_count = 0; refused_count = 0; blocked_by_class = [] }) (sorted_jobs journal)
