-- ===== src/Requeue/Forecast.antt =====
-- The dry run beside the pass that applies (`requeue` of tools/saipal_analyst/requeue.py).
use saipal.Base.{
  ℕ, suc, ◌+◌, ◌≡◌, refl, ◌∙◌, sym, ap, ◌↔◌, Bool, true, false, none, some, List, [], ◌∷◌, ◌++◌,
  String, length, if◌then◌else◌, ok, arith,
}
use saipal.Base.Dict.{Dict}
use saipal.Jobs.Job.{Job}
use saipal.Requeue.Apply.{apply_fresh}
use saipal.Requeue.Plan.{
  Request, has_rows, Outcome, left_alone, off_path, declined, beyond_limit, taken, outcome_of,
  plan_as, plan_one, plan_all, plan, Pass, requeue, sorted_jobs, scan_job, find_eligible, class_of,
  write_back,
}
use saipal.Requeue.Decide.{Reason}
use saipal.Requeue.Report.{row_of, Report, RefusedRow, RequeuedRow, refusal, count_in, empty_report}
use saipal.Requeue.Passes.{outcome_of-IsSound, IsSound, note_taken_dry, note_taken_wet}

abbrev dry : Request → Request
dry q = record q { applies = false }

abbrev wet : Request → Request
wet q = record q { applies = true }

-- A row of a requeued job without the number of its requeues, which a dry run shows before and the
-- other pass after this one.
pub record RowName : Type 0 where
  pub job_id : String
  pub session_id : String
  pub error_class : String
  pub reason : Reason

abbrev pub name_row : RequeuedRow → RowName
name_row row = record {
  job_id = row.job_id;
  session_id = row.session_id;
  error_class = row.error_class;
  reason = row.reason;
}

abbrev pub row_names : List RequeuedRow → List RowName
row_names [] = []
row_names (row ∷ rows) = name_row row ∷ row_names rows

row_names-append : (xs ys : List RequeuedRow) → row_names (xs ++ ys) ≡ row_names xs ++ row_names ys
row_names-append [] ys = refl
row_names-append (x ∷ xs) ys = ap (λ l. name_row x ∷ l) (row_names-append xs ys)

length-row_names : (xs : List RequeuedRow) → length (row_names xs) ≡ length xs
length-row_names [] = refl
length-row_names (x ∷ xs) = ap suc (length-row_names xs)

-- A report without the counts of its requeued rows and without their history.
pub record Outline : Type 0 where
  pub scanned : ℕ
  pub eligible : ℕ
  pub requeued : List RowName
  pub refused_rows : List RefusedRow
  pub not_applicable_counts : Dict String ℕ
  pub by_class : Dict String ℕ
  pub remaining : ℕ

abbrev pub outline : Report → Outline
outline r = record {
  scanned = r.scanned;
  eligible = r.eligible;
  requeued = row_names r.requeued_rows;
  refused_rows = r.refused_rows;
  not_applicable_counts = r.not_applicable_counts;
  by_class = r.by_class;
  remaining = r.remaining;
}

abbrev one_scanned : Outline → Outline
one_scanned o = record o { scanned = o.scanned + 1 }

abbrev one_eligible : Job → Outline → Outline
one_eligible job o = record o {
  scanned = o.scanned + 1;
  eligible = o.eligible + 1;
  by_class = count_in (class_of job) o.by_class;
}

abbrev one_requeued : Job → Outline → List RowName → Outline
one_requeued job o names = record (one_eligible job o) { requeued = names }

named_alike :
    (job after : Job) (error_class : String) (reason : Reason)
    → after.job_id ≡ job.job_id
    → after.session_id ≡ job.session_id
    → name_row (row_of after error_class reason) ≡ name_row (row_of job error_class reason)
unfolding row_of
named_alike job after error_class reason id session = λ i. record {
  job_id = id i;
  session_id = session i;
  error_class = error_class;
  reason = reason;
}

taken_alike :
    (reason : Reason) (r s : Report) (job after : Job)
    → after.job_id ≡ job.job_id
    → after.session_id ≡ job.session_id
    → outline r ≡ outline s
    → one_requeued job
        (outline r)
        (row_names (r.requeued_rows ++ (row_of job (class_of job) reason ∷ [])))
      ≡ one_requeued job
          (outline s)
          (row_names (s.requeued_rows ++ (row_of after (class_of job) reason ∷ [])))
taken_alike reason r s job after id session a =
    let row : RowName = name_row (row_of job (class_of job) reason) in
    let same = named_alike job after (class_of job) reason id session in
    ap (one_requeued job (outline r))
      (row_names-append r.requeued_rows (row_of job (class_of job) reason ∷ []))
    ∙ ap (λ o. one_requeued job o (o.requeued ++ (row ∷ []))) a
    ∙ sym (
        ap (one_requeued job (outline s)) (
          row_names-append s.requeued_rows (row_of after (class_of job) reason ∷ [])
          ∙ ap (λ n. row_names s.requeued_rows ++ (n ∷ [])) same))

-- Both ways through the loop's body, from reports with one outline.
plan_as_agrees :
    (q : Request) (o : Outcome) (r s : Report) (job : Job)
    → IsSound q r job o
    → outline r ≡ outline s
    → (r' : Report) × (s' : Report) × (job' : Job) × (plan_as (dry q) o (scan_job r) job
        ≡ ok (r', job))
      × (plan_as (wet q) o (scan_job s) job ≡ ok (s', job'))
      × (outline r' ≡ outline s')
unfolding plan_as
plan_as_agrees q (left_alone key) r s job sound a = (
  _,
  _,
  _,
  refl,
  refl,
  ap (λ o. record (one_scanned o) { not_applicable_counts = count_in key o.not_applicable_counts })
      a,
)
plan_as_agrees q (off_path reason) r s job sound a = (
  _,
  _,
  _,
  refl,
  refl,
  ap (λ o. record (one_scanned o) { refused_rows = o.refused_rows ++ (refusal job reason ∷ []) }) a,
)
plan_as_agrees q (declined reason) r s job sound a = (
  _,
  _,
  _,
  refl,
  refl,
  ap
      (λ o. record (one_eligible job o) {
        refused_rows = o.refused_rows ++ (refusal job reason ∷ []);
      })
      a,
)
plan_as_agrees q beyond_limit r s job sound a =
    (_, _, _, refl, refl, ap (λ o. record (one_eligible job o) { remaining = o.remaining + 1 }) a)
plan_as_agrees q (taken reason) r s job (stage, room) a =
    let (after, applied, fresh) = apply_fresh 0 q.clock q.order job stage in
    (
      _,
      _,
      _,
      note_taken_dry (dry q) reason (find_eligible job (scan_job r)) job refl,
      note_taken_wet (wet q) reason (find_eligible job (scan_job s)) job after refl applied,
      taken_alike reason r s job after (fresh.same_identity.0) (fresh.same_unit.0) a,
    )

same_outcome :
    (b : Bool) (q : Request) (n : ℕ) (job : Job)
    → outcome_of (record q { applies = b }) n job ≡ outcome_of q n job
unfolding outcome_of
same_outcome b q n job = refl

plan_one_agrees :
    (q : Request) (r s : Report) (job : Job)
    → outline r ≡ outline s
    → (r' : Report) × (s' : Report) × (job' : Job) × (plan_one (dry q) r job ≡ ok (r', job))
      × (plan_one (wet q) s job ≡ ok (s', job'))
      × (outline r' ≡ outline s')
unfolding plan_one
plan_one_agrees q r s job a =
    let count : length r.requeued_rows ≡ length s.requeued_rows =
      sym (length-row_names r.requeued_rows)
      ∙ ap (λ (o : Outline). length o.requeued) a
      ∙ length-row_names s.requeued_rows in
    let o = outcome_of q (length r.requeued_rows) job in
    let (r1, s1, job', one, one', b) = plan_as_agrees q o r s job (outcome_of-IsSound q r job) a in
    (
      r1,
      s1,
      job',
      ap (λ z. plan_as (dry q) z (scan_job r) job) (same_outcome false q _ job) ∙ one,
      ap (λ z. plan_as (wet q) z (scan_job s) job)
            (same_outcome true q _ job ∙ ap (λ n. outcome_of q n job) (sym count))
          ∙ one',
      b,
    )

plan_all_agrees :
    (q : Request) (r s : Report) (jobs : Dict String Job)
    → outline r ≡ outline s
    → (r' : Report) × (s' : Report) × (jobs' : Dict String Job) × (plan_all (dry q) r jobs
        ≡ ok (r', jobs))
      × (plan_all (wet q) s jobs ≡ ok (s', jobs'))
      × (outline r' ≡ outline s')
unfolding plan_all
plan_all_agrees q r s [] a = (r, s, [], refl, refl, a)
plan_all_agrees q r s ((id, job) ∷ rest) a =
    let (r1, s1, job', one, one', b) = plan_one_agrees q r s job a in
    let (r2, s2, rest', more, more', c) = plan_all_agrees q r1 s1 rest b in
    (r2, s2, (id, job') ∷ rest', rw (one, more) refl, rw (one', more') refl, c)

-- The dry run of a request and the pass that applies it, both over one journal and under the lock,
-- agree on all counts, on the classes, on the refused rows, and on the requeued rows in their order
-- (job, session, class and reason; not the number of requeues, which each takes at its own time).
-- The dry run saves nothing, and the other pass saves the journal exactly if a job is requeued.
pub dry_run_agrees :
    (locked : Bool) (q : Request) (journal : Dict String Job)
    → (forecast : Report) × (p : Pass) × (requeue true locked q journal
        ≡ ok (record { report = forecast; saved = none }))
      × (requeue false true q journal ≡ ok p)
      × (outline forecast ≡ outline p.report)
      × ((p.saved ≡ none) ↔ (length p.report.requeued_rows ≡ 0))
unfolding requeue plan
dry_run_agrees locked q journal =
    let (r, s, jobs, dry_ok, wet_ok, a) =
      plan_all_agrees q empty_report empty_report (sorted_jobs journal) refl in
    (
      r,
      record {
        report = s;
        saved = if has_rows s.requeued_rows then some (write_back jobs journal) else none;
      },
      rw dry_ok refl,
      rw wet_ok refl,
      a,
      saved_iff s.requeued_rows (write_back jobs journal),
    )
  where
    saved_iff :
        (rows : List RequeuedRow) (d : Dict String Job)
        → ((if has_rows rows then some d else none) ≡ none) ↔ (length rows ≡ 0)
    saved_iff [] d = ((λ _. refl), (λ _. refl))
    saved_iff (_ ∷ rows) d = ((λ e. absurd (cc e)), (λ e. absurd (omega arith)))
