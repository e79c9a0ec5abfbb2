-- ===== src/Requeue/Passes.antt =====
-- One step and one run of the loop of `_plan` (tools/saipal_analyst/requeue.py).
use saipal.Base.{
  ℕ, ◌+◌, ◌≤◌, ◌<◌, ◌≡◌, refl, ◌⊎◌, inl, inr, true, false, some, List, [], ◌∷◌, ◌++◌, String, ◌==◌,
  string_eq, leb, length, length-append, ok, arith, Bool-cases,
}
use saipal.Base.Dict.{Dict, lookup, insert}
use saipal.Jobs.Stage.{blocked, stage_eq}
use saipal.Jobs.Job.{Job, RequeueEntry}
use saipal.Requeue.Decide.{Reason}
use saipal.Requeue.Apply.{entry_of, apply, apply_fresh}
use saipal.Requeue.Plan.{
  Request, Outcome, left_alone, off_path, declined, beyond_limit, taken, outcome_of, plan_as,
  plan_one, plan_all, scan_job, find_eligible, class_of, is_full, note_taken,
}
use saipal.Requeue.Report.{Report, count_in, count_of, RequeuedRow, row_of}

-- The sum of a dict's counts.
abbrev pub total : Dict String ℕ → ℕ
total [] = 0
total ((_, n) ∷ d) = n + total d

total-insert :
    (k : String) (n : ℕ) (d : Dict String ℕ)
    → total (insert k n d) + count_of (lookup k d) ≡ total d + n
total-insert k n [] = omega arith
total-insert k n ((j, m) ∷ d) = elim (Bool-cases (k == j)) [
  | inl same ↦ rw same (omega arith)
  | inr other ↦ rw other (omega (arith, total-insert k n d))
]

total-count_in : (k : String) (d : Dict String ℕ) → total (count_in k d) ≡ total d + 1
total-count_in k d = omega (arith, total-insert k (count_of (lookup k d) + 1) d)

-- Every place where a report puts a job.
abbrev pub weigh : Report → ℕ
weigh r =
    length r.requeued_rows + length r.refused_rows + total r.not_applicable_counts + r.remaining

-- One more job: it is counted once, and it is the job that was there, or its requeue.
pub record IsStep (q : Request) (r : Report) (job : Job) (r' : Report) (job' : Job) : Type 0 where
  pub scanned : r'.scanned ≡ r.scanned + 1
  pub weighed : weigh r' ≡ weigh r + 1
  pub within :
      (length r'.requeued_rows ≡ length r.requeued_rows)
      ⊎ ((length r'.requeued_rows ≡ length r.requeued_rows + 1)
          × (is_full q.limit (length r.requeued_rows) ≡ false))
  pub kept :
      (job' ≡ job)
      ⊎ ((q.applies ≡ true) × (job.stage ≡ blocked) × (apply q.clock q.order job ≡ ok job'))

-- An outcome that takes a job was within the limit, and the job is blocked.
abbrev pub IsSound : Request → Report → Job → Outcome → Type 0
IsSound q r job (taken reason) =
    (job.stage ≡ blocked) × (is_full q.limit (length r.requeued_rows) ≡ false)
IsSound q r job _ = Unit

pub outcome_of-IsSound :
    (q : Request) (r : Report) (job : Job)
    → IsSound q r job (outcome_of q (length r.requeued_rows) job)
unfolding outcome_of
outcome_of-IsSound q r job = ground (arith, stage_eq.beq_iff job.stage blocked)

-- The report with one more row.
abbrev pub with_row : RequeuedRow → List RequeueEntry → Report → Report
with_row row entries r = record r {
  requeued_rows = r.requeued_rows ++ (row ∷ []);
  history = r.history ++ entries;
}

pub note_taken_dry :
    (q : Request) (reason : Reason) (r : Report) (job : Job)
    → q.applies ≡ false
    → note_taken q reason r job
      ≡ ok (
        record r { requeued_rows = r.requeued_rows ++ (row_of job (class_of job) reason ∷ []) },
        job,
      )
unfolding note_taken
note_taken_dry q reason r job dry = rw dry refl

pub note_taken_wet :
    (q : Request) (reason : Reason) (r : Report) (job after : Job)
    → q.applies ≡ true
    → apply q.clock q.order job ≡ ok after
    → note_taken q reason r job
      ≡ ok (with_row (row_of after (class_of job) reason) (entry_of q.order job ∷ []) r, after)
unfolding note_taken
note_taken_wet q reason r job after wet applied = rw (wet, applied) refl

plan_as-IsStep :
    (q : Request) (o : Outcome) (r : Report) (job : Job)
    → IsSound q r job o
    → (r' : Report) × (job' : Job) × (plan_as q o (scan_job r) job ≡ ok (r', job'))
      × IsStep q r job r' job'
unfolding plan_as
plan_as-IsStep q (left_alone key) r job sound = (
  _,
  _,
  refl,
  record {
    scanned = refl;
    weighed = omega (arith, total-count_in key r.not_applicable_counts);
    within = inl refl;
    kept = inl refl;
  },
)
plan_as-IsStep q (off_path reason) r job sound = (
  _,
  _,
  refl,
  record {
    scanned = refl;
    weighed = omega (arith, length-append r.refused_rows (_ ∷ []));
    within = inl refl;
    kept = inl refl;
  },
)
plan_as-IsStep q (declined reason) r job sound = (
  _,
  _,
  refl,
  record {
    scanned = refl;
    weighed = omega (arith, length-append r.refused_rows (_ ∷ []));
    within = inl refl;
    kept = inl refl;
  },
)
plan_as-IsStep q beyond_limit r job sound = (
  _,
  _,
  refl,
  record { scanned = refl; weighed = omega arith; within = inl refl; kept = inl refl },
)
plan_as-IsStep q (taken reason) r job (stage, room) = elim (Bool-cases q.applies) [
  | inr dry ↦ (
    _,
    _,
    note_taken_dry q reason (find_eligible job (scan_job r)) job dry,
    record {
      scanned = refl;
      weighed = omega (arith, length-append r.requeued_rows (_ ∷ []));
      within = inr (length-append r.requeued_rows (_ ∷ []), room);
      kept = inl refl;
    },
  )
  | inl wet ↦
      let (after, applied, _) = apply_fresh 0 q.clock q.order job stage in
      (
        _,
        after,
        note_taken_wet q reason (find_eligible job (scan_job r)) job after wet applied,
        record {
          scanned = refl;
          weighed = omega (arith, length-append r.requeued_rows (_ ∷ []));
          within = inr (length-append r.requeued_rows (_ ∷ []), room);
          kept = inr (wet, stage, applied);
        },
      )
]

-- The body of the loop never fails, and is a step.
pub plan_one-IsStep :
    (q : Request) (r : Report) (job : Job)
    → (r' : Report) × (job' : Job) × (plan_one q r job ≡ ok (r', job')) × IsStep q r job r' job'
unfolding plan_one
plan_one-IsStep q r job = plan_as-IsStep q _ r job (outcome_of-IsSound q r job)

-- What a run of the loop over `n` jobs adds.
pub record IsRun (q : Request) (r r' : Report) (n : ℕ) : Type 0 where
  pub scanned : r'.scanned ≡ r.scanned + n
  pub weighed : weigh r' ≡ weigh r + n
  pub within :
      (limit : ℕ)
      → q.limit ≡ some limit
      → length r.requeued_rows ≤ limit
      → length r'.requeued_rows ≤ limit

-- The jobs after a run: each is as it was, or a blocked one requeued by a pass that applies.
abbrev pub Touched : Request → Dict String Job → Dict String Job → Type 0
Touched q [] [] = Unit
Touched q ((id, job) ∷ jobs) ((id', job') ∷ jobs') =
    (id' ≡ id)
    × ((job' ≡ job)
        ⊎ ((q.applies ≡ true) × (job.stage ≡ blocked) × (apply q.clock q.order job ≡ ok job')))
    × Touched q jobs jobs'
Touched q _ _ = ⊥

pub plan_all-IsRun :
    (q : Request) (r : Report) (jobs : Dict String Job)
    → (r' : Report) × (jobs' : Dict String Job) × (plan_all q r jobs ≡ ok (r', jobs'))
      × IsRun q r r' (length jobs)
      × Touched q jobs jobs'
unfolding plan_all
plan_all-IsRun q r [] =
    (r, [], refl, record { scanned = omega arith; weighed = omega arith; within = λ l e h. h }, tt)
plan_all-IsRun q r ((id, job) ∷ rest) =
    let (r1, job', one, step) = plan_one-IsStep q r job in
    let (r2, rest', more, run, touched) = plan_all-IsRun q r1 rest in
    (
      r2,
      (id, job') ∷ rest',
      rw (one, more) refl,
      record {
        scanned = omega (arith, step.scanned, run.scanned);
        weighed = omega (arith, step.weighed, run.weighed);
        within = λ limit e h. run.within limit e (stays_within limit e h step.within);
      },
      (refl, step.kept, touched),
    )
  where
    stays_within :
        {n m : ℕ} (limit : ℕ)
        → q.limit ≡ some limit
        → n ≤ limit
        → (m ≡ n) ⊎ ((m ≡ n + 1) × (is_full q.limit n ≡ false))
        → m ≤ limit
    stays_within limit e h (inl same) = omega arith
    stays_within limit e h (inr (one, room)) = omega (arith, below limit _ (rw e at room))
      where
        below : (l n : ℕ) → leb l n ≡ false → n < l
        below l n small = ground arith
