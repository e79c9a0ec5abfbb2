-- ===== src/Jobs/Compaction.antt =====
-- Tombstones of settled jobs (`done_provenance_ready`, `compact_done_job`, `compact_done_jobs` of
-- tools/saipal_analyst/jobs.py). The clock's text is an argument.
use saipal.Base.{
  ℕ, ◌+◌, ◌≡◌, refl, ◌⊎◌, inl, inr, Bool, true, false, not, ◌&&◌, Option, none, some, List, [], ◌∷◌,
  String, ◌==◌, string_eq, contains, is_none, if◌then◌else◌, arith, Bool-cases,
}
use saipal.Base.Dict.{Dict, lookup}
use saipal.Jobs.Stage.{done, Stage-discrete, stage_eq}
use saipal.Jobs.Job.{Job, has_text}

-- `str(receipt_id) in provenance_receipts`, or no set of receipts is given.
abbrev pub is_receipted : Option String → Option (List String) → Bool
is_receipted none receipts = false
is_receipted (some id) none = true
is_receipted (some id) (some receipts) = contains receipts id

unfoldable pub done_provenance_ready : Job → Option (List String) → Bool
unfolding Stage-discrete
done_provenance_ready job receipts =
    job.stage == done && has_text job.receipt_id && is_receipted job.receipt_id receipts

-- No field of `DONE_PAYLOAD_FIELDS` is set.
unfoldable pub is_bare : Job → Bool
is_bare job =
    is_none job.response_text
    && is_none job.investigator_repair_text
    && is_none job.critic_payload
    && is_none job.critic_response_text
    && is_none job.critic_repair_text
    && is_none job.finalizer_response_text
    && is_none job.finalizer_repair_text
    && is_none job.candidate

abbrev pub drop_payload : Job → Job
drop_payload job = record job {
  response_text = none;
  investigator_repair_text = none;
  critic_payload = none;
  critic_response_text = none;
  critic_repair_text = none;
  finalizer_response_text = none;
  finalizer_repair_text = none;
  candidate = none;
}

unfoldable pub compact_done_job : String → Job → Job
unfolding is_bare Stage-discrete
compact_done_job now job =
    if not (job.stage == done)
    then job
    else if is_bare job
    then job
    else record (drop_payload job) { updated_at = now }

-- The job after the loop's body, and whether it is counted.
unfoldable pub compact_one : String → Option (List String) → Job → Job × Bool
unfolding done_provenance_ready compact_done_job
compact_one now receipts job =
    if not (done_provenance_ready job receipts)
    then (job, false)
    else let job' = compact_done_job now job in (job', not (is_bare job) && is_bare job')

-- The jobs and how many are newly compacted; the journal is saved if the number is not zero.
unfoldable pub compact_done_jobs :
    String → Option (List String) → Dict String Job → Dict String Job × ℕ
unfolding compact_one
compact_done_jobs now receipts [] = ([], 0)
compact_done_jobs now receipts ((id, job) ∷ rest) =
    let (job', counted) = compact_one now receipts job in
    let (rest', n) = compact_done_jobs now receipts rest in
    ((id, job') ∷ rest', (if counted then n + 1 else n))

-- What the tombstone keeps: all but the payload and the time stamp.
abbrev pub SameFacts : Job → Job → Type 0
SameFacts before after =
    record (drop_payload before) { updated_at = "" }
    ≡ record (drop_payload after) { updated_at = "" }

abbrev tombstone : String → Job → Job
tombstone now job = record (drop_payload job) { updated_at = now }

compact_one_open :
    (now : String) (receipts : Option (List String)) (job : Job)
    → done_provenance_ready job receipts ≡ false
    → compact_one now receipts job ≡ (job, false)
unfolding compact_one
compact_one_open now receipts job e = rw e refl

compact_one_bare :
    (now : String) (receipts : Option (List String)) (job : Job)
    → done_provenance_ready job receipts ≡ true
    → is_bare job ≡ true
    → compact_one now receipts job ≡ (job, false)
unfolding compact_one
compact_one_bare now receipts job e bare = elim (Bool-cases (job.stage == done)) [
  | inl settled ↦ rw (e, settled, bare) refl
  | inr other ↦ rw (e, other, bare) refl
]

compact_one_full :
    (now : String) (receipts : Option (List String)) (job : Job)
    → done_provenance_ready job receipts ≡ true
    → is_bare job ≡ false
    → compact_one now receipts job ≡ (tombstone now job, true)
unfolding compact_one
compact_one_full now receipts job e full = rw (e, settled, full) refl
  where
    settled : (job.stage == done) ≡ true
    settled = ground (arith)

-- What a run makes of a job: the same facts, and no payload if its receipt and provenance are
-- durable, or no change if they are not.
abbrev pub IsCompacted : Option (List String) → Job → Job → Type 0
IsCompacted receipts job job' =
    SameFacts job job'
    × (((done_provenance_ready job receipts ≡ true) × (is_bare job' ≡ true))
        ⊎ ((done_provenance_ready job receipts ≡ false) × (job' ≡ job)))

compact_one_lem :
    (now later : String) (receipts : Option (List String)) (job : Job)
    → let once = (compact_one now receipts job).0 in
      IsCompacted receipts job once × (compact_one later receipts once ≡ (once, false))
compact_one_lem now later receipts job = elim (Bool-cases (done_provenance_ready job receipts)) [
  | inr open_ ↦
      rw (compact_one_open now receipts job open_)
        ((refl, inr (open_, refl)), compact_one_open later receipts job open_)
  | inl settled ↦ elim (Bool-cases (is_bare job)) [
    | inl bare ↦
        rw (compact_one_bare now receipts job settled bare)
          ((refl, inl (settled, bare)), compact_one_bare later receipts job settled bare)
    | inr full ↦ rw (compact_one_full now receipts job settled full) (
      (refl, inl (settled, bare_tombstone)),
      compact_one_bare later receipts (tombstone now job) (same_ready settled) bare_tombstone,
    )
  ]
]
  where
    bare_tombstone : is_bare (tombstone now job) ≡ true
    bare_tombstone = unfold is_bare in refl

    same_ready :
        done_provenance_ready job receipts ≡ true
        → done_provenance_ready (tombstone now job) receipts ≡ true
    same_ready e = unfold done_provenance_ready in e

-- Compaction is idempotent: a second run, at any time, changes nothing and counts nothing.
pub compact_done_jobs_idem :
    (now later : String) (receipts : Option (List String)) (jobs : Dict String Job)
    → let once = (compact_done_jobs now receipts jobs).0 in
      compact_done_jobs later receipts once ≡ (once, 0)
unfolding compact_done_jobs
compact_done_jobs_idem now later receipts [] = refl
compact_done_jobs_idem now later receipts ((id, job) ∷ rest) =
    rw ((compact_one_lem now later receipts job).1, compact_done_jobs_idem now later receipts rest)
      refl

-- Compaction keeps every job under its id, with all its facts but the time stamp and the payload. A
-- job whose receipt and provenance are durable has no payload left, and every other job is as it
-- was.
pub compact_done_jobs_keeps :
    (now : String) (receipts : Option (List String)) (jobs : Dict String Job) (x : String)
    (job : Job)
    → lookup x jobs ≡ some job
    → (job' : Job) × (lookup x (compact_done_jobs now receipts jobs).0 ≡ some job')
      × IsCompacted receipts job job'
unfolding compact_done_jobs
compact_done_jobs_keeps now receipts [] x job h = absurd (none_ne h)
  where
    none_ne : {j : Job} → none ≡ some j → ⊥
    none_ne e = cc
compact_done_jobs_keeps now receipts ((id, j) ∷ rest) x job h = elim (Bool-cases (x == id)) [
  | inl same ↦ (
    (compact_one now receipts j).0,
    rw same refl,
    rw (← value (rw same at h)) ((compact_one_lem now now receipts j).0),
  )
  | inr other ↦ rw other (compact_done_jobs_keeps now receipts rest x job (rw other at h))
]
  where
    value : {a b : Job} → some a ≡ some b → a ≡ b
    value e = cc
