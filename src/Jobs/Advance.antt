-- ===== src/Jobs/Advance.antt =====
-- One move of a job (`advance` of tools/saipal_analyst/jobs.py). The clock's text is an argument.
use saipal.Base.{
  ◌≡◌, ap, ◌∙◌, true, String, ◌==◌, if◌then◌else◌, Result, ok, err, validation_failed, Bool-cases,
  inl, inr, ◌⊎◌,
}
use saipal.Jobs.Stage.{Stage, stage_eq, may_go}
use saipal.Jobs.Job.{Job}

unfoldable pub advance : String → Job → Stage → Result Job
advance now job to =
    if job.stage == to
    then ok job
    else if may_go job.stage to
    then ok (record job { stage = to; updated_at = now })
    else err validation_failed

-- One move, read backwards.
pub advance_inv :
    (now : String) (job : Job) (to : Stage) {j : Job}
    → advance now job to ≡ ok j
    → ((job.stage ≡ to) × (j ≡ job))
      ⊎ ((may_go job.stage to ≡ true) × (j ≡ record job { stage = to; updated_at = now }))
unfolding advance
advance_inv now job to h = elim (Bool-cases (job.stage == to)) [
  | inl same ↦ inl ((stage_eq.beq_iff job.stage to).0 same, cc (rw same at h))
  | inr other ↦ elim (Bool-cases (may_go job.stage to)) [
    | inl legal ↦ inr (legal, cc (rw (other, legal) at h))
    | inr illegal ↦ absurd (err_ne (rw (other, illegal) at h))
  ]
]
  where
    err_ne : {a : Job} → err validation_failed ≡ ok a → ⊥
    err_ne e = cc

pub advance-stage :
    (now : String) (job : Job) (to : Stage) {j : Job} → advance now job to ≡ ok j → j.stage ≡ to
advance-stage now job to h = elim (advance_inv now job to h) [
  | inl (same, stays) ↦ ap (λ (x : Job). x.stage) stays ∙ same
  | inr (legal, stepped) ↦ ap (λ (x : Job). x.stage) stepped
]
