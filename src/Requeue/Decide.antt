-- ===== src/Requeue/Decide.antt =====
-- The decision on one job (`max_requeues_per_unit`, `OTHER_STAGES`, `_decide` of
-- tools/saipal_analyst/requeue.py), and when it admits one.
use saipal.Base.{
  ℕ, ◌<◌, ◌≡◌, ◌↔◌, ◌⊎◌, Bool, true, false, not, ◌&&◌, Option, none, some, ◌==◌, string_eq, leb,
  length, last?, if◌then◌else◌, Result, ok, err, validation_failed, arith,
}
use saipal.Jobs.Stage.{
  Stage, blocked, blocked_binding, stale, remote_outcome_unknown, Stage-discrete, stage_eq,
}
use saipal.Jobs.Job.{Job, Material, RequeueEntry}

-- `budgets.max_requeues_per_unit` of the configuration: absent, a count, or anything else.
pub data Setting : Type 0 where
  absent : Setting
  count : ℕ → Setting
  malformed : Setting

abbrev pub default_max_requeues : ℕ
default_max_requeues = 1

unfoldable pub max_requeues_per_unit : Setting → Result ℕ
max_requeues_per_unit absent = ok default_max_requeues
max_requeues_per_unit (count n) = ok n
max_requeues_per_unit malformed = err validation_failed

-- The texts that explain a decision.
pub data Reason : Type 0 where
  other_path : Stage → Reason
  not_a_refusal : Stage → Reason
  budget_spent : ℕ → Reason
  no_material_change : Reason
  one_fresh_attempt : Reason
  not_indexed : Reason

pub data Verdict : Type 0 where
  requeued refused not_applicable : Verdict

-- `stage in OTHER_STAGES`
unfoldable pub has_other_path : Stage → Bool
has_other_path blocked_binding = true
has_other_path remote_outcome_unknown = true
has_other_path stale = true
has_other_path _ = false

-- `==` on what `material_identity` returns.
abbrev pub same_material : Material → Material → Bool
same_material m n =
    m.config_digest == n.config_digest && m.backend_type == n.backend_type && m.model == n.model

-- `history and history[-1]["material"] == material`
abbrev pub is_last_material : Material → Option RequeueEntry → Bool
is_last_material m none = false
is_last_material m (some entry) = same_material entry.material m

-- The decision, if it is known whether the material is that of the last requeue.
unfoldable pub decide_by : Job → Bool → ℕ → Bool → Verdict × Reason
unfolding has_other_path Stage-discrete
decide_by job same max_requeues force =
    if not (job.stage == blocked)
    then (if has_other_path job.stage
        then (refused, other_path job.stage)
        else (not_applicable, not_a_refusal job.stage))
    else if leb max_requeues (length job.requeues) && not force
    then (refused, budget_spent max_requeues)
    else if not force && same
    then (refused, no_material_change)
    else (requeued, one_fresh_attempt)

unfoldable pub decide : Job → Material → ℕ → Bool → Verdict × Reason
unfolding decide_by
decide job material max_requeues force =
    decide_by job (is_last_material material (last? job.requeues)) max_requeues force

-- What an operator pays for: a blocked job, and either the force flag, or an allowance that is left
-- and, after an earlier requeue, another material.
abbrev pub IsAdmissible : Job → Material → ℕ → Bool → Type 0
IsAdmissible job material max_requeues force =
    (job.stage ≡ blocked)
    × ((force ≡ true)
        ⊎ ((length job.requeues < max_requeues)
            × (is_last_material material (last? job.requeues) ≡ false)))

-- The decision admits exactly the jobs that are blocked and that are either forced, or below the
-- allowance and, if they were requeued before, under another material than the last time.
pub decide-requeued :
    (job : Job) (material : Material) (max_requeues : ℕ) (force : Bool)
    → ((decide job material max_requeues force).0 ≡ requeued)
      ↔ IsAdmissible job material max_requeues force
unfolding decide
decide-requeued job material max_requeues force = ground (arith, stage_eq.beq_iff job.stage blocked)
