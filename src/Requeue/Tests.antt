-- ===== src/Requeue/Tests.antt =====
-- Runs of the requeue and its theorems at concrete journals.
use saipal.Base.{
  ℕ, ◌+◌, ◌≤◌, ◌≡◌, refl, true, false, none, some, [], ◌∷◌, String, ok, err, arith, length, ◌↔◌,
  ◌⊎◌, writer_busy, string_eq,
}
use saipal.Base.Dict.{Dict, lookup}
use saipal.Jobs.Stage.{blocked, stale, done, Stage-discrete, may_go}
use saipal.Jobs.Job.{Job, Material, Hashing, new_job}
use saipal.Requeue.Decide.{decide, requeued}
use saipal.Requeue.Apply.{Order, apply, apply_fresh, IsFresh, excerpt, max_history}
use saipal.Requeue.Allowance.{Life, born, requeued_again, allowance_holds, allowance_never_spent}
use saipal.Requeue.Plan.{Request, Pass, plan, requeue, sorted_jobs}
use saipal.Requeue.Report.{Report}
use saipal.Requeue.Passes.{total}
use saipal.Requeue.Accounts.{plan_accounts, plan_touches, Requeued}
use saipal.Requeue.Forecast.{dry_run_agrees, outline}

abbrev tag : Hashing
tag = record { decimal = λ n. "1"; sha256_32 = λ s. "c0ffee" }

refused_job : Job
unfolding new_job
refused_job =
    record (new_job tag "t0" (record {
      session_id = "ses";
      episode_index = 1;
      slice_index = 0;
      unit_digest = "d1";
      finality = "FINAL";
      backend_type = "openai_compatible";
      model = "m";
      run_id = "run";
    })) {
      stage = blocked;
      attempts = 1;
      response_text = some "not json";
      error_class = some "BLOCKED_OUTPUT";
      attempt_ids = ("investigator", "a1") ∷ [];
    }

abbrev material : Material
material = record { config_digest = "c1"; backend_type = "openai_compatible"; model = "m2" }

abbrev order : Order
order = record { material = material; note = some "other model"; forced = false; at = "t9" }

abbrev journal : Dict String Job
journal =
    ("j2", refused_job)
    ∷ ("j1", record refused_job { stage = done })
    ∷ ("j3", record refused_job { stage = stale })
    ∷ []

abbrev request : Request
request = record {
  order = order;
  max_requeues = 1;
  indexed = some ("ses" ∷ []);
  wanted = none;
  limit = some 5;
  applies = true;
  clock = "t8";
}

sorted_ids :
    sorted_jobs journal
    ≡ ("j1", record refused_job { stage = done })
      ∷ ("j2", refused_job)
      ∷ ("j3", record refused_job { stage = stale })
      ∷ []
unfolding sorted_jobs
sorted_ids = refl

locked_out : requeue false false request journal ≡ err writer_busy
unfolding requeue
locked_out = refl

short_text : excerpt (some "boom") ≡ some "boom"
unfolding excerpt
short_text = refl

no_text : excerpt (some "") ≡ none
unfolding excerpt
no_text = refl

refused_stage : refused_job.stage ≡ blocked
unfolding refused_job
refused_stage = refl

first_decision : (decide refused_job material 1 false).0 ≡ requeued
unfolding decide refused_job Stage-discrete
first_decision = refl

again :
    (after : Job) × (apply "t8" order refused_job ≡ ok after) × IsFresh 7 order refused_job after
again = apply_fresh 7 "t8" order refused_job refused_stage

requeued_once : Life 1 refused_job again.0 1
requeued_once = requeued_again "t8" order born first_decision again.1

allowance_holds_example : (1 ≤ 1) × (length again.0.requeues ≡ 1)
allowance_holds_example =
    allowance_holds 1 refused_job 1 (again.0) (omega arith) (unfold refused_job in refl)
      requeued_once

allowance_never_spent_example :
    (job : Job) × Life 9 refused_job job 100
    × (job.stage ≡ blocked)
    × (length job.requeues ≤ max_history)
allowance_never_spent_example =
    allowance_never_spent 9 100 refused_job (omega arith) (unfold refused_job in refl)
      (unfold refused_job in omega arith)

plan_accounts_example :
    (r : Report) × (after : Dict String Job) × (plan request journal ≡ ok (r, after))
    × (r.scanned ≡ 3)
    × (length r.requeued_rows + length r.refused_rows + total r.not_applicable_counts + r.remaining
        ≡ 3)
    × ((limit : ℕ) → some 5 ≡ some limit → length r.requeued_rows ≤ limit)
plan_accounts_example = plan_accounts request journal

plan_touches_example :
    (before : Job) × (lookup "j1" journal ≡ some before)
    × ((record refused_job { stage = done } ≡ before)
        ⊎ Requeued request before (record refused_job { stage = done }))
unfolding plan apply refused_job decide may_go
plan_touches_example = plan_touches request journal "j1" (refl, (refl, (refl, tt))) refl refl

dry_run_agrees_example :
    (forecast : Report) × (p : Pass) × (requeue true false request journal
      ≡ ok (record { report = forecast; saved = none }))
    × (requeue false true request journal ≡ ok p)
    × (outline forecast ≡ outline p.report)
    × ((p.saved ≡ none) ↔ (length p.report.requeued_rows ≡ 0))
dry_run_agrees_example = dry_run_agrees false request journal
