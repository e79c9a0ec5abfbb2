-- ===== src/Requeue/Allowance.antt =====
-- How often one unit can be requeued without force (`_decide` and `_apply` of
-- tools/saipal_analyst/requeue.py).
use saipal.Base.{
  ℕ, zero, suc, ◌+◌, ◌≤◌, ◌<◌, ◌≡◌, refl, ◌∙◌, ap, inl, inr, false, Option, none, some, [], String,
  length, ok, arith, min, last?, Result, if◌then◌else◌, eq_iff,
}
use saipal.Jobs.Stage.{blocked}
use saipal.Jobs.Job.{Job, Material, RequeueEntry}
use saipal.Requeue.Decide.{decide, requeued, decide-requeued, is_last_material}
use saipal.Requeue.Apply.{Order, apply, apply_fresh, max_history}

-- The life of one unit under an allowance: the worker may do anything to the job but change its
-- history of requeues, and an unforced requeue goes through the decision. The number counts the
-- requeues.
pub data Life (max_requeues : ℕ) (start : Job) : Job → ℕ → Type 0 where
  born : Life max_requeues start start 0
  worked :
      {job : Job} {n : ℕ} (next : Job)
      → Life max_requeues start job n
      → next.requeues ≡ job.requeues
      → Life max_requeues start next n
  requeued_again :
      {job next : Job} {n : ℕ} (clock : String) (order : Order)
      → Life max_requeues start job n
      → (decide job order.material max_requeues false).0 ≡ requeued
      → apply clock order job ≡ ok next
      → Life max_requeues start next (suc n)

requeue_grows :
    (max_requeues : ℕ) (job next : Job) (clock : String) (order : Order)
    → (decide job order.material max_requeues false).0 ≡ requeued
    → apply clock order job ≡ ok next
    → (length job.requeues < max_requeues)
      × (length next.requeues ≡ min max_history (length job.requeues + 1))
requeue_grows max_requeues job next clock order admitted done =
    let (stage, why) = (decide-requeued job order.material max_requeues false).0 admitted in
    let (after, applied, fresh) = apply_fresh 0 clock order job stage in
    (
      elim why [ inl forced ↦ absurd (cc forced) | inr (left, _) ↦ left ],
      ap (λ (j : Job). length j.requeues) (same_result done applied) ∙ fresh.history_length,
    )
  where
    same_result : {r : Result Job} {a b : Job} → r ≡ ok a → r ≡ ok b → a ≡ b
    same_result e f = cc

-- With an allowance of at most eight, the unforced requeues of a unit that begins with an empty
-- history never exceed the allowance, whatever the worker does between them.
pub allowance_holds :
    (max_requeues : ℕ) (start : Job) (n : ℕ) (job : Job)
    → max_requeues ≤ max_history
    → start.requeues ≡ []
    → Life max_requeues start job n
    → (n ≤ max_requeues) × (length job.requeues ≡ n)
allowance_holds max_requeues start n job small fresh born = (omega arith, ap length fresh)
allowance_holds max_requeues start n job small fresh (worked next life kept) =
    let (bound, counted) = allowance_holds max_requeues start n _ small fresh life in
    (bound, ap length kept ∙ counted)
allowance_holds max_requeues start n next small fresh
      (requeued_again {job = job} {n = m} clock order life admitted done) =
    let (bound, counted) = allowance_holds max_requeues start m job small fresh life in
    let (left, grown) = requeue_grows max_requeues job next clock order admitted done in
    (omega (arith, left, counted), omega (arith, left, counted, grown))

abbrev first_material : Material
first_material = record { config_digest = "c1"; backend_type = "b"; model = "m" }

abbrev second_material : Material
second_material = record { config_digest = "c2"; backend_type = "b"; model = "m" }

-- A material that the last requeue was not under.
abbrev another_material : Option RequeueEntry → Material
another_material last =
    if is_last_material first_material last then second_material else first_material

another_material_lem :
    (last : Option RequeueEntry) → is_last_material (another_material last) last ≡ false
another_material_lem none = refl
another_material_lem (some entry) = ground (
  arith,
  eq_iff entry.material.config_digest "c1",
  eq_iff entry.material.config_digest "c2",
  eq_iff "c1" "c2",
)

-- With an allowance above eight, the length of the history is no count of the requeues: a blocked
-- unit can be requeued without force any number of times.
pub allowance_never_spent :
    (max_requeues n : ℕ) (start : Job)
    → max_history < max_requeues
    → start.stage ≡ blocked
    → length start.requeues ≤ max_history
    → (job : Job) × Life max_requeues start job n
      × (job.stage ≡ blocked)
      × (length job.requeues ≤ max_history)
allowance_never_spent max_requeues zero start large refused short = (start, born, refused, short)
allowance_never_spent max_requeues (suc n) start large refused short =
    let (job, life, stage, kept) = allowance_never_spent max_requeues n start large refused short in
    let material = another_material (last? job.requeues) in
    let order : Order = record { material = material; note = none; forced = false; at = "" } in
    let admitted =
      (decide-requeued job material max_requeues false).1
        (stage, inr (omega (arith, kept), another_material_lem (last? job.requeues))) in
    let (after, applied, fresh) = apply_fresh 0 "" order job stage in
    (
      record after { stage = blocked },
      worked (record after { stage = blocked }) (requeued_again "" order life admitted applied)
          refl,
      refl,
      omega (arith, fresh.history_length),
    )
