-- ===== src/Drive/Handed.antt =====
-- The submission of the final candidate and the answer of the kernel (`_drive_unit` of
-- tools/saipal_analyst/worker.py).
use saipal.Base.{
  ◌+◌, ◌≡◌, refl, ◌∙◌, sym, ◌⊎◌, inl, inr, Bool, true, false, not, ◌||◌, Option, none, some, String,
  ltb, Bool-cases, ◌==◌, string_eq, validation_failed, err, option_eq, ltb,
}
use saipal.Jobs.Stage.{final_ready, submitting, done, retry_wait, Stage-discrete, stage_eq, may_go}
use saipal.Jobs.Job.{Job, Payload, has_payload}
use saipal.Jobs.Advance.{advance}
use saipal.Jobs.Compaction.{compact_done_job, is_bare}
use saipal.Drive.State.{
  accepted, Refusal, KernelAnswer, receipted, refused, Env, Drive, job_of, stage, persist, edit,
  ◌>>◌,
}
use saipal.Drive.Roles.{the_candidate, unless}
use saipal.Drive.Unit.{
  is_scope, count_refusal, due_later, wait_for_kernel, write_provenance, close_done, take_answer,
  submission_of, seal, call_kernel, submit_final,
}
use saipal.Drive.Rules.{Holds, after-Holds}
use saipal.Drive.Fit.{IsFit-at}
use saipal.Drive.Outcome.{Valid, Sourced, E, At, Over, Linked, Receipted, stage_legal, stage_stay}
use saipal.Drive.Late.{the_candidate-Holds}

pub compacted :
    (now : String) (j : Job)
    → ((compact_done_job now j).stage ≡ j.stage)
      × ((compact_done_job now j).receipt_id ≡ j.receipt_id)
      × (((compact_done_job now j).candidate ≡ j.candidate)
          ⊎ ((compact_done_job now j).candidate ≡ none))
unfolding compact_done_job
compacted now j = elim (Bool-cases (j.stage == done)) [
  | inr other ↦ rw other (refl, refl, inl refl)
  | inl settled ↦ elim (Bool-cases (is_bare j)) [
    | inl bare ↦ rw (settled, bare) (refl, refl, inl refl)
    | inr full_ ↦ rw (settled, full_) (refl, refl, inr refl)
  ]
]

module _ (env : Env) (given : Option Payload)
    (full : (text : String) (v : Payload)
      → env.parse_candidate text ≡ accepted v
      → has_payload (some v) ≡ true) where
  pub compacted-Linked :
      (now id : String) (j : Job)
      → Linked env given id j
      → Linked env given id (compact_done_job now j)
  compacted-Linked now id j h = let (s, r, c) = compacted now j in (s ∙ h.0, r ∙ h.1, kept c)
    where
      kept :
          ((compact_done_job now j).candidate ≡ j.candidate)
            ⊎ ((compact_done_job now j).candidate ≡ none)
          → Sourced env given (compact_done_job now j).candidate
      kept (inl e) p f = h.2 p (sym e ∙ f)
      kept (inr e) p f = absurd (nothing (sym e ∙ f))
        where
          nothing : {x : Payload} → none ≡ some x → ⊥
          nothing g = cc

  pub write_provenance-Holds :
      (id : String) (p : Option Refusal) (d : Drive)
      → Receipted env given id d
      → Holds (λ _ d1. Receipted env given id d1) (E env given) (write_provenance p d)
  write_provenance-Holds id none d h = h
  write_provenance-Holds id (some r) d h = h

  pub tombstone-Holds :
      (id : String) (linked : Bool) (d : Drive)
      → Linked env given id (job_of d)
      → Holds
          (λ _ d1. Linked env given id (job_of d1))
          (E env given)
          (unless (not linked) (do edit (compact_done_job env.now); persist) d)
  tombstone-Holds id true d h = compacted-Linked env.now id (job_of d) h
  tombstone-Holds id false d h = h

  pub close_done-Holds :
      (c : Payload) (id : String) (d : Drive)
      → Valid env given c
      → env.kernel (submission_of c) ≡ receipted id
      → Sourced env given (job_of d).candidate
      → Holds (Over env given) (E env given) (close_done env c id d)
  unfolding close_done
  close_done-Holds c id d v k src =
      after-Holds (λ _ d1. Receipted env given id d1) (Over env given) (E env given)
        (write_provenance env.provenance _) _
        (write_provenance-Holds id env.provenance _ (refl, src))
        (λ linked d1 h.
          after-Holds (λ _ d2. Linked env given id (job_of d2)) (Over env given) (E env given)
            (unless (not linked) (do edit (compact_done_job env.now); persist) _) _
            (tombstone-Holds id linked _ (refl, h.0, h.1))
            (λ _ d2 l. (
              record {
                candidate = c;
                receipt = id;
                validated = v;
                receipted_by = k;
                linked = l.1;
                settled = l.0;
              },
              IsFit-at (job_of d2) done l.0 tt,
              l.2,
            )))

  pub not_waiting :
      (now : String) (j : Job)
      → j.stage ≡ submitting
      → advance now j retry_wait ≡ err validation_failed
  unfolding advance may_go Stage-discrete
  not_waiting now j e = rw e refl

  pub wait_for_kernel-Holds :
      (c : Payload) (r : Refusal) (d : Drive)
      → env.kernel c ≡ refused r
      → (is_scope r.code || env.mentions_stale r.message) ≡ false
      → At env given submitting (job_of d)
      → Holds (Over env given) (E env given) (wait_for_kernel env r d)
  unfolding wait_for_kernel
  wait_for_kernel-Holds c r d k other h =
      elim (Bool-cases (ltb env.max_retries ((job_of d).submit_attempts + 1))) [
        | inl spent ↦ rw spent (tt, tt, h.2)
        | inr left ↦
            rw (left, not_waiting env.now (due_later env (count_refusal (job_of d))) h.0)
              (
                (c, r, k, other),
                IsFit-at (due_later env (count_refusal (job_of d))) submitting h.0 h.1,
                h.2,
              )
      ]

  pub take_answer-Holds :
      (c : Payload) (a : KernelAnswer) (d : Drive)
      → Valid env given c
      → env.kernel (submission_of c) ≡ a
      → At env given submitting (job_of d)
      → Holds (Over env given) (E env given) (take_answer env c a d)
  take_answer-Holds c (receipted id) d v k h = close_done-Holds c id d v k h.2
  take_answer-Holds c (refused r) d v k h =
      elim (Bool-cases (is_scope r.code || env.mentions_stale r.message)) [
        | inl moved_on ↦ rw moved_on (tt, tt, h.2)
        | inr other ↦ rw other (wait_for_kernel-Holds (submission_of c) r d k other h)
      ]

  pub submit_final-Holds :
      (d : Drive)
      → At env given final_ready (job_of d) ⊎ At env given submitting (job_of d)
      → Holds (Over env given) (E env given) (submit_final env d)
  unfolding submit_final may_go
  submit_final-Holds d at =
      after-Holds (λ _ d1. At env given submitting (job_of d1)) (Over env given) (E env given)
        (stage env submitting (seal env) d) _ (enter at)
        (λ _ d1 h.
          after-Holds
            (λ c d2. ((job_of d1).candidate ≡ some c) × At env given submitting (job_of d2))
            (Over env given) (E env given) (the_candidate (job_of d1).candidate d1)
            (call_kernel env)
            (the_candidate-Holds env given full (λ d2. At env given submitting (job_of d2))
              (job_of d1).candidate d1 h.1 h)
            (λ c d2 q. take_answer-Holds c (env.kernel (submission_of c)) _ (h.2 c q.0) refl q.1))
    where
      enter :
          At env given final_ready (job_of d) ⊎ At env given submitting (job_of d)
          → Holds
              (λ _ d1. At env given submitting (job_of d1))
              (E env given)
              (stage env submitting (seal env) d)
      enter (inl h) =
          stage_legal env (E env given) (At env given submitting) submitting (seal env) d
            final_ready h.0 refl (refl, h.1, h.2)
      enter (inr h) =
          stage_stay env (E env given) (At env given submitting) submitting (seal env) d h.0 h
