-- ===== src/Drive/Bought.antt =====
-- What a whole drive costs: the decisions and the submission (`_drive_unit` of
-- tools/saipal_analyst/worker.py).
use saipal.Base.{
  ℕ, ◌+◌, ◌≤◌, ◌≡◌, refl, ◌∙◌, ◌⊎◌, inl, inr, Bool, true, false, not, Option, none, some, String,
  if◌then◌else◌, Bool-cases, arith, ltb, ◌||◌, string_eq, option_eq, string_eq, option_eq,
}
use saipal.Jobs.Stage.{
  Stage, candidate_ready, critic_calling, critic_ready, finalizer_calling, final_ready, submitting,
  done, retry_wait, stale, stage_eq,
}
use saipal.Jobs.Job.{Job, Payload}
use saipal.Jobs.Resume.{critic_role, finalizer}
use saipal.Worker.Failure.{note_retry_wait}
use saipal.Drive.State.{
  Env, Drive, returned, after, job_of, with_job, stage, move, persist, give_up, edit, ◌>>◌, pure,
  crashed, Refusal, KernelAnswer, receipted, refused,
}
use saipal.Drive.Roles.{
  with_critic, decide_critic, criticise, the_candidate, unless, with_finalizer, settle_critic,
  finalize_candidate, is_disputed, candidate_verdict,
}
use saipal.Drive.Unit.{
  submit_final, seal, call_kernel, take_answer, wait_for_kernel, close_done, write_provenance,
  is_scope, submission_of, count_refusal, due_later,
}
use saipal.Drive.Rules.{Holds, after-Holds}
use saipal.Drive.Owed.{Speaks, owed-core, count_refusal-owed, due_later-owed, seal-owed}
use saipal.Drive.Spent.{Spent, Bill, Spent-Bill, spare, give_up-Spent, Within, Moved, move-Moved}
use saipal.Drive.Paid.{Going, on, with_critic-Spent, with_finalizer-Spent}
use saipal.Jobs.Compaction.{compact_done_job}
use saipal.Drive.Critic.{needs_critic}
use saipal.Base.Dict.{lookup}
use saipal.Drive.Handed.{compacted}

module _ (total : ℕ) (env : Env) where
  -- Where the critic's decision leaves the job.
  abbrev pub Chosen : Bool → Drive → Type 0
  Chosen true d = Within total final_ready d
  Chosen false d = Within total critic_ready d

  pub decide_critic-Spent :
      (c : Payload) (d : Drive)
      → Speaks (env.call critic_role)
      → Within total candidate_ready d ⊎ Within total critic_calling d
      → Spent total 0 d
      → Holds Chosen (Bill total) (decide_critic env c d)
  unfolding decide_critic
  decide_critic-Spent c d speaks at h =
      elim (Bool-cases (needs_critic env.policy env.packet (lookup "verdict" c))) [
        | inl need ↦ rw need (
            after-Holds (Going total env critic_ready) Chosen (Bill total) (with_critic env d)
              (λ _. pure false) (with_critic-Spent total env d speaks at) (λ _ d1 q. q))
        | inr no_need ↦ rw no_need (
            after-Holds (λ _ d1. Moved total final_ready (job_of d) d1) Chosen (Bill total)
              (move env final_ready d) (λ _. do persist; pure true)
              (move-Moved total env final_ready d h) (λ _ d1 q. q.0))
      ]

  Spent-at : (s t : Stage) (d : Drive) → Within total s d ⊎ Within total t d → Spent total 0 d
  Spent-at s t d (inl h) = h.1
  Spent-at s t d (inr h) = h.1

  pub criticise-Spent :
      (d : Drive)
      → Speaks (env.call critic_role)
      → Within total candidate_ready d ⊎ Within total critic_calling d
      → Holds Chosen (Bill total) (criticise env d)
  unfolding criticise
  criticise-Spent d speaks at = there (job_of d).candidate
    where
      there :
          (o : Option Payload)
          → Holds Chosen (Bill total) (after (the_candidate o d) (decide_critic env))
      there none =
          Spent-Bill total crashed d (spare total d (Spent-at candidate_ready critic_calling d at))
      there (some c) =
          decide_critic-Spent c d speaks at (Spent-at candidate_ready critic_calling d at)

  pub finalize_candidate-Spent :
      (d : Drive)
      → Speaks (env.call finalizer)
      → Within total critic_ready d ⊎ Within total finalizer_calling d
      → Holds (Going total env final_ready) (Bill total) (finalize_candidate env d)
  unfolding finalize_candidate
  finalize_candidate-Spent d speaks at = settle (job_of d).candidate (job_of d).critic_payload
    where
      spent : Spent total 0 d
      spent = Spent-at critic_ready finalizer_calling d at

      permitted :
          (b : Bool)
          → Holds (Going total env final_ready) (Bill total) (
              (if not b
                  then give_up "BLOCKED_OUTPUT" "critic disagreement with finalizer disabled"
                  else with_finalizer env)
                d)
      permitted true = with_finalizer-Spent total env d speaks at
      permitted false = give_up-Spent total (Going total env final_ready) "BLOCKED_OUTPUT" _ d spent

      settle :
          (candidate verdict : Option Payload)
          → Holds (Going total env final_ready) (Bill total) (settle_critic env candidate verdict d)
      settle candidate none =
          give_up-Spent total (Going total env final_ready) "VALIDATION_FAILED" _ d spent
      settle candidate (some verdict) =
          elim (Bool-cases
            (is_disputed (candidate_verdict candidate) (lookup "decision" verdict))) [
              | inl disputed ↦ rw disputed (permitted env.policy.finalizer_on_disagreement)
              | inr settled ↦ rw settled (on total env final_ready (λ j. j) d refl spent)
            ]

  -- It has ended.
  abbrev pub Gone : Unit {0} → Drive → Type 0
  Gone _ d = ⊥

  tombstone-Bill :
      (linked : Bool) (d : Drive)
      → (job_of d).stage ≡ done
      → d.run.model_calls ≤ total
      → Holds
          (λ _ d1. ((job_of d1).stage ≡ done) × (d1.run.model_calls ≤ total))
          (Bill total)
          (unless (not linked) (do edit (compact_done_job env.now); persist) d)
  tombstone-Bill true d e n = ((compacted env.now (job_of d)).0 ∙ e, n)
  tombstone-Bill false d e n = (e, n)

  close_done-Bill :
      (c : Payload) (id : String) (d : Drive)
      → Spent total 0 d
      → Holds Gone (Bill total) (close_done env c id d)
  unfolding close_done
  close_done-Bill c id d h =
      after-Holds (λ _ d1. d1.run.model_calls ≤ total) Gone (Bill total)
        (write_provenance env.provenance _) _ (linking env.provenance _ (omega arith))
        (λ linked d1 n.
          after-Holds (λ _ d2. ((job_of d2).stage ≡ done) × (d2.run.model_calls ≤ total)) Gone
            (Bill total) (unless (not linked) (do edit (compact_done_job env.now); persist) _) _
            (tombstone-Bill linked _ refl n) (λ _ d2 q. (omega arith, inl q.0)))
    where
      linking :
          (p : Option Refusal) (d0 : Drive)
          → d0.run.model_calls ≤ total
          → Holds (λ _ d1. d1.run.model_calls ≤ total) (Bill total) (write_provenance p d0)
      linking none d0 n = n
      linking (some r) d0 n = n

  abbrev told : Drive → Drive
  told d = record d {
    summary = record d.summary { kernel_refusals = d.summary.kernel_refusals + 1 };
  }

  wait_for_kernel-Bill :
      (r : Refusal) (d : Drive)
      → Spent total 0 d
      → Holds Gone (Bill total) (wait_for_kernel env r d)
  unfolding wait_for_kernel
  wait_for_kernel-Bill r d h =
      elim (Bool-cases (ltb env.max_retries ((job_of d).submit_attempts + 1))) [
        | inl out ↦ rw out (
            give_up-Spent total Gone (env.code_name r.code) r.message
              (with_job (count_refusal (job_of d)) d)
              (omega (arith, count_refusal-owed env (job_of d))))
        | inr left ↦ rw left (
            after-Holds
              (λ _ d1. Moved total retry_wait (due_later env (count_refusal (job_of d))) d1) Gone
              (Bill total)
              (move env retry_wait (with_job (due_later env (count_refusal (job_of d))) (told d))) _
              (move-Moved total env retry_wait
                (with_job (due_later env (count_refusal (job_of d))) (told d))
                (omega (arith, due_later-owed env (job_of d))))
              (λ _ d1 q. Spent-Bill total (returned note_retry_wait) d1 (spare total d1 q.0.1)))
      ]

  take_answer-Bill :
      (c : Payload) (a : KernelAnswer) (d : Drive)
      → Spent total 0 d
      → Holds Gone (Bill total) (take_answer env c a d)
  take_answer-Bill c (receipted id) d h = close_done-Bill c id d h
  take_answer-Bill c (refused r) d h =
      elim (Bool-cases (is_scope r.code || env.mentions_stale r.message)) [
        | inl old ↦
            rw old (omega arith, inr (omega (arith, owed-core (staled (job_of d)) (job_of d) refl)))
        | inr other ↦ rw other (wait_for_kernel-Bill r d h)
      ]
    where
      staled : Job → Job
      staled j = record j {
        stage = stale;
        error_class = some "STALE";
        error_detail = some r.message;
      }

  pub submit_final-Bill :
      (d : Drive) → Spent total 0 d → Holds Gone (Bill total) (submit_final env d)
  unfolding submit_final
  submit_final-Bill d h =
      after-Holds (Going total env submitting) Gone (Bill total) (stage env submitting (seal env) d)
        _ (on total env submitting (seal env) d (seal-owed env (job_of d)) h)
        (λ _ d1 q. there (job_of d1).candidate d1 q.1)
    where
      there :
          (o : Option Payload) (d1 : Drive)
          → Spent total 0 d1
          → Holds Gone (Bill total) (after (the_candidate o d1) (call_kernel env))
      there none d1 q = Spent-Bill total crashed d1 (spare total d1 q)
      there (some c) d1 q = take_answer-Bill c (env.kernel (submission_of c)) _ q
