-- ===== src/Drive/Settled.antt =====
-- The drive of a unit always ends (`_drive_unit` of tools/saipal_analyst/worker.py).
use saipal.Base.{
  not, ◌+◌, if◌then◌else◌, ℕ, refl, ◌≢◌, ◌∙◌, sym, inl, inr, Bool, true, false, Option, ◌||◌,
  String, ltb, ◌==◌, Bool-cases, arith,
}
use saipal.Jobs.Stage.{done, Stage, retry_wait, submitting, remote_outcome_unknown, stage_eq}
use saipal.Jobs.Job.{Job, Payload, WorkUnit, has_text, has_payload}
use saipal.Jobs.Resume.{
  Action, skip, ambiguous, call, validate, critic, finalize, submit, retry, wait, next_action,
  action_at, resume_stage,
}
use saipal.Jobs.Advance.{advance, advance-stage}
use saipal.Drive.State.{
  Refusal, KernelAnswer, receipted, refused, Env, Drive, after, job_of, stage, move, persist,
}
use saipal.Drive.Roles.{
  unless, the_candidate, finalize_candidate, criticise, validate_response, call_investigator,
}
use saipal.Drive.Unit.{
  seal, call_kernel, open_job, reactivate, read_packet, take_answer, close_done, wait_for_kernel,
  is_scope, submission_of, submit_final, from_finalize, from_critic, from_validate, resume, perform,
  drive_on, drive_unit, write_provenance,
}
use saipal.Drive.Rules.{Ends, after-Ends, Ends-after, Holds, after-Holds, take_move-Holds}

close_done-Ends : (env : Env) (c : Payload) (id : String) (d : Drive) → Ends (close_done env c id d)
unfolding close_done
close_done-Ends env c id d =
    after-Ends (write_provenance env.provenance _) _
      (λ linked d1. after-Ends (unless (not linked) _ _) _ (λ _ d2. tt))

wait_for_kernel-Ends : (env : Env) (r : Refusal) (d : Drive) → Ends (wait_for_kernel env r d)
unfolding wait_for_kernel
wait_for_kernel-Ends env r d =
    elim (Bool-cases (ltb env.max_retries ((job_of d).submit_attempts + 1))) [
      | inl spent ↦ rw spent tt
      | inr left ↦ rw left (after-Ends (move env retry_wait _) _ (λ _ d1. tt))
    ]

take_answer-Ends :
    (env : Env) (c : Payload) (a : KernelAnswer) (d : Drive) → Ends (take_answer env c a d)
take_answer-Ends env c (receipted id) d = close_done-Ends env c id d
take_answer-Ends env c (refused r) d =
    elim (Bool-cases (is_scope r.code || env.mentions_stale r.message)) [
      | inl old ↦ rw old tt
      | inr other ↦ rw other (wait_for_kernel-Ends env r d)
    ]

submit_final-Ends : (env : Env) (d : Drive) → Ends (submit_final env d)
unfolding submit_final
submit_final-Ends env d = after-Ends (stage env submitting (seal env) d) _ (λ _ d1.
    after-Ends (the_candidate (job_of d1).candidate d1) (call_kernel env)
      (λ c d2. take_answer-Ends env c (env.kernel (submission_of c)) (counted d2)))
  where
    counted : Drive → Drive
    counted d2 = record d2 {
      summary = record d2.summary { submit_attempts = d2.summary.submit_attempts + 1 };
    }

from_finalize-Ends : (env : Env) (d : Drive) → Ends (from_finalize env d)
from_finalize-Ends env d =
    after-Ends (finalize_candidate env d) _ (λ _ d1. submit_final-Ends env d1)

from_critic-Ends : (env : Env) (d : Drive) → Ends (from_critic env d)
from_critic-Ends env d = after-Ends (criticise env d) _ decide
  where
    decide :
        (final : Bool) (d1 : Drive)
        → Ends ((if final then submit_final env else from_finalize env) d1)
    decide true d1 = submit_final-Ends env d1
    decide false d1 = from_finalize-Ends env d1

from_validate-Ends : (env : Env) (d : Drive) → Ends (from_validate env d)
from_validate-Ends env d = after-Ends (validate_response env d) _ (λ _ d1. from_critic-Ends env d1)

-- Every turn but a resumption is the last one.
perform-Ends : (env : Env) (a : Action) (d : Drive) → a ≢ retry → Ends (perform env a d)
unfolding perform
perform-Ends env skip d h = tt
perform-Ends env ambiguous d h = tt
perform-Ends env call d h =
    after-Ends (call_investigator env d) _ (λ _ d1. from_validate-Ends env d1)
perform-Ends env validate d h = from_validate-Ends env d
perform-Ends env critic d h = from_critic-Ends env d
perform-Ends env finalize d h = from_finalize-Ends env d
perform-Ends env submit d h = submit_final-Ends env d
perform-Ends env retry d h = absurd (h refl)
perform-Ends env wait d h = tt

resume_stage-ne : (j : Job) → resume_stage j ≢ retry_wait
unfolding resume_stage
resume_stage-ne j h = elim (Bool-cases (has_payload j.candidate)) [
  | inl c ↦ elim (Bool-cases (has_text j.finalizer_digest)) [
    | inl f ↦ cc (rw (c, f) at h)
    | inr f ↦ elim (Bool-cases (has_payload j.critic_payload)) [
      | inl p ↦ cc (rw (c, f, p) at h)
      | inr p ↦ cc (rw (c, f, p) at h)
    ]
  ]
  | inr c ↦ elim (Bool-cases (has_text j.response_text)) [
    | inl t ↦ cc (rw (c, t) at h)
    | inr t ↦ elim (Bool-cases (j.stage == remote_outcome_unknown)) [
      | inl u ↦ cc (rw (c, t, u) at h)
      | inr u ↦ cc (rw (c, t, u) at h)
    ]
  ]
]

-- No other stage is retried.
action_at-retry : (now : ℕ) (j : Job) (s : Stage) → s ≢ retry_wait → action_at now j s ≢ retry
unfolding action_at
action_at-retry now j done h e = cc
action_at-retry now j retry_wait h e = absurd (h refl)
action_at-retry now j _ h e = ground arith

resume-Holds :
    (env : Env) (d : Drive)
    → Holds (λ _ d1. (job_of d1).stage ≢ retry_wait) (λ _ _. Unit) (resume env d)
unfolding resume
resume-Holds env d = elim (Bool-cases (resume_stage (job_of d) == (job_of d).stage)) [
  | inl same ↦ rw same (λ e. resume_stage-ne (job_of d) ((stage_eq.beq_iff _ _).0 same ∙ e))
  | inr other ↦ rw other (
      after-Holds (λ _ d1. (job_of d1).stage ≢ retry_wait) (λ _ d1. (job_of d1).stage ≢ retry_wait)
        (λ _ _. Unit) (move env (resume_stage (job_of d)) d) (λ _. persist)
        (take_move-Holds (λ _ d1. (job_of d1).stage ≢ retry_wait) (λ _ _. Unit)
          (advance env.now (job_of d) (resume_stage (job_of d))) d
          (λ j e. λ f.
            resume_stage-ne (job_of d)
              (sym (advance-stage env.now (job_of d) (resume_stage (job_of d)) e) ∙ f))
          (λ code e. tt))
        (λ _ d1 h. h))
]

last_turn : (env : Env) (d : Drive) → (job_of d).stage ≢ retry_wait → Ends (drive_on 1 env d)
unfolding drive_on next_action
last_turn env d h =
    Ends-after (perform env (action_at env.wall (job_of d) (job_of d).stage) d) _
      (perform-Ends env _ d (action_at-retry env.wall (job_of d) (job_of d).stage h))

two_turns :
    (env : Env) (a : Action) (d : Drive) → Ends (after (perform env a d) (λ _. drive_on 1 env))
unfolding perform
two_turns env retry d =
    after-Holds (λ _ d1. (job_of d1).stage ≢ retry_wait) (λ _ _. ⊥) (λ _ _. Unit) (resume env d)
      (λ _. drive_on 1 env) (resume-Holds env d) (λ _ d1 h. last_turn env d1 h)
two_turns env skip d = tt
two_turns env ambiguous d = tt
two_turns env call d = Ends-after (perform env call d) _ (perform-Ends env call d (λ e. cc))
two_turns env validate d =
    Ends-after (perform env validate d) _ (perform-Ends env validate d (λ e. cc))
two_turns env critic d = Ends-after (perform env critic d) _ (perform-Ends env critic d (λ e. cc))
two_turns env finalize d =
    Ends-after (perform env finalize d) _ (perform-Ends env finalize d (λ e. cc))
two_turns env submit d = Ends-after (perform env submit d) _ (perform-Ends env submit d (λ e. cc))
two_turns env wait d = tt

drive_on-Ends : (env : Env) (d : Drive) → Ends (drive_on 2 env d)
unfolding drive_on next_action
drive_on-Ends env d = two_turns env (action_at env.wall (job_of d) (job_of d).stage) d

-- A drive of a unit always ends: two turns of its loop are enough, whatever the job, the provider,
-- the parsers and the kernel do.
pub drive_unit-Ends :
    (env : Env) (u : WorkUnit) (found : Option Job) (d : Drive) → Ends (drive_unit 2 env u found d)
unfolding drive_unit
drive_unit-Ends env u found d = after-Ends (open_job env u found d) _ (λ _ d1.
    after-Ends (reactivate env d1) _
      (λ _ d2. after-Ends (read_packet env env.packet_refused d2) _ (λ _ d3. drive_on-Ends env d3)))
