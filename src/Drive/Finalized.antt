-- ===== src/Drive/Finalized.antt =====
-- The finalizer and what settles a critic's word (`_drive_unit` of
-- tools/saipal_analyst/worker.py).
use saipal.Base.{
  ◌≡◌, refl, ◌≢◌, ◌∙◌, sym, ◌⊎◌, inl, inr, Bool, true, false, not, Option, none, some, String,
  if◌then◌else◌, Bool-cases, beq_ne, ◌==◌, string_eq, option_eq,
}
use saipal.Base.Dict.{lookup}
use saipal.Jobs.Stage.{
  critic_ready, finalizer_calling, final_ready, Stage-discrete, stage_eq, may_go,
}
use saipal.Jobs.Job.{Payload, has_text, has_payload}
use saipal.Jobs.Resume.{finalizer}
use saipal.Drive.State.{accepted, Env, Drive, job_of, with_job, stage, give_up}
use saipal.Drive.Steps.{adopt}
use saipal.Drive.Roles.{
  unless, keep_finalizer, with_finalizer, settle_critic, is_disputed, candidate_verdict,
  finalize_candidate,
}
use saipal.Drive.Rules.{Holds, after-Holds}
use saipal.Drive.Outcome.{Sourced, E, At, Criticised, stage_legal}
use saipal.Drive.Investigated.{adopted}
use saipal.Drive.Late.{late-Holds}

module _ (env : Env) (given : Option Payload)
    (full : (text : String) (v : Payload)
      → env.parse_candidate text ≡ accepted v
      → has_payload (some v) ≡ true) where
  pub with_finalizer-Holds :
      (d : Drive)
      → At env given critic_ready (job_of d) ⊎ At env given finalizer_calling (job_of d)
      → Holds (λ _ d1. At env given final_ready (job_of d1)) (E env given) (with_finalizer env d)
  unfolding with_finalizer may_go Stage-discrete
  with_finalizer-Holds d at =
      after-Holds (λ _ d1. At env given finalizer_calling (job_of d1))
        (λ _ d1. At env given final_ready (job_of d1)) (E env given)
        (unless (not ((job_of d).stage == critic_ready)) (stage env finalizer_calling (λ k. k)) d) _
        (enter at)
        (λ _ d1 p.
          late-Holds env given full finalizer_calling (inr refl) finalizer
            (has_text (job_of d).finalizer_response_text) env.parse_candidate "finalizer output"
            (At env given final_ready) _ d1
            (λ v text d2 e q.
              stage_legal env (E env given) (At env given final_ready) final_ready
                (keep_finalizer env) (with_job (adopt env v (job_of d2)) d2) finalizer_calling q.0
                refl
                (refl, (adopted env given full v text e).0, (adopted env given full v text e).1))
            p)
    where
      enter :
          At env given critic_ready (job_of d) ⊎ At env given finalizer_calling (job_of d)
          → Holds
              (λ _ d1. At env given finalizer_calling (job_of d1))
              (E env given)
              (unless
                (not ((job_of d).stage == critic_ready))
                (stage env finalizer_calling (λ k. k))
                d)
      enter (inl h) = rw ((stage_eq.beq_iff (job_of d).stage critic_ready).1 h.0) (
          stage_legal env (E env given) (At env given finalizer_calling) finalizer_calling (λ k. k)
            d critic_ready h.0 refl (refl, h.1, h.2))
      enter (inr h) = rw (beq_ne (job_of d).stage critic_ready (λ e. apart (sym h.0 ∙ e))) h
        where
          apart : finalizer_calling ≢ critic_ready
          apart e = cc

  pub settle_critic-Holds :
      (candidate verdict : Option Payload) (d : Drive)
      → Criticised env given (job_of d)
      → Holds
          (λ _ d1. At env given final_ready (job_of d1))
          (E env given)
          (settle_critic env candidate verdict d)
  unfolding may_go
  settle_critic-Holds candidate none d at = (tt, tt, sourced at)
    where
      sourced : Criticised env given (job_of d) → Sourced env given (job_of d).candidate
      sourced (inl h) = h.2
      sourced (inr h) = h.2
  settle_critic-Holds candidate (some verdict) d at =
      elim (Bool-cases (is_disputed (candidate_verdict candidate) (lookup "decision" verdict))) [
        | inl disputed ↦ rw disputed (permitted env.policy.finalizer_on_disagreement)
        | inr settled ↦ rw settled (stands at)
      ]
    where
      sourced : Criticised env given (job_of d) → Sourced env given (job_of d).candidate
      sourced (inl h) = h.2
      sourced (inr h) = h.2

      permitted :
          (b : Bool)
          → Holds
              (λ _ d1. At env given final_ready (job_of d1))
              (E env given)
              ((if not b
                  then give_up "BLOCKED_OUTPUT" "critic disagreement with finalizer disabled"
                  else with_finalizer env)
                d)
      permitted true = with_finalizer-Holds d at
      permitted false = (tt, tt, sourced at)

      stands :
          Criticised env given (job_of d)
          → Holds
              (λ _ d1. At env given final_ready (job_of d1))
              (E env given)
              (stage env final_ready (λ j. j) d)
      stands (inl h) =
          stage_legal env (E env given) (At env given final_ready) final_ready (λ j. j) d
            critic_ready h.0 refl (refl, h.1, h.2)
      stands (inr h) =
          stage_legal env (E env given) (At env given final_ready) final_ready (λ j. j) d
            finalizer_calling h.0 refl (refl, h.1, h.2)

  pub finalize_candidate-Holds :
      (d : Drive)
      → Criticised env given (job_of d)
      → Holds
          (λ _ d1. At env given final_ready (job_of d1))
          (E env given)
          (finalize_candidate env d)
  unfolding finalize_candidate
  finalize_candidate-Holds d at =
      settle_critic-Holds (job_of d).candidate (job_of d).critic_payload d at
