-- ===== src/Drive/Turns.antt =====
-- One turn of the loop, from each stage (`_drive_unit` of tools/saipal_analyst/worker.py).
use saipal.Base.{
  ◌≡◌, ◌≢◌, ◌∙◌, sym, ◌⊎◌, inl, inr, Bool, true, false, Option, some, String, if◌then◌else◌,
  Bool-cases, ◌==◌, string_eq, option_eq,
}
use saipal.Jobs.Stage.{
  Stage, ready, investigator_calling, investigator_response, candidate_ready, critic_calling,
  critic_ready, finalizer_calling, final_ready, submitting, done, retry_wait, blocked,
  blocked_binding, stale, remote_outcome_unknown, stage_eq,
}
use saipal.Jobs.Job.{Payload, has_text, has_payload}
use saipal.Jobs.Resume.{
  resume_stage, action_at, has_attempt, retry_due, Action, skip, ambiguous, call, validate, critic,
  finalize, submit, retry, wait,
}
use saipal.Drive.State.{accepted, Env, Drive, Progress, going, ended, job_of}
use saipal.Drive.Roles.{call_investigator, validate_response, criticise, finalize_candidate}
use saipal.Drive.Unit.{submit_final, from_finalize, from_critic, from_validate, resume, perform}
use saipal.Drive.Rules.{Holds, after-Holds}
use saipal.Drive.Fit.{IsFit-at, Fits-at, resume_stage-Resumes}
use saipal.Drive.Outcome.{
  Sourced, E, At, Responded, Decided, Undecided, Criticised, Over, Ready, Opened,
}
use saipal.Drive.Investigated.{call_investigator-Holds, validate_response-Holds}
use saipal.Drive.Late.{criticise-Holds}
use saipal.Drive.Finalized.{finalize_candidate-Holds}
use saipal.Drive.Handed.{submit_final-Holds}

module _ (env : Env) (given : Option Payload)
    (full : (text : String) (v : Payload)
      → env.parse_candidate text ≡ accepted v
      → has_payload (some v) ≡ true) where
  pub from_finalize-Holds :
      (d : Drive)
      → Criticised env given (job_of d)
      → Holds (Over env given) (E env given) (from_finalize env d)
  from_finalize-Holds d at =
      after-Holds (λ _ d1. At env given final_ready (job_of d1)) (Over env given) (E env given)
        (finalize_candidate env d) _ (finalize_candidate-Holds env given full d at)
        (λ _ d1 h. submit_final-Holds env given full d1 (inl h))

  pub from_critic-Holds :
      (d : Drive) → Undecided env given d → Holds (Over env given) (E env given) (from_critic env d)
  from_critic-Holds d u =
      after-Holds (λ final d1. Decided env given final (job_of d1)) (Over env given) (E env given)
        (criticise env d) _ (criticise-Holds env given full d u) go_on
    where
      go_on :
          (final : Bool) (d1 : Drive)
          → Decided env given final (job_of d1)
          → Holds
              (Over env given)
              (E env given)
              ((if final then submit_final env else from_finalize env) d1)
      go_on true d1 h = submit_final-Holds env given full d1 (inl h)
      go_on false d1 h = from_finalize-Holds d1 (inl h)

  pub from_validate-Holds :
      (d : Drive)
      → Responded env given (job_of d)
      → Holds (Over env given) (E env given) (from_validate env d)
  from_validate-Holds d h =
      after-Holds (λ _ d1. At env given candidate_ready (job_of d1)) (Over env given) (E env given)
        (validate_response env d) _ (validate_response-Holds env given full d h)
        (λ _ d1 q. from_critic-Holds d1 (inl q, λ e. absurd (apart (sym q.0 ∙ e))))
    where
      apart : candidate_ready ≢ critic_calling
      apart e = cc

  pub Over-Ready :
      (p : Progress (Unit {0}))
      → Holds (Over env given) (E env given) p
      → Holds (Ready env given) (E env given) p
  Over-Ready (ended e d) h = h
  Over-Ready (going a d) h = absurd h

  pub resume-Holds :
      (d : Drive)
      → (job_of d).stage ≡ retry_wait
      → Sourced env given (job_of d).candidate
      → Holds (Ready env given) (E env given) (resume env d)
  unfolding resume
  resume-Holds d e src =
      let r = resume_stage-Resumes env.now (job_of d) (inl e) in
      elim (Bool-cases (resume_stage (job_of d) == (job_of d).stage)) [
        | inl same ↦ rw same (
          IsFit-at (job_of d) _ (sym ((stage_eq.beq_iff _ _).0 same)) r.fits,
          src,
          λ f. r.calls_no_critic ((stage_eq.beq_iff _ _).0 same ∙ f),
        )
        | inr other ↦ rw (other, r.moves) (r.fits, src, r.calls_no_critic)
      ]

  pub called :
      (d : Drive)
      → ((job_of d).stage ≡ ready) ⊎ ((job_of d).stage ≡ investigator_calling)
      → has_text (job_of d).response_text ≡ false
      → Sourced env given (job_of d).candidate
      → Holds (Ready env given) (E env given) (perform env call d)
  unfolding perform
  called d at silent src = Over-Ready (perform env call d) (
      after-Holds (λ _ d1. Responded env given (job_of d1)) (Over env given) (E env given)
        (call_investigator env d) _ (call_investigator-Holds env given full d at silent src)
        (λ _ d1 h. from_validate-Holds d1 h))

  -- An attempt of unknown outcome is left for the operator.
  pub left_unknown :
      (d : Drive)
      → Sourced env given (job_of d).candidate
      → Holds (Ready env given) (E env given) (perform env ambiguous d)
  unfolding perform
  left_unknown d src = (tt, tt, src)

  pub unless_ambiguous :
      (b : Bool) (a : Action) (d : Drive)
      → Sourced env given (job_of d).candidate
      → Holds (Ready env given) (E env given) (perform env a d)
      → Holds (Ready env given) (E env given) (perform env (if b then ambiguous else a) d)
  unless_ambiguous true a d src h = left_unknown d src
  unless_ambiguous false a d src h = h

  pub skipped :
      (d : Drive) → Opened env given d → Holds (Ready env given) (E env given) (perform env skip d)
  unfolding perform
  skipped d o = (tt, o.0, o.1)

  pub validated :
      (d : Drive)
      → Responded env given (job_of d)
      → Holds (Ready env given) (E env given) (perform env validate d)
  unfolding perform
  validated d h = Over-Ready (from_validate env d) (from_validate-Holds d h)

  pub criticised :
      (d : Drive)
      → Undecided env given d
      → Holds (Ready env given) (E env given) (perform env critic d)
  unfolding perform
  criticised d u = Over-Ready (from_critic env d) (from_critic-Holds d u)

  pub finalized :
      (d : Drive)
      → Criticised env given (job_of d)
      → Holds (Ready env given) (E env given) (perform env finalize d)
  unfolding perform
  finalized d h = Over-Ready (from_finalize env d) (from_finalize-Holds d h)

  pub submitted :
      (d : Drive)
      → At env given final_ready (job_of d) ⊎ At env given submitting (job_of d)
      → Holds (Ready env given) (E env given) (perform env submit d)
  unfolding perform
  submitted d h = Over-Ready (submit_final env d) (submit_final-Holds env given full d h)

  pub retried :
      (b : Bool) (d : Drive)
      → (job_of d).stage ≡ retry_wait
      → Sourced env given (job_of d).candidate
      → Holds (Ready env given) (E env given) (perform env (if b then retry else wait) d)
  unfolding perform
  retried true d e src = resume-Holds d e src
  retried false d e src = (tt, tt, src)

  pub turn-Holds :
      (s : Stage) (d : Drive)
      → (job_of d).stage ≡ s
      → Opened env given d
      → Holds (Ready env given) (E env given) (perform env (action_at env.wall (job_of d) s) d)
  unfolding action_at
  turn-Holds ready d e o = called d (inl e) (Fits-at (job_of d) ready e o.0) o.1
  turn-Holds investigator_calling d e o =
      let silent = Fits-at (job_of d) investigator_calling e o.0 in
      rw silent (
        unless_ambiguous (has_attempt "investigator" (job_of d)) call d o.1
          (called d (inr e) silent o.1))
  turn-Holds investigator_response d e o = validated d (e, o.1)
  turn-Holds candidate_ready d e o =
      criticised d (inl (e, Fits-at (job_of d) candidate_ready e o.0, o.1), o.2)
  turn-Holds critic_calling d e o =
      unless_ambiguous _ critic d o.1
        (criticised d (inr (e, Fits-at (job_of d) critic_calling e o.0, o.1), o.2))
  turn-Holds critic_ready d e o = finalized d (inl (e, Fits-at (job_of d) critic_ready e o.0, o.1))
  turn-Holds finalizer_calling d e o =
      unless_ambiguous _ finalize d o.1
        (finalized d (inr (e, Fits-at (job_of d) finalizer_calling e o.0, o.1)))
  turn-Holds final_ready d e o = submitted d (inl (e, Fits-at (job_of d) final_ready e o.0, o.1))
  turn-Holds submitting d e o = submitted d (inr (e, Fits-at (job_of d) submitting e o.0, o.1))
  turn-Holds retry_wait d e o = retried (retry_due env.wall (job_of d).next_retry_at) d e o.1
  turn-Holds remote_outcome_unknown d e o = left_unknown d o.1
  turn-Holds done d e o = skipped d o
  turn-Holds blocked d e o = skipped d o
  turn-Holds blocked_binding d e o = skipped d o
  turn-Holds stale d e o = skipped d o
