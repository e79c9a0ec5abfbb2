-- ===== src/Drive/Investigated.antt =====
-- The investigator: its call and its validated candidate (`_drive_unit` of
-- tools/saipal_analyst/worker.py).
use saipal.Base.{
  ◌≡◌, refl, ◌∙◌, ap, ◌⊎◌, inl, inr, true, false, Option, some, String, string_eq, option_eq,
}
use saipal.Jobs.Stage.{
  ready, investigator_calling, investigator_response, candidate_ready, stage_eq, may_go,
}
use saipal.Jobs.Job.{Payload, has_text, has_payload}
use saipal.Jobs.Resume.{investigator}
use saipal.Drive.State.{accepted, Env, Drive, job_of, stage, edit}
use saipal.Drive.Steps.{Said, call_role, or_fail, adopt, resolve}
use saipal.Drive.Roles.{
  keep_response, hear_investigator, call_investigator, source_digest, validate_response,
}
use saipal.Drive.Rules.{Holds, after-Holds}
use saipal.Drive.Fit.{IsFit-at}
use saipal.Drive.Answered.{call_role-Holds}
use saipal.Drive.Outcome.{
  Sourced, E, At, or_fail-Holds, Calling, Responded, judged-Holds, stage_legal, stage_stay,
}

module _ (env : Env) (given : Option Payload)
    (full : (text : String) (v : Payload)
      → env.parse_candidate text ≡ accepted v
      → has_payload (some v) ≡ true) where
  pub hear_investigator-Holds :
      (answer : Said) (d : Drive)
      → Calling env given (job_of d)
      → Holds
          (λ _ d1. Responded env given (job_of d1))
          (E env given)
          (hear_investigator env answer d)
  unfolding may_go
  hear_investigator-Holds answer d p =
      after-Holds (λ _ d1. Calling env given (job_of d1)) (λ _ d1. Responded env given (job_of d1))
        (E env given) (or_fail env answer d) _
        (or_fail-Holds env given (λ d1. Calling env given (job_of d1)) answer d (inl p.0) p.2 p)
        (λ text d1 q.
          after-Holds (λ _ d2. Responded env given (job_of d2))
            (λ _ d2. Responded env given (job_of d2)) (E env given)
            (stage env investigator_response (keep_response env text) d1) (λ _. edit resolve)
            (stage_legal env (E env given) (Responded env given) investigator_response
              (keep_response env text) d1 investigator_calling q.0 refl (refl, q.2))
            (λ _ d2 r. r))

  pub call_investigator-Holds :
      (d : Drive)
      → ((job_of d).stage ≡ ready) ⊎ ((job_of d).stage ≡ investigator_calling)
      → has_text (job_of d).response_text ≡ false
      → Sourced env given (job_of d).candidate
      → Holds (λ _ d1. Responded env given (job_of d1)) (E env given) (call_investigator env d)
  unfolding call_investigator may_go
  call_investigator-Holds d at silent src =
      after-Holds (λ _ d1. Calling env given (job_of d1)) (λ _ d1. Responded env given (job_of d1))
        (E env given) (stage env investigator_calling (λ j. j) d) _ enter
        (λ _ d1 p.
          after-Holds (λ _ d2. Calling env given (job_of d2))
            (λ _ d2. Responded env given (job_of d2)) (E env given)
            (call_role env investigator (env.call investigator) d1) (hear_investigator env)
            (call_role-Holds env (Calling env given) (E env given)
              (λ s d2 q. (tt, IsFit-at (job_of d2) investigator_calling q.0 q.1, q.2)) investigator
              (env.call investigator) d1 p)
            hear_investigator-Holds)
    where
      enter :
          Holds
            (λ _ d1. Calling env given (job_of d1))
            (E env given)
            (stage env investigator_calling (λ j. j) d)
      enter = elim at [
        | inl e ↦
            stage_legal env (E env given) (Calling env given) investigator_calling (λ j. j) d ready
              e refl (refl, silent, src)
        | inr e ↦
            stage_stay env (E env given) (Calling env given) investigator_calling (λ j. j) d e
              (e, silent, src)
      ]

  pub adopted :
      (v : Payload) (text : String)
      → env.parse_candidate text ≡ accepted v
      → (has_payload (some v) ≡ true) × Sourced env given (some v)
  adopted v text e = (full text v e, λ c f. inr (text, e ∙ ap accepted (some_injective f)))
    where
      some_injective : {a b : Payload} → some a ≡ some b → a ≡ b
      some_injective h = cc

  pub validate_response-Holds :
      (d : Drive)
      → Responded env given (job_of d)
      → Holds
          (λ _ d1. At env given candidate_ready (job_of d1))
          (E env given)
          (validate_response env d)
  unfolding validate_response may_go
  validate_response-Holds d h =
      judged-Holds env given (Responded env given) (λ j p. inr (inl p.0)) (λ j p. p.1)
        (λ j p. IsFit-at j investigator_response p.0 tt) env.parse_candidate
        (At env given candidate_ready) _
        (λ v text d1 e p.
          stage_legal env (E env given) (At env given candidate_ready) candidate_ready
            (λ j. source_digest env (adopt env v j)) d1 investigator_response p.0 refl
            (refl, (adopted v text e).0, (adopted v text e).1))
        investigator "investigator output" d h
