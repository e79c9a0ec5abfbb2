-- ===== src/Drive/Billed.antt =====
-- What one turn of the loop costs (`_drive_unit` of tools/saipal_analyst/worker.py).
use saipal.Base.{
  ℕ, ◌≡◌, refl, sym, ◌⊎◌, inl, inr, Bool, true, false, if◌then◌else◌, Bool-cases, arith, ◌==◌,
  string_eq, option_eq, ◌==◌, string_eq, option_eq,
}
use saipal.Jobs.Stage.{
  Stage, ready, investigator_calling, investigator_response, candidate_ready, critic_calling,
  critic_ready, finalizer_calling, final_ready, submitting, done, retry_wait, blocked,
  blocked_binding, stale, remote_outcome_unknown, stage_eq,
}
use saipal.Jobs.Job.{has_text}
use saipal.Jobs.Resume.{
  Role, investigator, critic_role, finalizer, resume_stage, action_at, has_attempt, retry_due,
  Action, skip, ambiguous, call, validate, critic, finalize, submit, retry, wait,
}
use saipal.Worker.Failure.{note_blocked}
use saipal.Drive.State.{Env, Drive, returned, Progress, going, ended, job_of}
use saipal.Drive.Roles.{call_investigator, validate_response, criticise, finalize_candidate}
use saipal.Drive.Unit.{submit_final, from_finalize, from_critic, from_validate, resume, perform}
use saipal.Drive.Rules.{Holds, after-Holds}
use saipal.Drive.Owed.{Speaks, owed, owed-core}
use saipal.Drive.Spent.{Spent, Bill, Spent-Bill, spare, give_up-Spent, Within}
use saipal.Drive.Paid.{Going, call_investigator-Spent, validate_response-Spent}
use saipal.Drive.Fit.{arrive, IsFit, IsFit-at, Fits-at, resume_stage-Resumes}
use saipal.Drive.Bought.{Chosen, criticise-Spent, finalize_candidate-Spent, Gone, submit_final-Bill}

module _ (total : ℕ) (env : Env) (speaks : (role : Role) → Speaks (env.call role)) where
  from_finalize-Bill :
      (d : Drive)
      → Within total critic_ready d ⊎ Within total finalizer_calling d
      → Holds (Gone total env) (Bill total) (from_finalize env d)
  from_finalize-Bill d at =
      after-Holds (Going total env final_ready) (Gone total env) (Bill total)
        (finalize_candidate env d) _ (finalize_candidate-Spent total env d (speaks finalizer) at)
        (λ _ d1 q. submit_final-Bill total env d1 q.1)

  from_critic-Bill :
      (d : Drive)
      → Within total candidate_ready d ⊎ Within total critic_calling d
      → Holds (Gone total env) (Bill total) (from_critic env d)
  from_critic-Bill d at =
      after-Holds (Chosen total env) (Gone total env) (Bill total) (criticise env d) _
        (criticise-Spent total env d (speaks critic_role) at) go_on
    where
      go_on :
          (final : Bool) (d1 : Drive)
          → (Chosen total env) final d1
          → Holds
              (Gone total env)
              (Bill total)
              ((if final then submit_final env else from_finalize env) d1)
      go_on true d1 q = submit_final-Bill total env d1 q.1
      go_on false d1 q = from_finalize-Bill d1 (inl q)

  from_validate-Bill :
      (d : Drive)
      → Within total investigator_response d
      → Holds (Gone total env) (Bill total) (from_validate env d)
  from_validate-Bill d h =
      after-Holds (Going total env candidate_ready) (Gone total env) (Bill total)
        (validate_response env d) _ (validate_response-Spent total env d h)
        (λ _ d1 q. from_critic-Bill d1 (inl q))

  -- Between two turns.
  abbrev pub Paused : Unit {0} → Drive → Type 0
  Paused _ d = Spent total 0 d × IsFit (job_of d)

  pub over :
      (p : Progress (Unit {0}))
      → Holds (Gone total env) (Bill total) p
      → Holds Paused (Bill total) p
  over (going a d) h = absurd h
  over (ended e d) h = h

  called-Bill :
      (d : Drive)
      → Spent total 0 d
      → has_text (job_of d).response_text ≡ false
      → Holds Paused (Bill total) (perform env call d)
  unfolding perform
  called-Bill d h silent = over (perform env call d) (
      after-Holds (Going total env investigator_response) (Gone total env) (Bill total)
        (call_investigator env d) _
        (call_investigator-Spent total env d (speaks investigator) silent h)
        (λ _ d1 q. from_validate-Bill d1 q))

  left-Bill : (d : Drive) → Spent total 0 d → Holds Paused (Bill total) (perform env ambiguous d)
  unfolding perform owed
  left-Bill d h = (omega arith, inr (omega arith))

  unless_left :
      (b : Bool) (a : Action) (d : Drive)
      → Spent total 0 d
      → Holds Paused (Bill total) (perform env a d)
      → Holds Paused (Bill total) (perform env (if b then ambiguous else a) d)
  unless_left true a d h k = left-Bill d h
  unless_left false a d h k = k

  -- The turns that neither call nor resume.
  worked :
      (d : Drive)
      → (Within total investigator_response d → Holds Paused (Bill total) (perform env validate d))
        × (Within total candidate_ready d ⊎ Within total critic_calling d
            → Holds Paused (Bill total) (perform env critic d))
        × (Within total critic_ready d ⊎ Within total finalizer_calling d
            → Holds Paused (Bill total) (perform env finalize d))
        × (Spent total 0 d → Holds Paused (Bill total) (perform env submit d))
        × (Spent total 0 d → Holds Paused (Bill total) (perform env skip d))
        × (Spent total 0 d → Holds Paused (Bill total) (perform env wait d))
  unfolding perform
  worked d = (
    (λ h. over (from_validate env d) (from_validate-Bill d h)),
    (λ h. over (from_critic env d) (from_critic-Bill d h)),
    (λ h. over (from_finalize env d) (from_finalize-Bill d h)),
    (λ h. over (submit_final env d) (submit_final-Bill total env d h)),
    (λ h. Spent-Bill total (returned note_blocked) d (spare total d h)),
    (λ h. give_up-Spent total Paused "VALIDATION_FAILED" _ d h),
  )

  resume-Bill :
      (d : Drive)
      → (job_of d).stage ≡ retry_wait
      → Spent total 0 d
      → Holds Paused (Bill total) (perform env retry d)
  unfolding perform resume
  resume-Bill d e h =
      let r = resume_stage-Resumes env.now (job_of d) (inl e) in
      elim (Bool-cases (resume_stage (job_of d) == (job_of d).stage)) [
        | inl same ↦ rw same (h, IsFit-at (job_of d) _ (sym ((stage_eq.beq_iff _ _).0 same)) r.fits)
        | inr other ↦
            rw (other, r.moves)
              (
                omega (
                  arith,
                  owed-core (arrive env.now (resume_stage (job_of d)) (job_of d)) (job_of d) refl,
                ),
                r.fits,
              )
      ]

  retried-Bill :
      (b : Bool) (d : Drive)
      → (job_of d).stage ≡ retry_wait
      → Spent total 0 d
      → Holds Paused (Bill total) (perform env (if b then retry else wait) d)
  retried-Bill true d e h = resume-Bill d e h
  retried-Bill false d e h = (worked d).5 h

  pub turn-Bill :
      (s : Stage) (d : Drive)
      → (job_of d).stage ≡ s
      → Paused tt d
      → Holds Paused (Bill total) (perform env (action_at env.wall (job_of d) s) d)
  unfolding action_at
  turn-Bill ready d e o = called-Bill d o.0 (Fits-at (job_of d) ready e o.1)
  turn-Bill investigator_calling d e o =
      let silent = Fits-at (job_of d) investigator_calling e o.1 in
      rw silent
        (unless_left (has_attempt "investigator" (job_of d)) call d o.0 (called-Bill d o.0 silent))
  turn-Bill investigator_response d e o = (worked d).0 (e, o.0)
  turn-Bill candidate_ready d e o = (worked d).1 (inl (e, o.0))
  turn-Bill critic_calling d e o = unless_left _ critic d o.0 ((worked d).1 (inr (e, o.0)))
  turn-Bill critic_ready d e o = (worked d).2 (inl (e, o.0))
  turn-Bill finalizer_calling d e o = unless_left _ finalize d o.0 ((worked d).2 (inr (e, o.0)))
  turn-Bill final_ready d e o = (worked d).3 o.0
  turn-Bill submitting d e o = (worked d).3 o.0
  turn-Bill retry_wait d e o = retried-Bill (retry_due env.wall (job_of d).next_retry_at) d e o.0
  turn-Bill remote_outcome_unknown d e o = left-Bill d o.0
  turn-Bill done d e o = (worked d).4 o.0
  turn-Bill blocked d e o = (worked d).4 o.0
  turn-Bill blocked_binding d e o = (worked d).4 o.0
  turn-Bill stale d e o = (worked d).4 o.0
