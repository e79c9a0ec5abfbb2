-- ===== src/Drive/Paid.antt =====
-- What a whole drive costs (`_drive_unit` of tools/saipal_analyst/worker.py).
use saipal.Base.{
  ℕ, ◌≡◌, refl, ◌∙◌, sym, ap, ◌⊎◌, inl, inr, Bool, true, false, not, String, arith, ◌≢◌, beq_ne,
  ◌==◌, string_eq, option_eq,
}
use saipal.Jobs.Stage.{
  Stage, investigator_calling, investigator_response, candidate_ready, critic_calling, critic_ready,
  finalizer_calling, final_ready, Stage-discrete, stage_eq,
}
use saipal.Jobs.Job.{Job, Payload, has_text}
use saipal.Jobs.Resume.{Role, investigator, critic_role, finalizer, role_response}
use saipal.Worker.Failure.{MayFail}
use saipal.Drive.State.{Parsed, Env, Drive, M, after, job_of, stage, edit, ◌>>=◌}
use saipal.Drive.Steps.{
  Said, said, failing, call_role, validate_with_repair, fail_over, checked, resolve, adopt,
}
use saipal.Drive.Roles.{
  keep_response, hear_investigator, call_investigator, validate_response, source_digest,
  with_critic, keep_critic, keep_finalizer, unless, with_finalizer, call_late,
}
use saipal.Drive.Rules.{Holds, after-Holds, Holds-weaken}
use saipal.Drive.Owed.{
  Speaks, owed, owed-strip, keep_raw-owed, role-strip, keep_response-owed, adopt-owed,
  source_digest-owed, keep_critic-owed, keep_finalizer-owed,
}
use saipal.Drive.Validated.{judged-Spent, call_late-Spent}
use saipal.Drive.Spent.{
  replied-answered, Spent, Bill, Since, call_role-Spent, fail_over-Spent, Within, Moved,
  stage-Moved,
}

module _ (total : ℕ) (env : Env) where
  abbrev pub Going : Stage → Unit {0} → Drive → Type 0
  Going s _ d = Within total s d

  hear_investigator-Spent :
      (answer : Said) (d d1 : Drive)
      → Speaks (env.call investigator)
      → has_text (job_of d).response_text ≡ false
      → Within total investigator_calling d
      → Since total (env.call investigator) d answer d1
      → Holds (Going investigator_response) (Bill total) (hear_investigator env answer d1)
  hear_investigator-Spent (failing k) d d1 speaks silent h (same, calls, _) =
      after-Holds (λ (text : String) d2. ⊥) (Going investigator_response) (Bill total)
        (fail_over env k d1) _
        (fail_over-Spent total env (λ (text : String) d2. ⊥) k d1
          (inl (ap (λ (j : Job). j.stage) same ∙ h.0))
          (omega (arith, owed-strip (job_of d1) (job_of d) same)))
        (λ text d2 q. absurd q)
  hear_investigator-Spent (said text) d d1 speaks silent h (same, calls, spoken) =
      let (i, o, replies) =
        replied-answered (env.call investigator).reply text (spoken text refl) in
      let (r, _, _) = role-strip investigator (job_of d1) (job_of d) same in
      let paid =
        keep_raw-owed investigator text (job_of d1) (ap has_text r ∙ silent)
          (speaks text i o replies) in
      after-Holds
        (λ _ d2. Moved total investigator_response (keep_response env text (job_of d1)) d2)
        (Going investigator_response) (Bill total)
        (stage env investigator_response (keep_response env text) d1) (λ _. edit resolve)
        (stage-Moved total env investigator_response (keep_response env text) d1 (
          omega (
            arith,
            owed-strip (job_of d1) (job_of d) same,
            paid,
            keep_response-owed env (job_of d1) text,
          )))
        (λ _ d2 q. (q.0.0, omega (arith, owed-strip (resolve (job_of d2)) (job_of d2) refl)))

  pub call_investigator-Spent :
      (d : Drive)
      → Speaks (env.call investigator)
      → has_text (job_of d).response_text ≡ false
      → Spent total 0 d
      → Holds (Going investigator_response) (Bill total) (call_investigator env d)
  unfolding call_investigator
  call_investigator-Spent d speaks silent h =
      after-Holds (λ _ d1. Moved total investigator_calling (job_of d) d1)
        (Going investigator_response) (Bill total) (stage env investigator_calling (λ j. j) d) _
        (stage-Moved total env investigator_calling (λ j. j) d h)
        (λ _ d1 p.
          after-Holds (Since total (env.call investigator) d1) (Going investigator_response)
            (Bill total) (call_role env investigator (env.call investigator) d1)
            (hear_investigator env)
            (call_role-Spent total env investigator (env.call investigator) d1 p.0.1)
            (λ answer d2 q.
              hear_investigator-Spent answer d1 d2 speaks
                (ap (λ (j : Job). has_text j.response_text) p.1 ∙ silent) p.0 q))

  -- A step that moves the job on, without a word from a provider.
  pub on :
      (to : Stage) (f : Job → Job) (d : Drive)
      → owed (f (job_of d)) ≡ owed (job_of d)
      → Spent total 0 d
      → Holds (Going to) (Bill total) (stage env to f d)
  on to f d same h =
      Holds-weaken (λ _ d1. Moved total to (f (job_of d)) d1) (Going to) (Bill total)
        (stage env to f d) (stage-Moved total env to f d (omega (arith, same))) (λ _ d1 q. q.0)

  pub validate_response-Spent :
      (d : Drive)
      → Within total investigator_response d
      → Holds (Going candidate_ready) (Bill total) (validate_response env d)
  unfolding validate_response
  validate_response-Spent d h =
      judged-Spent total env investigator_response investigator env.parse_candidate
        (λ j e. inr (inl e)) "investigator output" candidate_ready _ d
        (λ v d1 q.
          on candidate_ready (λ j. source_digest env (adopt env v j)) d1
            (source_digest-owed env (adopt env v (job_of d1)) ∙ adopt-owed env (job_of d1) v) q.1)
        h

  -- The answer of a later role: called for if it is not stored, then validated.
  late-Spent :
      (s to : Stage) (role : Role) (parse : String → Parsed) (note : String) (stored : Bool)
      (tail : Payload → M (Unit {0})) (d : Drive)
      → ((j : Job) → j.stage ≡ s → MayFail j.stage)
      → Speaks (env.call role)
      → has_text (role_response role (job_of d)) ≡ stored
      → Within total s d
      → ((v : Payload) (d1 : Drive) → Within total s d1 → Holds (Going to) (Bill total) (tail v d1))
      → Holds (Going to) (Bill total) (
          after (unless stored (call_late env role) d) (λ _ d1.
            after
              (validate_with_repair env role parse note d1)
              (λ result. checked env result >>= tail)))
  late-Spent s to role parse note stored tail d may speaks held h k =
      after-Holds (Going s) (Going to) (Bill total) (unless stored (call_late env role) d) _
        (asked stored held) (λ _ d1 q. judged-Spent total env s role parse may note to tail d1 k q)
    where
      asked :
          (b : Bool)
          → has_text (role_response role (job_of d)) ≡ b
          → Holds (Going s) (Bill total) (unless b (call_late env role) d)
      asked true e = h
      asked false e = call_late-Spent total env s role d speaks may e h

  -- The stage of a later role is entered unless the job is there.
  enter-Spent :
      (from to : Stage) (d : Drive)
      → Within total from d ⊎ Within total to d
      → from ≢ to
      → Holds
          (λ _ d1. Moved total to (job_of d) d1)
          (Bill total)
          (unless (not ((job_of d).stage == from)) (stage env to (λ j. j)) d)
  enter-Spent from to d (inl h) apart =
      rw ((stage_eq.beq_iff (job_of d).stage from).1 h.0) (stage-Moved total env to (λ j. j) d h.1)
  enter-Spent from to d (inr h) apart =
      rw (beq_ne (job_of d).stage from (λ e. apart (sym e ∙ h.0))) (h, refl)

  pub with_critic-Spent :
      (d : Drive)
      → Speaks (env.call critic_role)
      → Within total candidate_ready d ⊎ Within total critic_calling d
      → Holds (Going critic_ready) (Bill total) (with_critic env d)
  unfolding with_critic Stage-discrete
  with_critic-Spent d speaks at =
      after-Holds (λ _ d1. Moved total critic_calling (job_of d) d1) (Going critic_ready)
        (Bill total)
        (unless (not ((job_of d).stage == candidate_ready)) (stage env critic_calling (λ j. j)) d) _
        (enter-Spent candidate_ready critic_calling d at (λ e. cc))
        (λ _ d1 p.
          late-Spent critic_calling critic_ready critic_role env.parse_critic "critic output"
            (has_text (job_of d).critic_response_text) _ d1 (λ j e. inr (inr (inl e))) speaks
            (ap (λ (j : Job). has_text j.critic_response_text) p.1) p.0
            (λ v d2 q.
              on critic_ready (keep_critic env v) d2 (keep_critic-owed env (job_of d2) v) q.1))

  pub with_finalizer-Spent :
      (d : Drive)
      → Speaks (env.call finalizer)
      → Within total critic_ready d ⊎ Within total finalizer_calling d
      → Holds (Going final_ready) (Bill total) (with_finalizer env d)
  unfolding with_finalizer Stage-discrete
  with_finalizer-Spent d speaks at =
      after-Holds (λ _ d1. Moved total finalizer_calling (job_of d) d1) (Going final_ready)
        (Bill total)
        (unless (not ((job_of d).stage == critic_ready)) (stage env finalizer_calling (λ j. j)) d) _
        (enter-Spent critic_ready finalizer_calling d at (λ e. cc))
        (λ _ d1 p.
          late-Spent finalizer_calling final_ready finalizer env.parse_candidate "finalizer output"
            (has_text (job_of d).finalizer_response_text) _ d1 (λ j e. inr (inr (inr e))) speaks
            (ap (λ (j : Job). has_text j.finalizer_response_text) p.1) p.0
            (λ v d2 q.
              on final_ready (λ j. keep_finalizer env (adopt env v j)) d2
                (keep_finalizer-owed env (adopt env v (job_of d2)) ∙ adopt-owed env (job_of d2) v)
                q.1))
