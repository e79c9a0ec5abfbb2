-- ===== src/Drive/Validated.antt =====
-- What the validation of an answer and the call of a later role cost (`validate_with_repair` of
-- tools/saipal_analyst/worker.py).
use saipal.Base.{ℕ, ◌≡◌, refl, ◌∙◌, ap, inl, inr, false, String, leb, Bool-cases, arith}
use saipal.Jobs.Stage.{Stage}
use saipal.Jobs.Job.{Job, Payload, has_text}
use saipal.Jobs.Resume.{Role, role_response}
use saipal.Worker.Failure.{MayFail}
use saipal.Drive.State.{
  Parsed, accepted, rejected, Env, Drive, M, after, job_of, persist, edit, ◌>>=◌, ◌>>◌,
}
use saipal.Drive.Steps.{
  Said, said, failing, call_role, or_empty, repair_text, repairs_of, Validation, valid, unheard,
  invalid, judge_repaired, judge_repair, ask_repair, after_rejection, judge_first,
  validate_with_repair, max_repairs, fail_over, or_fail, checked, resolve,
}
use saipal.Drive.Roles.{keep_raw, call_late}
use saipal.Drive.Rules.{Holds, after-Holds}
use saipal.Drive.Owed.{
  Speaks, owed-strip, keep_repair-owed, keep_raw-owed, role-strip, keep_repair-stage,
  keep_raw-stage,
}
use saipal.Drive.Spent.{
  replied-answered, Spent, Bill, Since, call_role-Spent, fail_over-Spent, give_up-Spent, Within,
}

module _ (total : ℕ) where
  -- What a validation may cost: a repair that was not heard comes on top.
  abbrev pub Validated : Stage → Validation → Drive → Type 0
  Validated s (unheard k) d = ((job_of d).stage ≡ s) × Spent total 1 d
  Validated s result d = Within total s d

  module _ (env : Env) (s : Stage) (role : Role) (parse : String → Parsed) where
    judge_repaired-Spent :
        (note : String) (o : Parsed) (d : Drive)
        → Within total s d
        → Holds (Validated s) (Bill total) (judge_repaired note o d)
    judge_repaired-Spent note (accepted v) d h = h
    judge_repaired-Spent note (rejected why) d h = h

    judge_repair-Spent :
        (note : String) (answer : Said) (d d1 : Drive)
        → Within total s d
        → has_text (repair_text role (job_of d)) ≡ false
        → repairs_of role (job_of d) ≡ 0
        → Since total (env.repair role) d answer d1
        → Holds (Validated s) (Bill total) (judge_repair role parse note answer d1)
    judge_repair-Spent note (failing k) d d1 h m n (same, calls, _) = (
      ap (λ (j : Job). j.stage) same ∙ h.0,
      omega (arith, owed-strip (job_of d1) (job_of d) same),
    )
    judge_repair-Spent note (said text) d d1 h m n (same, calls, _) =
        let (_, t, r) = role-strip role (job_of d1) (job_of d) same in
        judge_repaired-Spent _ (parse text) _ (
          keep_repair-stage role text (job_of d1) ∙ ap (λ (j : Job). j.stage) same ∙ h.0,
          omega (
            arith,
            owed-strip (job_of d1) (job_of d) same,
            keep_repair-owed role text (job_of d1) (ap has_text t ∙ m) (r ∙ n),
          ),
        )

    ask_repair-Spent :
        (note : String) (d : Drive)
        → Within total s d
        → has_text (repair_text role (job_of d)) ≡ false
        → repairs_of role (job_of d) ≡ 0
        → Holds (Validated s) (Bill total) (ask_repair env role parse note d)
    unfolding ask_repair
    ask_repair-Spent note d h m n =
        after-Holds (Since total (env.repair role) d) (Validated s) (Bill total)
          (call_role env role (env.repair role) _) (judge_repair role parse note)
          (call_role-Spent total env role (env.repair role) _ h.1)
          (λ answer d1 q. judge_repair-Spent note answer d d1 h m n q)

    none_left : (n : ℕ) → leb max_repairs n ≡ false → n ≡ 0
    none_left n e = ground arith

    after_rejection-Spent :
        (note first : String) (d : Drive)
        → Within total s d
        → Holds (Validated s) (Bill total) (after_rejection env role parse note first d)
    unfolding after_rejection
    after_rejection-Spent note first d h =
        elim (Bool-cases (has_text (repair_text role (job_of d)))) [
          | inl stored ↦ rw stored (judge_repaired-Spent _ _ d h)
          | inr missing ↦ elim (Bool-cases (leb max_repairs (repairs_of role (job_of d)))) [
            | inl spent ↦ rw (missing, spent) h
            | inr left ↦
                rw (missing, left)
                  (ask_repair-Spent note d h missing (none_left (repairs_of role (job_of d)) left))
          ]
        ]

    judge_first-Spent :
        (note : String) (o : Parsed) (d : Drive)
        → Within total s d
        → Holds (Validated s) (Bill total) (judge_first env role parse note o d)
    judge_first-Spent note (accepted v) d h = h
    judge_first-Spent note (rejected first) d h = after_rejection-Spent note first d h

    checked-Spent :
        (may : (j : Job) → j.stage ≡ s → MayFail j.stage) (result : Validation) (d : Drive)
        → Validated s result d
        → Holds (λ _ d1. (Within total) s d1) (Bill total) (checked env result d)
    checked-Spent may (valid v) d h = h
    checked-Spent may (unheard k) d h =
        (fail_over-Spent total) env (λ _ d1. (Within total) s d1) k d (may (job_of d) h.0) h.1
    checked-Spent may (invalid why) d h =
        (give_up-Spent total) (λ (_ : Payload) d1. (Within total) s d1) "BLOCKED_OUTPUT" why d h.1

    -- One answer validated, and what the drive goes on with.
    pub judged-Spent :
        (may : (j : Job) → j.stage ≡ s → MayFail j.stage) (note : String) (to : Stage)
        (tail : Payload → M (Unit {0})) (d : Drive)
        → ((v : Payload) (d1 : Drive)
            → Within total s d1
            → Holds (λ _ d2. (Within total) to d2) (Bill total) (tail v d1))
        → Within total s d
        → Holds
            (λ _ d1. (Within total) to d1)
            (Bill total)
            (after
              (validate_with_repair env role parse note d)
              (λ result. checked env result >>= tail))
    unfolding validate_with_repair
    judged-Spent may note to tail d k h =
        after-Holds (Validated s) (λ _ d1. (Within total) to d1) (Bill total)
          (judge_first env role parse note (parse (or_empty (role_response role (job_of d)))) d) _
          (judge_first-Spent note _ d h)
          (λ result d1 q.
            after-Holds (λ _ d2. (Within total) s d2) (λ _ d2. (Within total) to d2) (Bill total)
              (checked env result d1) tail (checked-Spent may result d1 q) k)

  -- An answer that is missing is called for.
  pub call_late-Spent :
      (env : Env) (s : Stage) (role : Role) (d : Drive)
      → Speaks (env.call role)
      → ((j : Job) → j.stage ≡ s → MayFail j.stage)
      → has_text (role_response role (job_of d)) ≡ false
      → Within total s d
      → Holds (λ _ d1. (Within total) s d1) (Bill total) (call_late env role d)
  unfolding call_late
  call_late-Spent env s role d speaks may silent h =
      after-Holds (Since total (env.call role) d) (λ _ d1. (Within total) s d1) (Bill total)
        (call_role env role (env.call role) d) _
        (call_role-Spent total env role (env.call role) d h.1) hear
    where
      hear :
          (answer : Said) (d1 : Drive)
          → Since total (env.call role) d answer d1
          → Holds
              (λ _ d2. (Within total) s d2)
              (Bill total)
              (after
                (or_fail env answer d1)
                (λ text. edit (keep_raw role text) >> (persist >> edit resolve)))
      hear (failing k) d1 (same, calls, _) =
          after-Holds (λ (text : String) d2. ⊥) (λ _ d2. (Within total) s d2) (Bill total)
            (fail_over env k d1) _
            (fail_over-Spent total env (λ (text : String) d2. ⊥) k d1
              (may (job_of d1) (ap (λ (j : Job). j.stage) same ∙ h.0))
              (omega (arith, owed-strip (job_of d1) (job_of d) same)))
            (λ text d2 q. absurd q)
      hear (said text) d1 (same, calls, spoken) =
          let (i, o, replies) = replied-answered (env.call role).reply text (spoken text refl) in
          let (r, _, _) = role-strip role (job_of d1) (job_of d) same in
          (
            keep_raw-stage role text (job_of d1) ∙ ap (λ (j : Job). j.stage) same ∙ h.0,
            omega (
              arith,
              owed-strip (job_of d1) (job_of d) same,
              keep_raw-owed role text (job_of d1) (ap has_text r ∙ silent)
                  (speaks text i o replies),
              owed-strip (resolve (keep_raw role text (job_of d1))) (keep_raw role text (job_of d1))
                  refl,
            ),
          )
