-- ===== src/Drive/Late.antt =====
-- The two later calls, and the critic (`_drive_unit` of tools/saipal_analyst/worker.py).
use saipal.Base.{
  ◌≡◌, refl, ◌≢◌, ◌∙◌, sym, ◌⊎◌, inl, inr, Bool, true, false, not, Option, none, some, String,
  Bool-cases, beq_ne, ◌==◌, string_eq, option_eq,
}
use saipal.Base.Dict.{lookup}
use saipal.Jobs.Stage.{
  Stage, candidate_ready, critic_calling, critic_ready, finalizer_calling, final_ready, submitting,
  Stage-discrete, stage_eq, may_go,
}
use saipal.Jobs.Job.{Job, Payload, has_text, has_payload}
use saipal.Jobs.Resume.{Role, investigator, critic_role, finalizer}
use saipal.Worker.Failure.{MayFail}
use saipal.Drive.Critic.{needs_critic}
use saipal.Drive.State.{Parsed, accepted, Env, Drive, M, after, job_of, stage, ◌>>=◌, pure}
use saipal.Drive.Steps.{call_role, or_fail, validate_with_repair, checked, resolve}
use saipal.Drive.Roles.{
  the_candidate, unless, decide_critic, keep_raw, call_late, keep_critic, with_critic, criticise,
}
use saipal.Drive.Rules.{Holds, after-Holds}
use saipal.Drive.Fit.{IsFit, IsFit-at, advance_legal}
use saipal.Drive.Answered.{soft, call_role-Holds}
use saipal.Drive.Outcome.{E, At, or_fail-Holds, Late, Decided, Undecided, judged-Holds, stage_legal}

module _ (env : Env) (given : Option Payload)
    (full : (text : String) (v : Payload)
      → env.parse_candidate text ≡ accepted v
      → has_payload (some v) ≡ true) where
  pub keep_raw-At :
      (s : Stage) (role : Role) (text : String) (j : Job)
      → At env given s j
      → At env given s (resolve (keep_raw role text j))
  keep_raw-At s investigator text j h = h
  keep_raw-At s critic_role text j h = h
  keep_raw-At s finalizer text j h = h

  pub At-IsFit :
      (s : Stage) (j : Job)
      → (s ≡ critic_calling) ⊎ ((s ≡ finalizer_calling) ⊎ ((s ≡ final_ready) ⊎ (s ≡ submitting)))
      → At env given s j
      → IsFit j
  At-IsFit s j (inl e) h = IsFit-at j critic_calling (h.0 ∙ e) h.1
  At-IsFit s j (inr (inl e)) h = IsFit-at j finalizer_calling (h.0 ∙ e) h.1
  At-IsFit s j (inr (inr (inl e))) h = IsFit-at j final_ready (h.0 ∙ e) h.1
  At-IsFit s j (inr (inr (inr e))) h = IsFit-at j submitting (h.0 ∙ e) h.1

  -- What holds at the two later calls.
  module _ (s : Stage) (late : Late env given s) where
    pub late_may : (j : Job) → At env given s j → MayFail j.stage
    late_may j h = elim late [
      | inl e ↦ inr (inr (inl (h.0 ∙ e)))
      | inr e ↦ inr (inr (inr (h.0 ∙ e)))
    ]

    pub late-IsFit : (j : Job) → At env given s j → IsFit j
    late-IsFit j h = elim late [
      | inl e ↦ At-IsFit s j (inl e) h
      | inr e ↦ At-IsFit s j (inr (inl e)) h
    ]

    call_late-Holds :
        (role : Role) (d : Drive)
        → At env given s (job_of d)
        → Holds (λ _ d1. At env given s (job_of d1)) (E env given) (call_late env role d)
    unfolding call_late
    call_late-Holds role d h =
        after-Holds (λ _ d1. At env given s (job_of d1)) (λ _ d1. At env given s (job_of d1))
          (E env given) (call_role env role (env.call role) d) _
          (call_role-Holds env (At env given s) (E env given)
            (λ w d1 q. (tt, late-IsFit (soft (job_of d1)) q, q.2)) role (env.call role) d h)
          (λ answer d1 p.
            after-Holds (λ _ d2. At env given s (job_of d2)) (λ _ d2. At env given s (job_of d2))
              (E env given) (or_fail env answer d1) _
              (or_fail-Holds env given (λ d2. At env given s (job_of d2)) answer d1
                (late_may (soft (job_of d1)) p) p.2 p)
              (λ text d2 q. keep_raw-At s role text (job_of d2) q))

    -- The answer of the role, called for only if it is not stored, then validated.
    pub late-Holds :
        (role : Role) (stored : Bool) (parse : String → Parsed) (note : String)
        (Post : Job → Type 0) (tail : Payload → M (Unit {0})) (d : Drive)
        → ((v : Payload) (text : String) (d1 : Drive)
            → parse text ≡ accepted v
            → At env given s (job_of d1)
            → Holds (λ _ d2. Post (job_of d2)) (E env given) (tail v d1))
        → At env given s (job_of d)
        → Holds
            (λ _ d1. Post (job_of d1))
            (E env given)
            (after (unless stored (call_late env role) d) (λ _ d1.
              after
                (validate_with_repair env role parse note d1)
                (λ result. checked env result >>= tail)))
    late-Holds role stored parse note Post tail d k h =
        after-Holds (λ _ d1. At env given s (job_of d1)) (λ _ d1. Post (job_of d1)) (E env given)
          (unless stored (call_late env role) d) _ (asked stored)
          (λ _ d1 p.
            judged-Holds env given (At env given s) late_may (λ j q. q.2) late-IsFit parse Post tail
              k role note d1 p)
      where
        asked :
            (b : Bool)
            → Holds
                (λ _ d1. At env given s (job_of d1))
                (E env given)
                (unless b (call_late env role) d)
        asked true = h
        asked false = call_late-Holds role d h

  pub with_critic-Holds :
      (d : Drive)
      → At env given candidate_ready (job_of d) ⊎ At env given critic_calling (job_of d)
      → Holds (λ _ d1. At env given critic_ready (job_of d1)) (E env given) (with_critic env d)
  unfolding with_critic may_go Stage-discrete
  with_critic-Holds d at =
      after-Holds (λ _ d1. At env given critic_calling (job_of d1))
        (λ _ d1. At env given critic_ready (job_of d1)) (E env given)
        (unless (not ((job_of d).stage == candidate_ready)) (stage env critic_calling (λ k. k)) d) _
        (enter at)
        (λ _ d1 p.
          late-Holds critic_calling (inl refl) critic_role
            (has_text (job_of d).critic_response_text) env.parse_critic "critic output"
            (At env given critic_ready) _ d1
            (λ v text d2 e q.
              stage_legal env (E env given) (At env given critic_ready) critic_ready
                (keep_critic env v) d2 critic_calling q.0 refl (refl, q.1, q.2))
            p)
    where
      enter :
          At env given candidate_ready (job_of d) ⊎ At env given critic_calling (job_of d)
          → Holds
              (λ _ d1. At env given critic_calling (job_of d1))
              (E env given)
              (unless
                (not ((job_of d).stage == candidate_ready))
                (stage env critic_calling (λ k. k))
                d)
      enter (inl h) = rw ((stage_eq.beq_iff (job_of d).stage candidate_ready).1 h.0) (
          stage_legal env (E env given) (At env given critic_calling) critic_calling (λ k. k) d
            candidate_ready h.0 refl (refl, h.1, h.2))
      enter (inr h) = rw (beq_ne (job_of d).stage candidate_ready (λ e. apart (sym h.0 ∙ e))) h
        where
          apart : critic_calling ≢ candidate_ready
          apart e = cc

  -- A candidate is there: the code reads its fields.
  pub the_candidate-Holds :
      (K : Drive → Type 0) (o : Option Payload) (d : Drive)
      → has_payload o ≡ true
      → K d
      → Holds (λ c d1. (o ≡ some c) × K d1) (E env given) (the_candidate o d)
  the_candidate-Holds K none d h k = cc
  the_candidate-Holds K (some c) d h k = (refl, k)

  pub unneeded :
      (c : Payload) (d : Drive)
      → Undecided env given d
      → (job_of d).candidate ≡ some c
      → needs_critic env.policy env.packet (lookup "verdict" c) ≡ false
      → At env given candidate_ready (job_of d)
  unneeded c d (inl h, same) e no_need = h
  unneeded c d (inr h, same) e no_need = absurd (clash (sym no_need ∙ same h.0 c e))
    where
      clash : false ≡ true → ⊥
      clash x = cc

  pub decide-Holds :
      (c : Payload) (d : Drive)
      → Undecided env given d
      → (job_of d).candidate ≡ some c
      → Holds
          (λ final d1. Decided env given final (job_of d1))
          (E env given)
          (decide_critic env c d)
  unfolding decide_critic may_go
  decide-Holds c d u e =
      elim (Bool-cases (needs_critic env.policy env.packet (lookup "verdict" c))) [
        | inl need ↦ rw need (
            after-Holds (λ _ d1. At env given critic_ready (job_of d1))
              (λ final d1. Decided env given final (job_of d1)) (E env given) (with_critic env d)
              (λ _. pure false) (with_critic-Holds d u.0) (λ _ d1 h. h))
        | inr no_need ↦
            let h = unneeded c d u e no_need in
            rw (no_need, advance_legal env.now (job_of d) candidate_ready final_ready h.0 refl)
              (refl, h.1, h.2)
      ]

  pub criticise-Holds :
      (d : Drive)
      → Undecided env given d
      → Holds (λ final d1. Decided env given final (job_of d1)) (E env given) (criticise env d)
  unfolding criticise
  criticise-Holds d u =
      after-Holds
        (λ c d1.
          ((job_of d).candidate ≡ some c)
          × (Undecided env given d1 × ((job_of d1).candidate ≡ (job_of d).candidate)))
        (λ final d1. Decided env given final (job_of d1)) (E env given)
        (the_candidate (job_of d).candidate d) (decide_critic env)
        (the_candidate-Holds
          (λ d1. Undecided env given d1 × ((job_of d1).candidate ≡ (job_of d).candidate))
          (job_of d).candidate d (there u.0) (u, refl))
        (λ c d1 q. decide-Holds c d1 q.1.0 (q.1.1 ∙ q.0))
    where
      there :
          At env given candidate_ready (job_of d) ⊎ At env given critic_calling (job_of d)
          → has_payload (job_of d).candidate ≡ true
      there (inl h) = h.1
      there (inr h) = h.1
