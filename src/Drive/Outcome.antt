-- ===== src/Drive/Outcome.antt =====
-- What a drive may end with, and the steps that every answer goes through
-- (`_drive_unit` of tools/saipal_analyst/worker.py).
use saipal.Base.{
  ◌≡◌, refl, ◌≢◌, ◌∙◌, sym, ap, ◌⊎◌, Bool, true, false, ◌||◌, Option, some, String, string_eq,
  option_eq,
}
use mathlib.Core.Path.{subst}
use saipal.Base.Dict.{lookup}
use saipal.Jobs.Stage.{
  Stage, investigator_calling, investigator_response, candidate_ready, critic_calling, critic_ready,
  finalizer_calling, final_ready, done, retry_wait, blocked, stage_eq, may_go,
}
use saipal.Jobs.Job.{Job, Payload, has_text, has_payload}
use saipal.Jobs.Resume.{Role}
use saipal.Worker.Failure.{MayFail, note_done}
use saipal.Drive.Critic.{needs_critic}
use saipal.Drive.State.{
  Parsed, accepted, Refusal, receipted, refused, Env, Drive, Ending, returned, over_budget, raised,
  crashed, M, after, job_of, stage, ◌>>=◌,
}
use saipal.Drive.Steps.{
  Said, said, failing, or_fail, Validation, valid, unheard, invalid, validate_with_repair, checked,
  fail_over,
}
use saipal.Drive.Unit.{is_scope, submission_of}
use saipal.Drive.Rules.{Holds, after-Holds}
use saipal.Drive.Fit.{IsFit, IsFit-at, arrive, advance_legal, advance_stay}
use saipal.Drive.Answered.{soft, Judged, validate_with_repair-Holds, fail_over-Holds}

-- A legal stage, and one that the job is at already.
module _ (env : Env) (E : Ending → Drive → Type 0) (Q : Job → Type 0) (to : Stage) where
  pub stage_legal :
      (f : Job → Job) (d : Drive) (s : Stage)
      → (f (job_of d)).stage ≡ s
      → may_go s to ≡ true
      → Q (arrive env.now to (f (job_of d)))
      → Holds (λ _ d1. Q (job_of d1)) E (stage env to f d)
  stage_legal f d s e legal h = rw (advance_legal env.now (f (job_of d)) s to e legal) h

  pub stage_stay :
      (f : Job → Job) (d : Drive)
      → (f (job_of d)).stage ≡ to
      → Q (f (job_of d))
      → Holds (λ _ d1. Q (job_of d1)) E (stage env to f d)
  stage_stay f d e h = rw (advance_stay env.now (f (job_of d)) to e) h

module _ (env : Env) (given : Option Payload) where
  -- The candidate that the job came with, or one that the parser has let through.
  abbrev pub Valid : Payload → Type 0
  Valid c = (given ≡ some c) ⊎ ((text : String) × (env.parse_candidate text ≡ accepted c))

  abbrev pub Sourced : Option Payload → Type 0
  Sourced o = (c : Payload) → o ≡ some c → Valid c

  -- A validated candidate that the kernel has given a receipt for, and the job settled with it.
  pub record IsJudged (d : Drive) : Type 0 where
    pub candidate : Payload
    pub receipt : String
    pub validated : Valid candidate
    pub receipted_by : env.kernel (submission_of candidate) ≡ receipted receipt
    pub linked : (job_of d).receipt_id ≡ some receipt
    pub settled : (job_of d).stage ≡ done

  -- The kernel refuses for another reason than a unit that has moved on.
  abbrev pub KernelRefuses : Type 0
  KernelRefuses =
      (c : Payload) × (r : Refusal) × (env.kernel c ≡ refused r)
      × ((is_scope r.code || env.mentions_stale r.message) ≡ false)

  abbrev pub Outcome : Ending → Drive → Type 0
  Outcome (returned note_done) d = IsJudged d
  Outcome (returned _) d = Unit
  Outcome (over_budget s) d = Unit
  Outcome (raised code) d = KernelRefuses
  Outcome crashed d = ⊥

  abbrev pub E : Ending → Drive → Type 0
  E e d = Outcome e d × IsFit (job_of d) × Sourced (job_of d).candidate

  abbrev pub At : Stage → Job → Type 0
  At s j = (j.stage ≡ s) × (has_payload j.candidate ≡ true) × Sourced j.candidate

  abbrev pub Late : Stage → Type 0
  Late s = (s ≡ critic_calling) ⊎ (s ≡ finalizer_calling)

  abbrev pub Decided : Bool → Job → Type 0
  Decided true j = At final_ready j
  Decided false j = At critic_ready j

  -- Before the critic: if it is being called already, the policy still wants it.
  abbrev pub Undecided : Drive → Type 0
  Undecided d =
      (At candidate_ready (job_of d) ⊎ At critic_calling (job_of d))
      × ((job_of d).stage ≡ critic_calling
          → (c : Payload) → (job_of d).candidate ≡ some c
          → needs_critic env.policy env.packet (lookup "verdict" c) ≡ true)

  abbrev pub Criticised : Job → Type 0
  Criticised j = At critic_ready j ⊎ At finalizer_calling j

  -- Nothing goes on after a submission.
  abbrev pub Over : Unit {0} → Drive → Type 0
  Over _ d = ⊥

  -- The job of a receipted candidate, done.
  abbrev pub Linked : String → Job → Type 0
  Linked id j = (j.stage ≡ done) × (j.receipt_id ≡ some id) × Sourced j.candidate

  abbrev pub Receipted : String → Drive → Type 0
  Receipted id d = ((job_of d).receipt_id ≡ some id) × Sourced (job_of d).candidate

  -- A turn of the loop at a stage, and what it may go on to: a job that is not at the critic.
  abbrev pub Ready : Unit {0} → Drive → Type 0
  Ready _ d = IsFit (job_of d) × Sourced (job_of d).candidate × ((job_of d).stage ≢ critic_calling)

  -- What the theorem asks of the job that it starts from.
  abbrev pub Opened : Drive → Type 0
  Opened d =
      IsFit (job_of d)
      × Sourced (job_of d).candidate
      × ((job_of d).stage ≡ critic_calling
          → (c : Payload) → (job_of d).candidate ≡ some c
          → needs_critic env.policy env.packet (lookup "verdict" c) ≡ true)

  pub fails :
      {A : Type 0} (R : A → Drive → Type 0) (k : _) (d : Drive)
      → MayFail (job_of d).stage
      → Sourced (job_of d).candidate
      → Holds R E (fail_over env k d)
  fails R k d may src =
      fail_over-Holds env R E k d may
        (λ d1 e c _. (
          tt,
          IsFit-at (job_of d1) blocked e tt,
          λ p f. src p (sym (ap (λ (j : Job). j.candidate) c) ∙ f),
        ))
        (λ d1 e c _. (
          tt,
          IsFit-at (job_of d1) retry_wait e tt,
          λ p f. src p (sym (ap (λ (j : Job). j.candidate) c) ∙ f),
        ))

  pub or_fail-Holds :
      (Q : Drive → Type 0) (answer : Said) (d : Drive)
      → MayFail (job_of d).stage
      → Sourced (job_of d).candidate
      → Q d
      → Holds (λ _ d1. Q d1) E (or_fail env answer d)
  or_fail-Holds Q (said text) d may src h = h
  or_fail-Holds Q (failing k) d may src h = fails (λ _ d1. Q d1) k d may src

  pub checked-Holds :
      (Q : Payload → Drive → Type 0) (result : Validation) (d : Drive)
      → MayFail (job_of d).stage
      → Sourced (job_of d).candidate
      → ((v : Payload) → result ≡ valid v → Q v d)
      → Holds Q E (checked env result d)
  checked-Holds Q (valid v) d may src h = h v refl
  checked-Holds Q (unheard k) d may src h = fails Q k d may src
  checked-Holds Q (invalid why) d may src h = (tt, tt, src)

  abbrev pub Calling : Job → Type 0
  Calling j =
      (j.stage ≡ investigator_calling) × (has_text j.response_text ≡ false) × Sourced j.candidate

  abbrev pub Responded : Job → Type 0
  Responded j = (j.stage ≡ investigator_response) × Sourced j.candidate

  -- One answer validated: the drive goes on with what the parser has let through, or ends.
  module _ (P : Job → Type 0) (may : (j : Job) → P j → MayFail j.stage)
      (src : (j : Job) → P j → Sourced j.candidate) (fit : (j : Job) → P j → IsFit j)
      (parse : String → Parsed) (Post : Job → Type 0) (tail : Payload → M (Unit {0}))
      (goes_on : (v : Payload) (text : String) (d : Drive)
        → parse text ≡ accepted v
        → P (soft (job_of d))
        → Holds (λ _ d1. Post (job_of d1)) E (tail v d)) where
    Taken : Payload → Drive → Type 0
    Taken v d = ((text : String) × (parse text ≡ accepted v)) × P (soft (job_of d))

    taken :
        (result : Validation) (d : Drive)
        → Judged parse result
        → P (soft (job_of d))
        → Holds Taken E (checked env result d)
    unfolding Taken
    taken result d judged p =
        checked-Holds Taken result d (may (soft (job_of d)) p) (src (soft (job_of d)) p)
          (λ v e. (subst (Judged parse) e judged, p))

    pub judged-Holds :
        (role : Role) (note : String) (d : Drive)
        → P (soft (job_of d))
        → Holds
            (λ _ d1. Post (job_of d1))
            E
            (after
              (validate_with_repair env role parse note d)
              (λ result. checked env result >>= tail))
    unfolding Taken
    judged-Holds role note d p =
        after-Holds (λ result d1. Judged parse result × P (soft (job_of d1)))
          (λ _ d1. Post (job_of d1)) E (validate_with_repair env role parse note d) _
          (validate_with_repair-Holds env P E
            (λ s d1 q. (tt, fit (soft (job_of d1)) q, src (soft (job_of d1)) q)) parse role note d
            p)
          (λ result d1 q.
            after-Holds Taken (λ _ d2. Post (job_of d2)) E (checked env result d1) tail
              (taken result d1 q.0 q.1) (λ v d2 t. goes_on v t.0.0 d2 t.0.1 t.1))
