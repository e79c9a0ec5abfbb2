-- ===== src/Drive/Sound.antt =====
-- A drive of a job that holds what its stage needs breaks no rule of the table of moves, and hands
-- in nothing that was not validated (`_drive_unit` of tools/saipal_analyst/worker.py).
use saipal.Base.{
  ℕ, zero, suc, ◌≡◌, refl, inl, inr, true, Option, none, some, ◌∷◌, String, Bool-cases, ◌==◌,
  string_eq, option_eq,
}
use saipal.Base.Dict.{lookup}
use saipal.Jobs.Stage.{ready, critic_calling, blocked_binding, Stage-discrete, stage_eq}
use saipal.Jobs.Job.{new_job, Job, Payload, WorkUnit, has_payload}
use saipal.Jobs.Resume.{action_at, next_action}
use saipal.Drive.Critic.{needs_critic}
use saipal.Drive.State.{
  accepted, Refusal, Env, Drive, Ending, Progress, going, ended, job_of, with_job, ◌>>◌,
}
use saipal.Drive.Unit.{
  perform, drive_on, cleared, bind_or_leave, reactivate, open_job, read_packet, drive_unit,
}
use saipal.Drive.Settled.{drive_unit-Ends}
use saipal.Drive.Rules.{Ends, Holds, after-Holds}
use saipal.Drive.Fit.{IsFit, IsFit-at, resume_stage-Resumes}
use saipal.Drive.Outcome.{Valid, Sourced, Outcome, E, Ready, Opened}
use saipal.Drive.Turns.{turn-Holds}

module _ (env : Env) (given : Option Payload)
    (full : (text : String) (v : Payload)
      → env.parse_candidate text ≡ accepted v
      → has_payload (some v) ≡ true) where
  pub Ready-opens : (d : Drive) → Ready env given tt d → Opened env given d
  Ready-opens d h = (h.0, h.1, λ e. absurd (h.2 e))

  pub drive_on-Holds :
      (turns : ℕ) (d : Drive)
      → Opened env given d
      → Holds (λ _ d1. Opened env given d1) (E env given) (drive_on turns env d)
  unfolding drive_on next_action
  drive_on-Holds zero d o = o
  drive_on-Holds (suc turns) d o =
      after-Holds (Ready env given) (λ _ d1. Opened env given d1) (E env given)
        (perform env (action_at env.wall (job_of d) (job_of d).stage) d) _
        (turn-Holds env given full (job_of d).stage d refl o)
        (λ _ d1 h. drive_on-Holds turns d1 (Ready-opens d1 h))

  pub reactivate-Holds :
      (d : Drive)
      → Opened env given d
      → Holds (λ _ d1. Opened env given d1) (E env given) (reactivate env d)
  unfolding reactivate Stage-discrete
  reactivate-Holds d o = elim (Bool-cases ((job_of d).stage == blocked_binding)) [
    | inr other ↦ rw other o
    | inl bound ↦ rw bound (bind env.unbound ((stage_eq.beq_iff _ _).0 bound))
  ]
    where
      bind :
          (p : Option String)
          → (job_of d).stage ≡ blocked_binding
          → Holds (λ _ d1. Opened env given d1) (E env given) (bind_or_leave env p d)
      bind (some reason) e = (tt, IsFit-at (job_of d) blocked_binding e tt, o.1)
      bind none e =
          let r = resume_stage-Resumes env.now (cleared (job_of d)) (inr e) in
          rw r.moves (r.fits, o.1, λ f. absurd (r.calls_no_critic f))

  pub read_packet-Holds :
      (p : Option Refusal) (d : Drive)
      → Opened env given d
      → Holds (λ _ d1. Opened env given d1) (E env given) (read_packet env p d)
  read_packet-Holds none d o = o
  read_packet-Holds (some r) d o = (tt, tt, o.1)

  pub from_open-Holds :
      (turns : ℕ) (d : Drive)
      → Opened env given d
      → Holds
          (λ _ d1. Opened env given d1)
          (E env given)
          ((do reactivate env; read_packet env env.packet_refused; drive_on turns env) d)
  from_open-Holds turns d o =
      after-Holds (λ _ d1. Opened env given d1) (λ _ d1. Opened env given d1) (E env given)
        (reactivate env d) _ (reactivate-Holds d o)
        (λ _ d1 o1.
          after-Holds (λ _ d2. Opened env given d2) (λ _ d2. Opened env given d2) (E env given)
            (read_packet env env.packet_refused d1) _ (read_packet-Holds env.packet_refused d1 o1)
            (λ _ d2 o2. drive_on-Holds turns d2 o2))

abbrev pub candidate_of : Option Job → Option Payload
candidate_of none = none
candidate_of (some j) = j.candidate

-- The job that a drive finds holds what its stage needs, and if the critic is being called for it,
-- the policy still wants the critic.
abbrev pub IsDrivable : Env → Option Job → Type 0
IsDrivable env none = Unit
IsDrivable env (some j) =
    IsFit j
    × (j.stage ≡ critic_calling
        → (c : Payload) → j.candidate ≡ some c
        → needs_critic env.policy env.packet (lookup "verdict" c) ≡ true)

-- The fate of a drive: it has ended, in a way that the job allows.
pub record IsSound (env : Env) (given : Option Payload) (p : Progress (Unit {0})) : Type 0 where
  pub ending : Ending
  pub last : Drive
  pub ends : p ≡ ended ending last
  pub outcome : Outcome env given ending last
  pub fit : IsFit (job_of last)
  pub sourced : Sourced env given (job_of last).candidate

fated :
    (env : Env) (given : Option Payload) (p : Progress (Unit {0}))
    → Ends p
    → Holds (λ _ d. Opened env given d) (E env given) p
    → IsSound env given p
fated env given (going a d) over h = absurd over
fated env given (ended e d) over h = record {
  ending = e;
  last = d;
  ends = refl;
  outcome = h.0;
  fit = h.1;
  sourced = h.2;
}

-- A drive of a job that is new, or that holds what its stage needs and is at the critic only if the
-- policy still wants one, always ends within two turns of its loop: never by an exception, by a
-- refused move only after the kernel has refused the candidate, and with the note DONE only if the
-- kernel has given its receipt, which the job then carries, for a candidate that the job came with
-- or that the parser has let through. Whatever the ending, the job is again one that holds what its
-- stage needs. Parsed candidates are assumed not to be empty.
pub drive_unit-IsSound :
    (env : Env) (u : WorkUnit) (found : Option Job) (d : Drive)
    → ((text : String) (v : Payload)
        → env.parse_candidate text ≡ accepted v
        → has_payload (some v) ≡ true)
    → IsDrivable env found
    → IsSound env (candidate_of found) (drive_unit 2 env u found d)
unfolding drive_unit open_job new_job
drive_unit-IsSound env u none d full drivable =
    fated env none (drive_unit 2 env u none d) (drive_unit-Ends env u none d)
      (from_open-Holds env none full 2 minted (refl, nothing, fresh))
  where
    minted : Drive
    minted = let j = new_job env.hashing env.now u in record (with_job j d) { saved = j ∷ d.saved }

    nothing : (c : Payload) → none ≡ some c → Valid env none c
    nothing c e = cc

    fresh :
        ready ≡ critic_calling
        → (c : Payload) → none ≡ some c
        → needs_critic env.policy env.packet (lookup "verdict" c) ≡ true
    fresh e c f = cc
drive_unit-IsSound env u (some j) d full drivable =
    fated env j.candidate (drive_unit 2 env u (some j) d) (drive_unit-Ends env u (some j) d)
      (from_open-Holds env j.candidate full 2 (with_job j d) (drivable.0, λ c e. inl e, drivable.1))
