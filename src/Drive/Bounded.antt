-- ===== src/Drive/Bounded.antt =====
-- What a whole drive costs (`_drive_unit` of tools/saipal_analyst/worker.py).
use saipal.Base.{
  ℕ, zero, suc, ◌+◌, ◌≤◌, ◌≡◌, refl, ◌⊎◌, inl, inr, Option, none, some, String, Bool-cases, arith,
  ◌==◌, string_eq, option_eq, ◌==◌, string_eq, option_eq,
}
use saipal.Jobs.Stage.{done, blocked_binding, Stage-discrete, stage_eq}
use saipal.Jobs.Job.{Job, WorkUnit}
use saipal.Jobs.Resume.{Role, action_at, next_action}
use saipal.Drive.State.{Env, Drive, Ending, Progress, going, ended, job_of, with_job, ◌>>◌, Refusal}
use saipal.Drive.Unit.{
  perform, drive_on, reactivate, read_packet, open_job, drive_unit, bind_or_leave, cleared,
}
use saipal.Drive.Settled.{drive_unit-Ends}
use saipal.Drive.Rules.{Ends, Holds, after-Holds}
use saipal.Drive.Owed.{Speaks, owed}
use saipal.Drive.Spent.{Bill, give_up-Spent}
use saipal.Drive.Fit.{IsFit, resume_stage-Resumes}
use saipal.Drive.Billed.{Paused, turn-Bill}

module _ (total : ℕ) (env : Env) (speaks : (role : Role) → Speaks (env.call role)) where
  drive_on-Bill :
      (turns : ℕ) (d : Drive)
      → Paused total env speaks tt d
      → Holds (Paused total env speaks) (Bill total) (drive_on turns env d)
  unfolding drive_on next_action
  drive_on-Bill zero d o = o
  drive_on-Bill (suc turns) d o =
      after-Holds (Paused total env speaks) (Paused total env speaks) (Bill total)
        (perform env (action_at env.wall (job_of d) (job_of d).stage) d) _
        (turn-Bill total env speaks (job_of d).stage d refl o) (λ _ d1 h. drive_on-Bill turns d1 h)

  reactivate-Bill :
      (d : Drive)
      → Paused total env speaks tt d
      → Holds (Paused total env speaks) (Bill total) (reactivate env d)
  unfolding reactivate Stage-discrete owed
  reactivate-Bill d o = elim (Bool-cases ((job_of d).stage == blocked_binding)) [
    | inr other ↦ rw other o
    | inl bound ↦ rw bound (bind env.unbound ((stage_eq.beq_iff _ _).0 bound))
  ]
    where
      bind :
          (p : Option String)
          → (job_of d).stage ≡ blocked_binding
          → Holds (Paused total env speaks) (Bill total) (bind_or_leave env p d)
      bind (some reason) e = (omega arith, inr (omega arith))
      bind none e =
          let r = resume_stage-Resumes env.now (cleared (job_of d)) (inr e) in
          rw r.moves (omega arith, r.fits)

  read_packet-Bill :
      (p : Option Refusal) (d : Drive)
      → Paused total env speaks tt d
      → Holds (Paused total env speaks) (Bill total) (read_packet env p d)
  read_packet-Bill none d o = o
  read_packet-Bill (some r) d o =
      give_up-Spent total (Paused total env speaks) (env.code_name r.code) r.message d o.0

  pub from_open-Bill :
      (d : Drive)
      → Paused total env speaks tt d
      → Holds
          (Paused total env speaks)
          (Bill total)
          ((do reactivate env; read_packet env env.packet_refused; drive_on 2 env) d)
  from_open-Bill d o =
      after-Holds (Paused total env speaks) (Paused total env speaks) (Bill total)
        (reactivate env d) _ (reactivate-Bill d o)
        (λ _ d1 o1.
          after-Holds (Paused total env speaks) (Paused total env speaks) (Bill total)
            (read_packet env env.packet_refused d1) _ (read_packet-Bill env.packet_refused d1 o1)
            (λ _ d2 o2. drive_on-Bill 2 d2 o2))

-- How a drive ends, by what it has paid for.
pub record IsPaid (before : Drive) (j : Job) (p : Progress (Unit {0})) : Type 0 where
  pub ending : Ending
  pub last : Drive
  pub ends : p ≡ ended ending last
  pub calls : last.run.model_calls ≤ before.run.model_calls + owed j + 1
  pub left :
      ((job_of last).stage ≡ done)
      ⊎ (last.run.model_calls + owed (job_of last) ≤ before.run.model_calls + owed j + 1)

settled :
    (env : Env) (d : Drive) (j : Job) (R : Unit {0} → Drive → Type 0) (p : Progress (Unit {0}))
    → Ends p
    → Holds R (Bill (d.run.model_calls + owed j)) p
    → IsPaid d j p
settled env d j R (going a d1) over h = absurd over
settled env d j R (ended e d1) over h = record {
  ending = e;
  last = d1;
  ends = refl;
  calls = h.0;
  left = h.1;
}

-- What is stored is never paid for again. A drive of a job that holds what its stage needs makes at
-- most one call for each answer that the job lacks (one for each role, and one repair for each),
-- and one more if that call fails; and unless the job is done, each call but that one has stored an
-- answer, which the job no longer lacks. Providers are assumed not to answer with an empty text.
pub drive_unit-IsPaid :
    (env : Env) (u : WorkUnit) (j : Job) (d : Drive)
    → ((role : Role) → Speaks (env.call role))
    → IsFit j
    → IsPaid d j (drive_unit 2 env u (some j) d)
unfolding drive_unit open_job
drive_unit-IsPaid env u j d speaks fit =
    settled env d j _ (drive_unit 2 env u (some j) d) (drive_unit-Ends env u (some j) d)
      (from_open-Bill (d.run.model_calls + owed j) env speaks (with_job j d) (omega arith, fit))
