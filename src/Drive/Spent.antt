-- ===== src/Drive/Spent.antt =====
-- What each answer of a drive costs (`call_role`, `validate_with_repair` and `_transport_failure` of
-- tools/saipal_analyst/worker.py).
use saipal.Base.{ℕ, ◌+◌, ◌≤◌, ◌≡◌, refl, ◌∙◌, sym, ap, ◌⊎◌, inl, inr, String, arith}
use saipal.Jobs.Stage.{Stage, done}
use saipal.Jobs.Job.{Job}
use saipal.Jobs.Advance.{advance, advance-stage}
use saipal.Jobs.Resume.{Role}
use saipal.Budgets.Ledger.{BackendClass}
use saipal.Worker.Call.{
  World, Reply, replied, failed, CallResult, stopped, answered, backend_failed, reply_result, Stop,
  guarded_call,
}
use saipal.Worker.Failure.{note_blocked, note_retry_wait, MayFail, block}
use saipal.Drive.State.{
  Env, Drive, Ending, over_budget, returned, raised, job_of, with_job, stage, move, persist,
  give_up,
}
use saipal.Drive.Steps.{Said, said, heard, call_role, fail_over}
use saipal.Drive.Rules.{Holds, after-Holds, take_move-Holds}
use saipal.Drive.Frame.{strip, guarded_call-IsFramed}
use saipal.Drive.Answered.{core, advance-core, fail_over-Holds}
use saipal.Drive.Owed.{owed, owed-core, owed-strip}

pub replied-answered :
    (r : Reply) (text : String)
    → reply_result r ≡ answered text
    → (i : ℕ) × (o : ℕ) × (r ≡ replied text i o)
replied-answered (failed k) text e = cc
replied-answered (replied t i o) text e = (i, o, cc)

module _ (total : ℕ) where
  -- The calls made and the answers owed, and how they stand when the drive has ended: a failed call
  -- may have come on top, and a job that is done owes nothing more.
  abbrev pub Spent : ℕ → Drive → Type 0
  Spent extra d = d.run.model_calls + owed (job_of d) ≤ total + extra

  abbrev pub Bill : Ending → Drive → Type 0
  Bill e d = (d.run.model_calls ≤ total + 1) × (((job_of d).stage ≡ done) ⊎ Spent 1 d)

  pub Spent-Bill : (e : Ending) (d : Drive) → Spent 1 d → Bill e d
  Spent-Bill e d h = (omega arith, inr h)

  pub spare : (d : Drive) → Spent 0 d → Spent 1 d
  spare d h = omega arith

  -- Since a state: the job but for its notes, one call more, and what was said.
  abbrev pub Since : World → Drive → Said → Drive → Type 0
  Since w d answer d1 =
      (strip (job_of d1) ≡ strip (job_of d))
      × (d1.run.model_calls ≤ d.run.model_calls + 1)
      × ((text : String) → answer ≡ said text → reply_result w.reply ≡ answered text)

  said_injective : {s t : String} → said s ≡ said t → s ≡ t
  said_injective e = cc

  not_stopped : {s : Stop} {t : String} → answered t ≡ stopped s → ⊥
  not_stopped e = cc

  heard-Holds :
      (w : World) (r : CallResult) (d d1 : Drive)
      → Spent 0 d
      → strip (job_of d1) ≡ strip (job_of d)
      → d1.run.model_calls ≤ d.run.model_calls + 1
      → ((s : Stop) × (r ≡ stopped s)) ⊎ (r ≡ reply_result w.reply)
      → Holds (Since w d) Bill (heard r d1)
  heard-Holds w (stopped s) d d1 h k n from =
      Spent-Bill (over_budget s) d1 (omega (arith, owed-strip (job_of d1) (job_of d) k))
  heard-Holds w (answered text) d d1 h k n from = (
    k,
    n,
    λ t e. elim from [
      | inl (s, f) ↦ absurd (not_stopped f)
      | inr f ↦ sym f ∙ ap answered (said_injective e)
    ],
  )
  heard-Holds w (backend_failed x) d d1 h k n from = (k, n, λ t e. cc)

  pub call_role-Spent :
      (env : Env) (role : Role) (w : World) (d : Drive)
      → Spent 0 d
      → Holds (Since w d) Bill (call_role env role w d)
  unfolding call_role
  call_role-Spent env role w d h =
      let f = guarded_call-IsFramed env.hashing env.budget role w d.run in
      heard-Holds w (guarded_call env.hashing env.budget role w d.run).result d _ h f.kept f.calls
        f.replies

  pub fail_over-Spent :
      {A : Type 0} (env : Env) (R : A → Drive → Type 0) (k : BackendClass) (d : Drive)
      → MayFail (job_of d).stage
      → Spent 1 d
      → Holds R Bill (fail_over env k d)
  fail_over-Spent env R k d may h =
      fail_over-Holds env R Bill k d may
        (λ d1 _ c n. Spent-Bill (returned note_blocked) d1 (same d1 c n))
        (λ d1 _ c n. Spent-Bill (returned note_retry_wait) d1 (same d1 c n))
    where
      same :
          (d1 : Drive)
          → core (job_of d1) ≡ core (job_of d)
          → d1.run.model_calls ≡ d.run.model_calls
          → Spent 1 d1
      same d1 c n = omega (arith, owed-core (job_of d1) (job_of d) c)

  pub give_up-Spent :
      {A : Type 0} (R : A → Drive → Type 0) (error_class detail : String) (d : Drive)
      → Spent 0 d
      → Holds R Bill (give_up error_class detail d)
  give_up-Spent R error_class detail d h =
      let same = owed-core (block (job_of d) error_class detail) (job_of d) refl in
      (omega arith, inr (omega (arith, same)))

  -- At a stage, within the bill.
  abbrev pub Within : Stage → Drive → Type 0
  Within s d = ((job_of d).stage ≡ s) × Spent 0 d

  -- A move that is refused ends the drive; any other costs nothing and changes no answer.
  abbrev pub Moved : Stage → Job → Drive → Type 0
  Moved to j d = Within to d × (core (job_of d) ≡ core j)

  pub move-Moved :
      (env : Env) (to : Stage) (d : Drive)
      → Spent 0 d
      → Holds (λ _ d1. Moved to (job_of d) d1) Bill (move env to d)
  move-Moved env to d h =
      take_move-Holds (λ _ d1. Moved to (job_of d) d1) Bill (advance env.now (job_of d) to) d
        (λ j e.
          let same = advance-core env.now (job_of d) to e in
          (
            (advance-stage env.now (job_of d) to e, omega (arith, owed-core j (job_of d) same)),
            same,
          ))
        (λ code e. Spent-Bill (raised code) d (spare d h))

  pub stage-Moved :
      (env : Env) (to : Stage) (f : Job → Job) (d : Drive)
      → Spent 0 (with_job (f (job_of d)) d)
      → Holds (λ _ d1. Moved to (f (job_of d)) d1) Bill (stage env to f d)
  stage-Moved env to f d h =
      after-Holds (λ _ d1. Moved to (f (job_of d)) d1) (λ _ d1. Moved to (f (job_of d)) d1) Bill
        (move env to (with_job (f (job_of d)) d)) (λ _. persist)
        (move-Moved env to (with_job (f (job_of d)) d) h) (λ _ d1 q. q)
