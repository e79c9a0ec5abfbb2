-- ===== src/Drive/Refused.antt =====
-- A kernel that refuses a candidate for a reason of its own (the handler of `submit_candidate` in
-- `_drive_unit` of tools/saipal_analyst/worker.py).
use saipal.Base.{
  ◌+◌, ◌≤◌, ◌≡◌, refl, sym, ap, false, ◌||◌, none, some, List, ◌∷◌, ltb, arith, validation_failed,
}
use mathlib.Core.Path.{subst}
use saipal.Jobs.Stage.{submitting, Stage-discrete, may_go}
use saipal.Jobs.Job.{Job, Payload, WorkUnit}
use saipal.Jobs.Advance.{advance}
use saipal.Jobs.Resume.{next_action, action_at}
use saipal.Drive.State.{
  Refusal, refused, Env, Drive, raised, Progress, ended, M, after, job_of, with_job,
}
use saipal.Drive.Unit.{
  is_scope, take_answer, submission_of, seal, submit_final, wait_for_kernel, perform, drive_on,
  open_job, reactivate, read_packet, drive_unit,
}

-- A job that was being submitted.
abbrev pub held : Job → Payload → Job
held j c = record j { stage = submitting; candidate = some c }

-- The jobs written by a drive that ends with this refusal of a move.
pub record IsLost (before : Drive) (written : List Job) (p : Progress (Unit {0})) : Type 0 where
  pub last : Drive
  pub ends : p ≡ ended (raised validation_failed) last
  pub wrote : last.saved ≡ written
  pub sent_nothing : last.effects ≡ before.effects

module _ (env : Env) (c : Payload) (r : Refusal) where
  take_answer-IsLost :
      (d : Drive)
      → (is_scope r.code || env.mentions_stale r.message) ≡ false
      → (job_of d).submit_attempts + 1 ≤ env.max_retries
      → (job_of d).stage ≡ submitting
      → IsLost d d.saved (take_answer env c (refused r) d)
  unfolding wait_for_kernel advance may_go Stage-discrete
  take_answer-IsLost d other left at =
      rw (other, within, at) (record { last = _; ends = refl; wrote = refl; sent_nothing = refl })
    where
      within : ltb env.max_retries ((job_of d).submit_attempts + 1) ≡ false
      within = ground arith

-- A kernel that refuses the candidate of a job at SUBMITTING, for another reason than a unit that
-- has moved on and with retries left, ends the drive by an illegal move. The one job written is the
-- job that was found with its candidate's digest renewed: the refusal is not counted in it, so every
-- restart meets the same.
pub refusal_is_forgotten :
    (env : Env) (u : WorkUnit) (j : Job) (c : Payload) (r : Refusal) (d : Drive)
    → env.packet_refused ≡ none
    → env.kernel (submission_of c) ≡ refused r
    → (is_scope r.code || env.mentions_stale r.message) ≡ false
    → j.submit_attempts + 1 ≤ env.max_retries
    → IsLost d (seal env (held j c) ∷ d.saved) (drive_unit 2 env u (some (held j c)) d)
unfolding drive_unit open_job reactivate drive_on next_action action_at perform submit_final advance
    Stage-discrete
refusal_is_forgotten env u j c r d packet refuses other left =
    subst
      (λ p.
        IsLost d (seal env (held j c) ∷ d.saved)
          (after (read_packet env p opened) (λ _. drive_on 2 env)))
      (sym packet)
      (subst
        (λ a.
          IsLost d (seal env (held j c) ∷ d.saved)
            (after (take_answer env c a counted) (λ _. drive_on 1 env)))
        (sym refuses) (lost _ (take_answer-IsLost env c r counted other left refl)))
  where
    opened : Drive
    opened = with_job (held j c) d

    counted : Drive
    counted = record d {
      run = record d.run { job = seal env (held j c) };
      saved = seal env (held j c) ∷ d.saved;
      summary = record d.summary { submit_attempts = d.summary.submit_attempts + 1 };
    }

    lost :
        (f : Unit {0} → M (Unit {0}))
        → IsLost counted counted.saved (take_answer env c (refused r) counted)
        → IsLost d (seal env (held j c) ∷ d.saved) (after (take_answer env c (refused r) counted) f)
    lost f w = record {
      last = w.last;
      ends = ap (λ p. after p f) w.ends;
      wrote = w.wrote;
      sent_nothing = w.sent_nothing;
    }
