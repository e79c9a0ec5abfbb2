-- ===== src/Drive/State.antt =====
-- What a drive of one unit carries, what it meets, and the chain of its steps
-- (`_drive_unit` of tools/saipal_analyst/worker.py).
use saipal.Base.{ℕ, ◌+◌, Bool, Option, List, ◌∷◌, String, PalError, Result, ok, err, string_eq}
use saipal.Jobs.Stage.{Stage}
use saipal.Jobs.Job.{Job, Payload, Hashing}
use saipal.Jobs.Advance.{advance}
use saipal.Jobs.Resume.{Role}
use saipal.Budgets.Ledger.{BackendClass}
use saipal.Worker.Call.{World, RunBudget, Run, Stop, Effect}
use saipal.Worker.Failure.{Note, note_blocked, block}
use saipal.Drive.Critic.{Policy, Packet}

-- What a parser makes of a text: a validated object, or the reason of its refusal.
pub data Parsed : Type 0 where
  accepted : Payload → Parsed
  rejected : String → Parsed

-- A refusal of the kernel, of a packet or of the provenance ledger.
pub record Refusal : Type 0 where
  pub code : PalError
  pub message : String

pub data KernelAnswer : Type 0 where
  receipted : String → KernelAnswer
  refused : Refusal → KernelAnswer

-- What one drive meets: the clocks, the provider at the call of each role and of its repair, the
-- parsers, the kernel, and whether the provenance of a receipt is written.
pub record Env : Type 0 where
  pub hashing : Hashing
  pub now : String
  pub wall : ℕ
  pub budget : RunBudget
  pub max_retries : ℕ
  pub policy : Policy
  pub packet : Packet
  pub packet_refused : Option Refusal
  pub unbound : Option String
  pub call : Role → World
  pub repair : Role → World
  pub failure_text : BackendClass → String
  pub parse_candidate : String → Parsed
  pub parse_critic : String → Parsed
  pub digest : String → String
  pub dumps : Option Payload → String
  pub kernel : Payload → KernelAnswer
  pub mentions_stale : String → Bool
  pub code_name : PalError → String
  pub provenance : Option Refusal

-- What a drive moves in the run's summary: its counters, the errors without their code, and the
-- receipts with their verdicts, without the session.
pub record Summary : Type 0 where
  pub repair_calls : ℕ
  pub submit_attempts : ℕ
  pub submit_successes : ℕ
  pub kernel_refusals : ℕ
  pub stale_refusals : ℕ
  pub jobs_completed : ℕ
  pub jobs_blocked : ℕ
  pub jobs_blocked_binding : ℕ
  pub jobs_stale : ℕ
  pub errors : List String
  pub receipts : List (String × Option String)

-- The run with the job as it is in memory, the job as it was written each time, the newest first,
-- and what has left the process.
pub record Drive : Type 0 where
  pub run : Run
  pub saved : List Job
  pub effects : List Effect
  pub summary : Summary

-- How a drive ends: with a note, by a budget, by a refusal that no handler takes, or by an
-- exception of Python's own.
pub data Ending : Type 0 where
  returned : Note → Ending
  over_budget : Stop → Ending
  raised : PalError → Ending
  crashed : Ending

pub data Progress (A : Type 0) : Type 0 where
  going : A → Drive → Progress A
  ended : Ending → Drive → Progress A

abbrev pub M : Type 0 → Type 0
M A = Drive → Progress A

abbrev pub after : {A B : Type 0} → Progress A → (A → M B) → Progress B
after (going a d) f = f a d
after (ended e d) f = ended e d

infixl 5 ◌>>=◌ ◌>>◌
abbrev pub ◌>>=◌ : {A B : Type 0} → M A → (A → M B) → M B
◌>>=◌ m f d = after (m d) f

abbrev pub ◌>>◌ : {B : Type 0} → M (Unit {0}) → M B → M B
m >> k = m >>= λ _. k

abbrev pub pure : {A : Type 0} → A → M A
pure a d = going a d

abbrev pub end : {A : Type 0} → Ending → M A
end e d = ended e d

abbrev pub job_of : Drive → Job
job_of d = d.run.job

abbrev pub with_job : Job → Drive → Drive
with_job j d = record d { run = record d.run { job = j } }

-- The job as it is in memory.
abbrev pub the_job : M Job
the_job d = going (job_of d) d

abbrev pub edit : (Job → Job) → M (Unit {0})
edit f d = going tt (with_job (f (job_of d)) d)

abbrev pub tally : (Summary → Summary) → M (Unit {0})
tally f d = going tt (record d { summary = f d.summary })

-- `_persist`
abbrev pub persist : M (Unit {0})
persist d = going tt (record d { saved = job_of d ∷ d.saved })

abbrev pub take_move : Result Job → M (Unit {0})
take_move (err code) d = ended (raised code) d
take_move (ok j) d = going tt (with_job j d)

-- `jobs_mod.advance`
abbrev pub move : Env → Stage → M (Unit {0})
move env to d = take_move (advance env.now (job_of d) to) d

-- `_stage`
abbrev pub stage : Env → Stage → (Job → Job) → M (Unit {0})
stage env to f = do edit f; move env to; persist

-- The job is blocked, written and counted, and the drive returns.
abbrev pub give_up : {A : Type 0} → String → String → M A
give_up error_class detail = do
  edit (λ j. block j error_class detail)
  persist
  tally (λ s. record s { jobs_blocked = s.jobs_blocked + 1 })
  end (returned note_blocked)
