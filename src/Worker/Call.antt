-- ===== src/Worker/Call.antt =====
-- One guarded model call (`_guarded_call`, `_account` of tools/saipal_analyst/worker.py). The
-- clocks, the digests, the provider's reply and whether each durable write succeeds are arguments;
-- the fence of the probe is free, and all operations of one call on the ledger see one wall time.
use saipal.Base.{ℕ, ◌+◌, ◌*◌, Bool, not, none, List, [], ◌∷◌, String, leb, if◌then◌else◌}
use saipal.Jobs.Job.{Job, Hashing}
use saipal.Jobs.Resume.{Role, role_name, next_attempt_id}
use saipal.Jobs.Restart.{name_attempt}
use saipal.Budgets.Ledger.{Ledger, Usage, BackendClass, second}
use saipal.Budgets.Windows.{Limits, Gate, allowed, budget_allows, record_consumption}
use saipal.Budgets.Circuit.{
  circuit_probe_allowed, circuit_allows, record_backend_failure, record_backend_success,
}

-- What the provider does with the request; a reply reports its tokens.
pub data Reply : Type 0 where
  replied : String → ℕ → ℕ → Reply
  failed : BackendClass → Reply

-- What one call meets.
pub record World : Type 0 where
  pub elapsed : ℕ
  pub now : ℕ
  pub config_digest : String
  pub user_digest : String
  pub reply : Reply
  pub can_mark : Bool
  pub can_move_circuit : Bool
  pub can_charge : Bool

-- The budgets of the run and the hourly ones.
pub record RunBudget : Type 0 where
  pub max_calls : ℕ
  pub max_wall : ℕ
  pub hourly : Limits

-- What a run carries from call to call: the calls of the summary, the job and the ledger file.
pub record Run : Type 0 where
  pub model_calls : ℕ
  pub job : Job
  pub ledger : Ledger

-- `_BudgetStop` by its cause.
pub data Stop : Type 0 where
  no_calls_left no_time_left circuit_shut not_accounted : Stop
  hourly_gate : Gate → Stop

pub data CallResult : Type 0 where
  stopped : Stop → CallResult
  answered : String → CallResult
  backend_failed : BackendClass → CallResult

-- What leaves the process, in its order: the durable name of the attempt, and the request.
pub data Effect : Type 0 where
  named : String → Effect
  sent : Effect

pub record Called : Type 0 where
  pub result : CallResult
  pub run : Run
  pub effects : List Effect

-- `MIN_CALL_WINDOW_SECONDS`
abbrev pub min_call_window : ℕ
min_call_window = 5 * second

abbrev pub stop_at : Stop → Run → List Effect → Called
stop_at s r effects = record { result = stopped s; run = r; effects = effects }

abbrev pub reply_charge : Reply → Usage
reply_charge (failed _) = record {
  model_attempts = 1;
  units = 0;
  input_tokens = 0;
  output_tokens = 0;
}
reply_charge (replied _ i o) = record {
  model_attempts = 1;
  units = 0;
  input_tokens = i;
  output_tokens = o;
}

abbrev pub reply_result : Reply → CallResult
reply_result (failed k) = backend_failed k
reply_result (replied text _ _) = answered text

-- The circuit's part of the accounting.
unfoldable pub move_circuit : World → Ledger → Ledger
move_circuit w l = elim w.reply [
  | failed k ↦ record l {
    backend_circuit =
        record_backend_failure l.backend_circuit
          (record { failure_class = k; at = w.now; config_digest = w.config_digest });
  }
  | replied _ _ _ ↦ record l { backend_circuit = record_backend_success l.backend_circuit }
]

-- After the request: the circuit, then the charge. A write that is lost stops the run.
unfoldable pub settle : World → Run → List Effect → Called
unfolding move_circuit
settle w r effects =
    if not w.can_move_circuit
    then stop_at not_accounted r effects
    else let moved : Run = record r { ledger = move_circuit w r.ledger } in
      if not w.can_charge then stop_at not_accounted moved effects else record {
        result = reply_result w.reply;
        run = record moved {
          ledger = record_consumption moved.ledger w.now (reply_charge w.reply);
        };
        effects = effects;
      }

module _ (h : Hashing) where
  -- The name of the attempt is durable before the request.
  unfoldable pub transport : Role → World → Run → Called
  unfolding settle
  transport role w r =
      let job' = name_attempt h role w.user_digest r.job in
      let counted : Run = record r { model_calls = r.model_calls + 1; job = job' } in
      if not w.can_mark
      then stop_at not_accounted counted []
      else settle w
          (record counted { job = record job' { error_class = none; error_detail = none } })
          (named (next_attempt_id h r.job (role_name role) w.user_digest).0 ∷ sent ∷ [])

  -- What follows the answer of the hourly gate: the circuit, then the request.
  unfoldable pub past_gate : Gate → Role → World → Run → Called
  unfolding transport
  past_gate allowed role w r =
      let c = r.ledger.backend_circuit in
      let probed : Run = record r {
        ledger = record r.ledger { backend_circuit = circuit_probe_allowed c c w.now };
      } in
      if not (circuit_allows probed.ledger.backend_circuit w.config_digest w.now)
      then stop_at circuit_shut probed []
      else transport role w probed
  past_gate gate role w r = stop_at (hourly_gate gate) r []

  unfoldable pub guarded_call : RunBudget → Role → World → Run → Called
  unfolding past_gate
  guarded_call b role w r =
      if leb b.max_calls r.model_calls
      then stop_at no_calls_left r []
      else if leb b.max_wall (w.elapsed + min_call_window)
      then stop_at no_time_left r []
      else past_gate (budget_allows r.ledger b.hourly w.now) role w r
