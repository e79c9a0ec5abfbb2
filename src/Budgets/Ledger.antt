-- ===== src/Budgets/Ledger.antt =====
-- The budget ledger (`budget.json`, tools/saipal_analyst/budgets.py). Times and durations are
-- natural numbers of microseconds; a window's key, the text of an epoch hour, is that hour.
use saipal.Base.{ℕ, ◌+◌, ◌*◌, ◌/◌, Bool, false, Option, none, [], String, Eq, eq_of_discrete}
use saipal.Base.Dict.{Dict}

abbrev pub second : ℕ
second = 1_000_000

-- `CIRCUIT_TRIP_THRESHOLD`, `CIRCUIT_BASE_OPEN_SECONDS`, `CIRCUIT_MAX_OPEN_SECONDS`,
-- `CLOCK_SKEW_SECONDS`
abbrev pub circuit_trip_threshold : ℕ
circuit_trip_threshold = 5

abbrev pub circuit_base_open : ℕ
circuit_base_open = 300 * second

abbrev pub circuit_max_open : ℕ
circuit_max_open = 1800 * second

abbrev pub clock_skew : ℕ
clock_skew = 5 * second

pub data CircuitState : Type 0 where
  closed open_state half_open : CircuitState

unfoldable pub CircuitState-discrete : Discrete CircuitState
CircuitState-discrete = hlevel

instance abbrev pub circuit_state_eq : Eq CircuitState
circuit_state_eq = eq_of_discrete CircuitState-discrete

-- `failure_class` of a backend failure.
pub data BackendClass : Type 0 where
  auth retryable permanent over_limit : BackendClass

-- `failure_class` of a source failure.
pub data SourceClass : Type 0 where
  transient configuration : SourceClass

-- `CIRCUIT_FIELDS`, for either kind of failure class.
pub record Circuit (C : Type 0) : Type 0 where
  pub state : CircuitState
  pub consecutive_failures : ℕ
  pub opened_at : Option ℕ
  pub open_until : Option ℕ
  pub open_seconds : ℕ
  pub failure_class : Option C
  pub config_digest : Option String
  pub detail : Option String

-- `WINDOW_FIELDS`; also what one charge adds.
pub record Usage : Type 0 where
  pub model_attempts : ℕ
  pub units : ℕ
  pub input_tokens : ℕ
  pub output_tokens : ℕ

-- `LEDGER_FIELDS`
pub record Ledger : Type 0 where
  pub windows : Dict ℕ Usage
  pub last_seen_wall : Option ℕ
  pub rollback_freeze : Bool
  pub backend_circuit : Circuit BackendClass
  pub source_circuits : Dict String (Circuit SourceClass)

abbrev pub zero_usage : Usage
zero_usage = record { model_attempts = 0; units = 0; input_tokens = 0; output_tokens = 0 }

abbrev pub add_usage : Usage → Usage → Usage
add_usage a b = record {
  model_attempts = a.model_attempts + b.model_attempts;
  units = a.units + b.units;
  input_tokens = a.input_tokens + b.input_tokens;
  output_tokens = a.output_tokens + b.output_tokens;
}

abbrev pub fresh_circuit : {C : Type 0} → Option C → Option String → Circuit C
fresh_circuit failure_class config_digest = record {
  state = closed;
  consecutive_failures = 0;
  opened_at = none;
  open_until = none;
  open_seconds = circuit_base_open;
  failure_class = failure_class;
  config_digest = config_digest;
  detail = none;
}

abbrev pub fresh_ledger : Ledger
fresh_ledger = record {
  windows = [];
  last_seen_wall = none;
  rollback_freeze = false;
  backend_circuit = fresh_circuit none none;
  source_circuits = [];
}

-- `_hour`
unfoldable pub hour : ℕ → ℕ
hour now = now / (3600 * second)
