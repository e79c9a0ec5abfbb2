-- ===== src/Budgets/Circuit.antt =====
-- The backend circuit breaker (`circuit_allows`, `record_backend_success`,
-- `record_backend_failure`, `circuit_probe_allowed` of tools/saipal_analyst/budgets.py). The digest
-- of the configuration and the clock are arguments.
use saipal.Base.{
  ℕ, ◌+◌, ◌*◌, Bool, true, false, Option, none, some, String, ◌==◌, string_eq, leb, ltb, not,
  nat_eq, if◌then◌else◌, min, option_eq,
}
use saipal.Budgets.Ledger.{
  Circuit, CircuitState, closed, open_state, half_open, BackendClass, auth, retryable, permanent,
  over_limit, circuit_trip_threshold, circuit_base_open, circuit_max_open,
}

-- A failed attempt: its class, when, and the digest of the configuration then.
pub record Failure : Type 0 where
  pub failure_class : BackendClass
  pub at : ℕ
  pub config_digest : String

-- `float(circuit.get("open_seconds") or CIRCUIT_BASE_OPEN_SECONDS)`, capped.
unfoldable pub open_length : ℕ → ℕ
open_length stored = min (if stored == 0 then circuit_base_open else stored) circuit_max_open

-- The timed opening that both breakers share.
unfoldable pub trip : {C : Type 0} → Circuit C → ℕ → Circuit C
unfolding open_length
trip c now = record c {
  state = open_state;
  opened_at = some now;
  open_until = some (now + open_length c.open_seconds);
  open_seconds = min (open_length c.open_seconds * 2) circuit_max_open;
}

unfoldable pub failure_step : BackendClass → Circuit BackendClass → Failure → Circuit BackendClass
failure_step auth c f = record c {
  state = open_state;
  opened_at = some f.at;
  open_until = none;
  config_digest = some f.config_digest;
}
failure_step retryable c f =
    if leb circuit_trip_threshold c.consecutive_failures then trip c f.at else c
failure_step permanent c f = c
failure_step over_limit c f = c

unfoldable pub record_backend_failure : Circuit BackendClass → Failure → Circuit BackendClass
unfolding failure_step
record_backend_failure c f =
    failure_step f.failure_class
      (record c {
        consecutive_failures = c.consecutive_failures + 1;
        failure_class = some f.failure_class;
      })
      f

unfoldable pub record_backend_success : Circuit BackendClass → Circuit BackendClass
record_backend_success c = record c {
  state = closed;
  consecutive_failures = 0;
  open_until = none;
  failure_class = none;
}

-- Whether an open circuit lets a transport attempt start.
unfoldable pub open_allows : Circuit BackendClass → String → ℕ → Option ℕ → Bool
open_allows c digest now none = not (c.config_digest == some digest)
open_allows c digest now (some until) = not (ltb now until)

unfoldable pub state_allows : Circuit BackendClass → String → ℕ → CircuitState → Bool
unfolding open_allows
state_allows c digest now open_state = open_allows c digest now c.open_until
state_allows c digest now closed = true
state_allows c digest now half_open = true

unfoldable pub circuit_allows : Circuit BackendClass → String → ℕ → Bool
unfolding state_allows
circuit_allows c digest now = state_allows c digest now c.state

-- `state == OPEN and open_until is not None and open_until <= now`
unfoldable pub is_due : {C : Type 0} → Circuit C → ℕ → Bool
is_due c now = elim c.state [
  | open_state ↦ elim c.open_until [ none ↦ false | some until ↦ leb until now ]
  | _ ↦ false
]

-- `seen` is the circuit of the unlocked read, `live` the one found under the fence.
unfoldable pub circuit_probe_allowed :
    Circuit BackendClass → Circuit BackendClass → ℕ → Circuit BackendClass
unfolding is_due
circuit_probe_allowed seen live now =
    if is_due seen now
    then (if is_due live now then record live { state = half_open } else live)
    else live
