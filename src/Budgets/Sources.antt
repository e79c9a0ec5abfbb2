-- ===== src/Budgets/Sources.antt =====
-- The circuits of the sources, one for each source id (`record_source_failure`,
-- `record_source_success`, `source_circuit_allows`, `_demote_source_half_open` of
-- tools/saipal_analyst/budgets.py). Whether the configured path exists is an argument.
use saipal.Base.{
  text_take, ℕ, ◌+◌, Bool, true, false, Option, none, some, String, ◌==◌, string_eq, option_eq, leb,
  ltb, not, ◌&&◌, if◌then◌else◌,
}
use saipal.Base.Dict.{Dict, lookup, insert}
use saipal.Budgets.Ledger.{
  Circuit, closed, open_state, half_open, SourceClass, transient, configuration,
  circuit_trip_threshold, fresh_circuit, circuit_state_eq, CircuitState-discrete,
}
use saipal.Budgets.Circuit.{trip}

abbrev pub Circuits : Type 0
Circuits = Dict String (Circuit SourceClass)

-- A failed dispatch of a source.
pub record SourceFailure : Type 0 where
  pub failure_class : SourceClass
  pub config_digest : Option String
  pub detail : String
  pub at : ℕ

-- `circuit.get("config_digest") not in (None, config_digest)`
abbrev pub differs : Option String → Option String → Bool
differs stored none = false
differs none (some d) = false
differs (some s) (some d) = not (s == d)

unfoldable pub forget_poison : Circuit SourceClass → Option String → Circuit SourceClass
forget_poison c digest =
    if differs c.config_digest digest
    then record c { state = closed; consecutive_failures = 0; open_until = none }
    else c

abbrev pub or_stored : Option String → Option String → Option String
or_stored none stored = stored
or_stored (some d) stored = some d

unfoldable pub count_failure : Circuit SourceClass → SourceFailure → Circuit SourceClass
unfolding text_take
count_failure c f = record c {
  consecutive_failures = c.consecutive_failures + 1;
  failure_class = some f.failure_class;
  config_digest = or_stored f.config_digest c.config_digest;
  detail = if f.detail == "" then c.detail else some (text_take 200 f.detail);
}

unfoldable pub source_step : SourceClass → Circuit SourceClass → SourceFailure → Circuit SourceClass
source_step configuration c f = record c {
  state = open_state;
  opened_at = some f.at;
  open_until = none;
}
source_step transient c f =
    if leb circuit_trip_threshold c.consecutive_failures then trip c f.at else c

unfoldable pub fail_circuit : Circuit SourceClass → SourceFailure → Circuit SourceClass
unfolding forget_poison count_failure source_step
fail_circuit c f = source_step f.failure_class (count_failure (forget_poison c f.config_digest) f) f

unfoldable pub circuit_or_fresh : Option (Circuit SourceClass) → SourceFailure → Circuit SourceClass
circuit_or_fresh none f = fresh_circuit (some f.failure_class) f.config_digest
circuit_or_fresh (some c) f = c

unfoldable pub record_source_failure : Circuits → String → SourceFailure → Circuits
unfolding fail_circuit circuit_or_fresh
record_source_failure circuits source_id f =
    insert source_id (fail_circuit (circuit_or_fresh (lookup source_id circuits) f) f) circuits

unfoldable pub record_source_success : Circuits → String → Option String → Circuits
record_source_success circuits source_id digest = elim (lookup source_id circuits) [
  | none ↦ circuits
  | some c ↦
      insert source_id
        (record c {
          state = closed;
          consecutive_failures = 0;
          open_until = none;
          failure_class = none;
          config_digest = or_stored digest c.config_digest;
        })
        circuits
]

-- `_demote_source_half_open`
unfoldable pub demote_half_open : Circuits → String → String → Circuits
unfolding CircuitState-discrete
demote_half_open circuits source_id digest = elim (lookup source_id circuits) [
  | none ↦ circuits
  | some c ↦
      if c.state == open_state && not (differs c.config_digest (some digest))
      then insert source_id (record c { state = half_open }) circuits
      else circuits
]

-- What an open circuit of the source answers, before any demotion: let through as it is, let
-- through as a probe, or refused.
pub data Verdict : Type 0 where
  go probe stop : Verdict

unfoldable pub open_verdict : Circuit SourceClass → String → ℕ → Bool → Option ℕ → Verdict
open_verdict c digest now path_exists none =
    if differs c.config_digest (some digest) then go else if path_exists then probe else stop
open_verdict c digest now path_exists (some until) =
    if differs c.config_digest (some digest) then go else if ltb now until then stop else probe

unfoldable pub circuit_verdict : Option (Circuit SourceClass) → String → ℕ → Bool → Verdict
unfolding open_verdict
circuit_verdict none digest now path_exists = go
circuit_verdict (some c) digest now path_exists = elim c.state [
  | open_state ↦ open_verdict c digest now path_exists c.open_until
  | _ ↦ go
]

-- The answer and the circuits that it leaves behind.
unfoldable pub act_on : Verdict → Circuits → String → String → Bool × Circuits
act_on go circuits source_id digest = (true, circuits)
act_on probe circuits source_id digest = (true, demote_half_open circuits source_id digest)
act_on stop circuits source_id digest = (false, circuits)

unfoldable pub source_circuit_allows : Circuits → String → String → ℕ → Bool → Bool × Circuits
unfolding act_on
source_circuit_allows circuits source_id digest now path_exists =
    act_on (circuit_verdict (lookup source_id circuits) digest now path_exists) circuits source_id
      digest
