-- ===== src/Budgets/Tests.antt =====
-- Runs of the ledger and its circuits, and the theorems at concrete ledgers.
use saipal.Base.{
  ℕ, ◌+◌, ◌*◌, ◌≤◌, ◌<◌, ◌≡◌, refl, ◌≢◌, true, false, none, some, List, [], ◌∷◌, ok, arith, inl,
  ◌↔◌, eq_iff, not, ltb, nat_eq, string_eq, if◌then◌else◌, leb,
}
use saipal.Base.Dict.{lookup}
use saipal.Budgets.Ledger.{
  Usage, Ledger, Circuit, BackendClass, auth, retryable, permanent, configuration, fresh_ledger,
  fresh_circuit, zero_usage, second, hour, circuit_base_open,
}
use saipal.Budgets.Windows.{
  Limits, allowed, clock_frozen, record_consumption, window_usage, budget_allows,
}
use saipal.Budgets.Rollback.{rollback_freezes, rollback_refills}
use saipal.Budgets.Circuit.{
  Failure, record_backend_failure, record_backend_success, circuit_allows, open_length,
}
use saipal.Budgets.Breaker.{record_failures, auth_latch, trips_at_threshold, IsBounded}
use saipal.Budgets.Transaction.{Try, busy, acquired, mutate_ledger, mutate_ledger_outcome}
use saipal.Budgets.Sources.{
  SourceFailure, record_source_failure, record_source_success, source_circuit_allows,
}
use saipal.Budgets.Isolation.{source_isolation}

-- A quarter past the hour `h`.
abbrev past_hour : ℕ → ℕ
past_hour h = h * 3600 * second + 900 * second

abbrev one_call : Usage
one_call = record { model_attempts = 1; units = 0; input_tokens = 10; output_tokens = 2 }

abbrev two_per_hour : Limits
two_per_hour = record { max_model_attempts_per_hour = some 2; max_semantic_units_per_hour = none }

-- A ledger that has spent its two attempts of hour 20.
abbrev spent : Ledger
spent = record fresh_ledger {
  windows = (20, record zero_usage { model_attempts = 2 }) ∷ [];
  last_seen_wall = some (past_hour 20);
}

charged_twice :
    (record_consumption
      (record_consumption fresh_ledger (past_hour 20) one_call)
      (past_hour 20)
      one_call).windows
    ≡ (20, record { model_attempts = 2; units = 0; input_tokens = 20; output_tokens = 4 }) ∷ []
unfolding record_consumption
charged_twice = refl

gate_shut : budget_allows spent two_per_hour (past_hour 20 + 1) ≢ allowed
unfolding budget_allows
gate_shut e = cc e

rollback_freezes_example :
    let after = record_consumption spent (past_hour 10) one_call in
    (budget_allows after two_per_hour (past_hour 19) ≡ clock_frozen) ↔ (past_hour 19 ≤ past_hour 20)
rollback_freezes_example =
    rollback_freezes spent (past_hour 20) (past_hour 10) (past_hour 19) one_call two_per_hour refl
      (omega arith) (inl (λ e. cc e))

abbrev frozen : Ledger
frozen = record spent { rollback_freeze = true }

-- Hour 20 was spent; after a step back to hour 10 it can be spent once more.
rollback_refills_example :
    let after = record_consumption spent (past_hour 10) one_call in
    (budget_allows spent two_per_hour (past_hour 10) ≡ allowed)
    × (window_usage after (past_hour 20 + 1) ≡ zero_usage)
    × (budget_allows after two_per_hour (past_hour 20 + 1) ≡ allowed)
rollback_refills_example =
    rollback_refills spent (past_hour 20) (past_hour 10) (past_hour 20 + 1) 2 one_call two_per_hour
      refl refl (unfold hour in omega arith) refl refl (unfold window_usage in omega arith)
      (omega arith) (unfold hour in refl)

abbrev circuit : Circuit BackendClass
circuit = fresh_circuit none none

abbrev failed : BackendClass → ℕ → Failure
failed k t = record { failure_class = k; at = t; config_digest = "cfg" }

abbrev four : List Failure
four = failed retryable 1 ∷ failed retryable 2 ∷ failed retryable 3 ∷ failed retryable 4 ∷ []

auth_latch_example :
    circuit_allows
      (record_failures (failed permanent 2 ∷ []) (record_backend_failure circuit (failed auth 1)))
      "cfg"
      99
    ≡ false
auth_latch_example =
    auth_latch circuit (failed auth 1) (failed permanent 2 ∷ []) "cfg" 99 refl (inl refl, tt)

trips_at_threshold_example :
    (circuit_allows (record_failures four (record_backend_success circuit)) "cfg" 6 ≡ true)
    × (circuit_allows
          (record_backend_failure
            (record_failures four (record_backend_success circuit))
            (failed retryable 5))
          "cfg"
          6
        ≡ not (ltb 6 (5 + open_length circuit_base_open)))
trips_at_threshold_example =
    trips_at_threshold circuit four (failed retryable 5) "cfg" 6 (refl, (refl, (refl, (refl, tt))))
      refl refl

circuit-IsBounded : IsBounded circuit
circuit-IsBounded = record { stored = omega arith; within = λ o u p q. cc p }

abbrev near : Circuit BackendClass
near = record circuit { consecutive_failures = 4 }

abbrev contended : ℕ → Try
contended k = if leb k 2 then busy else acquired spent

held : (i : ℕ) → i < 3 → contended i ≡ busy
held i h = ground arith

third_try :
    mutate_ledger contended (λ l. record l { rollback_freeze = true })
    ≡ ok (record { at_try = 3; saved = record spent { rollback_freeze = true } })
unfolding mutate_ledger
third_try = refl

mutate_ledger_outcome_example :
    mutate_ledger contended (λ l. record l { rollback_freeze = true })
    ≡ ok (record { at_try = 3; saved = record spent { rollback_freeze = true } })
mutate_ledger_outcome_example =
    mutate_ledger_outcome contended (λ l. record l { rollback_freeze = true }) 3 spent held refl

abbrev gone : SourceFailure
gone = record {
  failure_class = configuration;
  config_digest = some "c1";
  detail = "no such path";
  at = 10;
}

source_isolation_example :
    (lookup "b" (record_source_failure [] "a" gone) ≡ none)
    × (lookup "b" (record_source_success [] "a" (some "c1")) ≡ none)
    × (lookup "b" (source_circuit_allows [] "a" "c1" 11 false).1 ≡ none)
source_isolation_example =
    source_isolation "a" "b" (ground (arith, eq_iff "b" "a")) [] gone (some "c1") "c1" 11 false
