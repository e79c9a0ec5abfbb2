-- ===== src/Budgets/Isolation.antt =====
-- The circuits of several sources side by side, and those of a broken configuration
-- (tools/saipal_analyst/budgets.py).
use saipal.Base.{
  ℕ, ◌≡◌, refl, ◌≢◌, Bool, true, false, Option, none, some, String, ◌==◌, string_eq, option_eq, not,
  if◌then◌else◌, arith, Option-cases, inl, inr, beq_refl, beq_ne, sym, ◌∙◌, ap,
}
use saipal.Base.Dict.{lookup, insert, lookup-insert_ne, lookup-insert_self}
use saipal.Budgets.Ledger.{Circuit, open_state, half_open, SourceClass, configuration}
use saipal.Budgets.Sources.{
  Circuits, SourceFailure, record_source_failure, record_source_success, demote_half_open,
  source_circuit_allows, act_on, circuit_verdict, Verdict, go, probe, stop, fail_circuit,
  circuit_or_fresh,
}

module _ (a b : String) (ne : b ≢ a) (circuits : Circuits) where
  success_elsewhere :
      (digest : Option String)
      → lookup b (record_source_success circuits a digest) ≡ lookup b circuits
  unfolding record_source_success
  success_elsewhere digest = elim (Option-cases (lookup a circuits)) [
    | inl absent ↦ rw (absent, record_source_success) refl
    | inr (c, found) ↦ rw (found, record_source_success) (lookup-insert_ne b a _ circuits ne)
  ]

  demote_elsewhere :
      (digest : String) → lookup b (demote_half_open circuits a digest) ≡ lookup b circuits
  unfolding demote_half_open
  demote_elsewhere digest = elim (Option-cases (lookup a circuits)) [
    | inl absent ↦ rw (absent, demote_half_open) refl
    | inr (c, found) ↦
        rw (found, demote_half_open)
          (ground (arith, lookup-insert_ne b a (record c { state = half_open }) circuits ne))
  ]

  act_elsewhere :
      (v : Verdict) (digest : String) → lookup b (act_on v circuits a digest).1 ≡ lookup b circuits
  unfolding act_on
  act_elsewhere go digest = refl
  act_elsewhere probe digest = demote_elsewhere digest
  act_elsewhere stop digest = refl

  -- Failing, recovering and asking about one source leave the circuit of every other source as
  -- it is.
  pub source_isolation :
      (f : SourceFailure) (seen : Option String) (digest : String) (now : ℕ) (path_exists : Bool)
      → (lookup b (record_source_failure circuits a f) ≡ lookup b circuits)
        × (lookup b (record_source_success circuits a seen) ≡ lookup b circuits)
        × (lookup b (source_circuit_allows circuits a digest now path_exists).1 ≡ lookup b circuits)
  source_isolation f seen digest now path_exists = (
    unfold record_source_failure in lookup-insert_ne b a _ circuits ne,
    success_elsewhere seen,
    asked,
  )
    where
      asked :
          lookup b (source_circuit_allows circuits a digest now path_exists).1 ≡ lookup b circuits
      asked = unfold source_circuit_allows in act_elsewhere _ digest

failed_configuration :
    (c : Circuit SourceClass) (f : SourceFailure) (digest : String)
    → f.failure_class ≡ configuration
    → f.config_digest ≡ some digest
    → ((fail_circuit c f).state ≡ open_state)
      × ((fail_circuit c f).open_until ≡ none)
      × ((fail_circuit c f).config_digest ≡ some digest)
unfolding fail_circuit
failed_configuration c f digest e d = rw (e, d) (refl, refl, refl)

dead_verdict :
    (c : Circuit SourceClass) (stored digest : String) (now : ℕ) (path_exists : Bool)
    → c.state ≡ open_state
    → c.open_until ≡ none
    → c.config_digest ≡ some stored
    → circuit_verdict (some c) digest now path_exists
      ≡ (if not (stored == digest) then go else if path_exists then probe else stop)
unfolding circuit_verdict
dead_verdict c stored digest now path_exists es eu ed = rw (es, circuit_verdict) (rw (eu, ed) refl)

asked_after_failure :
    (circuits : Circuits) (a digest other : String) (f : SourceFailure) (now : ℕ) (there : Bool)
    → f.failure_class ≡ configuration
    → f.config_digest ≡ some digest
    → let after = record_source_failure circuits a f in
      source_circuit_allows after a other now there
      ≡ act_on (if not (digest == other) then go else if there then probe else stop) after a other
unfolding source_circuit_allows record_source_failure
asked_after_failure circuits a digest other f now there e d =
    let c = fail_circuit (circuit_or_fresh (lookup a circuits) f) f in
    let fields = failed_configuration (circuit_or_fresh (lookup a circuits) f) f digest e d in
    ap (λ v. act_on v (insert a c circuits) a other)
      (ap (λ o. circuit_verdict o other now there) (lookup-insert_self a c circuits)
        ∙ dead_verdict c digest other now there fields.0 fields.1 fields.2)

-- A CONFIGURATION failure seen under a digest: while the path is missing and the configuration is
-- the same, every later ask is refused and changes nothing, at any time; once the path exists, or
-- the configuration is another, the source is let through.
pub configuration_waits :
    (circuits : Circuits) (a digest other : String) (f : SourceFailure) (now : ℕ)
    → f.failure_class ≡ configuration
    → f.config_digest ≡ some digest
    → other ≢ digest
    → let after = record_source_failure circuits a f in
      (source_circuit_allows after a digest now false ≡ (false, after))
      × ((source_circuit_allows after a digest now true).0 ≡ true)
      × ((source_circuit_allows after a other now false).0 ≡ true)
unfolding act_on
configuration_waits circuits a digest other f now e d ne = (
  asked_after_failure circuits a digest digest f now false e d
      ∙ ap (λ b. act_on (if not b then go else stop) after a digest) (beq_refl digest),
  rw (asked_after_failure circuits a digest digest f now true e d, beq_refl digest) refl,
  rw
      (
        asked_after_failure circuits a digest other f now false e d,
        beq_ne digest other (λ p. ne (sym p)),
      )
      refl,
)
  where
    after : Circuits
    after = record_source_failure circuits a f
