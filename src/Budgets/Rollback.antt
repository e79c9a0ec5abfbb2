-- ===== src/Budgets/Rollback.antt =====
-- The answer to a wall clock that moves backwards (`record_consumption`, `budget_allows` of
-- tools/saipal_analyst/budgets.py).
use saipal.Base.{
  ℕ, ◌+◌, ◌≤◌, ◌<◌, ◌≡◌, ◌≢◌, true, false, some, none, List, [], ◌∷◌, nat_eq, arith, ◌⊎◌, ◌↔◌, All,
  inl, inr,
}
use saipal.Budgets.Ledger.{Usage, Ledger, zero_usage, hour, clock_skew}
use saipal.Budgets.Windows.{
  record_consumption, window_usage, Limits, allowed, clock_frozen, budget_allows,
  rollback_recovered, next_freeze, later_of,
}
use saipal.Budgets.Usage.{usage_at-charge_window}

-- A charge seen more than the skew before the high-water mark `last` freezes the gate, under any
-- limits with one of the two set, at exactly the times up to the mark.
pub rollback_freezes :
    (ledger : Ledger) (last now t : ℕ) (charge : Usage) (limits : Limits)
    → ledger.last_seen_wall ≡ some last
    → now + clock_skew < last
    → (limits.max_model_attempts_per_hour ≢ none) ⊎ (limits.max_semantic_units_per_hour ≢ none)
    → let after = record_consumption ledger now charge in
      (budget_allows after limits t ≡ clock_frozen) ↔ (t ≤ last)
unfolding record_consumption budget_allows
rollback_freezes ledger last now t charge limits e back set =
    rw (e, next_freeze, later_of) ((λ frozen. ground arith), (λ early. ground arith))

-- A sequence of charges.
pub charge_all : List (ℕ × Usage) → Ledger → Ledger
charge_all [] ledger = ledger
charge_all ((now, charge) ∷ rest) ledger = charge_all rest (record_consumption ledger now charge)

-- Charges at times up to the mark keep a frozen gate frozen and the mark where it is.
pub freeze_holds :
    (last : ℕ) (charges : List (ℕ × Usage)) (ledger : Ledger)
    → ledger.last_seen_wall ≡ some last
    → ledger.rollback_freeze ≡ true
    → All (λ (c : ℕ × Usage). c.0 ≤ last) charges
    → let after = charge_all charges ledger in
      (after.rollback_freeze ≡ true) × (after.last_seen_wall ≡ some last)
unfolding charge_all record_consumption
freeze_holds last [] ledger e frozen early = (frozen, e)
freeze_holds last ((now, charge) ∷ rest) ledger e frozen early =
    freeze_holds last rest (record_consumption ledger now charge) (rw e (ground arith))
      (rw (e, frozen) (ground arith)) early.1

window_dropped :
    (ledger : Ledger) (now t : ℕ) (charge : Usage)
    → hour now + 1 < hour t
    → window_usage (record_consumption ledger now charge) t ≡ zero_usage
unfolding record_consumption window_usage
window_dropped ledger now t charge far =
    ground (arith, usage_at-charge_window (hour now) (hour t) charge ledger.windows)

gate_open :
    (ledger : Ledger) (t limit : ℕ) (limits : Limits)
    → limits.max_model_attempts_per_hour ≡ some limit
    → limits.max_semantic_units_per_hour ≡ none
    → (window_usage ledger t).model_attempts < limit
    → (ledger.rollback_freeze ≡ false) ⊎ (rollback_recovered ledger.last_seen_wall t ≡ true)
    → budget_allows ledger limits t ≡ allowed
unfolding budget_allows
gate_open ledger t limit limits ea eu room free = ground arith

mark_kept :
    (ledger : Ledger) (last now t : ℕ) (charge : Usage)
    → ledger.last_seen_wall ≡ some last
    → hour now + 1 < hour last
    → last < t
    → rollback_recovered (record_consumption ledger now charge).last_seen_wall t ≡ true
unfolding record_consumption rollback_recovered
mark_kept ledger last now t charge e far past = rw e (ground arith)

-- A step back by two hours or more loses the spent hour: the first attempt after it is let
-- through, its charge drops the window of the hour that the clock came from, and past the mark
-- that hour starts from zero, whatever it had spent.
pub rollback_refills :
    (ledger : Ledger) (last now t limit : ℕ) (charge : Usage) (limits : Limits)
    → ledger.last_seen_wall ≡ some last
    → ledger.rollback_freeze ≡ false
    → hour now + 1 < hour last
    → limits.max_model_attempts_per_hour ≡ some limit
    → limits.max_semantic_units_per_hour ≡ none
    → (window_usage ledger now).model_attempts < limit
    → last < t
    → hour t ≡ hour last
    → let after = record_consumption ledger now charge in
      (budget_allows ledger limits now ≡ allowed)
      × (window_usage after t ≡ zero_usage)
      × (budget_allows after limits t ≡ allowed)
rollback_refills ledger last now t limit charge limits e live far ea eu room past same =
    let dropped = window_dropped ledger now t charge (rw same far) in
    (
      gate_open ledger now limit limits ea eu room (inl live),
      dropped,
      gate_open (record_consumption ledger now charge) t limit limits ea eu
          (rw dropped (omega arith)) (inr (mark_kept ledger last now t charge e far past)),
    )
