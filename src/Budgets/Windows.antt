-- ===== src/Budgets/Windows.antt =====
-- The hourly windows and the clock-rollback freeze (`_window`, `_rollback_recovered`,
-- `record_consumption`, `window_usage`, `budget_allows` of tools/saipal_analyst/budgets.py).
use saipal.Base.{
  ℕ, ◌+◌, Bool, true, false, Option, none, some, ◌==◌, nat_eq, ◌||◌, ◌&&◌, ltb, leb, if◌then◌else◌,
  not, is_none,
}
use saipal.Base.Dict.{Dict, lookup, insert, restrict}
use saipal.Budgets.Ledger.{Usage, Ledger, zero_usage, add_usage, clock_skew, hour}

-- The window that the gate reads for an hour: zeros when there is none.
unfoldable pub usage_at : Dict ℕ Usage → ℕ → Usage
usage_at windows h = elim (lookup h windows) [ none ↦ zero_usage | some w ↦ w ]

-- `_window`: the current and the previous hour stay.
unfoldable pub keep_recent : ℕ → Dict ℕ Usage → Dict ℕ Usage
keep_recent current = restrict (λ k. k == current || k + 1 == current)

unfoldable pub charge_window : ℕ → Usage → Dict ℕ Usage → Dict ℕ Usage
unfolding keep_recent usage_at
charge_window current charge windows =
    let recent = keep_recent current windows in
    insert current (add_usage (usage_at recent current) charge) recent

-- `_rollback_recovered`
unfoldable pub rollback_recovered : Option ℕ → ℕ → Bool
rollback_recovered none now = true
rollback_recovered (some last) now = ltb last now

-- The latch after a charge at `now`.
unfoldable pub next_freeze : Option ℕ → Bool → ℕ → Bool
unfolding rollback_recovered
next_freeze none frozen now = if frozen && rollback_recovered none now then false else frozen
next_freeze (some last) frozen now =
    if ltb (now + clock_skew) last
    then true
    else if frozen && rollback_recovered (some last) now
    then false
    else frozen

unfoldable pub later_of : Option ℕ → ℕ → ℕ
later_of none now = now
later_of (some last) now = if leb now last then last else now

unfoldable pub record_consumption : Ledger → ℕ → Usage → Ledger
unfolding next_freeze later_of charge_window hour
record_consumption ledger now charge = record ledger {
  rollback_freeze = next_freeze ledger.last_seen_wall ledger.rollback_freeze now;
  last_seen_wall = some (later_of ledger.last_seen_wall now);
  windows = charge_window (hour now) charge ledger.windows;
}

unfoldable pub window_usage : Ledger → ℕ → Usage
unfolding usage_at hour
window_usage ledger now = usage_at ledger.windows (hour now)

-- The two optional hourly limits of the configuration.
pub record Limits : Type 0 where
  pub max_model_attempts_per_hour : Option ℕ
  pub max_semantic_units_per_hour : Option ℕ

pub data Gate : Type 0 where
  allowed clock_frozen attempts_spent units_spent : Gate

-- `limit is not None and used >= limit`
abbrev pub reached : Option ℕ → ℕ → Bool
reached none used = false
reached (some limit) used = leb limit used

unfoldable pub budget_allows : Ledger → Limits → ℕ → Gate
unfolding rollback_recovered window_usage
budget_allows ledger limits now =
    if is_none limits.max_model_attempts_per_hour && is_none limits.max_semantic_units_per_hour
    then allowed
    else if ledger.rollback_freeze && not (rollback_recovered ledger.last_seen_wall now)
    then clock_frozen
    else let usage = window_usage ledger now in
      if reached limits.max_model_attempts_per_hour usage.model_attempts
      then attempts_spent
      else if reached limits.max_semantic_units_per_hour usage.units
      then units_spent
      else allowed
