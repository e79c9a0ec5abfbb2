-- ===== src/Budgets/Usage.antt =====
-- What a charge does to the hourly windows (tools/saipal_analyst/budgets.py).
use saipal.Base.{
  ℕ, ◌+◌, ◌≤◌, ◌≡◌, refl, ◌∙◌, [], ◌∷◌, ◌==◌, nat_eq, arith, length, if◌then◌else◌, ◌||◌, All,
  Bool-cases, inl, inr, beq_refl, ◌⊎◌,
}
use saipal.Base.Dict.{
  Dict, keys, insert, restrict, NodupKeys, lookup-insert, lookup-restrict, insert-NodupKeys,
  restrict-NodupKeys,
}
use saipal.Budgets.Ledger.{Usage, Ledger, add_usage, zero_usage, hour}
use saipal.Budgets.Windows.{usage_at, keep_recent, charge_window, record_consumption, window_usage}

-- The usage of every hour after a charge: the charged hour grows by the charge, the hour before
-- it keeps its window, and every other hour's window is gone.
pub usage_at-charge_window :
    (current h : ℕ) (charge : Usage) (windows : Dict ℕ Usage)
    → usage_at (charge_window current charge windows) h ≡ (
        if h == current
        then add_usage (usage_at windows current) charge
        else if h + 1 == current
        then usage_at windows h
        else zero_usage)
unfolding usage_at charge_window keep_recent
usage_at-charge_window current h charge windows = ground (
  arith,
  lookup-insert h current (add_usage (usage_at (recent) current) charge) recent,
  lookup-restrict (λ k. k == current || k + 1 == current) current windows,
  lookup-restrict (λ k. k == current || k + 1 == current) h windows,
)
  where
    recent : Dict ℕ Usage
    recent = restrict (λ k. k == current || k + 1 == current) windows

-- A charge is counted in full in the window of its hour.
pub window_usage-record_consumption :
    (ledger : Ledger) (now : ℕ) (charge : Usage)
    → window_usage (record_consumption ledger now charge) now
      ≡ add_usage (window_usage ledger now) charge
unfolding window_usage record_consumption
window_usage-record_consumption ledger now charge =
    usage_at-charge_window (hour now) (hour now) charge ledger.windows
    ∙ rw (beq_refl (hour now)) refl

abbrev IsRecent : ℕ → ℕ → Type 0
IsRecent current k = (k ≡ current) ⊎ (k + 1 ≡ current)

length-le-two :
    (current : ℕ) (d : Dict ℕ Usage) → NodupKeys d → All (IsRecent current) (keys d) → length d ≤ 2
length-le-two current [] u r = omega arith
length-le-two current (x ∷ []) u r = omega arith
length-le-two current (x ∷ y ∷ []) u r = omega arith
length-le-two current ((x, _) ∷ (y, _) ∷ (z, _) ∷ d) u r = ground arith

All-restrict :
    (current : ℕ) (d : Dict ℕ Usage)
    → All (IsRecent current) (keys (restrict (λ k. k == current || k + 1 == current) d))
All-restrict current [] = tt
All-restrict current ((k, v) ∷ d) = ground (arith, All-restrict current d)

All-insert :
    (current k : ℕ) (v : Usage) (d : Dict ℕ Usage)
    → IsRecent current k
    → All (IsRecent current) (keys d)
    → All (IsRecent current) (keys (insert k v d))
All-insert current k v [] here r = (here, tt)
All-insert current k v ((j, w) ∷ d) here r = elim (Bool-cases (k == j)) [
  | inl same ↦ rw same r
  | inr other ↦ rw other (r.0, All-insert current k v d here r.1)
]

-- At most two windows are kept, whatever was stored and however the clock moved.
pub record_consumption_bounded :
    (ledger : Ledger) (now : ℕ) (charge : Usage)
    → NodupKeys ledger.windows
    → NodupKeys (record_consumption ledger now charge).windows
      × (length (record_consumption ledger now charge).windows ≤ 2)
unfolding record_consumption
record_consumption_bounded ledger now charge u = (
  nodup,
  length-le-two (hour now) _ nodup
      (All-insert (hour now) (hour now) _ _ (inl refl) (All-restrict (hour now) ledger.windows)),
)
  where
    nodup : NodupKeys (charge_window (hour now) charge ledger.windows)
    nodup = insert-NodupKeys (hour now) _ _ (restrict-NodupKeys _ ledger.windows u)
