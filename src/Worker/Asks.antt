-- ===== src/Worker/Asks.antt =====
-- The guarded calls of any number of runs over one ledger file, and what each does to its windows
-- (`_guarded_call` of tools/saipal_analyst/worker.py over budgets.py).
use saipal.Base.{
  ℕ, ◌+◌, ◌≤◌, ◌<◌, ◌≡◌, refl, sym, ap, Bool, true, false, ◌&&◌, some, List, [], ◌∷◌, ◌==◌, nat_eq,
  arith, if◌then◌else◌, inl, inr, ◌⊎◌, beq_refl,
}
use mathlib.Core.Path.{subst}
use saipal.Base.Dict.{Dict}
use saipal.Jobs.Job.{Job, Hashing}
use saipal.Jobs.Resume.{Role}
use saipal.Budgets.Ledger.{Usage, Ledger, zero_usage, hour}
use saipal.Budgets.Windows.{usage_at, charge_window, window_usage, Limits, allowed, budget_allows}
use saipal.Budgets.Usage.{usage_at-charge_window}
use saipal.Worker.Call.{
  Reply, replied, failed, World, RunBudget, Run, CallResult, stopped, Stop, Effect, named, sent,
  Called, reply_charge, guarded_call,
}
use saipal.Worker.Guard.{Fate, guarded_call-Fate}

-- One call of some run: the ledger file is what all runs share.
pub record Ask : Type 0 where
  pub role : Role
  pub world : World
  pub model_calls : ℕ
  pub job : Job
  pub max_calls : ℕ
  pub max_wall : ℕ

abbrev pub is_sent : List Effect → Bool
is_sent [] = false
is_sent (named _ ∷ es) = is_sent es
is_sent (sent ∷ es) = true

abbrev pub is_stopped : CallResult → Bool
is_stopped (stopped _) = true
is_stopped _ = false

-- The calls come in the order of their times, from `start` on.
abbrev pub InOrder : ℕ → List Ask → Type 0
InOrder start [] = Unit
InOrder start (a ∷ rest) = (start ≤ a.world.now) × InOrder a.world.now rest

-- No window is stored for an hour after `start`.
abbrev pub NoLater : ℕ → Dict ℕ Usage → Type 0
NoLater start windows = (k : ℕ) → hour start < k → usage_at windows k ≡ zero_usage

abbrev pub attempts_at : Dict ℕ Usage → ℕ → ℕ
attempts_at windows k = (usage_at windows k).model_attempts

pub hour_mono : (a b : ℕ) → a ≤ b → hour a ≤ hour b
unfolding hour
hour_mono a b h = omega arith

one_attempt : (r : Reply) → (reply_charge r).model_attempts ≡ 1
one_attempt (replied text i o) = refl
one_attempt (failed k) = refl

later-charged :
    (start now : ℕ) (charge : Usage) (windows : Dict ℕ Usage)
    → start ≤ now
    → NoLater start windows
    → NoLater now (charge_window (hour now) charge windows)
later-charged start now charge windows le later k lt =
    ground
      (arith, usage_at-charge_window (hour now) k charge windows, later k, hour_mono start now le)

later_on :
    (start now : ℕ) (windows : Dict ℕ Usage)
    → start ≤ now
    → NoLater start windows
    → NoLater now windows
later_on start now windows le later k lt = later k (omega (arith, hour_mono start now le))

pub charged_once :
    (now : ℕ) (r : Reply) (windows : Dict ℕ Usage)
    → attempts_at (charge_window (hour now) (reply_charge r) windows) (hour now)
      ≡ attempts_at windows (hour now) + 1
charged_once now r windows = ground (
  arith,
  usage_at-charge_window (hour now) (hour now) (reply_charge r) windows,
  beq_refl (hour now),
  one_attempt r,
)

-- The gate is open only below the limit.
pub allowed_below :
    (ledger : Ledger) (limits : Limits) (limit now : ℕ)
    → limits.max_model_attempts_per_hour ≡ some limit
    → budget_allows ledger limits now ≡ allowed
    → attempts_at ledger.windows (hour now) < limit
unfolding budget_allows window_usage
allowed_below ledger limits limit now e open_ = ground arith

pub order_cases : (a b : ℕ) → (a ≡ b) ⊎ ((a < b) ⊎ (b < a))
order_cases a b = omega arith

pub apart : (b : Bool) (m n : ℕ) → (m < n) ⊎ (n < m) → (if b && m == n then 1 else 0) ≡ ◌+◌ 0 0
apart b m n lt = ground arith

module _ (h : Hashing) (limits : Limits) where
  abbrev pub budget_of : Ask → RunBudget
  budget_of a = record { max_calls = a.max_calls; max_wall = a.max_wall; hourly = limits }

  abbrev pub run_of : Ledger → Ask → Run
  run_of ledger a = record { model_calls = a.model_calls; job = a.job; ledger = ledger }

  unfoldable pub ask : Ledger → Ask → Called
  ask ledger a = guarded_call h (budget_of a) a.role a.world (run_of ledger a)

  abbrev pub sent_at : ℕ → Ask → Called → ℕ
  sent_at hr a c = if is_sent c.effects && hour a.world.now == hr then 1 else 0

  -- A request whose charge is lost: its run stops.
  abbrev pub lost_at : ℕ → Ask → Called → ℕ
  lost_at hr a c =
      if (is_sent c.effects && hour a.world.now == hr) && is_stopped c.result then 1 else 0

  -- How many requests leave in an hour, and of how many of them the charge is lost.
  unfoldable pub sent_in : ℕ → Ledger → List Ask → ℕ
  sent_in hr ledger [] = 0
  sent_in hr ledger (a ∷ rest) =
      let c = ask ledger a in sent_at hr a c + sent_in hr c.run.ledger rest

  unfoldable pub lost_in : ℕ → Ledger → List Ask → ℕ
  lost_in hr ledger [] = 0
  lost_in hr ledger (a ∷ rest) =
      let c = ask ledger a in lost_at hr a c + lost_in hr c.run.ledger rest

  -- What a call does to the windows: nothing, unless a charge is made after the gate has opened.
  abbrev pub Spends : Ledger → Ask → Called → Type 0
  Spends ledger a c =
      ((c.run.ledger.windows ≡ ledger.windows)
        × ((is_sent c.effects ≡ false) ⊎ (is_stopped c.result ≡ true)))
      ⊎ ((c.run.ledger.windows
            ≡ charge_window (hour a.world.now) (reply_charge a.world.reply) ledger.windows)
          × (budget_allows ledger limits a.world.now ≡ allowed))

  spends :
      (ledger : Ledger) (a : Ask) (c : Called)
      → Fate h (budget_of a) a.role a.world (run_of ledger a) c
      → Spends ledger a c
  spends ledger a c (inl (nothing, _, same)) = inl (same, inl (ap is_sent nothing))
  spends ledger a c (inr s) = charge s.charged
    where
      charge :
          (c.run.ledger.windows
              ≡ charge_window (hour a.world.now) (reply_charge a.world.reply) ledger.windows)
            ⊎ (((x : Stop) × (c.result ≡ stopped x)) × (c.run.ledger.windows ≡ ledger.windows))
          → Spends ledger a c
      charge (inl paid) = inr (paid, s.gates.hourly)
      charge (inr ((x, stops), same)) = inl (same, inr (ap is_stopped stops))

  pub ask-Spends : (ledger : Ledger) (a : Ask) → Spends ledger a (ask ledger a)
  unfolding ask
  ask-Spends ledger a =
      spends ledger a _ (guarded_call-Fate h (budget_of a) a.role a.world (run_of ledger a))

  pub ask-NoLater :
      (start : ℕ) (ledger : Ledger) (a : Ask) (c : Called)
      → Spends ledger a c
      → start ≤ a.world.now
      → NoLater start ledger.windows
      → NoLater a.world.now c.run.ledger.windows
  ask-NoLater start ledger a c (inl (same, _)) le later =
      subst (NoLater a.world.now) (sym same) (later_on start a.world.now ledger.windows le later)
  ask-NoLater start ledger a c (inr (paid, _)) le later =
      subst (NoLater a.world.now) (sym paid)
        (later-charged start a.world.now (reply_charge a.world.reply) ledger.windows le later)
