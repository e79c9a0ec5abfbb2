-- ===== src/Worker/Hourly.antt =====
-- What the guarded calls of any number of runs can send in an hour (`_guarded_call` of
-- tools/saipal_analyst/worker.py over the gate and the charge of budgets.py).
use saipal.Base.{
  ℕ, ◌+◌, ◌≤◌, ◌<◌, ◌≡◌, refl, ◌∙◌, sym, ap, Bool, true, false, ◌&&◌, some, List, [], ◌∷◌, ◌==◌,
  nat_eq, arith, if◌then◌else◌, inl, inr, ◌⊎◌,
}
use mathlib.Core.Path.{subst}
use saipal.Jobs.Job.{Hashing}
use saipal.Budgets.Ledger.{Usage, Ledger, hour}
use saipal.Budgets.Windows.{charge_window, Limits}
use saipal.Worker.Call.{Called, reply_charge}
use saipal.Worker.Asks.{
  Ask, is_sent, is_stopped, InOrder, NoLater, attempts_at, hour_mono, charged_once, allowed_below,
  order_cases, apart, ask, sent_at, lost_at, sent_in, lost_in, Spends, ask-Spends, ask-NoLater,
}

module _ (h : Hashing) (limits : Limits) where
  sent_in-past :
      (hr start : ℕ) (ledger : Ledger) (asks : List Ask)
      → InOrder start asks
      → hr < hour start
      → sent_in h limits hr ledger asks ≡ 0
  unfolding sent_in
  sent_in-past hr start ledger [] order past = refl
  sent_in-past hr start ledger (a ∷ rest) order past =
      let mono = hour_mono start a.world.now order.0 in
      let none_here =
        apart (is_sent (ask h limits ledger a).effects) (hour a.world.now) hr (inr (omega arith)) in
      omega (
        arith,
        none_here,
        sent_in-past hr a.world.now (ask h limits ledger a).run.ledger rest order.1 (omega arith),
      )

  -- With an hourly limit, and a ledger that stores no window of an hour after `start` and counts at
  -- most the limit for an hour: while the times of the calls do not fall from `start` on, the
  -- requests that the guarded calls of any runs send in that hour, with those that the ledger
  -- already counts for it, are at most the limit and the requests of that hour whose charge was
  -- lost, of which each has stopped its run.
  pub sent-le-limit :
      (limit hr start : ℕ) (ledger : Ledger) (asks : List Ask)
      → limits.max_model_attempts_per_hour ≡ some limit
      → InOrder start asks
      → NoLater start ledger.windows
      → attempts_at ledger.windows hr ≤ limit
      → sent_in h limits hr ledger asks + attempts_at ledger.windows hr
        ≤ limit + lost_in h limits hr ledger asks
  unfolding sent_in lost_in
  sent-le-limit limit hr start ledger [] e order later le = omega arith
  sent-le-limit limit hr start ledger (a ∷ rest) e order later le =
      step (ask h limits ledger a) (ask-Spends h limits ledger a)
        (λ k.
          sent-le-limit limit hr a.world.now (ask h limits ledger a).run.ledger rest e order.1
            (ask-NoLater h limits start ledger a (ask h limits ledger a)
              (ask-Spends h limits ledger a) order.0 later)
            k)
        (λ past. sent_in-past hr a.world.now (ask h limits ledger a).run.ledger rest order.1 past)
    where
      attempts_of : Usage → ℕ
      attempts_of u = u.model_attempts

      idle_hit :
          (b m l : Bool)
          → (b ≡ false) ⊎ (l ≡ true)
          → (if b && m then 1 else 0) ≤ (if (b && m) && l then 1 else 0)
      idle_hit b m l i = ground arith

      hit_once : (b m : Bool) → (if b && m then 1 else 0) ≤ 1
      hit_once b m = ground arith

      step :
          (c : Called)
          → Spends h limits ledger a c
          → (attempts_at c.run.ledger.windows hr ≤ limit
              → sent_in h limits hr c.run.ledger rest + attempts_at c.run.ledger.windows hr
                ≤ limit + lost_in h limits hr c.run.ledger rest)
          → (hr < hour a.world.now → sent_in h limits hr c.run.ledger rest ≡ 0)
          → sent_at h limits hr a c
              + sent_in h limits hr c.run.ledger rest
              + attempts_at ledger.windows hr
            ≤ limit + (lost_at h limits hr a c + lost_in h limits hr c.run.ledger rest)
      step c (inl (same, idle)) rec past =
          let u = ap (λ w. attempts_at w hr) same in
          let hit =
            idle_hit (is_sent c.effects) (hour a.world.now == hr) (is_stopped c.result) idle in
          omega (arith, u, hit, rec (omega (arith, u)))
      step c (inr (paid, open_)) rec past = elim (order_cases hr (hour a.world.now)) [
        | inl now ↦
            let u =
              ap (λ w. attempts_at w hr) paid
              ∙ subst
                  (λ k.
                    attempts_at
                      (charge_window (hour a.world.now) (reply_charge a.world.reply) ledger.windows)
                      k
                    ≡ attempts_at ledger.windows k + 1)
                  (sym now) (charged_once a.world.now a.world.reply ledger.windows) in
            let below =
              subst (λ k. attempts_at ledger.windows k < limit) (sym now)
                (allowed_below ledger limits limit a.world.now e open_) in
            let hit = hit_once (is_sent c.effects) (hour a.world.now == hr) in
            omega (arith, u, below, hit, rec (omega (arith, u, below)))
        | inr (inl before) ↦
            let hit = apart (is_sent c.effects) (hour a.world.now) hr (inr before) in
            omega (arith, hit, past before)
        | inr (inr after) ↦
            let hit = apart (is_sent c.effects) (hour a.world.now) hr (inl after) in
            let old =
              ap attempts_of
                (later hr (omega (arith, hour_mono start a.world.now order.0, after))) in
            let new =
              ap attempts_of (
                ask-NoLater h limits start ledger a c (inr (paid, open_)) order.0 later hr after) in
            omega (arith, hit, old, new, rec (omega (arith, new)))
      ]
