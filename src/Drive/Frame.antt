-- ===== src/Drive/Frame.antt =====
-- What a guarded call leaves of the job (`_guarded_call` of tools/saipal_analyst/worker.py).
use saipal.Base.{
  ◌+◌, ◌≤◌, ◌≡◌, refl, ◌⊎◌, ◌∙◌, inl, inr, not, if◌then◌else◌, Bool, true, false, none, List, [],
  String, leb, arith,
}
use saipal.Jobs.Job.{Job, Hashing}
use saipal.Jobs.Resume.{Role, next_attempt_id, mark_ambiguous_attempt}
use saipal.Jobs.Restart.{name_attempt}
use saipal.Budgets.Windows.{Gate, allowed, clock_frozen, attempts_spent, units_spent, budget_allows}
use saipal.Worker.Call.{
  World, RunBudget, Run, Effect, settle, transport, Called, Stop, stopped, stop_at, reply_result,
  not_accounted, no_calls_left, no_time_left, circuit_shut, past_gate, guarded_call,
  min_call_window,
}

-- The job without what a call notes in it.
abbrev pub strip : Job → Job
strip j = record j {
  attempt_ids = [];
  ambiguous_attempt_ids = [];
  error_class = none;
  error_detail = none;
}

pub name_attempt-strip :
    (h : Hashing) (role : Role) (digest : String) (j : Job)
    → strip (name_attempt h role digest j) ≡ strip j
unfolding next_attempt_id mark_ambiguous_attempt
name_attempt-strip h role digest j = refl

-- What a call leaves: the job but for its notes, at most one call more, and as its result a stop or
-- what the provider replied.
pub record IsFramed (w : World) (r : Run) (c : Called) : Type 0 where
  pub kept : strip c.run.job ≡ strip r.job
  pub calls : c.run.model_calls ≤ r.model_calls + 1
  pub replies : ((s : Stop) × (c.result ≡ stopped s)) ⊎ (c.result ≡ reply_result w.reply)

module _ (h : Hashing) (b : RunBudget) (role : Role) (w : World) (r : Run) where
  either :
      (t : Bool) (x y : Called)
      → IsFramed w r x
      → IsFramed w r y
      → IsFramed w r (if t then x else y)
  either true x y f g = f
  either false x y f g = g

  module _ (u : Run) (k : strip u.job ≡ strip r.job) (n : u.model_calls ≤ r.model_calls + 1) where
    stop-IsFramed : (s : Stop) (effects : List Effect) → IsFramed w r (stop_at s u effects)
    stop-IsFramed s effects = record { kept = k; calls = n; replies = inl (s, refl) }

    settle-IsFramed : (effects : List Effect) → IsFramed w r (settle w u effects)
    unfolding settle
    settle-IsFramed effects =
        either (not w.can_move_circuit) _ _ (stop-IsFramed not_accounted effects) (
          either (not w.can_charge) _ _
            (record { kept = k; calls = n; replies = inl (not_accounted, refl) })
            (record { kept = k; calls = n; replies = inr refl }))

  transport-IsFramed :
      (u : Run)
      → strip u.job ≡ strip r.job
      → u.model_calls ≡ r.model_calls
      → IsFramed w r (transport h role w u)
  unfolding transport
  transport-IsFramed u same n =
      either (not w.can_mark) _ _ (stop-IsFramed _ kept counted not_accounted [])
        (settle-IsFramed _ kept counted _)
    where
      kept : strip (name_attempt h role w.user_digest u.job) ≡ strip r.job
      kept = name_attempt-strip h role w.user_digest u.job ∙ same

      counted : u.model_calls + 1 ≤ r.model_calls + 1
      counted = omega arith

  past_gate-IsFramed : (g : Gate) → IsFramed w r (past_gate h g role w r)
  unfolding past_gate
  past_gate-IsFramed allowed =
      either (not _) _ _ (stop-IsFramed _ refl (omega arith) circuit_shut [])
        (transport-IsFramed _ refl refl)
  past_gate-IsFramed clock_frozen = stop-IsFramed r refl (omega arith) _ _
  past_gate-IsFramed attempts_spent = stop-IsFramed r refl (omega arith) _ _
  past_gate-IsFramed units_spent = stop-IsFramed r refl (omega arith) _ _

  pub guarded_call-IsFramed : IsFramed w r (guarded_call h b role w r)
  unfolding guarded_call
  guarded_call-IsFramed =
      either (leb b.max_calls r.model_calls) _ _
        (stop-IsFramed r refl (omega arith) no_calls_left [])
        (either (leb b.max_wall (w.elapsed + min_call_window)) _ _
          (stop-IsFramed r refl (omega arith) no_time_left [])
          (past_gate-IsFramed (budget_allows r.ledger b.hourly w.now)))
