-- ===== src/Worker/Guard.antt =====
-- What holds of a guarded call, sent or not (`_guarded_call` of tools/saipal_analyst/worker.py).
use saipal.Base.{
  ℕ, ◌+◌, ◌<◌, ◌≡◌, refl, ◌≢◌, ◌∙◌, sym, ap, ◌⊎◌, inl, inr, true, false, none, some, List, [], ◌∷◌,
  String, leb, arith, Bool-cases, nat_eq, string_eq, eq_iff,
}
use mathlib.Core.Path.{subst}
use saipal.Base.Dict.{lookup, lookup-insert_self}
use saipal.Jobs.Job.{Job, Hashing, has_text}
use saipal.Jobs.Resume.{
  Role, role_name, role_response, calling_stage, next_attempt_id, mark_ambiguous_attempt,
  next_action, ambiguous, investigator, critic_role, finalizer,
}
use saipal.Jobs.Restart.{name_attempt, next_action-ambiguous}
use saipal.Budgets.Ledger.{Ledger, hour}
use saipal.Budgets.Windows.{
  Gate, allowed, clock_frozen, attempts_spent, units_spent, budget_allows, record_consumption,
  charge_window,
}
use saipal.Budgets.Circuit.{circuit_probe_allowed, circuit_allows}
use saipal.Worker.Call.{
  replied, failed, World, RunBudget, Run, Stop, stopped, Effect, named, sent, Called,
  min_call_window, reply_charge, move_circuit, settle, transport, past_gate, guarded_call,
  not_accounted, no_calls_left, no_time_left, circuit_shut, hourly_gate, stop_at,
}

module _ (h : Hashing) (b : RunBudget) (role : Role) (w : World) (r : Run) where
  -- The name of the next attempt.
  abbrev pub attempt_name : String
  attempt_name = (next_attempt_id h r.job (role_name role) w.user_digest).0

  -- Every gate that a request has to pass.
  pub record IsOpen : Type 0 where
    pub calls : r.model_calls < b.max_calls
    pub time : w.elapsed + min_call_window < b.max_wall
    pub hourly : budget_allows r.ledger b.hourly w.now ≡ allowed
    pub circuit :
        circuit_allows
          (circuit_probe_allowed r.ledger.backend_circuit r.ledger.backend_circuit w.now)
          w.config_digest
          w.now
        ≡ true

  -- What is true once a request has left.
  pub record IsSent (c : Called) : Type 0 where
    pub gates : IsOpen
    pub in_order : c.effects ≡ named attempt_name ∷ sent ∷ []
    pub counted : c.run.model_calls ≡ r.model_calls + 1
    pub recorded : lookup (role_name role) c.run.job.attempt_ids ≡ some attempt_name
    pub same_stage : c.run.job.stage ≡ r.job.stage
    pub same_response : role_response role c.run.job ≡ role_response role r.job
    pub charged :
        (c.run.ledger.windows ≡ charge_window (hour w.now) (reply_charge w.reply) r.ledger.windows)
        ⊎ (((s : Stop) × (c.result ≡ stopped s)) × (c.run.ledger.windows ≡ r.ledger.windows))

  abbrev probed_run : Run
  probed_run = record r {
    ledger = record r.ledger {
      backend_circuit =
          circuit_probe_allowed r.ledger.backend_circuit r.ledger.backend_circuit w.now;
    };
  }

  move_circuit-windows : (l : Ledger) → (move_circuit w l).windows ≡ l.windows
  unfolding move_circuit
  move_circuit-windows l =
      elim w.reply as (λ z. (move_circuit (record w { reply = z }) l).windows ≡ l.windows) [
        | replied _ _ _ ↦ refl
        | failed _ ↦ refl
      ]

  named_job : Job
  named_job = record (name_attempt h role w.user_digest r.job) {
    error_class = none;
    error_detail = none;
  }

  named_run : Run
  named_run = record probed_run { model_calls = r.model_calls + 1; job = named_job }

  settle-charged :
      (u : Run) (effects : List Effect)
      → let c = settle w u effects in
        (c.effects ≡ effects)
        × (c.run.model_calls ≡ u.model_calls)
        × (c.run.job ≡ u.job)
        × ((c.run.ledger.windows
              ≡ charge_window (hour w.now) (reply_charge w.reply) u.ledger.windows)
            ⊎ (((s : Stop) × (c.result ≡ stopped s)) × (c.run.ledger.windows ≡ u.ledger.windows)))
  unfolding settle record_consumption
  settle-charged u effects = elim (Bool-cases w.can_move_circuit) [
    | inr lost ↦ rw lost (refl, refl, refl, inr ((_, refl), refl))
    | inl moved ↦ elim (Bool-cases w.can_charge) [
      | inr lost ↦
          rw (moved, lost) (refl, refl, refl, inr ((_, refl), move_circuit-windows u.ledger))
      | inl paid ↦
          rw (moved, paid)
            (
              refl,
              refl,
              refl,
              inl (
                  ap (charge_window (hour w.now) (reply_charge w.reply))
                    (move_circuit-windows u.ledger)),
            )
    ]
  ]

  recorded-named : lookup (role_name role) named_job.attempt_ids ≡ some attempt_name
  unfolding named_job next_attempt_id mark_ambiguous_attempt
  recorded-named = lookup-insert_self (role_name role) _ r.job.attempt_ids

  response-named : role_response role named_job ≡ role_response role r.job
  unfolding named_job next_attempt_id mark_ambiguous_attempt
  response-named = role_frame role
    where
      role_frame : (z : Role) → role_response z named_job ≡ role_response z r.job
      role_frame investigator = refl
      role_frame critic_role = refl
      role_frame finalizer = refl

  -- Nothing is sent and the run stops, or the request was guarded.
  abbrev pub Fate : Called → Type 0
  Fate c =
      ((c.effects ≡ [])
        × ((s : Stop) × (c.result ≡ stopped s))
        × (c.run.ledger.windows ≡ r.ledger.windows))
      ⊎ IsSent c

  carry : {c d : Called} → c ≡ d → Fate d → Fate c
  carry e f = subst Fate (sym e) f

  transport_lost :
      w.can_mark ≡ false
      → transport h role w probed_run
        ≡ stop_at not_accounted
            (record probed_run {
              model_calls = r.model_calls + 1;
              job = name_attempt h role w.user_digest r.job;
            })
            []
  unfolding transport
  transport_lost lost = rw lost refl

  transport_marked :
      w.can_mark ≡ true
      → transport h role w probed_run ≡ settle w named_run (named attempt_name ∷ sent ∷ [])
  unfolding transport named_job named_run
  transport_marked marked = rw marked refl

  settle-IsSent : IsOpen → IsSent (settle w named_run (named attempt_name ∷ sent ∷ []))
  unfolding named_job named_run mark_ambiguous_attempt next_attempt_id
  settle-IsSent gates =
      let (effects, calls, kept, charged) =
        settle-charged named_run (named attempt_name ∷ sent ∷ []) in
      record {
        gates = gates;
        in_order = effects;
        counted = calls;
        recorded = ap (λ (j : Job). lookup (role_name role) j.attempt_ids) kept ∙ recorded-named;
        same_stage = ap (λ (j : Job). j.stage) kept;
        same_response = ap (role_response role) kept ∙ response-named;
        charged = charged;
      }

  transport-Fate : IsOpen → Fate (transport h role w probed_run)
  transport-Fate gates = elim (Bool-cases w.can_mark) [
    | inr lost ↦ carry (transport_lost lost) (inl (refl, (_, refl), refl))
    | inl marked ↦ carry (transport_marked marked) (inr (settle-IsSent gates))
  ]

  gate_cases : (g : Gate) → (g ≡ allowed) ⊎ (past_gate h g role w r ≡ stop_at (hourly_gate g) r [])
  unfolding past_gate
  gate_cases allowed = inl refl
  gate_cases clock_frozen = inr refl
  gate_cases attempts_spent = inr refl
  gate_cases units_spent = inr refl

  past_gate_open :
      circuit_allows probed_run.ledger.backend_circuit w.config_digest w.now ≡ true
      → past_gate h allowed role w r ≡ transport h role w probed_run
  unfolding past_gate
  past_gate_open e = rw e refl

  past_gate_shut :
      circuit_allows probed_run.ledger.backend_circuit w.config_digest w.now ≡ false
      → past_gate h allowed role w r ≡ stop_at circuit_shut probed_run []
  unfolding past_gate
  past_gate_shut e = rw e refl

  past_gate-Fate :
      r.model_calls < b.max_calls
      → w.elapsed + min_call_window < b.max_wall
      → Fate (past_gate h (budget_allows r.ledger b.hourly w.now) role w r)
  past_gate-Fate calls time = elim (gate_cases (budget_allows r.ledger b.hourly w.now)) [
    | inr refused ↦ carry refused (inl (refl, (_, refl), refl))
    | inl open_ ↦
        elim (Bool-cases (circuit_allows probed_run.ledger.backend_circuit w.config_digest w.now)) [
          | inr shut ↦
              carry (ap (λ g. past_gate h g role w r) open_ ∙ past_gate_shut shut)
                (inl (refl, (_, refl), refl))
          | inl closed_ ↦ carry (ap (λ g. past_gate h g role w r) open_ ∙ past_gate_open closed_) (
              transport-Fate
                (record { calls = calls; time = time; hourly = open_; circuit = closed_ }))
        ]
  ]

  -- A guarded call either sends nothing, stops and charges nothing, or sends one request: then every gate was open
  -- (calls and wall time left in the run, the hourly budget, the circuit after its probe), the
  -- attempt was named before the request in the order of effects and in the job, the call is
  -- counted, and the hour's window is charged with the one attempt and its tokens, or the run stops
  -- and the windows are as they were.
  pub guarded_call-Fate : Fate (guarded_call h b role w r)
  unfolding guarded_call
  guarded_call-Fate = elim (Bool-cases (leb b.max_calls r.model_calls)) [
    | inl spent ↦ carry (no_calls spent) (inl (refl, (_, refl), refl))
    | inr calls ↦ elim (Bool-cases (leb b.max_wall (w.elapsed + min_call_window))) [
      | inl late ↦ carry (no_time calls late) (inl (refl, (_, refl), refl))
      | inr time ↦
          carry (rw (calls, time) refl) (past_gate-Fate (not_le _ _ calls) (not_le _ _ time))
    ]
  ]
    where
      not_le : (m n : ℕ) → leb m n ≡ false → n < m
      not_le m n e = ground arith

      no_calls :
          leb b.max_calls r.model_calls ≡ true
          → guarded_call h b role w r ≡ stop_at no_calls_left r []
      no_calls e = rw e refl

      no_time :
          leb b.max_calls r.model_calls ≡ false
          → leb b.max_wall (w.elapsed + min_call_window) ≡ true
          → guarded_call h b role w r ≡ stop_at no_time_left r []
      no_time e f = rw (e, f) refl

  -- A crash after the request of a role's calling stage, made with no answer of the role stored, and
  -- before its answer is stored leaves a job that is reported, not called: if the call has sent its
  -- request, the restarted worker finds it. (A repair is sent at other stages, and with an answer.)
  pub sent_is_ambiguous :
      (now : ℕ)
      → ((s : String) → h.sha256_32 s ≢ "")
      → r.job.stage ≡ calling_stage role
      → has_text (role_response role r.job) ≡ false
      → let c = guarded_call h b role w r in
        (c.effects ≡ []) ⊎ (next_action now c.run.job ≡ ambiguous)
  sent_is_ambiguous now nonempty e silent = elim guarded_call-Fate [
    | inl (nothing, _, _) ↦ inl nothing
    | inr s ↦ inr (
        next_action-ambiguous now role (guarded_call h b role w r).run.job (s.same_stage ∙ e)
          (ap has_text s.same_response ∙ silent)
          (ap has_text s.recorded ∙ has_text-some _ (named_nonempty nonempty)))
  ]
    where
      has_text-some : (s : String) → s ≢ "" → has_text (some s) ≡ true
      has_text-some s k = ground (arith, eq_iff s "")

      named_nonempty : ((s : String) → h.sha256_32 s ≢ "") → attempt_name ≢ ""
      named_nonempty k = unfold next_attempt_id in k _
