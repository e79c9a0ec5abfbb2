-- ===== src/Worker/Busy.antt =====
-- What the class of a unit says of its job (`_classify_unit` of tools/saipal_analyst/worker.py).
use saipal.Base.{
  ℕ, ◌≡◌, refl, ◌∙◌, sym, ap, ◌⊎◌, inl, inr, Bool, true, false, not, ◌&&◌, Option, none, some, ◌==◌,
  string_eq, nat_eq, contains, option_eq, if◌then◌else◌, Bool-cases,
}
use saipal.Jobs.Stage.{
  Stage, ready, investigator_calling, investigator_response, candidate_ready, critic_calling,
  critic_ready, finalizer_calling, final_ready, submitting, done, retry_wait, blocked,
  blocked_binding, stale, remote_outcome_unknown, Stage-discrete, stage_eq, terminal_stages,
}
use saipal.Jobs.Job.{Job, has_text}
use saipal.Jobs.Resume.{
  retry_due, has_attempt, Action, skip, ambiguous, call, validate, critic, finalize, retry, wait,
  action_at, next_action,
}
use saipal.Analysis.Session.{Finality, final, provisional, UnitOfWork}
use saipal.Worker.Choice.{
  Eligibility, stale_record, nothing_owed, waiting_retry, runnable_final, runnable_provisional,
  runnable, by_binding, by_stage, by_job,
}

abbrev pub is_runnable : Eligibility → Bool
is_runnable runnable_final = true
is_runnable runnable_provisional = true
is_runnable _ = false

-- The unit is not offered at all.
abbrev pub is_settled : Eligibility → Bool
is_settled stale_record = true
is_settled nothing_owed = true
is_settled _ = false

abbrev pub is_offered : Option UnitOfWork → Bool
is_offered none = false
is_offered (some u) = true

-- A drive would do nothing, or find nothing to do.
abbrev pub is_idle : Action → Bool
is_idle skip = true
is_idle wait = true
is_idle _ = false

by_binding_open :
    (wanted bound : Bool) (f : Finality) → is_settled (by_binding wanted bound f) ≡ false
by_binding_open wanted false f = refl
by_binding_open true true final = refl
by_binding_open true true provisional = refl
by_binding_open false true final = refl
by_binding_open false true provisional = refl

runnable_open : (f : Finality) → is_settled (runnable f) ≡ false
runnable_open final = refl
runnable_open provisional = refl

by_stage_open :
    (wall : ℕ) (wanted bound : Bool) (f : Finality) (j : Job) (s : Stage)
    → is_settled (by_stage wall wanted bound f j s) ≡ false
unfolding by_stage
by_stage_open wall wanted bound f j s = elim (Bool-cases (s == blocked_binding && bound)) [
  | inl bindable_ ↦ rw bindable_ (runnable_open f)
  | inr a ↦ elim (Bool-cases (s == remote_outcome_unknown)) [
    | inl unknown ↦ rw (a, unknown) refl
    | inr b ↦ elim (Bool-cases (contains terminal_stages s)) [
      | inl over ↦ rw (a, b, over) refl
      | inr c ↦ elim (Bool-cases (s == retry_wait && not (retry_due wall j.next_retry_at))) [
        | inl early ↦ rw (a, b, c, early) refl
        | inr e ↦ rw (a, b, c, e) (by_binding_open wanted bound f)
      ]
    ]
  ]
]

pub by_job_open :
    (wall : ℕ) (wanted bound : Bool) (f : Finality) (o : Option Job)
    → is_settled (by_job wall wanted bound f o) ≡ false
by_job_open wall wanted bound f none = by_binding_open wanted bound f
by_job_open wall wanted bound f (some j) = by_stage_open wall wanted bound f j j.stage

-- A runnable job is one that a drive acts on.
busy :
    (wall : ℕ) (wanted bound : Bool) (f : Finality) (j : Job) (s : Stage)
    → is_runnable (by_stage wall wanted bound f j s) ≡ true
    → (s ≡ blocked_binding) ⊎ (is_idle (action_at wall j s) ≡ false)
unfolding by_stage action_at Stage-discrete
busy wall wanted bound f j ready h = inr refl
busy wall wanted bound f j investigator_calling h =
    inr (asked (has_text j.response_text) (has_attempt "investigator" j))
  where
    asked :
        (a b : Bool) → is_idle (if not a then (if b then ambiguous else call) else validate) ≡ false
    asked true b = refl
    asked false true = refl
    asked false false = refl
busy wall wanted bound f j investigator_response h = inr refl
busy wall wanted bound f j candidate_ready h = inr refl
busy wall wanted bound f j critic_calling h =
    inr (late (not (has_text j.critic_response_text) && has_attempt "critic" j))
  where
    late : (b : Bool) → is_idle (if b then ambiguous else critic) ≡ false
    late true = refl
    late false = refl
busy wall wanted bound f j critic_ready h = inr refl
busy wall wanted bound f j finalizer_calling h =
    inr (late (not (has_text j.finalizer_response_text) && has_attempt "finalizer" j))
  where
    late : (b : Bool) → is_idle (if b then ambiguous else finalize) ≡ false
    late true = refl
    late false = refl
busy wall wanted bound f j final_ready h = inr refl
busy wall wanted bound f j submitting h = inr refl
busy wall wanted bound f j done h = cc
busy wall wanted bound f j blocked h = cc
busy wall wanted bound f j blocked_binding h = inl refl
busy wall wanted bound f j stale h = cc
busy wall wanted bound f j remote_outcome_unknown h = cc
busy wall wanted bound f j retry_wait h = inr (due (retry_due wall j.next_retry_at) h)
  where
    due :
        (b : Bool)
        → is_runnable (if not b then waiting_retry else by_binding wanted bound f) ≡ true
        → is_idle (if b then retry else wait) ≡ false
    due true k = refl
    due false k = cc

and_false : (b : Bool) → (b && false) ≡ false
and_false true = refl
and_false false = refl

unbound_idle :
    (wall : ℕ) (wanted : Bool) (f : Finality) (j : Job) (s : Stage)
    → is_runnable (by_stage wall wanted false f j s) ≡ false
unfolding by_stage
unbound_idle wall wanted f j s =
    rw (and_false (s == blocked_binding)) (elim (Bool-cases (s == remote_outcome_unknown)) [
      | inl unknown ↦ rw unknown refl
      | inr b ↦ elim (Bool-cases (contains terminal_stages s)) [
        | inl over ↦ rw (b, over) refl
        | inr c ↦ elim (Bool-cases (s == retry_wait && not (retry_due wall j.next_retry_at))) [
          | inl early ↦ rw (b, c, early) refl
          | inr e ↦ rw (b, c, e) refl
        ]
      ]
    ])

pub runnable_bound :
    (wall : ℕ) (wanted bound : Bool) (f : Finality) (o : Option Job)
    → is_runnable (by_job wall wanted bound f o) ≡ true
    → bound ≡ true
runnable_bound wall wanted true f o r = refl
runnable_bound wall wanted false f none r = cc
runnable_bound wall wanted false f (some j) r =
    absurd (clash (sym (unbound_idle wall wanted f j j.stage) ∙ r))
  where
    clash : false ≡ true → ⊥
    clash e = cc

pub runnable_busy :
    (wall : ℕ) (wanted bound : Bool) (f : Finality) (o : Option Job)
    → is_runnable (by_job wall wanted bound f o) ≡ true
    → (j : Job) → o ≡ some j
    → (j.stage ≡ blocked_binding) ⊎ (is_idle (next_action wall j) ≡ false)
unfolding next_action
runnable_busy wall wanted bound f o r j e =
    busy wall wanted bound f j j.stage
      (sym (ap (λ x. is_runnable (by_job wall wanted bound f x)) e) ∙ r)
