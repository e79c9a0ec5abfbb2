-- ===== src/Drive/Steps.antt =====
-- The steps of a drive: the guarded call of a role, one answer validated with its one repair, and
-- what a settled answer does to the job (`_drive_unit` of tools/saipal_analyst/worker.py).
use saipal.Base.{
  ℕ, ◌+◌, Option, none, some, List, [], ◌∷◌, ◌++◌, String, ◌<>◌, string_eq, leb, if◌then◌else◌,
  Result, ok, err,
}
use saipal.Base.Dict.{lookup}
use saipal.Jobs.Job.{Job, Payload, has_text}
use saipal.Jobs.Resume.{Role, investigator, critic_role, finalizer, role_response}
use saipal.Jobs.Restart.{name_attempt}
use saipal.Budgets.Ledger.{BackendClass}
use saipal.Worker.Call.{World, CallResult, stopped, answered, backend_failed, Effect, guarded_call}
use saipal.Worker.Failure.{Note, note_blocked, transport_failure}
use saipal.Drive.State.{
  Parsed, accepted, rejected, Env, over_budget, raised, returned, M, ◌>>=◌, ◌>>◌, pure, end,
  the_job, edit, tally, persist, give_up, job_of,
}

-- What a call of a role brings: the raw text, or the failure of the backend.
pub data Said : Type 0 where
  said : String → Said
  failing : BackendClass → Said

abbrev pub heard : CallResult → M Said
heard (stopped s) = end (over_budget s)
heard (answered text) = pure (said text)
heard (backend_failed k) = pure (failing k)

-- The journal as `_mark_attempt` writes it, if it does.
abbrev pub marked : List Effect → Job → List Job → List Job
marked [] named_job saved = saved
marked (_ ∷ _) named_job saved = named_job ∷ saved

unfoldable pub call_role : Env → Role → World → M Said
call_role env role w d =
    let c = guarded_call env.hashing env.budget role w d.run in
    heard c.result (record d {
      run = c.run;
      saved = marked c.effects (name_attempt env.hashing role w.user_digest (job_of d)) d.saved;
      effects = d.effects ++ c.effects;
    })

abbrev pub or_empty : Option String → String
or_empty none = ""
or_empty (some text) = text

-- `str(a or b or "")`
abbrev pub or_text : Option String → Option String → String
or_text a b = if has_text a then or_empty a else or_empty b

abbrev pub repair_text : Role → Job → Option String
repair_text investigator j = j.investigator_repair_text
repair_text critic_role j = j.critic_repair_text
repair_text finalizer j = j.finalizer_repair_text

abbrev pub repairs_of : Role → Job → ℕ
repairs_of investigator j = j.investigator_repairs
repairs_of critic_role j = j.critic_repairs
repairs_of finalizer j = j.finalizer_repairs

-- The repair's text and its counter, together.
abbrev pub keep_repair : Role → String → Job → Job
keep_repair investigator text j = record j {
  investigator_repairs = j.investigator_repairs + 1;
  investigator_repair_text = some text;
}
keep_repair critic_role text j = record j {
  critic_repairs = j.critic_repairs + 1;
  critic_repair_text = some text;
}
keep_repair finalizer text j = record j {
  finalizer_repairs = j.finalizer_repairs + 1;
  finalizer_repair_text = some text;
}

-- `_Validation`
pub data Validation : Type 0 where
  valid : Payload → Validation
  unheard : BackendClass → Validation
  invalid : String → Validation

abbrev pub judge_repaired : String → Parsed → M Validation
judge_repaired note (accepted v) = pure (valid v)
judge_repaired note (rejected why) = pure (invalid (note <> why))

-- `DEFAULT_MAX_REPAIRS`
abbrev pub max_repairs : ℕ
max_repairs = 1

-- The answer to the repair: durable with its counter, then parsed.
abbrev pub judge_repair : Role → (String → Parsed) → String → Said → M Validation
judge_repair role parse note (failing k) = pure (unheard k)
judge_repair role parse note (said text) = do
  edit (keep_repair role text)
  persist
  judge_repaired (note <> ": still invalid after repair: ") (parse text)

unfoldable pub ask_repair : Env → Role → (String → Parsed) → String → M Validation
unfolding call_role
ask_repair env role parse note = do
  tally (λ s. record s { repair_calls = s.repair_calls + 1 })
  answer ← call_role env role (env.repair role)
  judge_repair role parse note answer

unfoldable pub after_rejection : Env → Role → (String → Parsed) → String → String → M Validation
after_rejection env role parse note first = do
  j ← the_job
  (if has_text (repair_text role j)
      then judge_repaired (note <> ": still invalid after repair: ")
          (parse (or_empty (repair_text role j)))
      else if leb max_repairs (repairs_of role j)
      then pure (invalid (note <> ": invalid after durable repair budget: " <> first))
      else ask_repair env role parse note)

abbrev pub judge_first : Env → Role → (String → Parsed) → String → Parsed → M Validation
judge_first env role parse note (accepted v) = pure (valid v)
judge_first env role parse note (rejected first) = after_rejection env role parse note first

unfoldable pub validate_with_repair : Env → Role → (String → Parsed) → String → M Validation
validate_with_repair env role parse note = do
  j ← the_job
  judge_first env role parse note (parse (or_empty (role_response role j)))

abbrev pub close_failure : {A : Type 0} → Result (Note × Job) → M A
close_failure (err code) = end (raised code)
close_failure (ok (note_blocked, j)) = do
  edit (λ _. j)
  persist
  tally (λ s. record s { jobs_blocked = s.jobs_blocked + 1 })
  end (returned note_blocked)
close_failure (ok (note, j)) = do edit (λ _. j); persist; end (returned note)

-- `_transport_failure`, and the drive returns.
unfoldable pub fail_over : {A : Type 0} → Env → BackendClass → M A
fail_over env k = do
  j ← the_job
  close_failure (transport_failure env.max_retries env.wall env.now k (env.failure_text k) j)

abbrev pub or_fail : Env → Said → M String
or_fail env (said text) = pure text
or_fail env (failing k) = fail_over env k

abbrev pub checked : Env → Validation → M Payload
checked env (valid v) = pure v
checked env (unheard k) = fail_over env k
checked env (invalid why) = give_up "BLOCKED_OUTPUT" why

-- A validated candidate becomes the job's.
abbrev pub adopt : Env → Payload → Job → Job
adopt env v j = record j {
  candidate = some v;
  candidate_digest = some (env.digest (env.dumps (some v)));
  verdict = lookup "verdict" v;
}

-- An answer is durable, so no attempt is ambiguous.
abbrev pub resolve : Job → Job
resolve j = record j { ambiguous_attempt_ids = [] }
