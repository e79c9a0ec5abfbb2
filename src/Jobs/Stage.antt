-- ===== src/Jobs/Stage.antt =====
-- The stages of an analyst job and where each may go
-- (`STATES`, `TRANSITIONS`, `TERMINAL_STAGES` of tools/saipal_analyst/jobs.py).
use saipal.Base.{
  ◌≡◌, refl, Bool, Option, none, some, List, [], ◌∷◌, String, Eq, ◌==◌, eq_of_discrete, string_eq,
  contains, if◌then◌else◌,
}

pub data Stage : Type 0 where
  ready investigator_calling investigator_response candidate_ready : Stage
  critic_calling critic_ready finalizer_calling final_ready submitting done : Stage
  retry_wait blocked blocked_binding stale remote_outcome_unknown : Stage

unfoldable pub Stage-discrete : Discrete Stage
Stage-discrete = hlevel

instance abbrev pub stage_eq : Eq Stage
stage_eq = eq_of_discrete Stage-discrete

-- `STATES`
abbrev pub states : List Stage
states =
    ready ∷ investigator_calling ∷ investigator_response ∷ candidate_ready ∷ critic_calling
    ∷ critic_ready ∷ finalizer_calling ∷ final_ready ∷ submitting ∷ done ∷ retry_wait ∷ blocked
    ∷ blocked_binding ∷ stale ∷ remote_outcome_unknown ∷ []

-- The text that the journal file holds.
unfoldable pub stage_name : Stage → String
stage_name ready = "READY"
stage_name investigator_calling = "INVESTIGATOR_CALLING"
stage_name investigator_response = "INVESTIGATOR_RESPONSE"
stage_name candidate_ready = "CANDIDATE_READY"
stage_name critic_calling = "CRITIC_CALLING"
stage_name critic_ready = "CRITIC_READY"
stage_name finalizer_calling = "FINALIZER_CALLING"
stage_name final_ready = "FINAL_READY"
stage_name submitting = "SUBMITTING"
stage_name done = "DONE"
stage_name retry_wait = "RETRY_WAIT"
stage_name blocked = "BLOCKED"
stage_name blocked_binding = "BLOCKED_BINDING"
stage_name stale = "STALE"
stage_name remote_outcome_unknown = "REMOTE_OUTCOME_UNKNOWN"

-- The first stage of a list with this name: `stage in STATES`, and which one it is.
unfoldable pub find_stage : String → List Stage → Option Stage
unfolding stage_name
find_stage name [] = none
find_stage name (s ∷ rest) = if name == stage_name s then some s else find_stage name rest

unfoldable pub parse_stage : String → Option Stage
unfolding find_stage
parse_stage name = find_stage name states

-- Every stage that is written is read back.
pub parse_stage-stage_name : (s : Stage) → parse_stage (stage_name s) ≡ some s
unfolding parse_stage
parse_stage-stage_name ready = refl
parse_stage-stage_name _ = refl

-- `TRANSITIONS`
unfoldable pub transitions : Stage → List Stage
transitions ready = investigator_calling ∷ blocked_binding ∷ blocked ∷ stale ∷ []
transitions investigator_calling = investigator_response ∷ retry_wait ∷ blocked ∷ stale ∷ []
transitions investigator_response = candidate_ready ∷ retry_wait ∷ blocked ∷ stale ∷ []
transitions candidate_ready = critic_calling ∷ final_ready ∷ stale ∷ []
transitions critic_calling = critic_ready ∷ retry_wait ∷ blocked ∷ stale ∷ []
transitions critic_ready = finalizer_calling ∷ final_ready ∷ retry_wait ∷ blocked ∷ stale ∷ []
transitions finalizer_calling = final_ready ∷ retry_wait ∷ blocked ∷ stale ∷ []
transitions final_ready = submitting ∷ retry_wait ∷ blocked ∷ stale ∷ []
transitions submitting = done ∷ blocked ∷ stale ∷ []
transitions retry_wait =
    ready ∷ investigator_response ∷ candidate_ready ∷ critic_ready ∷ final_ready ∷ stale ∷ []
transitions blocked = ready ∷ stale ∷ []
transitions blocked_binding =
    ready ∷ investigator_response ∷ candidate_ready ∷ critic_ready ∷ final_ready ∷ stale ∷ []
transitions stale = []
transitions done = []
transitions remote_outcome_unknown =
    investigator_calling ∷ critic_calling ∷ finalizer_calling ∷ blocked ∷ stale ∷ []

-- `TERMINAL_STAGES`
abbrev pub terminal_stages : List Stage
terminal_stages = done ∷ blocked ∷ blocked_binding ∷ stale ∷ []

-- `to_state in TRANSITIONS.get(stage, ())`
unfoldable pub may_go : Stage → Stage → Bool
unfolding transitions Stage-discrete
may_go from to = contains (transitions from) to
