-- ===== src/Worker/Choice.antt =====
-- What the worker makes of a session before it picks a unit (`_classify_unit` and `_bindable` of
-- tools/saipal_analyst/worker.py).
use saipal.Base.{
  ℕ, ◌-◌, min, Bool, not, ◌&&◌, ◌||◌, Option, none, some, String, ◌==◌, string_eq, nat_eq, contains,
  option_eq, if◌then◌else◌,
}
use saipal.Base.Dict.{Dict, lookup}
use saipal.Jobs.Stage.{
  Stage, retry_wait, blocked_binding, remote_outcome_unknown, Stage-discrete, stage_eq,
  terminal_stages,
}
use saipal.Jobs.Job.{Job, Hashing, unit_job_id}
use saipal.Jobs.Resume.{retry_due}
use saipal.Analysis.Episodes.{Episode}
use saipal.Analysis.Paging.{episode_slice_count}
use saipal.Analysis.Session.{
  Session, Digests, Finality, final, provisional, Semantic, semantic_state, episode_finality,
  is_provisional, is_held, nth, unit_digest,
}

pub data Eligibility : Type 0 where
  stale_record nothing_owed provisional_disabled unknown_outcome terminal : Eligibility
  waiting_retry no_binding runnable_final runnable_provisional unclassified : Eligibility

-- A session without a status has the text UNKNOWN.
unfoldable pub bindable : String → Bool
bindable status = not (status == "UNKNOWN" || status == "PARTIAL")

abbrev pub runnable : Finality → Eligibility
runnable final = runnable_final
runnable provisional = runnable_provisional

abbrev pub by_binding : Bool → Bool → Finality → Eligibility
by_binding wanted bound f =
    if not bound
    then no_binding
    else if is_provisional f && not wanted
    then unclassified
    else runnable f

-- The classification by the stage of the unit's job; `wanted` is the leave to work on provisional
-- units.
unfoldable pub by_stage : ℕ → Bool → Bool → Finality → Job → Stage → Eligibility
unfolding retry_due Stage-discrete
by_stage wall wanted bound f j s =
    if s == blocked_binding && bound
    then runnable f
    else if s == remote_outcome_unknown
    then unknown_outcome
    else if contains terminal_stages s
    then terminal
    else if s == retry_wait && not (retry_due wall j.next_retry_at)
    then waiting_retry
    else by_binding wanted bound f

abbrev pub by_job : ℕ → Bool → Bool → Finality → Option Job → Eligibility
by_job wall wanted bound f none = by_binding wanted bound f
by_job wall wanted bound f (some j) = by_stage wall wanted bound f j j.stage

-- The job of a unit, if the journal has one.
abbrev pub job_at : Digests → Hashing → Dict String Job → Session → Episode → ℕ → Option Job
job_at d h journal s e slice_at =
    lookup (unit_job_id h s.session_id e.index slice_at (unit_digest d s e slice_at)) journal

module _ (d : Digests) (h : Hashing) (event_limit wall : ℕ) (wanted : Bool)
    (journal : Dict String Job) where
  abbrev pub classify_episode : Session → Semantic → Option Episode → Eligibility
  classify_episode s state none = nothing_owed
  classify_episode s state (some e) =
      let slice_at = min state.next_slice_index (episode_slice_count e event_limit - 1) in
      if is_held d s e slice_at
      then nothing_owed
      else if is_provisional (episode_finality s e) && not wanted
      then provisional_disabled
      else by_job wall wanted (bindable s.binding_status) (episode_finality s e)
          (job_at d h journal s e slice_at)

  unfoldable pub classify_unit : Session → Eligibility
  classify_unit s =
      if not (s.status == "IMPORTED")
      then stale_record
      else if (semantic_state s).exhausted
      then nothing_owed
      else classify_episode s (semantic_state s)
          (nth s.episodes (semantic_state s).next_episode_index)
