-- ===== src/Worker/Eligible.antt =====
-- The worker's classification against what the engine offers and what a drive can do
-- (`_classify_unit` of tools/saipal_analyst/worker.py).
use saipal.Base.{
  ℕ, ◌-◌, min, ◌≡◌, refl, ◌∙◌, ap, ◌⊎◌, Bool, true, false, not, ◌&&◌, ◌||◌, Option, none, some,
  String, ◌==◌, string_eq, nat_eq, option_eq, if◌then◌else◌,
}
use saipal.Base.Dict.{Dict}
use saipal.Jobs.Stage.{blocked_binding, stage_eq}
use saipal.Jobs.Job.{Job, Hashing}
use saipal.Jobs.Resume.{next_action}
use saipal.Analysis.Episodes.{Episode}
use saipal.Analysis.Paging.{episode_slice_count}
use saipal.Analysis.Session.{
  Session, Digests, semantic_state, episode_finality, is_provisional, is_held, nth, UnitOfWork,
  offer, offer_from,
}
use saipal.Worker.Choice.{
  Eligibility, stale_record, nothing_owed, provisional_disabled, bindable, by_job, job_at,
  classify_episode, classify_unit,
}
use saipal.Worker.Busy.{
  is_runnable, is_settled, is_offered, is_idle, by_job_open, runnable_bound, runnable_busy,
}

-- What is known of a session that the worker may work on.
pub record IsWorkable (d : Digests) (h : Hashing) (limit wall : ℕ) (wanted : Bool)
    (journal : Dict String Job) (s : Session) : Type 0 where
  pub unit : UnitOfWork
  pub offered : offer d limit s ≡ some unit
  pub final_or_wanted : (is_provisional (episode_finality s unit.episode) && not wanted) ≡ false
  pub bound : bindable s.binding_status ≡ true
  pub acted_on :
      (j : Job)
      → job_at d h journal s unit.episode unit.slice_index ≡ some j
      → (j.stage ≡ blocked_binding) ⊎ (is_idle (next_action wall j) ≡ false)

module _ (d : Digests) (h : Hashing) (limit wall : ℕ) (wanted : Bool) (journal : Dict String Job)
    (s : Session) where
  abbrev slice_at : Episode → ℕ
  slice_at e = min (semantic_state s).next_slice_index (episode_slice_count e limit - 1)

  open_offer :
      (s.status == "IMPORTED") ≡ true
      → (semantic_state s).exhausted ≡ false
      → offer d limit s
        ≡ offer_from d limit s
            (semantic_state s)
            (nth s.episodes (semantic_state s).next_episode_index)
  unfolding offer
  open_offer imported left =
      ap
        (λ b.
          if b
          then none
          else offer_from d limit s (semantic_state s)
              (nth s.episodes (semantic_state s).next_episode_index))
        (ap (λ b. not b || (semantic_state s).exhausted) imported ∙ left)

  episode-IsWorkable :
      (o : Option Episode)
      → offer d limit s ≡ offer_from d limit s (semantic_state s) o
      → is_runnable (classify_episode d h limit wall wanted journal s (semantic_state s) o) ≡ true
      → IsWorkable d h limit wall wanted journal s
  episode-IsWorkable none opens r = cc
  episode-IsWorkable (some e) opens r =
      choose (is_held d s e (slice_at e)) (is_provisional (episode_finality s e) && not wanted) refl
        refl r
    where
      rest : Eligibility
      rest =
          by_job wall wanted (bindable s.binding_status) (episode_finality s e)
            (job_at d h journal s e (slice_at e))

      choose :
          (held barred : Bool)
          → is_held d s e (slice_at e) ≡ held
          → (is_provisional (episode_finality s e) && not wanted) ≡ barred
          → is_runnable
              (if held then nothing_owed else if barred then provisional_disabled else rest)
            ≡ true
          → IsWorkable d h limit wall wanted journal s
      choose true barred a b k = cc
      choose false true a b k = cc
      choose false false a b k = record {
        unit = record { episode = e; slice_index = slice_at e };
        offered =
            opens
            ∙ ap (λ x. if x then none else some (record { episode = e; slice_index = slice_at e }))
                a;
        final_or_wanted = b;
        bound = runnable_bound wall wanted (bindable s.binding_status) (episode_finality s e) _ k;
        acted_on = runnable_busy wall wanted (bindable s.binding_status) (episode_finality s e) _ k;
      }

  -- A session that the worker classifies as runnable is offered by the engine as well. The unit is
  -- final, or provisional work is wanted; its session is bound to a protocol; and if it has a job,
  -- then that waits for the binding, or a drive has something to do for it: `next_action` does not
  -- skip it and does not wait.
  pub runnable-IsWorkable :
      is_runnable (classify_unit d h limit wall wanted journal s) ≡ true
      → IsWorkable d h limit wall wanted journal s
  unfolding classify_unit
  runnable-IsWorkable r = choose (s.status == "IMPORTED") (semantic_state s).exhausted refl refl r
    where
      choose :
          (imported over : Bool)
          → (s.status == "IMPORTED") ≡ imported
          → (semantic_state s).exhausted ≡ over
          → is_runnable (
              if not imported
              then stale_record
              else if over
              then nothing_owed
              else classify_episode d h limit wall wanted journal s
                  (semantic_state s)
                  (nth s.episodes (semantic_state s).next_episode_index))
            ≡ true
          → IsWorkable d h limit wall wanted journal s
      choose false over a b k = cc
      choose true true a b k = cc
      choose true false a b k = episode-IsWorkable _ (open_offer a b) k

  settled_episode :
      (o : Option Episode)
      → is_settled (classify_episode d h limit wall wanted journal s (semantic_state s) o)
        ≡ not (is_offered (offer_from d limit s (semantic_state s) o))
  settled_episode none = refl
  settled_episode (some e) =
      choose (is_held d s e (slice_at e)) (is_provisional (episode_finality s e) && not wanted)
    where
      rest : Eligibility
      rest =
          by_job wall wanted (bindable s.binding_status) (episode_finality s e)
            (job_at d h journal s e (slice_at e))

      choose :
          (held barred : Bool)
          → is_settled
              (if held then nothing_owed else if barred then provisional_disabled else rest)
            ≡ not (
                is_offered
                  (if held then none else some (record { episode = e; slice_index = slice_at e })))
      choose true barred = refl
      choose false true = refl
      choose false false =
          by_job_open wall wanted (bindable s.binding_status) (episode_finality s e) _

  -- The worker calls a session settled (its record is stale, or nothing is owed) exactly when the
  -- engine offers no unit of it, whatever the journal holds.
  pub classify_settled :
      is_settled (classify_unit d h limit wall wanted journal s)
      ≡ not (is_offered (offer d limit s))
  unfolding classify_unit offer
  classify_settled = choose (s.status == "IMPORTED") (semantic_state s).exhausted
    where
      choose :
          (imported over : Bool)
          → is_settled (
              if not imported
              then stale_record
              else if over
              then nothing_owed
              else classify_episode d h limit wall wanted journal s
                  (semantic_state s)
                  (nth s.episodes (semantic_state s).next_episode_index))
            ≡ not (
                is_offered (
                  if not imported || over
                  then none
                  else offer_from d limit s
                      (semantic_state s)
                      (nth s.episodes (semantic_state s).next_episode_index)))
      choose false over = refl
      choose true true = refl
      choose true false = settled_episode (nth s.episodes (semantic_state s).next_episode_index)
