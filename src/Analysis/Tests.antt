-- ===== src/Analysis/Tests.antt =====
-- Runs of the session review and its theorems at concrete sessions.
use saipal.Base.{
  ℕ, ◌+◌, ◌≡◌, refl, true, false, none, some, List, [], ◌∷◌, String, string_eq, arith, length,
}
use saipal.Analysis.Event.{Event, text, Ascends}
use saipal.Analysis.Episodes.{
  Episode, extract_episodes, boundary_marks, marks_from, kind_of, active_work, episodes_from,
  episode, index_events, locator_at, mechanical_spans,
}
use saipal.Analysis.Boundaries.{IsDivision, extract_episodes-IsDivision}
use saipal.Analysis.Paging.{take, window_of, IsWindow, window_of-IsWindow}
use saipal.Analysis.Handover.{gather_spans, mechanical_spans-gather}
use saipal.Analysis.Session.{
  Digests, Session, UnitOfWork, hot, cold, final, fresh_semantic, semantic_state, freshest_records,
  newest_of, keep_newest, find_unit, pick_newest,
}
use saipal.Analysis.Advance.{Receipt, close_episode, pass_slice, advance_semantic}
use saipal.Analysis.Forward.{IsForward, advance_semantic-IsForward}
use saipal.Analysis.Review.{all_units, review}
use saipal.Analysis.Reviewed.{IsOver, new_review, review_hot}
use saipal.Analysis.Seen.{shown, review_sees_all}

abbrev event : ℕ → String → Event
event n kind = record { seq = n; event_type = kind; facts = []; evidence_ref = none }

abbrev snapshot : ℕ → String → Event
snapshot n work = record {
  seq = n;
  event_type = "STATE_SNAPSHOT";
  facts = ("active_work", text work) ∷ [];
  evidence_ref = none;
}

abbrev kinds : List String
kinds = "user_task" ∷ "work_switch" ∷ "recovery" ∷ []

-- The events after the first: a task, a tool call, a switch of work, a boundary at the end.
abbrev later : List Event
later =
    event 2 "TOOL_CALL"
    ∷ snapshot 4 "SRC-1"
    ∷ event 5 "SESSION_BOUNDARY"
    ∷ snapshot 7 "SRC-2"
    ∷ event 8 "TOOL_CALL"
    ∷ event 9 "USER_MESSAGE"
    ∷ []

abbrev events : List Event
events = event 1 "USER_MESSAGE" ∷ later

later-Ascends : Ascends 1 later
later-Ascends =
    (omega arith, (omega arith, (omega arith, (omega arith, (omega arith, (omega arith, tt))))))

-- The switch of work and the last message open an episode; the last one is a single event.
splits :
    extract_episodes kinds events
    ≡ record {
      index = 0;
      start_seq = 1;
      end_seq = 6;
      kind = "work_switch";
      trigger_seq = some 7;
      event_count = 4;
      start_evidence_ref = none;
      end_evidence_ref = none;
    }
      ∷ record {
        index = 1;
        start_seq = 7;
        end_seq = 8;
        kind = "user_task";
        trigger_seq = some 9;
        event_count = 2;
        start_evidence_ref = none;
        end_evidence_ref = none;
      }
      ∷ record {
        index = 2;
        start_seq = 9;
        end_seq = 9;
        kind = "terminal_task";
        trigger_seq = none;
        event_count = 1;
        start_evidence_ref = none;
        end_evidence_ref = none;
      }
      ∷ []
unfolding extract_episodes boundary_marks marks_from kind_of active_work episodes_from episode
    index_events locator_at
splits = refl

extract_episodes-IsDivision_example : IsDivision kinds events 1 9 (extract_episodes kinds events)
extract_episodes-IsDivision_example =
    extract_episodes-IsDivision kinds (event 1 "USER_MESSAGE") later later-Ascends

window_of-IsWindow_example : IsWindow events 3 (window_of events 3 1)
window_of-IsWindow_example = window_of-IsWindow events 3 1 (omega arith)

mechanical_spans-gather_example : gather_spans events (mechanical_spans events) ≡ events
mechanical_spans-gather_example =
    mechanical_spans-gather (event 1 "USER_MESSAGE") later
      (omega arith, (omega arith, (omega arith, (omega arith, (omega arith, (omega arith, tt))))))

-- A stand-in for SHA-256 and the decimal text.
abbrev tag : Digests
tag = record { decimal = λ n. "n"; sha256_text = λ s. "c0ffee" }

session : Session
session = record {
  session_id = "ses";
  generation = 1;
  bundle_sha256 = "b1";
  temperature = cold;
  status = "IMPORTED";
  updated_at = "t1";
  imported_at = "t0";
  binding_status = "BOUND";
  episodes = extract_episodes kinds events;
  semantic = some fresh_semantic;
}

abbrev no_drift : Session → UnitOfWork → Receipt
no_drift s u = record {
  receipt_id = "rcp";
  verdict = "NO_DRIFT";
  session_id = s.session_id;
  episode_index = u.episode.index;
  slice_index = u.slice_index;
  slice_count = 1;
  finality = final;
  finding_id = none;
  audit = none;
  recovered = false;
  attempted_verdict = none;
}

abbrev tail : Episode
tail = record {
  index = 2;
  start_seq = 9;
  end_seq = 9;
  kind = "terminal_task";
  trigger_seq = none;
  event_count = 1;
  start_evidence_ref = none;
  end_evidence_ref = none;
}

review_sees_all_example :
    let q =
      review tag 3 no_drift (length (all_units 3 session.episodes) + 0) (new_review session) in
    (shown events session.episodes 3 q.visited ≡ events) × IsOver tag 3 no_drift session q true
unfolding session
review_sees_all_example =
    review_sees_all tag 3 no_drift session kinds (event 1 "USER_MESSAGE") later 0 (omega arith) refl
      refl refl later-Ascends

-- The same evidence while the session is still open.
live : Session
live = record session { temperature = hot }

review_hot_example :
    IsOver tag 3 no_drift live
      (review tag 3 no_drift (length (all_units 3 live.episodes) + 2) (new_review live))
      false
unfolding session live extract_episodes boundary_marks marks_from kind_of active_work episodes_from
    episode index_events locator_at
review_hot_example =
    review_hot tag 3 no_drift (omega arith) live refl 2 (take 2 live.episodes) tail refl refl
      (refl, (refl, (refl, tt))) (λ text. refl)

-- A final verdict on the last episode, whatever was judged before.
judged : Session → Session
judged s =
    advance_semantic tag s tail final (no_drift s (record { episode = tail; slice_index = 0 }) ∷ [])
      0 1

advance_semantic-IsForward_example :
    IsForward (semantic_state session) (semantic_state (judged session))
unfolding judged session
advance_semantic-IsForward_example =
    advance_semantic-IsForward tag session tail final
      (no_drift session (record { episode = tail; slice_index = 0 }) ∷ []) 0 1

-- A final verdict on an episode ahead of the position passes the episodes between unjudged.
jumps :
    ((semantic_state (judged session)).exhausted ≡ true)
    × ((semantic_state (judged session)).next_episode_index ≡ 3)
unfolding judged session advance_semantic semantic_state pass_slice close_episode extract_episodes
    boundary_marks marks_from kind_of active_work episodes_from episode
jumps = (refl, refl)

-- Two records of one session and generation: the position is read from the first and the
-- submission is addressed to the newer.
newer : Session
newer = record session { updated_at = "t2" }

addressed :
    (freshest_records (session ∷ newer ∷ []) ≡ session ∷ [])
    × (find_unit (session ∷ newer ∷ []) "ses" 7 ≡ some (1, newer, none))
unfolding newer session freshest_records newest_of keep_newest find_unit pick_newest
    extract_episodes boundary_marks marks_from kind_of active_work episodes_from episode
addressed = (refl, refl)
