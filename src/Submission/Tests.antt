-- ===== src/Submission/Tests.antt =====
-- Runs of the submission boundary and its theorems at concrete candidates.
use saipal.Base.{
  ℕ, ◌+◌, ◌≡◌, refl, Bool, true, false, Option, none, some, List, [], ◌∷◌, ◌++◌, String, string_eq,
  contains, All, ok, err, candidate_out_of_scope,
}
use saipal.Analysis.Event.{Event, flag}
use saipal.Analysis.Episodes.{Episode}
use saipal.Analysis.Paging.{slice_count, window_of, episode_events}
use saipal.Analysis.Session.{
  Digests, Session, cold, hot, fresh_semantic, semantic_state, find_unit, pick_newest, unit_digest,
  episode_finality,
}
use saipal.Analysis.Advance.{advance_semantic, pass_slice, close_episode}
use saipal.Submission.Defence.{codes, raised_by, surface_from, defence_surface, unaddressed}
use saipal.Submission.Raised.{defence_surface_lem}
use saipal.Submission.Candidate.{Candidate, build_carrier, in_scope}
use saipal.Submission.Submit.{
  Lifecycle, Home, Submitted, submit_candidate, submit_unit, commit, reconcile,
}
use saipal.Submission.Send.{
  IsAddressed, IsNew, IsGrounded, send, send_fresh, carrier_of, drift_has_grounds,
}
use saipal.Submission.Retry.{Converges, first, submit-Converges}

-- A stand-in for SHA-256 and the decimal text.
abbrev tag : Digests
tag = record { decimal = λ n. "n"; sha256_text = λ s. "c0ffee" }

-- A lifecycle that counts the verdicts without drift.
abbrev counter : Lifecycle ℕ
counter = record {
  absorb_drift = λ c s f key l. ((some "F-1", some 12), l);
  record_negative = λ s key l. l + 1;
  link_finding_audit = λ finding audit l. l;
}

abbrev event : ℕ → String → Event
event n kind = record { seq = n; event_type = kind; facts = []; evidence_ref = none }

-- A message in which the user overrides the protocol.
abbrev override : Event
override = record {
  seq = 4;
  event_type = "USER_MESSAGE";
  facts = ("override", flag true) ∷ [];
  evidence_ref = none;
}

abbrev events : List Event
events = event 1 "TOOL_CALL" ∷ event 2 "TOOL_RESULT" ∷ override ∷ event 6 "TOOL_CALL" ∷ []

abbrev whole : Episode
whole = record {
  index = 0;
  start_seq = 1;
  end_seq = 6;
  kind = "terminal_task";
  trigger_seq = none;
  event_count = 4;
  start_evidence_ref = none;
  end_evidence_ref = none;
}

abbrev session : Session
session = record {
  session_id = "ses";
  generation = 1;
  bundle_sha256 = "b1";
  temperature = cold;
  status = "IMPORTED";
  updated_at = "t1";
  imported_at = "t0";
  binding_status = "BOUND";
  episodes = whole ∷ [];
  semantic = some fresh_semantic;
}

abbrev bundle : String → Option (List Event)
bundle digest = some events

abbrev lost : String → Option (List Event)
lost digest = none

abbrev well_formed : Candidate → Bool
well_formed c = true

abbrev home : Home ℕ
home = record { receipts = []; operations = []; index = session ∷ []; lifecycle = 0 }

-- A drift over the last slice, which answers the override.
abbrev drift : Candidate
drift = record {
  unit_digest = "c0ffee";
  verdict = "DRIFT";
  reasoning = "no plan before the edit";
  session_id = "ses";
  episode_index = 0;
  slice_index = some 1;
  rule_ids = "PAL-1" ∷ [];
  event_refs = 4 ∷ [];
  addressed_defences = "USER_OVERRIDE" ∷ [];
}

drift-IsAddressed : IsAddressed counter tag 2 bundle well_formed home drift 0 session whole
unfolding find_unit pick_newest
drift-IsAddressed = record { shape = refl; found = refl; imported = refl }

drift-IsNew : IsNew counter tag 2 bundle well_formed home drift session whole
unfolding in_scope build_carrier unit_digest episode_events window_of slice_count unaddressed
    defence_surface surface_from raised_by
drift-IsNew = record { scope = refl; no_operation = refl; no_receipt = refl }

submit-Converges_example :
    let r =
      first counter tag 2 bundle well_formed home drift 0 session whole drift-IsAddressed
        drift-IsNew in
    (send counter tag 2 bundle well_formed home drift ≡ ok r)
    × All (Converges counter tag 2 bundle well_formed home drift r) (r.saved ++ (r.home ∷ []))
unfolding build_carrier
submit-Converges_example =
    submit-Converges counter tag 2 bundle well_formed home drift 0 session whole drift-IsAddressed
      drift-IsNew (λ l. refl)

drift_has_grounds_example : IsGrounded counter tag 2 bundle well_formed home drift
unfolding build_carrier commit
drift_has_grounds_example =
    drift_has_grounds counter tag 2 bundle well_formed home drift
      (commit counter tag 2 home drift 0 session whole
        (carrier_of counter tag 2 bundle well_formed drift session whole) none)
      drift-IsNew.no_operation
      (send_fresh counter tag 2 bundle well_formed home drift 0 session whole none drift-IsAddressed
        drift-IsNew.no_operation drift-IsNew.no_receipt drift-IsNew.scope)
      refl refl

defence_surface_lem_example :
    contains (codes (defence_surface events whole hot)) "USER_OVERRIDE" ≡ true
defence_surface_lem_example = defence_surface_lem "USER_OVERRIDE" events whole hot

-- The bundle cannot be read, and a verdict without drift closes the episode of two slices.
quiet : Candidate
quiet = record drift { verdict = "NO_DRIFT"; slice_index = some 0; event_refs = [] }

position_after : List Session → Bool
position_after [] = false
position_after (s ∷ _) = (semantic_state s).exhausted

closes_unread :
    (r : Submitted ℕ) × (submit_candidate counter tag 2 lost well_formed home quiet ≡ ok r)
    × (position_after r.home.index ≡ true)
unfolding quiet submit_candidate submit_unit find_unit pick_newest in_scope build_carrier
    unit_digest commit reconcile advance_semantic semantic_state pass_slice close_episode
    episode_finality unaddressed position_after
closes_unread = (_, refl, refl)

-- Evidence that changed since makes the candidate stale.
stale :
    submit_candidate counter tag 2 bundle well_formed home (record drift { unit_digest = "old" })
    ≡ err candidate_out_of_scope
unfolding submit_candidate submit_unit find_unit pick_newest in_scope build_carrier unit_digest
    episode_events window_of slice_count unaddressed defence_surface surface_from raised_by
stale = refl
