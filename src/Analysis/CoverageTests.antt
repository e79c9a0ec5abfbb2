-- ===== src/Analysis/CoverageTests.antt =====
-- The coverage report and its theorems at a concrete session.
use saipal.Base.{
  ℕ, ◌+◌, ◌<◌, ◌≡◌, ◌↔◌, refl, true, false, none, some, List, [], ◌∷◌, length, All, arith,
}
use saipal.Analysis.Episodes.{Episode}
use saipal.Analysis.Paging.{slice_count, episode_slice_count}
use saipal.Analysis.Session.{
  Session, Finality, cold, final, provisional, semantic_state, freshest_records, newest_of,
  keep_newest,
}
use saipal.Analysis.Advance.{Receipt}
use saipal.Analysis.Coverage.{
  session_coverage, coverage, count_episodes, count_episode, cover_all, claims_more,
}
use saipal.Analysis.Covered.{coverage_balances}
use saipal.Analysis.Judged.{IsJudged, truly_exhausted_iff}

abbrev episode : ℕ → ℕ → Episode
episode i n = record {
  index = i;
  start_seq = 10 + i;
  end_seq = 10 + i;
  kind = "command";
  trigger_seq = none;
  event_count = n;
  start_evidence_ref = none;
  end_evidence_ref = none;
}

-- The position says that the session is exhausted.
abbrev session : Session
session = record {
  session_id = "ses";
  generation = 1;
  bundle_sha256 = "b1";
  temperature = cold;
  status = "IMPORTED";
  updated_at = "t1";
  imported_at = "t0";
  binding_status = "BOUND";
  episodes = episode 0 5 ∷ episode 1 2 ∷ [];
  semantic = some (record {
    next_episode_index = 2;
    next_slice_index = 0;
    exhausted = true;
    submitted = 0;
    no_drift = 0;
    provisional_count = 0;
    tail_reviewed_digest = none;
  });
}

abbrev receipt : ℕ → ℕ → Finality → Receipt
receipt i j f = record {
  receipt_id = "rcp";
  verdict = "NO_DRIFT";
  session_id = "ses";
  episode_index = i;
  slice_index = j;
  slice_count = 2;
  finality = f;
  finding_id = none;
  audit = none;
  recovered = false;
  attempted_verdict = none;
}

-- One slice of two is judged, one is provisional, and a slice beyond the episode counts nowhere.
abbrev receipts : List Receipt
receipts =
    receipt 0 0 final ∷ receipt 0 0 provisional ∷ receipt 0 1 provisional ∷ receipt 0 7 final ∷ []

counts :
    ((session_coverage 3 receipts session).slices_final ≡ 1)
    × ((session_coverage 3 receipts session).slices_provisional ≡ 1)
    × ((session_coverage 3 receipts session).slices_pending ≡ 1)
    × ((session_coverage 3 receipts session).pending ≡ 1)
unfolding session_coverage count_episodes count_episode episode_slice_count slice_count
counts = (refl, refl, refl, refl)

-- The report names a session whose position claims more than its receipts show.
names_claim : (coverage 3 receipts (session ∷ [])).cursor_claims_more_than_receipts ≡ "ses" ∷ []
unfolding coverage cover_all claims_more session_coverage count_episodes count_episode
    episode_slice_count slice_count semantic_state freshest_records newest_of keep_newest
names_claim = refl

coverage_balances_example :
    let c = coverage 3 receipts (session ∷ []) in
    (c.episodes_final + c.episodes_provisional + c.episodes_pending ≡ c.episodes_total)
    × (c.slices_final + c.slices_provisional + c.slices_pending ≡ c.slices_total)
coverage_balances_example = coverage_balances 3 receipts (session ∷ [])

truly_exhausted_iff_example :
    ((session_coverage 3 receipts session).truly_exhausted ≡ true)
    ↔ ((0 < length session.episodes) × All (IsJudged 3 receipts "ses") session.episodes)
truly_exhausted_iff_example = truly_exhausted_iff 3 receipts session (omega arith)
