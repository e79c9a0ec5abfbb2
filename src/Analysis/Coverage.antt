-- ===== src/Analysis/Coverage.antt =====
-- Coverage counted from receipts (tools/saipal_engine/coverage.py).
use saipal.Base.{
  ℕ, suc, ◌+◌, ◌-◌, Bool, true, false, not, ◌&&◌, List, [], ◌∷◌, String, ◌==◌, string_eq, nat_eq,
  nat_beq, ltb, if◌then◌else◌, keep_if, length, contains,
}
use saipal.Analysis.Episodes.{Episode}
use saipal.Analysis.Paging.{episode_slice_count}
use saipal.Analysis.Session.{Session, semantic_state, is_provisional, freshest_records}
use saipal.Analysis.Advance.{Receipt}
use saipal.Analysis.Count.{distinct, below}

-- The receipts of a session.
abbrev pub receipts_of_session : List Receipt → String → List Receipt
receipts_of_session receipts id = keep_if (λ r. r.session_id == id) receipts

-- Those of one of its episodes.
abbrev pub entries_of : List Receipt → ℕ → List Receipt
entries_of receipts index = keep_if (λ r. r.episode_index == index) receipts

abbrev pub is_final : Receipt → Bool
is_final r = not (is_provisional r.finality)

abbrev pub slices : List Receipt → List ℕ
slices [] = []
slices (r ∷ rs) = r.slice_index ∷ slices rs

-- The slices with a final verdict.
abbrev pub judged : List Receipt → List ℕ
judged entries = distinct (slices (keep_if is_final entries))

-- The slices with provisional verdicts only.
abbrev pub started : List Receipt → List ℕ
started entries = keep_if (λ i. not (contains (judged entries) i)) (distinct (slices entries))

abbrev pub covered : ℕ → List Receipt → List ℕ
covered expected entries = keep_if (below expected) (judged entries)

abbrev pub some_entry : List Receipt → Bool
some_entry [] = false
some_entry (_ ∷ _) = true

-- The sums over a session's episodes.
pub record Counts : Type 0 where
  pub total : ℕ
  pub final_episodes : ℕ
  pub provisional_episodes : ℕ
  pub slices_total : ℕ
  pub slices_final : ℕ
  pub slices_provisional : ℕ

abbrev pub no_counts : Counts
no_counts = record {
  total = 0;
  final_episodes = 0;
  provisional_episodes = 0;
  slices_total = 0;
  slices_final = 0;
  slices_provisional = 0;
}

abbrev pub is_covered : ℕ → List Receipt → Bool
is_covered expected entries = ltb 0 expected && nat_beq (length (covered expected entries)) expected

abbrev pub unit_if : Bool → ℕ
unit_if true = 1
unit_if false = 0

-- One episode counted.
unfoldable pub count_episode : ℕ → List Receipt → Counts → Counts
count_episode expected entries counts = record {
  total = suc counts.total;
  final_episodes = unit_if (is_covered expected entries) + counts.final_episodes;
  provisional_episodes =
      unit_if (not (is_covered expected entries) && some_entry entries)
      + counts.provisional_episodes;
  slices_total = expected + counts.slices_total;
  slices_final = length (covered expected entries) + counts.slices_final;
  slices_provisional =
      length (keep_if (below expected) (started entries)) + counts.slices_provisional;
}

unfoldable pub count_episodes : ℕ → List Receipt → List Episode → Counts
count_episodes limit receipts [] = no_counts
count_episodes limit receipts (e ∷ es) =
    count_episode (episode_slice_count e limit) (entries_of receipts e.index)
      (count_episodes limit receipts es)

pub record SessionCoverage : Type 0 where
  pub session_id : String
  pub episodes : ℕ
  pub final_episodes : ℕ
  pub provisional_episodes : ℕ
  pub pending : ℕ
  pub needs_final_review : ℕ
  pub slices : ℕ
  pub slices_final : ℕ
  pub slices_provisional : ℕ
  pub slices_pending : ℕ
  pub cursor : ℕ
  pub cursor_slice : ℕ
  pub claimed_exhausted : Bool
  pub truly_exhausted : Bool
  pub receipts : ℕ

unfoldable pub session_coverage : ℕ → List Receipt → Session → SessionCoverage
session_coverage limit all s =
    let receipts = receipts_of_session all s.session_id in
    let c = count_episodes limit receipts s.episodes in
    record {
      session_id = s.session_id;
      episodes = c.total;
      final_episodes = c.final_episodes;
      provisional_episodes = c.provisional_episodes;
      pending = c.total - c.final_episodes - c.provisional_episodes;
      needs_final_review = c.total - c.final_episodes;
      slices = c.slices_total;
      slices_final = c.slices_final;
      slices_provisional = c.slices_provisional;
      slices_pending = c.slices_total - c.slices_final - c.slices_provisional;
      cursor = (semantic_state s).next_episode_index;
      cursor_slice = (semantic_state s).next_slice_index;
      claimed_exhausted = (semantic_state s).exhausted;
      truly_exhausted = ltb 0 c.total && nat_beq c.final_episodes c.total;
      receipts = length receipts;
    }

-- The report over the freshest generation of every session.
pub record Coverage : Type 0 where
  pub sessions : List SessionCoverage
  pub episodes_total : ℕ
  pub episodes_final : ℕ
  pub episodes_provisional : ℕ
  pub episodes_pending : ℕ
  pub slices_total : ℕ
  pub slices_final : ℕ
  pub slices_provisional : ℕ
  pub slices_pending : ℕ
  pub receipts_total : ℕ
  pub sessions_truly_exhausted : ℕ
  pub cursor_claims_more_than_receipts : List String

abbrev pub sum_by : (SessionCoverage → ℕ) → List SessionCoverage → ℕ
sum_by f [] = 0
sum_by f (row ∷ rows) = f row + sum_by f rows

unfoldable pub cover_all : ℕ → List Receipt → List Session → List SessionCoverage
cover_all limit all [] = []
cover_all limit all (s ∷ ss) = session_coverage limit all s ∷ cover_all limit all ss

unfoldable pub claims_more : List SessionCoverage → List String
claims_more [] = []
claims_more (row ∷ rows) =
    let rest = claims_more rows in
    if row.claimed_exhausted && not row.truly_exhausted then row.session_id ∷ rest else rest

unfoldable pub coverage : ℕ → List Receipt → List Session → Coverage
coverage limit all index =
    let rows = cover_all limit all (freshest_records index) in
    record {
      sessions = rows;
      episodes_total = sum_by (λ row. row.episodes) rows;
      episodes_final = sum_by (λ row. row.final_episodes) rows;
      episodes_provisional = sum_by (λ row. row.provisional_episodes) rows;
      episodes_pending = sum_by (λ row. row.pending) rows;
      slices_total = sum_by (λ row. row.slices) rows;
      slices_final = sum_by (λ row. row.slices_final) rows;
      slices_provisional = sum_by (λ row. row.slices_provisional) rows;
      slices_pending = sum_by (λ row. row.slices_pending) rows;
      receipts_total = sum_by (λ row. row.receipts) rows;
      sessions_truly_exhausted = sum_by (λ row. unit_if row.truly_exhausted) rows;
      cursor_claims_more_than_receipts = claims_more rows;
    }
