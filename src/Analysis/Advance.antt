-- ===== src/Analysis/Advance.antt =====
-- The receipts of judged units and the move of the semantic position past one
-- (`_advance_semantic` and `_tallies_for_session` of tools/saipal_engine/submit.py).
use saipal.Base.{
  ℕ, ◌+◌, ◌-◌, Bool, true, false, not, Option, none, some, List, [], ◌∷◌, String, ◌==◌, string_eq,
  ltb, leb, if◌then◌else◌, length, max,
}
use saipal.Analysis.Episodes.{Episode}
use saipal.Analysis.Session.{
  Digests, Finality, final, provisional, Semantic, Session, semantic_state, tail_digest,
}

abbrev pub verdict_drift : String
verdict_drift = "DRIFT"

abbrev pub verdict_insufficient : String
verdict_insufficient = "INSUFFICIENT_EVIDENCE"

-- What a recorded verdict answers.
pub record Receipt : Type 0 where
  pub receipt_id : String
  pub verdict : String
  pub session_id : String
  pub episode_index : ℕ
  pub slice_index : ℕ
  pub slice_count : ℕ
  pub finality : Finality
  pub finding_id : Option String
  pub audit : Option ℕ
  pub recovered : Bool
  pub attempted_verdict : Option String

pub record Tallies : Type 0 where
  pub submitted : ℕ
  pub no_drift : ℕ
  pub provisional_count : ℕ

abbrev one_if : Bool → ℕ
one_if true = 1
one_if false = 0

abbrev provisional_one : Finality → ℕ
provisional_one final = 0
provisional_one provisional = 1

unfoldable pub tallies_for_session : List Receipt → String → Tallies
tallies_for_session [] id = record { submitted = 0; no_drift = 0; provisional_count = 0 }
tallies_for_session (r ∷ rs) id =
    let rest = tallies_for_session rs id in
    let drifts = r.verdict == verdict_drift in
    if r.session_id == id
    then record {
      submitted = one_if drifts + rest.submitted;
      no_drift = one_if (not drifts) + rest.no_drift;
      provisional_count = provisional_one r.finality + rest.provisional_count;
    }
    else rest

abbrev pub tally : List Receipt → String → Semantic → Semantic
tally receipts id state =
    let counts = tallies_for_session receipts id in
    record state {
      submitted = counts.submitted;
      no_drift = counts.no_drift;
      provisional_count = counts.provisional_count;
    }

-- The position after a verdict on a tail that can still grow.
unfoldable pub hold_tail : Semantic → ℕ → ℕ → ℕ → String → Semantic
hold_tail state index slice_index count digest =
    if ltb (slice_index + 1) count
    then if ltb index state.next_episode_index
      then state
      else record state { next_slice_index = max state.next_slice_index (slice_index + 1) }
    else record state { tail_reviewed_digest = some digest }

-- The position after a verdict on an episode's last slice.
unfoldable pub close_episode : Semantic → ℕ → ℕ → Semantic
close_episode state index total =
    let next = if leb state.next_episode_index index then index + 1 else state.next_episode_index in
    record state {
      next_episode_index = next;
      next_slice_index = 0;
      exhausted = leb total next;
      tail_reviewed_digest = if leb (next - 1) index then none else state.tail_reviewed_digest;
    }

-- The position after a verdict that is final.
unfoldable pub pass_slice : Semantic → ℕ → ℕ → ℕ → ℕ → Semantic
pass_slice state index slice_index count total =
    if ltb index state.next_episode_index
    then state
    else if ltb (slice_index + 1) count
    then record state { next_slice_index = max state.next_slice_index (slice_index + 1) }
    else close_episode state index total

-- The position after a verdict, by its finality.
abbrev pub moved : Finality → Semantic → ℕ → ℕ → ℕ → ℕ → String → Semantic
moved final state index slice_index count total digest =
    pass_slice state index slice_index count total
moved provisional state index slice_index count total digest =
    hold_tail state index slice_index count digest

unfoldable pub advance_semantic :
    Digests → Session → Episode → Finality → List Receipt → ℕ → ℕ → Session
advance_semantic d s e finality receipts slice_index count =
    let state = tally receipts s.session_id (semantic_state s) in
    record s {
      semantic = some (
          moved finality state e.index slice_index count (length s.episodes)
            (tail_digest d s e slice_index));
    }
