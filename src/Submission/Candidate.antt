-- ===== src/Submission/Candidate.antt =====
-- An analyst's candidate, the unit that it answers, and whether it may (`receipt_id` and
-- `_shape_finding` inputs of tools/saipal_engine/submit.py, `build_carrier` of carrier.py,
-- `episode_scope_problems` of candidates.py).
use saipal.Base.{
  ℕ, ◌≡◌, Bool, true, false, not, ◌&&◌, ◌||◌, Option, none, some, List, [], ◌∷◌, String, ◌<>◌, ◌==◌,
  string_eq, nat_eq, leb, if◌then◌else◌, text_take, arith, eq_iff, beq_refl,
}
use saipal.Analysis.Event.{Event}
use saipal.Analysis.Episodes.{Episode}
use saipal.Analysis.Paging.{Slice, episode_events}
use saipal.Analysis.Session.{Digests, Session, unit_digest}
use saipal.Analysis.Advance.{verdict_drift}
use saipal.Submission.Defence.{Mitigation, defence_surface, unaddressed}

pub record Candidate : Type 0 where
  pub unit_digest : String
  pub verdict : String
  pub reasoning : String
  pub session_id : String
  pub episode_index : ℕ
  pub slice_index : Option ℕ
  pub rule_ids : List String
  pub event_refs : List ℕ
  pub addressed_defences : List String

-- The idempotency key: this verdict, on this unit, from this reasoning.
unfoldable pub receipt_id : Digests → Candidate → String
receipt_id d c =
    "rcp-"
    <> text_take 32
        (d.sha256_text (c.unit_digest <> "\0" <> c.verdict <> "\0" <> d.sha256_text c.reasoning))

-- The unit as the kernel derives it: without a slice when the session's bundle cannot be read.
pub record Carrier : Type 0 where
  pub unit_digest : String
  pub session_id : String
  pub episode : Episode
  pub slice : Option Slice
  pub binding_status : String
  pub defences : List Mitigation

abbrev or_zero : Option ℕ → ℕ
or_zero none = 0
or_zero (some n) = n

-- The named unit rebuilt from the evidence.
unfoldable pub build_carrier :
    Digests → ℕ → Option (List Event) → Session → Episode → Option ℕ → Carrier
build_carrier d limit none s e slice_index = record {
  unit_digest = unit_digest d s e (or_zero slice_index);
  session_id = s.session_id;
  episode = e;
  slice = none;
  binding_status = "UNKNOWN";
  defences = [];
}
build_carrier d limit (some events) s e slice_index =
    let slice = (episode_events events e limit (or_zero slice_index)).slice in
    record {
      unit_digest = unit_digest d s e slice.index;
      session_id = s.session_id;
      episode = e;
      slice = some slice;
      binding_status = s.binding_status;
      defences = defence_surface events e s.temperature;
    }

-- `claimed_slice is not None and window` and they differ.
abbrev wrong_slice : Option ℕ → Option Slice → Bool
wrong_slice (some claimed) (some slice) = not (claimed == slice.index)
wrong_slice _ _ = false

abbrev within : ℕ → ℕ → List ℕ → Bool
within start end [] = true
within start end (ref ∷ refs) = (leb start ref && leb ref end) && within start end refs

-- Cited events lie in the slice, or in the episode when the slice is empty; a unit without a slice
-- names no span, and nothing is asked of them.
abbrev cites_span : Carrier → List ℕ → Bool
cites_span unit refs = by_slice unit.slice
  where
    by_bounds : Option ℕ → Option ℕ → Bool
    by_bounds (some start) (some end) = within start end refs
    by_bounds _ _ = within unit.episode.start_seq unit.episode.end_seq refs

    by_slice : Option Slice → Bool
    by_slice none = true
    by_slice (some slice) = by_bounds slice.start_seq slice.end_seq

abbrev pub is_empty : List String → Bool
is_empty [] = true
is_empty (_ ∷ _) = false

-- No problem of scope: the candidate answers this unit, over this unit's evidence.
unfoldable pub in_scope : Candidate → Carrier → Bool
in_scope c unit =
    c.session_id == unit.session_id
    && c.episode_index == unit.episode.index
    && not (wrong_slice c.slice_index unit.slice)
    && c.unit_digest == unit.unit_digest
    && cites_span unit c.event_refs
    && (not (c.verdict == verdict_drift)
        || is_empty (unaddressed c.addressed_defences unit.defences))

abbrev pub slice_index_of : Option Slice → ℕ
slice_index_of none = 0
slice_index_of (some slice) = slice.index

-- `int(window.get("count") or 1)`
abbrev pub slice_count_of : Option Slice → ℕ
slice_count_of none = 1
slice_count_of (some slice) = if slice.count == 0 then 1 else slice.count

pub in_scope-digest :
    (c : Candidate) (unit : Carrier)
    → in_scope c unit ≡ true
    → (unit.unit_digest == c.unit_digest) ≡ true
unfolding in_scope
in_scope-digest c unit h =
    let same : (c.unit_digest == unit.unit_digest) ≡ true = ground arith in
    rw ((eq_iff c.unit_digest unit.unit_digest).0 same) (beq_refl unit.unit_digest)
