-- ===== src/Gates/Poison.antt =====
-- The quarantine of artifacts that were rejected before (tools/saipal_engine/poison.py).
use saipal.Base.{
  ℕ, ◌+◌, Bool, true, false, not, Option, none, some, String, ◌<>◌, ◌==◌, string_eq, leb,
  if◌then◌else◌, text_take, Result, ok, ◌>>=◌,
}
use saipal.Base.Dict.{Dict, lookup, insert, restrict}
use saipal.Gates.Boundary.{ActionSets, require_action}

abbrev pub quarantine_threshold : ℕ
quarantine_threshold = 2

-- One version of one artifact.
pub record Artifact : Type 0 where
  pub source_id : String
  pub session_id : String
  pub raw_source_sha256 : String

pub record Poisoned : Type 0 where
  pub artifact : Artifact
  pub rejection_class : String
  pub reason : String
  pub count : ℕ
  pub first_seen : String
  pub last_seen : String
  pub quarantined : Bool

abbrev pub Artifacts : Type 0
Artifacts = Dict String Poisoned

unfoldable pub identity : Artifact → String
identity a = a.source_id <> "::" <> a.session_id <> "::" <> a.raw_source_sha256

abbrev or_rejected : String → String
or_rejected text = if text == "" then "REJECTED" else text

-- The entry, or the one that the first rejection starts.
abbrev pub entry_or_new : Artifact → String → String → Option Poisoned → Poisoned
entry_or_new a class reason (some entry) = entry
entry_or_new a class reason none = record {
  artifact = a;
  rejection_class = or_rejected class;
  reason = text_take 200 reason;
  count = 0;
  first_seen = "";
  last_seen = "";
  quarantined = false;
}

unfoldable pub count_rejection : String → Poisoned → Poisoned
count_rejection now entry = record entry {
  count = entry.count + 1;
  last_seen = now;
  first_seen = if entry.first_seen == "" then now else entry.first_seen;
  quarantined = leb quarantine_threshold (entry.count + 1);
}

unfoldable pub record_rejected_artifact :
    ActionSets → Artifact → String → String → String → Artifacts → Result (Poisoned × Artifacts)
record_rejected_artifact sets a class reason now artifacts =
    let key = identity a in
    let entry = count_rejection now (entry_or_new a class reason (lookup key artifacts)) in
    require_action sets "write_own_index" >>= (λ _. ok (entry, insert key entry artifacts))

-- What is on record of a version: nothing, a rejection that was only observed, or a quarantine.
pub data QuarantineState : Type 0 where
  unrecorded : QuarantineState
  observed : ℕ → QuarantineState
  held_back : ℕ → String → String → QuarantineState

abbrev pub state_of : Option Poisoned → QuarantineState
state_of none = unrecorded
state_of (some entry) =
    if entry.quarantined
    then held_back entry.count entry.rejection_class entry.reason
    else observed entry.count

unfoldable pub quarantine_state : Artifact → Artifacts → QuarantineState
quarantine_state a artifacts = state_of (lookup (identity a) artifacts)

-- Is this version of the artifact skipped?
abbrev pub is_held_back : QuarantineState → Bool
is_held_back (held_back _ _ _) = true
is_held_back (observed _) = false
is_held_back unrecorded = false

unfoldable pub release_changed_artifact :
    ActionSets → Artifact → Artifacts → Result (Bool × Artifacts)
release_changed_artifact sets a artifacts = elim (lookup (identity a) artifacts) [
  | none ↦ ok (false, artifacts)
  | some entry ↦
      require_action sets "write_own_index"
      >>= (λ _. ok (true, restrict (λ key. not (key == identity a)) artifacts))
]
