-- ===== src/Gates/Tests.antt =====
-- Runs of the gates and their theorems at concrete registries and artifacts.
use mathlib.Core.Option
use saipal.Base.{
  ◌≡◌, refl, some, List, [], ◌∷◌, string_eq, leb, err, capability_denied, action_reserved,
  text_take, String, Option, none, false, Bool, ◌==◌,
}
use saipal.Gates.Blockers.{
  TrustByKind, absent, trust_of, Protocol, legacy_unpinned, trusted_authority_absent,
  malformed_claim, is_hex, classify, is_recoverable,
}
use saipal.Gates.Boundary.{
  ActionSets, assert_action_capability, require_action, require_analyst_action,
}
use saipal.Gates.Disposition.{
  Registry, allowed_targets, disposition_problems, weakens_protocol, target_not_justified,
  claims_a_defect, preferred_target, governed, invariants_governed_by, weigh_all, assess,
  admitted_never_blocked,
}
use saipal.Gates.Poison.{
  Artifact, identity, count_rejection, record_rejected_artifact, held_back, is_held_back,
  quarantine_state, release_changed_artifact, quarantine_threshold,
}
use saipal.Gates.Quarantine.{Ask, reject, release, serve, serve_all, rejections, quarantine_refines}

abbrev writer : ActionSets
writer = record {
  allowed = "write_own_index" ∷ [];
  reserved = "open_pull_request" ∷ [];
  forbidden = "mutate_project" ∷ [];
}

abbrev reader : ActionSets
reader = record { allowed = []; reserved = []; forbidden = "write_own_index" ∷ [] }

later_action : require_action writer "open_pull_request" ≡ err action_reserved
unfolding require_action assert_action_capability
later_action = refl

unknown_action : require_analyst_action writer "enqueue_audit" ≡ err capability_denied
unfolding require_analyst_action
unknown_action = refl

abbrev registry : Registry
registry = record {
  disposition_change_targets =
      ("MODEL_FAILURE", "HARNESS" ∷ []) ∷ ("PROTOCOL_DEFECT", "CORE_PROTOCOL" ∷ "TESTS" ∷ []) ∷ [];
  non_drift_dispositions = "NO_DRIFT" ∷ [];
  protocol_weakening_dispositions = "MODEL_FAILURE" ∷ [];
  protected_invariants = "evidence_first" ∷ "no_silent_write" ∷ [];
  protected_invariant_surfaces =
      ("evidence_first", "CORE_PROTOCOL" ∷ []) ∷ ("no_silent_write", "EXECUTION_POLICY" ∷ []) ∷ [];
}

blamed_model :
    disposition_problems registry "DRIFT" "MODEL_FAILURE" "CORE_PROTOCOL"
    ≡ target_not_justified ∷ weakens_protocol ∷ []
unfolding disposition_problems allowed_targets
blamed_model = refl

defect_without_drift :
    disposition_problems registry "COMPLIANT" "PROTOCOL_DEFECT" "" ≡ claims_a_defect ∷ []
unfolding disposition_problems
defect_without_drift = refl

redirect : preferred_target registry "PROTOCOL_DEFECT" ≡ "CORE_PROTOCOL"
unfolding preferred_target allowed_targets
redirect = refl

undeclared :
    assess registry "CORE_PROTOCOL" [] "MODEL_FAILURE"
    ≡ some (record {
      warnings = [];
      blocks = "evidence_first" ∷ [];
      invariants = "evidence_first" ∷ [];
    })
unfolding assess invariants_governed_by governed weigh_all
undeclared = refl

admitted_never_blocked_example :
    Option.map (λ a. a.blocks) (assess registry "CORE_PROTOCOL" [] "PROTOCOL_DEFECT")
    ≡ Option.map (λ _. []) (invariants_governed_by registry "CORE_PROTOCOL")
unfolding disposition_problems allowed_targets
admitted_never_blocked_example =
    admitted_never_blocked registry "PROTOCOL_DEFECT" "CORE_PROTOCOL" [] refl refl

abbrev broken : Artifact
broken = record { source_id = "claude"; session_id = "s1"; raw_source_sha256 = "aa" }

abbrev repaired : Artifact
repaired = record { source_id = "claude"; session_id = "s1"; raw_source_sha256 = "bb" }

-- Two rejections of different classes, one of another version, and a release of that one.
abbrev asks : List Ask
asks =
    reject broken "MALFORMED" "no header" "t1"
    ∷ reject repaired "MALFORMED" "no header" "t2"
    ∷ reject broken "OVERSIZED" "too long" "t3"
    ∷ release repaired
    ∷ []

mixed_classes :
    quarantine_state broken (serve_all writer asks []) ≡ held_back 2 "MALFORMED" "no header"
unfolding quarantine_state serve record_rejected_artifact release_changed_artifact count_rejection
    identity require_action assert_action_capability text_take
mixed_classes = refl

quarantine_refines_example :
    is_held_back (quarantine_state broken (serve_all writer asks []))
    ≡ leb quarantine_threshold (rejections (identity broken) asks 0)
quarantine_refines_example = quarantine_refines writer asks broken refl

abbrev blank : String → Bool
blank text = text == ""

-- A session that claims a release and no commit.
abbrev released : Protocol
released = record { git_head = ""; version = "1.2"; registry_sha256 = ""; tree_fingerprint = "" }

abbrev only_git : Option String → TrustByKind
only_git pinned = record {
  git_repository = trust_of (some "/srv/core.git") pinned;
  release_root = absent;
  snapshot_root = absent;
}

-- An unpinned repository, which no claim of the session needs, is given as the reason, and pinning
-- it does not bind the session.
repository_blamed : classify blank (only_git none) "IMPORTED" (some released) ≡ legacy_unpinned
unfolding classify trust_of
repository_blamed = refl

pinned_in_vain :
    classify blank (only_git (some "/srv/core.git")) "IMPORTED" (some released)
    ≡ trusted_authority_absent
unfolding classify trust_of
pinned_in_vain = refl

short_commit :
    classify blank (only_git none) "IMPORTED" (some (record released { git_head = "c0ffee" }))
    ≡ malformed_claim
unfolding classify trust_of is_hex
short_commit = refl

not_recoverable : is_recoverable malformed_claim ≡ false
unfolding is_recoverable
not_recoverable = refl
