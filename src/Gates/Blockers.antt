-- ===== src/Gates/Blockers.antt =====
-- Why a session is not bound to a protocol (tools/saipal_engine/blockers.py). Which texts
-- `str.strip` leaves nothing of is an argument (`blank`).
use saipal.Base.{
  ℕ, zero, suc, Bool, true, false, not, ◌&&◌, ◌||◌, Option, none, some, List, [], ◌∷◌, String, ◌==◌,
  string_eq, if◌then◌else◌, contains,
}

pub data Blocker : Type 0 where
  trusted_authority_absent legacy_unpinned identity_absent malformed_claim : Blocker
  authority_unreadable commit_unverified conflict_session other : Blocker

-- Can enrolling or pinning an authority unlock a session that is blocked so?
unfoldable pub is_recoverable : Blocker → Bool
is_recoverable trusted_authority_absent = true
is_recoverable legacy_unpinned = true
is_recoverable authority_unreadable = true
is_recoverable commit_unverified = true
is_recoverable identity_absent = false
is_recoverable malformed_claim = false
is_recoverable conflict_session = false
is_recoverable other = false

-- What stands behind one kind of authority root.
pub data Trust : Type 0 where
  absent unpinned trusted : Trust

pub record TrustByKind : Type 0 where
  pub git_repository : Trust
  pub release_root : Trust
  pub snapshot_root : Trust

-- The path that is declared for a kind, and the one that its pinning record names.
unfoldable pub trust_of : Option String → Option String → Trust
trust_of none pinned = absent
trust_of (some declared) none = unpinned
trust_of (some declared) (some pinned) = if pinned == declared then trusted else unpinned

-- The identity claims of a session's protocol block, an empty text where there is none.
pub record Protocol : Type 0 where
  pub git_head : String
  pub version : String
  pub registry_sha256 : String
  pub tree_fingerprint : String

abbrev hex_digits : List String
hex_digits =
    "0" ∷ "1" ∷ "2" ∷ "3" ∷ "4" ∷ "5" ∷ "6" ∷ "7" ∷ "8" ∷ "9" ∷ "a" ∷ "b" ∷ "c" ∷ "d" ∷ "e" ∷ "f"
    ∷ "A" ∷ "B" ∷ "C" ∷ "D" ∷ "E" ∷ "F" ∷ []

-- Exactly `n` hexadecimal digits.
unfoldable pub is_hex : ℕ → String → Bool
is_hex zero String.[] = true
is_hex zero (String.◌∷◌ c text) = false
is_hex (suc n) String.[] = false
is_hex (suc n) (String.◌∷◌ c text) = contains hex_digits (String.◌∷◌ c String.[]) && is_hex n text

abbrev is_sha256 : String → Bool
is_sha256 text = is_hex 64 text

abbrev is_full_git_object_id : String → Bool
is_full_git_object_id text = is_hex 40 text || is_hex 64 text

abbrev pub is_trusted : Trust → Bool
is_trusted trusted = true
is_trusted unpinned = false
is_trusted absent = false

abbrev pub is_unpinned : Trust → Bool
is_unpinned unpinned = true
is_unpinned trusted = false
is_unpinned absent = false

abbrev pub commit_reason : Trust → Blocker
commit_reason trusted = commit_unverified
commit_reason unpinned = legacy_unpinned
commit_reason absent = trusted_authority_absent

-- A release or a snapshot would have to prove the claim.
abbrev pub release_reason : TrustByKind → Blocker
release_reason t =
    if is_trusted t.release_root || is_trusted t.snapshot_root
    then authority_unreadable
    else if is_unpinned t.git_repository
        || (is_unpinned t.release_root || is_unpinned t.snapshot_root)
    then legacy_unpinned
    else trusted_authority_absent

module _ (blank : String → Bool) where
  abbrev pub is_malformed : Protocol → Bool
  is_malformed p =
      (not (blank p.git_head) && not (is_full_git_object_id p.git_head))
      || ((not (blank p.registry_sha256) && not (is_sha256 p.registry_sha256))
          || (not (blank p.tree_fingerprint) && not (is_sha256 p.tree_fingerprint)))

  abbrev pub has_identity : Protocol → Bool
  has_identity p =
      not (blank p.git_head)
      || (not (blank p.version)
          || (not (blank p.registry_sha256) || not (blank p.tree_fingerprint)))

  abbrev pub protocol_reason : TrustByKind → Option Protocol → Blocker
  protocol_reason t none = identity_absent
  protocol_reason t (some p) =
      if not (has_identity p)
      then identity_absent
      else if is_malformed p
      then malformed_claim
      else if not (blank p.git_head)
      then commit_reason t.git_repository
      else release_reason t

  unfoldable pub classify : TrustByKind → String → Option Protocol → Blocker
  classify t status protocol =
      if status == "CONFLICT" then conflict_session else protocol_reason t protocol
