-- ===== src/Fairness/Queue.antt =====
-- The state of the queue and its two operations (`fresh_state`, `_migrate_v1`, `queue_rank`,
-- `sync_eligibility`, `record_service` of tools/saipal_analyst/fairness.py).
use saipal.Base.{
  ℕ, ◌+◌, Bool, true, false, Option, none, some, List, [], ◌∷◌, ◌++◌, String, ◌==◌, string_eq,
  nat_eq, not, ◌&&◌, ◌||◌, if◌then◌else◌, take_last, is_some,
}
use saipal.Base.Dict.{Dict, lookup, insert}

-- `SESSION_FIELDS`; the session id is the key. A ticket of 0 is no claim.
pub record Claim : Type 0 where
  pub served : ℕ
  pub ticket : ℕ
  pub current_unit_digest : String

abbrev pub Sessions : Type 0
Sessions = Dict String Claim

-- `FAIRNESS_FIELDS`
pub record FairState : Type 0 where
  pub sessions : Sessions
  pub service_sequence : List String
  pub next_ticket : ℕ

abbrev pub max_service_sequence : ℕ
max_service_sequence = 64

abbrev pub fresh_state : FairState
fresh_state = record { sessions = []; service_sequence = []; next_ticket = 1 }

abbrev pub no_claim : Claim
no_claim = record { served = 0; ticket = 0; current_unit_digest = "" }

-- `_migrate_v1`, from the served counts and the sequence of the old state.
unfoldable pub migrate_sessions : Dict String ℕ → Sessions → Sessions
migrate_sessions [] migrated = migrated
migrate_sessions ((session_id, served) ∷ rest) migrated =
    migrate_sessions rest (insert session_id (record no_claim { served = served }) migrated)

unfoldable pub migrate_v1 : Dict String ℕ → List String → FairState
unfolding migrate_sessions
migrate_v1 served sequence = record fresh_state {
  service_sequence = take_last max_service_sequence sequence;
  sessions = migrate_sessions served [];
}

-- The number of `queue_rank`; ties go by the session id.
unfoldable pub queue_rank : String → Sessions → ℕ
queue_rank session_id sessions = elim (lookup session_id sessions) [
  | none ↦ 1_000_000_000_000
  | some c ↦ if c.ticket == 0 then 1_000_000_000_000 else c.ticket
]

-- What the first loop of `sync_eligibility` carries.
pub record Scan : Type 0 where
  pub sessions : Sessions
  pub next_ticket : ℕ
  pub changed : Bool

-- A claim with a fresh ticket at the tail.
unfoldable pub mint : Scan → String → String → Claim → Scan
mint s session_id digest c = record {
  sessions =
      insert session_id (record c { ticket = s.next_ticket; current_unit_digest = digest })
        s.sessions;
  next_ticket = s.next_ticket + 1;
  changed = true;
}

unfoldable pub scan_claim : Option Claim → Scan → String → String → Scan
unfolding mint
scan_claim none s session_id digest = mint s session_id digest no_claim
scan_claim (some c) s session_id digest =
    if c.current_unit_digest == digest then s else mint s session_id digest c

unfoldable pub scan_one : Scan → String → String → Scan
unfolding scan_claim
scan_one s session_id digest = scan_claim (lookup session_id s.sessions) s session_id digest

unfoldable pub scan_all : Dict String String → Scan → Scan
unfolding scan_one
scan_all [] s = s
scan_all ((session_id, digest) ∷ rest) s = scan_all rest (scan_one s session_id digest)

-- `session_id in eligible`
abbrev pub is_eligible : Dict String String → String → Bool
is_eligible eligible session_id = is_some (lookup session_id eligible)

abbrev pub clear_claim : Claim → Claim
clear_claim c = record c { ticket = 0; current_unit_digest = "" }

abbrev pub has_claim : Claim → Bool
has_claim c = not (c.ticket == 0) || not (c.current_unit_digest == "")

-- The second loop: the claims of the sessions that are no longer eligible.
unfoldable pub retire : Dict String String → Sessions → Sessions
retire eligible [] = []
retire eligible ((session_id, c) ∷ rest) =
    (session_id, if is_eligible eligible session_id then c else clear_claim c)
    ∷ retire eligible rest

unfoldable pub retires : Dict String String → Sessions → Bool
retires eligible [] = false
retires eligible ((session_id, c) ∷ rest) =
    (not (is_eligible eligible session_id) && has_claim c) || retires eligible rest

-- `int(state.get("next_ticket") or 1)`
abbrev pub ticket_or_one : ℕ → ℕ
ticket_or_one n = if n == 0 then 1 else n

-- The reconciled state, and whether it is written back.
unfoldable pub sync_eligibility : FairState → Dict String String → FairState × Bool
unfolding scan_all retire retires
sync_eligibility state eligible =
    let s : Scan = scan_all eligible (record {
      sessions = state.sessions;
      next_ticket = ticket_or_one state.next_ticket;
      changed = false;
    }) in
    (
      record state { sessions = retire eligible s.sessions; next_ticket = s.next_ticket },
      s.changed || retires eligible s.sessions,
    )

abbrev pub claim_or_none : Option Claim → Claim
claim_or_none none = no_claim
claim_or_none (some c) = c

unfoldable pub record_service : FairState → String → FairState
record_service state session_id =
    let c = claim_or_none (lookup session_id state.sessions) in
    record state {
      sessions =
          insert session_id
            (record c { served = c.served + 1; ticket = 0; current_unit_digest = "" })
            state.sessions;
      service_sequence =
          take_last max_service_sequence (state.service_sequence ++ (session_id ∷ []));
    }
