-- ===== src/Fairness/Waiting.antt =====
-- How often other sessions can be served before a waiting one (tools/saipal_analyst/fairness.py).
use saipal.Base.{
  ℕ, suc, ◌+◌, ◌≤◌, ◌<◌, ◌≡◌, ◌∙◌, ◌≢◌, sym, Option, none, some, [], ◌∷◌, String, ◌==◌, string_eq,
  nat_eq, ◌&&◌, if◌then◌else◌, arith, Bool-cases, inl, inr, ltb,
}
use saipal.Base.Dict.{Dict, lookup, insert, NodupKeys, lookup-insert_ne}
use saipal.Fairness.Queue.{
  queue_rank, Claim, Sessions, FairState, Scan, mint, scan_one, scan_all, is_eligible, retire,
  sync_eligibility, record_service, claim_or_none,
}
use saipal.Fairness.Claims.{scan_one_view}
use saipal.Fairness.Invariant.{
  IsQueue, sync_eligibility-IsQueue, record_service-IsQueue, ticket_or_one-started,
}
use saipal.Fairness.Order.{sync_keeps, start_scan}

-- 1 for a claim with a ticket before `t`.
abbrev before : ℕ → Claim → ℕ
before t c = if ltb 0 c.ticket && ltb c.ticket t then 1 else 0

-- How many claims wait on a ticket before `t`.
abbrev pub ahead : ℕ → Sessions → ℕ
ahead t [] = 0
ahead t ((_, c) ∷ rest) = before t c + ahead t rest

abbrev before_found : ℕ → Option Claim → ℕ
before_found t none = 0
before_found t (some c) = before t c

ahead-insert :
    (t : ℕ) (a : String) (c : Claim) (sessions : Sessions)
    → ahead t (insert a c sessions) + before_found t (lookup a sessions)
      ≡ ahead t sessions + before t c
ahead-insert t a c [] = omega arith
ahead-insert t a c ((k, d) ∷ rest) = elim (Bool-cases (a == k)) [
  | inl same ↦ rw same (omega arith)
  | inr other ↦ rw other (omega (arith, ahead-insert t a c rest))
]

ahead-retire :
    (t : ℕ) (eligible : Dict String String) (sessions : Sessions)
    → ahead t (retire eligible sessions) ≤ ahead t sessions
unfolding retire
ahead-retire t eligible [] = omega arith
ahead-retire t eligible ((k, c) ∷ rest) = elim (Bool-cases (is_eligible eligible k)) [
  | inl e ↦ rw e (omega (arith, ahead-retire t eligible rest))
  | inr e ↦ rw e (omega (arith, ahead-retire t eligible rest))
]

-- A ticket minted at or after `t` is not ahead of it.
ahead-scan_one :
    (t : ℕ) (s : Scan) (a digest : String)
    → t ≤ s.next_ticket
    → (ahead t (scan_one s a digest).sessions ≤ ahead t s.sessions)
      × (t ≤ (scan_one s a digest).next_ticket)
unfolding mint
ahead-scan_one t s a digest le = elim (scan_one_view s a digest) [
  | inl (_, e, _, _) ↦ rw e (omega arith, le)
  | inr (c, e) ↦ rw e (
    ground (
      arith,
      ahead-insert t a (record c { ticket = s.next_ticket; current_unit_digest = digest })
          s.sessions,
    ),
    omega arith,
  )
]

ahead-scan_all :
    (t : ℕ) (eligible : Dict String String) (s : Scan)
    → t ≤ s.next_ticket
    → ahead t (scan_all eligible s).sessions ≤ ahead t s.sessions
unfolding scan_all
ahead-scan_all t [] s le = omega arith
ahead-scan_all t ((a, digest) ∷ rest) s le =
    let one = ahead-scan_one t s a digest le in
    omega (arith, one.0, ahead-scan_all t rest (scan_one s a digest) one.1)

ahead-sync :
    (t : ℕ) (state : FairState) (eligible : Dict String String)
    → t ≤ state.next_ticket
    → 0 < state.next_ticket
    → ahead t (sync_eligibility state eligible).0.sessions ≤ ahead t state.sessions
unfolding sync_eligibility
ahead-sync t state eligible le started = omega (
  arith,
  ahead-retire t eligible (scan_all eligible (start_scan state)).sessions,
  ahead-scan_all t eligible (start_scan state)
      (rw (ticket_or_one-started state.next_ticket started) le),
)

-- `h` waits, and no session ranks before it.
pub record IsHead (sessions : Sessions) (h : String) (c : Claim) : Type 0 where
  pub found : lookup h sessions ≡ some c
  pub waits : 0 < c.ticket
  pub first : (b : String) → queue_rank h sessions ≤ queue_rank b sessions

queue_rank-ticket :
    (a : String) (sessions : Sessions) (c : Claim)
    → lookup a sessions ≡ some c
    → 0 < c.ticket
    → queue_rank a sessions ≡ c.ticket
unfolding queue_rank
queue_rank-ticket a sessions c found waits = rw (found, queue_rank) (ground arith)

-- So its claim is the oldest.
IsHead-oldest :
    (sessions : Sessions) (h : String) (c : Claim) (b : String) (d : Claim)
    → IsHead sessions h c
    → lookup b sessions ≡ some d
    → 0 < d.ticket
    → c.ticket ≤ d.ticket
IsHead-oldest sessions h c b d head found waits = omega (
  arith,
  head.first b,
  queue_rank-ticket h sessions c head.found head.waits,
  queue_rank-ticket b sessions d found waits,
)

ahead-record_service :
    (t : ℕ) (state : FairState) (h : String) (c : Claim)
    → lookup h state.sessions ≡ some c
    → 0 < c.ticket
    → c.ticket < t
    → ahead t (record_service state h).sessions + 1 ≡ ahead t state.sessions
unfolding record_service
ahead-record_service t state h c found pos lt =
    let served : Claim = record c { served = c.served + 1; ticket = 0; current_unit_digest = "" } in
    let counted = rw found at (ahead-insert t h served state.sessions) in
    rw (found, claim_or_none) (ground (arith, counted))

service_elsewhere :
    (u : FairState) (h w : String)
    → w ≢ h
    → lookup w (record_service u h).sessions ≡ lookup w u.sessions
unfolding record_service
service_elsewhere u h w ne = lookup-insert_ne w h _ u.sessions ne

-- What happens while `w` waits for its unit: reconciliations that find `w` eligible with it, and
-- services of a waiting session that no other ranks before, when that is not `w`. The number counts
-- the services.
pub data Wait (w digest : String) (s : FairState) : FairState → ℕ → Type 0 where
  begin : Wait w digest s s 0
  rescan :
      {u : FairState} {n : ℕ} (eligible : Dict String String)
      → Wait w digest s u n
      → NodupKeys eligible
      → lookup w eligible ≡ some digest
      → Wait w digest s (sync_eligibility u eligible).0 n
  serve :
      {u : FairState} {n : ℕ} (h : String) (c : Claim)
      → Wait w digest s u n
      → IsHead u.sessions h c
      → h ≢ w
      → Wait w digest s (record_service u h) (suc n)

-- While a session waits with a ticket, is found eligible with its unit by every reconciliation, and
-- each service goes to the first in rank, it keeps its claim, and the services of others are paid
-- for by the claims that were ahead of it: there are at most as many as those.
pub bounded_waiting :
    (w digest : String) (s : FairState) (c : Claim) {u : FairState} {n : ℕ}
    → IsQueue s.sessions s.next_ticket
    → lookup w s.sessions ≡ some c
    → c.current_unit_digest ≡ digest
    → 0 < c.ticket
    → Wait w digest s u n
    → (lookup w u.sessions ≡ some c)
      × (n + ahead c.ticket u.sessions ≤ ahead c.ticket s.sessions)
      × IsQueue u.sessions u.next_ticket
bounded_waiting w digest s c q found unit pos begin = (found, omega arith, q)
bounded_waiting w digest s c q found unit pos (rescan {u = u} eligible run nodup e) =
    let (kept, paid, queue) = bounded_waiting w digest s c q found unit pos run in
    (
      sync_keeps u eligible w digest c nodup e kept unit,
      omega (
        arith,
        paid,
        ahead-sync c.ticket u eligible (le_of_lt (queue.bound w c kept)) queue.started,
      ),
      sync_eligibility-IsQueue u eligible queue,
    )
  where
    le_of_lt : {a b : ℕ} → a < b → a ≤ b
    le_of_lt h = omega arith
bounded_waiting w digest s c q found unit pos (serve {u = u} h d run head other) =
    let (kept, paid, queue) = bounded_waiting w digest s c q found unit pos run in
    let earlier : d.ticket < c.ticket = overtaken kept queue in
    (
      service_elsewhere u h w (λ e. other (sym e)) ∙ kept,
      omega (arith, paid, ahead-record_service c.ticket u h d head.found head.waits earlier),
      record_service-IsQueue u h queue,
    )
  where
    overtaken :
        lookup w u.sessions ≡ some c → IsQueue u.sessions u.next_ticket → d.ticket < c.ticket
    overtaken kept queue = omega (
      arith,
      IsHead-oldest u.sessions h d w c head kept pos,
      λ (tie : d.ticket ≡ c.ticket). other (queue.distinct h w d c head.found kept head.waits tie),
    )
