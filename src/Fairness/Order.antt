-- ===== src/Fairness/Order.antt =====
-- What a reconciliation does to each session's ticket (tools/saipal_analyst/fairness.py).
use saipal.Base.{
  ◌≤◌, ◌<◌, ◌≡◌, refl, ◌∙◌, ◌≢◌, ap, sym, true, false, Option, none, some, [], ◌∷◌, String,
  string_eq, nat_eq, arith, inl, inr, ◌⊎◌,
}
use saipal.Base.Dict.{Dict, lookup, NodupKeys, lookup-insert_inv}
use saipal.Fairness.Queue.{
  Claim, FairState, Scan, mint, scan_one, scan_all, sync_eligibility, ticket_or_one,
}
use saipal.Fairness.Claims.{retired, lookup-retire, scan_one_view, scan_all_hit, scan_all_keeps}
use saipal.Fairness.Invariant.{
  IsQueue, sync_eligibility-IsQueue, lookup-retire_inv, ticket_or_one-started,
}

scan_one_inv :
    (s : Scan) (a digest x : String) {c : Claim}
    → lookup x (scan_one s a digest).sessions ≡ some c
    → (lookup x s.sessions ≡ some c) ⊎ (s.next_ticket ≤ c.ticket)
unfolding mint
scan_one_inv s a digest x h = elim (scan_one_view s a digest) [
  | inl (_, e, _, _) ↦ inl (rw e at h)
  | inr (_, e) ↦ elim (lookup-insert_inv x a _ s.sessions (rw e at h)) [
    | inl (_, v) ↦ inr (omega (arith, ap (λ (z : Claim). z.ticket) v))
    | inr (_, old) ↦ inl old
  ]
]

scan_one_next : (s : Scan) (a digest : String) → s.next_ticket ≤ (scan_one s a digest).next_ticket
unfolding mint
scan_one_next s a digest = elim (scan_one_view s a digest) [
  | inl (_, e, _, _) ↦ rw e (omega arith)
  | inr (_, e) ↦ rw e (omega arith)
]

scan_all_inv :
    (eligible : Dict String String) (s : Scan) (x : String) {c : Claim}
    → lookup x (scan_all eligible s).sessions ≡ some c
    → (lookup x s.sessions ≡ some c) ⊎ (s.next_ticket ≤ c.ticket)
unfolding scan_all
scan_all_inv [] s x h = inl h
scan_all_inv ((a, digest) ∷ rest) s x h = elim (scan_all_inv rest (scan_one s a digest) x h) [
  | inl old ↦ scan_one_inv s a digest x old
  | inr new ↦ inr (omega (arith, new, scan_one_next s a digest))
]

abbrev pub start_scan : FairState → Scan
start_scan state = record {
  sessions = state.sessions;
  next_ticket = ticket_or_one state.next_ticket;
  changed = false;
}

-- From a state whose next ticket is positive, each claim after a reconciliation is an old one, or
-- waits behind every ticket minted before, or has no ticket.
pub sync_mints_behind :
    (state : FairState) (eligible : Dict String String) (x : String) {c : Claim}
    → 0 < state.next_ticket
    → lookup x (sync_eligibility state eligible).0.sessions ≡ some c
    → (lookup x state.sessions ≡ some c) ⊎ ((state.next_ticket ≤ c.ticket) ⊎ (c.ticket ≡ 0))
unfolding sync_eligibility
sync_mints_behind state eligible x started h = elim (lookup-retire_inv eligible x _ h) [
  | inl (_, scanned) ↦ elim (scan_all_inv eligible (start_scan state) x scanned) [
    | inl old ↦ inl old
    | inr new ↦ inr (inl (omega (arith, new, ticket_or_one-started state.next_ticket started)))
  ]
  | inr (zeroed, _) ↦ inr (inr zeroed)
]

lookup-sync :
    (state : FairState) (eligible : Dict String String) (x digest : String)
    → lookup x eligible ≡ some digest
    → lookup x (sync_eligibility state eligible).0.sessions
      ≡ lookup x (scan_all eligible (start_scan state)).sessions
unfolding sync_eligibility
lookup-sync state eligible x digest e =
    lookup-retire eligible x (scan_all eligible (start_scan state)).sessions
    ∙ rw e (kept (lookup x (scan_all eligible (start_scan state)).sessions))
  where
    kept : (o : Option Claim) → retired true o ≡ o
    kept o = refl

-- After a reconciliation an eligible session with a named unit waits on a ticket for that unit.
pub sync_covers :
    (state : FairState) (eligible : Dict String String) (x digest : String)
    → IsQueue state.sessions state.next_ticket
    → NodupKeys eligible
    → lookup x eligible ≡ some digest
    → digest ≢ ""
    → (c : Claim) × (lookup x (sync_eligibility state eligible).0.sessions ≡ some c)
      × (c.current_unit_digest ≡ digest)
      × (0 < c.ticket)
sync_covers state eligible x digest q u e nonempty =
    let (c, found, unit) = scan_all_hit eligible (start_scan state) x digest u e in
    let after = lookup-sync state eligible x digest e ∙ found in
    (
      c,
      after,
      unit,
      (sync_eligibility-IsQueue state eligible q).live x c after (λ z. nonempty (sym unit ∙ z)),
    )

-- After a reconciliation a session that is not eligible waits on no ticket.
pub sync_retires :
    (state : FairState) (eligible : Dict String String) (x : String) {c : Claim}
    → lookup x eligible ≡ none
    → lookup x (sync_eligibility state eligible).0.sessions ≡ some c
    → c.ticket ≡ 0
unfolding sync_eligibility
sync_retires state eligible x absent h = elim (lookup-retire_inv eligible x _ h) [
  | inl (here, _) ↦ absurd (false_ne (rw absent at here))
  | inr (zeroed, _) ↦ zeroed
]
  where
    false_ne : false ≡ true → ⊥
    false_ne e = cc

-- A session that waits for the unit it is still eligible with keeps its claim, ticket and all.
pub sync_keeps :
    (state : FairState) (eligible : Dict String String) (x digest : String) (c : Claim)
    → NodupKeys eligible
    → lookup x eligible ≡ some digest
    → lookup x state.sessions ≡ some c
    → c.current_unit_digest ≡ digest
    → lookup x (sync_eligibility state eligible).0.sessions ≡ some c
sync_keeps state eligible x digest c u e h unit =
    lookup-sync state eligible x digest e
    ∙ scan_all_keeps eligible (start_scan state) x digest c u e h unit
