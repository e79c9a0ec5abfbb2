-- ===== src/Fairness/Invariant.antt =====
-- The invariant of the tickets (tools/saipal_analyst/fairness.py).
use saipal.Base.{
  ℕ, ◌+◌, ◌<◌, ◌≡◌, refl, ◌∙◌, ◌≢◌, ap, sym, Bool, true, false, Option, none, some, [], ◌∷◌, String,
  ◌==◌, string_eq, nat_eq, arith, Option-cases, Bool-cases, inl, inr, ◌⊎◌,
}
use saipal.Base.Dict.{Dict, lookup, insert, lookup-insert_inv}
use saipal.Fairness.Queue.{
  Claim, Sessions, FairState, Scan, scan_claim, scan_one, scan_all, is_eligible, retire,
  sync_eligibility, record_service, ticket_or_one, claim_or_none,
}
use saipal.Fairness.Claims.{retired, lookup-retire}

-- No two sessions wait on one ticket, no ticket was minted twice, and a session that waits for a
-- unit has a ticket.
pub record IsQueue (sessions : Sessions) (next : ℕ) : Type 0 where
  pub started : 0 < next
  pub bound : (a : String) (c : Claim) → lookup a sessions ≡ some c → c.ticket < next
  pub distinct :
      (a b : String) (c d : Claim)
      → lookup a sessions ≡ some c
      → lookup b sessions ≡ some d
      → 0 < c.ticket
      → c.ticket ≡ d.ticket
      → a ≡ b
  pub live :
      (a : String) (c : Claim)
      → lookup a sessions ≡ some c
      → c.current_unit_digest ≢ ""
      → 0 < c.ticket

-- Writing a claim with the next ticket.
insert_fresh-IsQueue :
    (sessions : Sessions) (next : ℕ) (a : String) (c : Claim)
    → c.ticket ≡ next
    → IsQueue sessions next
    → IsQueue (insert a c sessions) (next + 1)
insert_fresh-IsQueue sessions next a c e q = record {
  started = omega arith;
  bound = λ x d h. elim (lookup-insert_inv x a c sessions h) [
    | inl (_, same) ↦ rw same (omega arith)
    | inr (_, old) ↦ omega (arith, q.bound x d old)
  ];
  distinct = λ x y d f hx hy pos tie. elim (lookup-insert_inv x a c sessions hx) [
    | inl (xa, dc) ↦ elim (lookup-insert_inv y a c sessions hy) [
      | inl (ya, _) ↦ xa ∙ sym ya
      | inr (_, old) ↦ absurd (omega (arith, q.bound y f old, ap (λ (z : Claim). z.ticket) dc))
    ]
    | inr (_, oldx) ↦ elim (lookup-insert_inv y a c sessions hy) [
      | inl (_, fc) ↦ absurd (omega (arith, q.bound x d oldx, ap (λ (z : Claim). z.ticket) fc))
      | inr (_, oldy) ↦ q.distinct x y d f oldx oldy pos tie
    ]
  ];
  live = λ x d h some_unit. elim (lookup-insert_inv x a c sessions h) [
    | inl (_, same) ↦ rw same (omega (arith, q.started))
    | inr (_, old) ↦ q.live x d old some_unit
  ];
}

-- Writing a claim that waits for nothing.
insert_idle-IsQueue :
    (sessions : Sessions) (next : ℕ) (a : String) (c : Claim)
    → c.ticket ≡ 0
    → c.current_unit_digest ≡ ""
    → IsQueue sessions next
    → IsQueue (insert a c sessions) next
insert_idle-IsQueue sessions next a c e idle q = record {
  started = q.started;
  bound = λ x d h. elim (lookup-insert_inv x a c sessions h) [
    | inl (_, same) ↦ rw same (omega (arith, q.started))
    | inr (_, old) ↦ q.bound x d old
  ];
  distinct = λ x y d f hx hy pos tie. elim (lookup-insert_inv x a c sessions hx) [
    | inl (xa, dc) ↦ absurd (omega (arith, ap (λ (z : Claim). z.ticket) dc))
    | inr (_, oldx) ↦ elim (lookup-insert_inv y a c sessions hy) [
      | inl (_, fc) ↦ absurd (omega (arith, ap (λ (z : Claim). z.ticket) fc))
      | inr (_, oldy) ↦ q.distinct x y d f oldx oldy pos tie
    ]
  ];
  live = λ x d h some_unit. elim (lookup-insert_inv x a c sessions h) [
    | inl (_, same) ↦ absurd (some_unit (rw same idle))
    | inr (_, old) ↦ q.live x d old some_unit
  ];
}

scan_one-IsQueue :
    (s : Scan) (a digest : String)
    → IsQueue s.sessions s.next_ticket
    → IsQueue (scan_one s a digest).sessions (scan_one s a digest).next_ticket
unfolding scan_one
scan_one-IsQueue s a digest q = elim (Option-cases (lookup a s.sessions)) [
  | inl absent ↦ rw (absent, scan_claim) (insert_fresh-IsQueue s.sessions s.next_ticket a _ refl q)
  | inr (c, found) ↦ elim (Bool-cases (c.current_unit_digest == digest)) [
    | inl same ↦ rw (found, scan_claim) (rw same q)
    | inr new ↦
        rw (found, scan_claim) (rw new (insert_fresh-IsQueue s.sessions s.next_ticket a _ refl q))
  ]
]

scan_all-IsQueue :
    (eligible : Dict String String) (s : Scan)
    → IsQueue s.sessions s.next_ticket
    → IsQueue (scan_all eligible s).sessions (scan_all eligible s).next_ticket
unfolding scan_all
scan_all-IsQueue [] s q = q
scan_all-IsQueue ((a, digest) ∷ rest) s q =
    scan_all-IsQueue rest (scan_one s a digest) (scan_one-IsQueue s a digest q)

retired_inv :
    (kept : Bool) (found : Option Claim) {c : Claim}
    → retired kept found ≡ some c
    → ((kept ≡ true) × (found ≡ some c)) ⊎ ((c.ticket ≡ 0) × (c.current_unit_digest ≡ ""))
retired_inv true found h = inl (refl, h)
retired_inv false none h = cc
retired_inv false (some c) h = inr (
  sym (ap (λ (o : Option Claim). (claim_or_none o).ticket) h),
  sym (ap (λ (o : Option Claim). (claim_or_none o).current_unit_digest) h),
)

-- A claim that is found after retiring was there before, or is cleared.
pub lookup-retire_inv :
    (eligible : Dict String String) (x : String) (sessions : Sessions) {c : Claim}
    → lookup x (retire eligible sessions) ≡ some c
    → ((is_eligible eligible x ≡ true) × (lookup x sessions ≡ some c))
      ⊎ ((c.ticket ≡ 0) × (c.current_unit_digest ≡ ""))
lookup-retire_inv eligible x sessions h =
    retired_inv (is_eligible eligible x) (lookup x sessions)
      (sym (lookup-retire eligible x sessions) ∙ h)

retire-IsQueue :
    (eligible : Dict String String) (sessions : Sessions) (next : ℕ)
    → IsQueue sessions next
    → IsQueue (retire eligible sessions) next
retire-IsQueue eligible sessions next q = record {
  started = q.started;
  bound = λ x d h. elim (lookup-retire_inv eligible x sessions h) [
    | inl (_, old) ↦ q.bound x d old
    | inr (zeroed, _) ↦ omega (arith, q.started)
  ];
  distinct = λ x y d f hx hy pos tie. elim (lookup-retire_inv eligible x sessions hx) [
    | inl (_, oldx) ↦ elim (lookup-retire_inv eligible y sessions hy) [
      | inl (_, oldy) ↦ q.distinct x y d f oldx oldy pos tie
      | inr (zeroed, _) ↦ absurd (omega arith)
    ]
    | inr (zeroed, _) ↦ absurd (omega arith)
  ];
  live = λ x d h some_unit. elim (lookup-retire_inv eligible x sessions h) [
    | inl (_, old) ↦ q.live x d old some_unit
    | inr (_, idle) ↦ absurd (some_unit idle)
  ];
}

pub ticket_or_one-started : (n : ℕ) → 0 < n → ticket_or_one n ≡ n
ticket_or_one-started n h = ground arith

-- Reconciling keeps the invariant: tickets are below the next one, no two sessions hold the same
-- one, and a claim on a unit has one.
pub sync_eligibility-IsQueue :
    (state : FairState) (eligible : Dict String String)
    → IsQueue state.sessions state.next_ticket
    → let after = (sync_eligibility state eligible).0 in IsQueue after.sessions after.next_ticket
unfolding sync_eligibility
sync_eligibility-IsQueue state eligible q = retire-IsQueue eligible _ _ (
    scan_all-IsQueue eligible
      (record {
        sessions = state.sessions;
        next_ticket = ticket_or_one state.next_ticket;
        changed = false;
      })
      (rw (ticket_or_one-started state.next_ticket q.started) q))

-- A service keeps the same invariant, whichever session is served.
pub record_service-IsQueue :
    (state : FairState) (a : String)
    → IsQueue state.sessions state.next_ticket
    → let after = record_service state a in IsQueue after.sessions after.next_ticket
unfolding record_service
record_service-IsQueue state a q =
    insert_idle-IsQueue state.sessions state.next_ticket a _ refl refl q
