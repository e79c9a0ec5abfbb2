-- ===== src/Fairness/Tests.antt =====
-- Runs of the fair queue and its theorems at concrete queues.
use saipal.Base.{
  ◌+◌, ◌≤◌, ◌≡◌, refl, true, false, none, some, [], ◌∷◌, String, arith, eq_iff, string_eq,
}
use saipal.Base.Dict.{Dict, lookup, NodupKeys}
use saipal.Fairness.Queue.{
  Claim, FairState, sync_eligibility, record_service, fresh_state, migrate_v1, queue_rank, no_claim,
}
use saipal.Fairness.Invariant.{IsQueue, sync_eligibility-IsQueue}
use saipal.Fairness.Waiting.{Wait, begin, serve, IsHead, ahead, bounded_waiting}

fresh-IsQueue : IsQueue fresh_state.sessions fresh_state.next_ticket
fresh-IsQueue = record {
  started = omega arith;
  bound = λ a c h. absurd (none_ne h);
  distinct = λ a b c d h _ _ _. absurd (none_ne h);
  live = λ a c h _. absurd (none_ne h);
}
  where
    none_ne : {c : Claim} → none ≡ some c → ⊥
    none_ne h = cc h

abbrev both : Dict String String
both = ("a", "u1") ∷ ("b", "u2") ∷ []

abbrev both-NodupKeys : NodupKeys both
both-NodupKeys = (refl, (refl, tt))

-- `a` waits on ticket 1 and `b` on ticket 2.
abbrev queued : FairState
queued = record fresh_state {
  sessions =
      ("a", record no_claim { ticket = 1; current_unit_digest = "u1" })
      ∷ ("b", record no_claim { ticket = 2; current_unit_digest = "u2" })
      ∷ [];
  next_ticket = 3;
}

first_sync : sync_eligibility fresh_state both ≡ (queued, true)
unfolding sync_eligibility
first_sync = refl

second_sync : sync_eligibility queued both ≡ (queued, false)
unfolding sync_eligibility
second_sync = refl

served_a : queue_rank "a" (record_service queued "a").sessions ≡ 1_000_000_000_000
unfolding queue_rank record_service
served_a = refl

migrated :
    (migrate_v1 (("a", 4) ∷ []) ("a" ∷ [])).sessions ≡ ("a", record no_claim { served = 4 }) ∷ []
unfolding migrate_v1
migrated = refl

queued-IsQueue : IsQueue queued.sessions queued.next_ticket
queued-IsQueue = rw first_sync at (sync_eligibility-IsQueue fresh_state both fresh-IsQueue)

sync_eligibility-IsQueue_example :
    let after = (sync_eligibility fresh_state both).0 in IsQueue after.sessions after.next_ticket
sync_eligibility-IsQueue_example = sync_eligibility-IsQueue fresh_state both fresh-IsQueue

abbrev waiting_b : Claim
waiting_b = record no_claim { ticket = 2; current_unit_digest = "u2" }

a-IsHead : IsHead queued.sessions "a" (record no_claim { ticket = 1; current_unit_digest = "u1" })
unfolding queue_rank
a-IsHead = record {
  found = refl;
  waits = omega arith;
  first = λ b. ground (arith, eq_iff b "a", eq_iff b "b");
}

run : Wait "b" "u2" queued (record_service queued "a") 1
run =
    serve "a" (record no_claim { ticket = 1; current_unit_digest = "u1" }) begin a-IsHead
      (ground (arith, eq_iff "a" "b"))

bounded_waiting_example :
    let after = record_service queued "a" in
    (lookup "b" after.sessions ≡ some waiting_b)
    × (1 + ahead 2 after.sessions ≤ ahead 2 queued.sessions)
    × IsQueue after.sessions after.next_ticket
bounded_waiting_example =
    bounded_waiting "b" "u2" queued waiting_b queued-IsQueue refl refl (omega arith) run

abbrev renewed_b : Claim
renewed_b = record no_claim { ticket = 3; current_unit_digest = "u3" }
