-- ===== src/Budgets/Breaker.antt =====
-- How the backend circuit trips, stays open and recovers (tools/saipal_analyst/budgets.py).
use saipal.Base.{
  ℕ, suc, ◌+◌, ◌*◌, ◌^◌, ◌≤◌, ◌<◌, ◌≡◌, refl, sym, ap, ◌∙◌, true, some, List, [], ◌∷◌, String, ◌==◌,
  string_eq, option_eq, arith, not, ltb, length, All, min, ◌⊎◌, inl, inr,
}
use native.Mathlib.Nat.{pow-suc, mul_assoc, mul-one}
use saipal.Budgets.Ledger.{
  Circuit, closed, open_state, BackendClass, auth, retryable, permanent, over_limit,
  circuit_trip_threshold, circuit_base_open, circuit_max_open,
}
use saipal.Budgets.Circuit.{
  Failure, open_length, trip, record_backend_failure, record_backend_success, circuit_allows,
}

-- Failures one after the other.
unfoldable pub record_failures : List Failure → Circuit BackendClass → Circuit BackendClass
record_failures [] c = c
record_failures (f ∷ rest) c = record_failures rest (record_backend_failure c f)

abbrev pub IsJobScoped : Failure → Type 0
IsJobScoped f = (f.failure_class ≡ permanent) ⊎ (f.failure_class ≡ over_limit)

-- What the gate reads of a circuit.
abbrev SameGate : Circuit BackendClass → Circuit BackendClass → Type 0
SameGate c d =
    (d.state ≡ c.state) × (d.open_until ≡ c.open_until) × (d.config_digest ≡ c.config_digest)

job_scoped_step :
    (c : Circuit BackendClass) (f : Failure)
    → IsJobScoped f
    → SameGate c (record_backend_failure c f)
unfolding record_backend_failure
job_scoped_step c f (inl e) = rw e (refl, refl, refl)
job_scoped_step c f (inr e) = rw e (refl, refl, refl)

job_scoped-SameGate :
    (c : Circuit BackendClass) (fs : List Failure)
    → All IsJobScoped fs
    → SameGate c (record_failures fs c)
unfolding record_failures
job_scoped-SameGate c [] h = (refl, refl, refl)
job_scoped-SameGate c (f ∷ fs) (hf, h) =
    let step = job_scoped_step c f hf in
    let same = job_scoped-SameGate (record_backend_failure c f) fs h in
    (same.0 ∙ step.0, same.1 ∙ step.1, same.2 ∙ step.2)

-- Failures of one request, PERMANENT or LIMIT, never close or open the gate for other work.
pub job_scoped_harmless :
    (c : Circuit BackendClass) (fs : List Failure) (digest : String) (t : ℕ)
    → All IsJobScoped fs
    → circuit_allows (record_failures fs c) digest t ≡ circuit_allows c digest t
unfolding circuit_allows
job_scoped_harmless c fs digest t h =
    let same = job_scoped-SameGate c fs h in rw (same.0, same.1, same.2) refl

-- An AUTH failure, whatever request failures follow it, shuts the gate at every time under the
-- configuration that it was seen with, and under no other.
pub auth_latch :
    (c : Circuit BackendClass) (f : Failure) (fs : List Failure) (digest : String) (t : ℕ)
    → f.failure_class ≡ auth
    → All IsJobScoped fs
    → circuit_allows (record_failures fs (record_backend_failure c f)) digest t
      ≡ not (f.config_digest == digest)
auth_latch c f fs digest t e h =
    job_scoped_harmless (record_backend_failure c f) fs digest t h ∙ latched
  where
    latched : circuit_allows (record_backend_failure c f) digest t ≡ not (f.config_digest == digest)
    latched = unfold circuit_allows record_backend_failure in rw e refl

abbrev IsRetryable : Failure → Type 0
IsRetryable f = f.failure_class ≡ retryable

below_threshold :
    (c : Circuit BackendClass) (fs : List Failure)
    → All IsRetryable fs
    → c.state ≡ closed
    → c.consecutive_failures + length fs < circuit_trip_threshold
    → ((record_failures fs c).state ≡ closed)
      × ((record_failures fs c).consecutive_failures ≡ c.consecutive_failures + length fs)
      × ((record_failures fs c).open_seconds ≡ c.open_seconds)
unfolding record_failures record_backend_failure
below_threshold c [] h e few = (e, omega arith, refl)
below_threshold c (f ∷ fs) h e few =
    let rec = below_threshold (record_backend_failure c f) fs h.1 in grind (arith, rec)

success_lem :
    (c : Circuit BackendClass)
    → ((record_backend_success c).state ≡ closed)
      × ((record_backend_success c).consecutive_failures ≡ 0)
      × ((record_backend_success c).open_seconds ≡ c.open_seconds)
unfolding record_backend_success
success_lem c = (refl, refl, refl)

-- A retryable failure from the threshold on, field by field.
trips :
    (c : Circuit BackendClass) (f : Failure)
    → IsRetryable f
    → circuit_trip_threshold ≤ c.consecutive_failures + 1
    → let after = record_backend_failure c f in
      (after.state ≡ open_state)
      × (after.opened_at ≡ some f.at)
      × (after.open_until ≡ some (f.at + open_length c.open_seconds))
      × (after.open_seconds ≡ min (open_length c.open_seconds * 2) circuit_max_open)
      × (after.consecutive_failures ≡ c.consecutive_failures + 1)
unfolding record_backend_failure trip
trips c f e past = rw e (ground arith)

stays :
    (c : Circuit BackendClass) (f : Failure)
    → IsRetryable f
    → c.consecutive_failures + 1 < circuit_trip_threshold
    → let after = record_backend_failure c f in
      (after.opened_at ≡ c.opened_at)
      × (after.open_until ≡ c.open_until)
      × (after.open_seconds ≡ c.open_seconds)
unfolding record_backend_failure trip
stays c f e few = rw e (ground arith)

open_length-le : (s : ℕ) → open_length s ≤ circuit_max_open
unfolding open_length
open_length-le s = ground arith

-- After a success the gate stays open through four retryable failures. A fifth one shuts it for
-- exactly the capped length that the circuit has stored, counted from that failure.
pub trips_at_threshold :
    (c : Circuit BackendClass) (fs : List Failure) (f : Failure) (digest : String) (t : ℕ)
    → All IsRetryable fs
    → IsRetryable f
    → length fs + 1 ≡ circuit_trip_threshold
    → let four = record_failures fs (record_backend_success c) in
      (circuit_allows four digest t ≡ true)
      × (circuit_allows (record_backend_failure four f) digest t
          ≡ not (ltb t (f.at + open_length c.open_seconds)))
unfolding circuit_allows
trips_at_threshold c fs f digest t h hf n =
    let start = success_lem c in
    let few : length fs < circuit_trip_threshold = omega (arith, n) in
    let four =
      below_threshold (record_backend_success c) fs h start.0 (rw start.1 (omega (arith, few))) in
    let fifth =
      trips (record_failures fs (record_backend_success c)) f hf
        (rw (four.1, start.1) (omega (arith, n))) in
    (rw four.0 refl, rw (fifth.0, fifth.2, four.2, start.2) refl)

le_cases : (a b : ℕ) → (a ≤ b) ⊎ (b < a)
le_cases a b = omega arith

some_injective : {a b : ℕ} → some a ≡ some b → a ≡ b
some_injective e = cc

class_cases :
    (k : BackendClass) → (k ≡ auth) ⊎ ((k ≡ retryable) ⊎ ((k ≡ permanent) ⊎ (k ≡ over_limit)))
class_cases auth = inl refl
class_cases retryable = inr (inl refl)
class_cases permanent = inr (inr (inl refl))
class_cases over_limit = inr (inr (inr refl))

-- The stored length and the opening that is under way, within the cap.
pub record IsBounded (c : Circuit BackendClass) : Type 0 where
  pub stored : c.open_seconds ≤ circuit_max_open
  pub within : (o u : ℕ) → c.opened_at ≡ some o → c.open_until ≡ some u → u ≤ o + circuit_max_open

-- A failure of any class keeps the stored length and a timed opening within the cap.
pub record_backend_failure-IsBounded :
    (c : Circuit BackendClass) (f : Failure) → IsBounded c → IsBounded (record_backend_failure c f)
record_backend_failure-IsBounded c f v = elim (class_cases f.failure_class) [
  | inl e ↦ auth_bounded e
  | inr (inl e) ↦ elim (le_cases circuit_trip_threshold (c.consecutive_failures + 1)) [
    | inl past ↦
        let t = trips c f e past in
        record {
          stored = rw t.3 (omega arith);
          within = λ o u p q. omega (
            arith,
            some_injective (sym t.1 ∙ p),
            some_injective (sym t.2 ∙ q),
            open_length-le c.open_seconds,
          );
        }
    | inr few ↦ kept_bounded (inl (e, few))
  ]
  | inr (inr e) ↦ kept_bounded (inr e)
]
  where
    auth_bounded : f.failure_class ≡ auth → IsBounded (record_backend_failure c f)
    auth_bounded e =
        unfold record_backend_failure in rw e (record { stored = v.stored; within = λ o u p q. cc })

    kept_bounded :
        ((f.failure_class ≡ retryable) × (c.consecutive_failures + 1 < circuit_trip_threshold))
          ⊎ IsJobScoped f
        → IsBounded (record_backend_failure c f)
    kept_bounded (inl (e, few)) =
        let t = stays c f e few in
        record { stored = rw t.2 v.stored; within = λ o u. rw (t.0, t.1) (v.within o u) }
    kept_bounded (inr (inl e)) =
        unfold record_backend_failure in rw e (record { stored = v.stored; within = v.within })
    kept_bounded (inr (inr e)) =
        unfold record_backend_failure in rw e (record { stored = v.stored; within = v.within })

doubles_once :
    (s p : ℕ)
    → 0 < p
    → s ≡ min (circuit_base_open * p) circuit_max_open
    → min (open_length s * 2) circuit_max_open ≡ min (circuit_base_open * (2 * p)) circuit_max_open
unfolding open_length
doubles_once s p pos e = ground arith

doubles_from :
    (p : ℕ) (c : Circuit BackendClass) (fs : List Failure)
    → 0 < p
    → All IsRetryable fs
    → circuit_trip_threshold ≤ c.consecutive_failures + 1
    → c.open_seconds ≡ min (circuit_base_open * p) circuit_max_open
    → (record_failures fs c).open_seconds
      ≡ min (circuit_base_open * (2 ^ length fs * p)) circuit_max_open
unfolding record_failures
doubles_from p c [] pos h past base = rw base (omega arith)
doubles_from p c (f ∷ fs) pos h past base =
    let t = trips c f h.0 past in
    let rec =
      doubles_from (2 * p) (record_backend_failure c f) fs (omega arith) h.1 (rw t.4 (omega arith))
        (rw t.3 (doubles_once c.open_seconds p pos base)) in
    rec ∙ ap (λ n. min (circuit_base_open * n) circuit_max_open) (power (length fs))
  where
    power : (n : ℕ) → 2 ^ n * (2 * p) ≡ 2 ^ suc n * p
    power n = sym (mul_assoc (2 ^ n) 2 p) ∙ ap (λ m. m * p) (sym (pow-suc 2 n))

-- Each retryable failure past the threshold doubles the next opening, up to the cap.
pub open_seconds_doubles :
    (c : Circuit BackendClass) (fs : List Failure)
    → All IsRetryable fs
    → circuit_trip_threshold ≤ c.consecutive_failures + 1
    → c.open_seconds ≡ circuit_base_open
    → (record_failures fs c).open_seconds ≡ min (circuit_base_open * 2 ^ length fs) circuit_max_open
open_seconds_doubles c fs h past base =
    rw (← mul-one (2 ^ length fs))
      (doubles_from 1 c fs (omega arith) h past (rw base (omega arith)))
