-- ===== src/Budgets/Transaction.antt =====
-- The one transaction on the ledger file (`mutate_ledger` of tools/saipal_analyst/budgets.py).
-- What a try meets is an argument: the fence may be held by another writer, another refusal may
-- come out of it, or it is acquired, and the ledger stored at that moment is loaded under it.
use saipal.Base.{
  ℕ, zero, suc, ◌+◌, ◌≤◌, ◌<◌, ◌≡◌, refl, false, arith, Result, ok, err, validation_failed,
  writer_busy, ◌⊎◌, inl, inr, ltb, if◌then◌else◌, Bool-cases, ltb→lt,
}
use saipal.Budgets.Ledger.{Ledger}

pub data Try : Type 0 where
  busy : Try
  refused : Try
  acquired : Ledger → Try

-- `BUDGET_TXN_RETRIES`
abbrev pub budget_txn_retries : ℕ
budget_txn_retries = 50

-- The committed ledger and the number of the try that committed it.
pub record Commit : Type 0 where
  pub at_try : ℕ
  pub saved : Ledger

-- The tries that are left, and the number of the next one.
unfoldable pub try_from : ℕ → ℕ → (ℕ → Try) → (Ledger → Ledger) → Result Commit
try_from zero attempt world mutate = err writer_busy
try_from (suc left) attempt world mutate = elim (world attempt) [
  | busy ↦ try_from left (attempt + 1) world mutate
  | refused ↦ err validation_failed
  | acquired ledger ↦ ok (record { at_try = attempt; saved = mutate ledger })
]

unfoldable pub mutate_ledger : (ℕ → Try) → (Ledger → Ledger) → Result Commit
unfolding try_from
mutate_ledger world mutate = try_from budget_txn_retries 0 world mutate

try_from-ok :
    (left attempt k : ℕ) (world : ℕ → Try) (mutate : Ledger → Ledger) (ledger : Ledger)
    → ((i : ℕ) → attempt ≤ i → i < k → world i ≡ busy)
    → world k ≡ acquired ledger
    → attempt ≤ k
    → k < attempt + left
    → try_from left attempt world mutate ≡ ok (record { at_try = k; saved = mutate ledger })
unfolding try_from
try_from-ok zero attempt k world mutate ledger held free from below = absurd (omega arith)
try_from-ok (suc left) attempt k world mutate ledger held free from below = elim (reached_cases) [
  | inl here ↦ rw (here, free, try_from) (ground arith)
  | inr later ↦
      rw (held attempt (omega arith) later, try_from)
        (try_from-ok left (attempt + 1) k world mutate ledger (λ i h. held i (omega arith)) free
          (omega arith) (omega arith))
]
  where
    reached_cases : (attempt ≡ k) ⊎ (attempt < k)
    reached_cases = omega arith

try_from-busy :
    (left attempt : ℕ) (world : ℕ → Try) (mutate : Ledger → Ledger)
    → ((i : ℕ) → attempt ≤ i → i < attempt + left → world i ≡ busy)
    → try_from left attempt world mutate ≡ err writer_busy
unfolding try_from
try_from-busy zero attempt world mutate held = refl
try_from-busy (suc left) attempt world mutate held =
    rw (held attempt (omega arith) (omega arith), try_from)
      (try_from-busy left (attempt + 1) world mutate (λ i h k. held i (omega arith) (omega arith)))

-- With the fence held at the first `k` tries and free at the next, the mutation is applied once,
-- to what is stored then, if `k` is below the bound; a fence that is held at every try surfaces as
-- WRITER_BUSY.
pub mutate_ledger_outcome :
    (world : ℕ → Try) (mutate : Ledger → Ledger) (k : ℕ) (ledger : Ledger)
    → ((i : ℕ) → i < k → world i ≡ busy)
    → world k ≡ acquired ledger
    → mutate_ledger world mutate ≡ (
        if ltb k budget_txn_retries
        then ok (record { at_try = k; saved = mutate ledger })
        else err writer_busy)
unfolding mutate_ledger
mutate_ledger_outcome world mutate k ledger held free =
    elim (Bool-cases (ltb k budget_txn_retries)) [
      | inl below ↦ rw below (
          try_from-ok budget_txn_retries 0 k world mutate ledger (λ i h. held i) free (omega arith)
            (ltb→lt k budget_txn_retries below))
      | inr beyond ↦ rw beyond (
          try_from-busy budget_txn_retries 0 world mutate
            (λ i h b. held i (not_below k budget_txn_retries i beyond b)))
    ]
  where
    not_below : (k n i : ℕ) → ltb k n ≡ false → i < n → i < k
    not_below k n i e h = ground arith
