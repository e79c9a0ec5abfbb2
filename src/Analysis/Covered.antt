-- ===== src/Analysis/Covered.antt =====
-- What the coverage report means (tools/saipal_engine/coverage.py).
use saipal.Base.{
  ℕ, ◌+◌, ◌≤◌, ◌<◌, ◌≡◌, ◌↔◌, refl, ap, ◌∙◌, inl, inr, Bool, true, false, not, ◌&&◌, ◌||◌, List, [],
  ◌∷◌, String, ◌==◌, string_eq, nat_eq, keep_if, length, contains, arith, Bool-cases,
}
use saipal.Analysis.Episodes.{Episode}
use saipal.Analysis.Paging.{episode_slice_count}
use saipal.Analysis.Session.{Session, freshest_records}
use saipal.Analysis.Advance.{Receipt}
use saipal.Analysis.Count.{
  distinct, below, contains-distinct, distinct-Nodup, contains-keep_if, keep_if-Nodup, length-below,
  count_to-disjoint, count_to_full, count_to_all,
}
use saipal.Analysis.Coverage.{
  receipts_of_session, entries_of, is_final, slices, judged, started, covered, some_entry, Counts,
  is_covered, unit_if, count_episode, count_episodes, SessionCoverage, session_coverage, sum_by,
  cover_all, coverage,
}

-- Is there a receipt with a final verdict on this slice?
abbrev pub has_final : List Receipt → String → ℕ → ℕ → Bool
has_final [] id e i = false
has_final (r ∷ rs) id e i =
    (r.session_id == id && (r.episode_index == e && (is_final r && i == r.slice_index)))
    || has_final rs id e i

-- The judged slices are those that have such a receipt.
pub judged-has_final :
    (all : List Receipt) (id : String) (e i : ℕ)
    → contains (judged (entries_of (receipts_of_session all id) e)) i ≡ has_final all id e i
judged-has_final all id e i = contains-distinct _ i ∙ listed all
  where
    listed :
        (rs : List Receipt)
        → contains (slices (keep_if is_final (entries_of (receipts_of_session rs id) e))) i
          ≡ has_final rs id e i
    listed [] = refl
    listed (r ∷ rs) = elim (Bool-cases (r.session_id == id)) [
      | inr other ↦ rw other (listed rs)
      | inl same ↦ elim (Bool-cases (r.episode_index == e)) [
        | inr elsewhere ↦ rw (same, elsewhere) (listed rs)
        | inl here ↦ elim (Bool-cases (is_final r)) [
          | inr growing ↦ rw (same, here, growing) (listed rs)
          | inl ended ↦ rw (same, here, ended) (ap (λ b. i == r.slice_index || b) (listed rs))
        ]
      ]
    ]

-- The slices counted as final and as provisional are slices of the episode, each once.
slices-bounded :
    (n : ℕ) (entries : List Receipt)
    → length (covered n entries) + length (keep_if (below n) (started entries)) ≤ n
slices-bounded n entries =
    let one =
      length-below n (judged entries) (distinct-Nodup (slices (keep_if is_final entries))) in
    let two =
      length-below n (started entries) (keep_if-Nodup _ _ (distinct-Nodup (slices entries))) in
    let apart =
      count_to-disjoint n (contains (judged entries)) (contains (started entries)) never in
    omega (arith, one, two, apart)
  where
    and_false : (b : Bool) → (b && false) ≡ false
    and_false true = refl
    and_false false = refl

    never : (i : ℕ) → contains (judged entries) i ≡ true → contains (started entries) i ≡ false
    never i h =
        contains-keep_if (λ j. not (contains (judged entries) j)) (distinct (slices entries)) i
        ∙ rw h (and_false _)

-- An episode is covered exactly when each of its slices has a final verdict.
pub is_covered_iff :
    (n : ℕ) (entries : List Receipt)
    → 0 < n
    → (is_covered n entries ≡ true) ↔ ((i : ℕ) → i < n → contains (judged entries) i ≡ true)
is_covered_iff n entries p =
    let count =
      length-below n (judged entries) (distinct-Nodup (slices (keep_if is_final entries))) in
    (
      (λ h. count_to_full n (contains (judged entries)) (ground (arith, count))),
      (λ h. ground (arith, count, count_to_all n (contains (judged entries)) h)),
    )

-- Final and provisional episodes and slices are among those there are.
pub record IsWithin (c : Counts) : Type 0 where
  pub episodes : c.final_episodes + c.provisional_episodes ≤ c.total
  pub slices : c.slices_final + c.slices_provisional ≤ c.slices_total

pub count_episodes-IsWithin :
    (limit : ℕ) (receipts : List Receipt) (es : List Episode)
    → IsWithin (count_episodes limit receipts es)
unfolding count_episodes count_episode
count_episodes-IsWithin limit receipts [] = record { episodes = omega arith; slices = omega arith }
count_episodes-IsWithin limit receipts (e ∷ es) =
    let entries = entries_of receipts e.index in
    let n = episode_slice_count e limit in
    let rest = count_episodes-IsWithin limit receipts es in
    record {
      episodes = omega (arith, rest.episodes, one_of (is_covered n entries) (some_entry entries));
      slices = omega (arith, rest.slices, slices-bounded n entries);
    }
  where
    one_of : (a b : Bool) → unit_if a + unit_if (not a && b) ≤ 1
    one_of true b = omega arith
    one_of false true = omega arith
    one_of false false = omega arith

-- The rows of a report add up.
record IsBalanced (row : SessionCoverage) : Type 0 where
  pub episodes : row.final_episodes + row.provisional_episodes + row.pending ≡ row.episodes
  pub slices : row.slices_final + row.slices_provisional + row.slices_pending ≡ row.slices

session_coverage-IsBalanced :
    (limit : ℕ) (all : List Receipt) (s : Session) → IsBalanced (session_coverage limit all s)
unfolding session_coverage
session_coverage-IsBalanced limit all s =
    let c = count_episodes-IsWithin limit (receipts_of_session all s.session_id) s.episodes in
    record { episodes = omega (arith, c.episodes); slices = omega (arith, c.slices) }

rows-balanced :
    (limit : ℕ) (all : List Receipt) (ss : List Session)
    → let rows = cover_all limit all ss in
      (sum_by (λ row. row.final_episodes) rows
          + sum_by (λ row. row.provisional_episodes) rows
          + sum_by (λ row. row.pending) rows
        ≡ sum_by (λ row. row.episodes) rows)
      × (sum_by (λ row. row.slices_final) rows
            + sum_by (λ row. row.slices_provisional) rows
            + sum_by (λ row. row.slices_pending) rows
          ≡ sum_by (λ row. row.slices) rows)
unfolding cover_all
rows-balanced limit all [] = (omega arith, omega arith)
rows-balanced limit all (s ∷ ss) =
    let row = session_coverage-IsBalanced limit all s in
    let (a, b) = rows-balanced limit all ss in
    (omega (arith, row.episodes, a), omega (arith, row.slices, b))

-- The report accounts for everything: over all sessions, the final, the provisional and the
-- pending episodes are the episodes, and the same holds of the slices, so no difference in the
-- report is ever cut off at zero.
pub coverage_balances :
    (limit : ℕ) (all : List Receipt) (index : List Session)
    → let c = coverage limit all index in
      (c.episodes_final + c.episodes_provisional + c.episodes_pending ≡ c.episodes_total)
      × (c.slices_final + c.slices_provisional + c.slices_pending ≡ c.slices_total)
unfolding coverage
coverage_balances limit all index = rows-balanced limit all (freshest_records index)
