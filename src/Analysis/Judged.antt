-- ===== src/Analysis/Judged.antt =====
-- When a session counts as exhausted (`session_coverage` of tools/saipal_engine/coverage.py).
use saipal.Base.{
  ℕ, ◌<◌, ◌≡◌, ◌↔◌, refl, ◌∙◌, sym, inl, inr, true, List, [], ◌∷◌, String, length, All, arith,
  Bool-cases,
}
use saipal.Analysis.Episodes.{Episode}
use saipal.Analysis.Paging.{slice_count, episode_slice_count, slice_count-pos}
use saipal.Analysis.Session.{Session}
use saipal.Analysis.Advance.{Receipt}
use saipal.Analysis.Coverage.{
  receipts_of_session, entries_of, is_covered, count_episode, count_episodes, session_coverage,
}
use saipal.Analysis.Covered.{has_final, judged-has_final, is_covered_iff, count_episodes-IsWithin}

-- Every slice of an episode has a receipt with a final verdict.
abbrev pub IsJudged : ℕ → List Receipt → String → Episode → Type 0
IsJudged limit all id e =
    (i : ℕ) → i < episode_slice_count e limit → has_final all id e.index i ≡ true

module _ (limit : ℕ) (p : 0 < limit) (all : List Receipt) (id : String) where
  abbrev receipts : List Receipt
  receipts = receipts_of_session all id

  covered_iff :
      (e : Episode)
      → (is_covered (episode_slice_count e limit) (entries_of receipts e.index) ≡ true)
        ↔ IsJudged limit all id e
  unfolding episode_slice_count
  covered_iff e =
      let both =
        is_covered_iff (slice_count e.event_count limit) (entries_of receipts e.index)
          (slice_count-pos e.event_count limit p) in
      (
        (λ h i l. sym (judged-has_final all id e.index i) ∙ both.0 h i l),
        (λ h. both.1 (λ i l. judged-has_final all id e.index i ∙ h i l)),
      )

  total-length : (es : List Episode) → (count_episodes limit receipts es).total ≡ length es
  unfolding count_episodes count_episode
  total-length [] = refl
  total-length (e ∷ es) = omega (arith, total-length es)

  All-IsJudged :
      (es : List Episode)
      → (count_episodes limit receipts es).final_episodes ≡ length es
      → All (IsJudged limit all id) es
  unfolding count_episodes count_episode
  All-IsJudged [] h = tt
  All-IsJudged (e ∷ es) h =
      let within = count_episodes-IsWithin limit receipts es in
      let total = total-length es in
      elim (Bool-cases (is_covered (episode_slice_count e limit) (entries_of receipts e.index))) [
        | inl covered ↦
            ((covered_iff e).0 covered, All-IsJudged es (omega (arith, rw covered at h)))
        | inr open_ ↦ absurd (omega (arith, rw open_ at h, within.episodes, total))
      ]

  judged-All :
      (es : List Episode)
      → All (IsJudged limit all id) es
      → (count_episodes limit receipts es).final_episodes ≡ length es
  unfolding count_episodes count_episode
  judged-All [] j = refl
  judged-All (e ∷ es) (one, j) = rw ((covered_iff e).1 one) (omega (arith, judged-All es j))

-- For a positive window size, a session counts as truly exhausted exactly when it has an episode
-- and each slice of each of its episodes has a receipt of the session with a final verdict.
pub truly_exhausted_iff :
    (limit : ℕ) (all : List Receipt) (s : Session)
    → 0 < limit
    → ((session_coverage limit all s).truly_exhausted ≡ true)
      ↔ ((0 < length s.episodes) × All (IsJudged limit all s.session_id) s.episodes)
unfolding session_coverage
truly_exhausted_iff limit all s p =
    let total = total-length limit p all s.session_id s.episodes in
    (
      (λ h. (
        ground (arith, total),
        All-IsJudged limit p all s.session_id s.episodes (ground (arith, total)),
      )),
      (λ (some_, j). ground (arith, total, judged-All limit p all s.session_id s.episodes j)),
    )
