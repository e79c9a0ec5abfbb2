-- ===== src/Analysis/Seen.antt =====
-- From the events of a session to the review of each of them (`extract_episodes` of
-- tools/saipal_engine/episodes.py, `_episode_events` and `next_unit` of carrier.py,
-- `_advance_semantic` of submit.py).
use mathlib.Core.Path.{subst}
use saipal.Base.{
  ℕ, zero, suc, ◌+◌, ◌<◌, ◌≡◌, refl, ap, sym, ◌∙◌, true, Option, none, some, List, [], ◌∷◌, ◌++◌,
  append_assoc, String, ◌==◌, string_eq, length, drop, arith,
}
use saipal.Analysis.Event.{Event, Ascends}
use saipal.Analysis.Episodes.{Episode, extract_episodes}
use saipal.Analysis.Partition.{Tiles, extract_episodes-IsPartition}
use saipal.Analysis.Paging.{episode_slice_count, episode_events}
use saipal.Analysis.Handover.{windows, hand_over, hand_over_all}
use saipal.Analysis.Session.{Digests, Session, nth, UnitOfWork, cold}
use saipal.Analysis.Advance.{Receipt}
use saipal.Analysis.Review.{slices_of, all_units, Numbered, review}
use saipal.Analysis.Drained.{nth-drop}
use saipal.Analysis.Reviewed.{IsOver, new_review, review_cold}

pub Tiles-Numbered : (i s l : ℕ) (eps : List Episode) → Tiles i s l eps → Numbered i eps
Tiles-Numbered i s l [] t = tt
Tiles-Numbered i s l (e ∷ []) (index, _, _, _, _, _) = (index, tt)
Tiles-Numbered i s l (e ∷ f ∷ es) (index, _, _, _, _, more) = (
  index,
  subst (λ n. Numbered n (f ∷ es)) (omega arith)
      (Tiles-Numbered (i + 1) (e.end_seq + 1) l (f ∷ es) more),
)

-- The window of the episode in this place.
abbrev pub window_at : List Event → ℕ → ℕ → Option Episode → List Event
window_at events limit j none = []
window_at events limit j (some e) = (episode_events events e limit j).window

-- The events that the judged units showed, in the order of the verdicts.
abbrev pub shown : List Event → List Episode → ℕ → List (ℕ × ℕ) → List Event
shown events eps limit [] = []
shown events eps limit ((i, j) ∷ us) =
    window_at events limit j (nth eps i) ++ shown events eps limit us

module _ (events : List Event) (eps : List Episode) (limit : ℕ) where
  shown-append :
      (us vs : List (ℕ × ℕ))
      → shown events eps limit (us ++ vs) ≡ shown events eps limit us ++ shown events eps limit vs
  shown-append [] vs = refl
  shown-append ((i, j) ∷ us) vs =
      ap (λ ys. window_at events limit j (nth eps i) ++ ys) (shown-append us vs)
      ∙ sym (append_assoc (window_at events limit j (nth eps i)) _ _)

  shown-slices :
      (e : Episode) (from n : ℕ)
      → nth eps e.index ≡ some e
      → shown events eps limit (slices_of e.index from n) ≡ windows events e limit from n
  shown-slices e from zero h = refl
  shown-slices e from (suc n) h =
      ap
        (λ o.
          window_at events limit from o ++ shown events eps limit (slices_of e.index (suc from) n))
        h
      ∙ ap (λ ys. (episode_events events e limit from).window ++ ys) (shown-slices e (suc from) n h)

  shown_all :
      (es : List Episode) (k : ℕ)
      → drop k eps ≡ es
      → Numbered k es
      → shown events eps limit (all_units limit es) ≡ hand_over events limit es
  shown_all [] k here n = refl
  shown_all (e ∷ es) k here (index, n) =
      let (at, left, _) = nth-drop k eps e es here in
      let slices = slices_of e.index 0 (episode_slice_count e limit) in
      shown-append slices (all_units limit es)
      ∙ ap (λ ys. ys ++ shown events eps limit (all_units limit es))
          (shown-slices e 0 (episode_slice_count e limit) (ap (nth eps) index ∙ at))
      ∙ ap (λ ys. windows events e limit 0 (episode_slice_count e limit) ++ ys)
          (shown_all es (suc k) left n)

-- A finished session, imported from events whose numbers never fall, is reviewed event by event:
-- with fuel for one step per slice or more, the windows of the units in the order of their
-- verdicts are the events of the session, each exactly once, and the session ends exhausted.
pub review_sees_all :
    (d : Digests) (limit : ℕ) (answer : Session → UnitOfWork → Receipt) (s : Session)
    (kinds : List String) (e : Event) (es : List Event) (extra : ℕ)
    → 0 < limit
    → (s.status == "IMPORTED") ≡ true
    → s.temperature ≡ cold
    → s.episodes ≡ extract_episodes kinds (e ∷ es)
    → Ascends e.seq es
    → let q = review d limit answer (length (all_units limit s.episodes) + extra) (new_review s) in
      (shown (e ∷ es) s.episodes limit q.visited ≡ e ∷ es) × IsOver d limit answer s q true
review_sees_all d limit answer s kinds e es extra p imported c split a =
    let tiles = (extract_episodes-IsPartition kinds e es a).tiles in
    let n : Numbered 0 s.episodes =
      subst (Numbered 0) (sym split) (Tiles-Numbered 0 e.seq _ _ tiles) in
    let (f, fs, has) = not_empty s.episodes _ _ (subst (Tiles 0 e.seq _) (sym split) tiles) in
    let over = review_cold d limit answer p s imported extra f fs c has n in
    (
      ap (shown (e ∷ es) s.episodes limit) over.visited
          ∙ shown_all (e ∷ es) s.episodes limit s.episodes 0 refl n
          ∙ ap (hand_over (e ∷ es) limit) split
          ∙ hand_over_all kinds e es limit a p,
      over,
    )
  where
    not_empty :
        (eps : List Episode) (s l : ℕ)
        → Tiles 0 s l eps
        → (f : Episode) × (fs : List Episode) × (eps ≡ f ∷ fs)
    not_empty [] s l t = absurd t
    not_empty (f ∷ fs) s l t = (f, fs, refl)
