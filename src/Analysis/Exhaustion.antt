-- ===== src/Analysis/Exhaustion.antt =====
-- Final episodes passed, and the places where nothing is offered (`next_unit` of
-- tools/saipal_engine/carrier.py, `_advance_semantic` of submit.py).
use saipal.Base.{
  ℕ, zero, suc, ◌+◌, ◌-◌, ◌≤◌, ◌<◌, ◌≡◌, refl, ap, sym, ◌∙◌, true, false, none, some, List, [], ◌∷◌,
  ◌++◌, append-nil, append_assoc, ◌==◌, string_eq, option_eq, beq_refl, leb, length, drop, min,
  arith, le→leb, All,
}
use saipal.Analysis.Episodes.{Episode}
use saipal.Analysis.Paging.{episode_slice_count, slice_count, slice_count-pos}
use saipal.Analysis.Session.{
  Digests, final, provisional, Session, semantic_state, episode_finality, tail_digest, unit_digest,
  nth, UnitOfWork, is_held, offer,
}
use saipal.Analysis.Advance.{Receipt, Tallies}
use saipal.Analysis.Review.{
  Review, slices_of, all_units, Numbered, review_step, at_place, review_at, step_close,
}
use saipal.Analysis.Drained.{nth-drop, Steps, Steps-append, Steps-cast, whole_run}

-- One slice and more is what an episode has.
pub some_slices :
    (e : Episode) (limit : ℕ) → 0 < limit → (m : ℕ) × (suc m ≡ episode_slice_count e limit)
unfolding episode_slice_count
some_slices e limit p =
    pred_of (slice_count e.event_count limit) (slice_count-pos e.event_count limit p)
  where
    pred_of : (n : ℕ) → 0 < n → (m : ℕ) × (suc m ≡ n)
    pred_of zero h = absurd (omega arith)
    pred_of (suc m) h = (m, refl)

module _ (d : Digests) (limit : ℕ) (answer : Session → UnitOfWork → Receipt) where
  module _ (s : Session) (imported : (s.status == "IMPORTED") ≡ true) where
    -- The place after episodes that are final: the next one, or the end.
    abbrev pub start_of : ℕ → Tallies → List Receipt → List (ℕ × ℕ) → Review
    start_of k t receipts visited =
        review_at d limit answer s k 0 (leb (length s.episodes) k) none t receipts visited

    start_moves :
        {k k' : ℕ} {t : Tallies} {receipts : List Receipt} {visited visited' : List (ℕ × ℕ)}
        → k ≡ k'
        → visited ≡ visited'
        → start_of k t receipts visited ≡ start_of k' t receipts visited'
    start_moves {t = t} {receipts = receipts} e f = λ i. start_of (e i) t receipts (f i)

    pub start_open :
        (k : ℕ) (t : Tallies) (receipts : List Receipt) (visited : List (ℕ × ℕ))
        → k < length s.episodes
        → review_at d limit answer s k 0 false none t receipts visited
          ≡ start_of k t receipts visited
    start_open k t receipts visited h =
        let left : false ≡ leb (length s.episodes) k = ground arith in
        ap (λ x. review_at d limit answer s k 0 x none t receipts visited) left

    -- Final episodes are passed, each slice once.
    pub finals_run :
        (es rest : List Episode) (k : ℕ) (t : Tallies) (receipts : List Receipt)
        (visited : List (ℕ × ℕ))
        → 0 < limit
        → drop k s.episodes ≡ es ++ rest
        → Numbered k es
        → All (λ (e : Episode). episode_finality s e ≡ final) es
        → (t' : Tallies) × (receipts' : List Receipt) × Steps d limit answer
            (all_units limit es)
            (start_of k t receipts visited)
            (start_of (k + length es) t' receipts' (visited ++ all_units limit es))
    finals_run [] rest k t receipts visited p here n f =
        (t, receipts, start_moves (omega arith) (sym (append-nil visited)))
    finals_run (e ∷ es) rest k t receipts visited p here (index, n) (f, fs) =
        let (m, count) = some_slices e limit p in
        let (at, left, within) = nth-drop k s.episodes e (es ++ rest) here in
        let (u, rs, first) =
          whole_run d limit answer s imported m k t e receipts visited (start_of (suc k)) at index
            count
            (λ u rs vs.
              step_close d limit answer s imported k m u e rs vs at index (omega arith) f) in
        let (t', receipts', more) =
          finals_run es rest (suc k) u rs (visited ++ slices_of e.index 0 (suc m)) p left n fs in
        (
          t',
          receipts',
          Steps-cast d limit answer _ _ _ _
              (ap (λ n. slices_of e.index 0 n ++ all_units limit es) count)
              (start_open k t receipts visited within)
              (start_moves (omega arith) (
                append_assoc visited (slices_of e.index 0 (suc m)) (all_units limit es)
                ∙ ap (λ n. visited ++ (slices_of e.index 0 n ++ all_units limit es)) count))
              (Steps-append d limit answer (slices_of e.index 0 (suc m)) (all_units limit es) _ _ _
                first more),
        )

    -- Nothing is offered at the end.
    pub offer_exhausted :
        (k : ℕ) (t : Tallies)
        → length s.episodes ≤ k
        → offer d limit (record s {
          semantic = some (at_place d limit answer k 0 (leb (length s.episodes) k) none t);
        })
          ≡ none
    unfolding offer semantic_state
    offer_exhausted k t h =
        let over : leb (length s.episodes) k ≡ true = le→leb _ _ h in rw (imported, over) refl

    held_at :
        (k j : ℕ) (t : Tallies) (e : Episode)
        → episode_finality s e ≡ provisional
        → (tail_digest d s e j == "") ≡ false
        → is_held d
            (record s {
              semantic = some (at_place d limit answer k j false (some (tail_digest d s e j)) t);
            })
            e
            j
          ≡ true
    unfolding semantic_state episode_finality tail_digest unit_digest
    held_at k j t e growing given =
        let digest = tail_digest d s e j in
        let s' : Session = record s {
          semantic = some (at_place d limit answer k j false (some digest) t);
        } in
        let live : episode_finality s' e ≡ provisional = growing in
        let kept : (semantic_state s').tail_reviewed_digest ≡ some digest = rw given refl in
        rw (live, kept) (beq_refl digest)

    -- Nothing is offered while the tail is held at its last slice.
    pub offer_held :
        (k j : ℕ) (t : Tallies) (e : Episode)
        → nth s.episodes k ≡ some e
        → suc j ≡ episode_slice_count e limit
        → episode_finality s e ≡ provisional
        → (tail_digest d s e j == "") ≡ false
        → offer d limit (record s {
          semantic = some (at_place d limit answer k j false (some (tail_digest d s e j)) t);
        })
          ≡ none
    unfolding offer semantic_state
    offer_held k j t e here last growing given =
        let slot : min j (episode_slice_count e limit - 1) ≡ j = omega (arith, last) in
        rw (imported, here, slot, held_at k j t e growing given) refl

    pub idle : (r : Review) → offer d limit r.session ≡ none → review_step d limit answer r ≡ none
    unfolding review_step
    idle r e = rw (e, review_step) refl
