-- ===== src/Analysis/Review.antt =====
-- A session reviewed to its end: the unit that is offered, its verdict, the next unit (the loop of
-- `next` and `submit` over `next_unit` of tools/saipal_engine/carrier.py and `_advance_semantic`
-- of submit.py).
use saipal.Base.{
  ℕ, zero, suc, ◌+◌, ◌-◌, ◌<◌, ◌≡◌, refl, ap, ◌∙◌, Bool, true, false, ◌&&◌, Option, none, some,
  List, [], ◌∷◌, ◌++◌, String, ◌==◌, string_eq, leb, length, min, arith,
}
use saipal.Analysis.Episodes.{Episode}
use saipal.Analysis.Paging.{episode_slice_count}
use saipal.Analysis.Session.{
  Digests, Finality, final, provisional, Semantic, Session, semantic_state, episode_finality,
  is_provisional, tail_digest, unit_digest, nth, UnitOfWork, offer,
}
use saipal.Analysis.Advance.{Receipt, Tallies, tallies_for_session, moved, advance_semantic}
use saipal.Analysis.Forward.{pass_slice_more, pass_slice_last, hold_tail_more, hold_tail_last}

-- A session under review: its receipts and the episodes and slices judged so far.
pub record Review : Type 0 where
  pub session : Session
  pub receipts : List Receipt
  pub visited : List (ℕ × ℕ)

-- The slices `from` to `from + n - 1` of an episode.
abbrev pub slices_of : ℕ → ℕ → ℕ → List (ℕ × ℕ)
slices_of index from zero = []
slices_of index from (suc n) = (index, from) ∷ slices_of index (suc from) n

-- Every slice of every episode, in order.
abbrev pub all_units : ℕ → List Episode → List (ℕ × ℕ)
all_units limit [] = []
all_units limit (e ∷ es) = slices_of e.index 0 (episode_slice_count e limit) ++ all_units limit es

-- Episodes are numbered by their place.
abbrev pub Numbered : ℕ → List Episode → Type 0
Numbered k [] = Unit
Numbered k (e ∷ es) = (e.index ≡ k) × Numbered (suc k) es

module _ (d : Digests) (limit : ℕ) (answer : Session → UnitOfWork → Receipt) where
  abbrev judge : Review → UnitOfWork → Review
  judge r u =
      let receipts = r.receipts ++ (answer r.session u ∷ []) in
      record {
        session =
            advance_semantic d r.session u.episode (episode_finality r.session u.episode) receipts
              u.slice_index (episode_slice_count u.episode limit);
        receipts = receipts;
        visited = r.visited ++ ((u.episode.index, u.slice_index) ∷ []);
      }

  -- One unit is offered and judged.
  unfoldable pub review_step : Review → Option Review
  review_step r = elim (offer d limit r.session) [ none ↦ none | some u ↦ some (judge r u) ]

  -- On fuel, until nothing is offered.
  unfoldable pub review : ℕ → Review → Review
  review zero r = r
  review (suc n) r = elim (review_step r) [ none ↦ r | some next ↦ review n next ]

  -- A position with its tallies.
  abbrev pub at_place : ℕ → ℕ → Bool → Option String → Tallies → Semantic
  at_place k j x tail t = record {
    next_episode_index = k;
    next_slice_index = j;
    exhausted = x;
    submitted = t.submitted;
    no_drift = t.no_drift;
    provisional_count = t.provisional_count;
    tail_reviewed_digest = tail;
  }

  -- The review at a position.
  abbrev pub review_at :
      Session → ℕ → ℕ → Bool → Option String → Tallies → List Receipt → List (ℕ × ℕ) → Review
  review_at s k j x tail t receipts visited = record {
    session = record s { semantic = some (at_place k j x tail t) };
    receipts = receipts;
    visited = visited;
  }

  and_false : (b : Bool) → (b && false) ≡ false
  and_false true = refl
  and_false false = refl

  module _ (s : Session) (imported : (s.status == "IMPORTED") ≡ true) where
    offer_at :
        (k j : ℕ) (t : Tallies) (e : Episode)
        → nth s.episodes k ≡ some e
        → j < episode_slice_count e limit
        → offer d limit (record s { semantic = some (at_place k j false none t) })
          ≡ some (record { episode = e; slice_index = j })
    unfolding offer semantic_state
    offer_at k j t e here within =
        let slot : min j (episode_slice_count e limit - 1) ≡ j = omega arith in
        let live =
          is_provisional
            (episode_finality (record s { semantic = some (at_place k j false none t) }) e) in
        rw (imported, here, slot, and_false live) refl

    -- The receipts once the unit at a place is judged.
    abbrev pub answered : ℕ → ℕ → Tallies → Episode → List Receipt → List Receipt
    answered k j t e receipts =
        receipts
        ++ (answer (record s { semantic = some (at_place k j false none t) })
              (record { episode = e; slice_index = j })
            ∷ [])

    abbrev pub counts : ℕ → ℕ → Tallies → Episode → List Receipt → Tallies
    counts k j t e receipts = tallies_for_session (answered k j t e receipts) s.session_id

    -- A step from a place where a unit is offered, by the move of the position.
    step_at :
        (k j k' j' : ℕ) (x' : Bool) (tail' : Option String) (t : Tallies) (e : Episode)
        (receipts : List Receipt) (visited : List (ℕ × ℕ))
        → nth s.episodes k ≡ some e
        → j < episode_slice_count e limit
        → let t' = counts k j t e receipts in
          moved
              (episode_finality s e)
              (at_place k j false none t')
              e.index
              j
              (episode_slice_count e limit)
              (length s.episodes)
              (tail_digest d s e j)
            ≡ at_place k' j' x' tail' t'
          → review_step (review_at s k j false none t receipts visited)
            ≡ some (
                review_at s k' j' x' tail' t'
                  (answered k j t e receipts)
                  (visited ++ ((e.index, j) ∷ [])))
    unfolding review_step advance_semantic semantic_state tail_digest unit_digest episode_finality
    step_at k j k' j' x' tail' t e receipts visited here within move =
        let offered = offer_at k j t e here within in
        let receipts' = answered k j t e receipts in
        rw (offered, review_step)
          (ap
            (λ st. some (record {
              session = record s { semantic = some st };
              receipts = receipts';
              visited = visited ++ ((e.index, j) ∷ []);
            }))
            move)

    -- The next slice of an episode that has more.
    pub step_more :
        (k j : ℕ) (t : Tallies) (e : Episode) (receipts : List Receipt) (visited : List (ℕ × ℕ))
        → nth s.episodes k ≡ some e
        → e.index ≡ k
        → j + 1 < episode_slice_count e limit
        → review_step (review_at s k j false none t receipts visited)
          ≡ some (
              review_at s k
                (suc j)
                false
                none
                (counts k j t e receipts)
                (answered k j t e receipts)
                (visited ++ ((e.index, j) ∷ [])))
    step_more k j t e receipts visited here index more =
        step_at k j k (suc j) false none t e receipts visited here (omega arith)
          (moves (episode_finality s e) (counts k j t e receipts))
      where
        moves :
            (f : Finality) (t' : Tallies)
            → moved f
                (at_place k j false none t')
                e.index
                j
                (episode_slice_count e limit)
                (length s.episodes)
                (tail_digest d s e j)
              ≡ at_place k (suc j) false none t'
        moves final t' =
            pass_slice_more (at_place k j false none t') e.index j _ _ (omega (arith, index)) more
            ∙ ap (λ n. at_place k n false none t') (omega arith)
        moves provisional t' =
            hold_tail_more (at_place k j false none t') e.index j _ _ (omega (arith, index)) more
            ∙ ap (λ n. at_place k n false none t') (omega arith)

    pub step_close :
        (k j : ℕ) (t : Tallies) (e : Episode) (receipts : List Receipt) (visited : List (ℕ × ℕ))
        → nth s.episodes k ≡ some e
        → e.index ≡ k
        → j + 1 ≡ episode_slice_count e limit
        → episode_finality s e ≡ final
        → review_step (review_at s k j false none t receipts visited)
          ≡ some (
              review_at s
                (suc k)
                0
                (leb (length s.episodes) (suc k))
                none
                (counts k j t e receipts)
                (answered k j t e receipts)
                (visited ++ ((e.index, j) ∷ [])))
    step_close k j t e receipts visited here index last finished =
        step_at k j (suc k) 0 _ none t e receipts visited here (omega (arith, last)) (
          ap
            (λ f.
              moved f (at_place k j false none (counts k j t e receipts)) e.index j
                (episode_slice_count e limit) (length s.episodes) (tail_digest d s e j))
            finished
          ∙ pass_slice_last (at_place k j false none (counts k j t e receipts)) e.index j
              (episode_slice_count e limit) (length s.episodes) (omega (arith, index))
              (omega (arith, last))
          ∙ ap
              (λ n. record (at_place k j false none (counts k j t e receipts)) {
                next_episode_index = n;
                next_slice_index = 0;
                exhausted = leb (length s.episodes) n;
              })
              (omega (arith, index)))

    pub step_hold :
        (k j : ℕ) (t : Tallies) (e : Episode) (receipts : List Receipt) (visited : List (ℕ × ℕ))
        → nth s.episodes k ≡ some e
        → j + 1 ≡ episode_slice_count e limit
        → episode_finality s e ≡ provisional
        → review_step (review_at s k j false none t receipts visited)
          ≡ some (
              review_at s k j false
                (some (tail_digest d s e j))
                (counts k j t e receipts)
                (answered k j t e receipts)
                (visited ++ ((e.index, j) ∷ [])))
    step_hold k j t e receipts visited here last growing =
        step_at k j k j false _ t e receipts visited here (omega (arith, last)) (
          ap
            (λ f.
              moved f (at_place k j false none (counts k j t e receipts)) e.index j
                (episode_slice_count e limit) (length s.episodes) (tail_digest d s e j))
            growing
          ∙ hold_tail_last (at_place k j false none (counts k j t e receipts)) e.index j
              (episode_slice_count e limit) (tail_digest d s e j) (omega (arith, last)))
