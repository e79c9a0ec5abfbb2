-- ===== src/Analysis/Drained.antt =====
-- A reviewed session is reviewed whole: every slice of every episode, once and in order, and then
-- nothing is offered (`next_unit` of tools/saipal_engine/carrier.py, `_advance_semantic` of
-- submit.py).
use saipal.Base.{
  ℕ, zero, suc, ◌+◌, ◌<◌, ◌≡◌, refl, ap, sym, ◌∙◌, Bool, true, false, Option, none, some, List, [],
  ◌∷◌, ◌++◌, append-nil, append_assoc, String, ◌==◌, string_eq, option_eq, length, drop, arith,
}
use mathlib.Core.Path.{subst}
use saipal.Analysis.Episodes.{Episode}
use saipal.Analysis.Paging.{episode_slice_count}
use saipal.Analysis.Session.{Digests, Session, nth, UnitOfWork}
use saipal.Analysis.Advance.{Receipt, Tallies}
use saipal.Analysis.Review.{
  Review, slices_of, review_step, review, review_at, answered, counts, step_more,
}

-- The head of what is left is the episode at the position.
pub nth-drop {ℓ} :
    {A : Type ℓ} (k : ℕ) (xs : List A) (y : A) (ys : List A)
    → drop k xs ≡ y ∷ ys
    → (nth xs k ≡ some y) × (drop (suc k) xs ≡ ys) × (k < length xs)
nth-drop zero [] y ys h = absurd (cc)
nth-drop zero (x ∷ xs) y ys h = (cc, cc, omega arith)
nth-drop (suc k) [] y ys h = absurd (cc)
nth-drop (suc k) (x ∷ xs) y ys h = let (a, b, c) = nth-drop k xs y ys h in (a, b, omega arith)

slices_snoc :
    (index j m last : ℕ)
    → j + m ≡ last
    → slices_of index j (suc m) ≡ slices_of index j m ++ ((index, last) ∷ [])
slices_snoc index j zero last h = ap (λ n. (index, n) ∷ []) (omega arith)
slices_snoc index j (suc m) last h =
    ap (λ us. (index, j) ∷ us) (slices_snoc index (suc j) m last (omega arith))

module _ (d : Digests) (limit : ℕ) (answer : Session → UnitOfWork → Receipt) where
  -- One review comes from another by judging these units.
  abbrev pub Steps : List (ℕ × ℕ) → Review → Review → Type 0
  Steps [] r q = r ≡ q
  Steps (u ∷ us) r q = (p : Review) × (review_step d limit answer r ≡ some p) × Steps us p q

  pub Steps-append :
      (us vs : List (ℕ × ℕ)) (r p q : Review) → Steps us r p → Steps vs p q → Steps (us ++ vs) r q
  Steps-append [] vs r p q a b = subst (λ z. Steps vs z q) (sym a) b
  Steps-append (u ∷ us) vs r p q (o, one, a) b = (o, one, Steps-append us vs o p q a b)

  -- Where the steps end and nothing is offered, so does the loop, with any fuel that is enough.
  pub Steps-review :
      (us : List (ℕ × ℕ)) (extra : ℕ) (r q : Review)
      → Steps us r q
      → review_step d limit answer q ≡ none
      → review d limit answer (length us + extra) r ≡ q
  unfolding review
  Steps-review [] extra r q s e =
      ap (λ z. review d limit answer (0 + extra) z) s ∙ stays (0 + extra)
    where
      stays : (n : ℕ) → review d limit answer n q ≡ q
      stays zero = refl
      stays (suc n) = rw (e, review) refl
  Steps-review (u ∷ us) extra r q (p, one, s) e =
      ap (λ n. review d limit answer n r) shift ∙ next (Steps-review us extra p q s e)
    where
      shift : length (u ∷ us) + extra ≡ suc (length us + extra)
      shift = omega arith

      next :
          review d limit answer (length us + extra) p ≡ q
          → review d limit answer (suc (length us + extra)) r ≡ q
      next later = rw (one, review) later

  pub Steps-cast :
      {us vs : List (ℕ × ℕ)} (r r' q q' : Review)
      → us ≡ vs
      → r ≡ r'
      → q ≡ q'
      → Steps us r q
      → Steps vs r' q'
  Steps-cast {us = us} {vs = vs} r r' q q' e f g a =
      subst (λ us. Steps us r' q') e (subst (λ z. Steps us z q') f (subst (Steps us r) g a))

  module _ (s : Session) (imported : (s.status == "IMPORTED") ≡ true) where
    pub place_moves :
        {k j j' : ℕ} {x : Bool} {tail : Option String} {t : Tallies} {receipts : List Receipt}
        {visited visited' : List (ℕ × ℕ)}
        → j ≡ j'
        → visited ≡ visited'
        → review_at d limit answer s k j x tail t receipts visited
          ≡ review_at d limit answer s k j' x tail t receipts visited'
    place_moves e f = cc

    -- The slices of an episode before the last.
    slices_run :
        (m k j last : ℕ) (t : Tallies) (e : Episode) (receipts : List Receipt)
        (visited : List (ℕ × ℕ))
        → nth s.episodes k ≡ some e
        → e.index ≡ k
        → j + m ≡ last
        → last < episode_slice_count e limit
        → (t' : Tallies) × (receipts' : List Receipt) × Steps
            (slices_of e.index j m)
            (review_at d limit answer s k j false none t receipts visited)
            (review_at d limit answer s k last false none t' receipts'
              (visited ++ slices_of e.index j m))
    slices_run zero k j last t e receipts visited here index sum within =
        (t, receipts, place_moves (omega arith) (sym (append-nil visited)))
    slices_run (suc m) k j last t e receipts visited here index sum within =
        let us = slices_of e.index j 1 in
        let (t', receipts', later) =
          slices_run m k (suc j) last (counts d limit answer s imported k j t e receipts) e
            (answered d limit answer s imported k j t e receipts) (visited ++ us) here index
            (omega arith) within in
        (
          t',
          receipts',
          (
            _,
            step_more d limit answer s imported k j t e receipts visited here index (omega arith),
            Steps-cast _ _ _ _ refl refl
                (place_moves refl (append_assoc visited us (slices_of e.index (suc j) m))) later,
          ),
        )

    -- An episode's slices, by what the verdict on the last one does.
    pub whole_run :
        (m k : ℕ) (t : Tallies) (e : Episode) (receipts : List Receipt) (visited : List (ℕ × ℕ))
        (after : Tallies → List Receipt → List (ℕ × ℕ) → Review)
        → nth s.episodes k ≡ some e
        → e.index ≡ k
        → suc m ≡ episode_slice_count e limit
        → ((u : Tallies) (rs : List Receipt) (vs : List (ℕ × ℕ))
            → review_step d limit answer (review_at d limit answer s k m false none u rs vs)
              ≡ some (
                  after
                    (counts d limit answer s imported k m u e rs)
                    (answered d limit answer s imported k m u e rs)
                    (vs ++ ((e.index, m) ∷ []))))
        → (t' : Tallies) × (receipts' : List Receipt) × Steps
            (slices_of e.index 0 (suc m))
            (review_at d limit answer s k 0 false none t receipts visited)
            (after t' receipts' (visited ++ slices_of e.index 0 (suc m)))
    whole_run m k t e receipts visited after here index count last =
        let front = slices_of e.index 0 m in
        let back : List (ℕ × ℕ) = (e.index, m) ∷ [] in
        let (u, rs, most) =
          slices_run m k 0 m t e receipts visited here index (omega arith) (omega arith) in
        let split = slices_snoc e.index 0 m m (omega arith) in
        let t' = counts d limit answer s imported k m u e rs in
        let receipts' = answered d limit answer s imported k m u e rs in
        let end : after t' receipts' ((visited ++ front) ++ back)
            ≡ after t' receipts' (visited ++ slices_of e.index 0 (suc m)) =
          ap (after t' receipts')
            (append_assoc visited front back ∙ ap (λ us. visited ++ us) (sym split)) in
        (
          t',
          receipts',
          Steps-cast _ _ _ _ (sym split) refl refl
              (Steps-append front back _ _ _ most (_, last u rs (visited ++ front), end)),
        )
