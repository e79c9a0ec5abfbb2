-- ===== src/Analysis/Reviewed.antt =====
-- The review of a session by its temperature (`next_unit` of
-- tools/saipal_engine/carrier.py, `_advance_semantic` of submit.py).
use saipal.Base.{
  ℕ, suc, ◌+◌, ◌≤◌, ◌<◌, ◌≡◌, refl, ap, sym, ◌∙◌, Bool, true, false, none, some, List, [], ◌∷◌,
  ◌++◌, append-nil, append_assoc, String, ◌==◌, string_eq, option_eq, leb, if◌then◌else◌, length,
  arith, le→leb, All,
}
use mathlib.Core.Path.{subst}
use saipal.Analysis.Episodes.{Episode}
use saipal.Analysis.Paging.{episode_slice_count}
use saipal.Analysis.Session.{
  Digests, final, provisional, hot, cold, Session, semantic_state, episode_finality, tail_finality,
  highest_index, tail_digest, unit_digest, nth, UnitOfWork, fresh_semantic,
}
use saipal.Analysis.Advance.{Receipt, Tallies}
use saipal.Analysis.Review.{
  Review, slices_of, all_units, Numbered, review_step, review, review_at, step_hold,
}
use saipal.Analysis.Drained.{Steps, Steps-append, Steps-cast, Steps-review, whole_run}
use saipal.Analysis.Exhaustion.{
  some_slices, start_of, start_open, finals_run, offer_exhausted, offer_held, idle,
}

-- A review that is over.
pub record IsOver (d : Digests) (limit : ℕ) (answer : Session → UnitOfWork → Receipt) (s : Session)
    (q : Review) (done : Bool) : Type 0 where
  pub visited : q.visited ≡ all_units limit s.episodes
  pub nothing_left : review_step d limit answer q ≡ none
  pub exhausted : (semantic_state q.session).exhausted ≡ done

-- A session as an import leaves it.
abbrev pub new_review : Session → Review
new_review s = record {
  session = record s { semantic = some fresh_semantic };
  receipts = [];
  visited = [];
}

Numbered-prefix : (k : ℕ) (es fs : List Episode) → Numbered k (es ++ fs) → Numbered k es
Numbered-prefix k [] fs n = tt
Numbered-prefix k (e ∷ es) fs (i, n) = (i, Numbered-prefix (suc k) es fs n)

Numbered-last :
    (k : ℕ) (es : List Episode) (e : Episode)
    → Numbered k (es ++ (e ∷ []))
    → e.index ≡ k + length es
Numbered-last k [] e (i, n) = omega (arith, i)
Numbered-last k (f ∷ es) e (i, n) = omega (arith, Numbered-last (suc k) es e n)

highest-Numbered :
    (k : ℕ) (es : List Episode) (e : Episode)
    → Numbered k (es ++ (e ∷ []))
    → highest_index (es ++ (e ∷ [])) ≡ k + length es
highest-Numbered k [] e (i, n) = ground arith
highest-Numbered k (f ∷ es) e (i, n) = ground (arith, highest-Numbered (suc k) es e n)

tail_finality-snoc :
    (es : List Episode) (e f : Episode)
    → tail_finality (es ++ (e ∷ [])) f
      ≡ (if leb (highest_index (es ++ (e ∷ []))) f.index then provisional else final)
tail_finality-snoc [] e f = refl
tail_finality-snoc (g ∷ es) e f = refl

before_tail :
    (es gs : List Episode) (e : Episode) (k : ℕ)
    → highest_index (es ++ (e ∷ [])) ≡ length es
    → Numbered k gs
    → k + length gs ≤ length es
    → All (λ (f : Episode). tail_finality (es ++ (e ∷ [])) f ≡ final) gs
before_tail es [] e k h n le = tt
before_tail es (g ∷ gs) e k h (i, n) le =
    (tail_finality-snoc es e g ∙ ground arith, before_tail es gs e (suc k) h n (omega arith))

nth-snoc {ℓ} :
    {A : Type ℓ} (xs : List A) (x : A)
    → (nth (xs ++ (x ∷ [])) (length xs) ≡ some x) × (length xs < length (xs ++ (x ∷ [])))
nth-snoc [] x = (refl, omega arith)
nth-snoc (y ∷ xs) x = let (a, b) = nth-snoc xs x in (a, omega arith)

all_units-snoc :
    (limit : ℕ) (es : List Episode) (e : Episode)
    → all_units limit (es ++ (e ∷ []))
      ≡ all_units limit es ++ slices_of e.index 0 (episode_slice_count e limit)
all_units-snoc limit [] e = append-nil _
all_units-snoc limit (f ∷ es) e =
    ap (λ us. slices_of f.index 0 (episode_slice_count f limit) ++ us) (all_units-snoc limit es e)
    ∙ sym (append_assoc (slices_of f.index 0 (episode_slice_count f limit)) _ _)

module _ (d : Digests) (limit : ℕ) (answer : Session → UnitOfWork → Receipt) (p : 0 < limit) where
  module _ (s : Session) (imported : (s.status == "IMPORTED") ≡ true) where
    cold_finals :
        (es : List Episode)
        → s.temperature ≡ cold
        → All (λ (e : Episode). episode_finality s e ≡ final) es
    unfolding episode_finality
    cold_finals [] c = tt
    cold_finals (e ∷ es) c = (rw c refl, cold_finals es c)

    -- A finished session that has an episode and whose episodes are numbered by their place, is
    -- reviewed whole from its import: with fuel for one step per slice or more, the loop judges
    -- every slice of every episode, once and in order, then is offered nothing, and the session
    -- is marked exhausted.
    pub review_cold :
        (extra : ℕ) (e : Episode) (es : List Episode)
        → s.temperature ≡ cold
        → s.episodes ≡ e ∷ es
        → Numbered 0 s.episodes
        → IsOver d limit answer s
            (review d limit answer (length (all_units limit s.episodes) + extra) (new_review s))
            true
    unfolding semantic_state
    review_cold extra e es c has n =
        let zeros : Tallies = record { submitted = 0; no_drift = 0; provisional_count = 0 } in
        let total = length s.episodes in
        let (t, rs, run) =
          finals_run d limit answer s imported s.episodes [] 0 zeros [] [] p
            (sym (append-nil s.episodes)) n (cold_finals s.episodes c) in
        let q = start_of d limit answer s imported (0 + total) t rs (all_units limit s.episodes) in
        let open_ =
          start_open d limit answer s imported 0 zeros [] [] (omega (arith, ap length has)) in
        let stop =
          idle d limit answer s imported q
            (offer_exhausted d limit answer s imported (0 + total) t (omega arith)) in
        let ends =
          Steps-review d limit answer (all_units limit s.episodes) extra (new_review s) q
            (Steps-cast d limit answer _ _ _ _ refl (sym open_) refl run) stop in
        subst (λ z. IsOver d limit answer s z true) (sym ends)
          (record {
            visited = refl;
            nothing_left = stop;
            exhausted = le→leb total (0 + total) (omega arith);
          })

    -- The tail of a live session is provisional and what comes before it is final.
    hot_finals :
        (es gs : List Episode) (e : Episode)
        → s.temperature ≡ hot
        → s.episodes ≡ es ++ (e ∷ [])
        → All (λ (f : Episode). tail_finality (es ++ (e ∷ [])) f ≡ final) gs
        → All (λ (f : Episode). episode_finality s f ≡ final) gs
    unfolding episode_finality
    hot_finals es [] e h has a = tt
    hot_finals es (g ∷ gs) e h has (one, a) = (rw (h, has) one, hot_finals es gs e h has a)

    hot_tail :
        (es : List Episode) (e : Episode)
        → s.temperature ≡ hot
        → s.episodes ≡ es ++ (e ∷ [])
        → Numbered 0 (es ++ (e ∷ []))
        → episode_finality s e ≡ provisional
    unfolding episode_finality
    hot_tail es e h has n =
        rw (h, has)
          (tail_finality-snoc es e e
            ∙ ground (arith, highest-Numbered 0 es e n, Numbered-last 0 es e n))

    -- The steps over a live session, up to the hold of its tail.
    hot_run :
        (es : List Episode) (e : Episode)
        → s.temperature ≡ hot
        → s.episodes ≡ es ++ (e ∷ [])
        → Numbered 0 (es ++ (e ∷ []))
        → (m : ℕ) × (t : Tallies) × (receipts : List Receipt) × (suc m
            ≡ episode_slice_count e limit)
          × Steps d limit answer (all_units limit s.episodes) (new_review s) (
              review_at d limit answer s
                (length es)
                m
                false
                (some (tail_digest d s e m))
                t
                receipts
                (all_units limit s.episodes))
    hot_run es e h has n =
        let zeros : Tallies = record { submitted = 0; no_drift = 0; provisional_count = 0 } in
        let front = all_units limit es in
        let k = length es in
        let fin = hot_finals es es e h has (
          before_tail es es e 0 (highest-Numbered 0 es e n ∙ (omega arith))
            (Numbered-prefix 0 es (e ∷ []) n) (omega arith)) in
        let growing = hot_tail es e h has n in
        let (t, rs, run) =
          finals_run d limit answer s imported es (e ∷ []) 0 zeros [] [] p has
            (Numbered-prefix 0 es (e ∷ []) n) fin in
        let (here, room) = nth-snoc es e in
        let at : nth s.episodes k ≡ some e = ap (λ xs. nth xs k) has ∙ here in
        let within : k < length s.episodes = omega (arith, room, ap length has) in
        let (m, count) = some_slices e limit p in
        let (t', rs', last) =
          whole_run d limit answer s imported m k t e rs front
            (λ t rs vs. review_at d limit answer s k m false (some (tail_digest d s e m)) t rs vs)
            at (Numbered-last 0 es e n ∙ (omega arith)) count
            (λ u rs vs.
              step_hold d limit answer s imported k m u e rs vs at (omega (arith, count))
                growing) in
        let units =
          ap (all_units limit) has
          ∙ all_units-snoc limit es e
          ∙ ap (λ c. front ++ slices_of e.index 0 c) (sym count) in
        let first =
          Steps-cast d limit answer _ _ _ _ refl
            (sym (start_open d limit answer s imported 0 zeros [] [] (omega arith)))
            (sym (start_open d limit answer s imported (0 + k) t rs front (omega arith))
              ∙ ap (λ j. review_at d limit answer s j 0 false none t rs front) (omega arith))
            run in
        (
          m,
          t',
          rs',
          count,
          Steps-cast d limit answer _ _ _ _ (sym units) refl
              (ap
                (λ us. review_at d limit answer s k m false (some (tail_digest d s e m)) t' rs' us)
                (sym units))
              (Steps-append d limit answer front (slices_of e.index 0 (suc m)) _ _ _ first last),
        )

    -- A live session, its episodes numbered by their place, is reviewed up to its end: with
    -- fuel for one step per slice or more, the loop judges every slice of every episode, the
    -- growing tail included, once and in order, then is offered nothing while the evidence stays
    -- the same, and the session is not marked exhausted.
    pub review_hot :
        (extra : ℕ) (es : List Episode) (e : Episode)
        → s.temperature ≡ hot
        → s.episodes ≡ es ++ (e ∷ [])
        → Numbered 0 (es ++ (e ∷ []))
        → ((text : String) → (d.sha256_text text == "") ≡ false)
        → IsOver d limit answer s
            (review d limit answer (length (all_units limit s.episodes) + extra) (new_review s))
            false
    unfolding semantic_state tail_digest unit_digest
    review_hot extra es e h has n given =
        let (m, t, rs, count, steps) = hot_run es e h has n in
        let units = all_units limit s.episodes in
        let q =
          review_at d limit answer s (length es) m false (some (tail_digest d s e m)) t rs units in
        let at = ap (λ xs. nth xs (length es)) has ∙ (nth-snoc es e).0 in
        let stop = idle d limit answer s imported q (
          offer_held d limit answer s imported (length es) m t e at count (hot_tail es e h has n)
            (given _)) in
        let ends = Steps-review d limit answer units extra (new_review s) q steps stop in
        subst (λ z. IsOver d limit answer s z false) (sym ends)
          (record { visited = refl; nothing_left = stop; exhausted = refl })
