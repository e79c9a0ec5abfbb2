-- ===== src/Analysis/Handover.antt =====
-- Every event reaches the analyst (`extract_episodes` of tools/saipal_engine/episodes.py with
-- `episode_slice_count` and `_episode_events` of carrier.py).
use saipal.Base.{
  ℕ, zero, suc, ◌+◌, ◌≤◌, ◌<◌, ◌≡◌, refl, sym, ap, ◌∙◌, List, [], ◌∷◌, ◌++◌, String, All, arith,
  inl, inr, Bool-cases, leb, leb_false→lt, append-nil, string_eq, ◌==◌,
}
use saipal.Analysis.Event.{Event, Ascends, span, span-append, span_all, last_seq, last_seq-ge}
use saipal.Analysis.Episodes.{
  Episode, extract_episodes, MechanicalSpan, spans_from, mechanical_spans,
}
use saipal.Analysis.Partition.{gather, IsCounted, extract_episodes-IsPartition}
use saipal.Analysis.Paging.{slice_count, episode_slice_count, episode_events, pages, pages_all}

-- The windows of the slices `from` to `from + n - 1` of an episode.
abbrev pub windows : List Event → Episode → ℕ → ℕ → ℕ → List Event
windows events e limit from zero = []
windows events e limit from (suc n) =
    (episode_events events e limit from).window ++ windows events e limit (suc from) n

-- Every slice of every episode, in order.
abbrev pub hand_over : List Event → ℕ → List Episode → List Event
hand_over events limit [] = []
hand_over events limit (e ∷ es) =
    windows events e limit 0 (episode_slice_count e limit) ++ hand_over events limit es

windows-pages :
    (events : List Event) (e : Episode) (limit from n : ℕ)
    → windows events e limit from n ≡ pages (span e.start_seq e.end_seq events) limit from n
unfolding episode_events
windows-pages events e limit from zero = refl
windows-pages events e limit from (suc n) =
    ap (λ ys. (episode_events events e limit from).window ++ ys)
      (windows-pages events e limit (suc from) n)

hand_over-gather :
    (events : List Event) (limit : ℕ) (eps : List Episode)
    → 0 < limit
    → All (IsCounted events) eps
    → hand_over events limit eps ≡ gather events eps
unfolding episode_slice_count
hand_over-gather events limit [] p c = refl
hand_over-gather events limit (e ∷ es) p (c, cs) =
    let stretch = span e.start_seq e.end_seq events in
    let one : windows events e limit 0 (episode_slice_count e limit) ≡ stretch =
      windows-pages events e limit 0 (episode_slice_count e limit)
      ∙ ap (λ n. pages stretch limit 0 (slice_count n limit)) c
      ∙ pages_all stretch limit p in
    rw (one, hand_over-gather events limit es p cs) refl

-- For events whose numbers never fall and a positive window size, the windows of all slices of all
-- episodes, with the slice counts that the episodes record, are in order the events of the
-- session: the analyst is handed each of them exactly once.
pub hand_over_all :
    (kinds : List String) (e : Event) (es : List Event) (limit : ℕ)
    → Ascends e.seq es
    → 0 < limit
    → hand_over (e ∷ es) limit (extract_episodes kinds (e ∷ es)) ≡ e ∷ es
hand_over_all kinds e es limit a p =
    let split = extract_episodes-IsPartition kinds e es a in
    hand_over-gather (e ∷ es) limit (extract_episodes kinds (e ∷ es)) p split.counted
    ∙ split.gathered

-- The events of the mechanical spans, in order.
abbrev pub gather_spans : List Event → List MechanicalSpan → List Event
gather_spans events [] = []
gather_spans events (m ∷ ms) = span m.start_seq m.end_seq events ++ gather_spans events ms

-- The numbers rise.
abbrev pub Rises : ℕ → List Event → Type 0
Rises low [] = Unit
Rises low (e ∷ es) = (low ≤ e.seq) × Rises (e.seq + 1) es

pub Rises-Ascends : (low b : ℕ) (es : List Event) → b ≤ low → Rises low es → Ascends b es
Rises-Ascends low b [] h r = tt
Rises-Ascends low b (e ∷ es) h (le, r) =
    (omega arith, Rises-Ascends (e.seq + 1) e.seq es (omega arith) r)

Rises-weaken : (low b : ℕ) (es : List Event) → b ≤ low → Rises low es → Rises b es
Rises-weaken low b [] h r = tt
Rises-weaken low b (e ∷ es) h (le, r) = (omega arith, r)

span_empty : (a b : ℕ) (es : List Event) → b < a → span a b es ≡ []
span_empty a b [] h = refl
span_empty a b (e ∷ es) h = ground (arith, span_empty a b es h)

spans_from-gather :
    (events : List Event) (low last i start : ℕ) (es : List Event)
    → Ascends low events
    → Rises start es
    → All (λ (e : Event). e.seq ≤ last) es
    → gather_spans events (spans_from last i start es) ≡ span start last events
unfolding spans_from
spans_from-gather events low last i start [] a r b = elim (Bool-cases (leb start last)) [
  | inl some_left ↦ rw some_left (append-nil _)
  | inr none_left ↦
      rw none_left (sym (span_empty start last events (leb_false→lt start last none_left)))
]
spans_from-gather events low last i start (e ∷ es) a (le, r) (b, bs) =
    elim (Bool-cases (e.event_type == "SESSION_BOUNDARY")) [
      | inl closed_ ↦
          let later = spans_from-gather events low last (i + 1) (e.seq + 1) es a r bs in
          rw (closed_, later) (span-append start e.seq last low events (omega arith) b a)
      | inr open_ ↦ rw open_ (
          spans_from-gather events low last i start es a
            (Rises-weaken (e.seq + 1) start es (omega arith) r) bs)
    ]

last-bounds :
    (low : ℕ) (es : List Event) → Ascends low es → All (λ (e : Event). e.seq ≤ last_seq low es) es
last-bounds low [] a = tt
last-bounds low (e ∷ es) (le, a) = (last_seq-ge e.seq es a, last-bounds e.seq es a)

-- For rising numbers, as a bundle's validation demands, the events of the mechanical spans are in
-- order the events of the session, whichever of them are session boundaries.
pub mechanical_spans-gather :
    (e : Event) (es : List Event)
    → Rises (e.seq + 1) es
    → gather_spans (e ∷ es) (mechanical_spans (e ∷ es)) ≡ e ∷ es
unfolding mechanical_spans
mechanical_spans-gather e es r =
    let rises : Rises e.seq (e ∷ es) = (omega arith, r) in
    let asc = Rises-Ascends e.seq e.seq (e ∷ es) (omega arith) rises in
    spans_from-gather (e ∷ es) e.seq (last_seq e.seq es) 0 e.seq (e ∷ es) asc rises
      (last-bounds e.seq (e ∷ es) asc)
    ∙ span_all e.seq e.seq (e ∷ es) (omega arith) asc
