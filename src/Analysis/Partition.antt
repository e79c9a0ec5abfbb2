-- ===== src/Analysis/Partition.antt =====
-- The episodes of a session tile its events (`extract_episodes` of
-- tools/saipal_engine/episodes.py).
use saipal.Base.{
  append-nil, length-append, ℕ, ◌+◌, ◌-◌, ◌≤◌, ◌<◌, ◌≡◌, refl, ap, ◌∙◌, inl, inr, Option, none,
  some, List, [], ◌∷◌, ◌++◌, String, ltb, leb, length, All, arith, Bool-cases, le→leb, leb_false→lt,
  ltb_false→le,
}
use mathlib.Core.Path.{subst}
use saipal.Analysis.Event.{
  Event, Ascends, span, span-append, span_before, span_all, last_seq, last_seq-ge,
}
use saipal.Analysis.Episodes.{
  Mark, Seen, marks_from, boundary_marks, kind_of, marks_kind, see_work, Episode, episode,
  bisect_left, bisect_right, episodes_from, extract_episodes, terminal_kind,
}

-- Episodes from number `i` on cover `[s, l]` without a gap or an overlap: each but the last ends
-- before its trigger, and the last is the tail.
abbrev pub Tiles : ℕ → ℕ → ℕ → List Episode → Type 0
Tiles i s l [] = ⊥
Tiles i s l (e ∷ []) =
    (e.index ≡ i)
    × (e.start_seq ≡ s)
    × (e.end_seq ≡ l)
    × (s ≤ l)
    × (e.trigger_seq ≡ none)
    × (e.kind ≡ terminal_kind)
Tiles i s l (e ∷ f ∷ es) =
    (e.index ≡ i)
    × (e.start_seq ≡ s)
    × (s ≤ e.end_seq)
    × (e.end_seq < l)
    × (e.trigger_seq ≡ some (e.end_seq + 1))
    × Tiles (i + 1) (e.end_seq + 1) l (f ∷ es)

-- The events of the episodes, in order.
abbrev pub gather : List Event → List Episode → List Event
gather events [] = []
gather events (e ∷ es) = span e.start_seq e.end_seq events ++ gather events es

-- An episode's count is the number of events in its span.
abbrev pub IsCounted : List Event → Episode → Type 0
IsCounted events e = e.event_count ≡ length (span e.start_seq e.end_seq events)

bisect_left_none : (s low : ℕ) (es : List Event) → s ≤ low → Ascends low es → bisect_left es s ≡ 0
bisect_left_none s low [] h a = refl
bisect_left_none s low (e ∷ es) h (le, a) = ground arith

-- The difference of the two bisections counts the span.
bisect-span :
    (s t low : ℕ) (es : List Event)
    → s ≤ t + 1
    → Ascends low es
    → bisect_right es t - bisect_left es s ≡ length (span s t es)
bisect-span s t low [] h a = omega arith
bisect-span s t low (e ∷ es) h (le, a) = elim (Bool-cases (ltb e.seq s)) [
  | inl below ↦ ground (arith, bisect-span s t e.seq es h a)
  | inr above ↦ elim (Bool-cases (leb e.seq t)) [
    | inl within ↦
        let later = bisect-span s t e.seq es h a in
        ground (arith, bisect_left_none s e.seq es (ltb_false→le e.seq s above) a, later)
    | inr past ↦ ground (arith, span_before s t e.seq es (leb_false→lt e.seq t past) a)
  ]
]

episode-IsCounted :
    (events : List Event) (low i s t : ℕ) (kind : String) (trigger : Option ℕ)
    → s ≤ t + 1
    → Ascends low events
    → IsCounted events (episode events i s t kind trigger)
unfolding episode
episode-IsCounted events low i s t kind trigger h a = bisect-span s t low events h a

-- Every mark is an event's number.
pub marks-bounded :
    (kinds : List String) (es : List Event) (low : ℕ) (seen : Seen)
    → Ascends low es
    → All (λ (m : Mark). m.seq ≤ last_seq low es) (marks_from kinds seen es)
unfolding marks_from
marks-bounded kinds [] low seen a = tt
marks-bounded kinds (e ∷ es) low seen (le, a) =
    elim (Bool-cases (marks_kind kinds (kind_of seen e))) [
      | inl marked ↦
          rw marked (last_seq-ge e.seq es a, marks-bounded kinds es e.seq (see_work e seen) a)
      | inr plain ↦ rw plain (marks-bounded kinds es e.seq (see_work e seen) a)
    ]

module _ (events : List Event) (low last : ℕ) (a : Ascends low events) where
  -- What the loop gives from a start on.
  abbrev IsSplit : ℕ → ℕ → List Episode → Type 0
  IsSplit i s eps = Tiles i s last eps × All (IsCounted events) eps

  Tiles-cons :
      (i s : ℕ) (e : Episode) (eps : List Episode)
      → e.index ≡ i
      → e.start_seq ≡ s
      → s ≤ e.end_seq
      → e.end_seq < last
      → e.trigger_seq ≡ some (e.end_seq + 1)
      → Tiles (i + 1) (e.end_seq + 1) last eps
      → Tiles i s last (e ∷ eps)
  Tiles-cons i s e [] p q r t u v = absurd v
  Tiles-cons i s e (f ∷ eps) p q r t u v = (p, q, r, t, u, v)

  episodes_from-IsSplit :
      (i s : ℕ) (marks : List Mark)
      → s ≤ last
      → All (λ (m : Mark). m.seq ≤ last) marks
      → IsSplit i s (episodes_from events last i s marks)
  unfolding episodes_from episode
  episodes_from-IsSplit i s [] h b =
      let counted = episode-IsCounted events low i s last terminal_kind none (omega arith) a in
      rw (le→leb s last h) ((refl, refl, refl, h, refl, refl), (counted, tt))
  episodes_from-IsSplit i s (m ∷ marks) h (le, b) = elim (Bool-cases (leb m.seq s)) [
    | inl passed ↦ rw passed (episodes_from-IsSplit i s marks h b)
    | inr ahead ↦
        let before = leb_false→lt m.seq s ahead in
        let (tiles, counted) = episodes_from-IsSplit (i + 1) m.seq marks le b in
        let edge : m.seq ≡ m.seq - 1 + 1 = omega arith in
        rw ahead (
          Tiles-cons i s (episode events i s (m.seq - 1) m.kind (some m.seq)) _ refl refl
              (omega arith) (omega arith) (ap some edge)
              (subst (λ n. Tiles (i + 1) n last (episodes_from events last (i + 1) m.seq marks))
                edge tiles),
          (
            episode-IsCounted events low i s (m.seq - 1) m.kind (some m.seq) (omega arith) a,
            counted,
          ),
        )
  ]

  -- What tiles a stretch gathers its events, each once and in order.
  gather-Tiles :
      (eps : List Episode) (i s : ℕ) → Tiles i s last eps → gather events eps ≡ span s last events
  gather-Tiles [] i s t = absurd t
  gather-Tiles (e ∷ []) i s (_, start, end, _, _, _) = rw (start, end) (append-nil _)
  gather-Tiles (e ∷ f ∷ es) i s (_, start, le, lt, _, more) =
      rw (start, gather-Tiles (f ∷ es) (i + 1) (e.end_seq + 1) more)
        (span-append s e.end_seq last low events (omega arith) (omega arith) a)

-- What the split of a session's events promises.
pub record IsPartition (events : List Event) (first last : ℕ) (eps : List Episode) : Type 0 where
  pub tiles : Tiles 0 first last eps
  pub gathered : gather events eps ≡ events
  pub counted : All (IsCounted events) eps

-- For events that are not empty and whose numbers never fall, the episodes are numbered from 0,
-- cover the first to the last number without a gap or an overlap, each but the last ending just
-- before the event that its trigger names; their spans in order are the events, each exactly once; and each
-- recorded count, of two bisections, is the number of events in the span.
pub extract_episodes-IsPartition :
    (kinds : List String) (e : Event) (es : List Event)
    → Ascends e.seq es
    → IsPartition (e ∷ es) e.seq (last_seq e.seq es) (extract_episodes kinds (e ∷ es))
unfolding extract_episodes boundary_marks
extract_episodes-IsPartition kinds e es a =
    let asc : Ascends e.seq (e ∷ es) = (omega arith, a) in
    let (tiles, counted) =
      episodes_from-IsSplit (e ∷ es) e.seq (last_seq e.seq es) asc 0 e.seq
        (boundary_marks kinds (e ∷ es)) (last_seq-ge e.seq es a)
        (marks-bounded kinds (e ∷ es) e.seq none asc) in
    record {
      tiles = tiles;
      gathered =
          gather-Tiles (e ∷ es) e.seq (last_seq e.seq es) asc _ 0 e.seq tiles
          ∙ span_all e.seq e.seq (e ∷ es) (omega arith) asc;
      counted = counted;
    }

abbrev pub sum_counts : List Episode → ℕ
sum_counts [] = 0
sum_counts (e ∷ es) = e.event_count + sum_counts es

pub sum_counts-gather :
    (events : List Event) (eps : List Episode)
    → All (IsCounted events) eps
    → sum_counts eps ≡ length (gather events eps)
sum_counts-gather events [] c = refl
sum_counts-gather events (e ∷ es) (c, cs) = omega (
  arith,
  c,
  sum_counts-gather events es cs,
  length-append (span e.start_seq e.end_seq events) (gather events es),
)
