-- ===== src/Analysis/Boundaries.antt =====
-- Which episodes a session's boundaries open (`boundary_marks` and `extract_episodes` of
-- tools/saipal_engine/episodes.py).
use saipal.Base.{
  ℕ, ◌+◌, ◌-◌, ◌≤◌, ◌≡◌, refl, sym, ◌⊎◌, inl, inr, true, false, Option, none, some, List, [], ◌∷◌,
  String, string_eq, leb, All, arith, Bool-cases, le→leb,
}
use mathlib.Core.Path.{subst}
use saipal.Analysis.Event.{Event, Ascends, last_seq, last_seq-ge}
use saipal.Analysis.Episodes.{
  Mark, marks_from, boundary_marks, Episode, episode, episodes_from, extract_episodes,
  terminal_kind,
}
use saipal.Analysis.Partition.{IsPartition, extract_episodes-IsPartition, marks-bounded}
use saipal.Analysis.Marks.{
  IsBoundary, marks_from-IsBoundary, at_boundary, Rises, Rises-weaken, marks_from-Rises,
}

-- The kind and the trigger of an episode: the boundary that closes it, or the end.
abbrev pub IsClosed : List String → List Event → String → Option ℕ → Type 0
IsClosed kinds events kind none = kind ≡ terminal_kind
IsClosed kinds events kind (some seq) = IsBoundary kinds events kind seq

abbrev pub IsClosedBy : List String → List Event → Episode → Type 0
IsClosedBy kinds events e = IsClosed kinds events e.kind e.trigger_seq

-- An episode begins at this number.
abbrev pub Starts : ℕ → List Episode → Type 0
Starts seq [] = ⊥
Starts seq (e ∷ es) = (e.start_seq ≡ seq) ⊎ Starts seq es

All-map : (P Q : Mark → Type 0) → ((x : Mark) → P x → Q x) → (ms : List Mark) → All P ms → All Q ms
All-map P Q f [] h = tt
All-map P Q f (m ∷ ms) (p, h) = (f m p, All-map P Q f ms h)

module _ (events : List Event) (last : ℕ) where
  episodes_from-IsClosedBy :
      (kinds : List String) (all : List Event) (i s : ℕ) (ms : List Mark)
      → All (λ (m : Mark). IsBoundary kinds all m.kind m.seq) ms
      → All (IsClosedBy kinds all) (episodes_from events last i s ms)
  unfolding episodes_from episode
  episodes_from-IsClosedBy kinds all i s [] h = elim (Bool-cases (leb s last)) [
    | inl room ↦ rw room (refl, tt)
    | inr over ↦ rw over tt
  ]
  episodes_from-IsClosedBy kinds all i s (m ∷ ms) (b, h) = elim (Bool-cases (leb m.seq s)) [
    | inl passed ↦ rw passed (episodes_from-IsClosedBy kinds all i s ms h)
    | inr ahead ↦ rw ahead (b, episodes_from-IsClosedBy kinds all (i + 1) m.seq ms h)
  ]

  Starts-here : (i s : ℕ) (ms : List Mark) → s ≤ last → Starts s (episodes_from events last i s ms)
  unfolding episodes_from episode
  Starts-here i s [] h = rw (le→leb s last h) (inl refl)
  Starts-here i s (m ∷ ms) h = elim (Bool-cases (leb m.seq s)) [
    | inl passed ↦ rw passed (Starts-here i s ms h)
    | inr ahead ↦ rw ahead (inl refl)
  ]

  skipped :
      (i s : ℕ) (m : Mark) (ms : List Mark)
      → leb m.seq s ≡ true
      → episodes_from events last i s (m ∷ ms) ≡ episodes_from events last i s ms
  unfolding episodes_from
  skipped i s m ms passed = rw passed refl

  cut :
      (i s : ℕ) (m : Mark) (ms : List Mark)
      → leb m.seq s ≡ false
      → episodes_from events last i s (m ∷ ms)
        ≡ episode events i s (m.seq - 1) m.kind (some m.seq)
          ∷ episodes_from events last (i + 1) m.seq ms
  unfolding episodes_from
  cut i s m ms ahead = rw ahead refl

  -- Every mark starts an episode.
  marks-Starts :
      (i s : ℕ) (ms : List Mark)
      → s ≤ last
      → Rises s ms
      → All (λ (m : Mark). m.seq ≤ last) ms
      → All (λ (m : Mark). Starts m.seq (episodes_from events last i s ms)) ms
  unfolding episode
  marks-Starts i s [] h r b = tt
  marks-Starts i s (m ∷ ms) h (le, r) (within, b) = elim (Bool-cases (leb m.seq s)) [
    | inl passed ↦
        let here : s ≡ m.seq = ground arith in
        subst (λ eps. All (λ (x : Mark). Starts x.seq eps) (m ∷ ms)) (sym (skipped i s m ms passed))
          (
            subst (λ n. Starts n (episodes_from events last i s ms)) here (Starts-here i s ms h),
            marks-Starts i s ms h (Rises-weaken s m.seq ms le r) b,
          )
    | inr ahead ↦
        subst (λ eps. All (λ (x : Mark). Starts x.seq eps) (m ∷ ms)) (sym (cut i s m ms ahead))
          (
            inr (Starts-here (i + 1) m.seq ms within),
            All-map (λ (x : Mark). Starts x.seq (episodes_from events last (i + 1) m.seq ms)) _
                (λ (x : Mark) q. inr q) ms (marks-Starts (i + 1) m.seq ms within r b),
          )
  ]

-- How the boundaries of the kinds asked for divide the events.
pub record IsDivision (kinds : List String) (events : List Event) (first last : ℕ)
    (eps : List Episode) : Type 0 where
  pub partition : IsPartition events first last eps
  pub closed : All (IsClosedBy kinds events) eps
  pub opened : (kind : String) (seq : ℕ) → IsBoundary kinds events kind seq → Starts seq eps

-- For events that are not empty and whose numbers never fall, the episodes are numbered from 0 and
-- cover the first to the last number without a gap or an overlap; their spans in order are the
-- events, each exactly once, and each recorded count is the number of events in the span. Each
-- episode but the last is closed by a boundary, an event of one of the kinds asked for, which stands
-- at the next number and names the episode with its kind; the last has the kind of the end. And no
-- boundary is missed: an episode begins at each.
pub extract_episodes-IsDivision :
    (kinds : List String) (e : Event) (es : List Event)
    → Ascends e.seq es
    → IsDivision kinds (e ∷ es) e.seq (last_seq e.seq es) (extract_episodes kinds (e ∷ es))
unfolding extract_episodes boundary_marks
extract_episodes-IsDivision kinds e es a =
    let asc : Ascends e.seq (e ∷ es) = (omega arith, a) in
    let last = last_seq e.seq es in
    let started =
      marks-Starts (e ∷ es) last 0 e.seq (marks_from kinds none (e ∷ es)) (last_seq-ge e.seq es a)
        (marks_from-Rises kinds none e.seq (e ∷ es) asc)
        (marks-bounded kinds (e ∷ es) e.seq none asc) in
    record {
      partition = extract_episodes-IsPartition kinds e es a;
      closed =
          episodes_from-IsClosedBy (e ∷ es) last kinds (e ∷ es) 0 e.seq _
            (marks_from-IsBoundary kinds (e ∷ es) [] (e ∷ es) refl);
      opened = λ kind seq b. opens started kind seq b;
    }
  where
    opens :
        All
          (λ (m : Mark). Starts m.seq (extract_episodes kinds (e ∷ es)))
          (marks_from kinds none (e ∷ es))
        → (kind : String) (seq : ℕ) → IsBoundary kinds (e ∷ es) kind seq
        → Starts seq (extract_episodes kinds (e ∷ es))
    opens h kind seq b =
        subst (λ n. Starts n (extract_episodes kinds (e ∷ es))) b.numbered
          (at_boundary kinds (λ n. Starts n (extract_episodes kinds (e ∷ es))) none b.before b.at
            b.after kind
            (subst
              (λ xs.
                All (λ (m : Mark). Starts m.seq (extract_episodes kinds (e ∷ es)))
                  (marks_from kinds none xs))
              b.splits h)
            b.of_kind b.named b.wanted)
