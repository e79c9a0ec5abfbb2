-- ===== src/Analysis/Marks.antt =====
-- Which events are boundaries, and the marks that are made of them (`boundary_marks` of
-- tools/saipal_engine/episodes.py).
use saipal.Base.{
  ℕ, ◌≤◌, ◌≡◌, refl, sym, ap, ◌∙◌, ◌≢◌, inl, inr, Bool, true, false, Option, none, some, List, [],
  ◌∷◌, ◌++◌, String, ◌==◌, string_eq, All, arith, beq_ne, Bool-cases, contains, if◌then◌else◌,
  eq_iff, append_assoc,
}
use mathlib.Core.Path.{subst}
use saipal.Analysis.Event.{Event, Ascends}
use saipal.Analysis.Episodes.{Mark, Seen, marks_from, kind_of, marks_kind, name_of, see_work}

-- The work that the events before have shown last.
abbrev pub work_before : Seen → List Event → Seen
work_before seen [] = seen
work_before seen (e ∷ es) = work_before (see_work e seen) es

-- An event with this number is a boundary of this kind, one of the kinds that are asked for.
pub record IsBoundary (kinds : List String) (events : List Event) (kind : String) (seq : ℕ)
    : Type 0 where
  pub before : List Event
  pub at : Event
  pub after : List Event
  pub splits : events ≡ before ++ (at ∷ after)
  pub numbered : at.seq ≡ seq
  pub of_kind : kind_of (work_before none before) at ≡ some kind
  pub named : kind ≢ ""
  pub wanted : contains kinds kind ≡ true

work_before-append :
    (seen : Seen) (es : List Event) (e : Event)
    → work_before seen (es ++ (e ∷ [])) ≡ see_work e (work_before seen es)
work_before-append seen [] e = refl
work_before-append seen (x ∷ es) e = work_before-append (see_work x seen) es e

-- A mark is made exactly for a kind that is named and wanted.
module _ (kinds : List String) where
  marked :
      (o : Option String)
      → marks_kind kinds o ≡ true
      → (o ≡ some (name_of o)) × (name_of o ≢ "") × (contains kinds (name_of o) ≡ true)
  marked none h = cc
  marked (some k) h = elim (Bool-cases (k == "")) [
    | inl empty ↦ absurd (clash (rw empty at h))
    | inr named ↦ (refl, (λ e. clash (sym named ∙ (eq_iff k "").1 e)), rw named at h)
  ]
    where
      clash : false ≡ true → ⊥
      clash e = cc

  marks : (k : String) → k ≢ "" → contains kinds k ≡ true → marks_kind kinds (some k) ≡ true
  marks k named wanted = rw (beq_ne k "" named) wanted

  -- Every mark is a boundary of the events.
  pub marks_from-IsBoundary :
      (all before es : List Event)
      → all ≡ before ++ es
      → All
          (λ (m : Mark). IsBoundary kinds all m.kind m.seq)
          (marks_from kinds (work_before none before) es)
  unfolding marks_from
  marks_from-IsBoundary all before [] split = tt
  marks_from-IsBoundary all before (e ∷ es) split =
      let seen = work_before none before in
      let later =
        subst (λ s. All (λ (m : Mark). IsBoundary kinds all m.kind m.seq) (marks_from kinds s es))
          (work_before-append none before e)
          (marks_from-IsBoundary all (before ++ (e ∷ [])) es
            (split ∙ sym (append_assoc before (e ∷ []) es))) in
      elim (Bool-cases (marks_kind kinds (kind_of seen e))) [
        | inr plain ↦ rw plain later
        | inl mark ↦
            let (of_kind, named, wanted) = marked (kind_of seen e) mark in
            rw mark (
              record {
                before = before;
                at = e;
                after = es;
                splits = split;
                numbered = refl;
                of_kind = of_kind;
                named = named;
                wanted = wanted;
              },
              later,
            )
      ]

  -- What holds of every mark holds of every boundary.
  pub at_boundary :
      (Q : ℕ → Type 0) (seen : Seen) (before : List Event) (b : Event) (after : List Event)
      (k : String)
      → All (λ (m : Mark). Q m.seq) (marks_from kinds seen (before ++ (b ∷ after)))
      → kind_of (work_before seen before) b ≡ some k
      → k ≢ ""
      → contains kinds k ≡ true
      → Q b.seq
  unfolding marks_from
  at_boundary Q seen [] b after k h of_kind named wanted =
      let mark : marks_kind kinds (kind_of seen b) ≡ true =
        ap (marks_kind kinds) of_kind ∙ marks k named wanted in
      (rw mark at h).0
  at_boundary Q seen (x ∷ before) b after k h of_kind named wanted =
      at_boundary Q (see_work x seen) before b after k (rest (marks_kind kinds (kind_of seen x)) h)
        of_kind named wanted
    where
      rest :
          (c : Bool)
          → All
              (λ (m : Mark). Q m.seq)
              (if c
                then record { seq = x.seq; kind = name_of (kind_of seen x) }
                  ∷ marks_from kinds (see_work x seen) (before ++ (b ∷ after))
                else marks_from kinds (see_work x seen) (before ++ (b ∷ after)))
          → All (λ (m : Mark). Q m.seq) (marks_from kinds (see_work x seen) (before ++ (b ∷ after)))
      rest true q = q.1
      rest false q = q

abbrev pub Rises : ℕ → List Mark → Type 0
Rises low [] = Unit
Rises low (m ∷ ms) = (low ≤ m.seq) × Rises m.seq ms

pub Rises-weaken : (a b : ℕ) (ms : List Mark) → a ≤ b → Rises b ms → Rises a ms
Rises-weaken a b [] h r = tt
Rises-weaken a b (m ∷ ms) h (le, r) = (omega arith, r)

pub marks_from-Rises :
    (kinds : List String) (seen : Seen) (low : ℕ) (es : List Event)
    → Ascends low es
    → Rises low (marks_from kinds seen es)
unfolding marks_from
marks_from-Rises kinds seen low [] a = tt
marks_from-Rises kinds seen low (e ∷ es) (le, a) =
    let later = marks_from-Rises kinds (see_work e seen) e.seq es a in
    elim (Bool-cases (marks_kind kinds (kind_of seen e))) [
      | inl mark ↦ rw mark (le, later)
      | inr plain ↦ rw plain (Rises-weaken low e.seq _ le later)
    ]
