-- ===== src/Analysis/Forward.antt =====
-- The semantic position only moves forward, and the same verdict moves it once
-- (`_advance_semantic` of tools/saipal_engine/submit.py).
use saipal.Base.{
  ℕ, ◌+◌, ◌-◌, ◌≤◌, ◌<◌, ◌≡◌, refl, ap, inl, inr, ◌⊎◌, true, false, Option, none, some, List,
  String, ◌==◌, string_eq, ltb, leb, length, max, arith, Bool-cases, le→leb, ◌∙◌,
}
use saipal.Analysis.Episodes.{Episode}
use saipal.Analysis.Session.{
  Digests, Finality, final, provisional, Semantic, Session, read_semantic, semantic_state,
  tail_digest, unit_digest, tail_text,
}
use saipal.Analysis.Advance.{
  Receipt, tally, hold_tail, close_episode, pass_slice, moved, advance_semantic,
}

-- What no advance undoes: the position in order, and a watermark or an exhaustion reached.
pub record IsForward (old new : Semantic) : Type 0 where
  pub episode : old.next_episode_index ≤ new.next_episode_index
  pub slice :
      (old.next_episode_index < new.next_episode_index)
      ⊎ (old.next_slice_index ≤ new.next_slice_index)

pub pass_slice_behind :
    (state : Semantic) (index slice_index count total : ℕ)
    → index < state.next_episode_index
    → pass_slice state index slice_index count total ≡ state
unfolding pass_slice
pass_slice_behind state index slice_index count total h = ground arith

pub pass_slice_more :
    (state : Semantic) (index slice_index count total : ℕ)
    → state.next_episode_index ≤ index
    → slice_index + 1 < count
    → pass_slice state index slice_index count total
      ≡ record state { next_slice_index = max state.next_slice_index (slice_index + 1) }
unfolding pass_slice
pass_slice_more state index slice_index count total h more = ground arith

pub pass_slice_last :
    (state : Semantic) (index slice_index count total : ℕ)
    → state.next_episode_index ≤ index
    → count ≤ slice_index + 1
    → pass_slice state index slice_index count total ≡ record state {
      next_episode_index = index + 1;
      next_slice_index = 0;
      exhausted = leb total (index + 1);
      tail_reviewed_digest = none;
    }
unfolding pass_slice close_episode
pass_slice_last state index slice_index count total h last =
    let here : leb state.next_episode_index index ≡ true = le→leb _ _ h in
    let there : leb (index + 1 - 1) index ≡ true = le→leb _ _ (omega arith) in
    let not_behind : ltb index state.next_episode_index ≡ false = ground arith in
    let not_more : ltb (slice_index + 1) count ≡ false = ground arith in
    rw (not_behind, not_more, here, there) refl

-- Where a final verdict stands against the position.
pub pass_slice-cases :
    (state : Semantic) (index slice_index count : ℕ)
    → (index < state.next_episode_index)
      ⊎ ((state.next_episode_index ≤ index)
          × ((slice_index + 1 < count) ⊎ (count ≤ slice_index + 1)))
pass_slice-cases state index slice_index count = ground arith

pass_slice-IsForward :
    (state : Semantic) (index slice_index count total : ℕ)
    → IsForward state (pass_slice state index slice_index count total)
pass_slice-IsForward state index slice_index count total =
    elim (pass_slice-cases state index slice_index count) [
      | inl h ↦
          rw (pass_slice_behind state index slice_index count total h)
            (record { episode = omega arith; slice = inr (omega arith) })
      | inr (h, inl more) ↦
          rw (pass_slice_more state index slice_index count total h more)
            (record { episode = omega arith; slice = inr (omega arith) })
      | inr (h, inr last) ↦
          rw (pass_slice_last state index slice_index count total h last)
            (record { episode = omega arith; slice = inl (omega arith) })
    ]

-- Moving past the same verdict again changes nothing.
pass_slice_idem :
    (state : Semantic) (index slice_index count total : ℕ)
    → let once = pass_slice state index slice_index count total in
      pass_slice once index slice_index count total ≡ once
pass_slice_idem state index slice_index count total =
    elim (pass_slice-cases state index slice_index count) [
      | inl h ↦
          rw (pass_slice_behind state index slice_index count total h)
            (pass_slice_behind state index slice_index count total h)
      | inr (h, inl more) ↦ rw (pass_slice_more state index slice_index count total h more) (
          pass_slice_more _ index slice_index count total h more
          ∙ ap (λ n. record state { next_slice_index = n }) (omega arith))
      | inr (h, inr last) ↦
          rw (pass_slice_last state index slice_index count total h last)
            (pass_slice_behind _ index slice_index count total (omega arith))
    ]

hold_tail_behind :
    (state : Semantic) (index slice_index count : ℕ) (digest : String)
    → index < state.next_episode_index
    → slice_index + 1 < count
    → hold_tail state index slice_index count digest ≡ state
unfolding hold_tail
hold_tail_behind state index slice_index count digest h more = ground arith

pub hold_tail_more :
    (state : Semantic) (index slice_index count : ℕ) (digest : String)
    → state.next_episode_index ≤ index
    → slice_index + 1 < count
    → hold_tail state index slice_index count digest
      ≡ record state { next_slice_index = max state.next_slice_index (slice_index + 1) }
unfolding hold_tail
hold_tail_more state index slice_index count digest h more = ground arith

pub hold_tail_last :
    (state : Semantic) (index slice_index count : ℕ) (digest : String)
    → count ≤ slice_index + 1
    → hold_tail state index slice_index count digest
      ≡ record state { tail_reviewed_digest = some digest }
unfolding hold_tail
hold_tail_last state index slice_index count digest last = ground arith

-- Where a provisional verdict stands against the position.
hold_tail-cases :
    (state : Semantic) (index slice_index count : ℕ)
    → ((index < state.next_episode_index) × (slice_index + 1 < count))
      ⊎ ((state.next_episode_index ≤ index) × (slice_index + 1 < count))
      ⊎ (count ≤ slice_index + 1)
hold_tail-cases state index slice_index count = ground arith

-- A watermark that reads back as it is written.
abbrev IsClean : Semantic → Type 0
IsClean state = tail_text state.tail_reviewed_digest ≡ state.tail_reviewed_digest

moved-IsForward :
    (f : Finality) (state : Semantic) (index slice_index count total : ℕ) (digest : String)
    → IsForward state (moved f state index slice_index count total digest)
moved-IsForward final state index slice_index count total digest =
    pass_slice-IsForward state index slice_index count total
moved-IsForward provisional state index slice_index count total digest =
    elim (hold_tail-cases state index slice_index count) [
      | inl (h, more) ↦
          rw (hold_tail_behind state index slice_index count digest h more)
            (record { episode = omega arith; slice = inr (omega arith) })
      | inr (inl (h, more)) ↦
          rw (hold_tail_more state index slice_index count digest h more)
            (record { episode = omega arith; slice = inr (omega arith) })
      | inr (inr last) ↦
          rw (hold_tail_last state index slice_index count digest last)
            (record { episode = omega arith; slice = inr (omega arith) })
    ]

-- No verdict, on whichever episode and slice, of whichever finality and with whichever receipts,
-- moves the position back: to an earlier episode, or to an earlier slice of the same one.
pub advance_semantic-IsForward :
    (d : Digests) (s : Session) (e : Episode) (f : Finality) (receipts : List Receipt)
    (slice_index count : ℕ)
    → IsForward
        (semantic_state s)
        (semantic_state (advance_semantic d s e f receipts slice_index count))
unfolding advance_semantic semantic_state
advance_semantic-IsForward d s e f receipts slice_index count =
    let state = tally receipts s.session_id (read_semantic s.semantic) in
    let m =
      moved-IsForward f state e.index slice_index count (length s.episodes)
        (tail_digest d s e slice_index) in
    record { episode = m.episode; slice = m.slice }

read_clean : (state : Semantic) → IsClean state → read_semantic (some state) ≡ state
read_clean state clean = ap (λ t. record state { tail_reviewed_digest = t }) clean

pass_slice-IsClean :
    (state : Semantic) (index slice_index count total : ℕ)
    → IsClean state
    → IsClean (pass_slice state index slice_index count total)
pass_slice-IsClean state index slice_index count total clean =
    elim (pass_slice-cases state index slice_index count) [
      | inl h ↦ rw (pass_slice_behind state index slice_index count total h) clean
      | inr (h, inl more) ↦ rw (pass_slice_more state index slice_index count total h more) clean
      | inr (h, inr last) ↦ rw (pass_slice_last state index slice_index count total h last) refl
    ]

moved_idem :
    (f : Finality) (state : Semantic) (index slice_index count total : ℕ) (digest : String)
    → IsClean state
    → let once = moved f state index slice_index count total digest in
      moved f (read_semantic (some once)) index slice_index count total digest ≡ once
moved_idem final state index slice_index count total digest clean =
    ap (λ t. pass_slice t index slice_index count total)
      (read_clean _ (pass_slice-IsClean state index slice_index count total clean))
    ∙ pass_slice_idem state index slice_index count total
moved_idem provisional state index slice_index count total digest clean =
    elim (hold_tail-cases state index slice_index count) [
      | inl (h, more) ↦
          let same = hold_tail_behind state index slice_index count digest h more in
          rw same
            (ap (λ t. hold_tail t index slice_index count digest) (read_clean state clean) ∙ same)
      | inr (inl (h, more)) ↦ rw (hold_tail_more state index slice_index count digest h more) (
          ap (λ t. hold_tail t index slice_index count digest) (read_clean _ clean)
          ∙ hold_tail_more _ index slice_index count digest h more
          ∙ ap (λ n. record state { next_slice_index = n }) (omega arith))
      | inr (inr last) ↦
          rw (hold_tail_last state index slice_index count digest last)
            (hold_tail_last _ index slice_index count digest last)
    ]

-- The tallies stay what the receipts count.
moved-tally :
    (f : Finality) (receipts : List Receipt) (id : String) (old : Semantic)
    (index slice_index count total : ℕ) (digest : String)
    → let after = moved f (tally receipts id old) index slice_index count total digest in
      tally receipts id after ≡ after
moved-tally final receipts id old index slice_index count total digest =
    let state = tally receipts id old in
    elim (pass_slice-cases state index slice_index count) [
      | inl h ↦ rw (pass_slice_behind state index slice_index count total h) refl
      | inr (h, inl more) ↦ rw (pass_slice_more state index slice_index count total h more) refl
      | inr (h, inr last) ↦ rw (pass_slice_last state index slice_index count total h last) refl
    ]
moved-tally provisional receipts id old index slice_index count total digest =
    let state = tally receipts id old in
    elim (hold_tail-cases state index slice_index count) [
      | inl (h, more) ↦ rw (hold_tail_behind state index slice_index count digest h more) refl
      | inr (inl (h, more)) ↦ rw (hold_tail_more state index slice_index count digest h more) refl
      | inr (inr last) ↦ rw (hold_tail_last state index slice_index count digest last) refl
    ]

tail_text_idem : (t : Option String) → tail_text (tail_text t) ≡ tail_text t
tail_text_idem none = refl
tail_text_idem (some t) = elim (Bool-cases (t == "")) [
  | inl empty ↦ rw empty refl
  | inr given ↦ rw given (rw given refl)
]

read-IsClean : (state : Option Semantic) → IsClean (read_semantic state)
read-IsClean none = refl
read-IsClean (some state) = tail_text_idem state.tail_reviewed_digest

-- A verdict that is applied again, with the same receipts, changes nothing: the retry of a crashed
-- submission converges.
pub advance_semantic_idem :
    (d : Digests) (s : Session) (e : Episode) (f : Finality) (receipts : List Receipt)
    (slice_index count : ℕ)
    → let once = advance_semantic d s e f receipts slice_index count in
      advance_semantic d once e f receipts slice_index count ≡ once
unfolding advance_semantic semantic_state tail_digest unit_digest
advance_semantic_idem d s e f receipts slice_index count =
    let state = tally receipts s.session_id (read_semantic s.semantic) in
    let digest = tail_digest d s e slice_index in
    let total = length s.episodes in
    let kept =
      moved-tally f receipts s.session_id (read_semantic s.semantic) e.index slice_index count total
        digest in
    let again =
      ap (λ t. moved f (read_semantic (some t)) e.index slice_index count total digest) kept
      ∙ moved_idem f state e.index slice_index count total digest (read-IsClean s.semantic) in
    ap (λ t. record s { semantic = some t }) again
