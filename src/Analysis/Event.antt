-- ===== src/Analysis/Event.antt =====
-- A normalized event, and the events of a stretch of sequence numbers
-- (tools/saipal_engine/episodes.py; the range test of `_episode_events` in carrier.py).
use saipal.Base.{
  ℕ, ◌+◌, ◌≤◌, ◌<◌, ◌≡◌, refl, inl, inr, Bool, true, false, ◌&&◌, Option, List, [], ◌∷◌, ◌++◌,
  String, ◌==◌, string_eq, nat_beq, ltb, leb, if◌then◌else◌, keep_if, arith, Bool-cases,
}
use saipal.Base.Dict.{Dict}

-- A value of an event's `facts`; a nested one is kept as its text.
pub data Fact : Type 0 where
  null : Fact
  flag : Bool → Fact
  number : ℕ → Fact
  text : String → Fact

-- `not work is None`
abbrev pub is_given : Fact → Bool
is_given null = false
is_given _ = true

-- The truth of a value.
abbrev pub truthy : Fact → Bool
truthy null = false
truthy (flag b) = b
truthy (number n) = ltb 0 n
truthy (text s) = if s == "" then false else true

abbrev bit : Bool → ℕ
bit true = 1
bit false = 0

-- `==`, for which a flag is a number.
abbrev pub same_fact : Fact → Fact → Bool
same_fact null null = true
same_fact (flag a) (flag b) = nat_beq (bit a) (bit b)
same_fact (flag a) (number n) = nat_beq (bit a) n
same_fact (number n) (flag a) = nat_beq n (bit a)
same_fact (number m) (number n) = nat_beq m n
same_fact (text s) (text t) = s == t
same_fact _ _ = false

abbrev pub Facts : Type 0
Facts = Dict String Fact

pub record Event : Type 0 where
  pub seq : ℕ
  pub event_type : String
  pub facts : Facts
  pub evidence_ref : Option Facts

-- No sequence number is below `low` or below the one before it.
abbrev pub Ascends : ℕ → List Event → Type 0
Ascends low [] = Unit
Ascends low (e ∷ es) = (low ≤ e.seq) × Ascends e.seq es

abbrev pub in_range : ℕ → ℕ → Event → Bool
in_range start end e = leb start e.seq && leb e.seq end

-- The events of `[start, end]`, in order.
abbrev pub span : ℕ → ℕ → List Event → List Event
span start end es = keep_if (in_range start end) es

pub Ascends-weaken : (a b : ℕ) (es : List Event) → a ≤ b → Ascends b es → Ascends a es
Ascends-weaken a b [] h s = tt
Ascends-weaken a b (e ∷ es) h (le, s) = (omega arith, s)

-- No event of a later stretch is in range.
pub span_before :
    (start end low : ℕ) (es : List Event) → end < low → Ascends low es → span start end es ≡ []
span_before start end low [] h s = refl
span_before start end low (e ∷ es) h (le, s) =
    ground (arith, span_before start end e.seq es (omega arith) s)

-- Two stretches that meet give the events of both, in order.
pub span-append :
    (a b c low : ℕ) (es : List Event)
    → a ≤ b + 1
    → b ≤ c
    → Ascends low es
    → span a b es ++ span (b + 1) c es ≡ span a c es
span-append a b c low [] ab bc s = refl
span-append a b c low (e ∷ es) ab bc (le, s) = elim (Bool-cases (leb e.seq b)) [
  | inl early ↦ ground (arith, span-append a b c e.seq es ab bc s)
  | inr late ↦
      let none_left = span_before a b e.seq es (omega (arith, past e.seq b late)) s in
      let later = span-append a b c e.seq es ab bc s in
      ground (arith, none_left, rw none_left at later)
]
  where
    past : (m n : ℕ) → leb m n ≡ false → n < m
    past m n h = ground arith

-- The last of the sequence numbers, from the one before.
abbrev pub last_seq : ℕ → List Event → ℕ
last_seq seq [] = seq
last_seq seq (e ∷ es) = last_seq e.seq es

pub last_seq-ge : (low : ℕ) (es : List Event) → Ascends low es → low ≤ last_seq low es
last_seq-ge low [] s = omega arith
last_seq-ge low (e ∷ es) (le, s) = omega (arith, last_seq-ge e.seq es s)

-- The whole stretch is every event.
pub span_all :
    (a low : ℕ) (es : List Event) → a ≤ low → Ascends low es → span a (last_seq low es) es ≡ es
span_all a low [] h s = refl
span_all a low (e ∷ es) h (le, s) =
    ground (arith, span_all a e.seq es (omega arith) s, last_seq-ge e.seq es s)
