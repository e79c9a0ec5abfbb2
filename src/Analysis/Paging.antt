-- ===== src/Analysis/Paging.antt =====
-- An episode handed over in bounded slices (`slice_count`, `episode_slice_count` and
-- `_episode_events` of tools/saipal_engine/carrier.py).
use saipal.Base.{
  append-nil, ℕ, zero, suc, ◌+◌, ◌-◌, ◌*◌, ◌/◌, ◌≤◌, ◌<◌, min, ◌≡◌, refl, sym, ap, ◌∙◌, inl, inr,
  Bool, not, ◌||◌, Option, none, some, List, [], ◌∷◌, ◌++◌, ltb, leb, if◌then◌else◌, length, drop,
  length-drop, arith, Bool-cases, leb→le, leb_false→lt,
}
use native.Mathlib.Nat.{div-eq-sub-div, div-eq_of_lt}
use saipal.Analysis.Event.{Event, span}
use saipal.Analysis.Episodes.{Episode}

unfoldable pub slice_count : ℕ → ℕ → ℕ
slice_count events limit = if leb events 0 || leb limit 0 then 1 else (events + limit - 1) / limit

-- An episode has its count, as `extract_episodes` writes it.
unfoldable pub episode_slice_count : Episode → ℕ → ℕ
episode_slice_count e limit = slice_count e.event_count limit

-- `xs[:n]`
abbrev pub take {ℓ} : {A : Type ℓ} → ℕ → List A → List A
take zero xs = []
take (suc n) [] = []
take (suc n) (x ∷ xs) = x ∷ take n xs

abbrev pub first_seq? : List Event → Option ℕ
first_seq? [] = none
first_seq? (e ∷ es) = some e.seq

abbrev pub last_seq? : List Event → Option ℕ
last_seq? [] = none
last_seq? (e ∷ []) = some e.seq
last_seq? (e ∷ f ∷ es) = last_seq? (f ∷ es)

-- The identity of a slice.
pub record Slice : Type 0 where
  pub index : ℕ
  pub count : ℕ
  pub offset : ℕ
  pub span_event_count : ℕ
  pub start_seq : Option ℕ
  pub end_seq : Option ℕ
  pub final_slice : Bool

-- The events handed over, whether more follow, and which slice it is.
pub record Handed : Type 0 where
  pub window : List Event
  pub truncated : Bool
  pub slice : Slice

unfoldable pub window_of : List Event → ℕ → ℕ → Handed
window_of events limit slice_index =
    let total = slice_count (length events) limit in
    let index = min slice_index (total - 1) in
    let offset = if ltb 0 limit then index * limit else 0 in
    let window = if ltb 0 limit then take limit (drop offset events) else events in
    record {
      window = window;
      truncated = ltb (offset + length window) (length events);
      slice = record {
        index = index;
        count = total;
        offset = offset;
        span_event_count = length events;
        start_seq = first_seq? window;
        end_seq = last_seq? window;
        final_slice = leb (total - 1) index;
      };
    }

unfoldable pub episode_events : List Event → Episode → ℕ → ℕ → Handed
episode_events events e limit slice_index =
    window_of (span e.start_seq e.end_seq events) limit slice_index

-- The count by its recurrence: one slice for what fits, one more for what does not.
pub slice_count_fits :
    (events limit : ℕ) → 0 < limit → events ≤ limit → slice_count events limit ≡ 1
unfolding slice_count
slice_count_fits zero limit p h = refl
slice_count_fits (suc n) limit p h = ground (
  arith,
  div-eq-sub-div {m = limit} {n = suc n + limit - 1} p (omega arith),
  div-eq_of_lt {n = suc n + limit - 1 - limit} {m = limit} (omega arith),
)

pub slice_count_more :
    (events limit : ℕ)
    → 0 < limit
    → limit < events
    → slice_count events limit ≡ suc (slice_count (events - limit) limit)
unfolding slice_count
slice_count_more events limit p h =
    let same : events + limit - 1 - limit ≡ events - limit + limit - 1 = omega arith in
    let step : (events + limit - 1) / limit ≡ (events + limit - 1 - limit) / limit + 1 =
      div-eq-sub-div p (omega arith) in
    ground (arith, rw same at step)

pub slice_count-pos : (events limit : ℕ) → 0 < limit → 0 < slice_count events limit
slice_count-pos events limit p = elim (Bool-cases (leb events limit)) [
  | inl fits ↦ omega (arith, slice_count_fits events limit p (leb→le events limit fits))
  | inr more ↦ omega (arith, slice_count_more events limit p (leb_false→lt events limit more))
]

-- The events of the slices `from` to `from + n - 1`, in order.
abbrev pub pages : List Event → ℕ → ℕ → ℕ → List Event
pages events limit from zero = []
pages events limit from (suc n) =
    (window_of events limit from).window ++ pages events limit (suc from) n

take_all {ℓ} : {A : Type ℓ} (n : ℕ) (xs : List A) → length xs ≤ n → take n xs ≡ xs
take_all zero [] h = refl
take_all zero (x ∷ xs) h = absurd (omega arith)
take_all (suc n) [] h = refl
take_all (suc n) (x ∷ xs) h = ap (λ ys. x ∷ ys) (take_all n xs (omega arith))

take-drop {ℓ} : {A : Type ℓ} (n : ℕ) (xs : List A) → take n xs ++ drop n xs ≡ xs
take-drop zero xs = refl
take-drop (suc n) [] = refl
take-drop (suc n) (x ∷ xs) = ap (λ ys. x ∷ ys) (take-drop n xs)

drop-nil {ℓ} : {A : Type ℓ} (n : ℕ) → drop {A = A} n [] ≡ []
drop-nil zero = refl
drop-nil (suc n) = refl

drop-drop {ℓ} : {A : Type ℓ} (m n : ℕ) (xs : List A) → drop n (drop m xs) ≡ drop (m + n) xs
drop-drop zero n xs = ap (λ k. drop k xs) (omega arith)
drop-drop (suc m) n [] = drop-nil n ∙ sym (drop-nil (suc m + n))
drop-drop (suc m) n (x ∷ xs) =
    let shift : suc m + n ≡ suc (m + n) = omega arith in rw shift (drop-drop m n xs)

-- A page within the count is the page's stretch of the list.
window_of-page :
    (events : List Event) (limit i : ℕ)
    → 0 < limit
    → i < slice_count (length events) limit
    → (window_of events limit i).window ≡ take limit (drop (i * limit) events)
unfolding window_of
window_of-page events limit i p h =
    let at : min i (slice_count (length events) limit - 1) ≡ i = omega arith in ground arith

pages-drop :
    (events : List Event) (limit from n : ℕ)
    → 0 < limit
    → n ≡ slice_count (length (drop (from * limit) events)) limit
    → from + n ≡ slice_count (length events) limit
    → pages events limit from n ≡ drop (from * limit) events
pages-drop events limit from zero p here total =
    absurd (omega (arith, slice_count-pos (length (drop (from * limit) events)) limit p))
pages-drop events limit from (suc n) p here total =
    let rest = drop (from * limit) events in
    let page = window_of-page events limit from p (omega arith) in
    let next : drop limit rest ≡ drop (suc from * limit) events =
      drop-drop (from * limit) limit events ∙ ap (λ k. drop k events) (omega arith) in
    elim (Bool-cases (leb (length rest) limit)) [
      | inl fits ↦
          let small = leb→le (length rest) limit fits in
          let only : n ≡ 0 = omega (arith, slice_count_fits (length rest) limit p small) in
          rw (only, page) (append-nil _ ∙ take_all limit rest small)
      | inr more ↦
          let large = leb_false→lt (length rest) limit more in
          let fewer : length (drop (suc from * limit) events) ≡ length rest - limit =
            ap length (sym next) ∙ length-drop limit rest in
          let later =
            pages-drop events limit (suc from) n p
              (rw fewer (omega (arith, here, slice_count_more (length rest) limit p large)))
              (omega arith) in
          rw (page, later) (ap (λ ys. take limit rest ++ ys) (sym next) ∙ take-drop limit rest)
    ]

-- For a positive limit, the windows of the slices 0 up to the slice count, in order, are the
-- events: none is left out and none is handed over twice.
pub pages_all :
    (events : List Event) (limit : ℕ)
    → 0 < limit
    → pages events limit 0 (slice_count (length events) limit) ≡ events
pages_all events limit p =
    let start : 0 * limit ≡ 0 = omega arith in
    let from_start : drop (0 * limit) events ≡ events = rw start refl in
    pages-drop events limit 0 (slice_count (length events) limit) p
      (ap (λ xs. slice_count (length xs) limit) (sym from_start)) (omega arith)
    ∙ from_start

length-take {ℓ} : {A : Type ℓ} (n : ℕ) (xs : List A) → length (take n xs) ≡ min n (length xs)
length-take zero xs = omega arith
length-take (suc n) [] = omega arith
length-take (suc n) (x ∷ xs) = omega (arith, length-take n xs)

-- A window that can be handed over: within the limit, and it says that more events follow exactly
-- when it is not the last slice.
pub record IsWindow (events : List Event) (limit : ℕ) (h : Handed) : Type 0 where
  pub bounded : length h.window ≤ limit
  pub in_count : h.slice.index < h.slice.count
  pub more_iff_not_last : h.truncated ≡ not h.slice.final_slice

slices_cover :
    (n limit i : ℕ)
    → 0 < limit
    → i < slice_count n limit
    → ltb (i * limit + min limit (n - i * limit)) n ≡ not (leb (slice_count n limit - 1) i)
slices_cover n limit zero p h = elim (Bool-cases (leb n limit)) [
  | inl fits ↦ ground (arith, slice_count_fits n limit p (leb→le n limit fits))
  | inr more ↦
      let large = leb_false→lt n limit more in
      ground (arith, slice_count_more n limit p large, slice_count-pos (n - limit) limit p)
]
slices_cover n limit (suc i) p h = elim (Bool-cases (leb n limit)) [
  | inl fits ↦ absurd (omega (arith, slice_count_fits n limit p (leb→le n limit fits)))
  | inr more ↦
      let large = leb_false→lt n limit more in
      let count = slice_count_more n limit p large in
      ground (arith, count, slices_cover (n - limit) limit i p (omega (arith, count)))
]

-- For a positive limit and any requested slice, the window has at most `limit` events, its slice is
-- one of the count, and it says that more events follow exactly when it is not the last slice.
pub window_of-IsWindow :
    (events : List Event) (limit i : ℕ)
    → 0 < limit
    → IsWindow events limit (window_of events limit i)
unfolding window_of
window_of-IsWindow events limit i p =
    let count = slice_count (length events) limit in
    let pos = slice_count-pos (length events) limit p in
    let index = min i (count - 1) in
    let within : index < count = omega arith in
    record {
      bounded = ground (arith, length-take limit (drop (index * limit) events));
      in_count = within;
      more_iff_not_last = ground (
        arith,
        length-take limit (drop (index * limit) events),
        length-drop (index * limit) events,
        slices_cover (length events) limit index p within,
      );
    }
