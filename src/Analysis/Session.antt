-- ===== src/Analysis/Session.antt =====
-- A session of the index, its semantic position and the units it offers (`unit_digest`,
-- `episode_finality`, `tail_digest`, `semantic_state`, `freshest_records`, `next_unit` and
-- `find_unit` of tools/saipal_engine/carrier.py).
use Prim.Native.String.{compare as compare_text}
use Prim.Native.Nat.{Ordering}
use saipal.Base.{
  ℕ, zero, suc, ◌-◌, min, Bool, true, false, not, ◌&&◌, ◌||◌, Option, none, some, List, [], ◌∷◌,
  String, ◌<>◌, ◌==◌, string_eq, nat_eq, option_eq, ltb, leb, nat_beq, if◌then◌else◌,
}
use saipal.Base.Dict.{Dict, lookup, insert}
use saipal.Analysis.Episodes.{Episode}
use saipal.Analysis.Paging.{episode_slice_count}

-- SHA-256 in hexadecimal and the decimal text, which the program takes from Python.
pub record Digests : Type 0 where
  pub decimal : ℕ → String
  pub sha256_text : String → String

pub data Finality : Type 0 where
  final provisional : Finality

pub data Temperature : Type 0 where
  hot cold : Temperature

-- The semantic position.
pub record Semantic : Type 0 where
  pub next_episode_index : ℕ
  pub next_slice_index : ℕ
  pub exhausted : Bool
  pub submitted : ℕ
  pub no_drift : ℕ
  pub provisional_count : ℕ
  pub tail_reviewed_digest : Option String

-- A session of the index; one whose protocol has no binding status has the text UNKNOWN for it.
pub record Session : Type 0 where
  pub session_id : String
  pub generation : ℕ
  pub bundle_sha256 : String
  pub temperature : Temperature
  pub status : String
  pub updated_at : String
  pub imported_at : String
  pub binding_status : String
  pub episodes : List Episode
  pub semantic : Option Semantic

abbrev pub tail_text : Option String → Option String
tail_text none = none
tail_text (some tail) = if tail == "" then none else some tail

abbrev pub fresh_semantic : Semantic
fresh_semantic = record {
  next_episode_index = 0;
  next_slice_index = 0;
  exhausted = false;
  submitted = 0;
  no_drift = 0;
  provisional_count = 0;
  tail_reviewed_digest = none;
}

-- An absent position is the start, and an empty watermark is none.
abbrev pub read_semantic : Option Semantic → Semantic
read_semantic none = fresh_semantic
read_semantic (some state) = record state {
  tail_reviewed_digest = tail_text state.tail_reviewed_digest;
}

unfoldable pub semantic_state : Session → Semantic
semantic_state s = read_semantic s.semantic

abbrev pub highest_index : List Episode → ℕ
highest_index [] = 0
highest_index (e ∷ es) = let top = highest_index es in if ltb top e.index then e.index else top

-- The tail of a live session is not finished.
abbrev pub tail_finality : List Episode → Episode → Finality
tail_finality [] e = final
tail_finality (f ∷ fs) e = if leb (highest_index (f ∷ fs)) e.index then provisional else final

unfoldable pub episode_finality : Session → Episode → Finality
episode_finality s e = elim s.temperature [ cold ↦ final | hot ↦ tail_finality s.episodes e ]

abbrev pub is_provisional : Finality → Bool
is_provisional final = false
is_provisional provisional = true

module _ (d : Digests) where
  -- The evidence that a unit stands on: the session's generation and content, the span, the slice.
  unfoldable pub unit_digest : Session → Episode → ℕ → String
  unit_digest s e slice_index = d.sha256_text (
      s.session_id
      <> "\0"
      <> d.decimal s.generation
      <> "\0"
      <> s.bundle_sha256
      <> "\0"
      <> d.decimal e.index
      <> "\0"
      <> d.decimal e.start_seq
      <> "\0"
      <> d.decimal e.end_seq
      <> "\0"
      <> d.decimal slice_index)

  unfoldable pub tail_digest : Session → Episode → ℕ → String
  tail_digest s e slice_index = unit_digest s e slice_index

-- `xs[n]`, when there is one.
abbrev pub nth {ℓ} : {A : Type ℓ} → List A → ℕ → Option A
nth [] n = none
nth (x ∷ xs) zero = some x
nth (x ∷ xs) (suc n) = nth xs n

pub record UnitOfWork : Type 0 where
  pub episode : Episode
  pub slice_index : ℕ

-- Does the watermark hold this unit back?
abbrev pub is_held : Digests → Session → Episode → ℕ → Bool
is_held d s e slice_at =
    is_provisional (episode_finality s e)
    && (semantic_state s).tail_reviewed_digest == some (tail_digest d s e slice_at)

abbrev pub offer_from : Digests → ℕ → Session → Semantic → Option Episode → Option UnitOfWork
offer_from d limit s state none = none
offer_from d limit s state (some e) =
    let slice_at = min state.next_slice_index (episode_slice_count e limit - 1) in
    if is_held d s e slice_at then none else some (record { episode = e; slice_index = slice_at })

-- The body of the loop of `next_unit`: what one session offers, if anything.
unfoldable pub offer : Digests → ℕ → Session → Option UnitOfWork
offer d limit s =
    if not (s.status == "IMPORTED") || (semantic_state s).exhausted
    then none
    else offer_from d limit s (semantic_state s)
        (nth s.episodes (semantic_state s).next_episode_index)

-- The newest generation of each session seen so far.
unfoldable pub keep_newest : Dict String Session → Session → Dict String Session
keep_newest best s = elim (lookup s.session_id best) [
  | none ↦ insert s.session_id s best
  | some current ↦ if ltb current.generation s.generation then insert s.session_id s best else best
]

unfoldable pub newest_of : Dict String Session → List Session → Dict String Session
newest_of best [] = best
newest_of best (s ∷ rest) = newest_of (keep_newest best s) rest

abbrev pub values {ℓ κ} : {K : Type ℓ} {V : Type κ} → Dict K V → List V
values [] = []
values ((_, v) ∷ d) = v ∷ values d

unfoldable pub freshest_records : List Session → List Session
freshest_records index = values (newest_of [] index)

abbrev pub text_lt : String → String → Bool
text_lt a b = elim (compare_text a b) [ Ordering.lt ↦ true | _ ↦ false ]

abbrev pub seen_at : Session → String
seen_at s = if s.updated_at == "" then s.imported_at else s.updated_at

-- The order of the keys `(updated_at or imported_at or "", generation)`.
abbrev key_lt : Session → Session → Bool
key_lt s t =
    text_lt (seen_at s) (seen_at t) || (seen_at s == seen_at t && ltb s.generation t.generation)

-- The order of the keys `(generation, updated_at or imported_at or "")`.
abbrev pub generation_lt : Session → Session → Bool
generation_lt s t =
    ltb s.generation t.generation
    || (nat_beq s.generation t.generation && text_lt (seen_at s) (seen_at t))

abbrev insert_newest : Session → List Session → List Session
insert_newest s [] = s ∷ []
insert_newest s (t ∷ ts) =
    let later = insert_newest s ts in if key_lt s t then t ∷ later else s ∷ t ∷ ts

-- `sorted(…, reverse=True)`: the largest key first, equal keys in their order.
unfoldable pub newest_first : List Session → List Session
newest_first [] = []
newest_first (s ∷ ss) = insert_newest s (newest_first ss)

abbrev pub first_offer : Digests → ℕ → List Session → Option (Session × UnitOfWork)
first_offer d limit [] = none
first_offer d limit (s ∷ ss) = elim (offer d limit s) [
  | none ↦ first_offer d limit ss
  | some u ↦ some (s, u)
]

unfoldable pub next_unit : Digests → ℕ → List Session → Option (Session × UnitOfWork)
next_unit d limit index = first_offer d limit (newest_first (freshest_records index))

-- `max(…)` of the sessions with this id, the first of the largest, with its place in the index.
abbrev pub larger : Session → Option (ℕ × Session) → Option (ℕ × Session)
larger s none = some (0, s)
larger s (some (n, t)) = if generation_lt s t then some (suc n, t) else some (0, s)

abbrev pub shift : Option (ℕ × Session) → Option (ℕ × Session)
shift none = none
shift (some (n, t)) = some (suc n, t)

unfoldable pub pick_newest : String → List Session → Option (ℕ × Session)
pick_newest id [] = none
pick_newest id (s ∷ ss) =
    let rest = pick_newest id ss in if s.session_id == id then larger s rest else shift rest

abbrev pub find_episode : ℕ → List Episode → Option Episode
find_episode i [] = none
find_episode i (e ∷ es) = if e.index == i then some e else find_episode i es

-- The named session and its episode, each if it is there.
unfoldable pub find_unit : List Session → String → ℕ → Option (ℕ × Session × Option Episode)
find_unit index id i = elim (pick_newest id index) [
  | none ↦ none
  | some (n, s) ↦ some (n, s, find_episode i s.episodes)
]
