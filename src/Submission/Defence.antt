-- ===== src/Submission/Defence.antt =====
-- The mitigations that the evidence of an episode raises (tools/saipal_engine/defence.py).
use saipal.Base.{
  ℕ, ◌≡◌, refl, ap, ◌∙◌, sym, inl, inr, Bool, true, false, ◌&&◌, ◌||◌, Option, none, some, List, [],
  ◌∷◌, ◌++◌, String, ◌==◌, string_eq, if◌then◌else◌, contains, contains-append, Bool-cases, eq_iff,
}
use saipal.Base.Dict.{lookup}
use saipal.Analysis.Event.{Fact, flag, text, Event, truthy, same_fact, span}
use saipal.Analysis.Episodes.{Episode, recovers}
use saipal.Analysis.Session.{Temperature, hot, cold}

-- `DEFENCE_CODES`
abbrev pub defence_codes : List String
defence_codes =
    "USER_OVERRIDE" ∷ "LATER_RECOVERY" ∷ "ADAPTER_NORMALIZATION" ∷ "ENVIRONMENT_FAILURE"
    ∷ "SOURCE_OWNER_DOCUMENT" ∷ "SESSION_STILL_HOT" ∷ []

-- `facts.get(key) is True`
abbrev pub is_true : Option Fact → Bool
is_true (some (flag b)) = b
is_true _ = false

abbrev pub is_text : String → Option Fact → Bool
is_text s none = false
is_text s (some value) = same_fact value (text s)

abbrev pub holds : Option Fact → Bool
holds none = false
holds (some value) = truthy value

-- The code that an event raises: each event type has its own.
unfoldable pub raised_by : Event → Option String
raised_by e =
    if e.event_type == "USER_MESSAGE"
    then (if is_true (lookup "override" e.facts) then some "USER_OVERRIDE" else none)
    else if e.event_type == "ERROR"
    then (if recovers e.facts then some "LATER_RECOVERY" else none)
    else if e.event_type == "STATE_SNAPSHOT"
    then (if is_text "adapter_normalization" (lookup "kind" e.facts)
        then some "ADAPTER_NORMALIZATION"
        else none)
    else if e.event_type == "TOOL_CALL" || e.event_type == "TOOL_RESULT"
    then (if holds (lookup "env_failure" e.facts) then some "ENVIRONMENT_FAILURE" else none)
    else if e.event_type == "SESSION_BOUNDARY"
    then (if is_text "owner_doc" (lookup "kind" e.facts)
        then some "SOURCE_OWNER_DOCUMENT"
        else none)
    else none

-- A mitigation with the event that raised it first, or none for the session.
pub record Mitigation : Type 0 where
  pub code : String
  pub seq : Option ℕ

abbrev pub codes : List Mitigation → List String
codes [] = []
codes (m ∷ ms) = m.code ∷ codes ms

abbrev add : String → Option ℕ → List Mitigation → List Mitigation
add code seq surface =
    if contains (codes surface) code
    then surface
    else surface ++ (record { code = code; seq = seq } ∷ [])

abbrev add_raised : Event → Option String → List Mitigation → List Mitigation
add_raised e none surface = surface
add_raised e (some code) surface = add code (some e.seq) surface

unfoldable pub surface_from : List Mitigation → List Event → List Mitigation
surface_from surface [] = surface
surface_from surface (e ∷ es) = surface_from (add_raised e (raised_by e) surface) es

unfoldable pub defence_surface : List Event → Episode → Temperature → List Mitigation
defence_surface events e temperature =
    let surface = surface_from [] (span e.start_seq e.end_seq events) in
    elim temperature [ cold ↦ surface | hot ↦ add "SESSION_STILL_HOT" none surface ]

-- The codes that a candidate does not answer.
unfoldable pub unaddressed : List String → List Mitigation → List String
unaddressed addressed [] = []
unaddressed addressed (m ∷ ms) =
    let rest = unaddressed addressed ms in if contains addressed m.code then rest else m.code ∷ rest

abbrev pub raises : String → Option String → Bool
raises code none = false
raises code (some c) = code == c

-- Is this code raised by one of the events?
abbrev pub is_raised : String → List Event → Bool
is_raised code [] = false
is_raised code (e ∷ es) = raises code (raised_by e) || is_raised code es

codes-append : (ms ns : List Mitigation) → codes (ms ++ ns) ≡ codes ms ++ codes ns
codes-append [] ns = refl
codes-append (m ∷ ms) ns = ap (λ cs. m.code ∷ cs) (codes-append ms ns)

or_true : (b : Bool) → (b || true) ≡ true
or_true true = refl
or_true false = refl

or_false : (b : Bool) → (b || false) ≡ b
or_false true = refl
or_false false = refl

or_assoc : (a b c : Bool) → ((a || b) || c) ≡ (a || (b || c))
or_assoc true b c = refl
or_assoc false b c = refl

contains-add :
    (code c : String) (seq : Option ℕ) (surface : List Mitigation)
    → contains (codes (add c seq surface)) code ≡ (contains (codes surface) code || code == c)
contains-add code c seq surface = elim (Bool-cases (contains (codes surface) c)) [
  | inl known ↦ rw known (elim (Bool-cases (code == c)) [
    | inl same ↦
        let e = (eq_iff code c).0 same in
        rw (same) (ap (contains (codes surface)) e ∙ known ∙ sym (or_true _))
    | inr other ↦ rw other (sym (or_false _))
  ])
  | inr new ↦ rw new (
      ap (λ cs. contains cs code) (codes-append surface (record { code = c; seq = seq } ∷ []))
      ∙ contains-append (codes surface) (c ∷ []) code
      ∙ ap (λ b. contains (codes surface) code || b) (or_false (code == c)))
]

contains-surface_from :
    (code : String) (surface : List Mitigation) (es : List Event)
    → contains (codes (surface_from surface es)) code
      ≡ (contains (codes surface) code || is_raised code es)
unfolding surface_from
contains-surface_from code surface [] = sym (or_false _)
contains-surface_from code surface (e ∷ es) =
    contains-surface_from code (add_raised e (raised_by e) surface) es
    ∙ ap (λ b. b || is_raised code es) (one (raised_by e))
    ∙ or_assoc (contains (codes surface) code) (raises code (raised_by e)) (is_raised code es)
  where
    one :
        (o : Option String)
        → contains (codes (add_raised e o surface)) code
          ≡ (contains (codes surface) code || raises code o)
    one none = sym (or_false _)
    one (some c) = contains-add code c (some e.seq) surface

abbrev pub is_live : Temperature → Bool
is_live hot = true
is_live cold = false

pub contains-defence_surface :
    (code : String) (events : List Event) (e : Episode) (temperature : Temperature)
    → contains (codes (defence_surface events e temperature)) code ≡ (
        is_raised code (span e.start_seq e.end_seq events)
        || (is_live temperature && code == "SESSION_STILL_HOT"))
unfolding defence_surface
contains-defence_surface code events e cold = contains-surface_from code [] _ ∙ sym (or_false _)
contains-defence_surface code events e hot =
    contains-add code "SESSION_STILL_HOT" none (surface_from [] (span e.start_seq e.end_seq events))
    ∙ ap (λ b. b || code == "SESSION_STILL_HOT") (contains-surface_from code [] _)
