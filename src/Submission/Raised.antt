-- ===== src/Submission/Raised.antt =====
-- The mitigations against the table of what each is derived from (`DEFENCE_RULES` and
-- `defence_surface` of tools/saipal_engine/defence.py).
use saipal.Base.{
  ◌≡◌, refl, ◌∙◌, sym, ap, inl, inr, Bool, true, false, ◌&&◌, ◌||◌, Option, none, some, List, [],
  ◌∷◌, String, ◌==◌, string_eq, contains, Bool-cases, eq_iff, if◌then◌else◌,
}
use mathlib.Core.Path.{subst}
use saipal.Base.Dict.{lookup}
use saipal.Analysis.Event.{Facts, Event, span}
use saipal.Analysis.Episodes.{Episode, recovers}
use saipal.Analysis.Session.{Temperature}
use saipal.Submission.Defence.{
  is_true, is_text, holds, raised_by, codes, defence_surface, raises, is_raised, is_live,
  contains-defence_surface,
}

-- A mitigation, the types of the events that it is derived from, and what their facts show.
pub record Rule : Type 0 where
  pub code : String
  pub types : List String
  pub shows : Facts → Bool

abbrev pub rules : List Rule
rules =
    record {
      code = "USER_OVERRIDE";
      types = "USER_MESSAGE" ∷ [];
      shows = λ facts. is_true (lookup "override" facts);
    }
    ∷ record { code = "LATER_RECOVERY"; types = "ERROR" ∷ []; shows = recovers }
    ∷ record {
      code = "ADAPTER_NORMALIZATION";
      types = "STATE_SNAPSHOT" ∷ [];
      shows = λ facts. is_text "adapter_normalization" (lookup "kind" facts);
    }
    ∷ record {
      code = "ENVIRONMENT_FAILURE";
      types = "TOOL_CALL" ∷ "TOOL_RESULT" ∷ [];
      shows = λ facts. holds (lookup "env_failure" facts);
    }
    ∷ record {
      code = "SOURCE_OWNER_DOCUMENT";
      types = "SESSION_BOUNDARY" ∷ [];
      shows = λ facts. is_text "owner_doc" (lookup "kind" facts);
    }
    ∷ []

abbrev pub is_shown_by : List Rule → String → String → Facts → Bool
is_shown_by [] code event_type facts = false
is_shown_by (r ∷ rs) code event_type facts =
    (contains r.types event_type && (r.shows facts && code == r.code))
    || is_shown_by rs code event_type facts

-- Does one of the events show the mitigation with this code?
abbrev pub is_shown : String → List Event → Bool
is_shown code [] = false
is_shown code (e ∷ es) = is_shown_by rules code e.event_type e.facts || is_shown code es

-- The code that `raised_by` gives, by the type and the facts.
abbrev raised : String → Facts → Option String
raised t facts =
    if t == "USER_MESSAGE"
    then (if is_true (lookup "override" facts) then some "USER_OVERRIDE" else none)
    else if t == "ERROR"
    then (if recovers facts then some "LATER_RECOVERY" else none)
    else if t == "STATE_SNAPSHOT"
    then (if is_text "adapter_normalization" (lookup "kind" facts)
        then some "ADAPTER_NORMALIZATION"
        else none)
    else if t == "TOOL_CALL" || t == "TOOL_RESULT"
    then (if holds (lookup "env_failure" facts) then some "ENVIRONMENT_FAILURE" else none)
    else if t == "SESSION_BOUNDARY"
    then (if is_text "owner_doc" (lookup "kind" facts) then some "SOURCE_OWNER_DOCUMENT" else none)
    else none

Agrees : String → Facts → String → Type 0
Agrees code facts t = raises code (raised t facts) ≡ is_shown_by rules code t facts

one_rule :
    (b : Bool) (code c : String)
    → raises code (if b then some c else none) ≡ ((b && code == c) || false)
one_rule true code c = or_false (code == c)
  where
    or_false : (b : Bool) → b ≡ (b || false)
    or_false true = refl
    or_false false = refl
one_rule false code c = refl

by_type : (code : String) (facts : Facts) (t : String) → Agrees code facts t
unfolding Agrees
by_type code facts t = elim (Bool-cases (t == "USER_MESSAGE")) [
  | inl a ↦
      subst (Agrees code facts) (sym ((eq_iff t "USER_MESSAGE").0 a))
        (one_rule _ code "USER_OVERRIDE")
  | inr a ↦ elim (Bool-cases (t == "ERROR")) [
    | inl b ↦
        subst (Agrees code facts) (sym ((eq_iff t "ERROR").0 b)) (one_rule _ code "LATER_RECOVERY")
    | inr b ↦ elim (Bool-cases (t == "STATE_SNAPSHOT")) [
      | inl c ↦
          subst (Agrees code facts) (sym ((eq_iff t "STATE_SNAPSHOT").0 c))
            (one_rule _ code "ADAPTER_NORMALIZATION")
      | inr c ↦ elim (Bool-cases (t == "TOOL_CALL")) [
        | inl d ↦
            subst (Agrees code facts) (sym ((eq_iff t "TOOL_CALL").0 d))
              (one_rule _ code "ENVIRONMENT_FAILURE")
        | inr d ↦ elim (Bool-cases (t == "TOOL_RESULT")) [
          | inl e ↦
              subst (Agrees code facts) (sym ((eq_iff t "TOOL_RESULT").0 e))
                (one_rule _ code "ENVIRONMENT_FAILURE")
          | inr e ↦ elim (Bool-cases (t == "SESSION_BOUNDARY")) [
            | inl f ↦
                subst (Agrees code facts) (sym ((eq_iff t "SESSION_BOUNDARY").0 f))
                  (one_rule _ code "SOURCE_OWNER_DOCUMENT")
            | inr f ↦ rw (a, b, c, d, e, f) refl
          ]
        ]
      ]
    ]
  ]
]

raised-shown : (code : String) (es : List Event) → is_raised code es ≡ is_shown code es
unfolding raised_by Agrees
raised-shown code [] = refl
raised-shown code (e ∷ es) =
    ap (λ b. b || is_raised code es) (by_type code e.facts e.event_type)
    ∙ ap (λ b. is_shown_by rules code e.event_type e.facts || b) (raised-shown code es)

-- The surface of an episode has a code exactly if an event of the episode's span is of a type that
-- the code is derived from, with facts that show it (an override by the user, a recovery, a
-- normalization by the adapter, a failure of the environment in the call or the result of a tool,
-- the document of the source's owner), or if the code is that of a session that is still open and
-- the session is.
pub defence_surface_lem :
    (code : String) (events : List Event) (e : Episode) (temperature : Temperature)
    → contains (codes (defence_surface events e temperature)) code ≡ (
        is_shown code (span e.start_seq e.end_seq events)
        || (is_live temperature && code == "SESSION_STILL_HOT"))
defence_surface_lem code events e temperature =
    contains-defence_surface code events e temperature
    ∙ ap (λ b. b || (is_live temperature && code == "SESSION_STILL_HOT"))
        (raised-shown code (span e.start_seq e.end_seq events))
