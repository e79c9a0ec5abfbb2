-- ===== src/Analysis/Episodes.antt =====
-- Where episodes begin and the spans between (`boundary_marks`, `mechanical_spans` and
-- `extract_episodes` of tools/saipal_engine/episodes.py).
use saipal.Base.{
  ℕ, suc, ◌+◌, ◌-◌, Bool, false, not, ◌&&◌, ◌||◌, Option, none, some, List, [], ◌∷◌, String, ◌==◌,
  string_eq, nat_eq, ltb, leb, if◌then◌else◌, contains,
}
use saipal.Base.Dict.{Dict, lookup, insert}
use saipal.Analysis.Event.{Fact, null, text, Facts, Event, is_given, truthy, same_fact, last_seq}

-- The event types that always open an episode, with the kind of the boundary.
abbrev pub type_to_kind : Dict String String
type_to_kind =
    ("USER_MESSAGE", "user_task")
    ∷ ("COMMAND", "command")
    ∷ ("PHASE_CHANGE", "phase_change")
    ∷ ("SOURCE_EVENT", "source_intake")
    ∷ []

abbrev pub active_work_keys : List String
active_work_keys = "active_work" ∷ "active_ticket" ∷ "work" ∷ []

abbrev pub terminal_kind : String
terminal_kind = "terminal_task"

-- The first of the keys that the facts have.
abbrev active_in : List String → Facts → Fact
active_in [] facts = null
active_in (key ∷ more) facts = elim (lookup key facts) [
  | none ↦ active_in more facts
  | some value ↦ value
]

unfoldable pub active_work : Event → Fact
active_work event = active_in active_work_keys event.facts

pub record Mark : Type 0 where
  pub seq : ℕ
  pub kind : String

-- The work before this event, once one was seen.
abbrev pub Seen : Type 0
Seen = Option Fact

-- `work_seen and work != previous_work`
abbrev switched : Seen → Fact → Bool
switched none work = false
switched (some previous) work = not (same_fact work previous)

abbrev pub see_work : Event → Seen → Seen
see_work event seen =
    if event.event_type == "STATE_SNAPSHOT" && is_given (active_work event)
    then some (active_work event)
    else seen

-- `facts.get("recovery") or facts.get("kind") == "recovery"`
abbrev pub recovers : Facts → Bool
recovers facts = fact_holds (lookup "recovery" facts) || is_recovery (lookup "kind" facts)
  where
    fact_holds : Option Fact → Bool
    fact_holds none = false
    fact_holds (some value) = truthy value

    is_recovery : Option Fact → Bool
    is_recovery none = false
    is_recovery (some value) = same_fact value (text "recovery")

-- The kind of boundary that an event is.
unfoldable pub kind_of : Seen → Event → Option String
kind_of seen event =
    if event.event_type == "ERROR" && recovers event.facts
    then some "recovery"
    else if event.event_type == "STATE_SNAPSHOT"
        && is_given (active_work event)
        && switched seen (active_work event)
    then some "work_switch"
    else lookup event.event_type type_to_kind

-- `if kind and kind in kinds`
abbrev pub marks_kind : List String → Option String → Bool
marks_kind kinds none = false
marks_kind kinds (some kind) = not (kind == "") && contains kinds kind

abbrev pub name_of : Option String → String
name_of none = ""
name_of (some kind) = kind

unfoldable pub marks_from : List String → Seen → List Event → List Mark
marks_from kinds seen [] = []
marks_from kinds seen (event ∷ events) =
    let rest = marks_from kinds (see_work event seen) events in
    if marks_kind kinds (kind_of seen event)
    then record { seq = event.seq; kind = name_of (kind_of seen event) } ∷ rest
    else rest

unfoldable pub boundary_marks : List String → List Event → List Mark
boundary_marks kinds events = marks_from kinds none events

pub record Episode : Type 0 where
  pub index : ℕ
  pub start_seq : ℕ
  pub end_seq : ℕ
  pub kind : String
  pub trigger_seq : Option ℕ
  pub event_count : ℕ
  pub start_evidence_ref : Option Facts
  pub end_evidence_ref : Option Facts

-- `bisect.bisect_left`, on an ascending list: how many come before `seq`.
abbrev pub bisect_left : List Event → ℕ → ℕ
bisect_left [] seq = 0
bisect_left (e ∷ es) seq = let n = bisect_left es seq in if ltb e.seq seq then suc n else 0

-- `bisect.bisect_right`: how many come up to `seq`.
abbrev pub bisect_right : List Event → ℕ → ℕ
bisect_right [] seq = 0
bisect_right (e ∷ es) seq = let n = bisect_right es seq in if leb e.seq seq then suc n else 0

-- `by_seq`: the last event of each number.
unfoldable pub index_events : Dict ℕ Event → List Event → Dict ℕ Event
index_events by_seq [] = by_seq
index_events by_seq (e ∷ es) = index_events (insert e.seq e by_seq) es

unfoldable pub locator_at : List Event → ℕ → Option Facts
locator_at events seq = evidence_of (lookup seq (index_events [] events))
  where
    evidence_of : Option Event → Option Facts
    evidence_of none = none
    evidence_of (some e) = e.evidence_ref

unfoldable pub episode : List Event → ℕ → ℕ → ℕ → String → Option ℕ → Episode
episode events index start_seq end_seq kind trigger_seq = record {
  index = index;
  start_seq = start_seq;
  end_seq = end_seq;
  kind = kind;
  trigger_seq = trigger_seq;
  event_count = bisect_right events end_seq - bisect_left events start_seq;
  start_evidence_ref = locator_at events start_seq;
  end_evidence_ref = locator_at events end_seq;
}

-- The loop over the marks, and the tail.
unfoldable pub episodes_from : List Event → ℕ → ℕ → ℕ → List Mark → List Episode
episodes_from events last index start [] =
    if leb start last then episode events index start last terminal_kind none ∷ [] else []
episodes_from events last index start (mark ∷ marks) =
    let skipped = episodes_from events last index start marks in
    let rest = episodes_from events last (index + 1) mark.seq marks in
    if leb mark.seq start
    then skipped
    else episode events index start (mark.seq - 1) mark.kind (some mark.seq) ∷ rest

unfoldable pub extract_episodes : List String → List Event → List Episode
extract_episodes kinds [] = []
extract_episodes kinds (e ∷ es) =
    episodes_from (e ∷ es) (last_seq e.seq es) 0 e.seq (boundary_marks kinds (e ∷ es))

pub record MechanicalSpan : Type 0 where
  pub index : ℕ
  pub start_seq : ℕ
  pub end_seq : ℕ
  pub marker : Option Facts

unfoldable pub spans_from : ℕ → ℕ → ℕ → List Event → List MechanicalSpan
spans_from last index start [] =
    if leb start last
    then record { index = index; start_seq = start; end_seq = last; marker = none } ∷ []
    else []
spans_from last index start (e ∷ es) =
    let skipped = spans_from last index start es in
    let rest = spans_from last (index + 1) (e.seq + 1) es in
    if e.event_type == "SESSION_BOUNDARY"
    then record { index = index; start_seq = start; end_seq = e.seq; marker = some e.facts } ∷ rest
    else skipped

unfoldable pub mechanical_spans : List Event → List MechanicalSpan
mechanical_spans [] = []
mechanical_spans (e ∷ es) = spans_from (last_seq e.seq es) 0 e.seq (e ∷ es)
