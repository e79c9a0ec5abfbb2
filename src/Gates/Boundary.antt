-- ===== src/Gates/Boundary.antt =====
-- The write boundary (tools/saipal_engine/capability.py).
use saipal.Base.{
  ◌≡◌, refl, inl, inr, Bool, true, false, ◌&&◌, List, String, string_eq, if◌then◌else◌, not,
  contains, Result, ok, err, PalError, capability_denied, action_reserved, arith, Bool-cases,
}

-- `write_actions` of the registry.
pub record ActionSets : Type 0 where
  pub allowed : List String
  pub reserved : List String
  pub forbidden : List String

pub data Answer : Type 0 where
  permitted : Answer
  denied : PalError → Answer

-- Forbidden comes first, then reserved; what no list has is denied.
unfoldable pub assert_action_capability : ActionSets → String → Answer
assert_action_capability sets action =
    if contains sets.forbidden action
    then denied capability_denied
    else if contains sets.reserved action
    then denied action_reserved
    else if contains sets.allowed action
    then permitted
    else denied capability_denied

abbrev pub raise_unless : Answer → Result (Unit {0})
raise_unless permitted = ok tt
raise_unless (denied code) = err code

unfoldable pub require_action : ActionSets → String → Result (Unit {0})
require_action sets action = raise_unless (assert_action_capability sets action)

-- The analyst's namespace has no reserved actions, and asks what is allowed.
unfoldable pub require_analyst_action : ActionSets → String → Result (Unit {0})
require_analyst_action sets action =
    if contains sets.allowed action then ok tt else err capability_denied

-- Allowed, and in neither of the other lists.
abbrev pub is_open : ActionSets → String → Bool
is_open sets action =
    contains sets.allowed action
    && (not (contains sets.forbidden action) && not (contains sets.reserved action))

pub require_action_open :
    (sets : ActionSets) (action : String)
    → is_open sets action ≡ true
    → require_action sets action ≡ ok tt
unfolding require_action assert_action_capability
require_action_open sets action h =
    let a : contains sets.allowed action ≡ true = ground arith in
    let f : contains sets.forbidden action ≡ false = ground arith in
    let r : contains sets.reserved action ≡ false = ground arith in rw (f, r, a) refl

pub require_action_shut :
    (sets : ActionSets) (action : String)
    → is_open sets action ≡ false
    → (code : PalError) × (require_action sets action ≡ err code)
unfolding require_action assert_action_capability
require_action_shut sets action h = elim (Bool-cases (contains sets.forbidden action)) [
  | inl never ↦ (capability_denied, rw never refl)
  | inr f ↦ elim (Bool-cases (contains sets.reserved action)) [
    | inl later ↦ (action_reserved, rw (f, later) refl)
    | inr r ↦
        let a : contains sets.allowed action ≡ false = ground arith in
        (capability_denied, rw (f, r, a) refl)
  ]
]
