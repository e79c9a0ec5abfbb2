-- ===== src/Gates/Disposition.antt =====
-- The law of disposition classes and the do-no-harm gate
-- (tools/saipal_engine/disposition.py and donoharm.py).
use mathlib.Core.Path.{subst}
use mathlib.Core.Option
use saipal.Base.{
  ◌≡◌, refl, ap, inl, inr, Bool, true, false, not, ◌&&◌, ◌||◌, Option, none, some, List, [], ◌∷◌,
  ◌++◌, String, ◌==◌, string_eq, if◌then◌else◌, contains, Bool-cases,
}
use saipal.Base.Dict.{Dict, lookup}

-- Surfaces where a change relaxes the rules that everything else depends on.
abbrev pub protocol_surfaces : List String
protocol_surfaces = "CORE_PROTOCOL" ∷ "PHASE_CONTRACT" ∷ "SOURCE_CONTRACT" ∷ "EXECUTION_POLICY" ∷ []

-- The entries of the registry that the two gates read.
pub record Registry : Type 0 where
  pub disposition_change_targets : Dict String (List String)
  pub non_drift_dispositions : List String
  pub protocol_weakening_dispositions : List String
  pub protected_invariants : List String
  pub protected_invariant_surfaces : Dict String (List String)

abbrev or_none : Option (List String) → List String
or_none none = []
or_none (some names) = names

unfoldable pub allowed_targets : Registry → String → List String
allowed_targets g disposition = or_none (lookup disposition g.disposition_change_targets)

abbrev some_of : List String → Bool
some_of [] = false
some_of (_ ∷ _) = true

pub data Problem : Type 0 where
  not_a_drift_class target_not_justified weakens_protocol claims_a_defect : Problem

abbrev if_so : Bool → Problem → List Problem
if_so true p = p ∷ []
if_so false p = []

abbrev pub legalizes : Registry → String → String → Bool
legalizes g name target =
    contains protocol_surfaces target && contains g.protocol_weakening_dispositions name

-- Every way in which a verdict, its disposition and its target contradict each other.
unfoldable pub disposition_problems : Registry → String → String → String → List Problem
disposition_problems g verdict name target =
    if verdict == "DRIFT"
    then if_so (contains g.non_drift_dispositions name) not_a_drift_class
      ++ (if_so
            (some_of (allowed_targets g name)
              && (not (target == "") && not (contains (allowed_targets g name) target)))
            target_not_justified
          ++ if_so (legalizes g name target) weakens_protocol)
    else if_so (not (contains g.non_drift_dispositions name)) claims_a_defect

abbrev first_or_unknown : List String → String
first_or_unknown [] = "UNKNOWN"
first_or_unknown (target ∷ _) = target

unfoldable pub preferred_target : Registry → String → String
preferred_target g disposition = first_or_unknown (allowed_targets g disposition)

unfoldable pub governed : String → Dict String (List String) → List String → Option (List String)
governed target surfaces [] = some []
governed target surfaces (invariant ∷ more) = elim (lookup invariant surfaces) [
  | none ↦ none
  | some names ↦
      Option.map (λ rest. if contains names target then invariant ∷ rest else rest)
        (governed target surfaces more)
]

-- The protected invariants that a change to this surface could weaken; an invariant that the
-- registry gives no surfaces to is an error in the registry.
unfoldable pub invariants_governed_by : Registry → String → Option (List String)
invariants_governed_by g target =
    governed target g.protected_invariant_surfaces g.protected_invariants

pub record Assessment : Type 0 where
  pub warnings : List String
  pub blocks : List String
  pub invariants : List String

-- One reached invariant: a warning when it is declared or the protocol is blamed, else a block.
unfoldable pub weigh_all : Bool → List String → List String → Assessment
weigh_all blames declared [] = record { warnings = []; blocks = []; invariants = [] }
weigh_all blames declared (invariant ∷ more) =
    let rest = weigh_all blames declared more in
    if contains declared invariant || blames
    then record rest {
      warnings = invariant ∷ rest.warnings;
      invariants = invariant ∷ rest.invariants;
    }
    else record rest { blocks = invariant ∷ rest.blocks; invariants = invariant ∷ rest.invariants }

unfoldable pub assess : Registry → String → List String → String → Option Assessment
assess g target declared disposition =
    Option.map (weigh_all (not (contains g.protocol_weakening_dispositions disposition)) declared)
      (invariants_governed_by g target)

blaming_never_blocks : (declared names : List String) → (weigh_all true declared names).blocks ≡ []
unfolding weigh_all
blaming_never_blocks declared [] = refl
blaming_never_blocks declared (n ∷ ns) = elim (Bool-cases (contains declared n)) [
  | inl d ↦ rw d (blaming_never_blocks declared ns)
  | inr u ↦ rw u (blaming_never_blocks declared ns)
]

no_last :
    (xs ys : List Problem) (last : Bool) (p : Problem)
    → xs ++ (ys ++ if_so last p) ≡ []
    → last ≡ false
no_last [] [] true p h = cc
no_last [] [] false p h = refl
no_last [] (y ∷ ys) last p h = cc
no_last (x ∷ xs) ys last p h = cc

no_weakening :
    (g : Registry) (name target : String)
    → disposition_problems g "DRIFT" name target ≡ []
    → contains protocol_surfaces target ≡ true
    → contains g.protocol_weakening_dispositions name ≡ false
unfolding disposition_problems
no_weakening g name target h surface =
    let lawful = no_last _ _ (legalizes g name target) weakens_protocol h in
    subst (λ b. (b && contains g.protocol_weakening_dispositions name) ≡ false) surface lawful

abbrev blocks_of : Assessment → List String
blocks_of a = a.blocks

-- A drift without a disposition problem, whose target is a surface of the protocol, is never
-- blocked by the do-no-harm gate, whatever it declares: it has an assessment whenever the registry
-- is sound, and that blocks nothing.
pub admitted_never_blocked :
    (g : Registry) (name target : String) (declared : List String)
    → disposition_problems g "DRIFT" name target ≡ []
    → contains protocol_surfaces target ≡ true
    → Option.map blocks_of (assess g target declared name)
      ≡ Option.map (λ reached. []) (invariants_governed_by g target)
unfolding assess
admitted_never_blocked g name target declared sound surface =
    rw (no_weakening g name target sound surface) (of_all (invariants_governed_by g target))
  where
    of_all :
        (reached : Option (List String))
        → Option.map blocks_of (Option.map (weigh_all true declared) reached)
          ≡ Option.map (λ _. []) reached
    of_all none = refl
    of_all (some names) = ap some (blaming_never_blocks declared names)
