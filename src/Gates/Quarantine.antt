-- ===== src/Gates/Quarantine.antt =====
-- The quarantine against a count of rejections (tools/saipal_engine/poison.py).
use mathlib.Core.Path.{subst}
use saipal.Base.{
  ℕ, suc, ◌+◌, ◌≡◌, refl, ap, ◌∙◌, sym, inl, inr, true, false, not, Option, none, some, List, [],
  ◌∷◌, String, ◌==◌, string_eq, leb, if◌then◌else◌, Result, ok, err, arith, Bool-cases,
  Option-cases, eq_iff, ne_of_beq, beq_ne, beq_refl, ◌≢◌,
}
use saipal.Base.Dict.{
  lookup, insert, restrict, lookup-insert_self, lookup-insert_ne, lookup-restrict,
}
use saipal.Gates.Boundary.{ActionSets, is_open, require_action_open}
use saipal.Gates.Poison.{
  Artifact, Poisoned, Artifacts, identity, entry_or_new, count_rejection, record_rejected_artifact,
  is_held_back, state_of, quarantine_state, release_changed_artifact, quarantine_threshold,
}

-- What the dispatcher asks of the quarantine.
pub data Ask : Type 0 where
  reject : Artifact → String → String → String → Ask
  release : Artifact → Ask

abbrev kept {ℓ} : {V : Type ℓ} → Result (V × Artifacts) → Artifacts → Artifacts
kept (err code) artifacts = artifacts
kept (ok (_, after)) artifacts = after

-- A request that is refused writes nothing.
unfoldable pub serve : ActionSets → Ask → Artifacts → Artifacts
serve sets (reject a class reason now) artifacts =
    kept (record_rejected_artifact sets a class reason now artifacts) artifacts
serve sets (release a) artifacts = kept (release_changed_artifact sets a artifacts) artifacts

abbrev pub serve_all : ActionSets → List Ask → Artifacts → Artifacts
serve_all sets [] artifacts = artifacts
serve_all sets (q ∷ qs) artifacts = serve_all sets qs (serve sets q artifacts)

-- The rejections of a version since its last release.
abbrev pub tally_one : String → Ask → ℕ → ℕ
tally_one key (reject a _ _ _) n = if identity a == key then suc n else n
tally_one key (release a) n = if identity a == key then 0 else n

abbrev pub rejections : String → List Ask → ℕ → ℕ
rejections key [] n = n
rejections key (q ∷ qs) n = rejections key qs (tally_one key q n)

-- An entry stands for a count of rejections.
abbrev pub StandsFor : Option Poisoned → ℕ → Type 0
StandsFor none n = n ≡ 0
StandsFor (some entry) n = (entry.count ≡ n) × (entry.quarantined ≡ leb quarantine_threshold n)

new-StandsFor :
    (a : Artifact) (class reason now : String) (o : Option Poisoned) (n : ℕ)
    → StandsFor o n
    → StandsFor (some (count_rejection now (entry_or_new a class reason o))) (suc n)
unfolding count_rejection
new-StandsFor a class reason now none n c =
    let one : 0 + 1 ≡ suc n = omega arith in (one, ap (leb quarantine_threshold) one)
new-StandsFor a class reason now (some entry) n (count, held) =
    let more : entry.count + 1 ≡ suc n = omega arith in (more, ap (leb quarantine_threshold) more)

module _ (sets : ActionSets) (writes : is_open sets "write_own_index" ≡ true) (key : String) where
  reject_served :
      (a : Artifact) (class reason now : String) (artifacts : Artifacts)
      → serve sets (reject a class reason now) artifacts
        ≡ insert
            (identity a)
            (count_rejection now (entry_or_new a class reason (lookup (identity a) artifacts)))
            artifacts
  unfolding serve record_rejected_artifact
  reject_served a class reason now artifacts =
      rw (require_action_open sets "write_own_index" writes) refl

  inserted-StandsFor :
      (k : String) (a : Artifact) (class reason now : String) (artifacts : Artifacts) (n : ℕ)
      → StandsFor (lookup key artifacts) n
      → StandsFor
          (lookup key (
            insert k
              (count_rejection now (entry_or_new a class reason (lookup k artifacts)))
              artifacts))
          (if k == key then suc n else n)
  inserted-StandsFor k a class reason now artifacts n c = elim (Bool-cases (k == key)) [
    | inl same ↦
        let at = (eq_iff k key).0 same in
        rw (same, at, lookup-insert_self key _ artifacts)
          (new-StandsFor a class reason now (lookup key artifacts) n c)
    | inr other ↦
        let apart : key ≢ k = λ e. ne_of_beq k key other (sym e) in
        rw (other, lookup-insert_ne key k _ artifacts apart) c
  ]

  release_absent :
      (a : Artifact) (artifacts : Artifacts)
      → lookup (identity a) artifacts ≡ none
      → serve sets (release a) artifacts ≡ artifacts
  unfolding serve release_changed_artifact
  release_absent a artifacts absent = rw (absent, release_changed_artifact) refl

  release_present :
      (a : Artifact) (artifacts : Artifacts) (entry : Poisoned)
      → lookup (identity a) artifacts ≡ some entry
      → serve sets (release a) artifacts ≡ restrict (λ k. not (k == identity a)) artifacts
  unfolding serve release_changed_artifact
  release_present a artifacts entry found =
      rw (found, release_changed_artifact, require_action_open sets "write_own_index" writes) refl

  dropped-StandsFor :
      (k : String) (artifacts : Artifacts) (n : ℕ)
      → StandsFor (lookup key artifacts) n
      → StandsFor (lookup key (restrict (λ j. not (j == k)) artifacts)) (if k == key then 0 else n)
  dropped-StandsFor k artifacts n c = elim (Bool-cases (k == key)) [
    | inl same ↦
        let at = (eq_iff k key).0 same in
        rw (same, at, lookup-restrict (λ j. not (j == key)) key artifacts, beq_refl key) refl
    | inr other ↦
        let apart : (key == k) ≡ false = beq_ne key k (λ e. ne_of_beq k key other (sym e)) in
        rw (other, lookup-restrict (λ j. not (j == k)) key artifacts, apart) c
  ]

  absent-StandsFor :
      (k : String) (artifacts : Artifacts) (n : ℕ)
      → lookup k artifacts ≡ none
      → StandsFor (lookup key artifacts) n
      → StandsFor (lookup key artifacts) (if k == key then 0 else n)
  absent-StandsFor k artifacts n absent c = elim (Bool-cases (k == key)) [
    | inl same ↦ rw (same, ap (λ j. lookup j artifacts) (sym ((eq_iff k key).0 same)) ∙ absent) refl
    | inr other ↦ rw other c
  ]

  serve-StandsFor :
      (q : Ask) (artifacts : Artifacts) (n : ℕ)
      → StandsFor (lookup key artifacts) n
      → StandsFor (lookup key (serve sets q artifacts)) (tally_one key q n)
  serve-StandsFor (reject a class reason now) artifacts n c =
      subst (λ d. StandsFor (lookup key d) (if identity a == key then suc n else n))
        (sym (reject_served a class reason now artifacts))
        (inserted-StandsFor (identity a) a class reason now artifacts n c)
  serve-StandsFor (release a) artifacts n c = elim (Option-cases (lookup (identity a) artifacts)) [
    | inl absent ↦
        subst (λ d. StandsFor (lookup key d) (if identity a == key then 0 else n))
          (sym (release_absent a artifacts absent))
          (absent-StandsFor (identity a) artifacts n absent c)
    | inr (entry, found) ↦
        subst (λ d. StandsFor (lookup key d) (if identity a == key then 0 else n))
          (sym (release_present a artifacts entry found))
          (dropped-StandsFor (identity a) artifacts n c)
  ]

  serve_all-StandsFor :
      (qs : List Ask) (artifacts : Artifacts) (n : ℕ)
      → StandsFor (lookup key artifacts) n
      → StandsFor (lookup key (serve_all sets qs artifacts)) (rejections key qs n)
  serve_all-StandsFor [] artifacts n c = c
  serve_all-StandsFor (q ∷ qs) artifacts n c =
      serve_all-StandsFor qs (serve sets q artifacts) (tally_one key q n)
        (serve-StandsFor q artifacts n c)

-- After any requests on an empty quarantine, by a home that may write its index, a version of an
-- artifact is held back exactly when it was rejected at least twice since its last release,
-- whatever happened to others and whatever the classes of the rejections.
pub quarantine_refines :
    (sets : ActionSets) (qs : List Ask) (a : Artifact)
    → is_open sets "write_own_index" ≡ true
    → is_held_back (quarantine_state a (serve_all sets qs []))
      ≡ leb quarantine_threshold (rejections (identity a) qs 0)
unfolding quarantine_state
quarantine_refines sets qs a writes =
    held (lookup (identity a) (serve_all sets qs [])) _
      (serve_all-StandsFor sets writes (identity a) qs [] 0 refl)
  where
    held :
        (o : Option Poisoned) (n : ℕ)
        → StandsFor o n
        → is_held_back (state_of o) ≡ leb quarantine_threshold n
    held none n c = sym (ap (leb quarantine_threshold) c)
    held (some entry) n (_, h) = elim (Bool-cases entry.quarantined) [
      | inl stays ↦ rw stays (sym stays ∙ h)
      | inr free ↦ rw free (sym free ∙ h)
    ]
