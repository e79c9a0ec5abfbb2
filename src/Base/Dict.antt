-- ===== src/Base/Dict.antt =====
-- A Python dict: its items in insertion order. Proofs elsewhere go by the laws at the end.
use mathlib.Core.Path.{◌≡◌, refl, sym, ◌∙◌}
use mathlib.Core.Logic.{◌≢◌, ◌⊎◌, inl, inr}
use mathlib.Core.Bool.{Bool}
use mathlib.Core.Option.{Option, none, some}
use mathlib.Core.List.{List, [], ◌∷◌}
use native.Mathlib.Omega.{arith}
use saipal.Base.Tests.{if◌then◌else◌, Bool-cases}
use saipal.Base.Equality.{Eq, ◌==◌, beq_refl, ne_of_beq}

abbrev pub Dict {ℓ κ} : Type ℓ → Type κ → Type (ℓ ⊔ κ)
Dict K V = List (K × V)

abbrev pub keys {ℓ κ} : {K : Type ℓ} {V : Type κ} → Dict K V → List K
keys [] = []
keys ((k, _) ∷ d) = k ∷ keys d

module _ {ℓ κ} {K : Type ℓ} {V : Type κ} ⦃e : Eq K⦄ where
  -- `d.get(k)`
  abbrev pub lookup : K → Dict K V → Option V
  lookup k [] = none
  lookup k ((j, v) ∷ d) = if k == j then some v else lookup k d

  -- `d[k] = v`
  abbrev pub insert : K → V → Dict K V → Dict K V
  insert k v [] = (k, v) ∷ []
  insert k v ((j, w) ∷ d) = if k == j then (j, v) ∷ d else (j, w) ∷ insert k v d

  -- The dict without the keys that fail the test.
  abbrev pub restrict : (K → Bool) → Dict K V → Dict K V
  restrict p [] = []
  restrict p ((j, v) ∷ d) = if p j then (j, v) ∷ restrict p d else restrict p d

  -- No key is listed twice.
  abbrev pub NodupKeys : Dict K V → Type κ
  NodupKeys [] = Unit
  NodupKeys ((k, v) ∷ d) = (lookup k d ≡ none) × NodupKeys d

  pub lookup-insert_self : (k : K) (v : V) (d : Dict K V) → lookup k (insert k v d) ≡ some v
  lookup-insert_self k v [] = ground (arith, beq_refl k)
  lookup-insert_self k v ((j, w) ∷ d) = ground (arith, lookup-insert_self k v d)

  pub lookup-insert_ne :
      (j k : K) (v : V) (d : Dict K V) → j ≢ k → lookup j (insert k v d) ≡ lookup j d
  lookup-insert_ne j k v [] h = ground (arith, e.beq_iff j k)
  lookup-insert_ne j k v ((i, w) ∷ d) h =
      ground (arith, e.beq_iff j k, e.beq_iff k i, e.beq_iff j i, lookup-insert_ne j k v d h)

  pub lookup-insert :
      (j k : K) (v : V) (d : Dict K V)
      → lookup j (insert k v d) ≡ (if j == k then some v else lookup j d)
  lookup-insert j k v d = elim (Bool-cases (j == k)) [
    | inl same ↦ ground (arith, e.beq_iff j k, lookup-insert_self k v d)
    | inr other ↦ ground (arith, e.beq_iff j k, lookup-insert_ne j k v d)
  ]

  pub lookup-restrict :
      (p : K → Bool) (k : K) (d : Dict K V)
      → lookup k (restrict p d) ≡ (if p k then lookup k d else none)
  lookup-restrict p k [] = ground arith
  lookup-restrict p k ((j, v) ∷ d) = ground (arith, e.beq_iff k j, lookup-restrict p k d)

  pub insert-NodupKeys : (k : K) (v : V) (d : Dict K V) → NodupKeys d → NodupKeys (insert k v d)
  insert-NodupKeys k v [] u = (refl, tt)
  insert-NodupKeys k v ((j, w) ∷ d) (fresh, u) = elim (Bool-cases (k == j)) [
    | inl same ↦ ground (arith)
    | inr other ↦
        ground
          (arith, e.beq_iff j k, e.beq_iff k j, lookup-insert_ne j k v d, insert-NodupKeys k v d u)
  ]

  pub restrict-NodupKeys : (p : K → Bool) (d : Dict K V) → NodupKeys d → NodupKeys (restrict p d)
  restrict-NodupKeys p [] u = tt
  restrict-NodupKeys p ((j, v) ∷ d) (fresh, u) =
      ground (arith, lookup-restrict p j d, restrict-NodupKeys p d u)

  -- A hit after a write is the value written or an old hit under another key.
  pub lookup-insert_inv :
      (x a : K) (v : V) (d : Dict K V) {w : V}
      → lookup x (insert a v d) ≡ some w
      → ((x ≡ a) × (w ≡ v)) ⊎ ((x ≢ a) × (lookup x d ≡ some w))
  lookup-insert_inv x a v d h = elim (Bool-cases (x == a)) [
    | inl same ↦ inl ((e.beq_iff x a).0 same, cc (rw same at (sym (lookup-insert x a v d) ∙ h)))
    | inr other ↦ inr (ne_of_beq x a other, rw other at (sym (lookup-insert x a v d) ∙ h))
  ]
