-- ===== src/Base/Equality.antt =====
-- `==` on the values that the program compares, by instances.
use Prim.Native.Nat.{ℕ}
use Prim.Native.String.{String}
use mathlib.Core.Path.{◌≡◌, refl, ap}
use mathlib.Core.Logic.{◌↔◌, ◌≢◌}
use mathlib.Core.Bool.{Bool, true, false}
use mathlib.Core.Option.{Option, none, some}
use native.Mathlib.Omega.{arith}
use text.Mathlib.Text.{◌==◌ as str_beq}
use text.Mathlib.TextEquality.{eq_iff}
use saipal.Base.Tests.{nat_beq}

pub record Eq {ℓ} (T : Type ℓ) : Type ℓ where
  pub beq : T → T → Bool
  pub beq_iff : (x y : T) → (beq x y ≡ true) ↔ (x ≡ y)

infix 50 ◌==◌
abbrev pub ◌==◌ {ℓ} : {T : Type ℓ} ⦃test : Eq T⦄ → T → T → Bool
◌==◌ ⦃test⦄ = test.beq

pub nat_beq_iff : (a b : ℕ) → (nat_beq a b ≡ true) ↔ (a ≡ b)
nat_beq_iff a b = ground arith

instance abbrev pub nat_eq : Eq ℕ
nat_eq = record { beq = nat_beq; beq_iff = nat_beq_iff }

instance abbrev pub string_eq : Eq String
string_eq = record { beq = str_beq; beq_iff = eq_iff }

module _ {ℓ} {A : Type ℓ} where
  abbrev pub beq_of_discrete : Discrete A → A → A → Bool
  beq_of_discrete d a b = elim (d a b) [ yes _ ↦ true | no _ ↦ false ]

  pub beq_of_discrete_iff : (d : Discrete A) (a b : A) → (beq_of_discrete d a b ≡ true) ↔ (a ≡ b)
  beq_of_discrete_iff d a b = split (d a b)
    where
      split :
          (t : Dec (a ≡ b))
          → ((elim t as (λ _. Bool) [ yes _ ↦ true | no _ ↦ false ]) ≡ true) ↔ (a ≡ b)
      split (yes p) = ((λ _. p), (λ _. refl))
      split (no n) = ((λ e. absurd (false_ne e)), (λ p. absurd (n p)))
        where
          false_ne : false ≡ true → ⊥
          false_ne e = cc

  -- An equality test from a decision procedure.
  abbrev pub eq_of_discrete : Discrete A → Eq A
  eq_of_discrete d = record { beq = beq_of_discrete d; beq_iff = beq_of_discrete_iff d }

module _ {ℓ} {A : Type ℓ} ⦃e : Eq A⦄ where
  abbrev pub option_beq : Option A → Option A → Bool
  option_beq none none = true
  option_beq (some a) (some b) = a == b
  option_beq _ _ = false

  pub beq_refl : (a : A) → (a == a) ≡ true
  beq_refl a = (e.beq_iff a a).1 refl

  pub beq_ne : (a b : A) → a ≢ b → (a == b) ≡ false
  beq_ne a b h = ground (arith, e.beq_iff a b)

  pub ne_of_beq : (a b : A) → (a == b) ≡ false → a ≢ b
  ne_of_beq a b h p = ground (arith, e.beq_iff a b)

  pub option_beq_iff : (a b : Option A) → (option_beq a b ≡ true) ↔ (a ≡ b)
  option_beq_iff none none = ((λ _. refl), (λ _. refl))
  option_beq_iff none (some b) = ((λ h. cc), (λ h. cc))
  option_beq_iff (some a) none = ((λ h. cc), (λ h. cc))
  option_beq_iff (some a) (some b) =
      ((λ h. ap some ((e.beq_iff a b).0 h)), (λ h. (e.beq_iff a b).1 (cc)))

  instance abbrev pub option_eq : Eq (Option A)
  option_eq = record { beq = option_beq; beq_iff = option_beq_iff }
