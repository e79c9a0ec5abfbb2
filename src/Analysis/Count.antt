-- ===== src/Analysis/Count.antt =====
-- Sets of slice numbers as lists without repetition, and how many of them are below a bound.
use saipal.Base.{
  ℕ, zero, suc, ◌+◌, ◌≤◌, ◌<◌, ◌≡◌, refl, ap, ◌∙◌, sym, inl, inr, Bool, true, false, ◌&&◌, List, [],
  ◌∷◌, ◌==◌, nat_eq, nat_beq_iff, ltb, if◌then◌else◌, keep_if, length, contains, arith, Bool-cases,
}

-- `{… for x in xs}`
abbrev pub distinct : List ℕ → List ℕ
distinct [] = []
distinct (x ∷ xs) = let rest = distinct xs in if contains rest x then rest else x ∷ rest

-- No number is listed twice.
abbrev pub Nodup : List ℕ → Type 0
Nodup [] = Unit
Nodup (x ∷ xs) = (contains xs x ≡ false) × Nodup xs

abbrev pub below : ℕ → ℕ → Bool
below n x = ltb x n

-- How many numbers below `n` pass the test.
abbrev pub count_to : ℕ → (ℕ → Bool) → ℕ
count_to zero p = 0
count_to (suc n) p = let rest = count_to n p in if p n then suc rest else rest

pub contains-distinct : (xs : List ℕ) (a : ℕ) → contains (distinct xs) a ≡ contains xs a
contains-distinct [] a = refl
contains-distinct (x ∷ xs) a = ground (arith, contains-distinct xs a, contains-distinct xs x)

pub distinct-Nodup : (xs : List ℕ) → Nodup (distinct xs)
distinct-Nodup [] = tt
distinct-Nodup (x ∷ xs) = elim (Bool-cases (contains (distinct xs) x)) [
  | inl known ↦ rw known (distinct-Nodup xs)
  | inr new ↦ rw new (new, distinct-Nodup xs)
]

pub contains-keep_if :
    (p : ℕ → Bool) (xs : List ℕ) (a : ℕ) → contains (keep_if p xs) a ≡ (contains xs a && p a)
contains-keep_if p [] a = refl
contains-keep_if p (x ∷ xs) a = elim (Bool-cases (a == x)) [
  | inl same ↦
      let one : p a ≡ p x = ap p ((nat_beq_iff a x).0 same) in
      ground (arith, one, contains-keep_if p xs a)
  | inr other ↦ ground (arith, contains-keep_if p xs a)
]

pub keep_if-Nodup : (p : ℕ → Bool) (xs : List ℕ) → Nodup xs → Nodup (keep_if p xs)
keep_if-Nodup p [] u = tt
keep_if-Nodup p (x ∷ xs) (new, u) = elim (Bool-cases (p x)) [
  | inl kept ↦ rw kept (contains-keep_if p xs x ∙ rw new refl, keep_if-Nodup p xs u)
  | inr dropped ↦ rw dropped (keep_if-Nodup p xs u)
]

-- One more bound takes in the one number, if it is listed.
length-below-suc :
    (n : ℕ) (xs : List ℕ)
    → Nodup xs
    → length (keep_if (below (suc n)) xs) ≡ (
        if contains xs n
        then suc (length (keep_if (below n) xs))
        else length (keep_if (below n) xs))
length-below-suc n [] u = refl
length-below-suc n (x ∷ xs) (new, u) = elim (Bool-cases (n == x)) [
  | inl same ↦
      let absent : contains xs n ≡ false = ap (contains xs) ((nat_beq_iff n x).0 same) ∙ new in
      ground (arith, absent, (nat_beq_iff n x).0 same, length-below-suc n xs u)
  | inr other ↦ ground (arith, length-below-suc n xs u)
]

pub length-below :
    (n : ℕ) (xs : List ℕ) → Nodup xs → length (keep_if (below n) xs) ≡ count_to n (contains xs)
length-below zero xs u = none_below xs
  where
    none_below : (ys : List ℕ) → length (keep_if (below 0) ys) ≡ 0
    none_below [] = refl
    none_below (y ∷ ys) = ground (arith, none_below ys)
length-below (suc n) xs u = ground (arith, length-below-suc n xs u, length-below n xs u)

pub count_to-le : (n : ℕ) (p : ℕ → Bool) → count_to n p ≤ n
count_to-le zero p = omega arith
count_to-le (suc n) p = ground (arith, count_to-le n p)

-- Two tests that never both pass.
pub count_to-disjoint :
    (n : ℕ) (p q : ℕ → Bool)
    → ((i : ℕ) → p i ≡ true → q i ≡ false)
    → count_to n p + count_to n q ≤ n
count_to-disjoint zero p q d = omega arith
count_to-disjoint (suc n) p q d = elim (Bool-cases (p n)) [
  | inl yes_ ↦ ground (arith, d n yes_, count_to-disjoint n p q d)
  | inr no_ ↦ ground (arith, count_to-disjoint n p q d)
]

pub count_to_full : (n : ℕ) (p : ℕ → Bool) → count_to n p ≡ n → (i : ℕ) → i < n → p i ≡ true
count_to_full zero p e i h = absurd (omega arith)
count_to_full (suc n) p e i h =
    let top : (count_to n p ≡ n) × (p n ≡ true) = ground (arith, count_to-le n p) in
    elim (Bool-cases (n == i)) [
      | inl same ↦ ap p (sym ((nat_beq_iff n i).0 same)) ∙ top.1
      | inr other ↦ count_to_full n p top.0 i (ground arith)
    ]

pub count_to_all : (n : ℕ) (p : ℕ → Bool) → ((i : ℕ) → i < n → p i ≡ true) → count_to n p ≡ n
count_to_all zero p h = refl
count_to_all (suc n) p h =
    ground (arith, h n (omega arith), count_to_all n p (λ i l. h i (omega arith)))
