-- ===== src/Submission/Address.antt =====
-- A unit stays where it was found when its session's position moves (`find_unit` of
-- tools/saipal_engine/carrier.py, and the index that submit.py saves), and lists of intentions
-- and receipts by their key.
use mathlib.Core.Path.{subst}
use saipal.Base.{
  ℕ, zero, suc, ◌≡◌, refl, ap, inl, inr, Bool, true, false, not, Option, none, some, List, [], ◌∷◌,
  ◌++◌, String, ◌==◌, string_eq, if◌then◌else◌, keep_if, Bool-cases,
}
use saipal.Analysis.Episodes.{Episode}
use saipal.Analysis.Session.{
  Session, Semantic, generation_lt, larger, shift, pick_newest, find_episode, find_unit,
}
use saipal.Analysis.Advance.{Receipt, tallies_for_session}
use saipal.Submission.Submit.{Operation, existing_operation, existing_receipt, set_nth}

abbrev pub at_position : Session → Option Semantic → Session
at_position s x = record s { semantic = x }

-- A session that is picked is picked again once its position is another.
abbrev IsStable : String → Option Semantic → Option (ℕ × Session) → List Session → Type 0
IsStable id x none ss = Unit
IsStable id x (some (n, s)) ss =
    pick_newest id (set_nth n (at_position s x) ss) ≡ some (n, at_position s x)

module _ (id : String) (x : Option Semantic) (t : Session) (ts : List Session) where
  larger-IsStable :
      (m : ℕ) (u : Session)
      → (t.session_id == id) ≡ true
      → pick_newest id ts ≡ some (m, u)
      → IsStable id x (some (m, u)) ts
      → IsStable id x (larger t (some (m, u))) (t ∷ ts)
  unfolding pick_newest
  larger-IsStable m u e p ih = elim (Bool-cases (generation_lt t u)) [
    | inl lt ↦ rw (lt, e, ih) (rw lt refl)
    | inr ge ↦ rw (ge, e, p) (rw ge refl)
  ]

  step-IsStable :
      (o : Option (ℕ × Session)) (b : Bool)
      → pick_newest id ts ≡ o
      → (t.session_id == id) ≡ b
      → IsStable id x o ts
      → IsStable id x (if b then larger t o else shift o) (t ∷ ts)
  unfolding pick_newest
  step-IsStable none true p e ih = rw (e, p) refl
  step-IsStable none false p e ih = tt
  step-IsStable (some (m, u)) true p e ih = larger-IsStable m u e p ih
  step-IsStable (some (m, u)) false p e ih = rw e (ap shift ih)

pick_newest-IsStable :
    (id : String) (x : Option Semantic) (ss : List Session) → IsStable id x (pick_newest id ss) ss
unfolding pick_newest
pick_newest-IsStable id x [] = tt
pick_newest-IsStable id x (t ∷ ts) =
    step-IsStable id x t ts (pick_newest id ts) (t.session_id == id) refl refl
      (pick_newest-IsStable id x ts)

-- The unit is found again, in the same place and with the same episode, once its session's
-- position is another.
pub find_unit-set_nth :
    (index : List Session) (id : String) (i n : ℕ) (s : Session) (o : Option Episode)
    (x : Option Semantic)
    → find_unit index id i ≡ some (n, s, o)
    → find_unit (set_nth n (at_position s x) index) id i ≡ some (n, at_position s x, o)
unfolding find_unit
find_unit-set_nth index id i n s o x h =
    from (pick_newest id index) (pick_newest-IsStable id x index) h
  where
    from :
        (p : Option (ℕ × Session))
        → IsStable id x p index
        → (elim p as (λ _. Option (ℕ × Session × Option Episode)) [
          | none ↦ none
          | some (m, u) ↦ some (m, u, find_episode i u.episodes)
        ])
          ≡ some (n, s, o)
        → find_unit (set_nth n (at_position s x) index) id i ≡ some (n, at_position s x, o)
    from none stable h = cc
    from (some (m, u)) stable h =
        let same : (m, u, find_episode i u.episodes) ≡ (n, s, o) = cc in
        let found : find_unit (set_nth m (at_position u x) index) id i
            ≡ some (m, at_position u x, find_episode i u.episodes) =
          rw (stable, find_unit) refl in
        subst
          (λ (z : ℕ × Session × Option Episode).
            find_unit (set_nth z.0 (at_position z.1 x) index) id i
            ≡ some (z.0, at_position z.1 x, z.2))
          same found

pub set_nth_twice {ℓ} :
    {A : Type ℓ} (n : ℕ) (y z : A) (xs : List A) → set_nth n z (set_nth n y xs) ≡ set_nth n z xs
set_nth_twice n y z [] = refl
set_nth_twice zero y z (x ∷ xs) = refl
set_nth_twice (suc n) y z (x ∷ xs) = ap (λ ys. x ∷ ys) (set_nth_twice n y z xs)

pub existing_operation-snoc :
    (ops : List Operation) (op : Operation) (key : String)
    → existing_operation ops key ≡ none
    → (op.receipt_id == key) ≡ true
    → existing_operation (ops ++ (op ∷ [])) key ≡ some op
existing_operation-snoc [] op key h e = rw e refl
existing_operation-snoc (o ∷ ops) op key h e = elim (Bool-cases (o.receipt_id == key)) [
  | inl same ↦ (let wrong = rw same at h in cc)
  | inr other ↦ rw other (existing_operation-snoc ops op key (rw other at h) e)
]

pub existing_operation-retired :
    (ops : List Operation) (key : String)
    → existing_operation (keep_if (λ op. not (op.receipt_id == key)) ops) key ≡ none
existing_operation-retired [] key = refl
existing_operation-retired (o ∷ ops) key = elim (Bool-cases (o.receipt_id == key)) [
  | inl same ↦ rw same (existing_operation-retired ops key)
  | inr other ↦ rw other (rw other (existing_operation-retired ops key))
]

pub existing_receipt-snoc :
    (rs : List Receipt) (r : Receipt) (key : String)
    → existing_receipt rs key ≡ none
    → (r.receipt_id == key) ≡ true
    → existing_receipt (rs ++ (r ∷ [])) key ≡ some r
existing_receipt-snoc [] r key h e = rw e refl
existing_receipt-snoc (q ∷ rs) r key h e = elim (Bool-cases (q.receipt_id == key)) [
  | inl same ↦ (let wrong = rw same at h in cc)
  | inr other ↦ rw other (existing_receipt-snoc rs r key (rw other at h) e)
]

-- Whether a receipt is marked as recovered does not count.
pub tallies-recovered :
    (rs : List Receipt) (r : Receipt) (b : Bool) (id : String)
    → tallies_for_session (rs ++ (record r { recovered = b } ∷ [])) id
      ≡ tallies_for_session (rs ++ (r ∷ [])) id
unfolding tallies_for_session
tallies-recovered [] r b id = refl
tallies-recovered (q ∷ rs) r b id = rw (tallies-recovered rs r b id) refl
