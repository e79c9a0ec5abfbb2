-- ===== src/Base/Fault.antt =====
-- Refusals: `PalError` by its machine code, and results that may be one.
use mathlib.Core.Path.{◌≡◌, refl}
use mathlib.Core.Bool.{Bool, true, false}

-- The codes that the modelled code raises.
pub data PalError : Type 0 where
  validation_failed writer_busy : PalError
  capability_denied action_reserved : PalError
  candidate_inadmissible candidate_out_of_scope evidence_not_found session_conflict : PalError

-- What a call gives back: its value, or the refusal that it raises.
pub data Result {ℓ} (T : Type ℓ) : Type ℓ where
  err : PalError → Result T
  ok : T → Result T

abbrev pub is_ok {ℓ} : {T : Type ℓ} → Result T → Bool
is_ok (err _) = false
is_ok (ok _) = true

-- The next call, unless this one was refused.
infixl 5 ◌>>=◌
abbrev pub ◌>>=◌ {ℓ κ} : {S : Type ℓ} {T : Type κ} → Result S → (S → Result T) → Result T
err refusal >>= next = err refusal
ok value >>= next = next value

pub >>=-eq-ok {ℓ κ} :
    {S : Type ℓ} {T : Type κ} (r : Result S) (next : S → Result T) {t : T}
    → (r >>= next) ≡ ok t
    → (s : S) × (r ≡ ok s) × (next s ≡ ok t)
>>=-eq-ok (err refusal) next h = cc
>>=-eq-ok (ok value) next h = (value, refl, h)
