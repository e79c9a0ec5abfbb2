-- ===== src/Drive/Critic.antt =====
-- Whether a candidate goes to the critic (`needs_critic`, `_high_signal`, `_sampled` of
-- tools/saipal_analyst/output.py). Confidence and severity are texts in upper case.
use saipal.Base.{
  ℕ, ◌+◌, ◌*◌, Bool, true, false, ◌&&◌, ◌||◌, Option, none, some, List, [], ◌∷◌, String, ◌==◌,
  string_eq, ltb, nat_eq, if◌then◌else◌, not, text_take, option_eq,
}
use Prim.Native.Nat.{◌%◌}
use saipal.Base.Dict.{Dict, lookup}

-- The deliberation policy.
pub record Policy : Type 0 where
  pub critic_on_drift : Bool
  pub critic_on_high_signal_no_drift : Bool
  pub clean_sample_percent : ℕ
  pub finalizer_on_disagreement : Bool

pub record Signal : Type 0 where
  pub confidence : String
  pub severity : String

-- What the critic's policy reads of a packet.
pub record Packet : Type 0 where
  pub unit_digest : String
  pub signals : List Signal

unfoldable pub high_signal : List Signal → Bool
high_signal [] = false
high_signal (s ∷ more) =
    (s.confidence == "HIGH" || (s.severity == "P0" || s.severity == "P1")) || high_signal more

abbrev digit_values : Dict String ℕ
digit_values =
    ("0", 0)
    ∷ ("1", 1)
    ∷ ("2", 2)
    ∷ ("3", 3)
    ∷ ("4", 4)
    ∷ ("5", 5)
    ∷ ("6", 6)
    ∷ ("7", 7)
    ∷ ("8", 8)
    ∷ ("9", 9)
    ∷ ("a", 10)
    ∷ ("b", 11)
    ∷ ("c", 12)
    ∷ ("d", 13)
    ∷ ("e", 14)
    ∷ ("f", 15)
    ∷ []

abbrev digit_or_zero : Option ℕ → ℕ
digit_or_zero none = 0
digit_or_zero (some n) = n

-- `int(text, 16)` of a digest's text, which has digits only.
unfoldable pub hex_value : ℕ → String → ℕ
hex_value n String.[] = n
hex_value n (String.◌∷◌ c text) =
    hex_value (16 * n + digit_or_zero (lookup (String.◌∷◌ c String.[]) digit_values)) text

unfoldable pub sampled : String → ℕ → Bool
sampled unit_digest percent = ltb (hex_value 0 (text_take 8 unit_digest) % 100) percent

-- A drift by the policy's word alone; a verdict of no drift on a strong signal or by the sample.
unfoldable pub needs_critic : Policy → Packet → Option String → Bool
needs_critic p packet verdict =
    if verdict == some "DRIFT"
    then p.critic_on_drift
    else if not (verdict == some "NO_DRIFT")
    then false
    else if p.critic_on_high_signal_no_drift && high_signal packet.signals
    then true
    else not (p.clean_sample_percent == 0) && sampled packet.unit_digest p.clean_sample_percent
