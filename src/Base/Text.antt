-- ===== src/Base/Text.antt =====
-- Slices of a text by its characters.
use Prim.Native.Nat.{ℕ, zero, suc}
use Prim.Native.String.{String}

-- `text[:n]`
unfoldable pub text_take : ℕ → String → String
text_take zero text = ""
text_take (suc n) String.[] = ""
text_take (suc n) (String.◌∷◌ c text) = String.◌∷◌ c (text_take n text)
