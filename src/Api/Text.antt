-- ===== src/Api/Text.antt =====
-- `str.lower()` and `in` on texts, as the endpoints use them; `lower` maps the ASCII letters.
use Prim.Native.Char.{Char}
use Prim.Native.String.{char_at, find}
use text.Mathlib.Text.{find?}
use migration_orchestrator_k.Prelude.{ℕ, String, Bool, is_some, ltb, if◌then◌else◌}

abbrev letters : String
letters = "ABCDEFGHIJKLMNOPQRSTUVWXYZ"

lower_at : Char → ℕ → Char
lower_at c i = if ltb i 26 then char_at "abcdefghijklmnopqrstuvwxyz" i else c

lower_char : Char → Char
unfolding lower_at
lower_char c = lower_at c (find letters (String.◌∷◌ c String.[]))

unfoldable pub lower : String → String
unfolding lower_char
lower String.[] = String.[]
lower (String.◌∷◌ c s) = String.◌∷◌ (lower_char c) (lower s)

-- `part in text`
unfoldable pub has_part : String → String → Bool
has_part text part = is_some (find? text part)
