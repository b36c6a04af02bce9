-- ===== src/Base/Text/Lower.antt =====
-- `strings.ToLower` on the letters A to Z; other characters stay. (Go also lowers letters outside
-- ASCII.)
use Prim.Native.Char.{Char, code}
use Prim.Native.String.{String}
use mathlib.Core.Path.{◌≡◌, refl}
use live_migration_operator.Base.Tests.{eqb, if◌then◌else◌}

-- The character of the second text at the place of the given one in the first.
lower_in : String → String → Char → Char
lower_in (String.◌∷◌ u us) (String.◌∷◌ l ls) c =
    if eqb (code c) (code u) then l else lower_in us ls c
lower_in _ _ c = c

lower_char : Char → Char
unfolding lower_in
lower_char = lower_in "ABCDEFGHIJKLMNOPQRSTUVWXYZ" "abcdefghijklmnopqrstuvwxyz"

unfoldable pub to_lower : String → String
unfolding lower_char
to_lower String.[] = ""
to_lower (String.◌∷◌ c s) = String.◌∷◌ (lower_char c) (to_lower s)

to_lower_mixed : to_lower "Live-Migration2Z" ≡ "live-migration2z"
unfolding to_lower
to_lower_mixed = refl
