-- ===== src/Base/Text/Trim.antt =====
-- `bytes.TrimRight(s, "\n")`
use Prim.Native.Char.{code}
use Prim.Native.String.{String}
use mathlib.Core.Path.{◌≡◌, refl}
use mathlib.Core.Bool.{Bool, true, false, ◌&&◌}
use live_migration_operator.Base.Tests.{eqb, if◌then◌else◌}

abbrev is_empty : String → Bool
is_empty String.[] = true
is_empty (String.◌∷◌ _ _) = false

unfoldable pub trim_newlines : String → String
trim_newlines String.[] = ""
trim_newlines (String.◌∷◌ c s) =
    let rest = trim_newlines s in if eqb (code c) 10 && is_empty rest then "" else String.◌∷◌ c rest

trim_two : trim_newlines "a\nb\n\n" ≡ "a\nb"
unfolding trim_newlines
trim_two = refl
