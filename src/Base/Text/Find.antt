-- ===== src/Base/Text/Find.antt =====
-- Prefixes and parts of texts.
use Prim.Native.Char.{code}
use Prim.Native.String.{String}
use mathlib.Core.Path.{◌≡◌, refl}
use mathlib.Core.Bool.{Bool, true, false, ◌&&◌, ◌||◌}
use live_migration_operator.Base.Tests.{eqb}

-- strings.HasPrefix(s, t), the prefix first
unfoldable pub begins : String → String → Bool
begins String.[] s = true
begins (String.◌∷◌ c t) String.[] = false
begins (String.◌∷◌ c t) (String.◌∷◌ d s) = eqb (code c) (code d) && begins t s

-- strings.Contains(s, t), the part first
unfoldable pub contains : String → String → Bool
unfolding begins
contains t String.[] = begins t ""
contains t (String.◌∷◌ c s) = begins t (String.◌∷◌ c s) || contains t s

contains_path : contains "/checkpoints/" "/tmp/checkpoints/dummy" ≡ true
unfolding contains
contains_path = refl
