-- ===== src/Base/Text/Paths.antt =====
-- `filepath.Join` of a folder's path and the name of a file in it. The folder's path is clean, but
-- for one `/` that may stand at its end; the name has no `/`.
use Prim.Native.Char.{code}
use Prim.Native.String.{String, ◌++◌ as ◌<>◌}
use mathlib.Core.Path.{◌≡◌, refl}
use mathlib.Core.Bool.{Bool, false}
use live_migration_operator.Base.Tests.{eqb, if◌then◌else◌}

ends_in_slash : String → Bool
ends_in_slash String.[] = false
ends_in_slash (String.◌∷◌ c String.[]) = eqb (code c) b'/'
ends_in_slash (String.◌∷◌ c (String.◌∷◌ d s)) = ends_in_slash (String.◌∷◌ d s)

unfoldable pub join_path : String → String → String
unfolding ends_in_slash
join_path directory name =
    if ends_in_slash directory then directory <> name else directory <> ("/" <> name)

join_both_ways : join_path "/checkpoints/" "dummy" ≡ join_path "/checkpoints" "dummy"
unfolding join_path
join_both_ways = refl
