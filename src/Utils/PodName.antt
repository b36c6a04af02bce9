-- ===== src/Utils/PodName.antt =====
-- `RetrievePodName` of controllers/utils/utils.go: the first match of the regular expression
-- `checkpoint-(.+?)_`, with Go's rules (leftmost match, shortest group, `.` is no newline).
pub mod Laws
pub mod CheckpointPath
use mathlib.Core.Option
use live_migration_operator.Base.{String, code, ◌≡◌, refl, Option, none, some, eqb, if◌then◌else◌}

abbrev pub marker : String
marker = "checkpoint-"

-- What follows a prefix of the text, the prefix first.
unfoldable pub after_prefix : String → String → Option String
after_prefix String.[] s = some s
after_prefix (String.◌∷◌ c t) String.[] = none
after_prefix (String.◌∷◌ c t) (String.◌∷◌ d s) =
    if eqb (code c) (code d) then after_prefix t s else none

-- The shortest text of one line in front of a `_`.
unfoldable pub up_to_underscore : String → Option String
up_to_underscore String.[] = none
up_to_underscore (String.◌∷◌ c s) =
    if eqb (code c) b'_'
    then some ""
    else if eqb (code c) 10
    then none
    else Option.map (String.◌∷◌ c) (up_to_underscore s)

-- `(.+?)_`: the group takes at least one character, which may be a `_`.
unfoldable pub group : String → Option String
unfolding up_to_underscore
group String.[] = none
group (String.◌∷◌ c s) =
    if eqb (code c) 10 then none else Option.map (String.◌∷◌ c) (up_to_underscore s)

-- The group of a match that begins with the text.
unfoldable pub match_here : String → Option String
unfolding after_prefix group
match_here s = elim (after_prefix marker s) [ none ↦ none | some rest ↦ group rest ]

unfoldable pub find_submatch : String → Option String
unfolding match_here
find_submatch String.[] = match_here ""
find_submatch (String.◌∷◌ c s) = elim (match_here (String.◌∷◌ c s)) [
  | some g ↦ some g
  | none ↦ find_submatch s
]

unfoldable pub retrieve_pod_name : String → String
unfolding find_submatch
retrieve_pod_name path = elim (find_submatch path) [ some g ↦ g | none ↦ "" ]

retrieve_tomcat :
    retrieve_pod_name "/checkpoints/checkpoint-tomcat_test-web-app-2024-01-31.tar" ≡ "tomcat"
unfolding retrieve_pod_name
retrieve_tomcat = refl

retrieve_underscore : retrieve_pod_name "checkpoint-__a" ≡ "_"
unfolding retrieve_pod_name
retrieve_underscore = refl

retrieve_second : retrieve_pod_name "checkpoint-checkpoint-a_" ≡ "checkpoint-a"
unfolding retrieve_pod_name
retrieve_second = refl
