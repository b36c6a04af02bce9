-- ===== src/Utils/ContainerName.antt =====
-- `RetrieveContainerName` of controllers/utils/utils.go.
pub mod Laws
use mathlib.Core.List.{reverse}
use live_migration_operator.Base.{
  String, ◌<>◌, ◌≡◌, refl, List, [], ◌∷◌, ◌==◌, split, if◌then◌else◌,
}
use live_migration_operator.Go.{Outcome, done, panicked}

-- The parts in front of the year, the last one first. At `i == 1` the code reads `parts[-1]`.
unfoldable pub name_before : List String → Outcome String
name_before [] = done ""
name_before (last ∷ []) = panicked
name_before (last ∷ first ∷ _) = done (first <> ("-" <> last))

-- The loop from the last part to the first.
unfoldable pub scan : List String → Outcome String
unfolding name_before
scan [] = done ""
scan (part ∷ before) = if part == "2024" then name_before before else scan before

unfoldable pub retrieve_container_name : String → Outcome String
unfolding scan
retrieve_container_name path = scan (reverse (split path "-"))

retrieve_web_app :
    retrieve_container_name "/checkpoints/checkpoint-tomcat_test-web-app-2024-01-31.tar"
    ≡ done "web-app"
unfolding retrieve_container_name split
retrieve_web_app = refl

-- A name with no dash comes with what stands in front of it.
retrieve_single_word :
    retrieve_container_name "checkpoint-tomcat_test-app-2024-01-31.tar" ≡ done "tomcat_test-app"
unfolding retrieve_container_name split
retrieve_single_word = refl
