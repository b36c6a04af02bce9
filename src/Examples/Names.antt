-- ===== src/Examples/Names.antt =====
-- Names read from the paths of archives.
use live_migration_operator.Base.{
  String, ◌<>◌, eq_iff, List, [], ◌∷◌, ◌++◌, ◌≡◌, ◌≢◌, ◌↔◌, refl, split, arith,
}
use live_migration_operator.Go.{done, panicked}
use live_migration_operator.Utils.PodName.{marker, retrieve_pod_name}
use live_migration_operator.Utils.PodName.Laws.{FirstMatch, retrieve_pod_name_iff}
use live_migration_operator.Utils.PodName.CheckpointPath.{retrieve_pod_name_archive}
use live_migration_operator.Utils.ContainerName.{retrieve_container_name}
use live_migration_operator.Utils.ContainerName.Laws.{
  join_dash, NoDash, NoYear, retrieve_container_name_archive, retrieve_container_name_panics,
  retrieve_container_name_other_year,
}

abbrev path : String
path = "/tmp/checkpoint-web_test-web-app-2024-01-31.tar"

retrieve_pod_name_iff_example : (retrieve_pod_name path ≡ "web") ↔ FirstMatch path "web"
retrieve_pod_name_iff_example = retrieve_pod_name_iff path "web" (λ h. cc)

retrieve_pod_name_archive_example :
    retrieve_pod_name ("/tmp/" <> (marker <> ("web" <> ("_" <> "test-web-app-2024-01-31.tar"))))
    ≡ "web"
retrieve_pod_name_archive_example =
    retrieve_pod_name_archive "/tmp/" "web" "test-web-app-2024-01-31.tar"
      (refl, (refl, (refl, (refl, (refl, tt))))) (refl, (refl, (refl, tt)), (refl, (refl, tt)))

abbrev before : List String
before = "/tmp/checkpoint" ∷ "web_test" ∷ []

abbrev after : List String
after = "01" ∷ "31.tar" ∷ []

after-NoYear : NoYear after
after-NoYear = ((λ h. cc), ((λ h. cc), tt))

NoDash-archive : NoDash ((before ++ ("web" ∷ "app" ∷ [])) ++ ("2024" ∷ after))
NoDash-archive = ground arith

retrieve_container_name_archive_example :
    retrieve_container_name (join_dash ((before ++ ("web" ∷ "app" ∷ [])) ++ ("2024" ∷ after)))
    ≡ done "web-app"
retrieve_container_name_archive_example =
    retrieve_container_name_archive before "web" "app" after NoDash-archive after-NoYear

retrieve_container_name_panics_example :
    retrieve_container_name (join_dash ("/tmp/app" ∷ "2024" ∷ after)) ≡ panicked
retrieve_container_name_panics_example =
    retrieve_container_name_panics "/tmp/app" after (ground arith) after-NoYear

other_year : NoYear (split "/tmp/checkpoint-web_test-app-2025-01.tar" "-")
unfolding split
other_year = ((λ h. cc), ((λ h. cc), ((λ h. cc), (ne_2024, ((λ h. cc), tt)))))
  where
    ne_2024 : ◌≢◌ {A = String} "2025" "2024"
    ne_2024 h = cc ((eq_iff "2025" "2024").1 h)

retrieve_container_name_other_year_example :
    retrieve_container_name "/tmp/checkpoint-web_test-app-2025-01.tar" ≡ done ""
retrieve_container_name_other_year_example =
    retrieve_container_name_other_year "/tmp/checkpoint-web_test-app-2025-01.tar" other_year
