-- ===== src/Examples/Dummy.antt =====
-- The creation of the receiving pod.
use live_migration_operator.Base.{[], some, refl, inl}
use live_migration_operator.Go.{run}
use live_migration_operator.Kube.{Cluster, get_pod, create_pod, select_tick, timed_out}
use live_migration_operator.Dummy.{dummy_pod, create_dummy_pod}
use live_migration_operator.Dummy.Laws.{Outcomes, missing_trace, create_dummy_pod_ends}
use live_migration_operator.Examples.World.{web_pod, calm}

-- No pod can be got, and the wait times out.
abbrev lost : Cluster
lost tr (get_pod _ _) = (web_pod, some "not found")
lost tr (select_tick _ _) = timed_out
lost tr c = calm tr c

create_dummy_pod_ends_example :
    Outcomes lost 1 "test" []
      (lost [] (get_pod "test" "dummy-pod")).1
      (lost (missing_trace lost 1 "test" []) (create_pod "test" (dummy_pod "test"))).1
      (run lost (create_dummy_pod 1 "test") [])
create_dummy_pod_ends_example = create_dummy_pod_ends lost 1 "test" [] (inl refl)
