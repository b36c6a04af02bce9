-- ===== src/Reconcile/Prepare/Wait.antt =====
-- When `Reconcile` returns.
use live_migration_operator.Base.{String, List, [], ◌∷◌, ◌++◌, ◌≡◌, none, some}
use live_migration_operator.Go.{Outcome, done}
use live_migration_operator.Api.{LiveMigration}
use live_migration_operator.Kube.{Call, Signal, Cluster, new_watcher, add_watch, select_signal}
use live_migration_operator.Kube.Objects.{Dict}
use live_migration_operator.Reconcile.Prepare.{Prepared, ready}

-- The wait after these calls comes to its end: a watcher is made, and one of the channels delivers.
abbrev pub Signals : Cluster → List Call → Type 0
Signals w tr =
    (w tr new_watcher ≡ none)
    × (signal : Signal) × (w (tr ++ new_watcher ∷ add_watch "/checkpoints/" ∷ []) select_signal
        ≡ some signal)

-- The preparation went on with an object, and its calls are followed by a wait that ends.
abbrev pub Ready : Cluster → Outcome Prepared × List Call → Type 0
Ready w r =
    (migrating : LiveMigration) × (annotations : Dict) × (namespace : String) × (r.0
      ≡ done (ready migrating annotations namespace))
    × Signals w r.1
