-- ===== src/Examples/Wiring.antt =====
-- The manager and the server on concrete steps.
use live_migration_operator.Base.{String, [], ◌∷◌, ◌≡◌, ◌⊎◌, refl, true, Option, none, some}
use live_migration_operator.ApiServer.Signal.{signal_error}
use live_migration_operator.ApiServer.Server.{
  Server, new_server, selecting, shutting_down, sending, ended, listening, finished, begins, fails,
  receives, shuts_down,
}
use live_migration_operator.ApiServer.Server.Late.{Left, no_move, moved, late_failure_is_lost}
use live_migration_operator.ApiServer.Manager.{
  Manager, waiting, returned, crashed, caching, new_manager, begun, leave, signalled, called,
  synced, serves, leaves_failed, stop_closed, Step, Steps, none_yet, further,
}
use live_migration_operator.ApiServer.Manager.Invariant.{Reason, why_start_returns}
use live_migration_operator.ApiServer.Manager.Restart.{second_start_never_returns}
use live_migration_operator.ApiServer.Manager.Contract.{
  Allows, Allowed, running, Fits, new_contract, view,
}
use live_migration_operator.ApiServer.Manager.Refinement.{
  CanReach, ended_by, manager_refines_contract,
}

abbrev failed_server : Server
failed_server = record { api = ended; listener = finished }

-- The state after a call of `Start` whose server could not listen.
abbrev failed : Manager
failed = record new_manager {
  main = returned (some "address already in use");
  started = true;
  internal_stop = true;
  err_signal = record { closed = true; err = some "address already in use" };
  cache = caching;
  servers = failed_server ∷ [];
}

reaches_failed : Steps new_manager failed
unfolding begun signalled signal_error leave
reaches_failed =
    further
      (further
        (further
          (further (further (further none_yet (called tt)) (synced refl)) (
            serves [] [] new_server (record { api = selecting; listener = listening }) none
              (λ h. cc h) refl (begins refl)))
          (serves [] [] (record { api = selecting; listener = listening })
            (record { api = selecting; listener = sending "address already in use" }) none
            (λ h. cc h) refl (fails "address already in use" refl)))
        (serves [] [] (record { api = selecting; listener = sending "address already in use" })
          failed_server (some "address already in use") (λ h. cc h) refl
          (receives "address already in use" refl refl)))
      (leaves_failed refl refl)

why_start_returns_example :
    (failed.internal_stop ≡ true) × Reason failed (some "address already in use")
why_start_returns_example =
    why_start_returns failed (some "address already in use") reaches_failed refl

manager_refines_contract_example :
    Allows new_contract (view failed)
    × ((n : Manager) → Step failed n → Allowed (view failed) (view n))
    × ((r : Option String)
        → (view failed).life ≡ running
        → Fits (view failed) r
        → CanReach failed (ended_by r (view failed)))
manager_refines_contract_example = manager_refines_contract reaches_failed

-- The manager after the second call and the end of its argument.
abbrev again : Manager
again = record (begun failed) { stop = true }

reaches_again : Steps (begun failed) again
unfolding begun
reaches_again = further none_yet (stop_closed (λ h. cc h))

second_start_never_returns_example :
    ((again.main ≡ waiting) ⊎ (again.main ≡ crashed))
    × ((r : Option String) → leave r again ≡ record again { main = crashed })
second_start_never_returns_example =
    second_start_never_returns failed again (some "address already in use") reaches_failed refl
      reaches_again

abbrev late : Server
late = record { api = shutting_down; listener = sending "broken pipe" }

late_failure_is_lost_example : (sending "broken pipe" ≡ sending "broken pipe") × Left ended
late_failure_is_lost_example =
    late_failure_is_lost late (record late { api = ended }) "broken pipe" refl tt
      (moved true none no_move (shuts_down none refl))
