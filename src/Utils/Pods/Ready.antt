-- ===== src/Utils/Pods/Ready.antt =====
-- What `WaitForContainerReady` waits for, and that it ends.
use live_migration_operator.Base.{
  ℕ, zero, suc, String, List, [], ◌∷◌, ◌++◌, ◌≡◌, ◌⊎◌, inl, inr, refl, true, Option, none, some,
  eq_iff, arith, Option-cases, Bool-cases,
}
use live_migration_operator.Go.{Outcome, done, run}
use live_migration_operator.Kube.{
  Call, Error, Tick, timed_out, ticked, get_pod, select_tick, Cluster,
}
use live_migration_operator.Kube.Objects.{ContainerStatus}
use live_migration_operator.Utils.Pods.{is_ready, check_container_ready, wait_for_container_ready}

-- A container of this name is reported to be ready.
abbrev pub AnyReady : String → List ContainerStatus → Type 0
AnyReady name [] = ⊥
AnyReady name (status ∷ statuses) =
    ((status.name ≡ name) × (status.ready ≡ true)) ⊎ AnyReady name statuses

AnyReady-is_ready :
    (name : String) (statuses : List ContainerStatus)
    → is_ready name statuses ≡ true
    → AnyReady name statuses
unfolding is_ready
AnyReady-is_ready name [] h = cc
AnyReady-is_ready name (status ∷ statuses) h =
    ground (arith, eq_iff status.name name, AnyReady-is_ready name statuses)

is_ready-AnyReady :
    (name : String) (statuses : List ContainerStatus)
    → AnyReady name statuses
    → is_ready name statuses ≡ true
unfolding is_ready
is_ready-AnyReady name [] h = absurd h
is_ready-AnyReady name (status ∷ statuses) h =
    ground (arith, eq_iff status.name name, is_ready-AnyReady name statuses)

Tick-cases : (tick : Tick) → (tick ≡ timed_out) ⊎ (tick ≡ ticked)
Tick-cases timed_out = inl refl
Tick-cases ticked = inr refl

module _ (w : Cluster) (pod_name namespace container_name : String) where
  -- One of the next ticks is the timeout.
  abbrev pub TimesOut : ℕ → List Call → Type 0
  TimesOut zero tr = ⊥
  TimesOut (suc fuel) tr =
      (w tr (select_tick 300 20) ≡ timed_out)
      ⊎ TimesOut fuel ((tr ++ select_tick 300 20 ∷ []) ++ get_pod namespace pod_name ∷ [])

  -- The pod was got, and the container was ready then.
  abbrev pub FoundReady : List Call → Type 0
  FoundReady final =
      (before : List Call) × (final ≡ before ++ get_pod namespace pod_name ∷ [])
      × ((w before (get_pod namespace pod_name)).1 ≡ none)
      × AnyReady container_name (w before (get_pod namespace pod_name)).0.status.container_statuses

  -- What a wait comes to: an error, or the container was ready at the last look.
  abbrev pub WaitEnds : Outcome (Option Error) × List Call → Type 0
  WaitEnds (done none, final) = FoundReady final
  WaitEnds (done (some _), final) = Unit
  WaitEnds _ = ⊥

  not_yet :
      (fuel : ℕ) (tr : List Call)
      → w tr (select_tick 300 20) ≡ ticked
      → TimesOut (suc fuel) tr
      → TimesOut fuel ((tr ++ select_tick 300 20 ∷ []) ++ get_pod namespace pod_name ∷ [])
  not_yet fuel tr tick (inl out) = cc (tick, out)
  not_yet fuel tr tick (inr later) = later

  -- The wait ends, with an error or with the container ready, if one of the next ticks, as many as
  -- the fuel, is the timeout.
  pub wait_for_container_ready_ends :
      (fuel : ℕ) (tr : List Call)
      → TimesOut fuel tr
      → WaitEnds (run w (wait_for_container_ready fuel pod_name namespace container_name) tr)
  unfolding wait_for_container_ready check_container_ready run
  wait_for_container_ready_ends zero tr h = absurd h
  wait_for_container_ready_ends (suc fuel) tr h =
      let looked : List Call = tr ++ select_tick 300 20 ∷ [] in
      let asked : Call = get_pod namespace pod_name in
      elim (Tick-cases (w tr (select_tick 300 20))) [
        | inl out ↦ rw out tt
        | inr tick ↦
            let again =
              wait_for_container_ready_ends fuel (looked ++ asked ∷ []) (not_yet fuel tr tick h) in
            rw tick (elim (Option-cases (w looked asked).1) [
              | inl got ↦
                  elim (Bool-cases
                    (is_ready container_name (w looked asked).0.status.container_statuses)) [
                      | inl ready ↦
                          rw (got, ready)
                            (looked, refl, got, AnyReady-is_ready container_name _ ready)
                      | inr waits ↦ rw (got, waits) again
                    ]
              | inr (x, failed) ↦ rw failed again
            ])
      ]

module _ (w : Cluster) (pod_name namespace container_name : String) where
  -- What the pod is asked for after a tick.
  abbrev pub looked : List Call → List Call
  looked tr = tr ++ select_tick 300 20 ∷ []

  -- The pod that is got then has the container ready.
  abbrev pub ShowsReady : List Call → Type 0
  ShowsReady tr =
      ((w (looked tr) (get_pod namespace pod_name)).1 ≡ none)
      × AnyReady container_name
          (w (looked tr) (get_pod namespace pod_name)).0.status.container_statuses

  -- The calls of a wait, from the trace in front of it to the one behind it: a look at the pod at
  -- each tick, until the timeout or the container is ready.
  pub data Waited : List Call → List Call → Type 0 where
    times_out : {tr : List Call} → w tr (select_tick 300 20) ≡ timed_out → Waited tr (looked tr)
    sees_ready :
        {tr : List Call}
        → w tr (select_tick 300 20) ≡ ticked
        → ShowsReady tr
        → Waited tr (looked tr ++ get_pod namespace pod_name ∷ [])
    looks_again :
        {tr final : List Call}
        → w tr (select_tick 300 20) ≡ ticked
        → ¬ ShowsReady tr
        → Waited (looked tr ++ get_pod namespace pod_name ∷ []) final
        → Waited tr final

  -- A wait that returned.
  abbrev pub Returned : List Call → Outcome (Option Error) × List Call → Type 0
  Returned tr r = (e : Option Error) × (r.0 ≡ done e) × Waited tr r.1

  pub wait_for_container_ready-Waited :
      (fuel : ℕ) (tr : List Call)
      → TimesOut w pod_name namespace container_name fuel tr
      → Returned tr (run w (wait_for_container_ready fuel pod_name namespace container_name) tr)
  unfolding wait_for_container_ready check_container_ready run
  wait_for_container_ready-Waited zero tr h = absurd h
  wait_for_container_ready-Waited (suc fuel) tr h =
      let asked : Call = get_pod namespace pod_name in
      let statuses = (w (looked tr) asked).0.status.container_statuses in
      elim (Tick-cases (w tr (select_tick 300 20))) [
        | inl out ↦ rw out (_, refl, times_out out)
        | inr tick ↦
            let (e, ended, waited) =
              wait_for_container_ready-Waited fuel (looked tr ++ asked ∷ [])
                (not_yet w pod_name namespace container_name fuel tr tick h) in
            elim (Option-cases (w (looked tr) asked).1) [
              | inl got ↦ elim (Bool-cases (is_ready container_name statuses)) [
                | inl ready ↦
                    rw (tick, got, ready)
                      (
                        none,
                        refl,
                        sees_ready tick (got, AnyReady-is_ready container_name statuses ready),
                      )
                | inr waits ↦
                    let unready : ¬ ShowsReady tr =
                      λ (_, shown). cc (waits, is_ready-AnyReady container_name statuses shown) in
                    rw (tick, got, waits) (e, ended, looks_again tick unready waited)
              ]
              | inr (x, failed) ↦
                  let unready : ¬ ShowsReady tr = λ (got, _). cc (failed, got) in
                  rw (tick, failed) (e, ended, looks_again tick unready waited)
            ]
      ]
