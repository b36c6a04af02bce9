-- ===== src/Migrate/Progress.antt =====
-- That `MigratePodPipelined` returns: what its goroutines need of the world, and that they end.
use live_migration_operator.Base.{
  ℕ, zero, suc, String, ◌<>◌, true, List, [], ◌∷◌, ◌++◌, ◌≡◌, ◌≢◌, refl, sym, subst, append-nil,
  append_assoc, Option, none, some, join_path, map,
}
use live_migration_operator.Go.{ret, ◌>>=◌, ◌>>◌}
use live_migration_operator.Go.Progress.{
  Always, Returns, AllReturn, AllReturn-append, Always-append, Always-bind, Planned, Good,
}
use live_migration_operator.Kube.{
  Call, Error, deleted, get_pod, delete_pod, watch_pods, next_event, get_service, mkdir_all,
  WatchEvent, ask, Op, Cluster,
}
use live_migration_operator.Kube.Objects.{ServicePort}
use live_migration_operator.Utils.Pods.{Container, deletion_loop, wait_for_pod_deletion}
use live_migration_operator.Utils.Services.{dummy_service, address, get_dummy_service_ip_and_port}
use live_migration_operator.Checkpoint.{
  checkpoint_worker, checkpoint_workers, terminate_checkpointed_pod,
}
use live_migration_operator.Migrate.Upload.{
  post_call, upload_worker, announce, migrate_checkpoint_parallelized,
}
use live_migration_operator.Migrate.Pod.{
  checkpoints_dir, Plan, or_stop, send_path, stage_one, stage_two,
}

-- An event of the watch that ends the wait, or what follows it.
abbrev pub GoneAfter : Option WatchEvent → Type 0 → Type 0
GoneAfter none rest = Unit
GoneAfter (some deleted) rest = Unit
GoneAfter (some _) rest = rest

module _ (w : Cluster) where
  -- One of the next events is the deletion, or the watch is closed before it.
  abbrev pub EventuallyGone : ℕ → List Call → Type 0
  EventuallyGone zero tr = ⊥
  EventuallyGone (suc n) tr =
      (others : List Call)
      → GoneAfter (w (tr ++ others) next_event)
          (EventuallyGone n ((tr ++ others) ++ next_event ∷ []))

  on_event :
      (n : ℕ) (pod_name : String) (tr : List Call) (event : Option WatchEvent)
      → (EventuallyGone n tr → Returns w (deletion_loop n pod_name) tr)
      → GoneAfter event (EventuallyGone n tr)
      → Returns w {A = Option Error}
          (elim event [
            | none ↦ ret (some ("pod " <> pod_name <> " not found or already deleted"))
            | some deleted ↦ ret none
            | some _ ↦ deletion_loop n pod_name
          ])
          tr
  on_event n pod_name tr none rest h = λ others. tt
  on_event n pod_name tr (some deleted) rest h = λ others. tt
  on_event n pod_name tr (some _) rest h = rest h

  deletion_loop-Returns :
      (n : ℕ) (pod_name : String) (tr : List Call)
      → EventuallyGone n tr
      → Returns w (deletion_loop n pod_name) tr
  unfolding deletion_loop
  deletion_loop-Returns zero pod_name tr h = absurd h
  deletion_loop-Returns (suc n) pod_name tr h = λ others.
      on_event n pod_name _ (w (tr ++ others) next_event) (deletion_loop-Returns n pod_name _)
        (h others)

  or_stop-Always :
      (e : Option Error) (rest : Op Plan) (tr : List Call)
      → Always w (Planned w) rest tr
      → Always w (Planned w) (or_stop e rest) tr
  or_stop-Always none rest tr h = h
  or_stop-Always (some _) rest tr h = λ others. (tt, λ more. tt)

  module _ (namespace pod_name : String) where
    checkpoint_workers-AllReturn :
        (containers : List Container) (tr : List Call)
        → AllReturn w (checkpoint_workers containers namespace pod_name) tr
    unfolding checkpoint_workers checkpoint_worker
    checkpoint_workers-AllReturn [] tr = tt
    checkpoint_workers-AllReturn (c ∷ containers) tr =
        ((λ others more. tt), checkpoint_workers-AllReturn containers tr)

    -- Stage 1 returns whatever is answered.
    pub stage_one-Good :
        (containers : List Container) (tr : List Call)
        → Good w (stage_one containers pod_name namespace) tr
    unfolding stage_one send_path
    stage_one-Good containers tr =
        let planned : Op Plan = ret (checkpoint_workers containers namespace pod_name, send_path) in
        let folder : Op Plan = (do e ← ask (mkdir_all checkpoints_dir 0o777); or_stop e planned) in
        let planned-Always : (tr' : List Call) → Always w (Planned w) planned tr' =
          λ tr' others. (checkpoint_workers-AllReturn containers _, λ more last. tt) in
        let folder-Always : (tr' : List Call) → Always w (Planned w) folder tr' =
          λ tr' others. or_stop-Always _ planned _ (planned-Always _) in
        λ others. or_stop-Always _ folder _ (folder-Always _)

    -- The receiving pod's service has a port, whenever it is asked for.
    abbrev pub HasPort : Type 0
    HasPort = (tr : List Call) → (w tr (get_service namespace dummy_service)).0.ports ≢ []

    after_info :
        (reply : String × Option Error) (ip : String) (port : ℕ) (dir : String) (tr : List Call)
        → Returns w
            (elim reply.1 [
              | some _ ↦ ret tt
              | none ↦ do ask (post_call ip port (join_path dir reply.0)); ret tt
            ])
            tr
    after_info (name, none) ip port dir tr = λ others more. tt
    after_info (name, some _) ip port dir tr = λ others. tt

    upload_workers-AllReturn :
        (ip : String) (port : ℕ) (dir : String) (files : List String) (tr : List Call)
        → AllReturn w (map (upload_worker ip port dir) files) tr
    unfolding upload_worker
    upload_workers-AllReturn ip port dir [] tr = tt
    upload_workers-AllReturn ip port dir (file ∷ files) tr =
        ((λ others. after_info _ ip port dir _), upload_workers-AllReturn ip port dir files tr)

    -- What `MigrateCheckpointParallelized` plans returns.
    at_address :
        (files : List String) (dir ip : String) (ports : List ServicePort) (tr : List Call)
        → ports ≢ []
        → Always w
            (Planned w)
            (address ip ports >>= λ (a, p). ret (map (upload_worker a p dir) files, announce a p))
            tr
    unfolding announce
    at_address files dir ip [] tr h = absurd (h refl)
    at_address files dir ip (p ∷ ports) tr h =
        λ others. (upload_workers-AllReturn ip p.port dir files _, λ first second third. tt)

    pub migrate_checkpoint_parallelized-Always :
        (files : List String) (dir : String) (tr : List Call)
        → HasPort
        → Always w (Planned w) (migrate_checkpoint_parallelized files dir namespace) tr
    unfolding migrate_checkpoint_parallelized get_dummy_service_ip_and_port
    migrate_checkpoint_parallelized-Always files dir tr h =
        λ others. at_address files dir _ _ _ (h (tr ++ others))

    -- Stage 2 returns if the service has a port.
    pub stage_two-Good : (tr : List Call) → HasPort → Good w (stage_two namespace) tr
    unfolding stage_two
    stage_two-Good tr h = λ others. or_stop-Always _ _ _ (
        Always-bind w (Planned w) (Planned w)
          (migrate_checkpoint_parallelized _ checkpoints_dir namespace) _ _
          (migrate_checkpoint_parallelized-Always _ checkpoints_dir _ h)
          (λ plan tr' (workers, after) more. (
            AllReturn-append w plan.0 tr' more workers,
            Always-bind w (λ _ _. Unit) (λ _ _. Unit) plan.1 (λ _. ret true) (tr' ++ more)
                (Always-append w (λ _ _. Unit) plan.1 tr' more after) (λ a t q others. tt),
          )))

    -- The watch is accepted, and behind a deletion of the pod it soon delivers that.
    abbrev pub DeletionSeen : ℕ → Type 0
    DeletionSeen fuel =
        ((tr : List Call) → w tr (watch_pods namespace ("metadata.name=" <> pod_name)) ≡ none)
        × ((before after : List Call)
            → EventuallyGone fuel ((before ++ delete_pod namespace pod_name ∷ []) ++ after))

    wait-Returns :
        (fuel : ℕ) (before after : List Call)
        → DeletionSeen fuel
        → Returns w
            (wait_for_pod_deletion fuel pod_name namespace)
            ((before ++ delete_pod namespace pod_name ∷ []) ++ after)
    unfolding wait_for_pod_deletion
    wait-Returns fuel before after (accepted, gone) = λ others.
        let watch : Call = watch_pods namespace ("metadata.name=" <> pod_name) in
        let deleted_trace : List Call = before ++ delete_pod namespace pod_name ∷ [] in
        let same : ((deleted_trace ++ after) ++ others) ++ watch ∷ []
            ≡ deleted_trace ++ (after ++ (others ++ watch ∷ [])) =
          simp append_assoc in
        rw (accepted ((deleted_trace ++ after) ++ others)) (
          subst (Returns w (deletion_loop fuel pod_name)) (sym same)
            (deletion_loop-Returns fuel pod_name _ (gone before (after ++ (others ++ watch ∷ [])))))

    pub terminate-Returns :
        (fuel : ℕ) (tr : List Call)
        → DeletionSeen fuel
        → Returns w (terminate_checkpointed_pod fuel pod_name namespace) tr
    unfolding terminate_checkpointed_pod
    terminate-Returns fuel tr h = λ first second.
        let before : List Call = ((tr ++ first) ++ get_pod namespace pod_name ∷ []) ++ second in
        Always-bind w (λ _ _. Unit) (λ _ _. Unit) (wait_for_pod_deletion fuel pod_name namespace)
          (λ _. ret none) (before ++ delete_pod namespace pod_name ∷ [])
          (subst (Returns w (wait_for_pod_deletion fuel pod_name namespace)) (append-nil _)
            (wait-Returns fuel before [] h))
          (λ a t q others. tt)
