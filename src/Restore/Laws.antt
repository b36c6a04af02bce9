-- ===== src/Restore/Laws.antt =====
-- What `BuildahRestorePipelined` creates, and when `processFile` does not come to an end.
use live_migration_operator.Base.{
  ℕ, ◌+◌, String, List, [], ◌∷◌, ◌++◌, ◌≡◌, ◌≢◌, refl, ap, ◌∙◌, sym, Option, none, some, arith,
  if◌then◌else◌, join_path, ◌==◌, trim_newlines, eq-false_of_ne, leb, Bool, Bool-cases, inl, inr,
}
use live_migration_operator.Go.{
  ret, ◌>>=◌, Outcome, done, blocked, Result, ok, err, run, run-bind, and_then,
}
use live_migration_operator.Go.Calls.{bind_done}
use live_migration_operator.Kube.{Call, Error, chmod, read_dir, create_pod, Cluster}
use live_migration_operator.Kube.Objects.{Container, Pod}
use live_migration_operator.Utils.PodName.{retrieve_pod_name}
use live_migration_operator.Utils.ContainerName.{retrieve_container_name}
use live_migration_operator.Restore.{
  restored_pod, restored_container, from_scratch, add_call, config_call, commit_call,
}
use live_migration_operator.Restore.ProcessFile.{build_image, process_file}
use live_migration_operator.Restore.Pipelined.{
  process_loop, create_restored, restore_files, buildah_restore_pipelined,
}

module _ (w : Cluster) (path : String) where
  abbrev KeepsContainers : List String → Type 0
  KeepsContainers files =
      (containers : List Container) (tr : List Call) (found : List Container) (final : List Call)
      → run w (process_loop path files containers) tr ≡ (done (ok found), final)
      → found ≡ containers

  after_file :
      (files : List String)
      → KeepsContainers files
      → (containers : List Container) (r : Result (List Container × String)) (tr : List Call)
        (found : List Container) (final : List Call)
      → ◌≡◌ {A = Outcome (Result (List Container)) × List Call}
          (run w (elim r [ err e ↦ ret (err e) | ok _ ↦ process_loop path files containers ]) tr)
          (done (ok found), final)
      → found ≡ containers
  unfolding run
  after_file files ih containers (ok _) tr found final h = ih containers tr found final h
  after_file files ih containers (err e) tr found final h = cc

  process_loop-KeepsContainers : (files : List String) → KeepsContainers files
  unfolding process_loop run
  process_loop-KeepsContainers [] containers tr found final h = ground arith
  process_loop-KeepsContainers (file ∷ files) containers tr found final h =
      let (r, mid, _, rest) = bind_done w (process_file file path) _ tr (ok found) final h in
      after_file files (process_loop-KeepsContainers files) containers r mid found final rest

-- A buildah command that failed.
abbrev pub failed : String × Option Error → ℕ
failed (_, none) = 0
failed (_, some _) = 1

module _ (w : Cluster) (checkpoint_path container_name : String) (tr : List Call) where
  abbrev container : String
  container = trim_newlines (w tr from_scratch).0

  abbrev tr₁ : List Call
  tr₁ = tr ++ from_scratch ∷ []

  abbrev tr₂ : List Call
  tr₂ = tr₁ ++ add_call container checkpoint_path ∷ []

  abbrev tr₃ : List Call
  tr₃ = tr₂ ++ config_call container container_name ∷ []

  -- How many of the four commands that report to the channel fail.
  abbrev pub failures : ℕ
  failures =
      failed (w tr from_scratch)
      + failed (w tr₁ (add_call container checkpoint_path))
      + failed (w tr₂ (config_call container container_name))
      + failed (w tr₃ (commit_call container container_name))

  pub build_image_blocks :
      (run w (build_image checkpoint_path container_name) tr).0
      ≡ (if leb failures 1 then done tt else blocked)
  unfolding build_image run
  build_image_blocks = ground arith

and_then-ret_blocked :
    {A : Type 0} (w : Cluster) (r : Outcome Unit × List Call) (a : A) (few : Bool)
    → r.0 ≡ (if few then done tt else blocked)
    → (and_then w r (λ _. ret a)).0 ≡ (if few then done a else blocked)
unfolding run
and_then-ret_blocked w (done tt, tr) a few h = ground arith
and_then-ret_blocked w (blocked, tr) a few h = ground arith
and_then-ret_blocked w (o, tr) a few h = ground arith

-- For an archive, which is not the file `dummy`, with a container's name in its path, and with
-- its permissions changed, the function returns the container and the pod's name exactly if at
-- most one of the four buildah commands fails that report to its channel. With two failures it
-- waits for ever.
pub process_file_blocks :
    (w : Cluster) (file path container_name : String) (tr : List Call)
    → file ≢ "dummy"
    → retrieve_container_name (join_path path file) ≡ done container_name
    → w tr (chmod (join_path path file) 0o644) ≡ none
    → (run w (process_file file path) tr).0 ≡ (
        if leb
          (failures w
            (join_path path file)
            container_name
            (tr ++ chmod (join_path path file) 0o644 ∷ []))
          1
        then done
            (ok (restored_container container_name ∷ [], retrieve_pod_name (join_path path file)))
        else blocked)
unfolding process_file run
process_file_blocks w file path container_name tr other named changed =
    let archive = join_path path file in
    let changed_trace : List Call = tr ++ chmod archive 0o644 ∷ [] in
    rw
      (
        eq-false_of_ne file "dummy" other,
        named,
        changed,
        run-bind {B = Result (List Container × String)} w (build_image archive container_name)
            (λ _. ret (ok (restored_container container_name ∷ [], retrieve_pod_name archive)))
            changed_trace,
      )
      (and_then-ret_blocked w (run w (build_image archive container_name) changed_trace) _ _
        (build_image_blocks w archive container_name changed_trace))

ok-injective : {a b : Pod} → ◌≡◌ {A = Outcome (Result Pod)} (done (ok a)) (done (ok b)) → a ≡ b
ok-injective h = cc

module _ (w : Cluster) (path namespace first : String) (others : List String) (tr : List Call) where
  after_create :
      (e : Option Error) (created : Pod) (mid : List Call) (pod : Pod) (final : List Call)
      → ◌≡◌ {A = Outcome (Result Pod) × List Call}
          (run w (elim e [ some e ↦ ret (err e) | none ↦ ret (ok created) ]) mid)
          (done (ok pod), final)
      → (pod ≡ created) × (final ≡ mid)
  unfolding run
  after_create none created mid pod final h = (
    sym (ok-injective (ap (λ (r : Outcome (Result Pod) × List Call). r.0) h)),
    sym (ap (λ (r : Outcome (Result Pod) × List Call). r.1) h),
  )
  after_create (some x) created mid pod final h = cc

  after_loop :
      (r : Result (List Container)) (mid : List Call) (pod : Pod) (final : List Call)
      → ((found : List Container) → r ≡ ok found → found ≡ [])
      → ◌≡◌ {A = Outcome (Result Pod) × List Call}
          (run w (create_restored (retrieve_pod_name first) namespace r) mid)
          (done (ok pod), final)
      → (pod ≡ restored_pod (retrieve_pod_name first) namespace [])
        × (final ≡ mid ++ create_pod namespace pod ∷ [])
  unfolding create_restored run
  after_loop (err e) mid pod final none_found h = cc
  after_loop (ok found) mid pod final none_found h =
      let called = create_pod namespace (restored_pod (retrieve_pod_name first) namespace found) in
      let (pod_eq, final_eq) =
        after_create (w mid called).1 (restored_pod (retrieve_pod_name first) namespace found)
          (mid ++ called ∷ []) pod final h in
      let pod_eq' =
        pod_eq ∙ ap (restored_pod (retrieve_pod_name first) namespace) (none_found found refl) in
      (pod_eq', final_eq ∙ rw pod_eq)

  restored_by_files :
      (read_trace : List Call) (pod : Pod) (final : List Call)
      → run w (restore_files path namespace (first ∷ others)) read_trace ≡ (done (ok pod), final)
      → (pod ≡ restored_pod (retrieve_pod_name first) namespace [])
        × (mid : List Call) × (final ≡ mid ++ create_pod namespace pod ∷ [])
  unfolding restore_files run
  restored_by_files read_trace pod final h = elim (Bool-cases (retrieve_pod_name first == "")) [
    | inl unnamed ↦ cc (rw unnamed at h)
    | inr named ↦
        let h' : run w
              (process_loop path (first ∷ others) []
                >>= create_restored (retrieve_pod_name first) namespace)
              read_trace
            ≡ (done (ok pod), final) =
          rw named at h in
        let (r, mid, ran, ended) =
          bind_done w (process_loop path (first ∷ others) [])
            (create_restored (retrieve_pod_name first) namespace) read_trace (ok pod) final h' in
        let (pod_eq, final_eq) =
          after_loop r mid pod final
            (λ found q.
              process_loop-KeepsContainers w path (first ∷ others) [] read_trace found mid
                (rw q at ran))
            ended in
        (pod_eq, mid, final_eq)
  ]

  -- When `BuildahRestorePipelined` returns a pod for the files that it read, the pod has the name
  -- in the first file's name and no container, whatever the files are, and creating it was the
  -- last call.
  pub restored_pod_is_empty :
      (pod : Pod) (final : List Call)
      → (w tr (read_dir path)).0 ≡ first ∷ others
      → run w (buildah_restore_pipelined path namespace) tr ≡ (done (ok pod), final)
      → (pod ≡ restored_pod (retrieve_pod_name first) namespace [])
        × (mid : List Call) × (final ≡ mid ++ create_pod namespace pod ∷ [])
  unfolding buildah_restore_pipelined run
  restored_pod_is_empty pod final read h =
      let read_trace : List Call = tr ++ read_dir path ∷ [] in
      let by_reply : run w (restore_files path namespace (w tr (read_dir path)).0) read_trace
          ≡ (done (ok pod), final) =
        h in
      restored_by_files read_trace pod final (rw read at by_reply)
