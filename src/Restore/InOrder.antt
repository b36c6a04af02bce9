-- ===== src/Restore/InOrder.antt =====
-- What `BuildahRestore` restores when its commands succeed.
use live_migration_operator.Base.{
  ℕ, String, List, [], ◌∷◌, ◌++◌, ◌≡◌, ◌≢◌, refl, ◌∙◌, append-nil, append_assoc, Option, none, some,
  map, eq-false_of_ne, join_path, trim_newlines,
}
use live_migration_operator.Go.{done, Result, ok, run, run-bind}
use live_migration_operator.Kube.{Call, Error, exec, chmod, read_dir, create_pod, Op, Cluster}
use live_migration_operator.Kube.Objects.{Container}
use live_migration_operator.Utils.PodName.{find_submatch}
use live_migration_operator.Utils.ContainerName.{retrieve_container_name}
use live_migration_operator.Restore.{
  from_scratch, add_call, config_call, commit_call, rm_call, restored_container, restored_pod,
}
use live_migration_operator.Restore.Sequential.{
  or_return, restore_file, restore_loop, buildah_restore,
}

-- The archives with the names of their pods and containers, none of them the marker file.
abbrev pub Archives : String → List String → List (String × String) → Type 0
Archives path [] [] = Unit
Archives path (file ∷ files) (name ∷ names) =
    (file ≢ "dummy")
    × (find_submatch (join_path path file) ≡ some name.0)
    × (retrieve_container_name (join_path path file) ≡ done name.1)
    × Archives path files names
Archives path _ _ = ⊥

-- The pod's name is that of the last archive.
abbrev pub last_pod : String → List (String × String) → String
last_pod pod_name [] = pod_name
last_pod pod_name (name ∷ names) = last_pod name.0 names

abbrev pub restored_containers : List (String × String) → List Container
restored_containers names = map (λ (name : String × String). restored_container name.1) names

or_return-none :
    {A : Type 0} (w : Cluster) (e : Option Error) (rest : Op (Result A)) (tr : List Call)
    → e ≡ none
    → run w (or_return e rest) tr ≡ run w rest tr
or_return-none w e rest tr h = rw h refl

module _ (w : Cluster) where
  -- No command and no change of permissions fails.
  abbrev pub CommandsWork : Type 0
  CommandsWork =
      ((tr : List Call) (path : String) (mode : ℕ) → w tr (chmod path mode) ≡ none)
      × ((tr : List Call) (args : List String) → (w tr (exec args)).1 ≡ none)

  run-restore_file :
      (path pod_name container_name : String) (tr : List Call)
      → CommandsWork
      → find_submatch path ≡ some pod_name
      → retrieve_container_name path ≡ done container_name
      → (final : List Call) × (run w (restore_file path) tr
          ≡ (done (ok (pod_name, restored_container container_name)), final))
  unfolding restore_file run
  run-restore_file path pod_name container_name tr (changed, works) found named =
      let tr₁ : List Call = tr ++ chmod path 0o777 ∷ [] in
      let container : String = trim_newlines (w tr₁ from_scratch).0 in
      let tr₂ : List Call = tr₁ ++ from_scratch ∷ [] in
      let tr₃ : List Call = tr₂ ++ add_call container path ∷ [] in
      let tr₄ : List Call = tr₃ ++ config_call container container_name ∷ [] in
      let tr₅ : List Call = tr₄ ++ commit_call container container_name ∷ [] in
      (
        tr₅ ++ rm_call container ∷ [],
        or_return-none w _ _ tr₁ (changed tr path 0o777)
            ∙ (or_return-none w _ _ tr₂ (works tr₁ _)
                ∙ (or_return-none w _ _ tr₃ (works tr₂ _)
                    ∙ rw named (or_return-none w _ _ tr₄ (works tr₃ _) ∙ rw found refl))),
      )

  -- The state of the loop behind the archives.
  abbrev AtMarker :
      String → List String → String → List (String × String) → List Container → List Call → Type 0
  AtMarker path files pod_name names containers tr =
      (final : List Call) × (run w (restore_loop path files pod_name containers) tr
        ≡ (done (ok (last_pod pod_name names, containers ++ restored_containers names)), final))

  next_archive :
      (path file pod_name : String) (name : String × String) (files : List String)
      (names : List (String × String)) (containers : List Container) (tr mid : List Call)
      → file ≢ "dummy"
      → run w (restore_file (join_path path file)) tr
        ≡ (done (ok (name.0, restored_container name.1)), mid)
      → AtMarker path files name.0 names (containers ++ restored_container name.1 ∷ []) mid
      → AtMarker path (file ∷ files) pod_name (name ∷ names) containers tr
  unfolding restore_loop
  next_archive path file pod_name name files names containers tr mid other ran (final, e) = (
    final,
    rw (eq-false_of_ne file "dummy" other) (
        run-bind w (restore_file (join_path path file)) _ tr
        ∙ rw ran (
            e
            ∙ rw (
                append_assoc containers (restored_container name.1 ∷ [])
                  (restored_containers names)))),
  )

  run-restore_loop :
      (path : String) (files : List String) (names : List (String × String)) (others : List String)
      (pod_name : String) (containers : List Container) (tr : List Call)
      → CommandsWork
      → Archives path files names
      → AtMarker path (files ++ "dummy" ∷ others) pod_name names containers tr
  unfolding restore_loop run
  run-restore_loop path [] [] others pod_name containers tr works h =
      (tr, rw (append-nil containers))
  run-restore_loop path [] (_ ∷ _) others pod_name containers tr works h = absurd h
  run-restore_loop path (_ ∷ _) [] others pod_name containers tr works h = absurd h
  run-restore_loop path (file ∷ files) (name ∷ names) others pod_name containers tr works
        (other, found, named, h) =
      let (mid, ran) = run-restore_file (join_path path file) name.0 name.1 tr works found named in
      next_archive path file pod_name name (files ++ "dummy" ∷ others) names containers tr mid other
        ran
        (run-restore_loop path files names others name.0
          (containers ++ restored_container name.1 ∷ []) mid works h)

  -- When no command and no change of permissions fails, and the files that are read are archives
  -- with both names in their paths and then the marker file, `BuildahRestore` restores one
  -- container for each archive in front of the marker, in order, in a pod with the name of the
  -- last one, and returns what the cluster made of that pod.
  pub buildah_restore_in_order :
      (path namespace : String) (files : List String) (names : List (String × String))
      (others : List String) (tr : List Call)
      → CommandsWork
      → (w tr (read_dir path)).0 ≡ files ++ "dummy" ∷ others
      → Archives path files names
      → (mid : List Call) × (run w (buildah_restore path namespace) tr ≡ (
        done (
            ok
              (w mid (
                create_pod namespace
                  (restored_pod (last_pod "" names) namespace (restored_containers names)))).0),
        mid
            ++ create_pod namespace
                (restored_pod (last_pod "" names) namespace (restored_containers names))
              ∷ [],
      ))
  unfolding buildah_restore run
  buildah_restore_in_order path namespace files names others tr works read h =
      let (mid, ran) =
        run-restore_loop path files names others "" [] (tr ++ read_dir path ∷ []) works h in
      let ran' : run w (restore_loop path (w tr (read_dir path)).0 "" []) (tr ++ read_dir path ∷ [])
          ≡ (done (ok (last_pod "" names, restored_containers names)), mid) =
        rw read ran in
      (mid, run-bind w (restore_loop path (w tr (read_dir path)).0 "" []) _ _ ∙ rw ran' refl)
