-- ===== src/Restore/Parallel/Sound.antt =====
-- What `BuildahRestoreParallelized` creates a pod from, however its goroutines are interleaved.
use live_migration_operator.Base.{
  ℕ, String, List, [], ◌∷◌, ◌++◌, ◌≡◌, refl, sym, ◌∙◌, append_assoc, All, All-append, inl, inr,
  Extends, Extends-trans,
}
use live_migration_operator.Go.{ret, panic, block, poll, call, Result}
use live_migration_operator.Go.Fork.{joining, run_fork, step_fork}
use live_migration_operator.Go.Fork.Keeps.{Each, Keeps, Works, bind-Keeps, run_fork-Each}
use live_migration_operator.Kube.{read_dir, Op, Cluster}
use live_migration_operator.Kube.Objects.{Container, Pod}
use live_migration_operator.Restore.ProcessFile.{process_file}
use live_migration_operator.Restore.Parallel.{
  Access, outside, read_containers, read_name, write_containers, write_name, embed, outside_of,
  containers_after, name_after, remembering, restore_worker, restore_workers, create_shared, share,
  containers_of_result, name_of_result, buildah_restore_parallelized,
}
use live_migration_operator.Restore.Parallel.Results.{
  In, FromFile, All-FromFile-later, NameFromFile, Sound, Returns, SoundResult, process_file-Returns,
}

module _ (path namespace : String) (files : List String) where
  -- Behind the calls of the first list, the memory holds what was written.
  containers_after-Sound :
      (held : List Container) (before tr now : List Access)
      → now ≡ before ++ tr
      → All (FromFile path namespace files now) held
      → Each (Sound path namespace files) before tr
      → All (FromFile path namespace files now) (containers_after held tr)
  unfolding containers_after Each
  containers_after-Sound held before [] now e h each = h
  containers_after-Sound held before (write_containers l ∷ tr) now e h (s, each) =
      containers_after-Sound l (before ++ write_containers l ∷ []) tr now
        (e ∙ sym (append_assoc before (write_containers l ∷ []) tr))
        (All-FromFile-later path namespace files l before now (write_containers l ∷ tr, e) s) each
  containers_after-Sound held before (write_name n ∷ tr) now e h (s, each) =
      containers_after-Sound held (before ++ write_name n ∷ []) tr now
        (e ∙ sym (append_assoc before (write_name n ∷ []) tr)) h each
  containers_after-Sound held before (read_name ∷ tr) now e h (s, each) =
      containers_after-Sound held (before ++ read_name ∷ []) tr now
        (e ∙ sym (append_assoc before (read_name ∷ []) tr)) h each
  containers_after-Sound held before (read_containers ∷ tr) now e h (s, each) =
      containers_after-Sound held (before ++ read_containers ∷ []) tr now
        (e ∙ sym (append_assoc before (read_containers ∷ []) tr)) h each
  containers_after-Sound held before (outside c ∷ tr) now e h (s, each) =
      containers_after-Sound held (before ++ outside c ∷ []) tr now
        (e ∙ sym (append_assoc before (outside c ∷ []) tr)) h each

  name_after-Sound :
      (held : String) (before tr : List Access)
      → (NameFromFile path namespace files) held
      → Each (Sound path namespace files) before tr
      → (NameFromFile path namespace files) (name_after held tr)
  unfolding name_after Each
  name_after-Sound held before [] h each = h
  name_after-Sound held before (write_name n ∷ tr) h (s, each) =
      name_after-Sound n (before ++ write_name n ∷ []) tr s each
  name_after-Sound held before (write_containers l ∷ tr) h (s, each) =
      name_after-Sound held (before ++ write_containers l ∷ []) tr h each
  name_after-Sound held before (read_name ∷ tr) h (s, each) =
      name_after-Sound held (before ++ read_name ∷ []) tr h each
  name_after-Sound held before (read_containers ∷ tr) h (s, each) =
      name_after-Sound held (before ++ read_containers ∷ []) tr h each
  name_after-Sound held before (outside c ∷ tr) h (s, each) =
      name_after-Sound held (before ++ outside c ∷ []) tr h each

  module _ (w : Cluster) where
    embed-Keeps :
        {A : Type 0} (Q : List Access → A → Type 0) (m : Op A) (tr : List Access)
        → Returns path namespace files Q tr m
        → Keeps (remembering w) (Sound path namespace files) Q tr (embed m)
    unfolding embed remembering
    embed-Keeps Q (ret a) tr h = h
    embed-Keeps Q panic tr h = tt
    embed-Keeps Q block tr h = tt
    embed-Keeps Q poll tr h = tt
    embed-Keeps Q (call c k) tr h = λ now ext each.
        let (s, rest) = h now ext in
        (
          s,
          embed-Keeps Q (k (w (outside_of now) c)) (now ++ outside c ∷ [])
              (rest (w (outside_of now) c)),
        )

    -- The list that is written back was read behind these calls.
    appended :
        (read now : List Access) (more : List Container)
        → Extends read now
        → Each (Sound path namespace files) [] read
        → All (FromFile path namespace files now) more
        → All (FromFile path namespace files now) (containers_after [] read ++ more)
    appended read now more ext each good =
        All-append (FromFile path namespace files now) (containers_after [] read) more
          (All-FromFile-later path namespace files (containers_after [] read) read now ext
            (containers_after-Sound [] [] read read refl tt each))
          good

    share-Works :
        (tr : List Access) (r : Result (List Container × String))
        → SoundResult path namespace files tr r
        → Works (remembering w) (Sound path namespace files) tr (share r)
    unfolding remembering
    share-Works tr r (good, named) = λ t1 x1 e1. (
      named,
      λ t2 x2 e2. (
        tt,
        λ t3 x3 e3. (
          appended t2 t3 (containers_of_result r)
              (Extends-trans t2 (t2 ++ read_containers ∷ []) t3 (read_containers ∷ [], refl) x3) e2
              (All-FromFile-later path namespace files (containers_of_result r) tr t3
                (Extends-trans tr t1 t3 x1 (
                  Extends-trans t1 (t1 ++ write_name (name_of_result r) ∷ []) t3
                    (write_name (name_of_result r) ∷ [], refl)
                    (Extends-trans (t1 ++ write_name (name_of_result r) ∷ []) t2 t3 x2 (
                      Extends-trans t2 (t2 ++ read_containers ∷ []) t3 (read_containers ∷ [], refl)
                        x3))))
                good),
          tt,
        ),
      ),
    )

    restore_worker-Works :
        (file : String) (tr : List Access)
        → In file files
        → Works (remembering w) (Sound path namespace files) tr (restore_worker path file)
    unfolding restore_worker
    restore_worker-Works file tr there =
        bind-Keeps (remembering w) (Sound path namespace files) (SoundResult path namespace files)
          (λ _ _. Unit) (embed (process_file file path)) share tr
          (embed-Keeps (SoundResult path namespace files) (process_file file path) tr
            (process_file-Returns path namespace files file there tr))
          share-Works

    restore_workers-Works :
        (some_files : List String) (tr : List Access)
        → ((file : String) → In file some_files → In file files)
        → All
            (Works (remembering w) (Sound path namespace files) tr)
            (restore_workers path some_files)
    restore_workers-Works [] tr h = tt
    restore_workers-Works (file ∷ others) tr h = (
      restore_worker-Works file tr (h file (inl refl)),
      restore_workers-Works others tr (λ other there. h other (inr there)),
    )

    create_shared-Keeps :
        (tr : List Access)
        → Keeps
            (remembering w)
            (Sound path namespace files)
            (λ _ (pod : Pod). Unit)
            tr
            (create_shared path namespace)
    unfolding create_shared remembering
    create_shared-Keeps tr = λ t1 x1 e1. (
      tt,
      λ t2 x2 e2. (
        tt,
        λ t3 x3 e3. (
          tt,
          λ t4 x4 e4. (
            (
              name_after "" t2,
              containers_after [] t3,
              refl,
              refl,
              name_after-Sound "" [] t2 (inl refl) e2,
              All-FromFile-later path namespace files (containers_after [] t3) t3 t4
                  (Extends-trans t3 (t3 ++ read_containers ∷ []) t4 (read_containers ∷ [], refl) x4)
                  (containers_after-Sound [] [] t3 t3 refl tt e3),
            ),
            tt,
          ),
        ),
      ),
    )

-- Under every schedule of whole reads and writes of the shared list and name, whatever commands
-- fail, each pod that BuildahRestoreParallelized has asked
-- to create is in the given namespace, and its name is that of one of the folder's files, or empty.
-- Each of its containers is named by the path of a file of the folder, and before the pod was asked
-- for, all the buildah commands of its image were requested, in their order: from scratch, then add
-- with that file, config and commit with its name, and rm, all four on one working container.
pub restore_parallelized-Sound :
    (w : Cluster) (path namespace : String) (schedule : List ℕ)
    → Each
        (Sound path namespace (w [] (read_dir path)).0)
        []
        (run_fork (remembering w) schedule (buildah_restore_parallelized path namespace) []).1
unfolding buildah_restore_parallelized run_fork step_fork remembering Each
restore_parallelized-Sound w path namespace [] = tt
restore_parallelized-Sound w path namespace (i ∷ []) = (tt, tt)
restore_parallelized-Sound w path namespace (i ∷ j ∷ schedule) =
    let files = (w [] (read_dir path)).0 in
    run_fork-Each (remembering w) (Sound path namespace files) {A = Pod} schedule
      (joining (restore_workers path files) (create_shared path namespace))
      (outside (read_dir path) ∷ [])
      (
        restore_workers-Works path namespace files w files (outside (read_dir path) ∷ [])
            (λ file there. there),
        create_shared-Keeps path namespace files w,
      )
      (tt, tt)
