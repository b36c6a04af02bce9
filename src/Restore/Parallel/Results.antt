-- ===== src/Restore/Parallel/Results.antt =====
-- What `processFile` gives for the files of a folder: the containers and names that are sound.
use live_migration_operator.Base.{
  ℕ, String, List, [], ◌∷◌, ◌≡◌, refl, All, Bool-cases, inl, inr, ◌⊎◌, Option, none, some, ◌==◌,
  eq_iff, ltb, ◌+◌, join_path, trim_newlines, ◌++◌, Extends,
}
use live_migration_operator.Go.{
  ret, panic, block, poll, call, ◌>>=◌, ◌>>◌, Result, ok, err, Outcome, done, panicked, blocked,
  polling,
}
use live_migration_operator.Kube.{kube, create_pod, chmod, Op, ask}
use live_migration_operator.Kube.Objects.{Container}
use live_migration_operator.Utils.PodName.{retrieve_pod_name}
use live_migration_operator.Utils.ContainerName.{retrieve_container_name}
use live_migration_operator.Restore.{
  lift, restored_container, restored_pod, from_scratch, add_call, config_call, commit_call, rm_call,
}
use live_migration_operator.Restore.ProcessFile.{send_error, build_image, process_file}
use live_migration_operator.Restore.Parallel.Images.{
  Within, Within-later, Within-snoc, image_calls, Imaged,
}
use live_migration_operator.Restore.Parallel.{
  Access, outside, write_containers, write_name, containers_of_result, name_of_result,
}

-- The text stands in the list.
abbrev pub In : String → List String → Type 0
In x [] = ⊥
In x (y ∷ ys) = (x ≡ y) ⊎ In x ys

module _ (path namespace : String) (files : List String) where
  -- The container of one of the files, whose image was asked for in these calls.
  abbrev pub FromFile : List Access → Container → Type 0
  FromFile tr c =
      (file : String) × (name : String) × In file files
      × (retrieve_container_name (join_path path file) ≡ done name)
      × (c ≡ restored_container name)
      × Imaged (join_path path file) name tr

  FromFile-later :
      (c : Container) (tr now : List Access) → Extends tr now → FromFile tr c → FromFile now c
  FromFile-later c tr now ext (file, name, there, e, same, (working, h)) = (
    file,
    name,
    there,
    e,
    same,
    (working, Within-later (image_calls working (join_path path file) name) tr now ext h),
  )

  pub All-FromFile-later :
      (cs : List Container) (tr now : List Access)
      → Extends tr now
      → All (FromFile tr) cs
      → All (FromFile now) cs
  All-FromFile-later [] tr now ext h = tt
  All-FromFile-later (c ∷ cs) tr now ext (h, hs) =
      (FromFile-later c tr now ext h, All-FromFile-later cs tr now ext hs)

  -- The name in one of the files, that of the marker file, or none.
  abbrev pub NameFromFile : String → Type 0
  NameFromFile n =
      (n ≡ "")
      ⊎ ((file : String) × In file files
          × (((file ≡ "dummy") × (n ≡ "dummy")) ⊎ (n ≡ retrieve_pod_name (join_path path file))))

  -- Behind these calls, a pod is created of containers of the files whose images were asked for, and
  -- under a name of the files.
  abbrev pub Sound : List Access → Access → Type 0
  Sound tr (outside (create_pod ns pod)) =
      (name : String) × (containers : List Container) × (ns ≡ namespace)
      × (pod ≡ restored_pod name namespace containers)
      × NameFromFile name
      × All (FromFile tr) containers
  Sound tr (write_containers containers) = All (FromFile tr) containers
  Sound tr (write_name n) = NameFromFile n
  Sound tr _ = Unit

  -- All calls of the code are sound, whatever they are answered and whatever others come between,
  -- and so is its result.
  abbrev pub Returns : {A : Type 0} → (List Access → A → Type 0) → List Access → Op A → Type 0
  Returns Q tr (ret a) = Q tr a
  Returns Q tr (call c k) =
      (now : List Access)
      → Extends tr now
      → Sound now (outside c) × ((r : kube.Reply c) → Returns Q (now ++ outside c ∷ []) (k r))
  Returns Q tr _ = Unit

  bind-Returns :
      {A B : Type 0} (Q : List Access → A → Type 0) (R : List Access → B → Type 0) (m : Op A)
      (f : A → Op B) (tr : List Access)
      → Returns Q tr m
      → ((now : List Access) (a : A) → Q now a → Returns R now (f a))
      → Returns R tr (m >>= f)
  bind-Returns Q R (ret a) f tr h g = g tr a h
  bind-Returns Q R panic f tr h g = tt
  bind-Returns Q R block f tr h g = tt
  bind-Returns Q R poll f tr h g = tt
  bind-Returns Q R (call c k) f tr h g = λ now ext.
      let (s, rest) = h now ext in
      (s, λ r. bind-Returns Q R (k r) f (now ++ outside c ∷ []) (rest r) g)

  send_error-Returns :
      (Q : List Access → Unit {0} → Type 0) (tr : List Access) (e : Option String) (sent : ℕ)
      (rest : ℕ → Op Unit)
      → ((n : ℕ) → Returns Q tr (rest n))
      → Returns Q tr (send_error e sent rest)
  send_error-Returns Q tr none sent rest h = h sent
  send_error-Returns Q tr (some e) sent rest h = elim (Bool-cases (ltb sent 2)) [
    | inl room ↦ rw room (h (sent + 1))
    | inr full ↦ rw full tt
  ]

  -- One more command of the image.
  next :
      (cs tr now : List Access) (c : Access)
      → Within cs tr
      → Extends tr now
      → Within (cs ++ c ∷ []) (now ++ c ∷ [])
  next cs tr now c h ext = Within-snoc cs now c (Within-later cs tr now ext h)

  abbrev Made : String → String → List Access → Unit {0} → Type 0
  Made archive name tr _ = Imaged archive name tr

  build_image-Returns :
      (tr : List Access) (archive name : String)
      → Returns (Made archive name) tr (build_image archive name)
  unfolding build_image
  build_image-Returns tr archive name = λ t1 x1. (
    tt,
    λ (out, e).
        let q = Made archive name in
        let w = trim_newlines out in
        let c1 : Access = outside from_scratch in
        let c2 : Access = outside (add_call w archive) in
        let c3 : Access = outside (config_call w name) in
        let c4 : Access = outside (commit_call w name) in
        let c5 : Access = outside (rm_call w) in
        let h1 = next [] tr t1 c1 tt x1 in
        send_error-Returns q (t1 ++ c1 ∷ []) e 0 _ (λ n. λ t2 x2. (
          tt,
          λ (_, e).
              let h2 = next (c1 ∷ []) (t1 ++ c1 ∷ []) t2 c2 h1 x2 in
              send_error-Returns q (t2 ++ c2 ∷ []) e n _ (λ n. λ t3 x3. (
                tt,
                λ (_, e).
                    let h3 = next (c1 ∷ c2 ∷ []) (t2 ++ c2 ∷ []) t3 c3 h2 x3 in
                    send_error-Returns q (t3 ++ c3 ∷ []) e n _ (λ n. λ t4 x4. (
                      tt,
                      λ (_, e).
                          let h4 = next (c1 ∷ c2 ∷ c3 ∷ []) (t3 ++ c3 ∷ []) t4 c4 h3 x4 in
                          send_error-Returns q (t4 ++ c4 ∷ []) e n _ (λ n. λ t5 x5. (
                            tt,
                            λ _.
                                let h5 =
                                  next (c1 ∷ c2 ∷ c3 ∷ c4 ∷ []) (t4 ++ c4 ∷ []) t5 c5 h4 x5 in
                                send_error-Returns q (t5 ++ c5 ∷ []) (some "") n (λ _. ret tt)
                                  (λ _. (w, h5)),
                          )),
                    )),
              )),
        )),
  )

  abbrev pub SoundResult : List Access → Result (List Container × String) → Type 0
  SoundResult tr r = All (FromFile tr) (containers_of_result r) × NameFromFile (name_of_result r)

  -- An archive, by the name of the container in its path.
  abbrev restore_archive : String → Outcome String → Op (Result (List Container × String))
  restore_archive file found = do
    name ← lift found
    e ← ask (chmod (join_path path file) 0o644)
    elim e [
      | some e ↦ ret (err e)
      | none ↦ do
        build_image (join_path path file) name
        ret (ok (restored_container name ∷ [], retrieve_pod_name (join_path path file)))
    ]

  archive-Returns :
      (file : String)
      → In file files
      → (tr : List Access) (found : Outcome String)
      → retrieve_container_name (join_path path file) ≡ found
      → Returns SoundResult tr (restore_archive file found)
  archive-Returns file there tr panicked e = tt
  archive-Returns file there tr blocked e = tt
  archive-Returns file there tr polling e = tt
  archive-Returns file there tr (done name) e =
      λ now ext. (tt, changed (now ++ outside (chmod (join_path path file) 0o644) ∷ []))
    where
      changed :
          (tr : List Access) (failed : Option String)
          → Returns SoundResult tr (elim failed [
            | some e ↦ ret (err e)
            | none ↦ do
              build_image (join_path path file) name
              ret (ok (restored_container name ∷ [], retrieve_pod_name (join_path path file)))
          ])
      changed tr (some _) = (tt, inl refl)
      changed tr none =
          bind-Returns (Made (join_path path file) name) SoundResult
            (build_image (join_path path file) name) _ tr
            (build_image-Returns tr (join_path path file) name)
            (λ now _ made. (((file, name, there, e, refl, made), tt), inr (file, there, inr refl)))

  pub process_file-Returns :
      (file : String)
      → In file files
      → (tr : List Access) → Returns SoundResult tr (process_file file path)
  unfolding process_file
  process_file-Returns file there tr = elim (Bool-cases (file == "dummy")) [
    | inl marker ↦ rw marker (tt, inr (file, there, inl ((eq_iff file "dummy").0 marker, refl)))
    | inr archive ↦
        rw archive
          (archive-Returns file there tr (retrieve_container_name (join_path path file)) refl)
  ]
