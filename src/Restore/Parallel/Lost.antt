-- ===== src/Restore/Parallel/Lost.antt =====
-- A schedule of `BuildahRestoreParallelized` under which the container of a file is lost.
use live_migration_operator.Base.{ℕ, String, List, [], ◌∷◌, ◌++◌, ◌≡◌, refl, ap, ◌∙◌}
use live_migration_operator.Go.{Prog, ret, panic, block, poll, call, ◌>>=◌, ok, done, run}
use live_migration_operator.Go.Weave.{advance}
use live_migration_operator.Go.Fork.{Fork, joining, closing, step, step_fork, run_fork}
use live_migration_operator.Go.Progress.Finish.{run_fork-append}
use live_migration_operator.Kube.{Call, read_dir, create_pod, Op, Cluster}
use live_migration_operator.Kube.Objects.{Container, Pod}
use live_migration_operator.Restore.{restored_pod}
use live_migration_operator.Restore.ProcessFile.{process_file}
use live_migration_operator.Restore.Parallel.{
  Access, outside, read_containers, read_name, write_containers, write_name, memory, embed, share,
  outside_of, containers_after, name_after, remembering, restore_worker, create_shared,
  buildah_restore_parallelized,
}

outside_of-append :
    (tr : List Access) (c : Call) → outside_of (tr ++ outside c ∷ []) ≡ outside_of tr ++ c ∷ []
unfolding outside_of
outside_of-append [] c = refl
outside_of-append (outside d ∷ tr) c = ap (λ l. d ∷ l) (outside_of-append tr c)
outside_of-append (read_containers ∷ tr) c = outside_of-append tr c
outside_of-append (read_name ∷ tr) c = outside_of-append tr c
outside_of-append (write_containers _ ∷ tr) c = outside_of-append tr c
outside_of-append (write_name _ ∷ tr) c = outside_of-append tr c

containers_after-append :
    (held : List Container) (tr more : List Access)
    → containers_after held (tr ++ more) ≡ containers_after (containers_after held tr) more
unfolding containers_after
containers_after-append held [] more = refl
containers_after-append held (outside d ∷ tr) more = containers_after-append held tr more
containers_after-append held (read_containers ∷ tr) more = containers_after-append held tr more
containers_after-append held (read_name ∷ tr) more = containers_after-append held tr more
containers_after-append held (write_containers l ∷ tr) more = containers_after-append l tr more
containers_after-append held (write_name _ ∷ tr) more = containers_after-append held tr more

name_after-append :
    (held : String) (tr more : List Access)
    → name_after held (tr ++ more) ≡ name_after (name_after held tr) more
unfolding name_after
name_after-append held [] more = refl
name_after-append held (outside d ∷ tr) more = name_after-append held tr more
name_after-append held (read_containers ∷ tr) more = name_after-append held tr more
name_after-append held (read_name ∷ tr) more = name_after-append held tr more
name_after-append held (write_containers l ∷ tr) more = name_after-append held tr more
name_after-append held (write_name n ∷ tr) more = name_after-append n tr more

module _ (w : Cluster) where
  abbrev pub Shared : Type 0
  Shared = Fork memory Pod × List Access

  -- The goroutines come from one state to another under some schedule.
  abbrev pub Leads : Shared → Shared → Type 0
  Leads (f, tr) r = (schedule : List ℕ) × (run_fork (remembering w) schedule f tr ≡ r)

  Leads-trans : (a b c : Shared) → Leads a b → Leads b c → Leads a c
  Leads-trans (f, tr) b c (s, e) (s', e') =
      (s ++ s', run_fork-append (remembering w) s s' f tr ∙ rw e e')

  -- A goroutine that runs alone, among others that `ctx` puts it into at the place `i`.
  module _ {A : Type 0} (i : ℕ) (ctx : Prog memory (Unit {0}) → List (Prog memory (Unit {0})))
      (after : Prog memory Pod) (rest : A → Prog memory (Unit {0})) where
    abbrev Steps : Type 0
    Steps =
        (c : Access) (k : memory.Reply c → Prog memory (Unit {0})) (tr : List Access)
        → step_fork (remembering w) i (joining (ctx (call c k)) after) tr
          ≡ (joining (ctx (k (remembering w tr c))) after, tr ++ c ∷ [])

    alone :
        (m : Op A) (a : A) (tr : List Access) (final : List Call)
        → Steps
        → run w m (outside_of tr) ≡ (done a, final)
        → (tr' : List Access) × Leads
            (joining (ctx (embed m >>= rest)) after, tr)
            (joining (ctx (rest a)) after, tr')
          × (containers_after [] tr' ≡ containers_after [] tr)
    unfolding embed run run_fork remembering containers_after
    alone (ret a') a tr final steps h = (tr, ([], cc h), refl)
    alone panic a tr final steps h = cc
    alone block a tr final steps h = cc
    alone poll a tr final steps h = cc
    alone (call c k) a tr final steps h =
        let (tr', (s, e), same) =
          alone (k (w (outside_of tr) c)) a (tr ++ outside c ∷ []) final steps
            (rw (outside_of-append tr c) h) in
        (
          tr',
          (i ∷ s, rw (steps (outside c) (λ r. embed (k r) >>= rest) tr) e),
          same ∙ containers_after-append [] tr (outside c ∷ []),
        )

module _ (w : Cluster) (path : String) where
  -- Whatever was called before, `processFile` gives these results for the file.
  abbrev pub Processes : String → List Container → String → Type 0
  Processes file containers name =
      (tr : List Call)
      → (final : List Call) × (run w (process_file file path) tr
          ≡ (done (ok (containers, name)), final))

module _ (w : Cluster) (path namespace f g : String) (first second : List Container)
    (name₁ name₂ : String) where
  abbrev after : Prog memory Pod
  after = create_shared path namespace

  abbrev share₁ : Prog memory (Unit {0})
  share₁ = share (ok (first, name₁))

  abbrev share₂ : Prog memory (Unit {0})
  share₂ = share (ok (second, name₂))

  -- Both have processed their file, and each reads the list before the other writes it.
  overwritten :
      (tr : List Access)
      → containers_after [] tr ≡ []
      → (before : List Access) × (pod : Pod) × Leads w
          (joining (share₁ ∷ share₂ ∷ []) after, tr)
          (
            closing (ret pod),
            before ++ outside (create_pod namespace (restored_pod name₂ namespace second)) ∷ [],
          )
  unfolding run_fork step_fork step advance create_shared remembering containers_after name_after
  overwritten tr empty =
      let t₂ : List Access = (tr ++ write_name name₁ ∷ []) ++ write_name name₂ ∷ [] in
      let t₃ : List Access = t₂ ++ read_containers ∷ [] in
      let t₄ : List Access = t₃ ++ read_containers ∷ [] in
      let t₅ : List Access = t₄ ++ write_containers (containers_after [] t₂ ++ first) ∷ [] in
      let t₆ : List Access = t₅ ++ write_containers (containers_after [] t₃ ++ second) ∷ [] in
      let t₇ : List Access = t₆ ++ outside (read_dir path) ∷ [] in
      let t₈ : List Access = t₇ ++ read_name ∷ [] in
      let t₉ : List Access = t₈ ++ read_containers ∷ [] in
      let create : Pod → Call = λ pod. create_pod namespace pod in
      let named : name_after "" t₇ ≡ name₂ = simp name_after-append in
      let kept : containers_after [] t₈ ≡ second = simp (containers_after-append, empty) in
      let made : restored_pod (name_after "" t₇) namespace (containers_after [] t₈)
          ≡ restored_pod name₂ namespace second =
        rw (named, kept) refl in
      (
        t₉,
        (w (outside_of t₉) (create_pod namespace (restored_pod name₂ namespace second))).0,
        (
          0 ∷ 1 ∷ 0 ∷ 1 ∷ 0 ∷ 1 ∷ 0 ∷ 0 ∷ 0 ∷ 0 ∷ 0 ∷ [],
          ap
              (λ pod. (
                closing (ret (w (outside_of t₉) (create_pod namespace pod)).0),
                t₉ ++ outside (create_pod namespace pod) ∷ [],
              ))
              made,
        ),
      )

  abbrev begun : Shared w
  begun = (
    joining (restore_worker path f ∷ restore_worker path g ∷ []) after,
    outside (read_dir path) ∷ [],
  )

  begins :
      (w [] (read_dir path)).0 ≡ f ∷ g ∷ []
      → Leads w (buildah_restore_parallelized path namespace, []) begun
  unfolding buildah_restore_parallelized run_fork step_fork remembering
  begins listed = (0 ∷ 0 ∷ [], rw listed refl)

  -- The first goroutine, and then the second one, processes its file.
  processed :
      Processes w path f first name₁
      → Processes w path g second name₂
      → (tr : List Access) × Leads w begun (joining (share₁ ∷ share₂ ∷ []) after, tr)
        × (containers_after [] tr ≡ [])
  unfolding step_fork advance restore_worker containers_after
  processed p₁ p₂ =
      let tr₀ : List Access = outside (read_dir path) ∷ [] in
      let (tr₁, to₁, same₁) =
        alone w 0 (λ p. p ∷ restore_worker path g ∷ []) after share (process_file f path)
          (ok (first, name₁)) tr₀ (p₁ (outside_of tr₀)).0 (λ c k tr. refl)
          (p₁ (outside_of tr₀)).1 in
      let (tr₂, to₂, same₂) =
        alone w 1 (λ p. share₁ ∷ p ∷ []) after share (process_file g path) (ok (second, name₂)) tr₁
          (p₂ (outside_of tr₁)).0 (λ c k tr. refl) (p₂ (outside_of tr₁)).1 in
      (
        tr₂,
        Leads-trans w begun (joining (share₁ ∷ restore_worker path g ∷ []) after, tr₁)
            (joining (share₁ ∷ share₂ ∷ []) after, tr₂) to₁ to₂,
        same₂ ∙ same₁,
      )

  -- If the folder has two files, and `processFile` succeeds for both, then some schedule makes
  -- BuildahRestoreParallelized return after it has created a pod of the containers of the second
  -- file only: those of the first file are overwritten.
  pub restore_parallelized_loses :
      (w [] (read_dir path)).0 ≡ f ∷ g ∷ []
      → Processes w path f first name₁
      → Processes w path g second name₂
      → (before : List Access) × (pod : Pod) × Leads w
          (buildah_restore_parallelized path namespace, [])
          (
            closing (ret pod),
            before ++ outside (create_pod namespace (restored_pod name₂ namespace second)) ∷ [],
          )
  restore_parallelized_loses listed p₁ p₂ =
      let (tr, to, empty) = processed p₁ p₂ in
      let (before, pod, last) = overwritten tr empty in
      (before, pod, Leads-trans w _ _ _ (begins listed) (Leads-trans w _ _ _ to last))
