-- ===== src/Migrate/Sequential.antt =====
-- The order of what `MigratePod` does.
use live_migration_operator.Base.{
  subst, ℕ, String, List, [], ◌∷◌, ◌++◌, ◌≡◌, refl, sym, ap, ◌∙◌, append_assoc, Option, none, some,
  ◌⊎◌, inl, inr, Extends, Extends-refl, Extends-trans,
}
use live_migration_operator.Go.{ret, ◌>>=◌, ◌>>◌, Outcome, done, run}
use live_migration_operator.Go.Calls.{bind_done, done_of_ret, made, final_trace}
use live_migration_operator.Go.Weave.{advance, weave}
use live_migration_operator.Go.Beside.Laws.{advance-Extends}
use live_migration_operator.Go.Fork.{run_fork, result}
use live_migration_operator.Go.Fork.Phases.{Rest, run_setup}
use live_migration_operator.Kube.{
  Call, Error, list_pods, remove_all, mkdir_all, chown_self, get_pod, delete_pod, read_dir, Op,
  Cluster, ask,
}
use live_migration_operator.Utils.Pods.{Container, print_container_ids}
use live_migration_operator.Checkpoint.{checkpoint_pod_crio, terminate_checkpointed_pod}
use live_migration_operator.Checkpoint.Laws.{requests, run-checkpoint_pod_crio, run-terminate}
use live_migration_operator.Migrate.Upload.{migrate_checkpoint_parallelized}
use live_migration_operator.Migrate.Pod.{checkpoints_dir, migrate_pod}
use live_migration_operator.Migrate.Safety.{listed}

weave_none : (w : Cluster) (schedule : List ℕ) (tr : List Call) → weave w schedule [] tr ≡ ([], tr)
unfolding weave advance
weave_none w [] tr = refl
weave_none w (i ∷ schedule) tr = weave_none w schedule tr

weave-Extends :
    (w : Cluster) (schedule : List ℕ) (ps : List (Op (Unit {0}))) (tr : List Call)
    → Extends tr (weave w schedule ps tr).1
unfolding weave
weave-Extends w [] ps tr = Extends-refl tr
weave-Extends w (i ∷ schedule) ps tr =
    Extends-trans tr (advance w i ps tr).1 _ (advance-Extends w i ps tr)
      (weave-Extends w schedule (advance w i ps tr).0 (advance w i ps tr).1)

assembled :
    (requested ended uploaded : List Call) (c d : Call) (tr mid mid₂ mid₄ : List Call)
    → mid ≡ tr ++ requested
    → mid₂ ≡ (mid ++ c ∷ []) ++ ended
    → mid₄ ≡ (mid₂ ++ d ∷ []) ++ uploaded
    → mid₄ ≡ ((tr ++ requested) ++ c ∷ []) ++ (ended ++ d ∷ uploaded)
assembled requested ended uploaded c d tr mid mid₂ mid₄ h h₂ h₃ = rw (h₃, h₂, h) (simp append_assoc)

module _ (w : Cluster) (fuel : ℕ) (pod_name namespace : String) where
  -- Up to the folder for the checkpoints.
  abbrev pub prepared : List Call → List Call
  prepared tr =
      ((tr ++ list_pods namespace ∷ []) ++ remove_all checkpoints_dir ∷ [])
      ++ mkdir_all checkpoints_dir 0o777 ∷ []

  abbrev pub folder_reply : List Call → Option Error
  folder_reply tr =
      w ((tr ++ list_pods namespace ∷ []) ++ remove_all checkpoints_dir ∷ [])
        (mkdir_all checkpoints_dir 0o777)

  -- Behind the folder: the checkpoints in order, the folder's owner, and the pod.
  abbrev pub saved : List Call → List Call
  saved tr =
      (prepared tr ++ requests w namespace pod_name (listed w namespace tr))
      ++ chown_self checkpoints_dir ∷ []

  -- The folder could not be made, and nothing else is done; or it was, and every checkpoint was
  -- requested before the deletion of the pod.
  abbrev pub Ordered : List Call → Option Error → List Call → Type 0
  Ordered tr e final =
      ((e ≡ folder_reply tr) × (¬ (e ≡ none)) × (final ≡ prepared tr))
      ⊎ ((folder_reply tr ≡ none)
          × (e ≡ none)
          × ((rest : List Call) × (final
                ≡ saved tr ++ (get_pod namespace pod_name ∷ delete_pod namespace pod_name ∷ rest))))

  abbrev Upload : Type 0
  Upload = List (Op (Unit {0})) × Op (Option Error)

  -- What the code does once the folder is made.
  abbrev save : List Container → Op Upload
  save containers = do
    checkpoint_pod_crio containers namespace pod_name
    ask (chown_self checkpoints_dir)
    terminate_checkpointed_pod fuel pod_name namespace
    (files, _) ← ask (read_dir checkpoints_dir)
    (workers, after) ← migrate_checkpoint_parallelized files checkpoints_dir namespace
    ret (workers, (do after; ret none))

  save-order :
      (containers : List Container) (tr final : List Call) (up : Upload)
      → run w (save containers) tr ≡ (done up, final)
      → ((after : Op (Option Error)) × (up.1 ≡ (do after; ret none)))
        × ((rest : List Call) × (final
              ≡ ((tr ++ requests w namespace pod_name containers)
                  ++ chown_self checkpoints_dir ∷ [])
                ++ (get_pod namespace pod_name ∷ delete_pod namespace pod_name ∷ rest)))
  unfolding run
  save-order containers tr final up h =
      let (a, mid, ran, h₁) =
        bind_done w (checkpoint_pod_crio containers namespace pod_name) _ tr up final h in
      let (b, mid₂, ran₂, h₂) =
        bind_done w (terminate_checkpointed_pod fuel pod_name namespace) _
          (mid ++ chown_self checkpoints_dir ∷ []) up final h₁ in
      let mid₃ : List Call = mid₂ ++ read_dir checkpoints_dir ∷ [] in
      let (c, mid₄, ran₄, h₄) =
        bind_done w
          (migrate_checkpoint_parallelized (w mid₂ (read_dir checkpoints_dir)).0 checkpoints_dir
            namespace)
          _ mid₃ up final h₂ in
      let files : List String = (w mid₂ (read_dir checkpoints_dir)).0 in
      let (_, rest, deleted) =
        run-terminate w namespace pod_name fuel (mid ++ chown_self checkpoints_dir ∷ []) b mid₂
          ran₂ in
      let requested : mid ≡ tr ++ requests w namespace pod_name containers =
        ap (λ (r : Outcome (Option Error) × List Call). r.1)
          (sym ran ∙ run-checkpoint_pod_crio w namespace pod_name containers tr) in
      let uploaded =
        final_trace w (migrate_checkpoint_parallelized files checkpoints_dir namespace) mid₃ ran₄ in
      let ended : mid₄ ≡ final = ap (λ (r : Outcome Upload × List Call). r.1) h₄ in
      let same : (c.0, (do c.1; ret none)) ≡ up = cc h₄ in
      (
        (c.1, ap (λ (u : Upload). u.1) (sym same)),
        (
          rest
              ++ read_dir checkpoints_dir
                ∷ made w (migrate_checkpoint_parallelized files checkpoints_dir namespace) mid₃,
          sym ended
              ∙ assembled (requests w namespace pod_name containers)
                  (get_pod namespace pod_name ∷ delete_pod namespace pod_name ∷ rest) _
                  (chown_self checkpoints_dir) (read_dir checkpoints_dir) tr mid mid₂ mid₄ requested
                  deleted uploaded,
        ),
      )

  Rest-Extends :
      (ps : List (Op (Unit {0}))) (after : Op (Option Error)) (e : Option Error)
      (tr final : List Call)
      → Rest w e ps after tr final
      → Extends tr final
  Rest-Extends ps after e tr final (schedule, _, ran) =
      Extends-trans tr _ final (weave-Extends w schedule ps tr) (
        made w after (weave w schedule ps tr).1,
        final_trace w after (weave w schedule ps tr).1 ran,
      )

  abbrev set_up : Option Error → List Container → Op Upload
  set_up reply containers = elim reply [ some e ↦ ret ([], ret (some e)) | none ↦ save containers ]

  abbrev outcome : Outcome Upload × List Call → Upload × List Call
  outcome (done up, tr) = (up, tr)
  outcome (_, tr) = (([], ret none), tr)

  set_up-Ordered :
      (reply e : Option Error) (tr tr' final : List Call) (up : Upload)
      → folder_reply tr ≡ reply
      → run w (set_up reply (listed w namespace tr)) (prepared tr) ≡ (done up, tr')
      → Rest w e up.0 up.1 tr' final
      → Ordered tr e final
  unfolding run
  set_up-Ordered (some err) e tr tr' final up failed ran rest =
      let (schedule, _, ended) =
        subst (λ (x : Upload × List Call). Rest w e x.0.0 x.0.1 x.1 final) (sym (ap outcome ran))
          rest in
      let there : (weave w schedule [] (prepared tr)).1 ≡ final =
        ap (λ (r : Outcome (Option Error) × List Call). r.1) ended in
      let given : some err ≡ e = cc ended in
      inl (
        sym given ∙ sym failed,
        (λ h. cc (given, h)),
        sym there
            ∙ ap (λ (r : List (Op (Unit {0})) × List Call). r.1)
                (weave_none w schedule (prepared tr)),
      )
  set_up-Ordered none e tr tr' final up folder ran rest =
      let ((after, after_eq), (more, tr_eq)) =
        save-order (listed w namespace tr) (prepared tr) tr' up ran in
      let (last, final_eq) = Rest-Extends up.0 up.1 e tr' final rest in
      let (schedule, _, ended) = rest in
      let nothing : e ≡ none = done_of_ret w none after _ (rw after_eq at ended) in
      inr (folder, nothing, (more ++ last, final_eq ∙ rw tr_eq (simp append_assoc)))

  -- When `MigratePod` has returned, under whatever schedule of its uploads, either the folder could
  -- not be made, that error is returned and nothing else was done; or no error is returned, and the
  -- checkpoint of every listed container was requested once, in order, and the folder taken over,
  -- before the deletion of the pod was requested.
  pub migrate_pod-Ordered :
      (schedule : List ℕ) (tr : List Call) (e : Option Error)
      → result (run_fork w schedule (migrate_pod fuel pod_name namespace) tr).0 ≡ done e
      → Ordered tr e (run_fork w schedule (migrate_pod fuel pod_name namespace) tr).1
  unfolding migrate_pod print_container_ids run
  migrate_pod-Ordered schedule tr e h =
      let (ps, after, tr', ran, rest) = run_setup w e schedule _ tr h in
      set_up-Ordered (folder_reply tr) e tr tr' _ (ps, after) refl ran rest
