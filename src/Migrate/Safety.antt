-- ===== src/Migrate/Safety.antt =====
-- What `MigratePodPipelined` has done when it returns: which calls, and in which order.
use live_migration_operator.Base.{
  ℕ, String, Bool, true, false, List, [], ◌∷◌, ◌++◌, ◌≡◌, refl, ap, ◌∙◌, sym, append_assoc, Option,
  none, some, arith, Extends, Extends-refl, inl, inr, ◌⊎◌,
}
use live_migration_operator.Go.{
  ret, panic, call, ◌>>=◌, Outcome, done, panicked, blocked, polling, run,
}
use live_migration_operator.Go.Fork.{Fork, run_fork, result}
use live_migration_operator.Go.Beside.{Turn, run_beside}
use live_migration_operator.Go.Beside.Laws.{run_beside-Extends, next_call, beside-ret}
use live_migration_operator.Kube.{
  Call, Error, kube, get_pod, delete_pod, list_pods, remove_all, Op, Cluster,
}
use live_migration_operator.Utils.Pods.{
  Container, containers_of, print_container_ids, wait_for_pod_deletion,
}
use live_migration_operator.Checkpoint.{terminate_checkpointed_pod}
use live_migration_operator.Checkpoint.Laws.{run-terminate}
use live_migration_operator.Migrate.StageOne.{Sent, stage_one-Sent}
use live_migration_operator.Migrate.Pod.{
  checkpoints_dir, or_nil, stage_one, stage_two, stage_three, after_stage_one,
  migrate_pod_pipelined,
}

abbrev State : Type 0
State = Op (Option Error) × Fork kube Bool × List Call

abbrev Ended : Type 0
Ended = Outcome (Option Error) × List Call

Extends-of_pair :
    {o o' : Outcome (Option Error)} {tr final : List Call}
    → ◌≡◌ {A = Ended} (o, tr) (o', final)
    → Extends tr final
Extends-of_pair {tr = tr} h = rw (ap (λ (r : Ended). r.1) h) (Extends-refl _)

two_calls :
    (tr new₁ new₂ new₃ : List Call) (c d : Call) {tr₁ tr₂ : List Call}
    → tr₁ ≡ tr ++ new₁
    → tr₂ ≡ (tr₁ ++ c ∷ []) ++ new₂
    → (tr₂ ++ d ∷ []) ++ new₃ ≡ tr ++ ((new₁ ++ c ∷ new₂) ++ d ∷ new₃)
two_calls tr new₁ new₂ new₃ c d p q = rw (q, p) (simp append_assoc)

-- The containers that were listed.
abbrev pub listed : Cluster → String → List Call → List Container
listed w namespace tr = or_nil (containers_of (w tr (list_pods namespace)))

-- Stage 1 under a schedule, after the containers were listed.
abbrev pub stage_one_run :
    Cluster → String → String → List ℕ → List Call → Fork kube Bool × List Call
stage_one_run w pod_name namespace schedule tr =
    run_fork w schedule (stage_one (listed w namespace tr) pod_name namespace)
      (tr ++ list_pods namespace ∷ [])

module _ (w : Cluster) (fuel : ℕ) (pod_name namespace : String) where
  -- Behind the first trace, the pod was deleted.
  abbrev pub Deletes : List Call → List Call → Type 0
  Deletes tr final =
      (before : List Call) × (after : List Call) × (final
        ≡ tr ++ (before ++ delete_pod namespace pod_name ∷ after))

  pub beside-Deletes :
      (turns : List Turn) (f : Fork kube Bool) (tr : List Call) (e : Option Error)
      → (run_beside w turns (terminate_checkpointed_pod fuel pod_name namespace) f tr).0 ≡ ret e
      → (e ≡ none)
        × Deletes tr
            (run_beside w turns (terminate_checkpointed_pod fuel pod_name namespace) f tr).2
  unfolding terminate_checkpointed_pod
  beside-Deletes turns f tr e h =
      let wait : Op (Option Error) = wait_for_pod_deletion fuel pod_name namespace in
      let rest : Op (Option Error) = wait >>= λ _. ret none in
      let (turns₁, f₁, tr₁, (new₁, e₁), same₁) =
        next_call w turns (get_pod namespace pod_name)
          (λ _. call (delete_pod namespace pod_name) (λ _. rest)) f tr e h in
      let first = ap (λ (r : State). r.0) same₁ in
      let (turns₂, f₂, tr₂, (new₂, e₂), same₂) =
        next_call w turns₁ (delete_pod namespace pod_name) (λ _. rest) f₁
          (tr₁ ++ get_pod namespace pod_name ∷ []) e (sym first ∙ h) in
      let second = ap (λ (r : State). r.0) same₂ in
      let deleted : List Call = tr₂ ++ delete_pod namespace pod_name ∷ [] in
      let (new₃, e₃) = run_beside-Extends w turns₂ rest f₂ deleted in
      (
        beside-ret w none turns₂ wait f₂ deleted (sym second ∙ (sym first ∙ h)),
        (
          new₁ ++ get_pod namespace pod_name ∷ new₂,
          new₃,
          ap (λ (r : State). r.2) (same₁ ∙ same₂) ∙ (e₃ ∙ two_calls tr new₁ new₂ new₃ _ _ e₁ e₂),
        ),
      )

  -- Stage 3 returns only after the termination did, and without an error if that had none.
  stage_three_done :
      (p : Op (Option Error)) (two : Outcome Bool) (tr : List Call) (e : Option Error)
      (final : List Call)
      → stage_three w p two tr ≡ (done e, final)
      → (e' : Option Error) × (p ≡ ret e') × (e' ≡ none → e ≡ none) × Extends tr final
  unfolding stage_three run
  stage_three_done panic two tr e final h = cc
  stage_three_done (ret (some x)) panicked tr e final h = cc
  stage_three_done (ret (some x)) (done b) tr e final h =
      (some x, refl, (λ q. cc), Extends-of_pair h)
  stage_three_done (ret (some x)) blocked tr e final h =
      (some x, refl, (λ q. cc), Extends-of_pair h)
  stage_three_done (ret (some x)) polling tr e final h =
      (some x, refl, (λ q. cc), Extends-of_pair h)
  stage_three_done (ret none) (done true) tr e final h = (
    none,
    refl,
    (λ q. ground arith),
    (remove_all checkpoints_dir ∷ [], sym (ap (λ (r : Ended). r.1) h)),
  )
  stage_three_done (ret none) (done false) tr e final h =
      (none, refl, (λ q. ground arith), Extends-of_pair h)
  stage_three_done (ret none) _ tr e final h = cc
  stage_three_done p panicked tr e final h = cc
  stage_three_done _ two tr e final h = cc

  Deletes-of_Extends :
      (tr tr' final : List Call) → Deletes tr tr' → Extends tr' final → Deletes tr final
  Deletes-of_Extends tr tr' final (before, after, e) (new, e') =
      (before, after ++ new, e' ∙ (rw e (simp append_assoc)))

  -- Whatever stage 1 has come to, what follows it deletes the pod and returns no error.
  after_stage_one-Deletes :
      (sent : Bool) (turns : List Turn) (tr : List Call) (e : Option Error) (final : List Call)
      → after_stage_one w fuel pod_name namespace (done sent) turns tr ≡ (done e, final)
      → (e ≡ none) × Deletes tr final
  unfolding after_stage_one
  after_stage_one-Deletes true turns tr e final h =
      let r =
        run_beside w turns (terminate_checkpointed_pod fuel pod_name namespace)
          (stage_two namespace) tr in
      let (e', returned, no_error, ext) = stage_three_done r.0 (result r.1) r.2 e final h in
      let (e'_none, deletes) = beside-Deletes turns (stage_two namespace) tr e' returned in
      (no_error e'_none, Deletes-of_Extends tr r.2 final deletes ext)
  after_stage_one-Deletes false turns tr e final h =
      let (e_none, rest, e') = run-terminate w namespace pod_name fuel tr e final h in
      (e_none, (get_pod namespace pod_name ∷ [], rest, e'))

  pub after_stage_one_done :
      (one : Outcome Bool) (turns : List Turn) (tr : List Call) (e : Option Error)
      (final : List Call)
      → after_stage_one w fuel pod_name namespace one turns tr ≡ (done e, final)
      → (sent : Bool) × (one ≡ done sent) × (e ≡ none) × Deletes tr final
  unfolding after_stage_one
  after_stage_one_done (done sent) turns tr e final h =
      let (e_none, deletes) = after_stage_one-Deletes sent turns tr e final h in
      (sent, refl, e_none, deletes)
  after_stage_one_done panicked turns tr e final h = cc
  after_stage_one_done _ turns tr e final h = cc

  module _ (schedule : List ℕ) (turns : List Turn) (tr : List Call) where
    -- Under every schedule, when the function returns it returns no error and has requested the
    -- deletion of the pod, after stage 1 had come to its end: either with the checkpoint of every
    -- listed container requested and the folder's path sent, or with nothing sent.
    pub migrate_pod_pipelined-Deletes :
        (e : Option Error) (final : List Call)
        → migrate_pod_pipelined w fuel pod_name namespace schedule turns tr ≡ (done e, final)
        → (e ≡ none)
          × Deletes (stage_one_run w pod_name namespace schedule tr).1 final
          × ((result (stage_one_run w pod_name namespace schedule tr).0 ≡ done true)
                × Sent w
                    (listed w namespace tr)
                    pod_name
                    namespace
                    (tr ++ list_pods namespace ∷ [])
                    (stage_one_run w pod_name namespace schedule tr).1
              ⊎ (result (stage_one_run w pod_name namespace schedule tr).0 ≡ done false))
    unfolding migrate_pod_pipelined print_container_ids run
    migrate_pod_pipelined-Deletes e final h =
        let (sent, one_eq, e_none, deletes) =
          after_stage_one_done (result (stage_one_run w pod_name namespace schedule tr).0) turns
            (stage_one_run w pod_name namespace schedule tr).1 e final h in
        (e_none, deletes, by_sent sent one_eq)
      where
        by_sent :
            (sent : Bool)
            → result (stage_one_run w pod_name namespace schedule tr).0 ≡ done sent
            → (result (stage_one_run w pod_name namespace schedule tr).0 ≡ done true)
                × Sent w
                    (listed w namespace tr)
                    pod_name
                    namespace
                    (tr ++ list_pods namespace ∷ [])
                    (stage_one_run w pod_name namespace schedule tr).1
              ⊎ (result (stage_one_run w pod_name namespace schedule tr).0 ≡ done false)
        by_sent true q = inl (
          q,
          stage_one-Sent w (listed w namespace tr) pod_name namespace schedule
              (tr ++ list_pods namespace ∷ []) q,
        )
        by_sent false q = inr q
