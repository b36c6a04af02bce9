-- ===== src/Migrate/StageOne.antt =====
-- Stage 1 of `MigratePodPipelined`: what has been called when the folder's path is sent.
use mathlib.Core.List.{Perm}
use live_migration_operator.Base.{
  ℕ, String, Bool, true, false, List, [], ◌∷◌, ◌++◌, ◌≡◌, ◌∙◌, append_assoc, Option, none, some,
  arith, inl, inr, ◌⊎◌,
}
use live_migration_operator.Go.{ret, ◌>>=◌, Outcome, done, run}
use live_migration_operator.Go.Calls.{made, final_trace}
use live_migration_operator.Go.Fork.{run_fork, result}
use live_migration_operator.Go.Fork.Phases.{run_setup, Rest}
use live_migration_operator.Kube.{Call, Error, remove_all, mkdir_all, chown_self, Op, ask, Cluster}
use live_migration_operator.Utils.Pods.{Container}
use live_migration_operator.Checkpoint.{checkpoint_workers}
use live_migration_operator.Checkpoint.Laws.{requests, checkpoint_workers-perm}
use live_migration_operator.Migrate.Pod.{checkpoints_dir, Plan, or_stop, send_path, stage_one}

abbrev Started : Type 0
Started = Outcome Plan × List Call

send_path_calls :
    (w : Cluster) (tr : List Call) {sent : Bool} {final : List Call}
    → run w send_path tr ≡ (done sent, final)
    → final ≡ tr ++ chown_self checkpoints_dir ∷ []
unfolding send_path made
send_path_calls w tr h = final_trace w send_path tr h

-- A stage that goes on to send a path was not stopped.
or_stop_started :
    (w : Cluster) (e : Option Error) (rest : Op Plan) (tr : List Call) (ps : List (Op Unit))
    (after : Op Bool) (tr' : List Call)
    → ◌≡◌ {A = Started} (run w (or_stop e rest) tr) (done (ps, after), tr')
    → (after ≡ ret false) ⊎ (run w rest tr ≡ (done (ps, after), tr'))
unfolding run
or_stop_started w none rest tr ps after tr' h = inr h
or_stop_started w (some _) rest tr ps after tr' h = inl (ground arith)

not_sent :
    (w : Cluster) (ps : List (Op Unit)) (after : Op Bool) (tr final : List Call)
    → Rest w true ps after tr final
    → ¬ (after ≡ ret false)
unfolding run
not_sent w ps after tr final (schedule, joined, h) e = cc (rw e at h)

module _ (w : Cluster) (containers : List Container) (pod_name namespace : String) where
  abbrev folder : Op Plan
  folder = do
    e ← ask (mkdir_all checkpoints_dir 0o777)
    or_stop e (ret (checkpoint_workers containers namespace pod_name, send_path))

  abbrev Planned : List (Op Unit) → Op Bool → List Call → List Call → Type 0
  Planned ps after tr tr' =
      (ps ≡ checkpoint_workers containers namespace pod_name)
      × (after ≡ send_path)
      × (tr' ≡ (tr ++ remove_all checkpoints_dir ∷ []) ++ mkdir_all checkpoints_dir 0o777 ∷ [])

  planned :
      (tr : List Call) (ps : List (Op Unit)) (after : Op Bool) (tr' : List Call)
      → ¬ (after ≡ ret false)
      → ◌≡◌ {A = Started}
          (run w (do e ← ask (remove_all checkpoints_dir); or_stop e folder) tr)
          (done (ps, after), tr')
      → Planned ps after tr tr'
  unfolding run
  planned tr ps after tr' sends h =
      let tr₁ : List Call = tr ++ remove_all checkpoints_dir ∷ [] in
      let tr₂ : List Call = tr₁ ++ mkdir_all checkpoints_dir 0o777 ∷ [] in
      elim (or_stop_started w (w tr (remove_all checkpoints_dir)) folder tr₁ ps after tr' h) [
        | inl stopped ↦ absurd (sends stopped)
        | inr h₁ ↦
            elim (or_stop_started w (w tr₁ (mkdir_all checkpoints_dir 0o777))
              (ret (checkpoint_workers containers namespace pod_name, send_path)) tr₂ ps after tr'
              h₁) [
                | inl stopped ↦ absurd (sends stopped)
                | inr h₂ ↦ (ground arith, ground arith, ground arith)
              ]
      ]

  abbrev pub Sent : List Call → List Call → Type 0
  Sent tr final =
      (new : List Call) × (Perm new (requests w namespace pod_name containers))
      × (final
          ≡ tr
            ++ (remove_all checkpoints_dir ∷ mkdir_all checkpoints_dir 0o777 ∷ new
                ++ chown_self checkpoints_dir ∷ []))

  Sent-of_Planned :
      (ps : List (Op Unit)) (after : Op Bool) (tr tr' final : List Call)
      → Planned ps after tr tr'
      → Rest w true ps after tr' final
      → Sent tr final
  Sent-of_Planned ps after tr tr' final (ps_eq, after_eq, tr_eq) rest =
      let (schedule, joined, ended) = rw (ps_eq, after_eq) at rest in
      let (new, new_eq, same) =
        checkpoint_workers-perm w namespace pod_name containers schedule tr' joined in
      (new, same, send_path_calls w _ ended ∙ rw (new_eq, tr_eq) (simp append_assoc))

  -- When stage 1 sends the folder's path, it has emptied and made the folder, then requested the
  -- checkpoint of every container once, in some order, and then taken the folder over.
  pub stage_one-Sent :
      (schedule : List ℕ) (tr : List Call)
      → result (run_fork w schedule (stage_one containers pod_name namespace) tr).0 ≡ done true
      → Sent tr (run_fork w schedule (stage_one containers pod_name namespace) tr).1
  unfolding stage_one
  stage_one-Sent schedule tr h =
      let (ps, after, tr', ran, rest) = run_setup w true schedule _ tr h in
      Sent-of_Planned ps after tr tr' _
        (planned tr ps after tr' (not_sent w ps after tr' _ rest) ran) rest
