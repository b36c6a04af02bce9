-- ===== src/Migrate/Order.antt =====
-- In which order `MigrateCheckpointParallelized` sends files, under every schedule.
use mathlib.Core.List.{Perm}
use live_migration_operator.Base.{
  ℕ, String, List, [], ◌∷◌, ◌++◌, ◌≡◌, refl, ap, ◌∙◌, sym, subst, append_assoc, Option, none, map,
  arith, join_path,
}
use live_migration_operator.Go.{ret, ◌>>=◌, Outcome, done, run}
use live_migration_operator.Go.Weave.{weave, AllEmit, remaining, joined_calls}
use live_migration_operator.Go.Fork.{setup, run_fork, result}
use live_migration_operator.Go.Fork.Phases.{run_setup}
use live_migration_operator.Kube.{Call, Error, entry_info, get_service, Op, Cluster}
use live_migration_operator.Kube.Objects.{ServicePort}
use live_migration_operator.Utils.Services.{dummy_service, address, get_dummy_service_ip_and_port}
use live_migration_operator.Migrate.Upload.{
  post_call, upload_worker, touch_call, announce, dummy_path, migrate_checkpoint_parallelized,
}

-- What one goroutine after another would call.
abbrev pub uploads : String → ℕ → String → List String → List Call
uploads ip port dir [] = []
uploads ip port dir (file ∷ files) =
    entry_info file ∷ post_call ip port (join_path dir file) ∷ uploads ip port dir files

pub trace_of_phases :
    (tr new ending : List Call) (first : Call) {started joined final : List Call}
    → started ≡ tr ++ first ∷ []
    → joined ≡ started ++ new
    → final ≡ joined ++ ending
    → final ≡ tr ++ (first ∷ new ++ ending)
trace_of_phases tr new ending first p q r = rw (
  r,
  q,
  p,
  append_assoc (tr ++ first ∷ []) new ending,
  append_assoc tr (first ∷ []) (new ++ ending),
)

module _ (w : Cluster) where
  -- `DirEntry.Info` of an entry that was read from a folder succeeds, with the entry's name.
  abbrev pub InfoWorks : Type 0
  InfoWorks = (tr : List Call) (file : String) → w tr (entry_info file) ≡ (file, none)

  AllEmit-upload_worker :
      (ip : String) (port : ℕ) (dir : String) (files : List String)
      → InfoWorks
      → (css : List (List Call)) × AllEmit w (map (upload_worker ip port dir) files) css
        × (remaining w css ≡ uploads ip port dir files)
  unfolding upload_worker
  AllEmit-upload_worker ip port dir [] h = ([], tt, refl)
  AllEmit-upload_worker ip port dir (file ∷ files) h =
      let (css, emit, e) = AllEmit-upload_worker ip port dir files h in
      let post : Call = post_call ip port (join_path dir file) in
      (
        (entry_info file ∷ post ∷ []) ∷ css,
        (
          (
            post ∷ [],
            refl,
            λ tr. rw (no_error tr) (
              [],
              ap (λ n. post_call ip port (join_path dir n) ∷ []) (sym (same_name tr)),
              λ tr. refl,
            ),
          ),
          emit,
        ),
        ap (λ l. entry_info file ∷ post ∷ l) e,
      )
    where
      same_name : (tr : List Call) → (w tr (entry_info file)).0 ≡ file
      same_name tr = ap (λ (r : String × Option Error). r.0) (h tr file)

      no_error : (tr : List Call) → (w tr (entry_info file)).1 ≡ none
      no_error tr = ap (λ (r : String × Option Error). r.1) (h tr file)

  announced :
      (ip : String) (port : ℕ) (tr : List Call) {e : Option Error} {final : List Call}
      → run w (announce ip port) tr ≡ (done e, final)
      → (e ≡ none) × (final ≡ tr ++ (touch_call ∷ post_call ip port dummy_path ∷ []))
  unfolding announce run
  announced ip port tr h = (
    ground arith,
    sym (ap (λ (r : Outcome (Option Error) × List Call). r.1) h)
        ∙ append_assoc tr (touch_call ∷ []) (post_call ip port dummy_path ∷ []),
  )

  module _ (files : List String) (dir namespace : String) where
    -- What the setup leaves: the goroutines for an address, and what follows them.
    abbrev Started : List (Op Unit) → Op (Option Error) → List Call → List Call → Type 0
    Started ps after tr tr' =
        (ip : String) × (port : ℕ) × (ps ≡ map (upload_worker ip port dir) files)
        × (after ≡ announce ip port)
        × (tr' ≡ tr ++ get_service namespace dummy_service ∷ [])

    started_at :
        (ip : String) (ports : List ServicePort) {ps : List (Op Unit)} {after : Op (Option Error)}
        (tr : List Call) {tr' : List Call}
        → run {A = List (Op Unit) × Op (Option Error)} w
            (address ip ports >>= λ (a, p). ret (map (upload_worker a p dir) files, announce a p))
            (tr ++ get_service namespace dummy_service ∷ [])
          ≡ (done (ps, after), tr')
        → Started ps after tr tr'
    unfolding run
    started_at ip [] tr h = cc
    started_at ip (p ∷ ports) tr h = (ip, p.port, ground arith, ground arith, ground arith)

    pub started :
        (ps : List (Op Unit)) (after : Op (Option Error)) (tr : List Call) (tr' : List Call)
        → run w (migrate_checkpoint_parallelized files dir namespace) tr ≡ (done (ps, after), tr')
        → Started ps after tr tr'
    unfolding migrate_checkpoint_parallelized get_dummy_service_ip_and_port run
    started ps after tr tr' h =
        let service = (w tr (get_service namespace dummy_service)).0 in
        started_at service.cluster_ip service.ports tr h

    -- If `Info` of every entry succeeds with the entry's name, then under every schedule, when
    -- `MigrateCheckpointParallelized` has returned, each entry was looked up and sent exactly
    -- once in between, the last two calls create and send the marker file, and no error is
    -- returned.
    pub marker_sent_last :
        (schedule : List ℕ) (tr : List Call) (e : Option Error)
        → InfoWorks
        → result
            (run_fork w schedule (setup (migrate_checkpoint_parallelized files dir namespace)) tr).0
          ≡ done e
        → (ip : String) × (port : ℕ) × (new : List Call) × (Perm new (uploads ip port dir files))
          × ((run_fork w schedule
                (setup (migrate_checkpoint_parallelized files dir namespace))
                tr).1
              ≡ tr
                ++ (get_service namespace dummy_service ∷ new
                    ++ (touch_call ∷ post_call ip port dummy_path ∷ [])))
          × (e ≡ none)
    marker_sent_last schedule tr e works h =
        let (ps, after, tr', ran, (schedule', joined, rest)) =
          run_setup w e schedule (migrate_checkpoint_parallelized files dir namespace) tr h in
        let (ip, port, ps_eq, after_eq, tr_eq) = started ps after tr tr' ran in
        let (css, emit, all) = AllEmit-upload_worker ip port dir files works in
        let (new, new_eq, same) = joined_calls w schedule' ps css tr' (rw ps_eq emit) joined in
        let at_end = (weave w schedule' ps tr').1 in
        let ends = announced ip port at_end (rw after_eq at rest) in
        (
          ip,
          port,
          new,
          subst (λ l. Perm new l) all same,
          trace_of_phases tr new _ _ tr_eq new_eq ends.1,
          ends.0,
        )
