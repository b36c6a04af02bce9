-- ===== src/Startup.antt =====
-- main.go: the process of the controller.
use live_migration_operator.Base.{
  ℕ, String, List, [], ◌∷◌, ◌++◌, ◌≡◌, refl, Bool, true, false, Option, none, some, ◌↔◌, ◌⊎◌, inl,
  inr, Bool-cases, Option-cases, arith,
}
use live_migration_operator.Go.{
  Interface, Prog, ret, panic, call, ◌>>=◌, ◌>>◌, World, done, panicked, run,
}

-- `ctrl.Options`, the fields that are set
pub record Options : Type 0 where
  pub leader_election : Bool
  pub leader_election_id : String

pub data Call : Type 0 where
  -- buildah.InitReexec
  init_reexec : Call
  -- unshare.MaybeReexecUsingUserNamespace
  maybe_reexec : Bool → Call
  -- ctrl.GetConfig
  get_config : Call
  -- ctrl.NewManager, which returns a nil manager beside an error
  new_manager : Options → Call
  sleep : ℕ → Call
  -- SetupWithManager of the reconciler
  setup_with_manager : Call
  -- mgr.Start under the signal handler
  start_manager : Call

abbrev pub Reply : Call → Type 0
Reply init_reexec = Bool
Reply (maybe_reexec _) = Unit
Reply get_config = Option String
Reply (new_manager _) = Option String
Reply (sleep _) = Unit
Reply setup_with_manager = Option String
Reply start_manager = Option String

abbrev pub host : Interface
host = record { Call = Call; Reply = Reply }

abbrev ask : (c : Call) → Prog host (Reply c)
ask c = call c ret

abbrev pub poll_interval : ℕ
poll_interval = 30

abbrev pub options : Bool → Options
options leader_election = record {
  leader_election = leader_election;
  leader_election_id = "a9d120af.livemigration.liqo.io";
}

-- The reconciler is set up, and the manager runs; the result is the code of the process.
unfoldable pub serve : Prog host ℕ
serve = do
  e ← ask setup_with_manager
  elim e [
    | some _ ↦ ret 1
    | none ↦ do e ← ask start_manager; elim e [ some _ ↦ ret 1 | none ↦ ret 0 ]
  ]

-- `main`, by the flag for the election of a leader. An error of the configuration or of the manager
-- is logged; the nil manager is then read.
unfoldable pub main : Bool → Prog host ℕ
unfolding serve
main leader_election = do
  reexec ← ask init_reexec
  elim reexec [
    | true ↦ ret 0
    | false ↦ do
      ask (maybe_reexec false)
      ask get_config
      e ← ask (new_manager (options leader_election))
      elim e [ some _ ↦ do ask (sleep poll_interval); panic | none ↦ serve ]
  ]

module _ (w : World host) (leader_election : Bool) (tr : List Call) where
  -- What was called when the manager is made, set up and started.
  abbrev asked : List Call
  asked = ((tr ++ init_reexec ∷ []) ++ maybe_reexec false ∷ []) ++ get_config ∷ []

  abbrev made : List Call
  made = asked ++ new_manager (options leader_election) ∷ []

  -- The process goes on, and a manager is made.
  abbrev pub GoesOn : Option String → Type 0
  GoesOn e = (w tr init_reexec ≡ false) × (w asked (new_manager (options leader_election)) ≡ e)

  abbrev pub Serves : Type 0
  Serves =
      GoesOn none
      × (w made setup_with_manager ≡ none)
      × (w (made ++ setup_with_manager ∷ []) start_manager ≡ none)

  -- The process ends well exactly if it is a re-executed helper, or its manager was made, set up and
  -- run without an error. It panics exactly if the manager could not be made. Otherwise it exits with 1.
  pub main_ends :
      (((run w (main leader_election) tr).0 ≡ done 0) ↔ ((w tr init_reexec ≡ true) ⊎ Serves))
      × (((run w (main leader_election) tr).0 ≡ panicked) ↔ ((e : String) × GoesOn (some e)))
      × (((run w (main leader_election) tr).0 ≡ done 0)
          ⊎ ((run w (main leader_election) tr).0 ≡ done 1)
          ⊎ ((run w (main leader_election) tr).0 ≡ panicked))
  unfolding main serve run
  main_ends = elim (Bool-cases (w tr init_reexec)) [
    | inl helper ↦ rw helper (ground arith)
    | inr on ↦ elim (Option-cases (w asked (new_manager (options leader_election)))) [
      | inr (e, failed) ↦
          rw (on, failed)
            ((λ h. cc h, λ h. ground arith), (λ h. (e, (refl, refl)), λ h. refl), inr (inr refl))
      | inl managed ↦ elim (Option-cases (w made setup_with_manager)) [
        | inr (e, failed) ↦
            rw (on, managed, failed)
              (
                (λ h. ground arith, λ h. ground arith),
                (λ h. cc h, λ h. ground arith),
                inr (inl refl),
              )
        | inl setup ↦ elim (Option-cases (w (made ++ setup_with_manager ∷ []) start_manager)) [
          | inr (e, failed) ↦
              rw (on, managed, setup, failed)
                (
                  (λ h. ground arith, λ h. ground arith),
                  (λ h. cc h, λ h. ground arith),
                  inr (inl refl),
                )
          | inl ran ↦
              rw (on, managed, setup, ran)
                (
                  (λ h. inr ((refl, refl), refl, refl), λ h. refl),
                  (λ h. cc h, λ h. ground arith),
                  inl refl,
                )
        ]
      ]
    ]
  ]
