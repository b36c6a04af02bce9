-- ===== src/Go/Fork/Phases.antt =====
-- A goroutine that has come to its result has run its setup, then all its workers, then the rest.
use live_migration_operator.Base.{
  ℕ, true, false, List, [], ◌∷◌, ◌++◌, ◌≡◌, refl, Bool-cases, inl, inr,
}
use live_migration_operator.Go.{Interface, Prog, ret, panic, block, poll, call, done, World, run}
use live_migration_operator.Go.Weave.{Joined, advance, weave}
use live_migration_operator.Go.Fork.{
  Fork, setup, joining, closing, all_returned, step_fork, run_fork, result,
}

Joined_of_all_returned :
    {I : Interface} (ps : List (Prog I (Unit {0}))) → all_returned ps ≡ true → Joined ps
Joined_of_all_returned [] h = tt
Joined_of_all_returned (ret a ∷ ps) h = Joined_of_all_returned ps h
Joined_of_all_returned (panic ∷ ps) h = cc
Joined_of_all_returned (_ ∷ ps) h = cc

module _ {I : Interface} {A : Type 0} (w : World I) (a : A) where
  run_closing :
      (schedule : List ℕ) (p : Prog I A) (tr : List I.Call)
      → result (run_fork w schedule (closing p) tr).0 ≡ done a
      → run w p tr ≡ (done a, (run_fork w schedule (closing p) tr).1)
  unfolding run_fork step_fork run
  run_closing [] (ret b) tr h = cc
  run_closing [] panic tr h = cc
  run_closing [] _ tr h = cc
  run_closing (i ∷ schedule) (call c k) tr h = run_closing schedule (k (w tr c)) (tr ++ c ∷ []) h
  run_closing (i ∷ schedule) (ret b) tr h = run_closing schedule (ret b) tr h
  run_closing (i ∷ schedule) panic tr h = run_closing schedule panic tr h
  run_closing (i ∷ schedule) block tr h = run_closing schedule block tr h
  run_closing (i ∷ schedule) poll tr h = run_closing schedule poll tr h

  -- The workers have been joined, and what follows them has run.
  abbrev pub Rest : List (Prog I (Unit {0})) → Prog I A → List I.Call → List I.Call → Type 0
  Rest ps after tr final =
      (schedule : List ℕ) × Joined (weave w schedule ps tr).0
      × (run w after (weave w schedule ps tr).1 ≡ (done a, final))

  run_fork-cons :
      (i : ℕ) (schedule : List ℕ) (f : Fork I A) (tr : List I.Call)
      → run_fork w (i ∷ schedule) f tr
        ≡ run_fork w schedule (step_fork w i f tr).0 (step_fork w i f tr).1
  unfolding run_fork
  run_fork-cons i schedule f tr = refl

  run_fork_joined :
      (i : ℕ) (schedule : List ℕ) (ps : List (Prog I (Unit {0}))) (after : Prog I A)
      (tr : List I.Call)
      → all_returned ps ≡ true
      → run_fork w (i ∷ schedule) (joining ps after) tr ≡ run_fork w schedule (closing after) tr
  unfolding step_fork
  run_fork_joined i schedule ps after tr e = rw (run_fork-cons i schedule (joining ps after) tr, e)

  run_fork_unjoined :
      (i : ℕ) (schedule : List ℕ) (ps : List (Prog I (Unit {0}))) (after : Prog I A)
      (tr : List I.Call)
      → all_returned ps ≡ false
      → run_fork w (i ∷ schedule) (joining ps after) tr
        ≡ run_fork w schedule (joining (advance w i ps tr).0 after) (advance w i ps tr).1
  unfolding step_fork
  run_fork_unjoined i schedule ps after tr e =
      rw (run_fork-cons i schedule (joining ps after) tr, e)

  run_joining :
      (schedule : List ℕ) (ps : List (Prog I (Unit {0}))) (after : Prog I A) (tr : List I.Call)
      → result (run_fork w schedule (joining ps after) tr).0 ≡ done a
      → Rest ps after tr (run_fork w schedule (joining ps after) tr).1
  unfolding weave
  run_joining [] ps after tr h = unfold run_fork in cc
  run_joining (i ∷ schedule) ps after tr h = elim (Bool-cases (all_returned ps)) [
    | inl e ↦
        let t = run_fork_joined i schedule ps after tr e in
        ([], Joined_of_all_returned ps e, rw t (run_closing schedule after tr (rw t at h)))
    | inr e ↦
        let t = run_fork_unjoined i schedule ps after tr e in
        let (schedule', joined, r) =
          run_joining schedule (advance w i ps tr).0 after (advance w i ps tr).1 (rw t at h) in
        (i ∷ schedule', joined, rw t r)
  ]

  -- A run of a goroutine that has come to the result `a`, in its three phases.
  abbrev pub Phases :
      Prog I (List (Prog I (Unit {0})) × Prog I A) → List I.Call → List I.Call → Type 0
  Phases m tr final =
      (ps : List (Prog I (Unit {0}))) × (after : Prog I A) × (tr' : List I.Call) × (run w m tr
        ≡ (done (ps, after), tr'))
      × Rest ps after tr' final

  pub run_setup :
      (schedule : List ℕ) (m : Prog I (List (Prog I (Unit {0})) × Prog I A)) (tr : List I.Call)
      → result (run_fork w schedule (setup m) tr).0 ≡ done a
      → Phases m tr (run_fork w schedule (setup m) tr).1
  unfolding run_fork step_fork run
  run_setup [] panic tr h = cc
  run_setup [] (ret _) tr h = cc
  run_setup [] _ tr h = cc
  run_setup (i ∷ schedule) (ret (ps, after)) tr h =
      (ps, after, tr, refl, run_joining schedule ps after tr h)
  run_setup (i ∷ schedule) (call c k) tr h = run_setup schedule (k (w tr c)) (tr ++ c ∷ []) h
  run_setup (i ∷ schedule) panic tr h = run_setup schedule panic tr h
  run_setup (i ∷ schedule) block tr h = run_setup schedule block tr h
  run_setup (i ∷ schedule) poll tr h = run_setup schedule poll tr h
