-- ===== src/Go/Beside/Laws.antt =====
-- A run of a function beside a goroutine extends the trace, and makes the function's calls.
use live_migration_operator.Base.{
  ℕ, zero, suc, List, [], ◌∷◌, ◌++◌, ◌≡◌, refl, arith, Bool-cases, Extends, Extends-refl,
  Extends-trans, inl, inr,
}
use live_migration_operator.Go.{Interface, Prog, ret, panic, block, poll, call, World, ◌>>=◌}
use live_migration_operator.Go.Weave.{advance}
use live_migration_operator.Go.Fork.{Fork, setup, joining, closing, all_returned, step, step_fork}
use live_migration_operator.Go.Beside.{Turn, caller, other, run_beside}

module _ {I : Interface} (w : World I) where
  pub advance-Extends :
      (i : ℕ) (ps : List (Prog I (Unit {0}))) (tr : List I.Call) → Extends tr (advance w i ps tr).1
  unfolding advance
  advance-Extends i [] tr = Extends-refl tr
  advance-Extends zero (call c k ∷ ps) tr = (c ∷ [], refl)
  advance-Extends zero (ret a ∷ ps) tr = Extends-refl tr
  advance-Extends zero (_ ∷ ps) tr = Extends-refl tr
  advance-Extends (suc i) (p ∷ ps) tr = advance-Extends i ps tr

module _ {I : Interface} {A : Type 0} (w : World I) where
  pub step-Extends : (p : Prog I A) (tr : List I.Call) → Extends tr (step w p tr).1
  unfolding step
  step-Extends (call c k) tr = (c ∷ [], refl)
  step-Extends (ret a) tr = Extends-refl tr
  step-Extends _ tr = Extends-refl tr

  pub step_fork-Extends :
      (i : ℕ) (f : Fork I A) (tr : List I.Call) → Extends tr (step_fork w i f tr).1
  unfolding step_fork
  step_fork-Extends i (setup (ret (ps, after))) tr = Extends-refl tr
  step_fork-Extends i (setup (call c k)) tr = (c ∷ [], refl)
  step_fork-Extends i (setup panic) tr = Extends-refl tr
  step_fork-Extends i (setup block) tr = Extends-refl tr
  step_fork-Extends i (setup poll) tr = Extends-refl tr
  step_fork-Extends i (joining ps after) tr = elim (Bool-cases (all_returned ps)) [
    | inl e ↦ rw e (Extends-refl tr)
    | inr e ↦ rw e (advance-Extends w i ps tr)
  ]
  step_fork-Extends i (closing p) tr = step-Extends p tr

module _ {I : Interface} {A B : Type 0} (w : World I) where
  pub run_beside-Extends :
      (turns : List Turn) (p : Prog I A) (f : Fork I B) (tr : List I.Call)
      → Extends tr (run_beside w turns p f tr).2
  unfolding run_beside
  run_beside-Extends [] p f tr = Extends-refl tr
  run_beside-Extends (caller ∷ turns) p f tr =
      Extends-trans tr _ _ (step-Extends w p tr)
        (run_beside-Extends turns (step w p tr).0 f (step w p tr).1)
  run_beside-Extends (other i ∷ turns) p f tr =
      Extends-trans tr _ _ (step_fork-Extends w i f tr)
        (run_beside-Extends turns p (step_fork w i f tr).0 (step_fork w i f tr).1)

  -- If the function returns in the end, its next call is made at some point, and the run goes on
  -- from there.
  pub next_call :
      (turns : List Turn) (c : I.Call) (k : I.Reply c → Prog I A) (f : Fork I B) (tr : List I.Call)
      (a : A)
      → (run_beside w turns (call c k) f tr).0 ≡ ret a
      → (turns' : List Turn) × (f' : Fork I B) × (tr' : List I.Call) × Extends tr tr'
        × (run_beside w turns (call c k) f tr
            ≡ run_beside w turns' (k (w tr' c)) f' (tr' ++ c ∷ []))
  unfolding run_beside step
  next_call [] c k f tr a h = cc
  next_call (caller ∷ turns) c k f tr a h = (turns, f, tr, Extends-refl tr, refl)
  next_call (other i ∷ turns) c k f tr a h =
      let (turns', f', tr', ext, e) =
        next_call turns c k (step_fork w i f tr).0 (step_fork w i f tr).1 a h in
      (turns', f', tr', Extends-trans tr _ _ (step_fork-Extends w i f tr) ext, e)

module _ {I : Interface} {A B C : Type 0} (w : World I) (b : A) where
  -- A function that ends in `return b` returns `b` here too.
  pub beside-ret :
      (turns : List Turn) (p : Prog I C) (f : Fork I B) (tr : List I.Call) {a : A}
      → (run_beside w turns (p >>= λ _. ret b) f tr).0 ≡ ret a
      → a ≡ b
  unfolding run_beside step
  beside-ret [] (ret _) f tr h = ground arith
  beside-ret [] panic f tr h = cc
  beside-ret [] _ f tr h = cc
  beside-ret (caller ∷ turns) (call c k) f tr h = beside-ret turns (k (w tr c)) f (tr ++ c ∷ []) h
  beside-ret (caller ∷ turns) (ret x) f tr h = beside-ret turns (ret x) f tr h
  beside-ret (caller ∷ turns) panic f tr h = beside-ret turns panic f tr h
  beside-ret (caller ∷ turns) block f tr h = beside-ret turns block f tr h
  beside-ret (caller ∷ turns) poll f tr h = beside-ret turns poll f tr h
  beside-ret (other i ∷ turns) p f tr h =
      beside-ret turns p (step_fork w i f tr).0 (step_fork w i f tr).1 h
