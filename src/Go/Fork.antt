-- ===== src/Go/Fork.antt =====
-- A goroutine that starts workers, waits for them and goes on, and one beside another goroutine.
pub mod Phases
pub mod Keeps
use live_migration_operator.Base.{
  ℕ, zero, suc, Bool, true, false, List, [], ◌∷◌, ◌++◌, if◌then◌else◌,
}
use live_migration_operator.Go.{
  Interface, Prog, ret, panic, block, poll, call, Outcome, done, panicked, blocked, World, run,
}
use live_migration_operator.Go.Weave.{advance}

abbrev pub all_returned : {I : Interface} → List (Prog I (Unit {0})) → Bool
all_returned [] = true
all_returned (ret _ ∷ ps) = all_returned ps
all_returned (_ ∷ ps) = false

pub data Fork (I : Interface) (A : Type 0) : Type 0 where
  -- the code that decides on the workers and on what follows them
  setup : Prog I (List (Prog I (Unit {0})) × Prog I A) → Fork I A
  -- in `sync.WaitGroup.Wait`
  joining : List (Prog I (Unit {0})) → Prog I A → Fork I A
  closing : Prog I A → Fork I A

module _ {I : Interface} {A : Type 0} (w : World I) where
  -- One call of a goroutine.
  unfoldable pub step : Prog I A → List I.Call → Prog I A × List I.Call
  step (call c k) tr = (k (w tr c), tr ++ c ∷ [])
  step p tr = (p, tr)

  -- One call of the goroutine, or of its worker of number `i`, or the return of `Wait`.
  unfoldable pub step_fork : ℕ → Fork I A → List I.Call → Fork I A × List I.Call
  unfolding advance step
  step_fork i (setup (ret (ps, after))) tr = (joining ps after, tr)
  step_fork i (setup (call c k)) tr = (setup (k (w tr c)), tr ++ c ∷ [])
  step_fork i (setup p) tr = (setup p, tr)
  step_fork i (joining ps after) tr =
      if all_returned ps
      then (closing after, tr)
      else let (ps', tr') = advance w i ps tr in (joining ps' after, tr')
  step_fork i (closing p) tr = let (p', tr') = step p tr in (closing p', tr')

  unfoldable pub run_fork : List ℕ → Fork I A → List I.Call → Fork I A × List I.Call
  run_fork [] f tr = (f, tr)
  run_fork (i ∷ schedule) f tr = let (f', tr') = step_fork i f tr in run_fork schedule f' tr'

-- What a goroutine has come to: its result, or the reason why there is none yet.
abbrev pub result : {I : Interface} {A : Type 0} → Fork I A → Outcome A
result (closing (ret a)) = done a
result (closing panic) = panicked
result (setup panic) = panicked
result _ = blocked
