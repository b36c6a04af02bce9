-- ===== src/Go/Beside.antt =====
-- A function that runs beside a goroutine: each turn is one call of one of the two.
pub mod Laws
pub mod Progress
use live_migration_operator.Base.{ℕ, List, [], ◌∷◌}
use live_migration_operator.Go.{Interface, Prog, World}
use live_migration_operator.Go.Fork.{Fork, step, step_fork}

pub data Turn : Type 0 where
  -- the function itself
  caller : Turn
  -- the goroutine, or its worker of this number
  other : ℕ → Turn

module _ {I : Interface} {A B : Type 0} (w : World I) where
  unfoldable pub run_beside :
      List Turn → Prog I A → Fork I B → List I.Call → Prog I A × Fork I B × List I.Call
  run_beside [] p f tr = (p, f, tr)
  run_beside (caller ∷ turns) p f tr = let (p', tr') = step w p tr in run_beside turns p' f tr'
  run_beside (other i ∷ turns) p f tr =
      let (f', tr') = step_fork w i f tr in run_beside turns p f' tr'
