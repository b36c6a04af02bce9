-- ===== src/Go.antt =====
-- Go code as a value: the calls that it makes of the world outside, in order, and what it does
-- with each reply. The children prove what holds of every such value.
pub mod Calls
pub mod Weave
pub mod Fork
pub mod Beside
pub mod Progress
use live_migration_operator.Base.{String, List, [], ◌∷◌, ◌++◌, ◌≡◌, refl}

-- What a process can ask of the world, and what each question is answered with.
pub record Interface : Type 1 where
  pub Call : Type 0
  pub Reply : Call → Type 0

pub data Prog (I : Interface) (A : Type 0) : Type 0 where
  ret : A → Prog I A
  -- a run-time panic
  panic : Prog I A
  -- an operation on a channel that no other goroutine completes
  block : Prog I A
  -- a polling loop after as many rounds as its fuel
  poll : Prog I A
  call : (c : I.Call) → (I.Reply c → Prog I A) → Prog I A

infixl 5 ◌>>=◌ ◌>>◌
abbrev pub ◌>>=◌ : {I : Interface} {A B : Type 0} → Prog I A → (A → Prog I B) → Prog I B
ret a >>= f = f a
panic >>= f = panic
block >>= f = block
poll >>= f = poll
call c k >>= f = call c (λ r. k r >>= f)

abbrev pub ◌>>◌ : {I : Interface} {A B : Type 0} → Prog I A → Prog I B → Prog I B
m >> n = m >>= λ _. n

-- A value and an error of which exactly one is set.
pub data Result (A : Type 0) : Type 0 where
  ok : A → Result A
  err : String → Result A

pub data Outcome (A : Type 0) : Type 0 where
  done : A → Outcome A
  panicked blocked polling : Outcome A

-- The world: it may answer a call by all that was called before, the oldest call first.
abbrev pub World : Interface → Type 0
World I = List I.Call → (c : I.Call) → I.Reply c

unfoldable pub run :
    {I : Interface} {A : Type 0} → World I → Prog I A → List I.Call → Outcome A × List I.Call
run w (ret a) tr = (done a, tr)
run w panic tr = (panicked, tr)
run w block tr = (blocked, tr)
run w poll tr = (polling, tr)
run w (call c k) tr = run w (k (w tr c)) (tr ++ c ∷ [])

-- What follows a part of a function, by the part's outcome.
abbrev pub and_then :
    {I : Interface} {A B : Type 0}
    → World I
    → Outcome A × List I.Call
    → (A → Prog I B)
    → Outcome B × List I.Call
and_then w (done a, tr) f = run w (f a) tr
and_then w (panicked, tr) f = (panicked, tr)
and_then w (blocked, tr) f = (blocked, tr)
and_then w (polling, tr) f = (polling, tr)

pub run-bind :
    {I : Interface} {A B : Type 0} (w : World I) (m : Prog I A) (f : A → Prog I B)
    (tr : List I.Call)
    → run w (m >>= f) tr ≡ and_then w (run w m tr) f
unfolding run
run-bind w (ret a) f tr = refl
run-bind w panic f tr = refl
run-bind w block f tr = refl
run-bind w poll f tr = refl
run-bind w (call c k) f tr = run-bind w (k (w tr c)) f (tr ++ c ∷ [])
