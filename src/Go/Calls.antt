-- ===== src/Go/Calls.antt =====
-- The calls that a function makes, and what all of them have in common.
use live_migration_operator.Base.{
  List, [], ◌∷◌, ◌++◌, ◌≡◌, refl, sym, ap, ◌∙◌, arith, append-nil, append_assoc, All,
}
use live_migration_operator.Go.{
  Interface, Prog, ret, panic, block, poll, call, ◌>>=◌, World, run, run-bind, and_then, Outcome,
  done, panicked, blocked, polling,
}

module _ {I : Interface} {A : Type 0} where
  -- The calls of one run, the oldest first.
  unfoldable pub made : World I → Prog I A → List I.Call → List I.Call
  made w (call c k) tr = c ∷ made w (k (w tr c)) (tr ++ c ∷ [])
  made w _ tr = []

  -- A run extends the trace by the calls that it makes.
  pub trace-run :
      (w : World I) (m : Prog I A) (tr : List I.Call) → (run w m tr).1 ≡ tr ++ made w m tr
  unfolding run made
  trace-run w (call c k) tr = rw (trace-run w (k (w tr c)) (tr ++ c ∷ []), append_assoc)
  trace-run w (ret a) tr = sym (append-nil tr)
  trace-run w _ tr = sym (append-nil tr)

  -- Whatever the replies are, each call satisfies `P`.
  abbrev pub Only : (I.Call → Type 0) → Prog I A → Type 0
  Only P (call c k) = P c × ((r : I.Reply c) → Only P (k r))
  Only P _ = Unit

  pub All-made :
      (P : I.Call → Type 0) (w : World I) (m : Prog I A) (tr : List I.Call)
      → Only P m
      → All P (made w m tr)
  unfolding made
  All-made P w (call c k) tr h = (h.0, All-made P w (k (w tr c)) (tr ++ c ∷ []) (h.1 (w tr c)))
  All-made P w (ret a) tr h = tt
  All-made P w _ tr h = tt

pub Only-bind :
    {I : Interface} {A B : Type 0} (P : I.Call → Type 0) (m : Prog I A) (f : A → Prog I B)
    → Only P m
    → ((a : A) → Only P (f a))
    → Only P (m >>= f)
Only-bind P (ret a) f h g = g a
Only-bind P panic f h g = tt
Only-bind P block f h g = tt
Only-bind P poll f h g = tt
Only-bind P (call c k) f h g = (h.0, λ r. Only-bind P (k r) f (h.1 r) g)

module _ {I : Interface} {A : Type 0} (w : World I) where
  pub final_trace :
      (m : Prog I A) (tr : List I.Call) {o : Outcome A} {final : List I.Call}
      → run w m tr ≡ (o, final)
      → final ≡ tr ++ made w m tr
  final_trace m tr h = sym (ap (λ (r : Outcome A × List I.Call). r.1) h) ∙ trace-run w m tr

  and_then-ret :
      {B : Type 0} (b : B) (r : Outcome A × List I.Call) {o : B} {final : List I.Call}
      → and_then w r (λ _. ret b) ≡ (done o, final)
      → o ≡ b
  unfolding run
  and_then-ret b (done a, tr) h = ground arith
  and_then-ret b (panicked, tr) h = cc
  and_then-ret b (blocked, tr) h = cc
  and_then-ret b (polling, tr) h = cc

  -- A function that ends in `return b` returns `b`, if it returns.
  pub done_of_ret :
      {B : Type 0} (b : B) (m : Prog I A) (tr : List I.Call) {o : B} {final : List I.Call}
      → run w (m >>= λ _. ret b) tr ≡ (done o, final)
      → o ≡ b
  done_of_ret b m tr h = and_then-ret b (run w m tr) (rw (run-bind w m (λ _. ret b) tr) at h)

  -- A sequence that returns has returned from its first part.
  pub bind_done :
      {B : Type 0} (m : Prog I A) (f : A → Prog I B) (tr : List I.Call) (b : B)
      (final : List I.Call)
      → run w (m >>= f) tr ≡ (done b, final)
      → (a : A) × (mid : List I.Call) × (run w m tr ≡ (done a, mid))
        × (run w (f a) mid ≡ (done b, final))
  unfolding run
  bind_done (ret a) f tr b final h = (a, tr, refl, h)
  bind_done panic f tr b final h = cc
  bind_done block f tr b final h = cc
  bind_done poll f tr b final h = cc
  bind_done (call c k) f tr b final h = bind_done (k (w tr c)) f (tr ++ c ∷ []) b final h
