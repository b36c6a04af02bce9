-- ===== src/Go/Progress.antt =====
-- Code that returns whatever others call, and that every step of it keeps to that.
pub mod Finish
use live_migration_operator.Base.{
  ℕ, zero, suc, true, false, List, [], ◌∷◌, ◌++◌, ◌≡◌, refl, ap, ◌∙◌, sym, subst, append-nil,
  append_assoc, Extends, Extends-refl, arith, Bool-cases, inl, inr,
}
use live_migration_operator.Go.{
  Interface, Prog, ret, panic, block, poll, call, ◌>>=◌, World, run, Outcome, done,
}
use live_migration_operator.Go.Weave.{advance}
use live_migration_operator.Go.Fork.{
  Fork, setup, joining, closing, all_returned, step, step_fork, run_fork, result,
}

module _ {I : Interface} (w : World I) where
  -- From the trace on, whatever others call in between, the code never panics, blocks or runs out
  -- of fuel, and `Q` holds of what it returns and of the trace then.
  abbrev pub Always : {A : Type 0} → (A → List I.Call → Type 0) → Prog I A → List I.Call → Type 0
  Always Q (ret a) tr = (others : List I.Call) → Q a (tr ++ others)
  Always Q (call c k) tr =
      (others : List I.Call) → Always Q (k (w (tr ++ others) c)) ((tr ++ others) ++ c ∷ [])
  Always Q _ tr = ⊥

  abbrev pub Returns : {A : Type 0} → Prog I A → List I.Call → Type 0
  Returns = Always (λ _ _. Unit)

  pub Always-append :
      {A : Type 0} (Q : A → List I.Call → Type 0) (p : Prog I A) (tr others : List I.Call)
      → Always Q p tr
      → Always Q p (tr ++ others)
  Always-append Q (ret a) tr others h =
      λ more. rw (append_assoc tr others more) (h (others ++ more))
  Always-append Q (call c k) tr others h =
      λ more. rw (append_assoc tr others more) (h (others ++ more))
  Always-append Q panic tr others h = absurd h
  Always-append Q block tr others h = absurd h
  Always-append Q poll tr others h = absurd h

  -- The calls of the code itself are others' calls too.
  pub Always-bind :
      {A B : Type 0} (P : A → List I.Call → Type 0) (Q : B → List I.Call → Type 0) (p : Prog I A)
      (f : A → Prog I B) (tr : List I.Call)
      → Always P p tr
      → ((a : A) (tr' : List I.Call) → P a tr' → Always Q (f a) tr')
      → Always Q (p >>= f) tr
  Always-bind P Q (ret a) f tr h g =
      let at_end : P a tr = subst (P a) (append-nil tr) (h []) in g a tr at_end
  Always-bind P Q (call c k) f tr h g =
      λ others. Always-bind P Q (k (w (tr ++ others) c)) f ((tr ++ others) ++ c ∷ []) (h others) g
  Always-bind P Q panic f tr h g = absurd h
  Always-bind P Q block f tr h g = absurd h
  Always-bind P Q poll f tr h g = absurd h

  abbrev pub AllReturn : List (Prog I (Unit {0})) → List I.Call → Type 0
  AllReturn [] tr = Unit
  AllReturn (p ∷ ps) tr = Returns p tr × AllReturn ps tr

  pub AllReturn-append :
      (ps : List (Prog I (Unit {0}))) (tr others : List I.Call)
      → AllReturn ps tr
      → AllReturn ps (tr ++ others)
  AllReturn-append [] tr others h = tt
  AllReturn-append (p ∷ ps) tr others (h, hs) =
      (Always-append (λ _ _. Unit) p tr others h, AllReturn-append ps tr others hs)

  -- What one more call finds: the code behind the call, at the longer trace.
  pub after_call :
      {B : Type 0} (Q : B → List I.Call → Type 0) (c : I.Call) (k : I.Reply c → Prog I B)
      (tr : List I.Call)
      → Always Q (call c k) tr
      → Always Q (k (w tr c)) (tr ++ c ∷ [])
  after_call Q c k tr h = subst (λ t. Always Q (k (w t c)) (t ++ c ∷ [])) (append-nil tr) (h [])

  advance-AllReturn :
      (i : ℕ) (ps : List (Prog I (Unit {0}))) (tr : List I.Call)
      → AllReturn ps tr
      → AllReturn (advance w i ps tr).0 (advance w i ps tr).1 × Extends tr (advance w i ps tr).1
  unfolding advance
  advance-AllReturn i [] tr h = (tt, Extends-refl tr)
  advance-AllReturn zero (call c k ∷ ps) tr (h, hs) =
      ((after_call (λ _ _. Unit) c k tr h, AllReturn-append ps tr (c ∷ []) hs), (c ∷ [], refl))
  advance-AllReturn zero (ret a ∷ ps) tr h = (h, Extends-refl tr)
  advance-AllReturn zero (panic ∷ ps) tr (h, hs) = absurd h
  advance-AllReturn zero (block ∷ ps) tr (h, hs) = absurd h
  advance-AllReturn zero (poll ∷ ps) tr (h, hs) = absurd h
  advance-AllReturn (suc i) (p ∷ ps) tr (h, hs) =
      let (hs', (new, e)) = advance-AllReturn i ps tr hs in
      ((rw e (Always-append (λ _ _. Unit) p tr new h), hs'), (new, e))

module _ {I : Interface} {A : Type 0} (w : World I) where
  -- The workers that are planned return, and so does what follows them.
  abbrev pub Planned : List (Prog I (Unit {0})) × Prog I A → List I.Call → Type 0
  Planned (ps, after) tr = AllReturn w ps tr × Returns w after tr

  -- Each part of the goroutine that is still to come returns.
  abbrev pub Good : Fork I A → List I.Call → Type 0
  Good (setup p) tr = Always w Planned p tr
  Good (joining ps after) tr = AllReturn w ps tr × Returns w after tr
  Good (closing p) tr = Returns w p tr

  pub step-Returns :
      (p : Prog I A) (tr : List I.Call) → Returns w p tr → Returns w (step w p tr).0 (step w p tr).1
  unfolding step
  step-Returns (call c k) tr h = after_call w (λ _ _. Unit) c k tr h
  step-Returns (ret a) tr h = h
  step-Returns panic tr h = absurd h
  step-Returns block tr h = absurd h
  step-Returns poll tr h = absurd h

  joining-Good :
      (i : ℕ) (ps : List (Prog I (Unit {0}))) (after : Prog I A) (tr : List I.Call)
      → Good (joining ps after) tr
      → Good (step_fork w i (joining ps after) tr).0 (step_fork w i (joining ps after) tr).1
  unfolding step_fork
  joining-Good i ps after tr (hs, h) =
      let (hs', (new, e)) = advance-AllReturn w i ps tr hs in
      let later : Returns w after (advance w i ps tr).1 =
        rw e (Always-append w (λ _ _. Unit) after tr new h) in
      elim (Bool-cases (all_returned ps)) [
        | inl joined ↦ rw joined h
        | inr waits ↦ rw waits (hs', later)
      ]

  pub step_fork-Good :
      (i : ℕ) (f : Fork I A) (tr : List I.Call)
      → Good f tr
      → Good (step_fork w i f tr).0 (step_fork w i f tr).1
  unfolding step_fork
  step_fork-Good i (setup (ret (ps, after))) tr h =
      subst (λ t. AllReturn w ps t × Returns w after t) (append-nil tr) (h [])
  step_fork-Good i (setup (call c k)) tr h = after_call w Planned c k tr h
  step_fork-Good i (setup panic) tr h = absurd h
  step_fork-Good i (setup block) tr h = absurd h
  step_fork-Good i (setup poll) tr h = absurd h
  step_fork-Good i (joining ps after) tr h = joining-Good i ps after tr h
  step_fork-Good i (closing p) tr h = step-Returns p tr h

  pub run_fork-Good :
      (schedule : List ℕ) (f : Fork I A) (tr : List I.Call)
      → Good f tr
      → Good (run_fork w schedule f tr).0 (run_fork w schedule f tr).1
  unfolding run_fork
  run_fork-Good [] f tr h = h
  run_fork-Good (i ∷ schedule) f tr h = run_fork-Good schedule _ _ (step_fork-Good i f tr h)
