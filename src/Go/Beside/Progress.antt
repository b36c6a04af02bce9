-- ===== src/Go/Beside/Progress.antt =====
-- A function and the goroutine beside it can be run to their ends.
use live_migration_operator.Base.{ℕ, List, [], ◌∷◌, ◌++◌, ◌≡◌, refl, ap, ◌∙◌, sym, subst, map}
use live_migration_operator.Go.{Interface, Prog, ret, panic, block, poll, call, World, done}
use live_migration_operator.Go.Fork.{
  Fork, setup, joining, closing, step, step_fork, run_fork, result,
}
use live_migration_operator.Go.Progress.{
  Returns, AllReturn-append, Always-append, Planned, Good, step-Returns, step_fork-Good,
}
use live_migration_operator.Go.Progress.Finish.{Good-Finishes}
use live_migration_operator.Go.Beside.{Turn, caller, other, run_beside}
use live_migration_operator.Go.Beside.Laws.{step-Extends, step_fork-Extends}

module _ {I : Interface} {B : Type 0} (w : World I) where
  Good-append : (f : Fork I B) (tr others : List I.Call) → Good w f tr → Good w f (tr ++ others)
  Good-append (setup p) tr others h = Always-append w (Planned w) p tr others h
  Good-append (joining ps after) tr others (hs, h) =
      (AllReturn-append w ps tr others hs, Always-append w (λ _ _. Unit) after tr others h)
  Good-append (closing p) tr others h = Always-append w (λ _ _. Unit) p tr others h

module _ {I : Interface} {A B : Type 0} (w : World I) where
  -- A caller and a goroutine that both return.
  abbrev BothReturn : Prog I A × Fork I B × List I.Call → Type 0
  BothReturn (p, f, tr) = Returns w p tr × Good w f tr

  caller-BothReturn :
      (p : Prog I A) (f : Fork I B) (tr : List I.Call)
      → BothReturn (p, f, tr)
      → BothReturn ((step w p tr).0, f, (step w p tr).1)
  caller-BothReturn p f tr (hp, hf) =
      let (new, e) = step-Extends w p tr in
      (step-Returns w p tr hp, subst (Good w f) (sym e) (Good-append w f tr new hf))

  other-BothReturn :
      (i : ℕ) (p : Prog I A) (f : Fork I B) (tr : List I.Call)
      → BothReturn (p, f, tr)
      → BothReturn (p, (step_fork w i f tr).0, (step_fork w i f tr).1)
  other-BothReturn i p f tr (hp, hf) =
      let (new, e) = step_fork-Extends w i f tr in
      (
        subst (Returns w p) (sym e) (Always-append w (λ _ _. Unit) p tr new hp),
        step_fork-Good w i f tr hf,
      )

  run_beside-BothReturn :
      (turns : List Turn) (p : Prog I A) (f : Fork I B) (tr : List I.Call)
      → BothReturn (p, f, tr)
      → BothReturn (run_beside w turns p f tr)
  unfolding run_beside
  run_beside-BothReturn [] p f tr h = h
  run_beside-BothReturn (caller ∷ turns) p f tr h =
      run_beside-BothReturn turns _ f _ (caller-BothReturn p f tr h)
  run_beside-BothReturn (other i ∷ turns) p f tr h =
      run_beside-BothReturn turns p _ _ (other-BothReturn i p f tr h)

  run_beside-append :
      (s t : List Turn) (p : Prog I A) (f : Fork I B) (tr : List I.Call)
      → run_beside w (s ++ t) p f tr
        ≡ run_beside w t
            (run_beside w s p f tr).0
            (run_beside w s p f tr).1
            (run_beside w s p f tr).2
  unfolding run_beside
  run_beside-append [] t p f tr = refl
  run_beside-append (caller ∷ s) t p f tr = run_beside-append s t _ f _
  run_beside-append (other i ∷ s) t p f tr = run_beside-append s t p _ _

  run_beside-other :
      (schedule : List ℕ) (p : Prog I A) (f : Fork I B) (tr : List I.Call)
      → run_beside w (map other schedule) p f tr
        ≡ (p, (run_fork w schedule f tr).0, (run_fork w schedule f tr).1)
  unfolding run_beside run_fork
  run_beside-other [] p f tr = refl
  run_beside-other (i ∷ schedule) p f tr = run_beside-other schedule p _ _

  -- Some turns bring both to their ends.
  abbrev BothFinish : Prog I A → Fork I B → List I.Call → Type 0
  BothFinish p f tr =
      (turns : List Turn) × (a : A) × (b : B) × ((run_beside w turns p f tr).0 ≡ ret a)
      × (result (run_beside w turns p f tr).1 ≡ done b)

  BothReturn-Finish :
      (p : Prog I A) (f : Fork I B) (tr : List I.Call) → BothReturn (p, f, tr) → BothFinish p f tr
  unfolding run_beside step
  BothReturn-Finish (ret a) f tr (hp, hf) =
      let (s, b, e) = Good-Finishes w f tr hf in
      let same = run_beside-other s (ret a) f tr in
      (
        map other s,
        a,
        b,
        ap (λ (r : Prog I A × Fork I B × List I.Call). r.0) same,
        ap (λ (r : Prog I A × Fork I B × List I.Call). result r.1) same ∙ e,
      )
  BothReturn-Finish (call c k) f tr h =
      let (s, a, b, e, e') =
        BothReturn-Finish (k (w tr c)) f (tr ++ c ∷ []) (caller-BothReturn (call c k) f tr h) in
      (caller ∷ s, a, b, e, e')
  BothReturn-Finish panic f tr (hp, hf) = absurd hp
  BothReturn-Finish block f tr (hp, hf) = absurd hp
  BothReturn-Finish poll f tr (hp, hf) = absurd hp

  -- Whatever turns were taken so far, both can be brought to their ends.
  pub both_can_finish :
      (turns : List Turn) (p : Prog I A) (f : Fork I B) (tr : List I.Call)
      → Returns w p tr
      → Good w f tr
      → (more : List Turn) × (a : A) × (b : B) × ((run_beside w (turns ++ more) p f tr).0 ≡ ret a)
        × (result (run_beside w (turns ++ more) p f tr).1 ≡ done b)
  both_can_finish turns p f tr hp hf =
      let (more, a, b, e, e') =
        BothReturn-Finish _ _ _ (run_beside-BothReturn turns p f tr (hp, hf)) in
      let same = run_beside-append turns more p f tr in
      (
        more,
        a,
        b,
        ap (λ (r : Prog I A × Fork I B × List I.Call). r.0) same ∙ e,
        ap (λ (r : Prog I A × Fork I B × List I.Call). result r.1) same ∙ e',
      )
