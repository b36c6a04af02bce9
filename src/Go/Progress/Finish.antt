-- ===== src/Go/Progress/Finish.antt =====
-- From every state that a schedule reaches, goroutines that return can be run to their end.
use live_migration_operator.Base.{
  ℕ, zero, suc, true, false, List, [], ◌∷◌, ◌++◌, ◌≡◌, refl, ap, sym, subst,
}
use live_migration_operator.Go.{Interface, Prog, ret, panic, block, poll, call, World, done}
use live_migration_operator.Go.Weave.{advance}
use live_migration_operator.Go.Fork.{
  Fork, setup, joining, closing, all_returned, step, step_fork, run_fork, result,
}
use live_migration_operator.Go.Progress.{
  Returns, AllReturn, after_call, AllReturn-append, Planned, Good, step_fork-Good, run_fork-Good,
  Always-append,
}

module _ {I : Interface} where
  -- So many workers that have returned, in front of others.
  abbrev returned : ℕ → List (Prog I (Unit {0})) → List (Prog I (Unit {0}))
  returned zero ps = ps
  returned (suc n) ps = ret tt ∷ returned n ps

  returned-suc :
      (n : ℕ) (ps : List (Prog I (Unit {0}))) → returned n (ret tt ∷ ps) ≡ returned (suc n) ps
  returned-suc zero ps = refl
  returned-suc (suc n) ps = ap (λ l. ret tt ∷ l) (returned-suc n ps)

  all_returned-returned :
      (n : ℕ) (ps : List (Prog I (Unit {0}))) → all_returned (returned n ps) ≡ all_returned ps
  all_returned-returned zero ps = refl
  all_returned-returned (suc n) ps = all_returned-returned n ps

  advance-returned :
      (w : World I) (n : ℕ) (c : I.Call) (k : I.Reply c → Prog I (Unit {0}))
      (ps : List (Prog I (Unit {0}))) (tr : List I.Call)
      → advance w n (returned n (call c k ∷ ps)) tr ≡ (returned n (k (w tr c) ∷ ps), tr ++ c ∷ [])
  unfolding advance
  advance-returned w zero c k ps tr = refl
  advance-returned w (suc n) c k ps tr = rw (advance-returned w n c k ps tr)

module _ {I : Interface} {A : Type 0} (w : World I) where
  -- The schedules that lead on are composed by appending them.
  pub run_fork-append :
      (s t : List ℕ) (f : Fork I A) (tr : List I.Call)
      → run_fork w (s ++ t) f tr ≡ run_fork w t (run_fork w s f tr).0 (run_fork w s f tr).1
  unfolding run_fork
  run_fork-append [] t f tr = refl
  run_fork-append (i ∷ s) t f tr = run_fork-append s t _ _

  -- Some schedule brings the goroutine to its end.
  abbrev pub Finishes : Fork I A → List I.Call → Type 0
  Finishes f tr = (schedule : List ℕ) × (a : A) × (result (run_fork w schedule f tr).0 ≡ done a)

  one_more :
      (i : ℕ) (f f' : Fork I A) (tr tr' : List I.Call)
      → step_fork w i f tr ≡ (f', tr')
      → Finishes f' tr'
      → Finishes f tr
  unfolding run_fork
  one_more i f f' tr tr' e (s, a, q) = (
    i ∷ s,
    a,
    subst (λ (r : Fork I A × List I.Call). result (run_fork w s r.0 r.1).0 ≡ done a) (sym e) q,
  )

  wait_over :
      (i : ℕ) (ps : List (Prog I (Unit {0}))) (after : Prog I A) (tr : List I.Call)
      → all_returned ps ≡ true
      → step_fork w i (joining ps after) tr ≡ (closing after, tr)
  unfolding step_fork
  wait_over i ps after tr e = rw e

  waiting :
      (i : ℕ) (ps ps' : List (Prog I (Unit {0}))) (after : Prog I A) (tr tr' : List I.Call)
      → all_returned ps ≡ false
      → advance w i ps tr ≡ (ps', tr')
      → step_fork w i (joining ps after) tr ≡ (joining ps' after, tr')
  unfolding step_fork
  waiting i ps ps' after tr tr' e q = rw (e, q)

  closing-Finishes : (p : Prog I A) (tr : List I.Call) → Returns w p tr → Finishes (closing p) tr
  unfolding run_fork step_fork step
  closing-Finishes (ret a) tr h = ([], a, refl)
  closing-Finishes (call c k) tr h =
      let (s, a, e) =
        closing-Finishes (k (w tr c)) (tr ++ c ∷ []) (after_call w (λ _ _. Unit) c k tr h) in
      (0 ∷ s, a, e)
  closing-Finishes panic tr h = absurd h
  closing-Finishes block tr h = absurd h
  closing-Finishes poll tr h = absurd h

  module _ (after : Prog I A) where
    -- All workers have returned: `Wait` returns.
    joined-Finishes :
        (n : ℕ) (tr : List I.Call)
        → Returns w after tr
        → Finishes (joining (returned n []) after) tr
    joined-Finishes n tr h =
        one_more 0 _ _ tr tr
          (wait_over 0 (returned n []) after tr (all_returned-returned {I = I} n []))
          (closing-Finishes after tr h)

    -- The worker behind those that have returned runs to its end.
    worker-Finishes :
        (n : ℕ) (p : Prog I (Unit {0})) (ps : List (Prog I (Unit {0}))) (tr : List I.Call)
        → AllReturn w (p ∷ ps) tr
        → Returns w after tr
        → ((tr' : List I.Call)
            → AllReturn w ps tr'
            → Returns w after tr'
            → Finishes (joining (returned (suc n) ps) after) tr')
        → Finishes (joining (returned n (p ∷ ps)) after) tr
    worker-Finishes n (ret a) ps tr (h, hs) ha others = rw (returned-suc n ps) (others tr hs ha)
    worker-Finishes n (call c k) ps tr (h, hs) ha others =
        one_more n _ _ tr (tr ++ c ∷ [])
          (waiting n _ _ after tr _ (all_returned-returned {I = I} n (call c k ∷ ps))
            (advance-returned w n c k ps tr))
          (worker-Finishes n (k (w tr c)) ps (tr ++ c ∷ [])
            (after_call w (λ _ _. Unit) c k tr h, AllReturn-append w ps tr (c ∷ []) hs)
            (Always-append w (λ _ _. Unit) after tr (c ∷ []) ha) others)
    worker-Finishes n panic ps tr (h, hs) ha others = absurd h
    worker-Finishes n block ps tr (h, hs) ha others = absurd h
    worker-Finishes n poll ps tr (h, hs) ha others = absurd h

    joining-Finishes :
        (n : ℕ) (ps : List (Prog I (Unit {0}))) (tr : List I.Call)
        → AllReturn w ps tr
        → Returns w after tr
        → Finishes (joining (returned n ps) after) tr
    joining-Finishes n [] tr h ha = joined-Finishes n tr ha
    joining-Finishes n (p ∷ ps) tr h ha =
        worker-Finishes n p ps tr h ha (λ tr' hs' ha'. joining-Finishes (suc n) ps tr' hs' ha')

  setup-Finishes :
      (p : Prog I (List (Prog I (Unit {0})) × Prog I A)) (tr : List I.Call)
      → Good w (setup p) tr
      → Finishes (setup p) tr
  unfolding run_fork step_fork
  setup-Finishes (ret (ps, after)) tr h =
      let (hs, ha) = step_fork-Good w 0 (setup (ret (ps, after))) tr h in
      let (s, a, e) = joining-Finishes after zero ps tr hs ha in (0 ∷ s, a, e)
  setup-Finishes (call c k) tr h =
      let (s, a, e) =
        setup-Finishes (k (w tr c)) (tr ++ c ∷ []) (after_call w (Planned w) c k tr h) in
      (0 ∷ s, a, e)
  setup-Finishes panic tr h = absurd h
  setup-Finishes block tr h = absurd h
  setup-Finishes poll tr h = absurd h

  pub Good-Finishes : (f : Fork I A) (tr : List I.Call) → Good w f tr → Finishes f tr
  Good-Finishes (setup p) tr h = setup-Finishes p tr h
  Good-Finishes (joining ps after) tr (hs, ha) = joining-Finishes after zero ps tr hs ha
  Good-Finishes (closing p) tr h = closing-Finishes p tr h

  -- However the goroutines were scheduled so far, they can be brought to their end.
  pub can_finish :
      (schedule : List ℕ) (f : Fork I A) (tr : List I.Call)
      → Good w f tr
      → (more : List ℕ) × (a : A) × (result (run_fork w (schedule ++ more) f tr).0 ≡ done a)
  can_finish schedule f tr h =
      let (more, a, e) = Good-Finishes _ _ (run_fork-Good w schedule f tr h) in
      (more, a, rw (run_fork-append schedule more f tr) e)
