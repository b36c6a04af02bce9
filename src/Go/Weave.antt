-- ===== src/Go/Weave.antt =====
-- Goroutines: any interleaving of their calls, chosen by a schedule, and `sync.WaitGroup.Wait`.
use mathlib.Core.List.{Perm, perm_append_comm}
use mathlib.Core.List.Perm
use live_migration_operator.Base.{
  ℕ, zero, suc, List, [], ◌∷◌, ◌++◌, ◌≡◌, refl, sym, ap, ◌∙◌, subst, append-nil, append_assoc,
}
use live_migration_operator.Go.{Interface, Prog, ret, panic, block, poll, call, World}

module _ {I : Interface} (w : World I) where
  -- One call of the goroutine of number `i`. A finished one, or one that is stuck, does nothing.
  unfoldable pub advance :
      ℕ → List (Prog I (Unit {0})) → List I.Call → List (Prog I (Unit {0})) × List I.Call
  advance i [] tr = ([], tr)
  advance zero (call c k ∷ ps) tr = (k (w tr c) ∷ ps, tr ++ c ∷ [])
  advance zero (p ∷ ps) tr = (p ∷ ps, tr)
  advance (suc i) (p ∷ ps) tr = let (ps', tr') = advance i ps tr in (p ∷ ps', tr')

  unfoldable pub weave :
      List ℕ → List (Prog I (Unit {0})) → List I.Call → List (Prog I (Unit {0})) × List I.Call
  unfolding advance
  weave [] ps tr = (ps, tr)
  weave (i ∷ schedule) ps tr = let (ps', tr') = advance i ps tr in weave schedule ps' tr'

-- All goroutines have returned: the condition under which `Wait` returns.
abbrev pub Joined : {I : Interface} → List (Prog I (Unit {0})) → Type 0
Joined [] = Unit
Joined (ret _ ∷ ps) = Joined ps
Joined (_ ∷ ps) = ⊥

module _ {I : Interface} (w : World I) where
  -- Whenever it runs, the goroutine makes these calls in this order, and returns.
  abbrev pub Emits : Prog I (Unit {0}) → List I.Call → Type 0
  Emits (ret _) cs = cs ≡ []
  Emits (call c k) cs =
      (rest : List I.Call) × (cs ≡ c ∷ rest) × ((tr : List I.Call) → Emits (k (w tr c)) rest)
  Emits _ cs = ⊥

  abbrev pub AllEmit : List (Prog I (Unit {0})) → List (List I.Call) → Type 0
  AllEmit [] [] = Unit
  AllEmit (p ∷ ps) (cs ∷ css) = Emits p cs × AllEmit ps css
  AllEmit _ _ = ⊥

  -- All that the goroutines still have to call.
  abbrev pub remaining : List (List I.Call) → List I.Call
  remaining [] = []
  remaining (cs ∷ css) = cs ++ remaining css

  perm_exchange : (xs ys zs : List I.Call) → Perm (xs ++ (ys ++ zs)) (ys ++ (xs ++ zs))
  perm_exchange xs ys zs =
      rw (← append_assoc xs ys zs, ← append_assoc ys xs zs)
        (Perm.append_right zs (perm_append_comm xs ys))

  advance-AllEmit :
      (i : ℕ) (ps : List (Prog I (Unit {0}))) (css : List (List I.Call)) (tr : List I.Call)
      → AllEmit ps css
      → (new : List I.Call) × (css' : List (List I.Call)) × ((advance w i ps tr).1 ≡ tr ++ new)
        × AllEmit (advance w i ps tr).0 css'
        × Perm (new ++ remaining css') (remaining css)
  unfolding advance
  advance-AllEmit i [] [] tr h = ([], [], sym (append-nil tr), tt, Perm.refl [])
  advance-AllEmit zero (call c k ∷ ps) (cs ∷ css) tr ((rest, e, f), hs) =
      (c ∷ [], rest ∷ css, refl, (f tr, hs), rw e (Perm.refl _))
  advance-AllEmit zero (ret a ∷ ps) (cs ∷ css) tr h =
      ([], cs ∷ css, sym (append-nil tr), h, Perm.refl _)
  advance-AllEmit (suc i) (p ∷ ps) (cs ∷ css) tr (h, hs) =
      let (new, css', e, a, same) = advance-AllEmit i ps css tr hs in
      (
        new,
        cs ∷ css',
        e,
        (h, a),
        Perm.trans (perm_exchange new cs (remaining css')) (Perm.append_left cs same),
      )
  advance-AllEmit zero (panic ∷ ps) (cs ∷ css) tr (h, hs) = absurd h
  advance-AllEmit zero (block ∷ ps) (cs ∷ css) tr (h, hs) = absurd h
  advance-AllEmit zero (poll ∷ ps) (cs ∷ css) tr (h, hs) = absurd h
  advance-AllEmit i [] (cs ∷ css) tr h = absurd h
  advance-AllEmit i (p ∷ ps) [] tr h = absurd h

  remaining_of_Joined :
      (ps : List (Prog I (Unit {0}))) (css : List (List I.Call))
      → AllEmit ps css
      → Joined ps
      → remaining css ≡ []
  remaining_of_Joined [] [] h j = refl
  remaining_of_Joined [] (cs ∷ css) h j = absurd h
  remaining_of_Joined (p ∷ ps) [] h j = absurd h
  remaining_of_Joined (ret a ∷ ps) (cs ∷ css) (h, hs) j = rw h (remaining_of_Joined ps css hs j)
  remaining_of_Joined (panic ∷ ps) (cs ∷ css) h j = absurd j
  remaining_of_Joined (block ∷ ps) (cs ∷ css) h j = absurd j
  remaining_of_Joined (poll ∷ ps) (cs ∷ css) h j = absurd j
  remaining_of_Joined (call c k ∷ ps) (cs ∷ css) h j = absurd j

  weave-AllEmit :
      (schedule : List ℕ) (ps : List (Prog I (Unit {0}))) (css : List (List I.Call))
      (tr : List I.Call)
      → AllEmit ps css
      → (new : List I.Call) × (css' : List (List I.Call)) × ((weave w schedule ps tr).1 ≡ tr ++ new)
        × AllEmit (weave w schedule ps tr).0 css'
        × Perm (new ++ remaining css') (remaining css)
  unfolding weave
  weave-AllEmit [] ps css tr h = ([], css, sym (append-nil tr), h, Perm.refl _)
  weave-AllEmit (i ∷ schedule) ps css tr h =
      let (first, css', e, h', same) = advance-AllEmit i ps css tr h in
      let (more, css'', e', h'', same') =
        weave-AllEmit schedule (advance w i ps tr).0 css' (advance w i ps tr).1 h' in
      (
        first ++ more,
        css'',
        e' ∙ rw (e, append_assoc),
        h'',
        rw append_assoc (Perm.trans (Perm.append_left first same') same),
      )

  -- Once all goroutines have returned, each has made its calls exactly once, and nothing else was
  -- called.
  pub joined_calls :
      (schedule : List ℕ) (ps : List (Prog I (Unit {0}))) (css : List (List I.Call))
      (tr : List I.Call)
      → AllEmit ps css
      → Joined (weave w schedule ps tr).0
      → (new : List I.Call) × ((weave w schedule ps tr).1 ≡ tr ++ new) × Perm new (remaining css)
  joined_calls schedule ps css tr h j =
      let (new, css', e, h', same) = weave-AllEmit schedule ps css tr h in
      (
        new,
        e,
        subst (λ l. Perm l (remaining css))
            (ap (λ l. new ++ l) (remaining_of_Joined _ css' h' j) ∙ append-nil new) same,
      )
