-- ===== src/Go/Fork/Keeps.antt =====
-- What each call of a goroutine and its workers satisfies, given the calls that were made before
-- it by all of them.
use live_migration_operator.Base.{
  ℕ, zero, suc, List, [], ◌∷◌, ◌++◌, refl, sym, subst, append-nil, append_assoc, All, Bool-cases,
  inl, inr, Extends, Extends-refl, Extends-trans,
}
use live_migration_operator.Go.{Interface, Prog, ret, panic, block, poll, call, ◌>>=◌, World}
use live_migration_operator.Go.Weave.{advance}
use live_migration_operator.Go.Fork.{
  Fork, setup, joining, closing, all_returned, step, step_fork, run_fork,
}

-- Behind the calls of the first list, each one of the second is related to all before it.
unfoldable pub Each : {C : Type 0} → (List C → C → Type 0) → List C → List C → Type 0
Each P before [] = Unit
Each P before (c ∷ tr) = P before c × Each P (before ++ c ∷ []) tr

Each-snoc :
    {C : Type 0} (P : List C → C → Type 0) (before tr : List C) (c : C)
    → Each P before tr
    → P (before ++ tr) c
    → Each P before (tr ++ c ∷ [])
unfolding Each
Each-snoc P before [] c h p = (subst (λ l. P l c) (append-nil before) p, tt)
Each-snoc P before (d ∷ tr) c (q, h) p = (
  q,
  Each-snoc P (before ++ d ∷ []) tr c h
      (subst (λ l. P l c) (sym (append_assoc before (d ∷ []) tr)) p),
)

module _ {I : Interface} (w : World I) (P : List I.Call → I.Call → Type 0) where
  -- Behind these calls and any others that are related in this way, each call of the code is related to those before it, and its
  -- result satisfies `Q` behind the calls that were made.
  abbrev pub Keeps : {A : Type 0} → (List I.Call → A → Type 0) → List I.Call → Prog I A → Type 0
  Keeps Q tr (ret a) = Q tr a
  Keeps Q tr (call c k) =
      (now : List I.Call)
      → Extends tr now
      → Each P [] now
      → P now c × Keeps Q (now ++ c ∷ []) (k (w now c))
  Keeps Q tr _ = Unit

  abbrev pub Works : List I.Call → Prog I (Unit {0}) → Type 0
  Works tr p = Keeps (λ _ _. Unit) tr p

  pub bind-Keeps :
      {A B : Type 0} (Q : List I.Call → A → Type 0) (R : List I.Call → B → Type 0) (m : Prog I A)
      (f : A → Prog I B) (tr : List I.Call)
      → Keeps Q tr m
      → ((now : List I.Call) (a : A) → Q now a → Keeps R now (f a))
      → Keeps R tr (m >>= f)
  bind-Keeps Q R (ret a) f tr h g = g tr a h
  bind-Keeps Q R panic f tr h g = tt
  bind-Keeps Q R block f tr h g = tt
  bind-Keeps Q R poll f tr h g = tt
  bind-Keeps Q R (call c k) f tr h g = λ now ext each.
      let (p, rest) = h now ext each in (p, bind-Keeps Q R (k (w now c)) f (now ++ c ∷ []) rest g)

  Works-later :
      (p : Prog I (Unit {0})) (tr now : List I.Call) → Extends tr now → Works tr p → Works now p
  Works-later (ret a) tr now ext h = tt
  Works-later panic tr now ext h = tt
  Works-later block tr now ext h = tt
  Works-later poll tr now ext h = tt
  Works-later (call c k) tr now ext h =
      λ later more each. h later (Extends-trans tr now later ext more) each

  All-Works-later :
      (ps : List (Prog I (Unit {0}))) (tr now : List I.Call)
      → Extends tr now
      → All (Works tr) ps
      → All (Works now) ps
  All-Works-later [] tr now ext h = tt
  All-Works-later (p ∷ ps) tr now ext (h, hs) =
      (Works-later p tr now ext h, All-Works-later ps tr now ext hs)

  advance-Extends :
      (i : ℕ) (ps : List (Prog I (Unit {0}))) (tr : List I.Call) → Extends tr (advance w i ps tr).1
  unfolding advance
  advance-Extends i [] tr = Extends-refl tr
  advance-Extends zero (call c k ∷ ps) tr = (c ∷ [], refl)
  advance-Extends zero (ret a ∷ ps) tr = Extends-refl tr
  advance-Extends zero (panic ∷ ps) tr = Extends-refl tr
  advance-Extends zero (block ∷ ps) tr = Extends-refl tr
  advance-Extends zero (poll ∷ ps) tr = Extends-refl tr
  advance-Extends (suc i) (p ∷ ps) tr = advance-Extends i ps tr

  advance-Works :
      (i : ℕ) (ps : List (Prog I (Unit {0}))) (tr : List I.Call)
      → All (Works tr) ps
      → Each P [] tr
      → All (Works (advance w i ps tr).1) (advance w i ps tr).0 × Each P [] (advance w i ps tr).1
  unfolding advance
  advance-Works i [] tr h each = (tt, each)
  advance-Works zero (call c k ∷ ps) tr (h, hs) each =
      let (p, rest) = h tr (Extends-refl tr) each in
      ((rest, All-Works-later ps tr (tr ++ c ∷ []) (c ∷ [], refl) hs), Each-snoc P [] tr c each p)
  advance-Works zero (ret a ∷ ps) tr h each = (h, each)
  advance-Works zero (panic ∷ ps) tr h each = (h, each)
  advance-Works zero (block ∷ ps) tr h each = (h, each)
  advance-Works zero (poll ∷ ps) tr h each = (h, each)
  advance-Works (suc i) (p ∷ ps) tr (h, hs) each =
      let (hs', each') = advance-Works i ps tr hs each in
      ((Works-later p tr (advance w i ps tr).1 (advance-Extends i ps tr) h, hs'), each')

  module _ {A : Type 0} where
    abbrev Both : List I.Call → List (Prog I (Unit {0})) × Prog I A → Type 0
    Both tr (ps, after) =
        All (Works tr) ps × ((now : List I.Call) → Keeps {A = A} (λ _ _. Unit) now after)

    abbrev pub ForkKeeps : Fork I A → List I.Call → Type 0
    ForkKeeps (setup p) tr = Keeps Both tr p
    ForkKeeps (joining ps after) tr = Both tr (ps, after)
    ForkKeeps (closing p) tr = Keeps (λ _ _. Unit) tr p

    step-Keeps :
        (p : Prog I A) (tr : List I.Call)
        → Keeps (λ _ _. Unit) tr p
        → Each P [] tr
        → Keeps (λ _ _. Unit) (step w p tr).1 (step w p tr).0 × Each P [] (step w p tr).1
    unfolding step
    step-Keeps (call c k) tr h each =
        let (p, rest) = h tr (Extends-refl tr) each in (rest, Each-snoc P [] tr c each p)
    step-Keeps (ret a) tr h each = (h, each)
    step-Keeps panic tr h each = (h, each)
    step-Keeps block tr h each = (h, each)
    step-Keeps poll tr h each = (h, each)

    step_fork-ForkKeeps :
        (i : ℕ) (f : Fork I A) (tr : List I.Call)
        → ForkKeeps f tr
        → Each P [] tr
        → ForkKeeps (step_fork w i f tr).0 (step_fork w i f tr).1 × Each P [] (step_fork w i f tr).1
    unfolding step_fork
    step_fork-ForkKeeps i (setup (ret (ps, after))) tr h each = (h, each)
    step_fork-ForkKeeps i (setup (call c k)) tr h each =
        let (p, rest) = h tr (Extends-refl tr) each in (rest, Each-snoc P [] tr c each p)
    step_fork-ForkKeeps i (setup panic) tr h each = (h, each)
    step_fork-ForkKeeps i (setup block) tr h each = (h, each)
    step_fork-ForkKeeps i (setup poll) tr h each = (h, each)
    step_fork-ForkKeeps i (joining ps after) tr (hs, h) each = elim (Bool-cases (all_returned ps)) [
      | inl returned ↦ rw returned (h tr, each)
      | inr working ↦
          let (hs', each') = advance-Works i ps tr hs each in rw working ((hs', h), each')
    ]
    step_fork-ForkKeeps i (closing p) tr h each = step-Keeps p tr h each

    -- Under every schedule, each call is related to those before it.
    pub run_fork-Each :
        (schedule : List ℕ) (f : Fork I A) (tr : List I.Call)
        → ForkKeeps f tr
        → Each P [] tr
        → Each P [] (run_fork w schedule f tr).1
    unfolding run_fork
    run_fork-Each [] f tr h each = each
    run_fork-Each (i ∷ schedule) f tr h each =
        let (h', each') = step_fork-ForkKeeps i f tr h each in
        run_fork-Each schedule (step_fork w i f tr).0 (step_fork w i f tr).1 h' each'
