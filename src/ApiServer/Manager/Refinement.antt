-- ===== src/ApiServer/Manager/Refinement.antt =====
-- The manager keeps its contract, and can do what the contract lets it do.
use live_migration_operator.Base.{
  subst, String, ◌∷◌, ◌++◌, ◌≡◌, refl, ap, sym, ◌∙◌, true, false, Option, none, some, Bool-cases,
  inl, inr, if◌then◌else◌,
}
use live_migration_operator.ApiServer.Signal.{is_set}
use live_migration_operator.ApiServer.Manager.{
  Main, not_called, syncing, waiting, returned, crashed, Manager, new_manager, Callable, begun,
  signalled, leave, with_server, cached, Step, called, synced, cache_ends, stop_closed,
  leaves_stopped, leaves_failed, serves, Steps, none_yet, further,
}
use live_migration_operator.ApiServer.Manager.Contract.{
  running, ended, dead, Contract, new_contract, Fits, Allowed, stays, begins, begins_again,
  is_asked, fails_first, ends, crashes, Allows, nothing, then_also, life_of, view,
}
use live_migration_operator.ApiServer.Manager.Invariant.{
  Inv, signalled_lem, Steps-Inv, reachable-Inv,
}

view-begun :
    (m : Manager)
    → view (begun m) ≡ record (view m) { life = running; asked = false; failure = none }
unfolding begun
view-begun m = elim (Bool-cases m.started) [ inl again ↦ rw again refl | inr first ↦ rw first refl ]

called-Allowed :
    (m : Manager) (p : Main) → m.main ≡ p → Callable p → Allowed (view m) (view (begun m))
called-Allowed m not_called at c = rw (view-begun m) (begins (ap life_of at))
called-Allowed m (returned r) at c = rw (view-begun m) (begins_again r (ap life_of at))
called-Allowed m syncing at c = absurd c
called-Allowed m waiting at c = absurd c
called-Allowed m crashed at c = absurd c

signalled-Allowed :
    (e : Option String) (m : Manager) → Inv m → Allowed (view m) (view (signalled e m))
unfolding signalled
signalled-Allowed none m i = stays
signalled-Allowed (some e) m i = elim (signalled_lem e m i) [
  | inl (unset, set) ↦ rw set (fails_first e unset)
  | inr same ↦ rw same stays
]

leave-once :
    (r : Option String) (m : Manager)
    → m.internal_stop ≡ false
    → leave r m ≡ record m { main = returned r; internal_stop = true }
unfolding leave
leave-once r m h = rw h refl

leave-again :
    (r : Option String) (m : Manager)
    → m.internal_stop ≡ true
    → leave r m ≡ record m { main = crashed }
unfolding leave
leave-again r m h = rw h refl

leave-Allowed :
    (r : Option String) (m : Manager)
    → m.main ≡ waiting
    → Fits (view m) r
    → Allowed (view m) (view (leave r m))
leave-Allowed r m at fits = elim (Bool-cases m.internal_stop) [
  | inl again ↦ rw (leave-again r m again) (crashes (ap life_of at) again)
  | inr first ↦ rw (leave-once r m first) (ends r (ap life_of at) first fits)
]

failed-Fits :
    (m : Manager) (err : Option String)
    → m.err_signal.err ≡ err
    → is_set err ≡ true
    → Fits (view m) err
failed-Fits m none at h = cc h
failed-Fits m (some e) at h = at

-- Every step of the manager is one of the contract, or leaves it as it is.
Step-Allowed : {m n : Manager} → Inv m → Step m n → Allowed (view m) (view n)
Step-Allowed {m} i (called c) = called-Allowed m m.main refl c
Step-Allowed {m} i (synced h) =
    subst (Allowed (view m))
      (ap
        (λ l. record {
          life = l;
          asked = m.stop;
          failure = m.err_signal.err;
          used = m.internal_stop;
        })
        (ap life_of h))
      stays
Step-Allowed {m} i (cache_ends e h q) = signalled-Allowed e (record m { cache = cached }) i
Step-Allowed i (stop_closed h) = is_asked
Step-Allowed {m} i (leaves_stopped at stopped) = leave-Allowed none m at stopped
Step-Allowed {m} (closed, _) (leaves_failed at failed) =
    leave-Allowed m.err_signal.err m at (failed-Fits m m.err_signal.err refl (sym closed ∙ failed))
Step-Allowed {m} i (serves before after s t e h q move) =
    signalled-Allowed e (record m { servers = before ++ (t ∷ after) }) i

reachable-Allows : {m : Manager} → Steps new_manager m → Allows new_contract (view m)
reachable-Allows none_yet = nothing
reachable-Allows (further steps step) =
    then_also (reachable-Allows steps) (Step-Allowed (reachable-Inv steps) step)

-- How a running call ends with a result: with it if it is the first call, and else by the crash.
abbrev pub ended_by : Option String → Contract → Contract
ended_by r c = if c.used then record c { life = dead } else record c { life = ended r; used = true }

view-leave : (r : Option String) (m : Manager) → view (leave r m) ≡ ended_by r (view m)
view-leave r m = elim (Bool-cases m.internal_stop) [
  | inl again ↦ rw (leave-again r m again) (rw again refl)
  | inr first ↦ rw (leave-once r m first) (rw first refl)
]

-- The manager can come to this state of the contract.
abbrev pub CanReach : Manager → Contract → Type 0
CanReach m c = (n : Manager) × Steps m n × (view n ≡ c)

waiting-CanReach :
    (r : Option String) (m : Manager)
    → Inv m
    → m.main ≡ waiting
    → Fits (view m) r
    → CanReach m (ended_by r (view m))
waiting-CanReach none m i at stopped =
    (leave none m, further none_yet (leaves_stopped at stopped), view-leave none m)
waiting-CanReach (some e) m (closed, _) at failed =
    let signalled_now : m.err_signal.closed ≡ true = closed ∙ rw failed refl in
    (
      leave m.err_signal.err m,
      further none_yet (leaves_failed at signalled_now),
      view-leave m.err_signal.err m ∙ ap (λ r. ended_by r (view m)) failed,
    )

Steps-trans : {l m n : Manager} → Steps l m → Steps m n → Steps l n
Steps-trans steps none_yet = steps
Steps-trans steps (further more step) = further (Steps-trans steps more) step

with_server-Fits :
    (r : Option String) (m : Manager)
    → Fits (view m) r
    → Fits (view (with_server (record m { started = true }))) r
with_server-Fits none m fits = fits
with_server-Fits (some e) m fits = fits

ended_by-with_server :
    (r : Option String) (m : Manager)
    → ended_by r (view (with_server (record m { started = true }))) ≡ ended_by r (view m)
ended_by-with_server r m = elim (Bool-cases m.internal_stop) [
  | inl again ↦ rw again refl
  | inr first ↦ rw first refl
]

syncing-CanReach :
    (r : Option String) (m : Manager)
    → Inv m
    → m.main ≡ syncing
    → Fits (view m) r
    → CanReach m (ended_by r (view m))
syncing-CanReach r m i at fits =
    let one : Steps m (with_server (record m { started = true })) = further none_yet (synced at) in
    let (n, steps, same) =
      waiting-CanReach r (with_server (record m { started = true })) (Steps-Inv one i) refl
        (with_server-Fits r m fits) in
    (n, Steps-trans one steps, same ∙ ended_by-with_server r m)

running-CanReach :
    (r : Option String) (m : Manager) (p : Main)
    → m.main ≡ p
    → Inv m
    → life_of p ≡ running
    → Fits (view m) r
    → CanReach m (ended_by r (view m))
running-CanReach r m syncing at i live fits = syncing-CanReach r m i at fits
running-CanReach r m waiting at i live fits = waiting-CanReach r m i at fits
running-CanReach r m not_called at i live fits = cc live
running-CanReach r m (returned _) at i live fits = cc live
running-CanReach r m crashed at i live fits = cc live

-- The manager refines the contract: from every state that a new manager comes to, which the
-- contract comes to as well, each step is one that the contract allows, or leaves what is seen as it
-- is. And the manager does what the contract lets a running call do: whenever a result fits, the
-- call can end with it if it is the first one, and crash if it is a later one.
pub manager_refines_contract :
    {m : Manager}
    → Steps new_manager m
    → Allows new_contract (view m)
      × ((n : Manager) → Step m n → Allowed (view m) (view n))
      × ((r : Option String)
          → (view m).life ≡ running
          → Fits (view m) r
          → CanReach m (ended_by r (view m)))
manager_refines_contract {m} steps =
    let i = reachable-Inv steps in
    (
      reachable-Allows steps,
      (λ n step. Step-Allowed i step),
      λ r live fits. running-CanReach r m m.main refl i live fits,
    )
