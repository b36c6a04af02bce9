-- ===== src/ApiServer/Manager/Restart.antt =====
-- A second call of `Start`.
use live_migration_operator.Base.{
  subst, String, ◌∷◌, ◌++◌, ◌≡◌, ◌≢◌, refl, true, Option, none, some, inl, inr, ◌⊎◌,
}
use live_migration_operator.ApiServer.Signal.{ErrSignaler, signal_error}
use live_migration_operator.ApiServer.Manager.{
  Main, syncing, waiting, returned, crashed, Manager, new_manager, Callable, begun, signalled,
  leave, cached, Step, called, synced, cache_ends, stop_closed, leaves_stopped, leaves_failed,
  serves, Steps, none_yet, further,
}
use live_migration_operator.ApiServer.Manager.Invariant.{Known, reachable-Inv}

-- The channel is closed, and the call waits or has crashed.
abbrev Again : Manager → Type 0
Again m = (m.internal_stop ≡ true) × ((m.main ≡ waiting) ⊎ (m.main ≡ crashed))

signal_result-Again :
    (m : Manager) (o : Option ErrSignaler)
    → Again m
    → Again (elim o [ none ↦ record m { main = crashed } | some s ↦ record m { err_signal = s } ])
signal_result-Again m none (closed, at) = (closed, inr refl)
signal_result-Again m (some s) a = a

signalled-Again : (e : Option String) (m : Manager) → Again m → Again (signalled e m)
unfolding signalled
signalled-Again none m a = a
signalled-Again (some e) m a = signal_result-Again m (signal_error (some e) m.err_signal) a

leave-Again : (r : Option String) (m : Manager) → Again m → Again (leave r m)
unfolding leave
leave-Again r m (closed, at) = rw closed (refl, inr refl)

no_call_again : (p : Main) → (p ≡ waiting) ⊎ (p ≡ crashed) → ¬ Callable p
no_call_again p (inl at) c = subst Callable at c
no_call_again p (inr at) c = subst Callable at c

not_syncing : (p : Main) → (p ≡ waiting) ⊎ (p ≡ crashed) → p ≢ syncing
not_syncing p (inl at) h = cc (at, h)
not_syncing p (inr at) h = cc (at, h)

Step-Again : {m n : Manager} → Step m n → Again m → Again n
Step-Again {m} (called c) (closed, at) = absurd (no_call_again m.main at c)
Step-Again {m} (synced h) (closed, at) = absurd (not_syncing m.main at h)
Step-Again {m} (cache_ends e h q) a = signalled-Again e (record m { cache = cached }) a
Step-Again (stop_closed h) a = a
Step-Again {m} (leaves_stopped at stopped) a = leave-Again none m a
Step-Again {m} (leaves_failed at failed) a = leave-Again m.err_signal.err m a
Step-Again {m} (serves before after s t e h q move) a =
    signalled-Again e (record m { servers = before ++ (t ∷ after) }) a

Steps-Again : {m n : Manager} → Steps m n → Again m → Again n
Steps-Again none_yet a = a
Steps-Again (further steps step) a = Step-Again step (Steps-Again steps a)

closed_once :
    (m : Manager) (r : Option String)
    → Known (returned r) m.started m.stop m.internal_stop m.err_signal.err
    → (m.started ≡ true) × (m.internal_stop ≡ true)
closed_once m none (k, l, _) = (k, l)
closed_once m (some e) (k, l, _) = (k, l)

begun-Again : (m : Manager) → (m.started ≡ true) × (m.internal_stop ≡ true) → Again (begun m)
unfolding begun
begun-Again m (started, closed) = rw started (closed, inl refl)

-- When a call of `Start` has returned, a further call never returns: whatever happens, it waits, or
-- it has crashed the process. It crashes if its argument is closed or an error is signalled.
pub second_start_never_returns :
    (m n : Manager) (r : Option String)
    → Steps new_manager m
    → m.main ≡ returned r
    → Steps (begun m) n
    → ((n.main ≡ waiting) ⊎ (n.main ≡ crashed))
      × ((r' : Option String) → leave r' n ≡ record n { main = crashed })
unfolding leave
second_start_never_returns m n r first at second =
    let before = closed_once m r (
      subst (λ p. Known p m.started m.stop m.internal_stop m.err_signal.err) at
        (reachable-Inv first).1) in
    let (closed, here) = Steps-Again second (begun-Again m before) in (here, λ r'. rw closed refl)
