-- ===== src/ApiServer/Manager/Invariant.antt =====
-- What holds of the manager after any steps, and why a call of `Start` returns.
use live_migration_operator.Base.{
  subst, String, ◌∷◌, ◌++◌, ◌≡◌, refl, sym, ◌∙◌, Bool, true, false, Option, none, some, Bool-cases,
  Option-cases, inl, inr, ◌⊎◌,
}
use live_migration_operator.ApiServer.Signal.{signal_error, is_set}
use live_migration_operator.ApiServer.Manager.{
  Main, not_called, syncing, waiting, returned, crashed, cached, Manager, new_manager, Callable,
  begun, signalled, leave, Step, called, synced, cache_ends, stop_closed, leaves_stopped,
  leaves_failed, serves, Steps, none_yet, further,
}

-- What is known where the goroutine stands, of `started`, `stop`, `internal_stop` and the error.
abbrev pub Known : Main → Bool → Bool → Bool → Option String → Type 0
Known not_called started stop internal err = (started ≡ false) × (internal ≡ false)
Known syncing started stop internal err = (started ≡ false) × (internal ≡ false)
Known waiting started stop internal err = started ≡ true
Known (returned none) started stop internal err =
    (started ≡ true) × (internal ≡ true) × (stop ≡ true)
Known (returned (some e)) started stop internal err =
    (started ≡ true) × (internal ≡ true) × (err ≡ some e)
Known crashed started stop internal err = internal ≡ true

abbrev pub KnownOf : Manager → Type 0
KnownOf m = Known m.main m.started m.stop m.internal_stop m.err_signal.err

-- The channel of the signaler is closed exactly if there is an error, and what is known.
abbrev pub Inv : Manager → Type 0
Inv m = (m.err_signal.closed ≡ is_set m.err_signal.err) × KnownOf m

first_call :
    (p : Main) (started stop internal : Bool) (err : Option String)
    → Callable p
    → Known p started stop internal err
    → started ≡ false
    → internal ≡ false
first_call not_called started stop internal err c (_, k) h = k
first_call syncing started stop internal err c _ h = elim c [ ]
first_call waiting started stop internal err c _ h = elim c [ ]
first_call crashed started stop internal err c _ h = elim c [ ]
first_call (returned none) started stop internal err c (k, _, _) h = cc (k, h)
first_call (returned (some e)) started stop internal err c (k, _, _) h = cc (k, h)

begun-Inv : (m : Manager) → Callable m.main → Inv m → Inv (begun m)
unfolding begun
begun-Inv m c (_, k) = elim (Bool-cases m.started) [
  | inl again ↦ rw again (refl, refl)
  | inr first ↦
      rw first (
        refl,
        (refl, first_call m.main m.started m.stop m.internal_stop m.err_signal.err c k first),
      )
]

-- A first error does not change what is known.
first_error_Known :
    (p : Main) (started stop internal : Bool) (e : String)
    → Known p started stop internal none
    → Known p started stop internal (some e)
first_error_Known not_called started stop internal e k = k
first_error_Known syncing started stop internal e k = k
first_error_Known waiting started stop internal e k = k
first_error_Known (returned none) started stop internal e k = k
first_error_Known (returned (some e')) started stop internal e (_, _, k) = cc k
first_error_Known crashed started stop internal e k = k

-- Signalling keeps what is known: it sets a first error, keeps a later one, and never panics.
pub signalled_lem :
    (e : String) (m : Manager)
    → Inv m
    → ((m.err_signal.err ≡ none)
        × (signalled (some e) m ≡ record m { err_signal = record { closed = true; err = some e } }))
      ⊎ (signalled (some e) m ≡ m)
unfolding signalled signal_error
signalled_lem e m (closed, k) = elim (Option-cases m.err_signal.err) [
  | inl unset ↦
      let unclosed : m.err_signal.closed ≡ false = closed ∙ rw unset refl in
      inl (unset, rw (unset, unclosed) refl)
  | inr (e', set) ↦ inr (rw set refl)
]

signalled-Inv : (e : Option String) (m : Manager) → Inv m → Inv (signalled e m)
unfolding signalled
signalled-Inv none m i = i
signalled-Inv (some e) m i = elim (signalled_lem e m i) [
  | inl (unset, set) ↦ rw set (
    refl,
    first_error_Known m.main m.started m.stop m.internal_stop e
        (subst (λ err. Known m.main m.started m.stop m.internal_stop err) unset i.1),
  )
  | inr same ↦ rw same i
]

leave-Inv :
    (r : Option String) (m : Manager)
    → Inv m
    → ((internal : Bool)
        → internal ≡ true
        → Known (returned r) m.started m.stop internal m.err_signal.err)
    → Inv (leave r m)
unfolding leave
leave-Inv r m (closed, _) k = elim (Bool-cases m.internal_stop) [
  | inl again ↦ rw again (closed, refl)
  | inr first ↦ rw first (closed, k true refl)
]

stop_Known :
    (p : Main) (started stop internal : Bool) (err : Option String)
    → Known p started stop internal err
    → Known p started true internal err
stop_Known not_called started stop internal err k = k
stop_Known syncing started stop internal err k = k
stop_Known waiting started stop internal err k = k
stop_Known (returned none) started stop internal err (k, l, _) = (k, l, refl)
stop_Known (returned (some e)) started stop internal err k = k
stop_Known crashed started stop internal err k = k

failed_Known :
    (started stop internal : Bool) (err : Option String)
    → is_set err ≡ true
    → started ≡ true
    → internal ≡ true
    → Known (returned err) started stop internal err
failed_Known started stop internal none h k l = cc h
failed_Known started stop internal (some e) h k l = (k, l, refl)

started_of : (m : Manager) → m.main ≡ waiting → KnownOf m → m.started ≡ true
started_of m at k = subst (λ p. Known p m.started m.stop m.internal_stop m.err_signal.err) at k

-- Every step keeps it.
Step-Inv : {m n : Manager} → Step m n → Inv m → Inv n
Step-Inv {m} (called c) i = begun-Inv m c i
Step-Inv (synced h) (closed, k) = (closed, refl)
Step-Inv {m} (cache_ends e h q) i = signalled-Inv e (record m { cache = cached }) i
Step-Inv {m} (stop_closed h) (closed, k) =
    (closed, stop_Known m.main m.started m.stop m.internal_stop m.err_signal.err k)
Step-Inv {m} (leaves_stopped at stopped) (closed, k) =
    leave-Inv none m (closed, k) (λ internal h. (started_of m at k, h, stopped))
Step-Inv {m} (leaves_failed at failed) (closed, k) =
    leave-Inv m.err_signal.err m (closed, k)
      (λ internal h.
        failed_Known m.started m.stop internal m.err_signal.err (sym closed ∙ failed)
          (started_of m at k) h)
Step-Inv {m} (serves before after s t e h q move) i =
    signalled-Inv e (record m { servers = before ++ (t ∷ after) }) i

pub Steps-Inv : {m n : Manager} → Steps m n → Inv m → Inv n
Steps-Inv none_yet i = i
Steps-Inv (further steps step) i = Step-Inv step (Steps-Inv steps i)

pub reachable-Inv : {m : Manager} → Steps new_manager m → Inv m
reachable-Inv steps = Steps-Inv steps (refl, (refl, refl))

-- Why a call of `Start` returned: with no error because its argument was closed, with an error
-- because that is the first one that was signalled in the call.
abbrev pub Reason : Manager → Option String → Type 0
Reason m none = m.stop ≡ true
Reason m (some e) = m.err_signal.err ≡ some e

reason :
    (m : Manager) (r : Option String)
    → Known (returned r) m.started m.stop m.internal_stop m.err_signal.err
    → (m.internal_stop ≡ true) × Reason m r
reason m none (_, k, h) = (k, h)
reason m (some e) (_, k, h) = (k, h)

-- In every state that a new manager comes to, a call of `Start` that returned no error has had its
-- argument closed, one that returned an error has returned the one that is signalled, and the
-- channel that stops the server is closed behind either.
pub why_start_returns :
    (m : Manager) (r : Option String)
    → Steps new_manager m
    → m.main ≡ returned r
    → (m.internal_stop ≡ true) × Reason m r
why_start_returns m r steps at = reason m r (
    subst (λ p. Known p m.started m.stop m.internal_stop m.err_signal.err) at
      (reachable-Inv steps).1)
