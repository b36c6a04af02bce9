-- ===== src/ApiServer/Signal.antt =====
-- `errSignaler` of api-server/signals.go. Its methods hold the mutex, so they are atomic.
use live_migration_operator.Base.{
  String, ◌≡◌, refl, List, [], ◌∷◌, Bool, true, false, Option, none, some,
}

-- Whether the channel is closed, and the received error.
pub record ErrSignaler : Type 0 where
  pub closed : Bool
  pub err : Option String

-- `none` is a panic: a channel that is closed already was closed again.
unfoldable pub signal_error : Option String → ErrSignaler → Option ErrSignaler
signal_error none r = some r
signal_error (some e) r = elim r.err [
  | some _ ↦ some r
  | none ↦ elim r.closed [ true ↦ none | false ↦ some (record { closed = true; err = some e }) ]
]

-- `Error`, and whether a receive on `GotError()` returns
abbrev pub error : ErrSignaler → Option String
error r = r.err

abbrev pub got_error : ErrSignaler → Bool
got_error r = r.closed

abbrev pub new_signaler : ErrSignaler
new_signaler = record { closed = false; err = none }

-- Any sequence of calls, in the order in which the goroutines get the mutex.
unfoldable pub signal_all : List (Option String) → ErrSignaler → Option ErrSignaler
unfolding signal_error
signal_all [] r = some r
signal_all (e ∷ es) r = elim (signal_error e r) [ none ↦ none | some r' ↦ signal_all es r' ]

-- The first error of a sequence of calls.
abbrev pub first_error : List (Option String) → Option String
first_error [] = none
first_error (none ∷ es) = first_error es
first_error (some e ∷ es) = some e

abbrev pub is_set : Option String → Bool
is_set none = false
is_set (some _) = true

signal_all_set :
    (es : List (Option String)) (e : String)
    → signal_all es (record { closed = true; err = some e })
      ≡ some (record { closed = true; err = some e })
unfolding signal_all
signal_all_set [] e = refl
signal_all_set (none ∷ es) e = signal_all_set es e
signal_all_set (some _ ∷ es) e = signal_all_set es e

-- Whatever is signalled, no channel is closed twice, `Error` is the first error that was not nil,
-- and the channel is closed exactly if there was one.
pub signal_all-first :
    (es : List (Option String))
    → signal_all es new_signaler
      ≡ some (record { closed = is_set (first_error es); err = first_error es })
unfolding signal_all
signal_all-first [] = refl
signal_all-first (none ∷ es) = signal_all-first es
signal_all-first (some e ∷ es) = signal_all_set es e
