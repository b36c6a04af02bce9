-- ===== src/ApiServer/Server/Late.antt =====
-- An error of the listener that comes when `Start` has left its select.
use live_migration_operator.Base.{subst, String, ◌≡◌, Bool, Option}
use live_migration_operator.ApiServer.Server.{
  Api, not_begun, selecting, shutting_down, ended, sending, Server, Move, begins, closes, fails,
  receives, stops, shuts_down,
}

-- Any number of steps, while the channel `stop` may be closed at any time.
pub data Moves (s : Server) : Server → Type 0 where
  no_move : Moves s s
  moved : {t u : Server} (stop : Bool) (r : Option String) → Moves s t → Move stop t u r → Moves s u

-- `Start` has left its select.
abbrev pub Left : Api → Type 0
Left shutting_down = Unit
Left ended = Unit
Left _ = ⊥

-- The listener waits for a receiver that has gone.
abbrev pub Stuck : String → Server → Type 0
Stuck e s = (s.listener ≡ sending e) × Left s.api

not_there : (a b : Api) → a ≡ b → Left a → ¬ Left b → ⊥
not_there a b h l n = n (subst Left h l)

Move-Stuck :
    {stop : Bool} {s t : Server} {r : Option String} (e : String)
    → Move stop s t r
    → Stuck e s
    → Stuck e t
Move-Stuck {stop} {s} e (begins h) (q, l) = absurd (not_there s.api not_begun h l (λ n. n))
Move-Stuck e (closes h) (q, l) = cc (h, q)
Move-Stuck e (fails e' h) (q, l) = cc (h, q)
Move-Stuck {stop} {s} e (receives e' h q') (q, l) = absurd (not_there s.api selecting h l (λ n. n))
Move-Stuck e (stops c h) (q, l) = (q, tt)
Move-Stuck e (shuts_down r h) (q, l) = (q, tt)

-- If the listener fails after `Start` has left its select, the error is never received: whatever
-- the server does, its goroutine waits for ever on the channel without a buffer.
pub late_failure_is_lost :
    (s t : Server) (e : String)
    → s.listener ≡ sending e
    → Left s.api
    → Moves s t
    → (t.listener ≡ sending e) × Left t.api
late_failure_is_lost s t e at left no_move = (at, left)
late_failure_is_lost s t e at left (moved {t = u} stop r moves move) =
    Move-Stuck e move (late_failure_is_lost s u e at left moves)
