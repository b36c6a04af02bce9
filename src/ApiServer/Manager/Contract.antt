-- ===== src/ApiServer/Manager/Contract.antt =====
-- What the manager promises of `Start`, without its cache, its servers and its channels.
use live_migration_operator.Base.{String, ◌≡◌, Bool, true, false, Option, none, some}
use live_migration_operator.ApiServer.Manager.{
  Main, not_called, syncing, waiting, returned, crashed, Manager,
}

-- The life of the calls, one after the other.
pub data Life : Type 0 where
  ready running : Life
  ended : Option String → Life
  dead : Life

-- Whether the latest call was asked to stop, its first failure, and whether a call has ended.
pub record Contract : Type 0 where
  pub life : Life
  pub asked : Bool
  pub failure : Option String
  pub used : Bool

abbrev pub new_contract : Contract
new_contract = record { life = ready; asked = false; failure = none; used = false }

-- The result that a call may end with.
abbrev pub Fits : Contract → Option String → Type 0
Fits c none = c.asked ≡ true
Fits c (some e) = c.failure ≡ some e

-- A call begins when none runs, a first failure is kept, the first call ends with a result that
-- fits, and a later one cannot end but by a crash.
pub data Allowed (c : Contract) : Contract → Type 0 where
  stays : Allowed c c
  begins : c.life ≡ ready → Allowed c (record c { life = running; asked = false; failure = none })
  begins_again :
      (r : Option String)
      → c.life ≡ ended r
      → Allowed c (record c { life = running; asked = false; failure = none })
  is_asked : Allowed c (record c { asked = true })
  fails_first : (e : String) → c.failure ≡ none → Allowed c (record c { failure = some e })
  ends :
      (r : Option String)
      → c.life ≡ running
      → c.used ≡ false
      → Fits c r
      → Allowed c (record c { life = ended r; used = true })
  crashes : c.life ≡ running → c.used ≡ true → Allowed c (record c { life = dead })

pub data Allows (c : Contract) : Contract → Type 0 where
  nothing : Allows c c
  then_also : {d e : Contract} → Allows c d → Allowed d e → Allows c e

abbrev pub life_of : Main → Life
life_of not_called = ready
life_of syncing = running
life_of waiting = running
life_of (returned r) = ended r
life_of crashed = dead

abbrev pub view : Manager → Contract
view m = record {
  life = life_of m.main;
  asked = m.stop;
  failure = m.err_signal.err;
  used = m.internal_stop;
}
