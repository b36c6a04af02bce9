-- ===== src/ApiServer/Create/Laws.antt =====
-- When the handler `create` creates an object, which one, and what it replies.
use live_migration_operator.Base.{
  ℕ, ◌+◌, ◌≤◌, String, List, [], ◌∷◌, ◌≡◌, ◌≢◌, ◌↔◌, ◌⊎◌, refl, none, some, eq_iff, arith,
}
use live_migration_operator.Go.{done, World, run}
use live_migration_operator.Go.Calls.{made}
use live_migration_operator.Kube.Objects.{Pod}
use live_migration_operator.ApiServer.Types.{
  Call, create_migration, write_one, write_all, write_error_json, api,
}
use live_migration_operator.ApiServer.Create.{find_source, create_handler}

abbrev is_create : Call → ℕ
is_create (create_migration _) = 1
is_create _ = 0

abbrev is_write : Call → ℕ
is_write (write_one _) = 1
is_write (write_all _) = 1
is_write (write_error_json _ _) = 1
is_write _ = 0

-- How many objects the calls create, and how many replies they write.
abbrev pub creations : List Call → ℕ
creations [] = 0
creations (c ∷ cs) = is_create c + creations cs

abbrev pub writes : List Call → ℕ
writes [] = 0
writes (c ∷ cs) = is_write c + writes cs

-- A running pod of this name is listed.
abbrev pub AnyRunning : String → List Pod → Type 0
AnyRunning name [] = ⊥
AnyRunning name (pod ∷ pods) =
    ((pod.meta.name ≡ name) × (pod.status.phase ≡ "Running")) ⊎ AnyRunning name pods

find_source-some :
    (name : String) (pods : List Pod) (p : Pod) → find_source name pods (some p) ≢ none
unfolding find_source
find_source-some name [] p h = cc
find_source-some name (pod ∷ pods) p h =
    ground (arith, find_source-some name pods p, find_source-some name pods pod)

pub find_source_iff :
    (name : String) (pods : List Pod) → (find_source name pods none ≢ none) ↔ AnyRunning name pods
unfolding find_source
find_source_iff name [] = (λ h. absurd (h refl), λ h. absurd h)
find_source_iff name (pod ∷ pods) = ground (
  arith,
  eq_iff pod.meta.name name,
  eq_iff pod.status.phase "Running",
  find_source-some name pods pod,
  find_source_iff name pods,
)

module _ (w : World api) (tr : List Call) where
  -- The handler always returns, with one or two replies written and at most one object created.
  pub create_handler_replies :
      ((run w create_handler tr).0 ≡ done tt)
      × (1 ≤ writes (made w create_handler tr))
      × (writes (made w create_handler tr) ≤ 2)
      × (creations (made w create_handler tr) ≤ 1)
  unfolding create_handler run made
  create_handler_replies = ground arith
