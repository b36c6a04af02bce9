-- ===== src/Reconcile/Builders/Replicas.antt =====
-- The replicas of the deployment: an int that is converted to an int32.
use live_migration_operator.Base.{
  ℕ, ◌-◌, ◌≤◌, ◌<◌, String, ◌≡◌, ◌↔◌, ◌⊎◌, refl, ltb, if◌then◌else◌, arith,
}
use live_migration_operator.Go.{Result}
use live_migration_operator.Api.{LiveMigration}
use live_migration_operator.Kube.Objects.{ObjectMeta, PodTemplateSpec, Deployment}
use live_migration_operator.Reconcile.Builders.Laws.{owned_keeps}
use live_migration_operator.Reconcile.Builders.{to_int32, desired_deployment}

-- `negsuc n` is -(n + 1).
pub data ℤ : Type 0 where
  pos : ℕ → ℤ
  negsuc : ℕ → ℤ

-- The numbers that patterns of 64 and of 32 bits stand for.
abbrev pub signed64 : ℕ → ℤ
signed64 n = if ltb n 9223372036854775808 then pos n else negsuc (18446744073709551616 - n - 1)

abbrev pub signed32 : ℕ → ℤ
signed32 n = if ltb n 2147483648 then pos n else negsuc (4294967296 - n - 1)

to_int32_signed :
    (n : ℕ)
    → n < 18446744073709551616
    → (signed32 (to_int32 n) ≡ signed64 n) ↔ ((n < 2147483648) ⊎ (18446744071562067968 ≤ n))
to_int32_signed n h = ground arith

deployment_replicas :
    (set_owner : LiveMigration → ObjectMeta → Result String) (migrating : LiveMigration)
    (parent namespace : String) (template : PodTemplateSpec)
    → (desired_deployment set_owner migrating parent namespace template).0.replicas
      ≡ to_int32 migrating.spec.replicas
unfolding desired_deployment
deployment_replicas set_owner migrating parent namespace template =
    owned_keeps (λ (d : Deployment). d.replicas) _ _ (set_owner migrating _) (λ owner. refl)

-- The deployment's replicas are a pattern of 32 bits. They are the migration's replicas exactly if
-- those are at least -2^31 and below 2^31.
pub deployment_replicas_bounds :
    (set_owner : LiveMigration → ObjectMeta → Result String) (migrating : LiveMigration)
    (parent namespace : String) (template : PodTemplateSpec)
    → migrating.spec.replicas < 18446744073709551616
    → ((desired_deployment set_owner migrating parent namespace template).0.replicas < 4294967296)
      × ((signed32 (desired_deployment set_owner migrating parent namespace template).0.replicas
            ≡ signed64 migrating.spec.replicas)
          ↔ ((migrating.spec.replicas < 2147483648)
              ⊎ (18446744071562067968 ≤ migrating.spec.replicas)))
deployment_replicas_bounds set_owner migrating parent namespace template h =
    rw (deployment_replicas set_owner migrating parent namespace template)
      (omega arith, to_int32_signed migrating.spec.replicas h)
