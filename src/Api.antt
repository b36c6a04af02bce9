-- ===== src/Api.antt =====
-- api/v1alpha1/livemigration_types.go: the LiveMigration object. An `int` is its 64-bit pattern.
use live_migration_operator.Base.{ℕ, String, Option}
use live_migration_operator.Kube.Objects.{Dict, ObjectMeta, PodTemplateSpec}

-- `metav1.LabelSelector`, of which the code sets only the labels
abbrev pub LabelSelector : Type 0
LabelSelector = Dict

pub record LiveMigrationSpec : Type 0 where
  pub replicas : ℕ
  pub source_pod : String
  pub dest_host : String
  pub snapshot_path : String
  pub selector : Option LabelSelector
  pub template : PodTemplateSpec
  pub action : String

pub record LiveMigrationStatus : Type 0 where
  pub state : String
  pub current_revision : String
  pub active_pod : String

pub record LiveMigration : Type 0 where
  pub meta : ObjectMeta
  pub spec : LiveMigrationSpec
  pub status : LiveMigrationStatus
