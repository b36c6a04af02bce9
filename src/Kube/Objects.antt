-- ===== src/Kube/Objects.antt =====
-- The Kubernetes objects, with the fields that the program reads or writes. Their types are those
-- of the Kubernetes API; a `nil` map, slice or pointer that the code tells from an empty one is
-- `none`.
use live_migration_operator.Base.{ℕ, String, Bool, List, [], Option, none}

-- A Go map from texts to texts.
abbrev pub Dict : Type 0
Dict = List (String × String)

pub record ObjectMeta : Type 0 where
  pub name : String
  pub namespace : String
  pub generate_name : String
  pub labels : Option Dict
  pub annotations : Option Dict
  pub finalizers : List String
  pub deletion_timestamp : Option ℕ
  -- the name of the controlling owner
  pub owner : Option String

pub record ContainerPort : Type 0 where
  pub name : String
  pub container_port : ℕ

pub record VolumeMount : Type 0 where
  pub name : String
  pub mount_path : String

pub record Container : Type 0 where
  pub name : String
  pub image : String
  pub image_pull_policy : String
  pub ports : List ContainerPort
  pub volume_mounts : List VolumeMount
  pub requests : Dict
  pub limits : Dict

pub record Volume : Type 0 where
  pub name : String
  pub host_path : String

pub record PodSpec : Type 0 where
  pub containers : List Container
  pub volumes : List Volume
  pub node_selector : Option Dict
  pub share_process_namespace : Option Bool

pub record ContainerStatus : Type 0 where
  pub name : String
  pub container_id : String
  pub ready : Bool

pub record PodStatus : Type 0 where
  pub phase : String
  pub container_statuses : List ContainerStatus

pub record Pod : Type 0 where
  pub meta : ObjectMeta
  pub spec : PodSpec
  pub status : PodStatus

pub record PodTemplateSpec : Type 0 where
  pub meta : ObjectMeta
  pub spec : PodSpec

-- `replicas` is the 32-bit pattern of the int32.
pub record Deployment : Type 0 where
  pub api_version : String
  pub kind : String
  pub meta : ObjectMeta
  pub selector : Dict
  pub replicas : ℕ
  pub template : PodTemplateSpec

pub record ServicePort : Type 0 where
  pub name : String
  pub port : ℕ
  pub target_port : ℕ

pub record Service : Type 0 where
  pub meta : ObjectMeta
  pub cluster_ip : String
  pub ports : List ServicePort
  pub selector : Dict

-- The zero values of Go.
abbrev pub zero_meta : ObjectMeta
zero_meta = record {
  name = "";
  namespace = "";
  generate_name = "";
  labels = none;
  annotations = none;
  finalizers = [];
  deletion_timestamp = none;
  owner = none;
}

abbrev pub zero_pod_spec : PodSpec
zero_pod_spec = record {
  containers = [];
  volumes = [];
  node_selector = none;
  share_process_namespace = none;
}

abbrev pub zero_status : PodStatus
zero_status = record { phase = ""; container_statuses = [] }

-- A container of which only the name and the image are set.
abbrev pub plain_container : String → String → Container
plain_container name image = record {
  name = name;
  image = image;
  image_pull_policy = "";
  ports = [];
  volume_mounts = [];
  requests = [];
  limits = [];
}
