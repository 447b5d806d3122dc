-- ===== src/Types/Workload.antt =====
-- The Kubernetes kinds, with the fields that the controllers set or read. A pointer field is an
-- `Option`; a resource quantity stays the text that the code gives to `resource.MustParse`.
use vitastor_operator.Prelude.{String, Bool, List, Option}
use vitastor_operator.Prelude.Int.{ℤ}
use vitastor_operator.Go.Map.{Entries}
use vitastor_operator.Types.Metadata.{Meta}

pub record VolumeMount : Type 0 where
  pub name : String
  pub mount_path : String

pub data VolumeSource : Type 0 where
  host_path config_map : String → VolumeSource

pub record Volume : Type 0 where
  pub name : String
  pub source : VolumeSource

pub record Container : Type 0 where
  pub name : String
  pub image : String
  pub command : List String
  pub args : List String
  pub limits : Entries String
  pub volume_mounts : List VolumeMount
  pub privileged : Option Bool
  pub ports : List ℤ

pub record PodSpec : Type 0 where
  pub node_name : String
  pub node_selector : Entries String
  pub containers : List Container
  pub priority_class_name : String
  pub volumes : List Volume

pub record PodTemplate : Type 0 where
  pub labels : Entries String
  pub spec : PodSpec

-- A rolling update's largest numbers of pods missing and pods too many.
pub record RollingUpdate : Type 0 where
  pub max_unavailable : ℤ
  pub max_surge : ℤ

pub record Deployment : Type 0 where
  pub meta : Meta
  pub replicas : Option ℤ
  pub match_labels : Entries String
  pub template : PodTemplate
  pub rolling_update : Option RollingUpdate

pub record DaemonSet : Type 0 where
  pub meta : Meta
  pub match_labels : Entries String
  pub template : PodTemplate

pub record StatefulSet : Type 0 where
  pub meta : Meta
  pub replicas : Option ℤ
  pub match_labels : Entries String
  pub template : PodTemplate

pub record StorageClass : Type 0 where
  pub meta : Meta
  pub provisioner : String
  pub parameters : Entries String

pub record Pod : Type 0 where
  pub node_name : String
  pub pod_ip : String

pub record KubeNode : Type 0 where
  pub labels : Entries String

-- The options of a List call: the namespace, the labels and the index fields to match.
pub record ListOptions : Type 0 where
  pub namespace : String
  pub labels : Entries String
  pub fields : Entries String
