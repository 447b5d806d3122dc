-- ===== src/Api.antt =====
-- What the operator uses of the code outside this repository: the process's environment and files,
-- HTTP, etcd, the Kubernetes client, the JSON codec, and two library functions. A call takes the
-- world `W`, which anybody may change between two calls, and returns its answer and the next world.
pub mod Calls
pub mod Laws
pub mod Memory
use vitastor_operator.Prelude.{ℕ, String, Bool, List, [], ◌∷◌, Option, none, some}
use vitastor_operator.Prelude.Int.{ℤ}
use vitastor_operator.Go.Map.{Entries}
use vitastor_operator.Types.{
  Kind, Meta, NamespacedName, VitastorCluster, VitastorNode, VitastorOsd, VitastorPool, Deployment,
  DaemonSet, StatefulSet, StorageClass, Pod, KubeNode, ListOptions,
}
use vitastor_operator.Flow.{Error, Result}

-- vitastor.conf
pub record VitastorConfig : Type 0 where
  pub vitastor_etcd_urls : List String
  pub vitastor_prefix : String

-- The agent's answers.
pub record SystemPartition : Type 0 where
  pub name : String
  pub fs_type : String
  pub part_uuid : String

pub record SystemDisk : Type 0 where
  pub name : String
  pub disk_type : String
  pub children : List SystemPartition

pub record OsdPartition : Type 0 where
  pub data_device : String
  pub osd_number : ℤ
  pub immediate_commit : String

-- The values of the maps that the operator keeps in etcd.
pub record VitastorNodePlacement : Type 0 where
  pub level : String
  pub parent : String

pub record VitastorPoolConfig : Type 0 where
  pub name : String
  pub scheme : String
  pub pg_size : ℤ
  pub parity_chunks : ℤ
  pub pg_min_size : ℤ
  pub pg_count : ℤ
  pub failure_domain : String
  pub max_osd_combinations : ℤ
  pub block_size : ℤ
  pub immediate_commit : String
  pub osd_tags : String

-- An open file and a response are known by their number, until they are read. `http_get` does not
-- look at the status code.
pub record Host (W : Type 0) : Type 0 where
  pub lookup_env : String → Option String
  pub open_file : String → W → Result String × W
  pub http_get : String → W → Result ℕ × W
  pub read_all : ℕ → W → Result String × W

pub record EtcdResponse : Type 0 where
  pub count : ℕ
  pub kvs : List String

-- `Kvs[0].Value`
abbrev pub first_value : EtcdResponse → Option String
first_value r = elim r.kvs [ [] ↦ none | v ∷ vs ↦ some v ]

pub record Etcd (W : Type 0) : Type 0 where
  pub dial : List String → W → Result (Unit {0}) × W
  pub get : String → W → Result EtcdResponse × W
  pub put : String → String → W → Result (Unit {0}) × W

-- The client.Client of a reconciler. A write returns the object as the server answers it, which
-- the client stores where the object that was sent stood.
pub record Kube (W : Type 0) : Type 0 where
  pub get_cluster : NamespacedName → W → Result VitastorCluster × W
  pub get_node : NamespacedName → W → Result VitastorNode × W
  pub get_osd : NamespacedName → W → Result VitastorOsd × W
  pub get_pool : NamespacedName → W → Result VitastorPool × W
  pub get_kube_node : NamespacedName → W → Result KubeNode × W
  pub get_deployment : NamespacedName → W → Result Deployment × W
  pub get_daemon_set : NamespacedName → W → Result DaemonSet × W
  pub get_stateful_set : NamespacedName → W → Result StatefulSet × W
  pub get_storage_class : NamespacedName → W → Result StorageClass × W
  pub list_pods : ListOptions → W → Result (List Pod) × W
  pub list_osds : ListOptions → W → Result (List VitastorOsd) × W
  pub create_deployment : Deployment → W → Result Deployment × W
  pub create_daemon_set : DaemonSet → W → Result DaemonSet × W
  pub create_stateful_set : StatefulSet → W → Result StatefulSet × W
  pub create_storage_class : StorageClass → W → Result StorageClass × W
  pub create_node : VitastorNode → W → Result VitastorNode × W
  pub create_osd : VitastorOsd → W → Result VitastorOsd × W
  pub update_deployment : Deployment → W → Result Deployment × W
  pub update_daemon_set : DaemonSet → W → Result DaemonSet × W
  pub update_stateful_set : StatefulSet → W → Result StatefulSet × W
  pub update_osd : VitastorOsd → W → Result VitastorOsd × W
  pub update_node_status : VitastorNode → W → Result VitastorNode × W
  pub delete_osd : VitastorOsd → W → Result (Unit {0}) × W

-- encoding/json. Where the code does not look at the error, the decoder returns what it leaves in
-- the variable; a map is decoded into a nil map, which the text `null` leaves nil.
pub record Codec : Type 0 where
  pub decode_config : String → VitastorConfig
  pub decode_disks : String → List SystemDisk
  pub decode_osds : String → List OsdPartition
  pub decode_placements : String → Result (Option (Entries VitastorNodePlacement))
  pub encode_placements : Entries VitastorNodePlacement → Result String
  pub decode_pools : String → Result (Option (Entries VitastorPoolConfig))
  pub encode_pools : Entries VitastorPoolConfig → Result String
  pub encode_levels : Entries ℤ → Result String

-- The outcome of controllerutil.SetControllerReference: the controlled object's new metadata, an
-- error, or a panic. A nil object is `none`.
pub data Reference : Type 0 where
  referred : Meta → Reference
  refused : Error → Reference
  crashed : Reference

-- controllerutil.SetControllerReference, and cmp.Equal with cmpopts.SortSlices, which tells a nil
-- slice, `none`, from an empty one.
pub record Library : Type 0 where
  pub set_controller_reference : Kind → Meta → Option Meta → Reference
  pub equal_sorted : Option (List String) → Option (List String) → Bool

pub record Api (W : Type 0) : Type 0 where
  pub host : Host W
  pub etcd : Etcd W
  pub kube : Kube W
  pub codec : Codec
  pub library : Library
