-- ===== src/Types/Crd.antt =====
-- api/v1: the specifications and states of the operator's four kinds.
use vitastor_operator.Prelude.{String, List, Option}
use vitastor_operator.Prelude.Int.{ℤ}
use vitastor_operator.Types.Metadata.{Meta}

pub record VitastorClusterSpec : Type 0 where
  pub monitor_replica_num : ℤ
  pub vitastor_node_label : String
  pub disks_reconcilig_period : ℤ
  pub agent_image : String
  pub monitor_image : String
  pub osd_image : String

pub record VitastorCluster : Type 0 where
  pub meta : Meta
  pub spec : VitastorClusterSpec

pub record VitastorNodeSpec : Type 0 where
  pub node_name : String
  pub osd_image : String

-- A nil list is `none`.
pub record VitastorNodeStatus : Type 0 where
  pub disks : Option (List String)
  pub empty_disks : Option (List String)
  pub vitastor_disks : Option (List String)

pub record VitastorNode : Type 0 where
  pub meta : Meta
  pub spec : VitastorNodeSpec
  pub status : VitastorNodeStatus

pub record VitastorOsdSpec : Type 0 where
  pub node_name : String
  pub osd_path : String
  pub osd_number : ℤ
  pub osd_image : String
  pub osd_tags : String

pub record VitastorOsd : Type 0 where
  pub meta : Meta
  pub spec : VitastorOsdSpec

pub record VitastorPoolSpec : Type 0 where
  pub id : String
  pub scheme : String
  pub pg_size : ℤ
  pub parity_chunks : ℤ
  pub pg_min_size : ℤ
  pub pg_count : ℤ
  pub failure_domain : String
  pub max_osd_combinations : ℤ
  pub block_size : ℤ
  pub immediate_commit : String
  pub osd_tags : String

pub record VitastorPool : Type 0 where
  pub meta : Meta
  pub spec : VitastorPoolSpec
