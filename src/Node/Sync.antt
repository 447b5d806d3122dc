-- ===== src/Node/Sync.antt =====
-- What a run of the node's reconciler does to the node's status and its OSD objects, as a function of
-- them.
pub mod Added
pub mod Store
pub mod Stages
pub mod Observed
pub mod Runs
pub mod UpToDate
pub mod Upkeep
pub mod Quiet
pub mod Settles
pub mod Deployed
use vitastor_operator.Prelude.{String, List, [], ◌∷◌, ◌++◌, if◌then◌else◌}
use vitastor_operator.Types.{Meta, VitastorNode, VitastorNodeStatus, VitastorOsd}
use vitastor_operator.Api.{Api, SystemDisk, OsdPartition}
use vitastor_operator.Node.Agent.{appended}
use vitastor_operator.Node.Agent.Status.{status_of}
use vitastor_operator.Node.Osds.{get_configuration}
use vitastor_operator.Node.Osds.Swept.{swept}
use vitastor_operator.Node.Placement.{contains_osd}

-- The node's status, and its OSD objects.
pub record Held : Type 0 where
  pub status : VitastorNodeStatus
  pub osds : List VitastorOsd

-- The objects in front of `items` after the first loop: one more for each OSD that no item describes.
module _ (own : OsdPartition → VitastorOsd) (items : List VitastorOsd) where
  unfoldable pub add : List OsdPartition → List VitastorOsd → List VitastorOsd
  add [] pre = pre
  add (osd ∷ osds) pre =
      add osds (if contains_osd items osd.data_device then pre else own osd ∷ pre)

-- The object that an OSD gets.
abbrev pub own_osd : (Meta → Meta) → VitastorNode → OsdPartition → VitastorOsd
own_osd owned node osd = record (get_configuration osd.data_device osd.osd_number node) {
  meta = owned (get_configuration osd.data_device osd.osd_number node).meta;
}

abbrev pub paths_of : List OsdPartition → List String
paths_of osds = appended (λ (o : OsdPartition). o.data_device) osds

module _ {W : Type 0} (api : Api W) (owned : Meta → Meta) (node : VitastorNode)
    (disks empty_disks : List SystemDisk) (osds : List OsdPartition) where
  -- The agent's disks are noted; each OSD that has no object gets one; of the objects that there were,
  -- those that the agent does not list go up to the first one with another image, which gets the
  -- node's.
  unfoldable pub sync : Held → Held
  sync h = record {
    status = status_of api disks empty_disks osds h.status;
    osds = add (own_osd owned node) h.osds osds [] ++ swept node (paths_of osds) h.osds;
  }
