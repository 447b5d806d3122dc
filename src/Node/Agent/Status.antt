-- ===== src/Node/Agent/Status.antt =====
-- The node's status: what it notes, and when it is written.
use vitastor_operator.Prelude.{
  String, Option, some, ◌≡◌, false, Bool, ◌&&◌, List, [], ◌∷◌, arith, if◌then◌else◌,
}
use vitastor_operator.Types.{VitastorNode, VitastorNodeStatus}
use vitastor_operator.Types.Object.{vitastor_node}
use vitastor_operator.Flow.{status_updated, ◌>>=◌}
use vitastor_operator.Api.{Api, SystemDisk, OsdPartition}
use vitastor_operator.Node.Agent.{
  Seen, appended, compare_arrays, see_disks, see_empty_disks, see_osds, write_status,
}

module _ {W : Type 0} (api : Api W) where
  -- The list that is noted after `paths` were seen.
  abbrev pub noted : List String → Option (List String) → Option (List String)
  noted paths old = if compare_arrays api (some paths) old then old else some paths

  abbrev pub seen : List SystemDisk → List SystemDisk → List OsdPartition → VitastorNode → Seen
  seen disks empty_disks osds node = see_osds api osds (
      see_empty_disks api empty_disks
        (see_disks api disks (record { node = node; changed = false })))

  abbrev pub status_of :
      List SystemDisk
      → List SystemDisk
      → List OsdPartition
      → VitastorNodeStatus
      → VitastorNodeStatus
  status_of disks empty_disks osds status = record {
    disks = noted (appended (λ (d : SystemDisk). d.name) disks) status.disks;
    empty_disks = noted (appended (λ (d : SystemDisk). d.name) empty_disks) status.empty_disks;
    vitastor_disks =
        noted (appended (λ (o : OsdPartition). o.data_device) osds) status.vitastor_disks;
  }

  -- The three lists of the status are each compared with the agent's answer; they are all equal to
  -- it, as `compareArrays` tells.
  abbrev pub up_to_date :
      List SystemDisk → List SystemDisk → List OsdPartition → VitastorNodeStatus → Bool
  up_to_date disks empty_disks osds status =
      compare_arrays api (some (appended (λ (d : SystemDisk). d.name) disks)) status.disks
      && compare_arrays api (some (appended (λ (d : SystemDisk). d.name) empty_disks))
          status.empty_disks
      && compare_arrays api (some (appended (λ (o : OsdPartition). o.data_device) osds))
          status.vitastor_disks

  -- One write, of the lists that differ, unless all are up to date.
  pub status_call :
      (disks empty_disks : List SystemDisk) (osds : List OsdPartition) (node : VitastorNode) (w : W)
      → (write_status api (seen disks empty_disks osds node) w).events ≡ (
          if up_to_date disks empty_disks osds node.status
          then []
          else status_updated (
              vitastor_node (record node { status = status_of disks empty_disks osds node.status }))
            ∷ [])
  unfolding write_status see_disks see_empty_disks see_osds ◌>>=◌
  status_call disks empty_disks osds node w = ground arith
