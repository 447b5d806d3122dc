-- ===== src/Node/Observed.antt =====
-- When the node's status is written, and what it holds then.
use vitastor_operator.Prelude.{String, ◌<>◌, List, [], ◌∷◌, if◌then◌else◌}
use vitastor_operator.Types.{VitastorNode, Pod}
use vitastor_operator.Types.Object.{vitastor_node}
use vitastor_operator.Flow.{Event, status_updated}
use vitastor_operator.Api.{Api}
use vitastor_operator.Node.Agent.Status.{up_to_date, status_of}

module _ {W : Type 0} (api : Api W) where
  abbrev pub url : Pod → String
  url agent = "http://" <> agent.pod_ip <> ":8000/disk"

  -- The write of the status that follows the three answers.
  abbrev pub written : VitastorNode → String → String → String → List Event
  written node disks empty_disks osds =
      if up_to_date api (api.codec.decode_disks disks) (api.codec.decode_disks empty_disks)
        (api.codec.decode_osds osds) node.status
      then []
      else status_updated (
          vitastor_node (record node {
            status =
                status_of api (api.codec.decode_disks disks) (api.codec.decode_disks empty_disks)
                  (api.codec.decode_osds osds) node.status;
          }))
        ∷ []
