-- ===== src/Cluster/Templates.antt =====
-- The objects that the cluster's reconciler creates (controllers/vitastorcluster_controller.go):
-- `getMonitorConfiguration`, `getAgentConfiguration` and `getVitastorNodeConfiguration`, whose
-- error is always nil.
use vitastor_operator.Prelude.{String, true, [], ◌∷◌, none, some}
use vitastor_operator.Prelude.Int.{pos, int32}
use vitastor_operator.Go.Map.{Entries}
use vitastor_operator.Types.{Meta, VitastorCluster, VitastorNode, Deployment, DaemonSet}
use vitastor_operator.Types.Volumes.{config_mount, config_volume, host_mounts, host_volumes}
use vitastor_operator.Flow.{Result, ok}
use vitastor_operator.Api.{Api}
use vitastor_operator.Config.{namespace}

abbrev monitor_labels : Entries String
monitor_labels = ("app", "vitastor-monitor") ∷ []

abbrev agent_labels : Entries String
agent_labels = ("app", "vitastor-agent") ∷ []

abbrev pub node_meta : String → Meta
node_meta node_name = record { namespace = ""; name = node_name; owners = [] }

unfoldable pub get_vitastor_node_configuration : String → String → Result VitastorNode
get_vitastor_node_configuration node_name image = ok (record {
  meta = node_meta node_name;
  spec = record { node_name = node_name; osd_image = image };
  status = record { disks = none; empty_disks = none; vitastor_disks = none };
})

module _ {W : Type 0} (api : Api W) where
  unfoldable pub monitor_deployment : VitastorCluster → Deployment
  monitor_deployment cluster = record {
    meta = record { namespace = namespace api; name = "vitastor-monitor"; owners = [] };
    replicas = some (int32 cluster.spec.monitor_replica_num);
    match_labels = monitor_labels;
    template = record {
      labels = monitor_labels;
      spec = record {
        node_name = "";
        node_selector = [];
        containers =
            record {
              name = "vitastor-monitor";
              image = cluster.spec.monitor_image;
              command = [];
              args = [];
              limits = ("cpu", "1000m") ∷ ("memory", "1024Mi") ∷ [];
              volume_mounts = config_mount ∷ [];
              privileged = none;
              ports = [];
            }
            ∷ [];
        priority_class_name = "";
        volumes = config_volume ∷ [];
      };
    };
    rolling_update = some (record { max_unavailable = pos 1; max_surge = pos 1 });
  }

  abbrev pub get_monitor_configuration : VitastorCluster → Result Deployment
  get_monitor_configuration cluster = ok (monitor_deployment cluster)

  unfoldable pub agent_daemon_set : VitastorCluster → DaemonSet
  agent_daemon_set cluster = record {
    meta = record { namespace = namespace api; name = "vitastor-agent"; owners = [] };
    match_labels = agent_labels;
    template = record {
      labels = agent_labels;
      spec = record {
        node_name = "";
        node_selector = (cluster.spec.vitastor_node_label, "true") ∷ [];
        containers =
            record {
              name = "vitastor-agent";
              image = cluster.spec.agent_image;
              command = [];
              args = [];
              limits = ("cpu", "1000m") ∷ ("memory", "1024Mi") ∷ [];
              volume_mounts = host_mounts;
              privileged = some true;
              ports = pos 8000 ∷ [];
            }
            ∷ [];
        priority_class_name = "";
        volumes = host_volumes;
      };
    };
  }

  abbrev pub get_agent_configuration : VitastorCluster → Result DaemonSet
  get_agent_configuration cluster = ok (agent_daemon_set cluster)
