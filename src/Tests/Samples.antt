-- ===== src/Tests/Samples.antt =====
-- Objects, worlds and a server for the tests.
use vitastor_operator.Prelude.{String, true, [], ◌∷◌, none, some}
use vitastor_operator.Prelude.Int.{ℤ, pos}
use vitastor_operator.Go.Map.{Entries}
use vitastor_operator.Types.{
  Meta, VitastorCluster, VitastorNode, VitastorOsd, VitastorPool, Deployment, StatefulSet,
  PodTemplate, Pod, KubeNode,
}
use vitastor_operator.Api.{Api, OsdPartition, VitastorNodePlacement}
use vitastor_operator.Api.Memory.{World, memory}

abbrev named : String → Meta
named name = record { namespace = ""; name = name; owners = [] }

abbrev pub cluster : VitastorCluster
cluster = record {
  meta = named "vitastor";
  spec = record {
    monitor_replica_num = pos 3;
    vitastor_node_label = "vitastor-node";
    disks_reconcilig_period = pos 60;
    agent_image = "agent:1";
    monitor_image = "monitor:2";
    osd_image = "osd:2";
  };
}

abbrev pub node : VitastorNode
node = record {
  meta = named "n1";
  spec = record { node_name = "n1"; osd_image = "osd:2" };
  status = record { disks = none; empty_disks = none; vitastor_disks = none };
}

abbrev pub osd_at : String → String → String → VitastorOsd
osd_at name path image = record {
  meta = named name;
  spec = record {
    node_name = "n1";
    osd_path = path;
    osd_number = pos 1;
    osd_image = image;
    osd_tags = "";
  };
}

-- Of the agent's one path, /dev/a: an object that describes no disk any more, one with an old
-- image, and one that a run does not come to.
abbrev pub gone : VitastorOsd
gone = osd_at "vitastor-osd-2" "/dev/b" "osd:2"

abbrev pub old : VitastorOsd
old = osd_at "vitastor-osd-1" "/dev/a" "osd:1"

abbrev pub fresh : VitastorOsd
fresh = osd_at "vitastor-osd-3" "/dev/a" "osd:2"

abbrev pub partition : String → ℤ → OsdPartition
partition path n = record { data_device = path; osd_number = n; immediate_commit = "all" }

abbrev pub labels : Entries String
labels = ("os", "linux") ∷ ("fd.vitastor.io/dc", "dc1") ∷ []

abbrev pub kube_node : KubeNode
kube_node = record { labels = labels }

abbrev pub at : String → String → VitastorNodePlacement
at level parent = record { level = level; parent = parent }

-- The placement map after a run on the node.
abbrev pub placements : Entries VitastorNodePlacement
placements = ("n1", at "host" "dc1") ∷ ("dc1", at "dc" "") ∷ []

abbrev pub pool : VitastorPool
pool = record {
  meta = named "replicated";
  spec = record {
    id = "1";
    scheme = "replicated";
    pg_size = pos 3;
    parity_chunks = pos 0;
    pg_min_size = pos 2;
    pg_count = pos 16;
    failure_domain = "host";
    max_osd_combinations = pos 100;
    block_size = pos 131072;
    immediate_commit = "all";
    osd_tags = "nvme";
  };
}

abbrev pub agent : Pod
agent = record { node_name = "n1"; pod_ip = "10.0.0.1" }

abbrev template : String → PodTemplate
template image = record {
  labels = [];
  spec = record {
    node_name = "";
    node_selector = [];
    containers =
        record {
          name = "c";
          image = image;
          command = [];
          args = [];
          limits = [];
          volume_mounts = [];
          privileged = some true;
          ports = [];
        }
        ∷ [];
    priority_class_name = "";
    volumes = [];
  };
}

abbrev pub monitor : String → ℤ → Deployment
monitor image replicas = record {
  meta = named "vitastor-monitor";
  replicas = some replicas;
  match_labels = [];
  template = template image;
  rolling_update = none;
}

abbrev pub set : String → StatefulSet
set image = record {
  meta = named "vitastor-osd-1";
  replicas = some (pos 1);
  match_labels = [];
  template = template image;
}

-- Nothing is stored.
abbrev pub empty : World
empty = record {
  data_of = [];
  cluster = none;
  nodes = [];
  osds = [];
  pool = none;
  kube_node = none;
  deployment = none;
  daemon_set = none;
  stateful_set = none;
  storage_class = none;
  pods = [];
}

-- The server whose codec knows no map.
abbrev pub server : Api World
server = memory [] [] []
