-- ===== src/Node.antt =====
-- VitastorNodeReconciler.Reconcile (controllers/vitastornode_controller.go): the parts of its
-- children, in the order of the code.
pub mod Placement
pub mod Agent
pub mod Osds
pub mod Calls
pub mod Safety
pub mod Written
pub mod Sync
pub mod Observed
pub mod Overtaken
use vitastor_operator.Prelude.{
  String, ◌<>◌, false, List, [], ◌∷◌, Option, none, some, nat_eq, if◌then◌else◌,
}
use vitastor_operator.Prelude.Int.{ℤ, scale, int64}
use vitastor_operator.Go.Map.{Entries}
use vitastor_operator.Types.{VitastorNode, KubeNode, VitastorOsd, Pod, ListOptions}
use vitastor_operator.Flow.{
  minute, CtrlResult, Action, no_requeue, pure, return, ◌>>=◌, ◌>>◌, or_fail, or_skip, or_crash,
  for_each,
}
use vitastor_operator.Api.{
  Api, VitastorConfig, VitastorNodePlacement, OsdPartition, EtcdResponse, first_value,
}
use vitastor_operator.Api.Calls.{ask, put}
use vitastor_operator.Config.{env_or, namespace, parse_int, with_etcd}
use Placement.{place_node}
use Agent.{Seen, appended, fetch, see_disks, see_empty_disks, see_osds, write_status}
use Osds.{ensure_osd, prune_osd}

-- `ctrl.Result{RequeueAfter: time.Duration(minutes) * time.Minute}`
abbrev pub requeue_in : ℤ → CtrlResult
requeue_in minutes = record no_requeue { requeue_after = int64 (scale minutes minute) }

abbrev pub osd_options : VitastorNode → ListOptions
osd_options node = record {
  namespace = "";
  labels = [];
  fields = (".spec.nodeName", node.meta.name) ∷ [];
}

module _ {W : Type 0} (api : Api W) where
  abbrev pub agent_options : VitastorNode → ListOptions
  agent_options node = record {
    namespace = namespace api;
    labels = ("app", "vitastor-agent") ∷ [];
    fields = (".spec.node", node.meta.name) ∷ [];
  }

  unfoldable pub decode_placements :
      EtcdResponse → Action W (Option (Entries VitastorNodePlacement))
  decode_placements raw =
      if nat_eq raw.count 0
      then pure (some [])
      else do value ← or_crash (first_value raw); or_fail (api.codec.decode_placements value)

  -- The node's own entry; the write to a nil map, and a label with no slash, panic.
  unfoldable pub put_node_placement : String → VitastorNode → KubeNode → Action W (Unit {0})
  put_node_placement path node kube_node = do
    got ← ask (api.etcd.get path)
    raw ← or_fail got
    decoded ← decode_placements raw
    placements ← or_crash decoded
    placed ← or_crash (place_node node.meta.name kube_node.labels placements)
    encoded ← or_fail (api.codec.encode_placements placed)
    answer ← put api path encoded
    or_fail answer

  -- The first of the agents, or come back later.
  unfoldable pub first_agent : CtrlResult → List Pod → Action W Pod
  first_agent later [] = return later none
  first_agent later (agent ∷ agents) = pure agent

  -- The agent's disks and OSDs, noted in the node's status.
  unfoldable pub observe : VitastorNode → Pod → Action W (VitastorNode × List OsdPartition)
  observe node agent = do
    let url = "http://" <> agent.pod_ip <> ":8000/disk"
    disks ← fetch api url
    let s₁ = see_disks api (api.codec.decode_disks disks) (record { node = node; changed = false })
    empty_disks ← fetch api (url <> "/empty")
    let s₂ = see_empty_disks api (api.codec.decode_disks empty_disks) s₁
    found ← fetch api (url <> "/osd")
    let osds = api.codec.decode_osds found
    node' ← write_status api (see_osds api osds s₂)
    pure (node', osds)

  -- The two loops, over the OSDs that the agent found and over the objects of the node.
  unfoldable pub sync_osds :
      CtrlResult
      → String
      → VitastorNode
      → List OsdPartition
      → List VitastorOsd
      → Action W (Unit {0})
  unfolding appended
  sync_osds later path node osds items = do
    for_each osds (ensure_osd api path node items)
    for_each items (prune_osd api later node (appended (λ (o : OsdPartition). o.data_device) osds))

  -- From the list of agents on.
  unfoldable pub reconcile_node : CtrlResult → String → VitastorNode → Action W (Unit {0})
  reconcile_node later path node = do
    pods ← ask (api.kube.list_pods (agent_options node))
    agents ← or_skip pods
    agent ← first_agent later agents
    (node', osds) ← observe node agent
    listed ← ask (api.kube.list_osds (osd_options node'))
    items ← or_fail listed
    sync_osds later path node' osds items
    return later none

  unfoldable pub reconcile_named : String → VitastorConfig → Action W (Unit {0})
  reconcile_named name config = do
    interval ← or_fail (parse_int (env_or api "UPDATE_INTERVAL" "15"))
    found ← ask (api.kube.get_node (record { namespace = ""; name = name }))
    node ← or_skip found
    kube_found ← ask (api.kube.get_kube_node (record { namespace = ""; name = name }))
    kube_node ← or_skip kube_found
    let path = config.vitastor_prefix <> "/config/node_placement"
    put_node_placement path node kube_node
    reconcile_node (requeue_in interval) path node

  unfoldable pub reconcile : String → Action W (Unit {0})
  reconcile name = with_etcd api (reconcile_named name)
