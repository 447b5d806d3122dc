-- ===== src/Cluster.antt =====
-- VitastorClusterReconciler.Reconcile (controllers/vitastorcluster_controller.go), one function for
-- each block of it.
pub mod Templates
pub mod Monitor
pub mod Nodes
pub mod Agent
pub mod Blocks
pub mod Held
pub mod Runs
pub mod Quiet
pub mod Settles
pub mod UpToDate
pub mod Calls
pub mod Safety
use vitastor_operator.Prelude.{◌*◌, String, ◌<>◌, [], ◌∷◌, none, some, ◌==◌, if◌then◌else◌}
use vitastor_operator.Prelude.Int.{ℤ, pos, int32, int_eq}
use vitastor_operator.Go.Map.{Entries}
use vitastor_operator.Types.{
  Kind, NamespacedName, VitastorCluster, VitastorNode, Deployment, DaemonSet, Pod, ListOptions,
}
use vitastor_operator.Types.Images.{image_of, with_image}
use vitastor_operator.Flow.{
  minute, Result, ok, err, not_found, failed, Action, no_requeue, requeue_now, pure, return, ◌>>=◌,
  ◌>>◌, or_fail, or_skip, or_crash, for_each,
}
use vitastor_operator.Api.{Api, VitastorConfig}
use vitastor_operator.Api.Calls.{
  ask, put, create_deployment, create_daemon_set, create_node, update_deployment, update_daemon_set,
  set_owner,
}
use vitastor_operator.Config.{namespace, with_etcd}
use Templates.{get_vitastor_node_configuration, get_monitor_configuration, get_agent_configuration}

abbrev pub placement_levels : Entries ℤ
placement_levels = ("dc", pos 99) ∷ ("host", pos 100) ∷ ("osd", pos 101) ∷ []

module _ {W : Type 0} (api : Api W) where
  unfoldable pub put_placement_levels : VitastorConfig → Action W (Unit {0})
  put_placement_levels config = do
    encoded ← or_fail (api.codec.encode_levels placement_levels)
    answer ← put api (config.vitastor_prefix <> "/config/placement_levels") encoded
    or_fail answer

  -- The monitor's deployment is missing: create it, and return.
  unfoldable pub create_monitor : VitastorCluster → Action W (Unit {0})
  create_monitor cluster = do
    depl ← or_fail (get_monitor_configuration api cluster)
    meta ← set_owner api Kind.vitastor_cluster cluster.meta (some depl.meta)
    answer ← create_deployment api (record depl { meta = meta })
    _ ← or_fail answer
    return requeue_now none

  unfoldable pub sync_monitor_image : VitastorCluster → Deployment → Action W Deployment
  sync_monitor_image cluster depl = do
    image ← or_crash (image_of depl.template)
    if image == cluster.spec.monitor_image then pure depl else do
      answer ←
          update_deployment api
            (record depl { template = with_image cluster.spec.monitor_image depl.template })
      or_fail answer

  unfoldable pub sync_monitor_replicas : VitastorCluster → Deployment → Action W (Unit {0})
  sync_monitor_replicas cluster depl = do
    replicas ← or_crash depl.replicas
    if int_eq replicas (int32 cluster.spec.monitor_replica_num) then pure tt else do
      answer ←
          update_deployment api
            (record depl { replicas = some (int32 cluster.spec.monitor_replica_num) })
      _ ← or_fail answer
      pure tt

  unfoldable pub check_monitor : VitastorCluster → Result Deployment → Action W (Unit {0})
  check_monitor cluster (err not_found) = create_monitor cluster
  check_monitor cluster (err (failed m)) = return no_requeue (some (failed m))
  check_monitor cluster (ok depl) = do
    depl' ← sync_monitor_image cluster depl
    sync_monitor_replicas cluster depl'

  -- The agents' daemon set is missing: create it, and come back in five minutes.
  unfoldable pub create_agent : VitastorCluster → Action W (Unit {0})
  create_agent cluster = do
    ds ← or_fail (get_agent_configuration api cluster)
    meta ← set_owner api Kind.vitastor_cluster cluster.meta (some ds.meta)
    answer ← create_daemon_set api (record ds { meta = meta })
    _ ← or_fail answer
    return (record no_requeue { requeue_after = pos (5 * minute) }) none

  unfoldable pub sync_agent_image : VitastorCluster → DaemonSet → Action W (Unit {0})
  sync_agent_image cluster ds = do
    image ← or_crash (image_of ds.template)
    if image == cluster.spec.agent_image then pure tt else do
      answer ←
          update_daemon_set api
            (record ds { template = with_image cluster.spec.agent_image ds.template })
      _ ← or_fail answer
      pure tt

  unfoldable pub check_agent : VitastorCluster → Result DaemonSet → Action W (Unit {0})
  check_agent cluster (err not_found) = create_agent cluster
  check_agent cluster (err (failed m)) = return no_requeue (some (failed m))
  check_agent cluster (ok ds) = sync_agent_image cluster ds

  -- An error other than "not found" is passed over.
  unfoldable pub check_node : VitastorCluster → Pod → Result VitastorNode → Action W (Unit {0})
  check_node cluster agent (ok node) = pure tt
  check_node cluster agent (err (failed m)) = pure tt
  check_node cluster agent (err not_found) = do
    node ← or_fail (get_vitastor_node_configuration agent.node_name cluster.spec.osd_image)
    meta ← set_owner api Kind.vitastor_cluster cluster.meta (some node.meta)
    answer ← create_node api (record node { meta = meta })
    _ ← or_fail answer
    pure tt

  -- The body of the loop over the agents.
  unfoldable pub ensure_node : VitastorCluster → Pod → Action W (Unit {0})
  unfolding check_node
  ensure_node cluster agent = do
    found ← ask (api.kube.get_node (record { namespace = ""; name = agent.node_name }))
    check_node cluster agent found

  abbrev pub agent_options : ListOptions
  agent_options = record {
    namespace = namespace api;
    labels = ("app", "vitastor-agent") ∷ [];
    fields = [];
  }

  unfoldable pub ensure_nodes : VitastorCluster → Action W (Unit {0})
  ensure_nodes cluster = do
    listed ← ask (api.kube.list_pods agent_options)
    agents ← or_skip listed
    for_each agents (ensure_node cluster)

  -- From the monitor's deployment on.
  unfoldable pub reconcile_cluster : VitastorCluster → Action W (Unit {0})
  reconcile_cluster cluster = do
    monitor ←
        ask (
          api.kube.get_deployment (record { namespace = namespace api; name = "vitastor-monitor" }))
    check_monitor cluster monitor
    agent ←
        ask
          (api.kube.get_daemon_set (record { namespace = namespace api; name = "vitastor-agent" }))
    check_agent cluster agent
    ensure_nodes cluster

  -- The request's name is that of the cluster object, which has no namespace.
  unfoldable pub reconcile_named : String → VitastorConfig → Action W (Unit {0})
  reconcile_named name config = do
    put_placement_levels config
    found ← ask (api.kube.get_cluster (record { namespace = ""; name = name }))
    cluster ← or_skip found
    reconcile_cluster cluster
    return no_requeue none

  unfoldable pub reconcile : String → Action W (Unit {0})
  reconcile name = with_etcd api (reconcile_named name)
