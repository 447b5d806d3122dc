-- ===== src/Manager/Runs.antt =====
-- What the runs of the four reconcilers call, and that they close what they opened.
use vitastor_operator.Prelude.{String}
use vitastor_operator.Flow.Rules.{Emits}
use vitastor_operator.Api.{Api}
use vitastor_operator.Config.Rules.{Managed, IsReleased}
use vitastor_operator.Cluster
use vitastor_operator.Cluster.Calls.{ClusterCall, cluster_calls, cluster-IsReleased}
use vitastor_operator.Node
use vitastor_operator.Node.Calls.{NodeCall, node_calls, node-IsReleased}
use vitastor_operator.Osd
use vitastor_operator.Osd.Calls.{OsdCall, osd_calls}
use vitastor_operator.Pool
use vitastor_operator.Pool.Calls.{PoolCall, pool_calls, pool-IsReleased}

module _ {W : Type 0} (api : Api W) (name : String) where
  -- Whatever the world answers, a run makes no other calls than these, and those that open and close
  -- the configuration and the etcd client. The cluster's puts the placement levels, creates
  -- deployments, daemon sets and nodes, and updates deployments and daemon sets; the node's opens and
  -- closes the agent's answers, puts the placement map, creates, updates and deletes VitastorOSDs, and
  -- writes the status of VitastorNodes; the pool's puts the pools and creates storage classes; the
  -- OSD's creates and updates stateful sets, and opens nothing.
  pub runs_calls :
      Emits (Managed ClusterCall) (Cluster.reconcile api name)
      × Emits (Managed NodeCall) (Node.reconcile api name)
      × Emits (Managed PoolCall) (Pool.reconcile api name)
      × Emits OsdCall (Osd.reconcile api name)
  runs_calls =
      (cluster_calls api name, node_calls api name, pool_calls api name, osd_calls api name)

  -- However a run of the cluster's, the node's or the pool's reconciler ends, it has closed as many
  -- etcd clients and files as it opened.
  pub runs-IsReleased :
      (w : W)
      → IsReleased (Cluster.reconcile api name w).events
        × IsReleased (Node.reconcile api name w).events
        × IsReleased (Pool.reconcile api name w).events
  runs-IsReleased w =
      (cluster-IsReleased api name w, node-IsReleased api name w, pool-IsReleased api name w)
