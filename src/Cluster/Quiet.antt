-- ===== src/Cluster/Quiet.antt =====
-- A run of the cluster's reconciler that finds all up to date, from the monitor's deployment on.
use vitastor_operator.Prelude.{◌≡◌, refl, ◌∙◌, true, All, List, [], ◌∷◌, arith, eq_refl}
use vitastor_operator.Prelude.Int.{int32, int_eq_refl}
use vitastor_operator.Types.{VitastorCluster, Deployment, DaemonSet, Pod}
use vitastor_operator.Flow.{ok, next, pure, ◌>>=◌, for_each}
use vitastor_operator.Api.{Api}
use vitastor_operator.Cluster.{
  agent_options, sync_monitor_image, sync_monitor_replicas, check_monitor, sync_agent_image,
  check_agent, check_node, ensure_node, ensure_nodes, reconcile_cluster,
}
use vitastor_operator.Cluster.Held.{ClusterStore, monitor_key, agent_key, has}
use vitastor_operator.Cluster.UpToDate.{UpToDate, MonitorUpToDate, AgentUpToDate}

module _ {W : Type 0} (api : Api W) (cluster : VitastorCluster)
    (store : ClusterStore api cluster) where
  monitor_quiet :
      (d : Deployment) (w : W)
      → MonitorUpToDate cluster d
      → check_monitor api cluster (ok d) w ≡ record { flow = next tt; world = w; events = [] }
  unfolding check_monitor sync_monitor_image sync_monitor_replicas pure ◌>>=◌
  monitor_quiet d w u = ground (
    arith,
    eq_refl cluster.spec.monitor_image,
    int_eq_refl (int32 cluster.spec.monitor_replica_num),
  )

  agent_quiet :
      (ds : DaemonSet) (w : W)
      → AgentUpToDate cluster ds
      → check_agent api cluster (ok ds) w ≡ record { flow = next tt; world = w; events = [] }
  unfolding check_agent sync_agent_image pure ◌>>=◌
  agent_quiet ds w u = ground (arith, eq_refl cluster.spec.agent_image)

  node_quiet :
      (agent : Pod) (w : W)
      → has (store.held w).nodes agent.node_name ≡ true
      → ((ensure_node api cluster agent w).flow ≡ next tt)
        × (store.held (ensure_node api cluster agent w).world ≡ store.held w)
        × ((ensure_node api cluster agent w).events ≡ [])
  unfolding ensure_node check_node ◌>>=◌
  node_quiet agent w h =
      ground (arith, store.gets_known agent.node_name w, store.get_node_keeps agent.node_name w)

  nodes_quiet :
      (agents : List Pod) (w : W)
      → All (λ (agent : Pod). has (store.held w).nodes agent.node_name ≡ true) agents
      → ((for_each agents (ensure_node api cluster) w).flow ≡ next tt)
        × ((for_each agents (ensure_node api cluster) w).events ≡ [])
  unfolding for_each pure ◌>>=◌
  nodes_quiet [] w h = (refl, refl)
  nodes_quiet (agent ∷ agents) w h =
      let (f, e, q) = node_quiet agent w h.0 in
      ground (arith, f, q, nodes_quiet agents (ensure_node api cluster agent w).world (rw e h.1))

  -- A run that finds all up to date goes on to its end and writes nothing.
  pub cluster_quiet :
      (w : W)
      → UpToDate cluster store.agents (store.held w)
      → ((reconcile_cluster api cluster w).flow ≡ next tt)
        × ((reconcile_cluster api cluster w).events ≡ [])
  unfolding reconcile_cluster ensure_nodes ◌>>=◌
  cluster_quiet w ((d, e, u), (ds, f, u'), known) =
      let v₁ = (api.kube.get_deployment (monitor_key api) w).1 in
      let v₂ = (api.kube.get_daemon_set (agent_key api) v₁).1 in
      let v₃ = (api.kube.list_pods (agent_options api) v₂).1 in
      let kept : store.held v₃ ≡ store.held w =
        store.list_keeps v₂ ∙ store.get_agent_keeps v₁ ∙ store.get_monitor_keeps w in
      ground (
        arith,
        store.gets_monitor w,
        store.get_monitor_keeps w,
        monitor_quiet d v₁ u,
        store.gets_agent v₁,
        agent_quiet ds v₂ u',
        store.lists v₂,
        nodes_quiet store.agents v₃ (rw kept known),
      )
