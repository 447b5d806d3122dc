-- ===== src/Cluster/Runs.antt =====
-- The cluster's reconciler does to the server's objects what `sync` tells.
use vitastor_operator.Prelude.{◌≡◌, arith, Option-cases, inl, inr}
use vitastor_operator.Types.{VitastorCluster}
use vitastor_operator.Types.Images.{image_of}
use vitastor_operator.Flow.{ok, ◌>>=◌, ◌>>◌, Action}
use vitastor_operator.Api.{Api}
use vitastor_operator.Api.Calls.{ask}
use vitastor_operator.Cluster.{check_monitor, check_agent, ensure_nodes, reconcile_cluster}
use vitastor_operator.Cluster.Held.{
  ClusterStore, Valid, ValidAgent, monitor_key, agent_key, sync_agent, sync,
}
use vitastor_operator.Cluster.Blocks.{
  monitor_synced, monitor_created, agent_synced, agent_created, nodes_ensured,
}

module _ {W : Type 0} (api : Api W) (cluster : VitastorCluster)
    (store : ClusterStore api cluster) where
  -- The run from the agents' daemon set on.
  abbrev from_agent : Action W (Unit {0})
  from_agent = do
    agent ← ask (api.kube.get_daemon_set (agent_key api))
    check_agent api cluster agent
    ensure_nodes api cluster

  agent_reconciled :
      (w : W)
      → ValidAgent (store.held w).agent
      → store.held (from_agent w).world
        ≡ sync_agent api cluster store.owned store.agents (store.held w).agent (store.held w)
  unfolding ◌>>=◌
  agent_reconciled w valid =
      let v = (api.kube.get_daemon_set (agent_key api) w).1 in
      elim (Option-cases (store.held w).agent) [
        | inl e ↦ ground (
          arith,
          store.gets_agent w,
          store.get_agent_keeps w,
          agent_created api cluster store v (rw (store.get_agent_keeps w) e),
        )
        | inr (ds, e) ↦ elim (Option-cases (image_of ds.template)) [
          | inl i ↦ absurd (ground arith)
          | inr (image, i) ↦
              let (f, h) =
                agent_synced api cluster store ds image v i (rw (store.get_agent_keeps w) e) in
              ground (
                arith,
                store.gets_agent w,
                store.get_agent_keeps w,
                f,
                h,
                nodes_ensured api cluster store (check_agent api cluster (ok ds) v).world,
              )
        ]
      ]

  -- A run of the reconciler, from the monitor's deployment on, does to the server's objects what
  -- `sync` tells: it creates a missing deployment and nothing else, else a missing daemon set, and else
  -- brings both up to date and gives each agent's node an object. The deployment that the server holds,
  -- if any, is to have a container and a number of replicas, and its daemon set a container; the server
  -- is to answer every get and list and to accept every creation of a missing object under its key and
  -- every update of one that it holds, setting the cluster as an owner is to be possible and to change
  -- no object's key, nobody else is to write to the server, and the same nodes are to run agents.
  pub cluster_reconciled :
      (w : W)
      → Valid (store.held w)
      → store.held (reconcile_cluster api cluster w).world
        ≡ sync api cluster store.owned store.agents (store.held w)
  unfolding reconcile_cluster sync ◌>>=◌
  cluster_reconciled w valid =
      let v = (api.kube.get_deployment (monitor_key api) w).1 in
      elim (Option-cases (store.held w).monitor) [
        | inl e ↦ ground (
          arith,
          store.gets_monitor w,
          store.get_monitor_keeps w,
          monitor_created api cluster store v (rw (store.get_monitor_keeps w) e),
        )
        | inr (d, e) ↦ elim (Option-cases (image_of d.template)) [
          | inl i ↦ absurd (ground arith)
          | inr (image, i) ↦ elim (Option-cases d.replicas) [
            | inl r ↦ absurd (ground arith)
            | inr (n, r) ↦
                let (f, h) =
                  monitor_synced api cluster store d image n v i r
                    (rw (store.get_monitor_keeps w) e) in
                ground (
                  arith,
                  store.gets_monitor w,
                  store.get_monitor_keeps w,
                  f,
                  h,
                  agent_reconciled (check_monitor api cluster (ok d) v).world,
                )
          ]
        ]
      ]
