-- ===== src/Cluster/Blocks.antt =====
-- What each block of the cluster's reconciler does to the objects that the server holds.
use vitastor_operator.Prelude.{
  ◌*◌, String, ◌≡◌, refl, ◌≢◌, true, ap, List, [], ◌∷◌, none, some, arith, eq_iff, Bool-cases, inl,
  inr,
}
use vitastor_operator.Prelude.Int.{ℤ, pos, int32, int_eq_sound}
use vitastor_operator.Types.{
  NamespacedName, VitastorCluster, VitastorNode, Deployment, DaemonSet, Pod,
}
use vitastor_operator.Types.Images.{image_of, with_image, with_image_same}
use vitastor_operator.Flow.{
  ok, err, not_found, next, exit, no_requeue, requeue_now, minute, pure, ◌>>=◌, for_each,
}
use vitastor_operator.Api.{Api}
use vitastor_operator.Api.Laws.{cluster_scoped, key_of}
use vitastor_operator.Api.Calls.{set_owner}
use vitastor_operator.Cluster.{
  agent_options, create_monitor, sync_monitor_image, sync_monitor_replicas, check_monitor,
  create_agent, sync_agent_image, check_agent, check_node, ensure_node, ensure_nodes,
}
use vitastor_operator.Cluster.Templates.{
  monitor_deployment, agent_daemon_set, get_vitastor_node_configuration, node_meta,
}
use vitastor_operator.Cluster.Monitor.{desired}
use vitastor_operator.Cluster.Held.{
  ClusterStore, has, monitor_key, agent_key, current, add, add_all, own_monitor, own_agent,
}

module _ {W : Type 0} (api : Api W) (cluster : VitastorCluster)
    (store : ClusterStore api cluster) where
  abbrev imaged : Deployment → Deployment
  imaged d = record d { template = with_image cluster.spec.monitor_image d.template }

  image_synced :
      (d : Deployment) (image : String) (w : W)
      → image_of d.template ≡ some image
      → (store.held w).monitor ≡ some d
      → ((sync_monitor_image api cluster d w).flow ≡ next (imaged d))
        × (store.held (sync_monitor_image api cluster d w).world
            ≡ record (store.held w) { monitor = some (imaged d) })
  unfolding sync_monitor_image ◌>>=◌
  image_synced d image w i h = ground (
    arith,
    with_image_same d.template image,
    eq_iff image cluster.spec.monitor_image,
    store.update_monitor_ok (imaged d) d w h refl,
    store.updates_monitor (imaged d) d w h refl,
  )

  replicas_synced :
      (d : Deployment) (n : ℤ) (w : W)
      → d.replicas ≡ some n
      → (store.held w).monitor ≡ some d
      → ((sync_monitor_replicas api cluster d w).flow ≡ next tt)
        × (store.held (sync_monitor_replicas api cluster d w).world ≡ record (store.held w) {
          monitor = some (record d { replicas = some (int32 cluster.spec.monitor_replica_num) });
        })
  unfolding sync_monitor_replicas ◌>>=◌
  replicas_synced d n w r h = ground (
    arith,
    int_eq_sound n (int32 cluster.spec.monitor_replica_num),
    store.update_monitor_ok (record d { replicas = some (int32 cluster.spec.monitor_replica_num) })
        d w h refl,
    store.updates_monitor (record d { replicas = some (int32 cluster.spec.monitor_replica_num) }) d
        w h refl,
  )

  pub monitor_synced :
      (d : Deployment) (image : String) (n : ℤ) (w : W)
      → image_of d.template ≡ some image
      → d.replicas ≡ some n
      → (store.held w).monitor ≡ some d
      → ((check_monitor api cluster (ok d) w).flow ≡ next tt)
        × (store.held (check_monitor api cluster (ok d) w).world
            ≡ record (store.held w) { monitor = some (desired cluster d) })
  unfolding check_monitor ◌>>=◌
  monitor_synced d image n w i r h =
      let v = (sync_monitor_image api cluster d w).world in
      let (f, e) = image_synced d image w i h in
      let (f', e') = replicas_synced (imaged d) n v r (rw e refl) in ground (arith, f, e, f', e')

  pub monitor_created :
      (w : W)
      → (store.held w).monitor ≡ none
      → ((check_monitor api cluster (err not_found) w).flow
          ≡ exit (record { result = requeue_now; error = none }))
        × (store.held (check_monitor api cluster (err not_found) w).world
            ≡ record (store.held w) { monitor = some (own_monitor api cluster store.owned) })
  unfolding check_monitor create_monitor set_owner monitor_deployment ◌>>=◌
  monitor_created w h =
      let d = own_monitor api cluster store.owned in
      let key : key_of d.meta ≡ monitor_key api =
        store.keeps_key (monitor_deployment api cluster).meta in
      ground (
        arith,
        store.sets_owner (monitor_deployment api cluster).meta,
        store.create_monitor_ok d w key h,
        store.creates_monitor d w key h,
      )

  pub agent_created :
      (w : W)
      → (store.held w).agent ≡ none
      → ((check_agent api cluster (err not_found) w).flow
          ≡ exit (record {
            result = record no_requeue { requeue_after = pos (5 * minute) };
            error = none;
          }))
        × (store.held (check_agent api cluster (err not_found) w).world
            ≡ record (store.held w) { agent = some (own_agent api cluster store.owned) })
  unfolding check_agent create_agent set_owner agent_daemon_set ◌>>=◌
  agent_created w h =
      let d = own_agent api cluster store.owned in
      let key : key_of d.meta ≡ agent_key api =
        store.keeps_key (agent_daemon_set api cluster).meta in
      ground (
        arith,
        store.sets_owner (agent_daemon_set api cluster).meta,
        store.create_agent_ok d w key h,
        store.creates_agent d w key h,
      )

  pub agent_synced :
      (ds : DaemonSet) (image : String) (w : W)
      → image_of ds.template ≡ some image
      → (store.held w).agent ≡ some ds
      → ((check_agent api cluster (ok ds) w).flow ≡ next tt)
        × (store.held (check_agent api cluster (ok ds) w).world
            ≡ record (store.held w) { agent = some (current cluster ds) })
  unfolding check_agent sync_agent_image ◌>>=◌
  agent_synced ds image w i h = ground (
    arith,
    with_image_same ds.template image,
    eq_iff image cluster.spec.agent_image,
    store.update_agent_ok (current cluster ds) ds w h refl,
    store.updates_agent (current cluster ds) ds w h refl,
  )

  abbrev new_node : Pod → VitastorNode
  new_node agent = record {
    meta = store.owned (node_meta agent.node_name);
    spec = record { node_name = agent.node_name; osd_image = cluster.spec.osd_image };
    status = record { disks = none; empty_disks = none; vitastor_disks = none };
  }

  node_added :
      (agent : Pod) (w : W)
      → ((ensure_node api cluster agent w).flow ≡ next tt)
        × (store.held (ensure_node api cluster agent w).world
            ≡ record (store.held w) { nodes = add agent (store.held w).nodes })
  unfolding ensure_node check_node set_owner get_vitastor_node_configuration ◌>>=◌
  node_added agent w =
      let v = (api.kube.get_node (cluster_scoped agent.node_name) w).1 in
      elim (Bool-cases (has (store.held w).nodes agent.node_name)) [
        | inl e ↦
            ground
              (arith, store.gets_known agent.node_name w, store.get_node_keeps agent.node_name w)
        | inr e ↦
            let name : (new_node agent).meta.name ≡ agent.node_name =
              ap (λ (q : NamespacedName). q.name) (store.keeps_key (node_meta agent.node_name)) in
            let absent : has (store.held v).nodes (new_node agent).meta.name ≢ true =
              rw (store.get_node_keeps agent.node_name w, name) (λ p. ground (arith, e)) in
            ground (
              arith,
              store.gets_unknown agent.node_name w,
              store.get_node_keeps agent.node_name w,
              store.sets_owner (node_meta agent.node_name),
              name,
              store.create_node_ok (new_node agent) v absent,
              store.creates_node (new_node agent) v absent,
            )
      ]

  nodes_added :
      (agents : List Pod) (w : W)
      → ((for_each agents (ensure_node api cluster) w).flow ≡ next tt)
        × (store.held (for_each agents (ensure_node api cluster) w).world
            ≡ record (store.held w) { nodes = add_all agents (store.held w).nodes })
  unfolding for_each add_all pure ◌>>=◌
  nodes_added [] w = (refl, refl)
  nodes_added (agent ∷ agents) w =
      let (f, e) = node_added agent w in
      let (f', e') = nodes_added agents (ensure_node api cluster agent w).world in
      ground (arith, f, e, f', e')

  pub nodes_ensured :
      (w : W)
      → ((ensure_nodes api cluster w).flow ≡ next tt)
        × (store.held (ensure_nodes api cluster w).world
            ≡ record (store.held w) { nodes = add_all store.agents (store.held w).nodes })
  unfolding ensure_nodes ◌>>=◌
  nodes_ensured w = ground (
    arith,
    store.lists w,
    store.list_keeps w,
    nodes_added store.agents (api.kube.list_pods (agent_options api) w).1,
  )
