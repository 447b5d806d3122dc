-- ===== src/Cluster/Safety.antt =====
-- Panics of the cluster's reconciler.
use vitastor_operator.Prelude.{String, ◌≢◌, arith}
use vitastor_operator.Types.{Kind, VitastorCluster, Deployment, DaemonSet, Pod, VitastorNode}
use vitastor_operator.Types.Images.{image_of, with_image}
use vitastor_operator.Flow.{WhenOk, Result, ok, err, not_found, failed, panic, ◌>>=◌, or_crash}
use vitastor_operator.Flow.Safety.{
  Ensures, Any, Ensures-return, Ensures-call, Ensures-bind, not_panic, ensures_rules,
}
use vitastor_operator.Api.{Api, VitastorConfig}
use vitastor_operator.Api.Calls.{set_owner}
use vitastor_operator.Api.Laws.{ServesWorkloads, IsServed, HasContainer}
use vitastor_operator.Config.Safety.{with_etcd-safe}
use vitastor_operator.Config.{with_etcd}
use vitastor_operator.Cluster.Templates.{
  node_meta, get_vitastor_node_configuration, monitor_deployment, agent_daemon_set,
}
use vitastor_operator.Cluster.{
  put_placement_levels, create_monitor, sync_monitor_image, sync_monitor_replicas, check_monitor,
  create_agent, sync_agent_image, check_agent, check_node, ensure_node, ensure_nodes,
  reconcile_cluster, reconcile_named, reconcile,
}

module _ {W : Type 0} (api : Api W) (serves : ServesWorkloads api) where
  put_placement_levels-safe :
      (config : VitastorConfig) → Ensures Any (put_placement_levels api config)
  unfolding put_placement_levels ◌>>=◌
  put_placement_levels-safe config = record { at = λ w. ground arith }

  module _ (cluster : VitastorCluster) where
    create_monitor-safe : Ensures Any (create_monitor api cluster)
    unfolding create_monitor set_owner ◌>>=◌
    create_monitor-safe = record {
      at = λ w. ground (
        arith,
        serves.owner_is_set Kind.vitastor_cluster cluster.meta
            (monitor_deployment api cluster).meta,
      );
    }

    create_agent-safe : Ensures Any (create_agent api cluster)
    unfolding create_agent set_owner ◌>>=◌
    create_agent-safe = record {
      at = λ w. ground (
        arith,
        serves.owner_is_set Kind.vitastor_cluster cluster.meta (agent_daemon_set api cluster).meta,
      );
    }

    sync_monitor_image-safe :
        (d : Deployment) → IsServed d → Ensures IsServed (sync_monitor_image api cluster d)
    unfolding sync_monitor_image ◌>>=◌
    sync_monitor_image-safe d h = record {
      at = λ w. ground (
        arith,
        serves.updated_deployment
            (record d { template = with_image cluster.spec.monitor_image d.template }) w,
        serves.updated_deployment
            (record d { template = with_image cluster.spec.monitor_image d.template })
            (or_crash {W = W} (image_of d.template) w).world,
      );
    }

    sync_monitor_replicas-safe :
        (d : Deployment) → IsServed d → Ensures Any (sync_monitor_replicas api cluster d)
    unfolding sync_monitor_replicas ◌>>=◌
    sync_monitor_replicas-safe d h = record { at = λ w. ground arith }

    check_monitor-safe :
        (r : Result Deployment) → WhenOk IsServed r → Ensures Any (check_monitor api cluster r)
    unfolding check_monitor
    check_monitor-safe (err not_found) h = create_monitor-safe
    check_monitor-safe (err (failed m)) h = Ensures-return _ _
    check_monitor-safe (ok d) h =
        Ensures-bind (sync_monitor_image api cluster d) (sync_monitor_replicas api cluster)
          (sync_monitor_image-safe d h) sync_monitor_replicas-safe

    check_agent-safe :
        (r : Result DaemonSet)
        → WhenOk (λ (s : DaemonSet). HasContainer s.template) r
        → Ensures Any (check_agent api cluster r)
    unfolding check_agent sync_agent_image ◌>>=◌
    check_agent-safe (err not_found) h = create_agent-safe
    check_agent-safe (err (failed m)) h = Ensures-return _ _
    check_agent-safe (ok ds) h = record { at = λ w. ground arith }

    check_node-safe :
        (agent : Pod) (r : Result VitastorNode) → Ensures Any (check_node api cluster agent r)
    unfolding check_node set_owner get_vitastor_node_configuration ◌>>=◌
    check_node-safe agent r = record {
      at = λ w. ground (
        arith,
        serves.owner_is_set Kind.vitastor_cluster cluster.meta (node_meta agent.node_name),
      );
    }

    ensure_nodes-safe : Ensures Any (ensure_nodes api cluster)
    unfolding ensure_nodes ensure_node
    ensure_nodes-safe = search (ensures_rules, check_node-safe) depth 9

    reconcile_cluster-safe : Ensures Any (reconcile_cluster api cluster)
    unfolding reconcile_cluster
    reconcile_cluster-safe =
        Ensures-bind _ _ (Ensures-call _ _ (serves.got_deployment _)) λ monitor h.
          Ensures-bind _ _ (check_monitor-safe monitor h) λ _ _.
            Ensures-bind _ _ (Ensures-call _ _ (serves.got_daemon_set _))
              λ agent k. Ensures-bind _ _ (check_agent-safe agent k) λ _ _. ensure_nodes-safe

  reconcile_named-safe :
      (name : String) (config : VitastorConfig) → Ensures Any (reconcile_named api name config)
  unfolding reconcile_named
  reconcile_named-safe name config =
      search (ensures_rules, put_placement_levels-safe, reconcile_cluster-safe) depth 12

  -- A run of the cluster's reconciler does not panic. The server is to answer deployments that have a
  -- container and a number of replicas and daemon sets that have a container, and setting an owner
  -- on an object that is there is not to panic.
  pub cluster_safe : (name : String) (w : W) → (reconcile api name w).flow ≢ panic
  unfolding reconcile
  cluster_safe name w =
      not_panic (with_etcd api (reconcile_named api name))
        (with_etcd-safe api (reconcile_named api name) (reconcile_named-safe name)) w
