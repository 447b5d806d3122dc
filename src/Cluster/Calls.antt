-- ===== src/Cluster/Calls.antt =====
-- Which calls the cluster's reconciler makes, whatever the world answers.
use vitastor_operator.Prelude.{String, ◌<>◌, ◌≡◌, arith}
use vitastor_operator.Types.{VitastorCluster, Pod, Deployment, DaemonSet, VitastorNode}
use vitastor_operator.Types.Object.{Object, deployment, daemon_set, vitastor_node}
use vitastor_operator.Flow.{
  Action, ◌>>=◌, Event, etcd_put, created, updated, Result, ok, err, not_found, failed,
}
use vitastor_operator.Flow.Order.{IsConnection}
use vitastor_operator.Flow.Rules.{Emits, emits_rules}
use vitastor_operator.Api.{Api, VitastorConfig}
use vitastor_operator.Api.Calls.{set_owner}
use vitastor_operator.Config.Rules.{Managed, IsReleased, Emits-with_etcd, with_etcd-IsReleased}
use vitastor_operator.Cluster.Templates.{get_vitastor_node_configuration}
use vitastor_operator.Cluster.{
  put_placement_levels, create_monitor, sync_monitor_image, sync_monitor_replicas, check_monitor,
  create_agent, sync_agent_image, check_agent, check_node, ensure_node, ensure_nodes,
  reconcile_cluster, reconcile_named, reconcile,
}

abbrev CreatedKind : Object → Type 0
CreatedKind (deployment d) = Unit
CreatedKind (daemon_set d) = Unit
CreatedKind (vitastor_node n) = Unit
CreatedKind _ = ⊥

abbrev UpdatedKind : Object → Type 0
UpdatedKind (deployment d) = Unit
UpdatedKind (daemon_set d) = Unit
UpdatedKind _ = ⊥

-- The placement levels are put, and nothing else; deployments, daemon sets and nodes are created,
-- deployments and daemon sets are updated, and nothing is deleted.
abbrev pub ClusterCall : String → Event → Type 0
ClusterCall prefix (etcd_put k v) = k ≡ prefix <> "/config/placement_levels"
ClusterCall prefix (created o) = CreatedKind o
ClusterCall prefix (updated o) = UpdatedKind o
ClusterCall prefix _ = ⊥

module _ {W : Type 0} (api : Api W) (config : VitastorConfig) where
  abbrev Fine : {A : Type 0} → Action W A → Type 0
  Fine m = Emits (ClusterCall config.vitastor_prefix) m

  put_placement_levels-Fine : Fine (put_placement_levels api config)
  unfolding put_placement_levels ◌>>=◌
  put_placement_levels-Fine = record { at = λ w. ground arith }

  module _ (cluster : VitastorCluster) where
    create_monitor-Fine : Fine (create_monitor api cluster)
    unfolding create_monitor set_owner ◌>>=◌
    create_monitor-Fine = record { at = λ w. ground arith }

    sync_monitor_image-Fine : (d : Deployment) → Fine (sync_monitor_image api cluster d)
    unfolding sync_monitor_image ◌>>=◌
    sync_monitor_image-Fine d = record { at = λ w. ground arith }

    sync_monitor_replicas-Fine : (d : Deployment) → Fine (sync_monitor_replicas api cluster d)
    unfolding sync_monitor_replicas ◌>>=◌
    sync_monitor_replicas-Fine d = record { at = λ w. ground arith }

    check_monitor-Fine : (r : Result Deployment) → Fine (check_monitor api cluster r)
    unfolding check_monitor
    check_monitor-Fine (err not_found) = create_monitor-Fine
    check_monitor-Fine (err (failed m)) = search emits_rules
    check_monitor-Fine (ok d) =
        search (emits_rules, sync_monitor_image-Fine, sync_monitor_replicas-Fine)

    check_agent-Fine : (r : Result DaemonSet) → Fine (check_agent api cluster r)
    unfolding check_agent create_agent sync_agent_image set_owner ◌>>=◌
    check_agent-Fine (err not_found) = record { at = λ w. ground arith }
    check_agent-Fine (err (failed m)) = search emits_rules
    check_agent-Fine (ok d) = record { at = λ w. ground arith }

    check_node-Fine :
        (agent : Pod) (r : Result VitastorNode) → Fine (check_node api cluster agent r)
    unfolding check_node set_owner get_vitastor_node_configuration ◌>>=◌
    check_node-Fine agent r = record { at = λ w. ground arith }

    ensure_nodes-Fine : Fine (ensure_nodes api cluster)
    unfolding ensure_nodes ensure_node
    ensure_nodes-Fine = search (emits_rules, check_node-Fine, tt) depth 9

    reconcile_cluster-Fine : Fine (reconcile_cluster api cluster)
    unfolding reconcile_cluster
    reconcile_cluster-Fine =
        search (emits_rules, check_monitor-Fine, check_agent-Fine, ensure_nodes-Fine, tt) depth 12

  reconcile_named-Fine : (name : String) → Fine (reconcile_named api name config)
  unfolding reconcile_named
  reconcile_named-Fine name =
      search (emits_rules, put_placement_levels-Fine, reconcile_cluster-Fine) depth 12

apart : (prefix : String) (e : Event) → ClusterCall prefix e → ¬ IsConnection e
apart prefix e h = ground arith

module _ {W : Type 0} (api : Api W) (name : String) where
  -- Whatever the world answers, a run of the cluster's reconciler makes these calls alone: it opens
  -- and closes the configuration and the etcd client; it puts the placement levels, below some
  -- prefix; it creates deployments, daemon sets and VitastorNodes; it updates deployments and
  -- daemon sets. It deletes nothing.
  pub cluster_calls : Emits (Managed ClusterCall) (reconcile api name)
  unfolding reconcile
  cluster_calls =
      Emits-with_etcd api ClusterCall (reconcile_named api name)
        λ config. reconcile_named-Fine api config name

  -- However the run ends, it has closed as many etcd clients and files as it opened.
  pub cluster-IsReleased : (w : W) → IsReleased (reconcile api name w).events
  unfolding reconcile
  cluster-IsReleased w =
      with_etcd-IsReleased api ClusterCall (reconcile_named api name)
        (λ config. reconcile_named-Fine api config name) apart w
