-- ===== src/Tests/Clusters.antt =====
-- The cluster's and the OSD's reconcilers at concrete inputs.
use vitastor_operator.Prelude.{◌≡◌, ◌↔◌, refl, true, [], ◌∷◌, some, none, map, String}
use vitastor_operator.Prelude.Int.{pos, int32}
use vitastor_operator.Go.Strconv.{atoi}
use vitastor_operator.Go.Map.{lookup, assign}
use vitastor_operator.Types.{StatefulSet, Container}
use vitastor_operator.Types.Object.{stateful_set}
use vitastor_operator.Flow.{
  ok, err, not_found, failed, created, next, exit, panic, requeue_now, ◌>>=◌, for_each,
}
use vitastor_operator.Api.{Api}
use vitastor_operator.Api.Calls.{set_owner}
use vitastor_operator.Api.Memory.{
  World, memory-EchoesDeployments, memory-KeepsNames, memory-NodeStore,
}
use vitastor_operator.Cluster.{
  check_monitor, sync_monitor_image, sync_monitor_replicas, check_node, ensure_node,
}
use vitastor_operator.Cluster.Monitor.{latest, check_monitor_quiet, check_monitor_settles}
use vitastor_operator.Cluster.Templates.{get_vitastor_node_configuration}
use vitastor_operator.Cluster.Nodes.{ensure_nodes_known}
use vitastor_operator.Cluster.Templates.{monitor_deployment, agent_daemon_set}
use vitastor_operator.Manager.Workloads.{IsDeployable, workloads-IsDeployable}
use vitastor_operator.Osd.{check_sts, create_sts, get_configuration, stateful_set_of}
use vitastor_operator.Osd.Workload.{missing_sts_settles, bad_port}
use vitastor_operator.Tests.Samples.{empty, server, cluster, agent, monitor, old}

check_monitor_settles_example :
    latest
      (monitor "monitor:1" (pos 1))
      (check_monitor server cluster (ok (monitor "monitor:1" (pos 1))) empty).events
    ≡ monitor "monitor:2" (pos 3)
unfolding check_monitor sync_monitor_image sync_monitor_replicas ◌>>=◌ int32
check_monitor_settles_example =
    check_monitor_settles server cluster (memory-EchoesDeployments [] [] [])
      (monitor "monitor:1" (pos 1)) "monitor:1" (pos 1) empty refl refl refl

check_monitor_quiet_example :
    ((check_monitor server cluster (ok (monitor "monitor:2" (pos 1))) empty).events ≡ [])
    ↔ ((◌≡◌ {A = String} "monitor:2" "monitor:2") × (pos 1 ≡ pos 3))
unfolding int32
check_monitor_quiet_example =
    check_monitor_quiet server cluster (monitor "monitor:2" (pos 1)) "monitor:2" (pos 1) empty refl
      refl

ensure_nodes_known_example :
    (memory-NodeStore [] [] []).has
      (for_each (agent ∷ []) (ensure_node server cluster) empty).world
      "n1"
    ≡ true
unfolding for_each ensure_node check_node get_vitastor_node_configuration set_owner ◌>>=◌ lookup
    assign
ensure_nodes_known_example =
    ensure_nodes_known server cluster (memory-KeepsNames [] [] []) (memory-NodeStore [] [] [])
      (agent ∷ []) "n1" empty refl

missing_sts_settles_example :
    (sts : StatefulSet) × ((check_sts server old (err not_found) empty).events
      ≡ created (stateful_set sts) ∷ [])
    × ((check_sts server old (err not_found) empty).flow
        ≡ exit (record { result = requeue_now; error = none }))
    × (sts.template.spec.node_name ≡ "n1")
    × (map (λ (c : Container). c.args) sts.template.spec.containers
        ≡ ("exec-osd" ∷ "/dev/a" ∷ []) ∷ [])
    × ((check_sts server old (ok sts) empty).flow ≡ next tt)
    × ((check_sts server old (ok sts) empty).events ≡ [])
unfolding check_sts create_sts get_configuration stateful_set_of set_owner ◌>>=◌ atoi
missing_sts_settles_example = missing_sts_settles server old (pos 5666) empty empty refl refl

-- A container's port that is no number.
abbrev misconfigured : Api World
misconfigured = record server { host = record server.host { lookup_env = λ name. some "http" } }

bad_port_example :
    ((check_sts misconfigured old (err not_found) empty).events ≡ [])
    × ((check_sts misconfigured old (err not_found) empty).flow ≡ panic)
unfolding check_sts atoi
bad_port_example = bad_port misconfigured old empty (failed "strconv.Atoi: parsing http") refl

workloads-IsDeployable_example :
    IsDeployable
      (monitor_deployment server cluster).match_labels
      (monitor_deployment server cluster).template
    × IsDeployable
        (agent_daemon_set server cluster).match_labels
        (agent_daemon_set server cluster).template
    × IsDeployable
        (stateful_set_of "storage" old (pos 5666)).match_labels
        (stateful_set_of "storage" old (pos 5666)).template
workloads-IsDeployable_example = workloads-IsDeployable server cluster old "storage" (pos 5666)
