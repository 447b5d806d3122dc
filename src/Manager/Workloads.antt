-- ===== src/Manager/Workloads.antt =====
-- The workloads that the reconcilers construct: what the API server demands of one.
use vitastor_operator.Prelude.{String, ◌≡◌, ◌≢◌, true, [], All, any, ◌==◌, arith, some}
use vitastor_operator.Prelude.Int.{ℤ}
use vitastor_operator.Go.Map.{Entries, lookup}
use vitastor_operator.Types.{VitastorCluster, VitastorOsd, PodTemplate, Container, Volume}
use vitastor_operator.Types.Workload.{VolumeMount}
use vitastor_operator.Api.{Api}
use vitastor_operator.Cluster.Templates.{monitor_deployment, agent_daemon_set}
use vitastor_operator.Osd.{stateful_set_of}

-- Every mount of a container names a volume of the pod.
abbrev pub MountsDeclared : PodTemplate → Type 0
MountsDeclared t =
    All
      (λ (c : Container).
        All (λ (m : VolumeMount). any (λ (v : Volume). v.name == m.name) t.spec.volumes ≡ true)
          c.volume_mounts)
      t.spec.containers

-- The selector's labels are labels of the pods, so that a workload owns the pods that it starts.
abbrev pub Selects : Entries String → PodTemplate → Type 0
Selects match_labels t = All (λ l. lookup l.0 t.labels ≡ some l.1) match_labels

abbrev pub IsDeployable : Entries String → PodTemplate → Type 0
IsDeployable match_labels t = Selects match_labels t × MountsDeclared t × (t.spec.containers ≢ [])

-- The monitor's deployment, the agents' daemon set and an OSD's stateful set are accepted: the
-- selector matches the pods' labels, every mount names a declared volume, and there is a container.
pub workloads-IsDeployable :
    {W : Type 0} (api : Api W) (cluster : VitastorCluster) (osd : VitastorOsd) (ns : String)
    (port : ℤ)
    → IsDeployable
        (monitor_deployment api cluster).match_labels
        (monitor_deployment api cluster).template
      × IsDeployable
          (agent_daemon_set api cluster).match_labels
          (agent_daemon_set api cluster).template
      × IsDeployable
          (stateful_set_of ns osd port).match_labels
          (stateful_set_of ns osd port).template
unfolding monitor_deployment agent_daemon_set stateful_set_of lookup
workloads-IsDeployable api cluster osd ns port = (ground arith, ground arith, ground arith)
