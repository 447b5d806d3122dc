-- ===== src/Cluster/Held.antt =====
-- What the cluster's reconciler does to the objects that the server holds, as a function of them.
use vitastor_operator.Prelude.{
  String, ◌≡◌, ◌≢◌, Bool, true, any, List, [], ◌∷◌, Option, none, some, ◌==◌, if◌then◌else◌,
}
use vitastor_operator.Types.{
  Kind, Meta, NamespacedName, VitastorCluster, VitastorNode, Deployment, DaemonSet, Pod,
}
use vitastor_operator.Types.Images.{with_image}
use vitastor_operator.Flow.{ok, err, not_found}
use vitastor_operator.Api.{Api, referred}
use vitastor_operator.Api.Laws.{is_ok, found, key_of, cluster_scoped, HasContainer, IsServed}
use vitastor_operator.Config.{namespace}
use vitastor_operator.Cluster.{agent_options}
use vitastor_operator.Cluster.Monitor.{desired}
use vitastor_operator.Cluster.Templates.{monitor_deployment, agent_daemon_set}

-- The monitor's deployment, the agents' daemon set, and the names of the VitastorNodes.
pub record Held : Type 0 where
  pub monitor : Option Deployment
  pub agent : Option DaemonSet
  pub nodes : List String

abbrev pub has : List String → String → Bool
has names name = any (λ n. n == name) names

module _ {W : Type 0} (api : Api W) where
  abbrev pub monitor_key : NamespacedName
  monitor_key = record { namespace = namespace api; name = "vitastor-monitor" }

  abbrev pub agent_key : NamespacedName
  agent_key = record { namespace = namespace api; name = "vitastor-agent" }

-- A server that holds these objects, each of the first two under the key that the reconciler gets it
-- by: a deployment or daemon set is held after its creation if it has that key, and after its update
-- if the one held has the same metadata. The server accepts each such creation and update, each
-- creation of a node's object that is not held, answers each get and list, and nobody else writes to
-- it; the same pods run agents at any time. To set the cluster as an owner moves no object to another
-- key.
pub record ClusterStore {W : Type 0} (api : Api W) (cluster : VitastorCluster) : Type 0 where
  pub held : W → Held
  pub agents : List Pod
  pub owned : Meta → Meta
  pub sets_owner :
      (m : Meta)
      → api.library.set_controller_reference Kind.vitastor_cluster cluster.meta (some m)
        ≡ referred (owned m)
  pub keeps_key : (m : Meta) → key_of (owned m) ≡ key_of m
  pub gets_monitor :
      (w : W) → (api.kube.get_deployment (monitor_key api) w).0 ≡ found (held w).monitor
  pub get_monitor_keeps : (w : W) → held (api.kube.get_deployment (monitor_key api) w).1 ≡ held w
  pub create_monitor_ok :
      (d : Deployment) (w : W)
      → key_of d.meta ≡ monitor_key api
      → (held w).monitor ≡ none
      → is_ok (api.kube.create_deployment d w).0 ≡ true
  pub creates_monitor :
      (d : Deployment) (w : W)
      → key_of d.meta ≡ monitor_key api
      → (held w).monitor ≡ none
      → held (api.kube.create_deployment d w).1 ≡ record (held w) { monitor = some d }
  pub update_monitor_ok :
      (d d₀ : Deployment) (w : W)
      → (held w).monitor ≡ some d₀
      → d.meta ≡ d₀.meta
      → (api.kube.update_deployment d w).0 ≡ ok d
  pub updates_monitor :
      (d d₀ : Deployment) (w : W)
      → (held w).monitor ≡ some d₀
      → d.meta ≡ d₀.meta
      → held (api.kube.update_deployment d w).1 ≡ record (held w) { monitor = some d }
  pub gets_agent : (w : W) → (api.kube.get_daemon_set (agent_key api) w).0 ≡ found (held w).agent
  pub get_agent_keeps : (w : W) → held (api.kube.get_daemon_set (agent_key api) w).1 ≡ held w
  pub create_agent_ok :
      (d : DaemonSet) (w : W)
      → key_of d.meta ≡ agent_key api
      → (held w).agent ≡ none
      → is_ok (api.kube.create_daemon_set d w).0 ≡ true
  pub creates_agent :
      (d : DaemonSet) (w : W)
      → key_of d.meta ≡ agent_key api
      → (held w).agent ≡ none
      → held (api.kube.create_daemon_set d w).1 ≡ record (held w) { agent = some d }
  pub update_agent_ok :
      (d d₀ : DaemonSet) (w : W)
      → (held w).agent ≡ some d₀
      → d.meta ≡ d₀.meta
      → is_ok (api.kube.update_daemon_set d w).0 ≡ true
  pub updates_agent :
      (d d₀ : DaemonSet) (w : W)
      → (held w).agent ≡ some d₀
      → d.meta ≡ d₀.meta
      → held (api.kube.update_daemon_set d w).1 ≡ record (held w) { agent = some d }
  pub lists : (w : W) → (api.kube.list_pods (agent_options api) w).0 ≡ ok agents
  pub list_keeps : (w : W) → held (api.kube.list_pods (agent_options api) w).1 ≡ held w
  pub gets_known :
      (name : String) (w : W)
      → has (held w).nodes name ≡ true
      → is_ok (api.kube.get_node (cluster_scoped name) w).0 ≡ true
  pub gets_unknown :
      (name : String) (w : W)
      → has (held w).nodes name ≢ true
      → (api.kube.get_node (cluster_scoped name) w).0 ≡ err not_found
  pub get_node_keeps :
      (name : String) (w : W) → held (api.kube.get_node (cluster_scoped name) w).1 ≡ held w
  pub create_node_ok :
      (n : VitastorNode) (w : W)
      → has (held w).nodes n.meta.name ≢ true
      → is_ok (api.kube.create_node n w).0 ≡ true
  pub creates_node :
      (n : VitastorNode) (w : W)
      → has (held w).nodes n.meta.name ≢ true
      → held (api.kube.create_node n w).1 ≡ record (held w) { nodes = n.meta.name ∷ (held w).nodes }

-- What the server's validation and defaults give: a container, and a number of replicas.
abbrev pub ValidMonitor : Option Deployment → Type 0
ValidMonitor none = Unit
ValidMonitor (some d) = IsServed d

abbrev pub ValidAgent : Option DaemonSet → Type 0
ValidAgent none = Unit
ValidAgent (some d) = HasContainer d.template

abbrev pub Valid : Held → Type 0
Valid h = ValidMonitor h.monitor × ValidAgent h.agent

abbrev pub current : VitastorCluster → DaemonSet → DaemonSet
current cluster ds = record ds { template = with_image cluster.spec.agent_image ds.template }

abbrev pub add : Pod → List String → List String
add agent names = if has names agent.node_name then names else agent.node_name ∷ names

-- The names after the loop over the agents.
unfoldable pub add_all : List Pod → List String → List String
add_all [] names = names
add_all (agent ∷ agents) names = add_all agents (add agent names)

module _ {W : Type 0} (api : Api W) (cluster : VitastorCluster) (owned : Meta → Meta) where
  abbrev pub own_monitor : Deployment
  own_monitor = record (monitor_deployment api cluster) {
    meta = owned (monitor_deployment api cluster).meta;
  }

  abbrev pub own_agent : DaemonSet
  own_agent = record (agent_daemon_set api cluster) {
    meta = owned (agent_daemon_set api cluster).meta;
  }

module _ {W : Type 0} (api : Api W) (cluster : VitastorCluster) (owned : Meta → Meta)
    (agents : List Pod) where
  abbrev pub sync_agent : Option DaemonSet → Held → Held
  sync_agent none h = record h { agent = some (own_agent api cluster owned) }
  sync_agent (some ds) h = record h {
    agent = some (current cluster ds);
    nodes = add_all agents h.nodes;
  }

  abbrev pub sync_monitor : Option Deployment → Held → Held
  sync_monitor none h = record h { monitor = some (own_monitor api cluster owned) }
  sync_monitor (some d) h = sync_agent h.agent (record h { monitor = some (desired cluster d) })

  -- One run: a missing deployment is created, and nothing else; then a missing daemon set; and once
  -- both are there, they are brought up to date, and each agent's node gets an object.
  unfoldable pub sync : Held → Held
  sync h = sync_monitor h.monitor h
