-- ===== src/Cluster/UpToDate.antt =====
-- How `sync` brings the held objects up to date, from whatever is there at first.
use vitastor_operator.Prelude.{
  ℕ, zero, suc, String, ◌≡◌, ◌≢◌, refl, true, All, List, [], ◌∷◌, none, some, arith, eq_refl,
  Option-cases, inl, inr,
}
use vitastor_operator.Prelude.Int.{int32}
use vitastor_operator.Api.Laws.{IsServed, HasContainer}
use vitastor_operator.Prelude.{Option}
use vitastor_operator.Types.{Meta, VitastorCluster, Deployment, DaemonSet, Pod}
use vitastor_operator.Types.Images.{image_of, image_of-with_image}
use vitastor_operator.Api.{Api}
use vitastor_operator.Cluster.Templates.{monitor_deployment, agent_daemon_set}
use vitastor_operator.Cluster.Monitor.{desired}
use vitastor_operator.Cluster.Held.{
  sync_agent, ValidMonitor, ValidAgent, Held, Valid, has, current, add, add_all, own_monitor,
  own_agent, sync,
}

module _ (cluster : VitastorCluster) where
  abbrev pub MonitorUpToDate : Deployment → Type 0
  MonitorUpToDate d =
      (image_of d.template ≡ some cluster.spec.monitor_image)
      × (d.replicas ≡ some (int32 cluster.spec.monitor_replica_num))

  abbrev pub AgentUpToDate : DaemonSet → Type 0
  AgentUpToDate ds = image_of ds.template ≡ some cluster.spec.agent_image

  -- The monitor's deployment has the specification's image and number of replicas, the daemon set
  -- the agent's image, and every node that runs an agent has an object.
  abbrev pub UpToDate : List Pod → Held → Type 0
  UpToDate agents h =
      ((d : Deployment) × (h.monitor ≡ some d) × MonitorUpToDate d)
      × ((ds : DaemonSet) × (h.agent ≡ some ds) × AgentUpToDate ds)
      × All (λ (agent : Pod). has h.nodes agent.node_name ≡ true) agents

has-add :
    (agent : Pod) (names : List String) (k : String)
    → has names k ≡ true
    → has (add agent names) k ≡ true
has-add agent names k h = ground arith

has-add_all :
    (agents : List Pod) (names : List String) (k : String)
    → has names k ≡ true
    → has (add_all agents names) k ≡ true
unfolding add_all
has-add_all [] names k h = h
has-add_all (agent ∷ agents) names k h =
    has-add_all agents (add agent names) k (has-add agent names k h)

has-added : (agent : Pod) (names : List String) → has (add agent names) agent.node_name ≡ true
has-added agent names = ground (arith, eq_refl agent.node_name)

all_added :
    (agents : List Pod) (names : List String)
    → All (λ (agent : Pod). has (add_all agents names) agent.node_name ≡ true) agents
unfolding add_all
all_added [] names = tt
all_added (agent ∷ agents) names = (
  has-add_all agents (add agent names) agent.node_name (has-added agent names),
  all_added agents (add agent names),
)

module _ {W : Type 0} (api : Api W) (cluster : VitastorCluster) (owned : Meta → Meta)
    (agents : List Pod) where
  -- What is there after so many runs.
  abbrev pub Reached : ℕ → Held → Type 0
  Reached zero h = Valid h
  Reached (suc zero) h = (h.monitor ≢ none) × Valid h
  Reached (suc (suc zero)) h = (h.monitor ≢ none) × (h.agent ≢ none) × Valid h
  Reached (suc (suc (suc n))) h = UpToDate cluster agents h

  own_monitor-UpToDate : MonitorUpToDate cluster (own_monitor api cluster owned)
  unfolding monitor_deployment
  own_monitor-UpToDate = (refl, refl)

  own_agent-UpToDate : AgentUpToDate cluster (own_agent api cluster owned)
  unfolding agent_daemon_set
  own_agent-UpToDate = refl

  desired-UpToDate :
      (d : Deployment) (image : String)
      → image_of d.template ≡ some image
      → MonitorUpToDate cluster (desired cluster d)
  desired-UpToDate d image i =
      (image_of-with_image d.template image cluster.spec.monitor_image i, refl)

  current-UpToDate :
      (ds : DaemonSet) (image : String)
      → image_of ds.template ≡ some image
      → AgentUpToDate cluster (current cluster ds)
  current-UpToDate ds image i = image_of-with_image ds.template image cluster.spec.agent_image i

  UpToDate-Reached : (h : Held) → UpToDate cluster agents h → Reached 2 h
  UpToDate-Reached h u = ground arith

  -- Once both are there, one run brings all up to date.
  sync-UpToDate :
      (h : Held) → Reached 2 h → UpToDate cluster agents (sync api cluster owned agents h)
  unfolding sync
  sync-UpToDate h r = elim (Option-cases h.monitor) [
    | inl e ↦ absurd (ground arith)
    | inr (d, e) ↦ elim (Option-cases h.agent) [
      | inl f ↦ absurd (ground arith)
      | inr (ds, f) ↦ elim (Option-cases (image_of d.template)) [
        | inl i ↦ absurd (ground arith)
        | inr (image, i) ↦ elim (Option-cases (image_of ds.template)) [
          | inl j ↦ absurd (ground arith)
          | inr (image', j) ↦
              rw (e, f)
                (
                  (desired cluster d, refl, desired-UpToDate d image i),
                  (current cluster ds, refl, current-UpToDate ds image' j),
                  all_added agents h.nodes,
                )
        ]
      ]
    ]
  ]

  desired-Served : (d : Deployment) → IsServed d → IsServed (desired cluster d)
  desired-Served d v = elim (Option-cases (image_of d.template)) [
    | inl i ↦ absurd (ground arith)
    | inr (image, i) ↦ ground (arith, desired-UpToDate d image i)
  ]

  current-Served :
      (ds : DaemonSet) → HasContainer ds.template → HasContainer (current cluster ds).template
  current-Served ds v = elim (Option-cases (image_of ds.template)) [
    | inl i ↦ absurd (ground arith)
    | inr (image, i) ↦ ground (arith, current-UpToDate ds image i)
  ]

  -- What a run leaves is valid, its deployment is there, and so is its daemon set if the deployment
  -- was there before.
  sync_agent-Valid :
      (agent : Option DaemonSet) (h : Held)
      → ValidAgent agent
      → ValidMonitor h.monitor
      → Valid (sync_agent api cluster owned agents agent h)
        × ((sync_agent api cluster owned agents agent h).agent ≢ none)
  sync_agent-Valid none h v m = ground (arith, own_agent-UpToDate)
  sync_agent-Valid (some ds) h v m = ground (arith, current-Served ds v)

  created_first : (h : Held) → Valid h → Reached 1 (sync api cluster owned agents h)
  unfolding sync
  created_first h r = elim (Option-cases h.monitor) [
    | inl e ↦ ground (arith, own_monitor-UpToDate)
    | inr (d, e) ↦ ground (
      arith,
      desired-Served d,
      sync_agent-Valid h.agent (record h { monitor = some (desired cluster d) }),
    )
  ]

  created_second : (h : Held) → Reached 1 h → Reached 2 (sync api cluster owned agents h)
  unfolding sync
  created_second h r = elim (Option-cases h.monitor) [
    | inl e ↦ absurd (ground arith)
    | inr (d, e) ↦ ground (
      arith,
      desired-Served d,
      sync_agent-Valid h.agent (record h { monitor = some (desired cluster d) }),
    )
  ]

  pub Reached-Valid : (n : ℕ) (h : Held) → Reached n h → Valid h
  Reached-Valid zero h r = r
  Reached-Valid (suc zero) h r = r.1
  Reached-Valid (suc (suc zero)) h r = r.2
  Reached-Valid (suc (suc (suc n))) h r = (UpToDate-Reached h r).2

  pub Reached-suc :
      (n : ℕ) (h : Held) → Reached n h → Reached (suc n) (sync api cluster owned agents h)
  Reached-suc zero h r = created_first h r
  Reached-suc (suc zero) h r = created_second h r
  Reached-suc (suc (suc zero)) h r = sync-UpToDate h r
  Reached-suc (suc (suc (suc n))) h r = sync-UpToDate h (UpToDate-Reached h r)
