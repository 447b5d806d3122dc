-- ===== src/Tests/Settles.antt =====
-- Several runs of the cluster's and the OSD's reconcilers at concrete inputs.
use vitastor_operator.Prelude.{none, ◌≡◌, ◌≢◌, refl, true, List, [], ◌∷◌, String, some, map, arith}
use vitastor_operator.Prelude.Int.{pos}
use vitastor_operator.Go.Map.{Entries, lookup, present}
use vitastor_operator.Types.{VitastorNode}
use vitastor_operator.Flow.{ok, err, not_found}
use vitastor_operator.Api.{Api}
use vitastor_operator.Api.Laws.{is_ok}
use vitastor_operator.Api.Memory.{World}
use vitastor_operator.Cluster.{reconcile_cluster}
use vitastor_operator.Cluster.Held.{ClusterStore, has, sync}
use vitastor_operator.Cluster.Runs.{cluster_reconciled}
use vitastor_operator.Cluster.UpToDate.{UpToDate}
use vitastor_operator.Cluster.Settles.{Levels, upkeep, runs, cluster_settles}
use vitastor_operator.Cluster
use vitastor_operator.Config.Connected.{Connection}
use vitastor_operator.Api.{VitastorConfig}
use vitastor_operator.Go.Strconv.{atoi}
use vitastor_operator.Flow.{exit, no_requeue}
use vitastor_operator.Osd
use vitastor_operator.Osd.Settles.{SetStore, synced, osd_settles}
use vitastor_operator.Tests.Samples.{empty, server, cluster, agent, monitor, set, old}

-- Nodes are added in front, and one node runs an agent.
abbrev holding : Api World
holding = record server {
  kube = record server.kube {
    get_cluster = λ q w. (ok cluster, w);
    create_node = λ n w. (ok n, record w { nodes = (n.meta.name, n) ∷ w.nodes });
    list_pods = λ options w. (ok (agent ∷ []), w);
  };
}

abbrev names : Entries VitastorNode → List String
names m = map (λ e. e.0) m

has-names :
    (name : String) (m : Entries VitastorNode) → has (names m) name ≡ present (lookup name m)
unfolding lookup
has-names name [] = refl
has-names name ((k, n) ∷ m) = ground (arith, has-names name m)

get_known :
    (name : String) (w : World)
    → has (names w.nodes) name ≡ true
    → is_ok (holding.kube.get_node (record { namespace = ""; name = name }) w).0 ≡ true
get_known name w h = ground (arith, has-names name w.nodes)

get_unknown :
    (name : String) (w : World)
    → has (names w.nodes) name ≢ true
    → (holding.kube.get_node (record { namespace = ""; name = name }) w).0 ≡ err not_found
get_unknown name w h = ground (arith, has-names name w.nodes)

holding-ClusterStore : ClusterStore holding cluster
holding-ClusterStore = record {
  held = λ w. record { monitor = w.deployment; agent = w.daemon_set; nodes = names w.nodes };
  agents = agent ∷ [];
  owned = λ m. m;
  sets_owner = λ m. refl;
  keeps_key = λ m. refl;
  gets_monitor = λ w. ground arith;
  get_monitor_keeps = λ w. refl;
  create_monitor_ok = λ d w k h. refl;
  creates_monitor = λ d w k h. refl;
  update_monitor_ok = λ d d₀ w h k. refl;
  updates_monitor = λ d d₀ w h k. refl;
  gets_agent = λ w. ground arith;
  get_agent_keeps = λ w. refl;
  create_agent_ok = λ d w k h. refl;
  creates_agent = λ d w k h. refl;
  update_agent_ok = λ d d₀ w h k. refl;
  updates_agent = λ d d₀ w h k. refl;
  lists = λ w. refl;
  list_keeps = λ w. refl;
  gets_known = get_known;
  gets_unknown = get_unknown;
  get_node_keeps = λ name w. refl;
  create_node_ok = λ n w h. refl;
  creates_node = λ n w h. refl;
}

-- An old image, and no daemon set.
abbrev outdated : World
outdated = record empty { deployment = some (monitor "monitor:1" (pos 1)) }

abbrev configured : VitastorConfig
configured = record { vitastor_etcd_urls = []; vitastor_prefix = "/vitastor" }

holding-Levels : Levels holding cluster configured holding-ClusterStore
unfolding holding-ClusterStore
holding-Levels = record {
  text = "levels";
  encodes = refl;
  put_ok = λ w. refl;
  put_keeps = λ w. refl;
  gets_cluster = λ w. refl;
  get_cluster_keeps = λ w. refl;
}

holding-Connection : Connection holding configured holding-ClusterStore.held
unfolding holding-ClusterStore
holding-Connection = record {
  text = "";
  opens = λ w. refl;
  open_keeps = λ w. refl;
  decodes = refl;
  dials = λ w. refl;
  dial_keeps = λ w. refl;
}

abbrev settled_world : World
settled_world =
    runs holding cluster configured holding-ClusterStore holding-Levels holding-Connection 3
      outdated

cluster_settles_example :
    UpToDate cluster (agent ∷ []) (holding-ClusterStore.held settled_world)
    × ((Cluster.reconcile holding "vitastor" settled_world).flow
        ≡ exit (record { result = no_requeue; error = none }))
    × ((Cluster.reconcile holding "vitastor" settled_world).events
        ≡ upkeep holding cluster configured holding-ClusterStore holding-Levels holding-Connection)
unfolding holding-ClusterStore
cluster_settles_example =
    cluster_settles holding cluster configured holding-ClusterStore holding-Levels
      holding-Connection 3 outdated (ground arith) ((λ e. cc, λ e. cc), tt)

cluster_reconciled_example :
    holding-ClusterStore.held (reconcile_cluster holding cluster outdated).world
    ≡ sync holding cluster (λ m. m) (agent ∷ []) (holding-ClusterStore.held outdated)
unfolding holding-ClusterStore
cluster_reconciled_example =
    cluster_reconciled holding cluster holding-ClusterStore outdated ((λ e. cc, λ e. cc), tt)

-- A server that has the OSD, and its set with an old image.
abbrev with_osd : Api World
with_osd = record server { kube = record server.kube { get_osd = λ q w. (ok old, w) } }

with_osd-SetStore : SetStore with_osd old
with_osd-SetStore = record {
  held = λ w. w.stateful_set;
  owned = λ m. m;
  sets_owner = λ m. refl;
  gets_osd = λ w. refl;
  get_osd_keeps = λ w. refl;
  gets = λ w. ground arith;
  get_keeps = λ w. refl;
  keeps_key = λ m. refl;
  create_ok = λ s w k h. refl;
  creates = λ s w k h. refl;
  update_ok = λ s s₀ w h k. refl;
  updates = λ s s₀ w h k. refl;
}

abbrev outdated_set : World
outdated_set = record empty { stateful_set = some (set "osd:0") }

osd_settles_example :
    (with_osd-SetStore.held (Osd.reconcile with_osd "vitastor-osd-1" outdated_set).world
      ≡ some (synced with_osd old (λ m. m) (pos 5666) (some (set "osd:0"))))
    × ((Osd.reconcile with_osd "vitastor-osd-1"
          (Osd.reconcile with_osd "vitastor-osd-1" outdated_set).world).flow
        ≡ exit (record { result = no_requeue; error = none }))
    × ((Osd.reconcile with_osd "vitastor-osd-1"
          (Osd.reconcile with_osd "vitastor-osd-1" outdated_set).world).events
        ≡ [])
unfolding with_osd-SetStore atoi
osd_settles_example =
    osd_settles with_osd old with_osd-SetStore (pos 5666) refl outdated_set (λ e. cc)
