-- ===== src/Cluster/Nodes.antt =====
-- The loop over the agents: a VitastorNode for each node that runs one.
use vitastor_operator.Prelude.{
  String, ◌≡◌, ◌≢◌, refl, ap, ◌∙◌, true, ◌||◌, List, [], ◌∷◌, any, none, some, arith, ◌==◌, eq_iff,
}
use vitastor_operator.Types.{VitastorCluster, VitastorNode, Pod, Meta, Kind}
use vitastor_operator.Flow.{Result, ok, err, not_found, failed, next, pure, ◌>>=◌, for_each}
use vitastor_operator.Flow.Rules.{>>=-eq-next}
use vitastor_operator.Api.{Api, Reference, referred, refused, crashed}
use vitastor_operator.Api.Calls.{set_owner}
use vitastor_operator.Api.Laws.{KeepsNames, NodeStore, cluster_scoped}
use vitastor_operator.Cluster.{check_node, ensure_node}
use vitastor_operator.Cluster.Templates.{node_meta, get_vitastor_node_configuration}

module _ {W : Type 0} (api : Api W) (cluster : VitastorCluster) (names : KeepsNames api)
    (store : NodeStore api) where
  abbrev created_node : Pod → Meta → VitastorNode
  created_node agent m = record {
    meta = m;
    spec = record { node_name = agent.node_name; osd_image = cluster.spec.osd_image };
    status = record { disks = none; empty_disks = none; vitastor_disks = none };
  }

  create_known :
      (agent : Pod) (k : String) (v : W) (r : Reference)
      → api.library.set_controller_reference Kind.vitastor_cluster cluster.meta
          (some (node_meta agent.node_name))
        ≡ r
      → (check_node api cluster agent (err not_found) v).flow ≡ next tt
      → store.has (check_node api cluster agent (err not_found) v).world k
        ≡ (agent.node_name == k || store.has v k)
  unfolding check_node set_owner get_vitastor_node_configuration ◌>>=◌
  create_known agent k v (referred m) e h = ground (
    arith,
    e,
    names Kind.vitastor_cluster cluster.meta (node_meta agent.node_name) m,
    store.create_adds (created_node agent m) k v,
  )
  create_known agent k v (refused x) e h = absurd (ground arith)
  create_known agent k v crashed e h = absurd (ground arith)

  check_known :
      (agent : Pod) (k : String) (v : W) (r : Result VitastorNode)
      → (r ≢ err not_found → store.has v agent.node_name ≡ true)
      → (check_node api cluster agent r v).flow ≡ next tt
      → store.has (check_node api cluster agent r v).world k
        ≡ (agent.node_name == k || store.has v k)
  unfolding check_node ◌>>=◌
  check_known agent k v (ok n) known h = ground (arith, known (λ p. cc), eq_iff agent.node_name k)
  check_known agent k v (err (failed m)) known h =
      ground (arith, known (λ p. cc), eq_iff agent.node_name k)
  check_known agent k v (err not_found) known h = create_known agent k v _ refl h

  get_found :
      (name : String) (w : W)
      → (api.kube.get_node (cluster_scoped name) w).0 ≢ err not_found
      → store.has (api.kube.get_node (cluster_scoped name) w).1 name ≡ true
  get_found name w h = ground (arith, store.get_unknown name w, store.get_keeps name name w)

  -- One round leaves a node object for its agent, and the node objects that there were.
  round_known :
      (agent : Pod) (k : String) (w : W)
      → (ensure_node api cluster agent w).flow ≡ next tt
      → (store.has (ensure_node api cluster agent w).world k
          ≡ (agent.node_name == k || store.has w k))
  unfolding ensure_node ◌>>=◌
  round_known agent k w h =
      check_known agent k _ _ (get_found agent.node_name w) h
      ∙ ap (λ b. agent.node_name == k || b) (store.get_keeps agent.node_name k w)

  -- If the loop goes on to its end, the nodes that have an object are those that had one and those
  -- that run an agent. A get of a node that the server does not hold is to answer "not found" and no
  -- other error, for the loop passes over any other; to read is to change nothing, a creation that
  -- succeeds to add the object's name, and setting an owner is not to rename an object.
  pub ensure_nodes_known :
      (agents : List Pod) (k : String) (w : W)
      → (for_each agents (ensure_node api cluster) w).flow ≡ next tt
      → store.has (for_each agents (ensure_node api cluster) w).world k
        ≡ (any (λ agent. agent.node_name == k) agents || store.has w k)
  unfolding for_each pure
  ensure_nodes_known [] k w h = refl
  ensure_nodes_known (agent ∷ agents) k w h =
      let (_, d, t, _, v) =
        >>=-eq-next (ensure_node api cluster agent) (λ _. for_each agents (ensure_node api cluster))
          w h in
      rw v (ground (arith, ensure_nodes_known agents k _ t, round_known agent k w d))
