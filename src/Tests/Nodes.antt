-- ===== src/Tests/Nodes.antt =====
-- Panics and the status at concrete inputs.
use vitastor_operator.Prelude.{◌≢◌, refl, [], ◌∷◌, some}
use vitastor_operator.Go.Text.{contains}
use vitastor_operator.Flow.{ok, panic}
use vitastor_operator.Api.{Api}
use vitastor_operator.Api.Memory.{World, memory}
use vitastor_operator.Node
use vitastor_operator.Node.Placement.Tree.{has_slash}
use vitastor_operator.Node.Safety.{ServesPlacements, node_safe}
use vitastor_operator.Pool
use vitastor_operator.Pool.Safety.{ServesPools, pool_safe}
use vitastor_operator.Tests.Samples.{empty, server, node, pool, kube_node, placements, agent}

-- The placement map is in etcd, and the node has these labels.
abbrev placing : Api World
placing = record (memory placements [] []) {
  etcd = record server.etcd { get = λ k w. (ok (record { count = 1; kvs = "sample" ∷ [] }), w) };
  kube = record server.kube { get_kube_node = λ q w. (ok kube_node, w) };
}

placing-ServesPlacements : ServesPlacements placing
unfolding contains has_slash
placing-ServesPlacements = record {
  kept = λ config w given. ("sample", refl, λ e. cc);
  labelled = λ q w. refl;
  sets_owners = λ kind owner m e. cc;
}

abbrev with_agent : World
with_agent = record empty { nodes = ("n1", node) ∷ []; pods = agent ∷ [] }

node_safe_example : (Node.reconcile placing "n1" with_agent).flow ≢ panic
node_safe_example = node_safe placing placing-ServesPlacements "n1" with_agent

-- The pools are in etcd.
abbrev pooling : Api World
pooling = record server {
  etcd = record server.etcd { get = λ k w. (ok (record { count = 1; kvs = "sample" ∷ [] }), w) };
}

pooling-ServesPools : ServesPools pooling
pooling-ServesPools = record {
  kept = λ config w given e. ("sample", refl, λ p. cc);
  sets_owners = λ kind owner m e. cc;
}

abbrev with_pool : World
with_pool = record empty { pool = some pool }

pool_safe_example : (Pool.reconcile pooling "replicated" with_pool).flow ≢ panic
pool_safe_example = pool_safe pooling pooling-ServesPools "replicated" with_pool
