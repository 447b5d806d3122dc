-- ===== src/Manager/Order.antt =====
-- What a run writes first.
use vitastor_operator.Prelude.{String, arith}
use vitastor_operator.Types.{VitastorNode, VitastorPool, KubeNode}
use vitastor_operator.Flow.{Action, ◌>>=◌, deferring}
use vitastor_operator.Flow.Rules.{Emits, emits_rules}
use vitastor_operator.Flow.Order.{
  IsConnection, PutsFirst, PutNext, PutsFirst-silent, PutsFirst-put, PutsFirst-deferring,
}
use vitastor_operator.Api.{Api, VitastorConfig}
use vitastor_operator.Config.{read_configuration, load_configuration, with_client, with_etcd}
use vitastor_operator.Cluster
use vitastor_operator.Cluster.{put_placement_levels}
use vitastor_operator.Node
use vitastor_operator.Node.{put_node_placement, decode_placements}
use vitastor_operator.Pool
use vitastor_operator.Pool.{put_pools, decode_pools, reconcile_pool}

module _ {W : Type 0} (api : Api W) where
  load-silent : (file : String) → Emits IsConnection (load_configuration api file)
  unfolding load_configuration read_configuration deferring ◌>>=◌
  load-silent file = record { at = λ w. ground arith }

  with_etcd-PutsFirst :
      {A : Type 0} (body : VitastorConfig → Action W A)
      → ((config : VitastorConfig) → PutsFirst (body config))
      → PutsFirst (with_etcd api body)
  unfolding with_etcd with_client
  with_etcd-PutsFirst body h =
      search (PutsFirst-silent, PutsFirst-deferring, emits_rules, load-silent, h, tt) depth 14

  levels-put :
      (config : VitastorConfig) (w : W)
      → PutNext (put_placement_levels api config w).flow (put_placement_levels api config w).events
  unfolding put_placement_levels ◌>>=◌
  levels-put config w = ground arith

  placement-put :
      (path : String) (node : VitastorNode) (kube_node : KubeNode) (w : W)
      → PutNext
          (put_node_placement api path node kube_node w).flow
          (put_node_placement api path node kube_node w).events
  unfolding put_node_placement decode_placements ◌>>=◌
  placement-put path node kube_node w = ground arith

  pools-put :
      (path : String) (pool : VitastorPool) (w : W)
      → PutNext (put_pools api path pool w).flow (put_pools api path pool w).events
  unfolding put_pools decode_pools ◌>>=◌
  pools-put path pool w = ground arith

  cluster-PutsFirst :
      (name : String) (config : VitastorConfig)
      → PutsFirst (Cluster.reconcile_named api name config)
  unfolding Cluster.reconcile_named
  cluster-PutsFirst name config = PutsFirst-put _ _ (levels-put config)

  node-PutsFirst :
      (name : String) (config : VitastorConfig) → PutsFirst (Node.reconcile_named api name config)
  unfolding Node.reconcile_named
  node-PutsFirst name config =
      search (PutsFirst-silent, PutsFirst-put, emits_rules, placement-put, tt) depth 14

  pool-PutsFirst :
      (name : String) (config : VitastorConfig) → PutsFirst (reconcile_pool api name config)
  unfolding reconcile_pool
  pool-PutsFirst name config =
      search (PutsFirst-silent, PutsFirst-put, emits_rules, pools-put, tt) depth 14

  -- Whatever the world answers, a run of the cluster's, the node's or the pool's reconciler makes no
  -- call before its first put to etcd but to open and close the configuration and the client: objects
  -- are created, updated and deleted only after what concerns them was put.
  pub runs-PutsFirst :
      (name : String)
      → PutsFirst (Cluster.reconcile api name)
        × PutsFirst (Node.reconcile api name)
        × PutsFirst (Pool.reconcile api name)
  unfolding Cluster.reconcile Node.reconcile Pool.reconcile
  runs-PutsFirst name = (
    with_etcd-PutsFirst (Cluster.reconcile_named api name) (cluster-PutsFirst name),
    with_etcd-PutsFirst (Node.reconcile_named api name) (node-PutsFirst name),
    with_etcd-PutsFirst (reconcile_pool api name) (pool-PutsFirst name),
  )
