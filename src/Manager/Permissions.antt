-- ===== src/Manager/Permissions.antt =====
-- What the reconcilers write, and what the markers of their controllers grant.
use vitastor_operator.Prelude.{String, ◌≡◌, true, arith}
use vitastor_operator.Types.{Kind}
use vitastor_operator.Types.Metadata.{
  vitastor_cluster, vitastor_node, vitastor_osd, vitastor_pool, deployment, daemon_set,
  stateful_set, storage_class,
}
use vitastor_operator.Types.Object.{kind_of}
use vitastor_operator.Flow.{Event, created, updated, deleted, status_updated}
use vitastor_operator.Flow.Rules.{Emits, Emits-weaken}
use vitastor_operator.Api.{Api}
use vitastor_operator.Config.Rules.{Managed}
use vitastor_operator.Cluster
use vitastor_operator.Cluster.Calls.{ClusterCall, cluster_calls}
use vitastor_operator.Node
use vitastor_operator.Node.Calls.{NodeCall, node_calls}
use vitastor_operator.Osd
use vitastor_operator.Osd.Calls.{OsdCall, osd_calls}
use vitastor_operator.Pool
use vitastor_operator.Pool.Calls.{PoolCall, pool_calls}
use vitastor_operator.Manager.Watches.{
  IsWatched, cluster-IsWatched, node-IsWatched, osd-IsWatched, pool-IsWatched,
}
use vitastor_operator.Manager.Rbac.{rules_of, grants, group_of, resource_of, status_of}

-- The rules of the controller for a kind grant the verb on the object.
abbrev May : Kind → String → Kind → Type 0
May k verb object = grants (rules_of k) (group_of object) (resource_of object) verb ≡ true

-- If the call writes an object, the rules of the controller for the kind grant it.
abbrev pub IsGranted : Kind → Event → Type 0
IsGranted k (created o) = May k "create" (kind_of o)
IsGranted k (updated o) = May k "update" (kind_of o)
IsGranted k (deleted o) = May k "delete" (kind_of o)
IsGranted k (status_updated o) =
    grants (rules_of k) (group_of (kind_of o)) (status_of (kind_of o)) "update" ≡ true
IsGranted k _ = Unit

abbrev MayWrite : Kind → Kind → Type 0
MayWrite k object = May k "create" object × May k "update" object × May k "delete" object

grants_all :
    MayWrite vitastor_cluster deployment
    × MayWrite vitastor_cluster daemon_set
    × MayWrite vitastor_cluster vitastor_node
    × MayWrite vitastor_node vitastor_osd
    × MayWrite vitastor_osd stateful_set
    × MayWrite vitastor_pool storage_class
unfolding rules_of grants
grants_all = ground arith

grants_status :
    grants (rules_of vitastor_node) "control.vitastor.io" "vitastornodes/status" "update" ≡ true
unfolding rules_of grants
grants_status = ground arith

cluster-IsGranted : (e : Event) → Managed ClusterCall e → IsGranted vitastor_cluster e
cluster-IsGranted e h = ground (arith, grants_all)

node-IsGranted : (e : Event) → Managed NodeCall e → IsGranted vitastor_node e
node-IsGranted e h = ground (arith, grants_all, grants_status)

osd-IsGranted : (e : Event) → OsdCall e → IsGranted vitastor_osd e
osd-IsGranted e h = ground (arith, grants_all)

pool-IsGranted : (e : Event) → Managed PoolCall e → IsGranted vitastor_pool e
pool-IsGranted e h = ground (arith, grants_all)

-- The call is one that the controller for a kind may make, and if it creates an object, that the
-- controller watches.
abbrev pub IsHandled : Kind → Event → Type 0
IsHandled k e = IsGranted k e × IsWatched k e

-- Whatever the world answers, each reconciler creates, updates and deletes objects, and writes the
-- status of objects, as the markers of its own controller grant it, and creates objects of kinds alone
-- that its controller watches, so that a change of such an object runs the reconciler of its owner
-- again.
pub writes-IsHandled :
    {W : Type 0} (api : Api W) (name : String)
    → Emits (IsHandled vitastor_cluster) (Cluster.reconcile api name)
      × Emits (IsHandled vitastor_node) (Node.reconcile api name)
      × Emits (IsHandled vitastor_osd) (Osd.reconcile api name)
      × Emits (IsHandled vitastor_pool) (Pool.reconcile api name)
writes-IsHandled api name = (
  Emits-weaken (Cluster.reconcile api name) (λ e h. (cluster-IsGranted e h, cluster-IsWatched e h))
      (cluster_calls api name),
  Emits-weaken (Node.reconcile api name) (λ e h. (node-IsGranted e h, node-IsWatched e h))
      (node_calls api name),
  Emits-weaken (Osd.reconcile api name) (λ e h. (osd-IsGranted e h, osd-IsWatched e h))
      (osd_calls api name),
  Emits-weaken (Pool.reconcile api name) (λ e h. (pool-IsGranted e h, pool-IsWatched e h))
      (pool_calls api name),
)
