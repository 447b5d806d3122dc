-- ===== src/Manager/Watches.antt =====
-- What the reconcilers create, and what the manager watches.
use vitastor_operator.Prelude.{◌≡◌, ◌⊎◌, List, [], ◌∷◌, arith}
use vitastor_operator.Types.{Kind}
use vitastor_operator.Types.Object.{kind_of}
use vitastor_operator.Flow.{Event, created}
use vitastor_operator.Config.Rules.{Managed}
use vitastor_operator.Cluster.Calls.{ClusterCall}
use vitastor_operator.Node.Calls.{NodeCall}
use vitastor_operator.Osd.Calls.{OsdCall}
use vitastor_operator.Pool.Calls.{PoolCall}
use vitastor_operator.Manager.{owns}

abbrev pub IsOneOf : Kind → List Kind → Type 0
IsOneOf k [] = ⊥
IsOneOf k (j ∷ js) = (k ≡ j) ⊎ IsOneOf k js

-- If the call creates an object, the controller for the kind watches objects of that kind.
abbrev pub IsWatched : Kind → Event → Type 0
IsWatched k (created o) = IsOneOf (kind_of o) (owns k)
IsWatched k _ = Unit

pub cluster-IsWatched : (e : Event) → Managed ClusterCall e → IsWatched Kind.vitastor_cluster e
unfolding owns
cluster-IsWatched e h = ground arith

pub node-IsWatched : (e : Event) → Managed NodeCall e → IsWatched Kind.vitastor_node e
unfolding owns
node-IsWatched e h = ground arith

pub osd-IsWatched : (e : Event) → OsdCall e → IsWatched Kind.vitastor_osd e
unfolding owns
osd-IsWatched e h = ground arith

pub pool-IsWatched : (e : Event) → Managed PoolCall e → IsWatched Kind.vitastor_pool e
unfolding owns
pool-IsWatched e h = ground arith
