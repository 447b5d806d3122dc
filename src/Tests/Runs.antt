-- ===== src/Tests/Runs.antt =====
-- Whole runs at concrete inputs.
use vitastor_operator.Prelude.{false, ℕ, ◌⊎◌, inl, refl, ◌≡◌, ◌↔◌, Option, none, some, All}
use vitastor_operator.Types.{Kind}
use vitastor_operator.Flow.{Error, not_found}
use vitastor_operator.Flow.Rules.{Emits}
use vitastor_operator.Config.Rules.{Managed, IsReleased}
use vitastor_operator.Cluster
use vitastor_operator.Node
use vitastor_operator.Osd
use vitastor_operator.Pool
use vitastor_operator.Manager.{Setup, complete, Flags, default_flags, main}
use vitastor_operator.Manager.ExitCode.{main_exit, wanted}
use vitastor_operator.Cluster.Calls.{ClusterCall}
use vitastor_operator.Node.Calls.{NodeCall}
use vitastor_operator.Osd.Calls.{OsdCall}
use vitastor_operator.Pool.Calls.{PoolCall}
use vitastor_operator.Flow.Order.{PutsFirst}
use vitastor_operator.Manager.Order.{runs-PutsFirst}
use vitastor_operator.Manager.Runs.{runs_calls, runs-IsReleased}
use vitastor_operator.Manager.Permissions.{IsHandled, writes-IsHandled}
use vitastor_operator.Manager.Rbac.{grants, node_rules}
use vitastor_operator.Tests.Samples.{empty, server}

writes-IsHandled_example :
    Emits (IsHandled Kind.vitastor_cluster) (Cluster.reconcile server "vitastor")
    × Emits (IsHandled Kind.vitastor_node) (Node.reconcile server "vitastor")
    × Emits (IsHandled Kind.vitastor_osd) (Osd.reconcile server "vitastor")
    × Emits (IsHandled Kind.vitastor_pool) (Pool.reconcile server "vitastor")
writes-IsHandled_example = writes-IsHandled server "vitastor"

-- The core group is the empty one: the node's markers grant neither its pods nor its nodes.
pods_not_granted :
    (grants node_rules "" "pods" "list" ≡ false) × (grants node_rules "" "nodes" "get" ≡ false)
unfolding grants
pods_not_granted = (refl, refl)

-- No controller can be completed.
abbrev unregistered : Setup → Option Error
unregistered (complete k) = some not_found
unregistered _ = none

abbrev no_flags : Flags → Flags ⊎ ℕ
no_flags flags = inl flags

main_exit_example : ((main unregistered no_flags).code ≡ 0) ↔ (
    All (λ s. unregistered s ≡ none) (wanted default_flags)
    × ((main unregistered no_flags).made ≡ wanted default_flags))
main_exit_example = main_exit unregistered no_flags default_flags refl

runs_calls_example :
    Emits (Managed ClusterCall) (Cluster.reconcile server "vitastor")
    × Emits (Managed NodeCall) (Node.reconcile server "vitastor")
    × Emits (Managed PoolCall) (Pool.reconcile server "vitastor")
    × Emits OsdCall (Osd.reconcile server "vitastor")
runs_calls_example = runs_calls server "vitastor"

runs-IsReleased_example :
    IsReleased (Cluster.reconcile server "vitastor" empty).events
    × IsReleased (Node.reconcile server "vitastor" empty).events
    × IsReleased (Pool.reconcile server "vitastor" empty).events
runs-IsReleased_example = runs-IsReleased server "vitastor" empty

runs-PutsFirst_example :
    PutsFirst (Cluster.reconcile server "vitastor")
    × PutsFirst (Node.reconcile server "vitastor")
    × PutsFirst (Pool.reconcile server "vitastor")
runs-PutsFirst_example = runs-PutsFirst server "vitastor"
