-- ===== src/Tests/Served.antt =====
-- Runs against a server that validates its workloads.
use vitastor_operator.Prelude.{◌≢◌, refl, Option, none, some, arith}
use vitastor_operator.Prelude.Int.{pos}
use vitastor_operator.Go.Strconv.{atoi}
use vitastor_operator.Types.{Deployment, DaemonSet, StatefulSet, PodTemplate}
use vitastor_operator.Types.Images.{image_of}
use vitastor_operator.Flow.{Result, ok, err, not_found, failed, panic}
use vitastor_operator.Api.{Api}
use vitastor_operator.Api.Laws.{ServesWorkloads}
use vitastor_operator.Api.Memory.{World}
use vitastor_operator.Cluster
use vitastor_operator.Cluster.Safety.{cluster_safe}
use vitastor_operator.Osd
use vitastor_operator.Osd.Safety.{osd_safe}
use vitastor_operator.Tests.Samples.{empty, server, cluster, monitor, set, old}

abbrev with_container : {A : Type 0} → (A → PodTemplate) → A → Result A
with_container template a = elim (image_of (template a)) [
  | none ↦ err (failed "no container")
  | some image ↦ ok a
]

abbrev validated : Deployment → Result Deployment
validated d = elim d.replicas [
  | none ↦ err (failed "no replicas")
  | some n ↦ with_container (λ (x : Deployment). x.template) d
]

abbrev stored : {A : Type 0} → (A → Result A) → Option A → Result A
stored check none = err not_found
stored check (some a) = check a

abbrev validating : Api World
validating = record server {
  kube = record server.kube {
    get_osd = λ q w. (ok old, w);
    get_deployment = λ q w. (stored validated w.deployment, w);
    get_daemon_set =
        λ q w. (stored (with_container (λ (x : DaemonSet). x.template)) w.daemon_set, w);
    get_stateful_set =
        λ q w. (stored (with_container (λ (x : StatefulSet). x.template)) w.stateful_set, w);
    update_deployment = λ d w. (validated d, w);
  };
}

validating-ServesWorkloads : ServesWorkloads validating
validating-ServesWorkloads = record {
  got_deployment = λ q w. ground arith;
  updated_deployment = λ d w. ground arith;
  got_daemon_set = λ q w. ground arith;
  got_stateful_set = λ q w. ground arith;
  owner_is_set = λ kind owner m e. cc;
}

abbrev outdated : World
outdated = record empty {
  cluster = some cluster;
  deployment = some (monitor "monitor:1" (pos 1));
  stateful_set = some (set "osd:1");
}

cluster_safe_example : (Cluster.reconcile validating "vitastor" outdated).flow ≢ panic
cluster_safe_example = cluster_safe validating validating-ServesWorkloads "vitastor" outdated

osd_safe_example : (Osd.reconcile validating "vitastor-osd-1" outdated).flow ≢ panic
unfolding atoi
osd_safe_example =
    osd_safe validating validating-ServesWorkloads (pos 5666) refl "vitastor-osd-1" outdated
