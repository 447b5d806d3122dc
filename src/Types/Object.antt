-- ===== src/Types/Object.antt =====
-- The objects that the operator writes through the Kubernetes client.
use vitastor_operator.Types.Metadata.{Kind, Meta}
use vitastor_operator.Types.Crd.{VitastorNode, VitastorOsd}
use vitastor_operator.Types.Workload.{Deployment, DaemonSet, StatefulSet, StorageClass}

pub data Object : Type 0 where
  deployment : Deployment → Object
  daemon_set : DaemonSet → Object
  stateful_set : StatefulSet → Object
  storage_class : StorageClass → Object
  vitastor_node : VitastorNode → Object
  vitastor_osd : VitastorOsd → Object

abbrev pub kind_of : Object → Kind
kind_of (deployment d) = Kind.deployment
kind_of (daemon_set d) = Kind.daemon_set
kind_of (stateful_set s) = Kind.stateful_set
kind_of (storage_class c) = Kind.storage_class
kind_of (vitastor_node n) = Kind.vitastor_node
kind_of (vitastor_osd o) = Kind.vitastor_osd

abbrev pub meta_of : Object → Meta
meta_of (deployment d) = d.meta
meta_of (daemon_set d) = d.meta
meta_of (stateful_set s) = s.meta
meta_of (storage_class c) = c.meta
meta_of (vitastor_node n) = n.meta
meta_of (vitastor_osd o) = o.meta
