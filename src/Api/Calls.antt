-- ===== src/Api/Calls.antt =====
-- The calls that write, with the event of each.
use vitastor_operator.Prelude.{String, List, [], ◌∷◌, Option, some}
use vitastor_operator.Types.{
  Kind, Meta, VitastorNode, VitastorOsd, Deployment, DaemonSet, StatefulSet, StorageClass,
}
use vitastor_operator.Types.Object.{
  deployment, daemon_set, stateful_set, storage_class, vitastor_node, vitastor_osd,
}
use vitastor_operator.Flow.{
  Result, Event, etcd_put, created, updated, deleted, status_updated, Action, no_requeue, pure,
  return, crash, call,
}
use vitastor_operator.Api.{Api, Reference, referred, refused, crashed}

-- An answer that is not looked at yet, with no event.
abbrev pub ask : {W A : Type 0} → (W → A × W) → Action W A
ask f = call f []

-- Something acquired or released.
abbrev pub emit : {W : Type 0} → List Event → Action W (Unit {0})
emit es = call (λ w. (tt, w)) es

module _ {W : Type 0} (api : Api W) where
  abbrev pub put : String → String → Action W (Result (Unit {0}))
  put k v = call (api.etcd.put k v) (etcd_put k v ∷ [])

  abbrev pub create_deployment : Deployment → Action W (Result Deployment)
  create_deployment d = call (api.kube.create_deployment d) (created (deployment d) ∷ [])

  abbrev pub create_daemon_set : DaemonSet → Action W (Result DaemonSet)
  create_daemon_set d = call (api.kube.create_daemon_set d) (created (daemon_set d) ∷ [])

  abbrev pub create_stateful_set : StatefulSet → Action W (Result StatefulSet)
  create_stateful_set s = call (api.kube.create_stateful_set s) (created (stateful_set s) ∷ [])

  abbrev pub create_storage_class : StorageClass → Action W (Result StorageClass)
  create_storage_class c = call (api.kube.create_storage_class c) (created (storage_class c) ∷ [])

  abbrev pub create_node : VitastorNode → Action W (Result VitastorNode)
  create_node n = call (api.kube.create_node n) (created (vitastor_node n) ∷ [])

  abbrev pub create_osd : VitastorOsd → Action W (Result VitastorOsd)
  create_osd o = call (api.kube.create_osd o) (created (vitastor_osd o) ∷ [])

  abbrev pub update_deployment : Deployment → Action W (Result Deployment)
  update_deployment d = call (api.kube.update_deployment d) (updated (deployment d) ∷ [])

  abbrev pub update_daemon_set : DaemonSet → Action W (Result DaemonSet)
  update_daemon_set d = call (api.kube.update_daemon_set d) (updated (daemon_set d) ∷ [])

  abbrev pub update_stateful_set : StatefulSet → Action W (Result StatefulSet)
  update_stateful_set s = call (api.kube.update_stateful_set s) (updated (stateful_set s) ∷ [])

  abbrev pub update_osd : VitastorOsd → Action W (Result VitastorOsd)
  update_osd o = call (api.kube.update_osd o) (updated (vitastor_osd o) ∷ [])

  abbrev pub update_node_status : VitastorNode → Action W (Result VitastorNode)
  update_node_status n =
      call (api.kube.update_node_status n) (status_updated (vitastor_node n) ∷ [])

  abbrev pub delete_osd : VitastorOsd → Action W (Result (Unit {0}))
  delete_osd o = call (api.kube.delete_osd o) (deleted (vitastor_osd o) ∷ [])

  -- The metadata with the owner set, or the error returned.
  abbrev referred_or_fail : Reference → Action W Meta
  referred_or_fail (referred m) = pure m
  referred_or_fail (refused e) = return no_requeue (some e)
  referred_or_fail crashed = crash

  -- `if err := controllerutil.SetControllerReference(…); err != nil { return ctrl.Result{}, err }`
  unfoldable pub set_owner : Kind → Meta → Option Meta → Action W Meta
  set_owner kind owner controlled =
      referred_or_fail (api.library.set_controller_reference kind owner controlled)
