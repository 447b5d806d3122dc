-- ===== src/Osd.antt =====
-- VitastorOSDReconciler (controllers/vitastorosd_controller.go): one stateful set for each OSD.
pub mod Calls
pub mod Safety
pub mod Settles
pub mod Workload
use vitastor_operator.Prelude.{String, true, [], ◌∷◌, Option, none, some, ◌==◌, if◌then◌else◌}
use vitastor_operator.Prelude.Int.{ℤ, pos, int32}
use vitastor_operator.Go.Map.{Entries}
use vitastor_operator.Types.{Kind, Meta, VitastorOsd, StatefulSet}
use vitastor_operator.Types.Images.{image_of, with_image}
use vitastor_operator.Types.Volumes.{host_mounts, host_volumes}
use vitastor_operator.Flow.{
  Result, ok, err, not_found, failed, Action, no_requeue, requeue_now, pure, return, ◌>>=◌, ◌>>◌,
  or_fail, or_skip, or_crash,
}
use vitastor_operator.Api.{Api}
use vitastor_operator.Api.Calls.{ask, create_stateful_set, update_stateful_set, set_owner}
use vitastor_operator.Config.{env_or, namespace, parse_int}

abbrev pub osd_labels : VitastorOsd → Entries String
osd_labels osd = ("osdName", osd.meta.name) ∷ ("node", osd.spec.node_name) ∷ []

-- The stateful set of an OSD, with the container's port.
unfoldable pub stateful_set_of : String → VitastorOsd → ℤ → StatefulSet
stateful_set_of ns osd container_port = record {
  meta = record { namespace = ns; name = osd.meta.name; owners = [] };
  replicas = some (int32 (pos 1));
  match_labels = osd_labels osd;
  template = record {
    labels = osd_labels osd;
    spec = record {
      node_name = osd.spec.node_name;
      node_selector = [];
      containers =
          record {
            name = "vitastor-osd";
            image = osd.spec.osd_image;
            command = "vitastor-disk" ∷ [];
            args = "exec-osd" ∷ osd.spec.osd_path ∷ [];
            limits = ("cpu", "1000m") ∷ [];
            volume_mounts = host_mounts;
            privileged = some true;
            ports = container_port ∷ [];
          }
          ∷ [];
      priority_class_name = "system-cluster-critical";
      volumes = host_volumes;
    };
  };
}

-- The object that a constructor returned, and its metadata; with an error it returned nil.
abbrev object_of_result : Result StatefulSet → Option StatefulSet
object_of_result (ok sts) = some sts
object_of_result (err e) = none

abbrev meta_of_result : Result StatefulSet → Option Meta
meta_of_result (ok sts) = some sts.meta
meta_of_result (err e) = none

abbrev configured : String → VitastorOsd → Result ℤ → Result StatefulSet
configured ns osd (ok cp) = ok (stateful_set_of ns osd (int32 cp))
configured ns osd (err e) = err e

module _ {W : Type 0} (api : Api W) where
  unfoldable pub get_configuration : VitastorOsd → Result StatefulSet
  get_configuration osd =
      configured (namespace api) osd (parse_int (env_or api "CONTAINER_PORT" "5666"))

  -- The owner is set before the constructor's error is looked at, and the log entry of that error
  -- reads the object, which is nil then.
  unfoldable pub create_sts : VitastorOsd → Action W (Unit {0})
  create_sts osd = do
    meta ← set_owner api Kind.vitastor_osd osd.meta (meta_of_result (get_configuration osd))
    sts ← or_crash (object_of_result (get_configuration osd))
    answer ← create_stateful_set api (record sts { meta = meta })
    _ ← or_fail answer
    return requeue_now none

  unfoldable pub sync_image : VitastorOsd → StatefulSet → Action W (Unit {0})
  sync_image osd sts = do
    image ← or_crash (image_of sts.template)
    if image == osd.spec.osd_image then pure tt else do
      answer ←
          update_stateful_set api
            (record sts { template = with_image osd.spec.osd_image sts.template })
      _ ← or_fail answer
      pure tt

  unfoldable pub check_sts : VitastorOsd → Result StatefulSet → Action W (Unit {0})
  check_sts osd (err not_found) = create_sts osd
  check_sts osd (err (failed m)) = return no_requeue (some (failed m))
  check_sts osd (ok sts) = sync_image osd sts

  unfoldable pub reconcile : String → Action W (Unit {0})
  reconcile name = do
    found ← ask (api.kube.get_osd (record { namespace = ""; name = name }))
    osd ← or_skip found
    sts ←
        ask (api.kube.get_stateful_set (record { namespace = namespace api; name = osd.meta.name }))
    check_sts osd sts
    return no_requeue none
