-- ===== src/Cluster/Monitor.antt =====
-- The monitor's deployment: what a run leaves it at.
use vitastor_operator.Prelude.{
  String, ◌≡◌, ◌↔◌, refl, List, [], ◌∷◌, ◌++◌, none, some, arith, eq_iff, eq_refl,
}
use vitastor_operator.Prelude.Int.{ℤ, int32, int_eq_sound, int_eq_refl}
use vitastor_operator.Types.{VitastorCluster, Deployment, Meta, Kind}
use vitastor_operator.Types.Images.{image_of, with_image, with_image_same}
use vitastor_operator.Types.Object.{deployment}
use vitastor_operator.Flow.{
  ok, err, not_found, Event, created, updated, next, exit, Succeeded, requeue_now, or_crash, ◌>>=◌,
}
use vitastor_operator.Flow.Rules.{>>=-eq-next}
use vitastor_operator.Api.{Api, Reference, referred, refused, crashed}
use vitastor_operator.Api.Calls.{set_owner}
use vitastor_operator.Api.Laws.{EchoesDeployments}
use vitastor_operator.Cluster.{
  create_monitor, sync_monitor_image, sync_monitor_replicas, check_monitor,
}
use vitastor_operator.Cluster.Templates.{monitor_deployment}

-- The deployment as the cluster's specification wants it.
abbrev pub desired : VitastorCluster → Deployment → Deployment
desired cluster depl = record depl {
  template = with_image cluster.spec.monitor_image depl.template;
  replicas = some (int32 cluster.spec.monitor_replica_num);
}

-- The deployment after the calls: the last one that was sent, or the one given.
unfoldable pub latest : Deployment → List Event → Deployment
latest depl [] = depl
latest depl (updated (deployment d) ∷ es) = latest d es
latest depl (e ∷ es) = latest depl es

latest-append :
    (depl : Deployment) (es fs : List Event) → latest depl (es ++ fs) ≡ latest (latest depl es) fs
unfolding latest
latest-append depl [] fs = refl
latest-append depl (updated (deployment d) ∷ es) fs = latest-append d es fs
latest-append depl (e ∷ es) fs = latest-append depl es fs

module _ {W : Type 0} (api : Api W) (cluster : VitastorCluster) where
  -- A deployment that the API server could hold is left alone exactly when it has the image and the
  -- number of replicas of the specification.
  pub check_monitor_quiet :
      (depl : Deployment) (image : String) (replicas : ℤ) (w : W)
      → image_of depl.template ≡ some image
      → depl.replicas ≡ some replicas
      → ((check_monitor api cluster (ok depl) w).events ≡ []) ↔ (
          (image ≡ cluster.spec.monitor_image)
          × (replicas ≡ int32 cluster.spec.monitor_replica_num))
  unfolding check_monitor sync_monitor_image sync_monitor_replicas ◌>>=◌
  check_monitor_quiet depl image replicas w h k = ground (
    arith,
    eq_iff image cluster.spec.monitor_image,
    int_eq_sound replicas (int32 cluster.spec.monitor_replica_num),
    int_eq_refl replicas,
  )

  sync_image_settles :
      EchoesDeployments api
      → (depl : Deployment) (image : String) (w : W) {d : Deployment}
      → image_of depl.template ≡ some image
      → (sync_monitor_image api cluster depl w).flow ≡ next d
      → (d ≡ record depl { template = with_image cluster.spec.monitor_image depl.template })
        × (latest depl (sync_monitor_image api cluster depl w).events ≡ d)
  unfolding sync_monitor_image latest ◌>>=◌
  sync_image_settles echo depl image w {d} i h = ground (
    arith,
    echo (record depl { template = with_image cluster.spec.monitor_image depl.template }) d w,
    echo (record depl { template = with_image cluster.spec.monitor_image depl.template }) d
        (or_crash {W = W} (image_of depl.template) w).world,
    with_image_same depl.template image,
    eq_iff image cluster.spec.monitor_image,
  )

  sync_replicas_settles :
      (depl : Deployment) (replicas : ℤ) (w : W)
      → depl.replicas ≡ some replicas
      → (sync_monitor_replicas api cluster depl w).flow ≡ next tt
      → latest depl (sync_monitor_replicas api cluster depl w).events
        ≡ record depl { replicas = some (int32 cluster.spec.monitor_replica_num) }
  unfolding sync_monitor_replicas latest ◌>>=◌
  sync_replicas_settles depl replicas w r h =
      ground (arith, int_eq_sound replicas (int32 cluster.spec.monitor_replica_num))

  -- If the check of a deployment goes on, the deployment that was written last, or the one that was
  -- found if none was written, has the image and the number of replicas of the specification and
  -- is otherwise the one that was found. The server is to return the deployment that it is sent,
  -- and a deployment has a container and a number of replicas.
  pub check_monitor_settles :
      EchoesDeployments api
      → (depl : Deployment) (image : String) (replicas : ℤ) (w : W)
      → image_of depl.template ≡ some image
      → depl.replicas ≡ some replicas
      → (check_monitor api cluster (ok depl) w).flow ≡ next tt
      → latest depl (check_monitor api cluster (ok depl) w).events ≡ desired cluster depl
  unfolding check_monitor
  check_monitor_settles echo depl image replicas w i r h =
      let (d, e, f, es, _) =
        >>=-eq-next (sync_monitor_image api cluster depl) (sync_monitor_replicas api cluster) w h in
      let (found, sent) = sync_image_settles echo depl image w i e in
      rw (es, latest-append, sent)
        (rw (sync_replicas_settles d replicas _ (rw found r) f) (rw found))

  configured : Meta → Deployment
  configured m = record (monitor_deployment api cluster) { meta = m }

  create_monitor-call :
      (r : Reference) (w : W)
      → api.library.set_controller_reference Kind.vitastor_cluster cluster.meta
          (some (monitor_deployment api cluster).meta)
        ≡ r
      → Succeeded (create_monitor api cluster w).flow
      → (m : Meta) × ((create_monitor api cluster w).events
          ≡ created (deployment (configured m)) ∷ [])
        × ((create_monitor api cluster w).flow
            ≡ exit (record { result = requeue_now; error = none }))
  unfolding create_monitor set_owner configured ◌>>=◌
  create_monitor-call (referred m) w e h = (m, ground arith, ground arith)
  create_monitor-call (refused x) w e h = absurd (ground arith)
  create_monitor-call crashed w e h = absurd (ground arith)

  configured-quiet :
      (m : Meta) (v : W)
      → ((check_monitor api cluster (ok (configured m)) v).flow ≡ next tt)
        × ((check_monitor api cluster (ok (configured m)) v).events ≡ [])
  unfolding configured check_monitor sync_monitor_image sync_monitor_replicas monitor_deployment
      ◌>>=◌
  configured-quiet m v = ground (
    arith,
    eq_refl cluster.spec.monitor_image,
    int_eq_refl (int32 cluster.spec.monitor_replica_num),
  )

  -- A missing deployment: if the run ends without an error, it made one call, which creates the
  -- configured deployment, and asks to run again at once; and the check of that deployment then
  -- goes on and makes no call.
  missing_monitor_settles :
      (w v : W)
      → Succeeded (check_monitor api cluster (err not_found) w).flow
      → (depl : Deployment) × ((check_monitor api cluster (err not_found) w).events
          ≡ created (deployment depl) ∷ [])
        × ((check_monitor api cluster (err not_found) w).flow
            ≡ exit (record { result = requeue_now; error = none }))
        × ((check_monitor api cluster (ok depl) v).flow ≡ next tt)
        × ((check_monitor api cluster (ok depl) v).events ≡ [])
  unfolding check_monitor
  missing_monitor_settles w v h =
      let (m, es, f) = create_monitor-call _ w refl h in
      let (f', es') = configured-quiet m v in (configured m, es, f, f', es')
