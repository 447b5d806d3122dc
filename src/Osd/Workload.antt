-- ===== src/Osd/Workload.antt =====
-- The OSD's stateful set: what a run leaves it at.
use vitastor_operator.Prelude.{
  String, ◌≡◌, refl, map, ◌↔◌, [], ◌∷◌, none, some, arith, eq_iff, eq_refl,
}
use vitastor_operator.Prelude.Int.{ℤ, int32}
use vitastor_operator.Types.{Container, Kind, Meta, VitastorOsd, StatefulSet}
use vitastor_operator.Types.Images.{image_of}
use vitastor_operator.Types.Object.{stateful_set}
use vitastor_operator.Flow.{
  Error, Flow, no_requeue, ok, err, not_found, created, next, exit, panic, Succeeded, requeue_now,
  ◌>>=◌,
}
use vitastor_operator.Api.{Api, Reference, referred, refused, crashed}
use vitastor_operator.Api.Calls.{set_owner}
use vitastor_operator.Config.{env_or, parse_int}
use vitastor_operator.Osd.{stateful_set_of, get_configuration, create_sts, sync_image, check_sts}
use vitastor_operator.Config.{namespace}

module _ {W : Type 0} (api : Api W) (osd : VitastorOsd) where
  -- A stateful set is left alone exactly when it has the OSD's image.
  check_sts_quiet :
      (sts : StatefulSet) (image : String) (w : W)
      → image_of sts.template ≡ some image
      → ((check_sts api osd (ok sts) w).events ≡ []) ↔ (image ≡ osd.spec.osd_image)
  unfolding check_sts sync_image ◌>>=◌
  check_sts_quiet sts image w h = ground (arith, eq_iff image osd.spec.osd_image)

  configured : Meta → ℤ → StatefulSet
  configured m port = record (stateful_set_of (namespace api) osd (int32 port)) { meta = m }

  create_sts-call :
      (r : Reference) (port : ℤ) (w : W)
      → parse_int (env_or api "CONTAINER_PORT" "5666") ≡ ok port
      → api.library.set_controller_reference Kind.vitastor_osd osd.meta
          (some (stateful_set_of (namespace api) osd (int32 port)).meta)
        ≡ r
      → Succeeded (create_sts api osd w).flow
      → (m : Meta) × ((create_sts api osd w).events
          ≡ created (stateful_set (configured m port)) ∷ [])
        × ((create_sts api osd w).flow ≡ exit (record { result = requeue_now; error = none }))
  unfolding create_sts get_configuration set_owner configured ◌>>=◌
  create_sts-call (referred m) port w p e h = (m, ground arith, ground arith)
  create_sts-call (refused x) port w p e h = absurd (ground arith)
  create_sts-call crashed port w p e h = absurd (ground arith)

  configured-quiet :
      (m : Meta) (port : ℤ) (v : W)
      → ((check_sts api osd (ok (configured m port)) v).flow ≡ next tt)
        × ((check_sts api osd (ok (configured m port)) v).events ≡ [])
  unfolding configured check_sts sync_image stateful_set_of ◌>>=◌
  configured-quiet m port v = ground (arith, eq_refl osd.spec.osd_image)

  -- A missing stateful set, where the container's port is a number: if the run ends without an
  -- error, it made one call, which creates a stateful set that is pinned to the OSD's node and
  -- runs on the OSD's path, and asks to run again at once; and the check of that stateful set
  -- then goes on and makes no call.
  pub missing_sts_settles :
      (port : ℤ) (w v : W)
      → parse_int (env_or api "CONTAINER_PORT" "5666") ≡ ok port
      → Succeeded (check_sts api osd (err not_found) w).flow
      → (sts : StatefulSet) × ((check_sts api osd (err not_found) w).events
          ≡ created (stateful_set sts) ∷ [])
        × ((check_sts api osd (err not_found) w).flow
            ≡ exit (record { result = requeue_now; error = none }))
        × (sts.template.spec.node_name ≡ osd.spec.node_name)
        × (map (λ (c : Container). c.args) sts.template.spec.containers
            ≡ ("exec-osd" ∷ osd.spec.osd_path ∷ []) ∷ [])
        × ((check_sts api osd (ok sts) v).flow ≡ next tt)
        × ((check_sts api osd (ok sts) v).events ≡ [])
  unfolding check_sts configured stateful_set_of
  missing_sts_settles port w v p h =
      let (m, es, f) = create_sts-call _ port w p refl h in
      let (f', es') = configured-quiet m port v in (configured m port, es, f, refl, refl, f', es')

  -- What a run returns that meets an error of the constructor, from the outcome of setting the owner
  -- on a nil object.
  abbrev pub unconfigured : Reference → Flow (Unit {0})
  unconfigured (referred m) = panic
  unconfigured (refused x) = exit (record { result = no_requeue; error = some x })
  unconfigured crashed = panic

  -- A missing stateful set, where the container's port is no number: the run makes no call. It
  -- returns the library's error if the library refuses to set the owner of a nil object, and else
  -- it panics.
  pub bad_port :
      (w : W) (e : Error)
      → parse_int (env_or api "CONTAINER_PORT" "5666") ≡ err e
      → ((check_sts api osd (err not_found) w).events ≡ [])
        × ((check_sts api osd (err not_found) w).flow
            ≡ unconfigured (api.library.set_controller_reference Kind.vitastor_osd osd.meta none))
  unfolding check_sts create_sts get_configuration set_owner ◌>>=◌
  bad_port w e p = (ground arith, ground arith)
