-- ===== src/Osd/Settles.antt =====
-- Two runs of the OSD's reconciler, one after the other.
use vitastor_operator.Prelude.{
  ◌≡◌, ◌∙◌, refl, true, [], Option, none, some, arith, eq_iff, eq_refl, Option-cases, inl, inr,
}
use vitastor_operator.Prelude.Int.{ℤ, int32}
use vitastor_operator.Types.{Kind, Meta, NamespacedName, VitastorOsd, StatefulSet}
use vitastor_operator.Types.Images.{image_of, with_image, with_image_same, image_of-with_image}
use vitastor_operator.Flow.{ok, exit, no_requeue, ◌>>=◌}
use vitastor_operator.Api.{Api, referred}
use vitastor_operator.Api.Calls.{set_owner}
use vitastor_operator.Api.Laws.{is_ok, found, key_of, HasContainer, cluster_scoped}
use vitastor_operator.Config.{namespace, env_or, parse_int}
use vitastor_operator.Osd.{
  stateful_set_of, get_configuration, create_sts, sync_image, check_sts, reconcile,
}

module _ {W : Type 0} (api : Api W) (osd : VitastorOsd) where
  abbrev pub set_key : NamespacedName
  set_key = record { namespace = namespace api; name = osd.meta.name }

  -- A server that has the OSD and holds its stateful set, if there is one, under the key that the
  -- reconciler gets it by: a set is held after its creation if it has that key, and after its update if
  -- the one held has the same metadata. The server accepts each such creation and update, answers each
  -- get, and nobody else writes to it.
  pub record SetStore : Type 0 where
    pub held : W → Option StatefulSet
    pub owned : Meta → Meta
    pub sets_owner :
        (m : Meta)
        → api.library.set_controller_reference Kind.vitastor_osd osd.meta (some m)
          ≡ referred (owned m)
    pub keeps_key : (m : Meta) → key_of (owned m) ≡ key_of m
    pub gets_osd : (w : W) → (api.kube.get_osd (cluster_scoped osd.meta.name) w).0 ≡ ok osd
    pub get_osd_keeps :
        (w : W) → held (api.kube.get_osd (cluster_scoped osd.meta.name) w).1 ≡ held w
    pub gets : (w : W) → (api.kube.get_stateful_set set_key w).0 ≡ found (held w)
    pub get_keeps : (w : W) → held (api.kube.get_stateful_set set_key w).1 ≡ held w
    pub create_ok :
        (s : StatefulSet) (w : W)
        → key_of s.meta ≡ set_key
        → held w ≡ none
        → is_ok (api.kube.create_stateful_set s w).0 ≡ true
    pub creates :
        (s : StatefulSet) (w : W)
        → key_of s.meta ≡ set_key
        → held w ≡ none
        → held (api.kube.create_stateful_set s w).1 ≡ some s
    pub update_ok :
        (s s₀ : StatefulSet) (w : W)
        → held w ≡ some s₀
        → s.meta ≡ s₀.meta
        → is_ok (api.kube.update_stateful_set s w).0 ≡ true
    pub updates :
        (s s₀ : StatefulSet) (w : W)
        → held w ≡ some s₀
        → s.meta ≡ s₀.meta
        → held (api.kube.update_stateful_set s w).1 ≡ some s

  abbrev pub ValidSet : Option StatefulSet → Type 0
  ValidSet none = Unit
  ValidSet (some s) = HasContainer s.template

  -- The configured set of an OSD, and a set with the OSD's image.
  abbrev pub own_set : (Meta → Meta) → ℤ → StatefulSet
  own_set owned port = record (stateful_set_of (namespace api) osd (int32 port)) {
    meta = owned (stateful_set_of (namespace api) osd (int32 port)).meta;
  }

  abbrev pub synced : (Meta → Meta) → ℤ → Option StatefulSet → StatefulSet
  synced owned port none = own_set owned port
  synced owned port (some s) = record s { template = with_image osd.spec.osd_image s.template }

module _ {W : Type 0} (api : Api W) (osd : VitastorOsd) (store : SetStore api osd) (port : ℤ)
    (number : parse_int (env_or api "CONTAINER_PORT" "5666") ≡ ok port) where
  set_checked :
      (o : Option StatefulSet) (w : W)
      → ValidSet api osd o
      → store.held w ≡ o
      → store.held (check_sts api osd (found o) w).world ≡ some (synced api osd store.owned port o)
  unfolding check_sts create_sts sync_image get_configuration stateful_set_of set_owner ◌>>=◌
  set_checked none w v e =
      let s = own_set api osd store.owned port in
      let key : key_of s.meta ≡ set_key api osd =
        store.keeps_key (stateful_set_of (namespace api) osd (int32 port)).meta in
      ground (
        arith,
        number,
        store.sets_owner (stateful_set_of (namespace api) osd (int32 port)).meta,
        store.create_ok s w key e,
        store.creates s w key e,
      )
  set_checked (some s) w v e = elim (Option-cases (image_of s.template)) [
    | inl i ↦ absurd (ground arith)
    | inr (image, i) ↦
        let s' = synced api osd store.owned port (some s) in
        ground (
          arith,
          with_image_same s.template image,
          eq_iff image osd.spec.osd_image,
          store.update_ok s' s w e refl,
          store.updates s' s w e refl,
        )
  ]

  synced_image :
      (o : Option StatefulSet)
      → ValidSet api osd o
      → image_of (synced api osd store.owned port o).template ≡ some osd.spec.osd_image
  unfolding stateful_set_of
  synced_image none v = ground arith
  synced_image (some s) v = elim (Option-cases (image_of s.template)) [
    | inl i ↦ absurd (ground arith)
    | inr (image, i) ↦ image_of-with_image s.template image osd.spec.osd_image i
  ]

  run_checked :
      (w : W)
      → ValidSet api osd (store.held w)
      → store.held (reconcile api osd.meta.name w).world
        ≡ some (synced api osd store.owned port (store.held w))
  unfolding reconcile ◌>>=◌
  run_checked w v =
      let v₁ = (api.kube.get_osd (cluster_scoped osd.meta.name) w).1 in
      let v₂ = (api.kube.get_stateful_set (set_key api osd) v₁).1 in
      let kept : store.held v₂ ≡ store.held w = store.get_keeps v₁ ∙ store.get_osd_keeps w in
      ground (
        arith,
        store.gets_osd w,
        store.gets v₁,
        store.get_osd_keeps w,
        set_checked (store.held w) v₂ v kept,
      )

  run_quiet :
      (s : StatefulSet) (w : W)
      → store.held w ≡ some s
      → image_of s.template ≡ some osd.spec.osd_image
      → ((reconcile api osd.meta.name w).flow ≡ exit (record { result = no_requeue; error = none }))
        × ((reconcile api osd.meta.name w).events ≡ [])
  unfolding reconcile check_sts sync_image ◌>>=◌
  run_quiet s w e i =
      let v₁ = (api.kube.get_osd (cluster_scoped osd.meta.name) w).1 in
      ground
        (arith, store.gets_osd w, store.get_osd_keeps w, store.gets v₁, eq_refl osd.spec.osd_image)

  -- One run leaves the configured stateful set if there was none, and else the one that there was
  -- with the OSD's image; and the next run writes nothing, and asks for no other. The container's
  -- port is to be a number, the set that is there to have a container, the server to answer every get
  -- and to accept the creation of a missing set under the OSD's name and the update of the one that it
  -- holds, setting the OSD as an owner to be possible and to change no key, and nobody else is to write
  -- to the server.
  pub osd_settles :
      (w : W)
      → ValidSet api osd (store.held w)
      → (store.held (reconcile api osd.meta.name w).world
          ≡ some (synced api osd store.owned port (store.held w)))
        × ((reconcile api osd.meta.name (reconcile api osd.meta.name w).world).flow
            ≡ exit (record { result = no_requeue; error = none }))
        × ((reconcile api osd.meta.name (reconcile api osd.meta.name w).world).events ≡ [])
  osd_settles w v =
      let e = run_checked w v in
      let (f, q) = run_quiet _ _ e (synced_image (store.held w) v) in (e, f, q)
