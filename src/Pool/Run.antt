-- ===== src/Pool/Run.antt =====
-- A run of the pool's reconciler that is connected to etcd.
use vitastor_operator.Prelude.{
  String, ◌<>◌, ◌≡◌, ◌∙◌, refl, [], ◌∷◌, Option, none, some, arith, ◌==◌, inl, inr, Option-cases,
  if◌then◌else◌,
}
use vitastor_operator.Go.Map.{Entries, lookup, lookup-assign}
use vitastor_operator.Types.{Meta, VitastorPool, StorageClass}
use vitastor_operator.Flow.{
  Ran, Result-cases, err, not_found, exit, next, etcd_put, no_requeue, requeue_now, ◌>>=◌,
}
use vitastor_operator.Api.{Api, VitastorConfig, VitastorPoolConfig}
use vitastor_operator.Api.Calls.{set_owner}
use vitastor_operator.Api.Laws.{RoundTripsPools, cluster_scoped}
use vitastor_operator.Pool.{
  pool_config, decode_pools, put_pools, get_storage_class_config, check_storage_class,
  reconcile_pool,
}
use vitastor_operator.Pool.Entry.{encoded, entered}
use vitastor_operator.Pool.Held.{PoolStore}

module _ {W : Type 0} (api : Api W) (pool : VitastorPool) (config : VitastorConfig)
    (trip : RoundTripsPools api)
    (store : PoolStore api pool (config.vitastor_prefix <> "/config/pools")) where
  abbrev pub path : String
  path = config.vitastor_prefix <> "/config/pools"

  pools_put :
      (w : W)
      → (m : Entries VitastorPoolConfig) × (text : String) × ((put_pools api path pool w).flow
          ≡ next tt)
        × (store.held (put_pools api path pool w).world ≡ record (store.held w) { pools = m })
        × ((put_pools api path pool w).events ≡ etcd_put path text ∷ [])
        × ((k : String)
            → lookup k m ≡ (
                if pool.spec.id == k
                then some (pool_config pool)
                else lookup k (store.held w).pools))
  unfolding put_pools decode_pools ◌>>=◌
  pools_put w =
      let (raw, q, f) = store.gets w in
      let v = (api.etcd.get path w).1 in
      let before = (store.held w).pools in
      elim (Result-cases (encoded api path pool before)) [
        | inr (e, g) ↦ absurd (ground (arith, store.encodes w))
        | inl (text, g) ↦
            let (m, d, same) = trip (entered api path pool before) text g in
            (
              m,
              text,
              ground (arith, store.put_ok text v),
              ground (arith, store.put_ok text v, store.puts text m v d, store.get_keeps w),
              ground arith,
              λ k. same k ∙ lookup-assign pool.spec.id k (pool_config pool) before,
            )
      ]

  abbrev own_class : StorageClass
  own_class = record {
    meta = store.owned (record { namespace = ""; name = pool.meta.name; owners = [] });
    provisioner = "csi.vitastor.io";
    parameters = ("etcdVolumePrefix", "") ∷ ("poolId", pool.spec.id) ∷ [];
  }

  class_created :
      (w : W)
      → (store.held w).class ≡ none
      → ((check_storage_class api pool (err not_found) w).flow
          ≡ exit (record { result = requeue_now; error = none }))
        × (store.held (check_storage_class api pool (err not_found) w).world
            ≡ record (store.held w) { class = some own_class })
  unfolding check_storage_class get_storage_class_config set_owner ◌>>=◌
  class_created w h =
      let meta : Meta = record { namespace = ""; name = pool.meta.name; owners = [] } in
      let key = store.keeps_key meta in
      ground (
        arith,
        store.sets_owner meta,
        store.create_ok own_class w key h,
        store.creates own_class w key h,
      )

  -- The storage class that was there stays; a missing one is created.
  abbrev pub class_after : Option StorageClass → StorageClass
  class_after none = own_class
  class_after (some c) = c

  abbrev pub run : W → Ran W (Unit {0})
  run = reconcile_pool api pool.meta.name config

  pub run_held :
      (w : W)
      → (m : Entries VitastorPoolConfig) × (store.held (run w).world
          ≡ record { pools = m; class = some (class_after (store.held w).class) })
        × ((k : String)
            → lookup k m ≡ (
                if pool.spec.id == k
                then some (pool_config pool)
                else lookup k (store.held w).pools))
  unfolding reconcile_pool check_storage_class ◌>>=◌
  run_held w =
      let v = (api.kube.get_pool (cluster_scoped pool.meta.name) w).1 in
      let (m, text, f, h, e, same) = pools_put v in
      let v' = (put_pools api path pool v).world in
      let v'' = (api.kube.get_storage_class (cluster_scoped pool.meta.name) v').1 in
      (
        m,
        elim (Option-cases (store.held w).class) [
          | inl c ↦ ground (
            arith,
            store.gets_pool w,
            store.get_pool_keeps w,
            f,
            h,
            store.gets_class v',
            store.get_class_keeps v',
            class_created v''
                (ground (arith, c, h, store.get_pool_keeps w, store.get_class_keeps v')),
          )
          | inr (c', c) ↦ ground (
            arith,
            store.gets_pool w,
            store.get_pool_keeps w,
            f,
            h,
            store.gets_class v',
            store.get_class_keeps v',
          )
        ],
        λ k. same k ∙ rw (store.get_pool_keeps w) refl,
      )

  pub run_quiet :
      (c : StorageClass) (w : W)
      → (store.held w).class ≡ some c
      → (text : String) × ((run w).flow ≡ exit (record { result = no_requeue; error = none }))
        × ((run w).events ≡ etcd_put path text ∷ [])
  unfolding reconcile_pool check_storage_class ◌>>=◌
  run_quiet c w h =
      let v = (api.kube.get_pool (cluster_scoped pool.meta.name) w).1 in
      let (m, text, f, held, e, _) = pools_put v in
      let v' = (put_pools api path pool v).world in
      (
        text,
        ground (arith, store.gets_pool w, store.get_pool_keeps w, f, held, store.gets_class v'),
        ground (arith, store.gets_pool w, store.get_pool_keeps w, f, held, e, store.gets_class v'),
      )
