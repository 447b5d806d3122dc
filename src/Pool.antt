-- ===== src/Pool.antt =====
-- VitastorPoolReconciler (controllers/vitastorpool_controller.go): the pool's entry in etcd and its
-- storage class.
pub mod Calls
pub mod Safety
pub mod Held
pub mod Run
pub mod Settles
pub mod Entry
use vitastor_operator.Prelude.{String, ◌<>◌, [], ◌∷◌, Option, none, some, nat_eq, if◌then◌else◌}
use vitastor_operator.Prelude.Int.{pos}
use vitastor_operator.Go.Map.{Entries, assign}
use vitastor_operator.Types.{Kind, VitastorPool, StorageClass}
use vitastor_operator.Flow.{
  Result, ok, err, not_found, failed, Action, no_requeue, requeue_now, pure, return, ◌>>=◌, ◌>>◌,
  or_fail, or_skip, or_crash,
}
use vitastor_operator.Api.{Api, VitastorConfig, VitastorPoolConfig, EtcdResponse, first_value}
use vitastor_operator.Api.Calls.{ask, put, create_storage_class, set_owner}
use vitastor_operator.Config.{with_etcd}

-- The fields that the composite literal leaves out are the zero values.
unfoldable pub pool_config : VitastorPool → VitastorPoolConfig
pool_config pool = record {
  name = pool.meta.name;
  scheme = pool.spec.scheme;
  pg_size = pool.spec.pg_size;
  parity_chunks = pool.spec.parity_chunks;
  pg_min_size = pool.spec.pg_min_size;
  pg_count = pool.spec.pg_count;
  failure_domain = pool.spec.failure_domain;
  max_osd_combinations = pos 0;
  block_size = pos 0;
  immediate_commit = "";
  osd_tags = "";
}

unfoldable pub get_storage_class_config : VitastorPool → Result StorageClass
get_storage_class_config pool = ok (record {
  meta = record { namespace = ""; name = pool.meta.name; owners = [] };
  provisioner = "csi.vitastor.io";
  parameters = ("etcdVolumePrefix", "") ∷ ("poolId", pool.spec.id) ∷ [];
})

module _ {W : Type 0} (api : Api W) where
  -- The map in etcd, or an empty one if the key is not there.
  unfoldable pub decode_pools : EtcdResponse → Action W (Option (Entries VitastorPoolConfig))
  decode_pools raw =
      if nat_eq raw.count 0
      then pure (some [])
      else do value ← or_crash (first_value raw); or_fail (api.codec.decode_pools value)

  -- Writing to a nil map panics.
  unfoldable pub put_pools : String → VitastorPool → Action W (Unit {0})
  put_pools path pool = do
    got ← ask (api.etcd.get path)
    raw ← or_fail got
    decoded ← decode_pools raw
    pools ← or_crash decoded
    encoded ← or_fail (api.codec.encode_pools (assign pool.spec.id (pool_config pool) pools))
    answer ← put api path encoded
    or_fail answer

  unfoldable pub check_storage_class : VitastorPool → Result StorageClass → Action W (Unit {0})
  check_storage_class pool (ok sc) = pure tt
  check_storage_class pool (err (failed m)) = return no_requeue (some (failed m))
  check_storage_class pool (err not_found) = do
    sc ← or_fail (get_storage_class_config pool)
    meta ← set_owner api Kind.vitastor_pool pool.meta (some sc.meta)
    answer ← create_storage_class api (record sc { meta = meta })
    _ ← or_fail answer
    return requeue_now none

  unfoldable pub reconcile_pool : String → VitastorConfig → Action W (Unit {0})
  reconcile_pool name config = do
    found ← ask (api.kube.get_pool (record { namespace = ""; name = name }))
    pool ← or_skip found
    put_pools (config.vitastor_prefix <> "/config/pools") pool
    sc ← ask (api.kube.get_storage_class (record { namespace = ""; name = name }))
    check_storage_class pool sc
    return no_requeue none

  unfoldable pub reconcile : String → Action W (Unit {0})
  reconcile name = with_etcd api (reconcile_pool name)
