-- ===== src/Pool/Held.antt =====
-- What the pool's reconciler writes to.
use vitastor_operator.Prelude.{String, ◌≡◌, true, Option, none, some}
use vitastor_operator.Go.Map.{Entries, assign}
use vitastor_operator.Types.{Kind, Meta, VitastorPool, StorageClass}
use vitastor_operator.Flow.{ok}
use vitastor_operator.Api.{Api, VitastorPoolConfig, EtcdResponse, referred}
use vitastor_operator.Api.Laws.{is_ok, found, key_of, cluster_scoped}
use vitastor_operator.Pool.{pool_config}
use vitastor_operator.Pool.Entry
use vitastor_operator.Pool.Entry.{encoded, entered}

-- The pools that etcd holds, and the pool's storage class.
pub record Held : Type 0 where
  pub pools : Entries VitastorPoolConfig
  pub class : Option StorageClass

-- An etcd and a server that hold these, the storage class under the pool's name, answer each get,
-- accept each put and the creation of a missing class of that name, that nobody else writes to, and
-- whose pools can be encoded together with the pool's configuration. A pool and a storage class are
-- got by their names alone: they are cluster scoped.
pub record PoolStore {W : Type 0} (api : Api W) (pool : VitastorPool) (path : String) : Type 0 where
  pub held : W → Held
  pub owned : Meta → Meta
  pub sets_owner :
      (m : Meta)
      → api.library.set_controller_reference Kind.vitastor_pool pool.meta (some m)
        ≡ referred (owned m)
  pub keeps_key : (m : Meta) → key_of (owned m) ≡ key_of m
  pub gets_pool : (w : W) → (api.kube.get_pool (cluster_scoped pool.meta.name) w).0 ≡ ok pool
  pub get_pool_keeps :
      (w : W) → held (api.kube.get_pool (cluster_scoped pool.meta.name) w).1 ≡ held w
  pub gets :
      (w : W)
      → (raw : EtcdResponse) × ((api.etcd.get path w).0 ≡ ok raw)
        × (Entry.held api raw ≡ some (held w).pools)
  pub get_keeps : (w : W) → held (api.etcd.get path w).1 ≡ held w
  pub encodes :
      (w : W)
      → is_ok (api.codec.encode_pools (assign pool.spec.id (pool_config pool) (held w).pools))
        ≡ true
  pub put_ok : (text : String) (w : W) → is_ok (api.etcd.put path text w).0 ≡ true
  pub puts :
      (text : String) (m : Entries VitastorPoolConfig) (w : W)
      → api.codec.decode_pools text ≡ ok (some m)
      → held (api.etcd.put path text w).1 ≡ record (held w) { pools = m }
  pub gets_class :
      (w : W)
      → (api.kube.get_storage_class (cluster_scoped pool.meta.name) w).0 ≡ found (held w).class
  pub get_class_keeps :
      (w : W) → held (api.kube.get_storage_class (cluster_scoped pool.meta.name) w).1 ≡ held w
  pub create_ok :
      (c : StorageClass) (w : W)
      → key_of c.meta ≡ cluster_scoped pool.meta.name
      → (held w).class ≡ none
      → is_ok (api.kube.create_storage_class c w).0 ≡ true
  pub creates :
      (c : StorageClass) (w : W)
      → key_of c.meta ≡ cluster_scoped pool.meta.name
      → (held w).class ≡ none
      → held (api.kube.create_storage_class c w).1 ≡ record (held w) { class = some c }
