-- ===== src/Pool/Calls.antt =====
-- Which calls the pool's reconciler makes, whatever the world answers.
use vitastor_operator.Prelude.{String, ◌<>◌, ◌≡◌, arith}
use vitastor_operator.Types.{VitastorPool, StorageClass}
use vitastor_operator.Types.Object.{Object, storage_class}
use vitastor_operator.Flow.{Event, etcd_put, created, Action, Result, ◌>>=◌}
use vitastor_operator.Flow.Order.{IsConnection}
use vitastor_operator.Flow.Rules.{Emits, emits_rules}
use vitastor_operator.Api.{Api, VitastorConfig}
use vitastor_operator.Api.Calls.{set_owner}
use vitastor_operator.Config.Rules.{Managed, IsReleased, Emits-with_etcd, with_etcd-IsReleased}
use vitastor_operator.Pool.{
  decode_pools, put_pools, check_storage_class, reconcile_pool, reconcile, get_storage_class_config,
}

abbrev pub IsStorageClass : Object → Type 0
IsStorageClass (storage_class c) = Unit
IsStorageClass _ = ⊥

-- The pools are put, and storage classes are created.
abbrev pub PoolCall : String → Event → Type 0
PoolCall prefix (etcd_put k v) = k ≡ prefix <> "/config/pools"
PoolCall prefix (created o) = IsStorageClass o
PoolCall prefix _ = ⊥

module _ {W : Type 0} (api : Api W) (config : VitastorConfig) where
  abbrev Fine : {A : Type 0} → Action W A → Type 0
  Fine m = Emits (PoolCall config.vitastor_prefix) m

  put_pools-Fine :
      (pool : VitastorPool) → Fine (put_pools api (config.vitastor_prefix <> "/config/pools") pool)
  unfolding put_pools decode_pools ◌>>=◌
  put_pools-Fine pool = record { at = λ w. ground arith }

  check_storage_class-Fine :
      (pool : VitastorPool) (r : Result StorageClass) → Fine (check_storage_class api pool r)
  unfolding check_storage_class set_owner get_storage_class_config ◌>>=◌
  check_storage_class-Fine pool r = record { at = λ w. ground arith }

  reconcile_pool-Fine : (name : String) → Fine (reconcile_pool api name config)
  unfolding reconcile_pool
  reconcile_pool-Fine name =
      search (emits_rules, put_pools-Fine, check_storage_class-Fine, tt) depth 12

apart : (prefix : String) (e : Event) → PoolCall prefix e → ¬ IsConnection e
apart prefix e h = ground arith

module _ {W : Type 0} (api : Api W) (name : String) where
  -- Whatever the world answers, a run of the pool's reconciler makes these calls alone: it opens and
  -- closes the configuration and the etcd client; it puts the pools, below some prefix; it creates
  -- storage classes. It updates and deletes nothing.
  pub pool_calls : Emits (Managed PoolCall) (reconcile api name)
  unfolding reconcile
  pool_calls =
      Emits-with_etcd api PoolCall (reconcile_pool api name)
        λ config. reconcile_pool-Fine api config name

  -- However the run ends, it has closed as many etcd clients and files as it opened.
  pub pool-IsReleased : (w : W) → IsReleased (reconcile api name w).events
  unfolding reconcile
  pool-IsReleased w =
      with_etcd-IsReleased api PoolCall (reconcile_pool api name)
        (λ config. reconcile_pool-Fine api config name) apart w
