-- ===== src/Pool/Safety.antt =====
-- Panics of the pool's reconciler.
use vitastor_operator.Prelude.{
  String, ◌<>◌, ◌≡◌, ◌≢◌, false, none, some, arith, nat_eq, [], inl, inr, Bool-cases,
}
use vitastor_operator.Types.{Kind, VitastorPool, StorageClass}
use vitastor_operator.Flow.{WhenOk, Result, panic, ◌>>=◌, or_crash, or_fail}
use vitastor_operator.Flow.Safety.{
  Ensures, Any, Ensures-call, Ensures-bind, Ensures-ok, Ensures-or_crash, Ensures-then,
  Ensures-some, Ensures-pure, ensures_rules, not_panic,
}
use vitastor_operator.Api.{Api, VitastorConfig, EtcdResponse, first_value}
use vitastor_operator.Api.Calls.{set_owner}
use vitastor_operator.Api.Laws.{SetsOwners}
use vitastor_operator.Config.{with_etcd}
use vitastor_operator.Config.Safety.{IsConfigured, with_etcd-safe_configured}
use vitastor_operator.Pool.{
  decode_pools, put_pools, check_storage_class, get_storage_class_config, reconcile_pool, reconcile,
}

-- The answer of etcd has a value, and that is not the JSON null.
abbrev pub HoldsPools : {W : Type 0} → Api W → EtcdResponse → Type 0
HoldsPools api raw =
    (text : String) × (first_value raw ≡ some text)
    × WhenOk (λ m. m ≢ none) (api.codec.decode_pools text)

-- An answer of etcd to a get of the pools, under the prefix that the configuration's file gives, that
-- counts keys has a value that is not the JSON null, and
-- to set the owner of an object that is there does not panic.
pub record ServesPools {W : Type 0} (api : Api W) : Type 0 where
  pub kept :
      (config : VitastorConfig) (w : W)
      → IsConfigured api config
      → WhenOk
          (λ raw. nat_eq raw.count 0 ≡ false → HoldsPools api raw)
          (api.etcd.get (config.vitastor_prefix <> "/config/pools") w).0
  pub sets_owners : SetsOwners api

module _ {W : Type 0} (api : Api W) (serves : ServesPools api) where
  decode_pools-safe :
      (raw : EtcdResponse)
      → (nat_eq raw.count 0 ≡ false → HoldsPools api raw)
      → Ensures (λ m. m ≢ none) (decode_pools api raw)
  unfolding decode_pools
  decode_pools-safe raw h = elim (Bool-cases (nat_eq raw.count 0)) [
    | inl e ↦ rw e (Ensures-pure (some []) (λ p. cc))
    | inr e ↦
        let (text, v, k) = h e in
        rw e (
          rw v (
            Ensures-bind (or_crash (some text)) (λ value. or_fail (api.codec.decode_pools value))
              (Ensures-some text) λ value same. Ensures-ok _ _ (rw same k)))
  ]

  put_pools-safe :
      (config : VitastorConfig) (pool : VitastorPool)
      → IsConfigured api config
      → Ensures Any (put_pools api (config.vitastor_prefix <> "/config/pools") pool)
  unfolding put_pools
  put_pools-safe config pool given =
      Ensures-bind _ _ (Ensures-call _ _ λ w. serves.kept config w given) λ got h.
        Ensures-bind _ _ (Ensures-ok (λ raw. nat_eq raw.count 0 ≡ false → HoldsPools api raw) got h)
          λ raw k. Ensures-bind _ _ (decode_pools-safe raw k) λ decoded there.
            Ensures-then _ _ (Ensures-or_crash decoded there) λ pools. search ensures_rules

  check_storage_class-safe :
      (pool : VitastorPool) (r : Result StorageClass) → Ensures Any (check_storage_class api pool r)
  unfolding check_storage_class get_storage_class_config set_owner ◌>>=◌
  check_storage_class-safe pool r = record {
    at = λ w. ground (
      arith,
      serves.sets_owners Kind.vitastor_pool pool.meta
          (record { namespace = ""; name = pool.meta.name; owners = [] }),
    );
  }

  reconcile_pool-safe :
      (name : String) (config : VitastorConfig)
      → IsConfigured api config
      → Ensures Any (reconcile_pool api name config)
  unfolding reconcile_pool
  reconcile_pool-safe name config given =
      search (ensures_rules, put_pools-safe, check_storage_class-safe) depth 14

  -- A run of the pool's reconciler does not panic. What etcd holds under the pools'
  -- key, with the prefix that the configuration's file gives, if it
  -- counts a key there, is to have a value that is not the JSON null, and setting an owner on an
  -- object that is there is not to panic.
  pub pool_safe : (name : String) (w : W) → (reconcile api name w).flow ≢ panic
  unfolding reconcile
  pool_safe name w =
      not_panic (with_etcd api (reconcile_pool api name))
        (with_etcd-safe_configured api (reconcile_pool api name) (reconcile_pool-safe name)) w
