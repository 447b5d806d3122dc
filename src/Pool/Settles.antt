-- ===== src/Pool/Settles.antt =====
-- Two runs of the pool's reconciler, one after the other.
use vitastor_operator.Prelude.{◌<>◌}
use vitastor_operator.Prelude.Int.{pos}
use vitastor_operator.Types.{VitastorPool}
use vitastor_operator.Flow.{Ran}
use vitastor_operator.Api.{Api, VitastorConfig, VitastorPoolConfig}
use vitastor_operator.Api.Laws.{RoundTripsPools}
use vitastor_operator.Config.Connected.{Connection}
use vitastor_operator.Pool.{reconcile}
use vitastor_operator.Pool.Held.{Held, PoolStore}

-- The configuration that a pool's specification asks for.
abbrev pub specified : VitastorPool → VitastorPoolConfig
specified pool = record {
  name = pool.meta.name;
  scheme = pool.spec.scheme;
  pg_size = pool.spec.pg_size;
  parity_chunks = pool.spec.parity_chunks;
  pg_min_size = pool.spec.pg_min_size;
  pg_count = pool.spec.pg_count;
  failure_domain = pool.spec.failure_domain;
  max_osd_combinations = pos 0;
  block_size = pos 0;
  immediate_commit = "";
  osd_tags = "";
}

module _ {W : Type 0} (api : Api W) (pool : VitastorPool) (config : VitastorConfig)
    (trip : RoundTripsPools api)
    (store : PoolStore api pool (config.vitastor_prefix <> "/config/pools"))
    (c : Connection api config store.held) where
  abbrev whole : W → Ran W (Unit {0})
  whole = reconcile api pool.meta.name
