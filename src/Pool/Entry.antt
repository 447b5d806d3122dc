-- ===== src/Pool/Entry.antt =====
-- The pool's entry in etcd.
use vitastor_operator.Prelude.{
  String, ◌≡◌, ◌∙◌, inl, inr, Option-cases, refl, [], ◌∷◌, Option, none, some, arith, ◌==◌, nat_eq,
  if◌then◌else◌,
}
use vitastor_operator.Prelude.Int.{ℤ, pos}
use vitastor_operator.Go.Map.{Entries, lookup, assign, lookup-assign}
use vitastor_operator.Types.{VitastorPool}
use vitastor_operator.Flow.{Result, Result-cases, ok, err, next, etcd_put, ◌>>=◌}
use vitastor_operator.Api.{Api, VitastorPoolConfig, EtcdResponse, first_value}
use vitastor_operator.Api.Laws.{RoundTripsPools}
use vitastor_operator.Pool.{pool_config, decode_pools, put_pools}

abbrev decoded : Result (Option (Entries VitastorPoolConfig)) → Option (Entries VitastorPoolConfig)
decoded (ok m) = m
decoded (err e) = none

abbrev read_value : {W : Type 0} → Api W → Option String → Option (Entries VitastorPoolConfig)
read_value api none = none
read_value api (some text) = decoded (api.codec.decode_pools text)

-- The pools that an answer of etcd holds: an empty map without the key, and else that of its first
-- value, if it has one that decodes to a map.
abbrev pub held : {W : Type 0} → Api W → EtcdResponse → Option (Entries VitastorPoolConfig)
held api raw = if nat_eq raw.count 0 then some [] else read_value api (first_value raw)

module _ {W : Type 0} (api : Api W) (path : String) (pool : VitastorPool) where
  abbrev pub entered : Entries VitastorPoolConfig → Entries VitastorPoolConfig
  entered m = assign pool.spec.id (pool_config pool) m

  abbrev pub encoded : Entries VitastorPoolConfig → Result String
  encoded m = api.codec.encode_pools (entered m)

  -- If the pools are put, etcd's answer held some map, and the text that is put decodes to a map
  -- that has the pool's configuration under the pool's ID and, under any other, what the answer
  -- had. The codec is to give back the entries of a map.
  pub put_pools_entry :
      RoundTripsPools api
      → (w : W) → (put_pools api path pool w).flow ≡ next tt
      → (raw : EtcdResponse) × (m : Entries VitastorPoolConfig) × (m' : Entries VitastorPoolConfig)
        × (text : String) × ((api.etcd.get path w).0 ≡ ok raw)
        × (held api raw ≡ some m)
        × ((put_pools api path pool w).events ≡ etcd_put path text ∷ [])
        × (api.codec.decode_pools text ≡ ok (some m'))
        × ((k : String)
            → lookup k m' ≡ (if pool.spec.id == k then some (pool_config pool) else lookup k m))
  unfolding put_pools decode_pools ◌>>=◌
  put_pools_entry trip w h = elim (Result-cases (api.etcd.get path w).0) [
    | inr (e, q) ↦ absurd (ground arith)
    | inl (raw, q) ↦ elim (Option-cases (held api raw)) [
      | inl f ↦ absurd (ground arith)
      | inr (m, f) ↦ elim (Result-cases (encoded m)) [
        | inr (e, g) ↦ absurd (ground arith)
        | inl (text, g) ↦
            let (m', d, same) = trip (entered m) text g in
            (
              raw,
              m,
              m',
              text,
              q,
              f,
              ground arith,
              d,
              λ k. same k ∙ lookup-assign pool.spec.id k (pool_config pool) m,
            )
      ]
    ]
  ]

-- The options of a pool that the configuration leaves out: two pools that differ in them alone have
-- the same configuration, and it clears them.
pool_config_ignores :
    (pool : VitastorPool) (combinations block_size : ℤ) (commit tags : String)
    → let other = record pool {
      spec = record pool.spec {
        max_osd_combinations = combinations;
        block_size = block_size;
        immediate_commit = commit;
        osd_tags = tags;
      };
    } in
      (pool_config other ≡ pool_config pool)
      × ((pool_config other).max_osd_combinations ≡ pos 0)
      × ((pool_config other).block_size ≡ pos 0)
      × ((pool_config other).immediate_commit ≡ "")
      × ((pool_config other).osd_tags ≡ "")
unfolding pool_config
pool_config_ignores pool combinations block_size commit tags = (refl, refl, refl, refl, refl)
