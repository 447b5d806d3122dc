-- ===== src/Tests/Pools.antt =====
-- What is put into etcd at concrete inputs.
use vitastor_operator.Prelude.{◌≡◌, refl, [], ◌∷◌, some, String, if◌then◌else◌, ◌==◌}
use vitastor_operator.Go.Map.{Entries, lookup, assign, lookup-assign}
use vitastor_operator.Go.Text.{contains, split}
use vitastor_operator.Flow.{ok, etcd_put, ◌>>=◌}
use vitastor_operator.Api.{Api, VitastorPoolConfig, VitastorNodePlacement, EtcdResponse}
use vitastor_operator.Api.Memory.{
  World, memory, answer_of, memory-RoundTripsPools, memory-RoundTripsPlacements,
}
use vitastor_operator.Pool.{pool_config, put_pools, decode_pools}
use vitastor_operator.Pool.Entry.{put_pools_entry}
use vitastor_operator.Pool.Entry
use vitastor_operator.Prelude.{Option, none, true, arith, ◌<>◌, Bool-cases, inl, inr, eq_refl}
use vitastor_operator.Api.Laws.{is_ok}
use vitastor_operator.Flow.{Ran}
use vitastor_operator.Api.{VitastorConfig}
use vitastor_operator.Pool
use vitastor_operator.Pool.Held.{Held, PoolStore}
use vitastor_operator.Node.{put_node_placement, decode_placements}
use vitastor_operator.Node.Written.{put_node_placement_entry}
use vitastor_operator.Node.Written
use vitastor_operator.Node.Placement.{
  place_node, apply_labels, apply_label, link_node, ensure_domain, contains_str_list,
}
use vitastor_operator.Node.Placement.Tree.{placed}
use vitastor_operator.Tests.Samples.{empty, pool, node, kube_node, labels, placements}

abbrev pool_map : Entries VitastorPoolConfig
pool_map = (pool.spec.id, pool_config pool) ∷ []

abbrev pool_server : Api World
pool_server = memory [] pool_map []

put_pools_entry_example :
    (raw : EtcdResponse) × (m : Entries VitastorPoolConfig) × (m' : Entries VitastorPoolConfig)
    × (text : String) × ((pool_server.etcd.get "/p" empty).0 ≡ ok raw)
    × (Entry.held pool_server raw ≡ some m)
    × ((put_pools pool_server "/p" pool empty).events ≡ etcd_put "/p" text ∷ [])
    × (pool_server.codec.decode_pools text ≡ ok (some m'))
    × ((k : String) → lookup k m' ≡ (if "1" == k then some (pool_config pool) else lookup k m))
unfolding put_pools decode_pools pool_config ◌>>=◌ lookup assign
put_pools_entry_example =
    put_pools_entry pool_server "/p" pool (memory-RoundTripsPools [] pool_map []) empty refl

abbrev node_server : Api World
node_server = memory placements [] []

put_node_placement_entry_example :
    (raw : EtcdResponse) × (m : Entries VitastorNodePlacement) × (m' : Entries
      VitastorNodePlacement)
    × (text : String) × ((node_server.etcd.get "/p" empty).0 ≡ ok raw)
    × (Written.held node_server raw ≡ some m)
    × ((put_node_placement node_server "/p" node kube_node empty).events ≡ etcd_put "/p" text ∷ [])
    × (node_server.codec.decode_placements text ≡ ok (some m'))
    × ((k : String) → lookup k m' ≡ placed "n1" labels m k)
unfolding put_node_placement decode_placements place_node apply_labels apply_label link_node
    ensure_domain contains_str_list contains split lookup assign ◌>>=◌
put_node_placement_entry_example =
    put_node_placement_entry node_server "/p" node kube_node
      (memory-RoundTripsPlacements placements [] []) empty refl

-- Every map is encoded.
abbrev encoding : Api World
encoding = record node_server {
  codec = record node_server.codec { encode_placements = λ m. ok "text" };
}

abbrev config : VitastorConfig
config = record { vitastor_etcd_urls = []; vitastor_prefix = "/vitastor" }

abbrev pools_key : String
pools_key = config.vitastor_prefix <> "/config/pools"

-- A text stands for the pool's map or for an empty one.
abbrev meant : String → Entries VitastorPoolConfig
meant text = if text == "sample" then pool_map else []

abbrev holding : Api World
holding = record pool_server {
  codec = record pool_server.codec { decode_pools = λ text. ok (some (meant text)) };
  kube = record pool_server.kube { get_pool = λ q w. (ok pool, w) };
}

abbrev stored : Option String → Entries VitastorPoolConfig
stored none = []
stored (some text) = meant text

-- What etcd holds under the pools' key, whatever was put there.
abbrev pools_in : World → Held
pools_in w = record { pools = stored (lookup pools_key w.data_of); class = w.storage_class }

gets_stored : (o : Option String) → Entry.held holding (answer_of o) ≡ some (stored o)
gets_stored none = refl
gets_stored (some text) = refl

encodes_stored :
    (o : Option String)
    → is_ok (holding.codec.encode_pools (assign pool.spec.id (pool_config pool) (stored o))) ≡ true
unfolding pool_config assign
encodes_stored none = refl
encodes_stored (some text) = elim (Bool-cases (text == "sample")) [
  | inl e ↦ rw e refl
  | inr e ↦ rw e refl
]

holding-PoolStore : PoolStore holding pool pools_key
holding-PoolStore = record {
  held = pools_in;
  owned = λ m. m;
  sets_owner = λ m. refl;
  keeps_key = λ m. refl;
  gets_pool = λ w. refl;
  get_pool_keeps = λ w. refl;
  gets =
      λ w. (answer_of (lookup pools_key w.data_of), refl, gets_stored (lookup pools_key w.data_of));
  get_keeps = λ w. refl;
  encodes = λ w. encodes_stored (lookup pools_key w.data_of);
  put_ok = λ text w. refl;
  puts = λ text m w d.
      ground (arith, lookup-assign pools_key pools_key text w.data_of, eq_refl pools_key);
  gets_class = λ w. ground arith;
  get_class_keeps = λ w. refl;
  create_ok = λ c w k h. refl;
  creates = λ c w k h. refl;
}

abbrev pool_run : World → Ran World (Unit {0})
pool_run = Pool.reconcile holding "replicated"
