-- ===== src/Api/Memory.antt =====
-- A server, an etcd and a codec in memory, which meet the laws on deployments, names, nodes, codecs
-- and lists.
use mathlib.Core.Path.{subst}
use vitastor_operator.Prelude.{
  String, ◌≡◌, refl, ap, sym, Bool, true, false, ◌&&◌, List, [], ◌∷◌, Option, none, some, arith,
  select, any, All, ◌==◌, eq_iff, if◌then◌else◌,
}
use vitastor_operator.Prelude.Int.{int_eq, int_eq_sound}
use vitastor_operator.Go.Map.{Entries, lookup, assign, present, lookup-assign}
use vitastor_operator.Types.{
  Meta, VitastorCluster, VitastorNode, VitastorOsd, VitastorPool, Deployment, DaemonSet,
  StatefulSet, StorageClass, Pod, KubeNode, ListOptions,
}
use vitastor_operator.Flow.{Result, ok, err, not_found, failed}
use vitastor_operator.Index.{osd_index}
use vitastor_operator.Api.{
  Api, VitastorNodePlacement, VitastorPoolConfig, EtcdResponse, OsdPartition, referred, crashed,
  Reference,
}
use vitastor_operator.Api.Laws.{
  found, EchoesDeployments, KeepsNames, NodeStore, RoundTripsPools, RoundTripsPlacements,
  ListsByIndex,
}

pub record World : Type 0 where
  pub data_of : Entries String
  pub cluster : Option VitastorCluster
  pub nodes : Entries VitastorNode
  pub osds : List VitastorOsd
  pub pool : Option VitastorPool
  pub kube_node : Option KubeNode
  pub deployment : Option Deployment
  pub daemon_set : Option DaemonSet
  pub stateful_set : Option StatefulSet
  pub storage_class : Option StorageClass
  pub pods : List Pod

abbrev pub answer_of : Option String → EtcdResponse
answer_of none = record { count = 0; kvs = [] }
answer_of (some v) = record { count = 1; kvs = v ∷ [] }

All-select :
    {A : Type 0} (test : A → Bool) (xs : List A) → All (λ x. test x ≡ true) (select test xs)
All-select test [] = tt
All-select test (x ∷ xs) = ground (arith, All-select test xs)

abbrev pub same_placement : VitastorNodePlacement → VitastorNodePlacement → Bool
same_placement a b = a.level == b.level && a.parent == b.parent

abbrev same_pool : VitastorPoolConfig → VitastorPoolConfig → Bool
same_pool a b =
    a.name == b.name
    && a.scheme == b.scheme
    && int_eq a.pg_size b.pg_size
    && int_eq a.parity_chunks b.parity_chunks
    && int_eq a.pg_min_size b.pg_min_size
    && int_eq a.pg_count b.pg_count
    && a.failure_domain == b.failure_domain
    && int_eq a.max_osd_combinations b.max_osd_combinations
    && int_eq a.block_size b.block_size
    && a.immediate_commit == b.immediate_commit
    && a.osd_tags == b.osd_tags

abbrev pub same_entries {ℓ} : {V : Type ℓ} → (V → V → Bool) → Entries V → Entries V → Bool
same_entries same [] [] = true
same_entries same ((k, v) ∷ m) ((j, u) ∷ n) = k == j && same v u && same_entries same m n
same_entries same _ _ = false

pub same_entries_sound {ℓ} :
    {V : Type ℓ} (same : V → V → Bool)
    → ((a b : V) → same a b ≡ true → a ≡ b)
    → (m n : Entries V) → same_entries same m n ≡ true
    → m ≡ n
same_entries_sound same sound [] [] h = refl
same_entries_sound same sound ((k, v) ∷ m) ((j, u) ∷ n) h =
    ground (arith, eq_iff k j, sound v u, same_entries_sound same sound m n)
same_entries_sound same sound [] (e ∷ n) h = cc
same_entries_sound same sound (e ∷ m) [] h = cc

pub same_placement_sound : (a b : VitastorNodePlacement) → same_placement a b ≡ true → a ≡ b
same_placement_sound a b h = ground (arith, eq_iff a.level b.level, eq_iff a.parent b.parent)

same_pool_sound : (a b : VitastorPoolConfig) → same_pool a b ≡ true → a ≡ b
same_pool_sound a b h = ground (
  arith,
  eq_iff a.name b.name,
  eq_iff a.scheme b.scheme,
  int_eq_sound a.pg_size b.pg_size,
  int_eq_sound a.parity_chunks b.parity_chunks,
  int_eq_sound a.pg_min_size b.pg_min_size,
  int_eq_sound a.pg_count b.pg_count,
  eq_iff a.failure_domain b.failure_domain,
  int_eq_sound a.max_osd_combinations b.max_osd_combinations,
  int_eq_sound a.block_size b.block_size,
  eq_iff a.immediate_commit b.immediate_commit,
  eq_iff a.osd_tags b.osd_tags,
)

-- The codec of the text "sample", which stands for one map.
abbrev decode_sample {ℓ} : {V : Type ℓ} → Entries V → String → Result (Option (Entries V))
decode_sample sample text = if text == "sample" then ok (some sample) else err (failed "syntax")

abbrev encode_sample {ℓ} : {V : Type ℓ} → (V → V → Bool) → Entries V → Entries V → Result String
encode_sample same sample m =
    if same_entries same m sample then ok "sample" else err (failed "other")

encode_sample-decodes {ℓ} :
    {V : Type ℓ} (same : V → V → Bool)
    → ((a b : V) → same a b ≡ true → a ≡ b)
    → (sample m : Entries V) (text : String) → encode_sample same sample m ≡ ok text
    → (m' : Entries V) × (decode_sample sample text ≡ ok (some m'))
      × ((k : String) → lookup k m' ≡ lookup k m)
encode_sample-decodes same sound sample m text h = (
  sample,
  ground (arith, eq_iff text "sample"),
  λ k. ap (lookup k) (sym (same_entries_sound same sound m sample (ground arith))),
)

abbrev indexed : String → VitastorOsd → Bool
indexed name osd = any (λ v. v == name) (osd_index osd)

-- A nil object is dereferenced.
abbrev owned : Option Meta → Reference
owned none = crashed
owned (some m) = referred m

abbrev field_of : ListOptions → String
field_of options = elim (lookup ".spec.nodeName" options.fields) [ none ↦ "" | some v ↦ v ]

module _ (placements : Entries VitastorNodePlacement) (pools : Entries VitastorPoolConfig)
    (osds : List OsdPartition) where
  abbrev pub memory : Api World
  memory = record {
    host = record {
      lookup_env = λ name. none;
      open_file = λ file w. (ok "", w);
      http_get = λ url w. (ok 1, w);
      read_all = λ body w. (ok "", w);
    };
    etcd = record {
      dial = λ urls w. (ok tt, w);
      get = λ k w. (ok (answer_of (lookup k w.data_of)), w);
      put = λ k v w. (ok tt, record w { data_of = assign k v w.data_of });
    };
    kube = record {
      get_cluster = λ q w. (found w.cluster, w);
      get_node = λ q w. (found (lookup q.name w.nodes), w);
      get_osd = λ q w. (err not_found, w);
      get_pool = λ q w. (found w.pool, w);
      get_kube_node = λ q w. (found w.kube_node, w);
      get_deployment = λ q w. (found w.deployment, w);
      get_daemon_set = λ q w. (found w.daemon_set, w);
      get_stateful_set = λ q w. (found w.stateful_set, w);
      get_storage_class = λ q w. (found w.storage_class, w);
      list_pods = λ options w. (ok w.pods, w);
      list_osds = λ options w.
          (ok (select (λ o. any (λ v. v == field_of options) (osd_index o)) w.osds), w);
      create_deployment = λ d w. (ok d, record w { deployment = some d });
      create_daemon_set = λ d w. (ok d, record w { daemon_set = some d });
      create_stateful_set = λ s w. (ok s, record w { stateful_set = some s });
      create_storage_class = λ c w. (ok c, record w { storage_class = some c });
      create_node = λ n w. (ok n, record w { nodes = assign n.meta.name n w.nodes });
      create_osd = λ o w. (ok o, record w { osds = o ∷ w.osds });
      update_deployment = λ d w. (ok d, record w { deployment = some d });
      update_daemon_set = λ d w. (ok d, record w { daemon_set = some d });
      update_stateful_set = λ s w. (ok s, record w { stateful_set = some s });
      update_osd = λ o w. (ok o, w);
      update_node_status = λ n w. (ok n, w);
      delete_osd = λ o w. (ok tt, w);
    };
    codec = record {
      decode_config = λ text. record { vitastor_etcd_urls = []; vitastor_prefix = "/vitastor" };
      decode_disks = λ text. [];
      decode_osds = λ text. osds;
      decode_placements = decode_sample placements;
      encode_placements = encode_sample same_placement placements;
      decode_pools = decode_sample pools;
      encode_pools = encode_sample same_pool pools;
      encode_levels = λ m. ok "levels";
    };
    library = record {
      set_controller_reference = λ kind owner controlled. owned controlled;
      equal_sorted = λ xs ys. false;
    };
  }

  pub memory-EchoesDeployments : EchoesDeployments memory
  memory-EchoesDeployments d d' w h = ground arith

  pub memory-KeepsNames : KeepsNames memory
  memory-KeepsNames kind owner m m' h = ground arith

  pub memory-RoundTripsPools : RoundTripsPools memory
  memory-RoundTripsPools m text h = encode_sample-decodes same_pool same_pool_sound pools m text h

  pub memory-RoundTripsPlacements : RoundTripsPlacements memory
  memory-RoundTripsPlacements m text h =
      encode_sample-decodes same_placement same_placement_sound placements m text h

  pub memory-NodeStore : NodeStore memory
  memory-NodeStore = record {
    has = λ w name. present (lookup name w.nodes);
    get_unknown = λ name w h. ground arith;
    get_known = λ name w h. ground arith;
    get_keeps = λ name k w. refl;
    create_adds = λ n k w h. ground (arith, lookup-assign n.meta.name k n w.nodes);
  }

  pub memory-ListsByIndex : ListsByIndex memory
  unfolding lookup
  memory-ListsByIndex name w items h =
      subst (All (λ osd. indexed name osd ≡ true)) (listed h) (All-select (indexed name) w.osds)
    where
      listed :
          {xs : List VitastorOsd}
          → ◌≡◌ {A = Result (List VitastorOsd)} (ok xs) (ok items)
          → xs ≡ items
      listed e = cc
