-- ===== src/Node/Safety.antt =====
-- Panics of the node's reconciler.
use vitastor_operator.Prelude.{
  String, ◌<>◌, ◌≡◌, ◌≢◌, List, none, some, arith, nat_eq, any, false, [], ◌∷◌, inl, inr,
  Bool-cases,
}
use vitastor_operator.Prelude.Int.{ℤ}
use vitastor_operator.Go.Map.{Entries}
use vitastor_operator.Types.{Kind, NamespacedName, VitastorNode, VitastorOsd, KubeNode, Pod}
use vitastor_operator.Flow.{WhenOk, panic, ◌>>=◌, or_crash, or_fail, CtrlResult}
use vitastor_operator.Flow.Safety.{
  Ensures, Any, Ensures-call, Ensures-bind, Ensures-ok, Ensures-found, Ensures-or_crash,
  Ensures-then, Ensures-if, Ensures-pure, ensures_rules, not_panic, Ensures-ask, Ensures-or_fail,
  Ensures-or_skip, Ensures-some,
}
use vitastor_operator.Api.{
  Api, VitastorConfig, VitastorNodePlacement, EtcdResponse, OsdPartition, first_value,
}
use vitastor_operator.Api.Calls.{set_owner}
use vitastor_operator.Api.Laws.{SetsOwners}
use vitastor_operator.Config.{with_etcd}
use vitastor_operator.Config.Safety.{IsConfigured, with_etcd-safe_configured}
use vitastor_operator.Node.Placement.{place_node}
use vitastor_operator.Node.Placement.Tree.{is_malformed, place_node_panics}
use vitastor_operator.Node.Agent.{fetch, write_status, Seen}
use vitastor_operator.Node.Osds.{
  get_configuration, place_osd, deploy_osd, ensure_osd, roll_osd, drop_osd, prune_osd,
}
use vitastor_operator.Node.{
  decode_placements, put_node_placement, first_agent, observe, sync_osds, reconcile_node,
  reconcile_named, reconcile,
}

-- The answer of etcd has a value, and that is not the JSON null.
abbrev pub HoldsMap : {W : Type 0} → Api W → EtcdResponse → Type 0
HoldsMap api raw =
    (text : String) × (first_value raw ≡ some text)
    × WhenOk (λ m. m ≢ none) (api.codec.decode_placements text)

-- The placement map is in etcd whenever it is read, under the prefix that the configuration's file
-- gives, and it is not the JSON null; no label of a node
-- that contains "fd.vitastor.io" is without a slash; and to set the owner of an object that is there
-- does not panic.
pub record ServesPlacements {W : Type 0} (api : Api W) : Type 0 where
  pub kept :
      (config : VitastorConfig) (w : W)
      → IsConfigured api config
      → WhenOk
          (HoldsMap api)
          (api.etcd.get (config.vitastor_prefix <> "/config/node_placement") w).0
  pub labelled :
      (q : NamespacedName) (w : W)
      → WhenOk (λ (n : KubeNode). any is_malformed n.labels ≡ false) (api.kube.get_kube_node q w).0
  pub sets_owners : SetsOwners api

module _ {W : Type 0} (api : Api W) (serves : ServesPlacements api) where
  decode_placements-safe :
      (raw : EtcdResponse) → HoldsMap api raw → Ensures (λ m. m ≢ none) (decode_placements api raw)
  unfolding decode_placements
  decode_placements-safe raw (text, v, h) = elim (Bool-cases (nat_eq raw.count 0)) [
    | inl e ↦ rw e (Ensures-pure (some []) (λ p. cc))
    | inr e ↦ rw e (
        rw v (
          Ensures-bind (or_crash (some text)) (λ value. or_fail (api.codec.decode_placements value))
            (Ensures-some text) λ value same. Ensures-ok _ _ (rw same h)))
  ]

  placed :
      (name : String) (labels : Entries String) (m : Entries VitastorNodePlacement)
      → any is_malformed labels ≡ false
      → place_node name labels m ≢ none
  placed name labels m h e = ground (arith, place_node_panics name labels m)

  module _ (config : VitastorConfig) (given : IsConfigured api config) where
    put_node_placement-safe :
        (node : VitastorNode) (kube_node : KubeNode)
        → any is_malformed kube_node.labels ≡ false
        → Ensures Any (
            put_node_placement api
              (config.vitastor_prefix <> "/config/node_placement")
              node
              kube_node)
    unfolding put_node_placement
    put_node_placement-safe node kube_node good =
        Ensures-bind _ _ (Ensures-call _ _ (λ w. serves.kept config w given)) λ got h.
          Ensures-bind _ _ (Ensures-ok (HoldsMap api) got h) λ raw k.
            Ensures-bind _ _ (decode_placements-safe raw k) λ decoded there.
              Ensures-then _ _ (Ensures-or_crash decoded there) λ placements.
                Ensures-then _ _
                  (Ensures-or_crash _ (placed node.meta.name kube_node.labels placements good))
                  λ m. search ensures_rules

    place_osd-safe :
        (node : VitastorNode) (n : ℤ)
        → Ensures Any (place_osd api (config.vitastor_prefix <> "/config/node_placement") node n)
    unfolding place_osd
    place_osd-safe node n =
        Ensures-bind _ _ (Ensures-call _ _ (λ w. serves.kept config w given)) λ got h.
          Ensures-bind _ _ (Ensures-ok (HoldsMap api) got h) λ raw (text, v, k). rw v (
            Ensures-bind _ _ (Ensures-some text) λ value same.
              Ensures-bind _ _ (Ensures-ok _ _ (rw same k)) λ decoded there.
                Ensures-then _ _ (Ensures-or_crash decoded there) λ m. search ensures_rules)

    deploy_osd-safe :
        (node : VitastorNode) (osd : OsdPartition) → Ensures Any (deploy_osd api node osd)
    unfolding deploy_osd set_owner ◌>>=◌
    deploy_osd-safe node osd = record {
      at = λ w. ground (
        arith,
        serves.sets_owners Kind.vitastor_node node.meta
            (get_configuration osd.data_device osd.osd_number node).meta,
      );
    }

    ensure_osd-safe :
        (node : VitastorNode) (items : List VitastorOsd) (osd : OsdPartition)
        → Ensures Any
            (ensure_osd api (config.vitastor_prefix <> "/config/node_placement") node items osd)
    unfolding ensure_osd
    ensure_osd-safe node items osd =
        search (ensures_rules, Ensures-if, place_osd-safe, deploy_osd-safe)

    prune_osd-safe :
        (later : CtrlResult) (node : VitastorNode) (paths : List String) (osd : VitastorOsd)
        → Ensures Any (prune_osd api later node paths osd)
    unfolding prune_osd roll_osd drop_osd ◌>>=◌
    prune_osd-safe later node paths osd = record { at = λ w. ground arith }

    first_agent-safe :
        (later : CtrlResult) (pods : List Pod) → Ensures Any (first_agent api later pods)
    unfolding first_agent
    first_agent-safe later [] = search ensures_rules
    first_agent-safe later (agent ∷ agents) = search (ensures_rules, tt)

    fetch-safe : (url : String) → Ensures Any (fetch api url)
    unfolding fetch ◌>>=◌
    fetch-safe url = record { at = λ w. ground arith }

    write_status-safe : (s : Seen) → Ensures Any (write_status api s)
    unfolding write_status ◌>>=◌
    write_status-safe s = record { at = λ w. ground arith }

    observe-safe : (node : VitastorNode) (agent : Pod) → Ensures Any (observe api node agent)
    unfolding observe
    observe-safe node agent = search (ensures_rules, fetch-safe, write_status-safe, tt) depth 14

    sync_osds-safe :
        (later : CtrlResult) (node : VitastorNode) (osds : List OsdPartition)
        (items : List VitastorOsd)
        → Ensures Any (
            sync_osds api later
              (config.vitastor_prefix <> "/config/node_placement")
              node
              osds
              items)
    unfolding sync_osds
    sync_osds-safe later node osds items =
        search (ensures_rules, ensure_osd-safe, prune_osd-safe) depth 9

    reconcile_node-safe :
        (later : CtrlResult) (node : VitastorNode)
        → Ensures Any
            (reconcile_node api later (config.vitastor_prefix <> "/config/node_placement") node)
    unfolding reconcile_node
    reconcile_node-safe later node =
        search (ensures_rules, first_agent-safe, observe-safe, sync_osds-safe) depth 16

    reconcile_named-safe : (name : String) → Ensures Any (reconcile_named api name config)
    unfolding reconcile_named
    reconcile_named-safe name = Ensures-then _ _ (Ensures-or_fail _) λ interval.
        Ensures-then _ _ (Ensures-ask _ _) λ found. Ensures-then _ _ (Ensures-or_skip found) λ node.
          Ensures-bind _ _ (Ensures-call _ _ (serves.labelled _)) λ kube_found h.
            Ensures-bind _ _ (Ensures-found _ kube_found h) λ kube_node good.
              Ensures-then _ _ (put_node_placement-safe node kube_node good)
                λ _. reconcile_node-safe _ node

  -- A run of the node's reconciler does not panic. The placement map is to be in etcd, under the prefix
  -- that the configuration's file gives, whenever it is read, what is read is not to be the JSON null, each label of a node that contains "fd.vitastor.io"
  -- is to have a slash, and setting an owner on an object that is there is not to panic.
  pub node_safe : (name : String) (w : W) → (reconcile api name w).flow ≢ panic
  unfolding reconcile
  node_safe name w =
      not_panic (with_etcd api (reconcile_named api name))
        (with_etcd-safe_configured api (reconcile_named api name)
          λ config given. reconcile_named-safe config given name)
        w
