-- ===== src/Node/Overtaken.antt =====
-- The placement map is read and put back in two calls (controllers/vitastornode_controller.go), and
-- another process may write to it between the two.
use vitastor_operator.Prelude.{
  String, ◌≡◌, true, false, any, inl, inr, none, some, arith, ◌==◌, Option-cases,
}
use vitastor_operator.Go.Map.{Entries, lookup}
use vitastor_operator.Types.{VitastorNode, KubeNode}
use vitastor_operator.Flow.{Result-cases, ok, next, ◌>>=◌}
use vitastor_operator.Api.{Api, VitastorNodePlacement, EtcdResponse}
use vitastor_operator.Api.Laws.{RoundTripsPlacements, is_ok}
use vitastor_operator.Node.{decode_placements, put_node_placement}
use vitastor_operator.Node.Placement.{place_node}
use vitastor_operator.Node.Placement.Tree.{placed, is_domain, lookup-place_node}
use vitastor_operator.Node.Written.{held}

-- An etcd that holds the map as it was last put.
pub record MapStore {W : Type 0} (api : Api W) (path : String) : Type 0 where
  pub map_in : W → Entries VitastorNodePlacement
  pub gets :
      (w : W)
      → (raw : EtcdResponse) × ((api.etcd.get path w).0 ≡ ok raw) × (held api raw ≡ some (map_in w))
  pub get_keeps : (w : W) → map_in (api.etcd.get path w).1 ≡ map_in w
  pub puts :
      (text : String) (m : Entries VitastorNodePlacement) (w : W)
      → api.codec.decode_placements text ≡ ok (some m)
      → is_ok (api.etcd.put path text w).0 ≡ true
      → map_in (api.etcd.put path text w).1 ≡ m

-- The same calls, where another process acts after each read of etcd.
abbrev pub overtaken : {W : Type 0} → (W → W) → Api W → Api W
overtaken other api = record api {
  etcd = record api.etcd { get = λ k w. let (raw, v) = api.etcd.get k w in (raw, other v) };
}

module _ {W : Type 0} (api : Api W) (path : String) (node : VitastorNode) (kube_node : KubeNode)
    (trip : RoundTripsPlacements api) (store : MapStore api path) where
  -- What is put is made from what was read, whatever happens in between.
  put_as_read :
      (other : W → W) (w : W) (k : String)
      → (put_node_placement (overtaken other api) path node kube_node w).flow ≡ next tt
      → lookup k
          (store.map_in (put_node_placement (overtaken other api) path node kube_node w).world)
        ≡ placed node.meta.name kube_node.labels (store.map_in w) k
  unfolding put_node_placement decode_placements ◌>>=◌
  put_as_read other w k h =
      let (raw, q, f) = store.gets w in
      let v = other (api.etcd.get path w).1 in
      elim (Option-cases (place_node node.meta.name kube_node.labels (store.map_in w))) [
        | inl p ↦ absurd (ground arith)
        | inr (m₁, p) ↦ elim (Result-cases (api.codec.encode_placements m₁)) [
          | inr (e, g) ↦ absurd (ground arith)
          | inl (text, g) ↦
              let (m', d, same) = trip m₁ text g in
              ground (
                arith,
                store.puts text m' v d,
                same k,
                lookup-place_node node.meta.name kube_node.labels (store.map_in w) m₁ k p,
              )
        ]
      ]

  -- Another process adds an entry to the placement map, which is neither the node nor a datacenter of
  -- its labels, and the node is placed. If the entry is added between the reconciler's Get and its Put,
  -- it is gone afterwards; if it is added before the Get, it stays. Each time the placement is to have
  -- succeeded, with an etcd that holds the map as it was last put and a codec that gives back the
  -- entries of a map.
  pub late_write_lost :
      (other : W → W) (w : W) (k : String) (p : VitastorNodePlacement)
      → (node.meta.name == k) ≡ false
      → any (is_domain k) kube_node.labels ≡ false
      → lookup k (store.map_in w) ≡ none
      → ((v : W) → lookup k (store.map_in (other v)) ≡ some p)
      → (put_node_placement (overtaken other api) path node kube_node w).flow ≡ next tt
      → (put_node_placement api path node kube_node (other w)).flow ≡ next tt
      → (lookup k
            (store.map_in (put_node_placement (overtaken other api) path node kube_node w).world)
          ≡ none)
        × (lookup k (store.map_in (put_node_placement api path node kube_node (other w)).world)
            ≡ some p)
  late_write_lost other w k p ne nd new adds late early =
      ground (arith, put_as_read other w k late, put_as_read (λ v. v) (other w) k early, adds w)
