-- ===== src/Node/Written.antt =====
-- The placement map that the node's reconciler writes, seen through the codec.
use vitastor_operator.Prelude.{
  String, ◌≡◌, ◌∙◌, inl, inr, [], ◌∷◌, Option, none, some, arith, nat_eq, Option-cases,
  if◌then◌else◌,
}
use vitastor_operator.Go.Map.{Entries, lookup}
use vitastor_operator.Types.{VitastorNode, KubeNode}
use vitastor_operator.Flow.{Result, Result-cases, ok, err, next, etcd_put, ◌>>=◌}
use vitastor_operator.Api.{Api, VitastorNodePlacement, EtcdResponse, first_value}
use vitastor_operator.Api.Laws.{RoundTripsPlacements}
use vitastor_operator.Node.{decode_placements, put_node_placement}
use vitastor_operator.Node.Placement.{place_node}
use vitastor_operator.Node.Placement.Tree.{placed, lookup-place_node}

abbrev decoded :
    Result (Option (Entries VitastorNodePlacement)) → Option (Entries VitastorNodePlacement)
decoded (ok m) = m
decoded (err e) = none

abbrev pub read_value :
    {W : Type 0} → Api W → Option String → Option (Entries VitastorNodePlacement)
read_value api none = none
read_value api (some text) = decoded (api.codec.decode_placements text)

-- The placements that an answer of etcd holds: an empty map without the key, and else that of its
-- first value, if it has one that decodes to a map.
abbrev pub held : {W : Type 0} → Api W → EtcdResponse → Option (Entries VitastorNodePlacement)
held api raw = if nat_eq raw.count 0 then some [] else read_value api (first_value raw)

module _ {W : Type 0} (api : Api W) (path : String) (node : VitastorNode)
    (kube_node : KubeNode) where
  -- If the node's placement is put, etcd's answer held some map, and the text that is put decodes
  -- to a map that has at each key what `placed` tells of the node's name, the labels and the map
  -- that was held. The codec is to give back the entries of a map.
  pub put_node_placement_entry :
      RoundTripsPlacements api
      → (w : W) → (put_node_placement api path node kube_node w).flow ≡ next tt
      → (raw : EtcdResponse) × (m : Entries VitastorNodePlacement) × (m' : Entries
          VitastorNodePlacement)
        × (text : String) × ((api.etcd.get path w).0 ≡ ok raw)
        × (held api raw ≡ some m)
        × ((put_node_placement api path node kube_node w).events ≡ etcd_put path text ∷ [])
        × (api.codec.decode_placements text ≡ ok (some m'))
        × ((k : String) → lookup k m' ≡ placed node.meta.name kube_node.labels m k)
  unfolding put_node_placement decode_placements ◌>>=◌
  put_node_placement_entry trip w h = elim (Result-cases (api.etcd.get path w).0) [
    | inr (e, q) ↦ absurd (ground arith)
    | inl (raw, q) ↦ elim (Option-cases (held api raw)) [
      | inl f ↦ absurd (ground arith)
      | inr (m, f) ↦ elim (Option-cases (place_node node.meta.name kube_node.labels m)) [
        | inl p ↦ absurd (ground arith)
        | inr (m₁, p) ↦ elim (Result-cases (api.codec.encode_placements m₁)) [
          | inr (e, g) ↦ absurd (ground arith)
          | inl (text, g) ↦
              let (m', d, same) = trip m₁ text g in
              (
                raw,
                m,
                m',
                text,
                q,
                f,
                ground arith,
                d,
                λ k. same k ∙ lookup-place_node node.meta.name kube_node.labels m m₁ k p,
              )
        ]
      ]
    ]
  ]
