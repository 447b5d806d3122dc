-- ===== src/Node/Osds/Entry.antt =====
-- The entry of an OSD in the placement map, seen through the codec.
use vitastor_operator.Prelude.{
  String, ◌≡◌, ◌∙◌, inl, inr, [], ◌∷◌, some, arith, ◌==◌, Option-cases, if◌then◌else◌,
}
use vitastor_operator.Prelude.Int.{ℤ}
use vitastor_operator.Go.Map.{Entries, lookup, assign, lookup-assign}
use vitastor_operator.Go.Strconv.{itoa}
use vitastor_operator.Types.{VitastorNode}
use vitastor_operator.Flow.{Result-cases, ok, next, etcd_put, ◌>>=◌}
use vitastor_operator.Api.{Api, VitastorNodePlacement, EtcdResponse, first_value}
use vitastor_operator.Api.Laws.{RoundTripsPlacements}
use vitastor_operator.Node.Osds.{place_osd}
use vitastor_operator.Node.Placement.{at_level}
use vitastor_operator.Node.Written.{read_value}

module _ {W : Type 0} (api : Api W) (path : String) (node : VitastorNode) (n : ℤ) where
  abbrev entered : Entries VitastorNodePlacement → Entries VitastorNodePlacement
  entered m = assign (itoa n) (at_level "osd" node.spec.node_name) m

  -- If the OSD is placed, the first value of etcd's answer held some map, and the text that is put
  -- decodes to a map that has, under the OSD's number, an entry below the node's name and, under any
  -- other key, what the answer had. The codec is to give back the entries of a map.
  place_osd_entry :
      RoundTripsPlacements api
      → (w : W) → (place_osd api path node n w).flow ≡ next tt
      → (raw : EtcdResponse) × (m : Entries VitastorNodePlacement) × (m' : Entries
          VitastorNodePlacement)
        × (text : String) × ((api.etcd.get path w).0 ≡ ok raw)
        × (read_value api (first_value raw) ≡ some m)
        × ((place_osd api path node n w).events ≡ etcd_put path text ∷ [])
        × (api.codec.decode_placements text ≡ ok (some m'))
        × ((k : String)
            → lookup k m'
              ≡ (if itoa n == k then some (at_level "osd" node.spec.node_name) else lookup k m))
  unfolding place_osd ◌>>=◌
  place_osd_entry trip w h = elim (Result-cases (api.etcd.get path w).0) [
    | inr (e, q) ↦ absurd (ground arith)
    | inl (raw, q) ↦ elim (Option-cases (read_value api (first_value raw))) [
      | inl f ↦ absurd (ground arith)
      | inr (m, f) ↦ elim (Result-cases (api.codec.encode_placements (entered m))) [
        | inr (e, g) ↦ absurd (ground arith)
        | inl (text, g) ↦
            let (m', d, same) = trip (entered m) text g in
            (
              raw,
              m,
              m',
              text,
              q,
              f,
              ground arith,
              d,
              λ k. same k ∙ lookup-assign (itoa n) k (at_level "osd" node.spec.node_name) m,
            )
      ]
    ]
  ]
