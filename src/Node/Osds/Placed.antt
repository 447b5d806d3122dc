-- ===== src/Node/Osds/Placed.antt =====
-- The placement map after the loop over the OSDs that the agent found.
use vitastor_operator.Prelude.{
  String, ◌≡◌, ◌∙◌, refl, true, inl, inr, List, [], ◌∷◌, some, arith, any, ◌==◌, Bool-cases,
  if◌then◌else◌,
}
use vitastor_operator.Prelude.Int.{ℤ}
use vitastor_operator.Go.Map.{Entries, lookup, assign, lookup-assign}
use vitastor_operator.Go.Strconv.{itoa}
use vitastor_operator.Types.{Kind, Meta, VitastorNode, VitastorOsd}
use vitastor_operator.Flow.{Result-cases, ok, next, ◌>>=◌, for_each}
use vitastor_operator.Flow.Rules.{>>=-eq-next}
use vitastor_operator.Api.{
  Api, Reference, referred, refused, crashed, VitastorNodePlacement, EtcdResponse, OsdPartition,
  first_value,
}
use vitastor_operator.Api.Calls.{set_owner}
use vitastor_operator.Api.Laws.{RoundTripsPlacements, is_ok}
use vitastor_operator.Node.Osds.{get_configuration, place_osd, deploy_osd, ensure_osd}
use vitastor_operator.Node.Osds.Ensure.{ensure}
use vitastor_operator.Node.Placement.{at_level, contains_osd}
use vitastor_operator.Node.Written.{read_value}

-- An etcd that holds a placement map under the key and keeps what is put there, and that nobody else
-- writes to. The creation of an OSD returns the number that it is sent.
pub record PlacementStore {W : Type 0} (api : Api W) (path : String) : Type 0 where
  pub held : W → Entries VitastorNodePlacement
  pub gets :
      (w : W)
      → (raw : EtcdResponse) × ((api.etcd.get path w).0 ≡ ok raw)
        × (read_value api (first_value raw) ≡ some (held w))
  pub get_keeps : (w : W) → held (api.etcd.get path w).1 ≡ held w
  pub puts :
      (text : String) (m : Entries VitastorNodePlacement) (w : W)
      → api.codec.decode_placements text ≡ ok (some m)
      → is_ok (api.etcd.put path text w).0 ≡ true
      → held (api.etcd.put path text w).1 ≡ m
  pub create_keeps : (osd : VitastorOsd) (w : W) → held (api.kube.create_osd osd w).1 ≡ held w
  pub echoes :
      (osd osd' : VitastorOsd) (w : W)
      → (api.kube.create_osd osd w).0 ≡ ok osd'
      → osd'.spec.osd_number ≡ osd.spec.osd_number

module _ {W : Type 0} (api : Api W) (path : String) (node : VitastorNode)
    (trip : RoundTripsPlacements api) (store : PlacementStore api path) where
  abbrev entry : VitastorNodePlacement
  entry = at_level "osd" node.spec.node_name

  osd_placed :
      (n : ℤ) (k : String) (w : W)
      → (place_osd api path node n w).flow ≡ next tt
      → lookup k (store.held (place_osd api path node n w).world)
        ≡ (if itoa n == k then some entry else lookup k (store.held w))
  unfolding place_osd ◌>>=◌
  osd_placed n k w h =
      let (raw, q, f) = store.gets w in
      let v = (api.etcd.get path w).1 in
      elim (Result-cases (api.codec.encode_placements (assign (itoa n) entry (store.held w)))) [
        | inr (e, g) ↦ absurd (ground arith)
        | inl (text, g) ↦
            let (m', d, same) = trip (assign (itoa n) entry (store.held w)) text g in
            ground
              (arith, store.puts text m' v d, same k, lookup-assign (itoa n) k entry (store.held w))
      ]

  abbrev new_osd : OsdPartition → Meta → VitastorOsd
  new_osd osd m = record (get_configuration osd.data_device osd.osd_number node) { meta = m }

  deployed :
      (osd : OsdPartition) (w : W) (r : Reference) {o : VitastorOsd}
      → api.library.set_controller_reference Kind.vitastor_node node.meta
          (some (get_configuration osd.data_device osd.osd_number node).meta)
        ≡ r
      → (deploy_osd api node osd w).flow ≡ next o
      → (o.spec.osd_number ≡ osd.osd_number)
        × (store.held (deploy_osd api node osd w).world ≡ store.held w)
  unfolding deploy_osd set_owner get_configuration ◌>>=◌
  deployed osd w (referred m) {o} e h =
      ground (arith, store.echoes (new_osd osd m) o w, store.create_keeps (new_osd osd m) w)
  deployed osd w (refused x) e h = absurd (ground arith)
  deployed osd w crashed e h = absurd (ground arith)

  round_placed :
      (items : List VitastorOsd) (osd : OsdPartition) (k : String) (w : W)
      → (ensure_osd api path node items osd w).flow ≡ next tt
      → lookup k (store.held (ensure_osd api path node items osd w).world)
        ≡ (if itoa osd.osd_number == k then some entry else lookup k (store.held w))
  unfolding ensure_osd
  round_placed items osd k w h = elim (Bool-cases (contains_osd items osd.data_device)) [
    | inl known ↦
        rw (known, ensure_osd) (osd_placed osd.osd_number k w (rw (known, ensure_osd) at h))
    | inr new ↦
        let (o, d, f, _, v) =
          >>=-eq-next (deploy_osd api node osd) (λ o. place_osd api path node o.spec.osd_number) w
            (rw (new, ensure_osd) at h) in
        let (e, same) = deployed osd w _ refl d in
        rw (new, ensure_osd) (rw v (osd_placed o.spec.osd_number k _ f ∙ rw (e, same) refl))
  ]

  -- If the loop over the agent's OSDs goes on to its end, the placement map has an entry below the
  -- node's name for each of them and, under any other key, what it had. The codec is to give back
  -- the entries of a map, etcd to hold the map, and nobody else is to write it.
  pub ensure_placed :
      (items : List VitastorOsd) (osds : List OsdPartition) (k : String) (w : W)
      → (ensure api path node items osds w).flow ≡ next tt
      → lookup k (store.held (ensure api path node items osds w).world) ≡ (
          if any (λ (osd : OsdPartition). itoa osd.osd_number == k) osds
          then some (at_level "osd" node.spec.node_name)
          else lookup k (store.held w))
  unfolding for_each ◌>>=◌
  ensure_placed items [] k w h = refl
  ensure_placed items (osd ∷ osds) k w h =
      let (_, d, t, _, v) =
        >>=-eq-next (ensure_osd api path node items osd) (λ _. ensure api path node items osds) w
          h in
      rw v (ensure_placed items osds k _ t ∙ rw (round_placed items osd k w d) (ground arith))
