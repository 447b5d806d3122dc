-- ===== src/Node/Osds/Ensure.antt =====
-- The loop over the OSDs that the agent found: what it creates and places.
use vitastor_operator.Prelude.{
  String, ◌≡◌, refl, not, List, [], ◌∷◌, ◌++◌, map, arith, select, sym, inl, inr, Bool-cases,
  if◌then◌else◌,
}
use mathlib.Core.List.{append_assoc}
use vitastor_operator.Prelude.Int.{ℤ}
use vitastor_operator.Types.{VitastorNode, VitastorOsd, VitastorOsdSpec}
use vitastor_operator.Types.Object.{Object, vitastor_osd}
use vitastor_operator.Flow.{Action, Event, created, next, ◌>>=◌, for_each}
use vitastor_operator.Flow.Rules.{>>=-eq-next}
use vitastor_operator.Api.{Api, OsdPartition}
use vitastor_operator.Api.Calls.{set_owner}
use vitastor_operator.Node.Placement.{contains_osd}
use vitastor_operator.Node.Osds.{get_configuration, place_osd, deploy_osd, ensure_osd}

abbrev created_spec : Object → List VitastorOsdSpec
created_spec (vitastor_osd o) = o.spec ∷ []
created_spec _ = []

-- The specifications of the OSDs that the calls create, in order.
unfoldable pub created_specs : List Event → List VitastorOsdSpec
created_specs [] = []
created_specs (created o ∷ es) = created_spec o ++ created_specs es
created_specs (e ∷ es) = created_specs es

created_specs-append :
    (es fs : List Event) → created_specs (es ++ fs) ≡ created_specs es ++ created_specs fs
unfolding created_specs
created_specs-append [] fs = refl
created_specs-append (created o ∷ es) fs =
    rw (created_specs-append es fs) (sym (append_assoc (created_spec o) _ _))
created_specs-append (e ∷ es) fs = created_specs-append es fs

-- Those of the OSDs that no object describes.
abbrev pub wanted : VitastorNode → List VitastorOsd → List OsdPartition → List VitastorOsdSpec
wanted node items osds =
    map (λ osd. (get_configuration osd.data_device osd.osd_number node).spec)
      (select (λ osd. not (contains_osd items osd.data_device)) osds)

module _ {W : Type 0} (api : Api W) (path : String) (node : VitastorNode)
    (items : List VitastorOsd) where
  place_osd-none : (n : ℤ) (w : W) → created_specs (place_osd api path node n w).events ≡ []
  unfolding place_osd created_specs ◌>>=◌
  place_osd-none n w = ground arith

  -- What one round may create.
  abbrev share : OsdPartition → List VitastorOsdSpec
  share osd =
      if contains_osd items osd.data_device
      then []
      else (get_configuration osd.data_device osd.osd_number node).spec ∷ []

  abbrev round : OsdPartition → Action W (Unit {0})
  round = ensure_osd api path node items

  deploy_osd-next :
      (osd : OsdPartition) (w : W) {o : VitastorOsd}
      → (deploy_osd api node osd w).flow ≡ next o
      → created_specs (deploy_osd api node osd w).events
        ≡ (get_configuration osd.data_device osd.osd_number node).spec ∷ []
  unfolding deploy_osd created_specs ◌>>=◌ set_owner
  deploy_osd-next osd w h = ground arith

  round-next :
      (osd : OsdPartition) (w : W)
      → (round osd w).flow ≡ next tt
      → created_specs (round osd w).events ≡ share osd
  unfolding ensure_osd
  round-next osd w h = elim (Bool-cases (contains_osd items osd.data_device)) [
    | inl known ↦ rw (known, ensure_osd) (place_osd-none osd.osd_number w)
    | inr new ↦
        let (o, d, _, e, _) =
          >>=-eq-next (deploy_osd api node osd) (λ o. place_osd api path node o.spec.osd_number) w
            (rw (new, ensure_osd) at h) in
        rw (new, ensure_osd)
          (rw (e, created_specs-append, deploy_osd-next osd w d, place_osd-none) refl)
  ]

  abbrev pub ensure : List OsdPartition → Action W (Unit {0})
  ensure osds = for_each osds round

  -- If the loop goes on to its end, it has created exactly the OSDs that no object describes, one
  -- for each, in the agent's order.
  pub ensure_creates :
      (osds : List OsdPartition) (w : W)
      → (ensure osds w).flow ≡ next tt
      → created_specs (ensure osds w).events ≡ wanted node items osds
  unfolding for_each created_specs ◌>>=◌
  ensure_creates [] w h = refl
  ensure_creates (osd ∷ osds) w h =
      let (_, d, t, e, _) = >>=-eq-next (round osd) (λ _. ensure osds) w h in
      rw (e, created_specs-append, round-next osd w d, ensure_creates osds _ t) (ground arith)
