-- ===== src/Node/Sync/Stages.antt =====
-- What each block of the node's reconciler does to the held objects.
use vitastor_operator.Prelude.{
  String, ◌≡◌, refl, false, List, [], ◌∷◌, ◌++◌, arith, Bool-cases, Option-cases, inl, inr,
  if◌then◌else◌, All,
}
use vitastor_operator.Prelude.Int.{ℤ}
use vitastor_operator.Go.Map.{assign}
use vitastor_operator.Go.Strconv.{itoa}
use vitastor_operator.Types.{VitastorNode, VitastorNodeStatus, VitastorOsd}
use vitastor_operator.Flow.{Result-cases, next, CtrlResult, ◌>>=◌, for_each, pure}
use vitastor_operator.Api.{Api, OsdPartition}
use vitastor_operator.Api.Calls.{set_owner}
use vitastor_operator.Node.{put_node_placement, decode_placements}
use vitastor_operator.Node.Osds.{
  get_configuration, place_osd, deploy_osd, ensure_osd, prune_osd, roll_osd, drop_osd,
}
use vitastor_operator.Node.Osds.Prune.{prune, rolled}
use vitastor_operator.Node.Osds.Swept.{Absent, Distinct, effect}
use vitastor_operator.Node.Placement.{at_level, contains_osd}
use vitastor_operator.Node.Placement.{place_node}
use vitastor_operator.Node.Placement.Tree.{place_node_panics}
use vitastor_operator.Node.Sync.{add, own_osd}
use vitastor_operator.Node.Sync.Added.{add-Distinct}
use vitastor_operator.Node.Sync.Store.{NodeStore, noting, IsOf}

module _ {W : Type 0} (api : Api W) (node : VitastorNode) (path : String)
    (store : NodeStore api node path) where
  pub placement_put :
      (s : VitastorNodeStatus) (w : W)
      → ((put_node_placement api path (noting node s) store.kube_node w).flow ≡ next tt)
        × (store.held (put_node_placement api path (noting node s) store.kube_node w).world
            ≡ store.held w)
  unfolding put_node_placement decode_placements ◌>>=◌
  placement_put s w =
      let (raw, m, q, c, r) = store.reads w in
      let v = (api.etcd.get path w).1 in
      elim (Option-cases (place_node node.meta.name store.kube_node.labels m)) [
        | inl p ↦ absurd (
            ground
              (arith, store.labelled, place_node_panics node.meta.name store.kube_node.labels m))
        | inr (m₁, p) ↦ elim (Result-cases (api.codec.encode_placements m₁)) [
          | inr (e, g) ↦ absurd (ground (arith, store.encodes m₁))
          | inl (text, g) ↦
              ground
                (arith, store.put_ok path text v, store.put_keeps path text v, store.read_keeps w)
        ]
      ]

  pub osd_placed :
      (s : VitastorNodeStatus) (n : ℤ) (w : W)
      → ((place_osd api path (noting node s) n w).flow ≡ next tt)
        × (store.held (place_osd api path (noting node s) n w).world ≡ store.held w)
  unfolding place_osd ◌>>=◌
  osd_placed s n w =
      let (raw, m, q, c, r) = store.reads w in
      let v = (api.etcd.get path w).1 in
      elim (Result-cases
        (api.codec.encode_placements (assign (itoa n) (at_level "osd" node.spec.node_name) m))) [
          | inr (e, g) ↦ absurd (
              ground
                (arith, store.encodes (assign (itoa n) (at_level "osd" node.spec.node_name) m)))
          | inl (text, g) ↦
              ground
                (arith, store.put_ok path text v, store.put_keeps path text v, store.read_keeps w)
        ]

  deployed :
      (s : VitastorNodeStatus) (p : OsdPartition) (w : W)
      → node.spec.node_name ≡ node.meta.name
      → Absent (own_osd store.owned node p).meta.name (store.held w).osds
      → ((deploy_osd api (noting node s) p w).flow ≡ next (own_osd store.owned node p))
        × (store.held (deploy_osd api (noting node s) p w).world
            ≡ record (store.held w) { osds = own_osd store.owned node p ∷ (store.held w).osds })
  unfolding deploy_osd get_configuration set_owner ◌>>=◌
  deployed s p w named a =
      let o = own_osd store.owned node p in
      ground (
        arith,
        store.sets_owner (get_configuration p.data_device p.osd_number node).meta,
        store.create_ok o w named a,
        store.creates o w named a,
      )

  pub pruned :
      (later : CtrlResult) (s : VitastorNodeStatus) (paths : List String) (items : List VitastorOsd)
      (w : W)
      → All (IsOf node) items
      → store.held (prune api later (noting node s) paths items w).world
        ≡ record (store.held w) { osds = effect (noting node s) paths items (store.held w).osds }
  unfolding for_each ◌>>=◌ prune_osd roll_osd drop_osd effect
  pruned later s paths [] w of = refl
  pruned later s paths (osd ∷ items) w of = ground (
    arith,
    store.update_ok (rolled node osd) w,
    store.updates (rolled node osd) w of.0,
    store.delete_ok osd w,
    store.deletes osd w,
    pruned later s paths items w of.1,
    pruned later s paths items (api.kube.delete_osd osd w).1 of.1,
  )

  -- One round of the first loop.
  module _ (s : VitastorNodeStatus) (items held : List VitastorOsd)
      (named : node.spec.node_name ≡ node.meta.name) where
    abbrev own : OsdPartition → VitastorOsd
    own = own_osd store.owned node

    round_added :
        (p : OsdPartition) (pre : List VitastorOsd) (w : W)
        → (store.held w).osds ≡ pre ++ held
        → (contains_osd items p.data_device ≡ false → Absent (own p).meta.name (pre ++ held))
        → ((ensure_osd api path (noting node s) items p w).flow ≡ next tt)
          × (store.held (ensure_osd api path (noting node s) items p w).world
              ≡ record (store.held w) {
                osds = (if contains_osd items p.data_device then pre else own p ∷ pre) ++ held;
              })
    unfolding ensure_osd ◌>>=◌
    round_added p pre w e a = elim (Bool-cases (contains_osd items p.data_device)) [
      | inl known ↦ rw known (ground (arith, known, osd_placed s p.osd_number w))
      | inr new ↦
          let (f, h) = deployed s p w named (rw e (a new)) in
          rw new (
            ground (
              arith,
              new,
              f,
              h,
              osd_placed s (own p).spec.osd_number (deploy_osd api (noting node s) p w).world,
            ))
    ]

    pub loop_added :
        (osds : List OsdPartition) (pre : List VitastorOsd) (w : W)
        → (store.held w).osds ≡ pre ++ held
        → Distinct (add own items osds pre ++ held)
        → ((for_each osds (ensure_osd api path (noting node s) items) w).flow ≡ next tt)
          × (store.held (for_each osds (ensure_osd api path (noting node s) items) w).world
              ≡ record (store.held w) { osds = add own items osds pre ++ held })
    unfolding for_each add pure ◌>>=◌
    loop_added [] pre w e d = (refl, ground arith)
    loop_added (p ∷ osds) pre w e d =
        let pre' : List VitastorOsd =
          if contains_osd items p.data_device then pre else own p ∷ pre in
        let d' = add-Distinct own items held osds pre' d in
        let (f, h) = round_added p pre w e (λ new. (rw new at d').0) in
        let v = (ensure_osd api path (noting node s) items p w).world in
        let (f', h') = loop_added osds pre' v (rw h refl) d in ground (arith, f, h, f', h')
