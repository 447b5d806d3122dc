-- ===== src/Node/Sync/Quiet.antt =====
-- A run that finds all up to date.
use mathlib.Core.Path.{subst}
use mathlib.Core.List.{Permᴰ}
use mathlib.Core.List.Permᴰ
use vitastor_operator.Prelude.{
  String, ◌<>◌, ◌≡◌, refl, ap, ◌∙◌, true, Bool, List, [], ◌∷◌, none, arith, All, All-map,
}
use vitastor_operator.Prelude.Int.{ℤ}
use vitastor_operator.Types.{VitastorNode, VitastorNodeStatus, VitastorOsd}
use vitastor_operator.Flow.{
  call, return, or_fail, or_skip, ok, next, exit, CtrlResult, for_each, pure,
}
use vitastor_operator.Api.{Api, VitastorConfig, OsdPartition}
use vitastor_operator.Api.Laws.{cluster_scoped}
use vitastor_operator.Config.{env_or, parse_int}
use vitastor_operator.Node.{
  agent_options, osd_options, requeue_in, put_node_placement, first_agent, observe, sync_osds,
  reconcile_node, reconcile_named,
}
use vitastor_operator.Node.Agent.{fetch, write_status, see_disks, see_empty_disks, see_osds}
use vitastor_operator.Node.Agent.Status.{seen, status_of, up_to_date}
use vitastor_operator.Node.Osds.{ensure_osd, place_osd}
use vitastor_operator.Node.Osds.Moved.{All-Moved, contains_osd-Moved}
use vitastor_operator.Node.Osds.Swept.{is_settled}
use vitastor_operator.Node.Sync.{Held, paths_of}
use vitastor_operator.Node.Sync.Added.{Described}
use vitastor_operator.Node.Sync.Store.{NodeStore, noting}
use vitastor_operator.Node.Sync.Runs.{path, found}
use vitastor_operator.Node.Sync.UpToDate.{UpToDate}
use vitastor_operator.Node.Sync.Stages.{placement_put, osd_placed}
use vitastor_operator.Node.Sync.Observed.{fetched, observed, disks, empty_disks, osds, url}
use vitastor_operator.Node.Sync.Upkeep.{
  IsUpkeep, bind-IsUpkeep, bind-flow, then-Quiet, step-Quiet, placement-IsUpkeep, osd-IsUpkeep,
  fetch-IsUpkeep, prune_quiet,
}

module _ {W : Type 0} (api : Api W) (node : VitastorNode) (path : String)
    (store : NodeStore api node path) where
  ensure-IsUpkeep :
      (s : VitastorNodeStatus) (items : List VitastorOsd) (osds : List OsdPartition) (w : W)
      → Described osds items
      → ((for_each osds (ensure_osd api path (noting node s) items) w).flow ≡ next tt)
        × All (IsUpkeep path) (for_each osds (ensure_osd api path (noting node s) items) w).events
  unfolding for_each ensure_osd pure
  ensure-IsUpkeep s items [] w h = (refl, tt)
  ensure-IsUpkeep s items (p ∷ osds) w h =
      let (f, _) = osd_placed api node path store s p.osd_number w in
      let v = (place_osd api path (noting node s) p.osd_number w).world in
      let (f', q) = ensure-IsUpkeep s items osds v h.1 in
      let m = place_osd api path (noting node s) p.osd_number in
      let rest = λ (u : Unit {0}). for_each osds (ensure_osd api path (noting node s) items) in
      rw h.0 (
        bind-flow m rest w f ∙ f',
        bind-IsUpkeep path m rest w f (osd-IsUpkeep api path (noting node s) p.osd_number w) q,
      )

  abbrev noted : VitastorNodeStatus → Bool
  noted s =
      up_to_date api (disks api node path store store.agent)
        (empty_disks api node path store store.agent) (osds api node path store store.agent) s

  status_quiet :
      (s : VitastorNodeStatus) (w : W)
      → noted s ≡ true
      → write_status api
          (seen api
            (disks api node path store store.agent)
            (empty_disks api node path store store.agent)
            (osds api node path store store.agent)
            (noting node s))
          w
        ≡ record { flow = next (noting node s); world = w; events = [] }
  unfolding write_status see_disks see_empty_disks see_osds pure
  status_quiet s w u = ground arith

  observe-IsUpkeep :
      (s : VitastorNodeStatus) (w : W)
      → noted s ≡ true
      → All (IsUpkeep path) (observe api (noting node s) store.agent w).events
  unfolding observe pure
  observe-IsUpkeep s w u =
      let at = url api node path store store.agent in
      let v₁ = (fetch api at w).world in
      let v₂ = (fetch api (at <> "/empty") v₁).world in
      let v₃ = (fetch api (at <> "/osd") v₂).world in
      bind-IsUpkeep path _ _ w (fetched api node path store at w).0 (fetch-IsUpkeep api path at w) (
        bind-IsUpkeep path _ _ v₁ (fetched api node path store (at <> "/empty") v₁).0
          (fetch-IsUpkeep api path (at <> "/empty") v₁)
          (bind-IsUpkeep path _ _ v₂ (fetched api node path store (at <> "/osd") v₂).0
            (fetch-IsUpkeep api path (at <> "/osd") v₂)
            (bind-IsUpkeep path _ _ v₃ (ap (λ r. r.flow) (status_quiet s v₃ u))
              (rw (status_quiet s v₃ u) tt) tt)))

module _ {W : Type 0} (api : Api W) (node : VitastorNode) (config : VitastorConfig)
    (store : NodeStore api node (config.vitastor_prefix <> "/config/node_placement")) where
  abbrev at : String
  at = path api node config store

  abbrev agent_osds : List OsdPartition
  agent_osds = found api node config store

  sync_quiet :
      (later : CtrlResult) (s : VitastorNodeStatus) (items : List VitastorOsd) (w : W)
      → Described agent_osds items
      → All (λ osd. is_settled node (paths_of agent_osds) osd ≡ true) items
      → ((sync_osds api later at (noting node s) agent_osds items w).flow ≡ next tt)
        × All (IsUpkeep at) (sync_osds api later at (noting node s) agent_osds items w).events
  unfolding sync_osds
  sync_quiet later s items w d h =
      let (f, q) = ensure-IsUpkeep api node at store s items agent_osds w d in
      let v = (for_each agent_osds (ensure_osd api at (noting node s) items) w).world in
      let e = prune_quiet api at later (noting node s) (paths_of agent_osds) items v h in
      (bind-flow _ _ w f ∙ ap (λ r. r.flow) e, bind-IsUpkeep at _ _ w f q (rw e tt))

  -- The order of the objects does not matter.
  UpToDate-items :
      (h : Held) (items : List VitastorOsd)
      → Permᴰ items h.osds
      → Described agent_osds h.osds
      → All (λ osd. is_settled node (paths_of agent_osds) osd ≡ true) h.osds
      → Described agent_osds items
        × All (λ osd. is_settled node (paths_of agent_osds) osd ≡ true) items
  UpToDate-items h items order d settled = (
    All-map _ _ (λ p e. contains_osd-Moved p.data_device order ∙ e) agent_osds d,
    All-Moved _ (Permᴰ.symm order) settled,
  )

  reconcile_quiet :
      (later : CtrlResult) (h : Held) (w : W)
      → store.held w ≡ h
      → UpToDate api node config store h
      → ((reconcile_node api later at (noting node h.status) w).flow
          ≡ exit (record { result = later; error = none }))
        × All (IsUpkeep at) (reconcile_node api later at (noting node h.status) w).events
  unfolding reconcile_node first_agent call return pure
  reconcile_quiet later h w e (u, d, settled) =
      let s = h.status in
      let v₁ = (api.kube.list_pods (agent_options api node) w).1 in
      let k₁ = store.list_pods_keeps w ∙ e in
      let v₂ = (observe api (noting node s) store.agent v₁).world in
      let (f, k₂) = observed api node at store store.agent s v₁ (ap (λ x. x.status) k₁) in
      let v₃ = (api.kube.list_osds (osd_options node) v₂).1 in
      let s' =
        status_of api (disks api node at store store.agent)
          (empty_disks api node at store store.agent) agent_osds s in
      let (items, l, order) = store.lists v₂ in
      let order' : Permᴰ items h.osds =
        subst (λ xs. Permᴰ items xs)
          (ap {A = Held} (λ x. x.osds) (k₂ ∙ ap {A = Held} (λ x. record x { status = s' }) k₁))
          order in
      let (d', settled') = UpToDate-items h items order' d settled in
      let (f', q') = sync_quiet later s' items v₃ d' settled' in
      step-Quiet at _ _ w refl (
        step-Quiet at _ _ v₁ (ap (λ r. or_skip r v₁) (store.lists_pods w)) (
          step-Quiet at _ _ v₁ refl (
            then-Quiet at _ _ v₁ f (observe-IsUpkeep api node at store s v₁ u) (
              step-Quiet at _ _ v₂ refl (
                step-Quiet at _ _ v₃ (ap (λ r. or_fail r v₃) l)
                  (then-Quiet at _ _ v₃ f' q' (refl, tt)))))))

  -- A run that finds all up to date puts the placement map and reads the agent's answers, and makes no
  -- other call; it goes on to its end, and asks for the next run after the interval.
  pub node_quiet :
      (interval : ℤ) (w : W)
      → parse_int (env_or api "UPDATE_INTERVAL" "15") ≡ ok interval
      → UpToDate api node config store (store.held w)
      → ((reconcile_named api node.meta.name config w).flow
          ≡ exit (record { result = requeue_in interval; error = none }))
        × All (IsUpkeep at) (reconcile_named api node.meta.name config w).events
  unfolding reconcile_named call pure
  node_quiet interval w i u =
      let s = (store.held w).status in
      let v₁ = (api.kube.get_node (cluster_scoped node.meta.name) w).1 in
      let v₂ = (api.kube.get_kube_node (cluster_scoped node.meta.name) v₁).1 in
      let k₂ = store.get_kube_node_keeps v₁ ∙ store.get_node_keeps w in
      let v₃ = (put_node_placement api at (noting node s) store.kube_node v₂).world in
      let (f, k₃) = placement_put api node at store s v₂ in
      let k : store.held v₃ ≡ store.held w = k₃ ∙ k₂ in
      let run = reconcile_quiet (requeue_in interval) (store.held w) v₃ k u in
      step-Quiet at _ _ w (ap (λ r. or_fail r w) i) (
        step-Quiet at _ _ w refl (
          step-Quiet at _ _ v₁ (ap (λ r. or_skip r v₁) (store.gets_node w)) (
            step-Quiet at _ _ v₁ refl (
              step-Quiet at _ _ v₂ (ap (λ r. or_skip r v₂) (store.gets_kube_node v₁)) (
                then-Quiet at _ _ v₂ f
                  (placement-IsUpkeep api at (noting node s) store.kube_node v₂) run)))))
