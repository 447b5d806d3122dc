-- ===== src/Node/Sync/Runs.antt =====
-- The node's reconciler does to the held objects what `sync` tells.
use mathlib.Core.Path.{subst, sym}
use mathlib.Core.List.{Permᴰ}
use mathlib.Core.List.Permᴰ
use vitastor_operator.Prelude.{All, String, ◌<>◌, ◌≡◌, refl, ap, ◌∙◌, List, [], ◌∷◌, ◌++◌, arith}
use vitastor_operator.Prelude.Int.{ℤ}
use vitastor_operator.Types.{VitastorNode, VitastorNodeStatus, VitastorOsd}
use vitastor_operator.Flow.{ok, CtrlResult, ◌>>=◌, for_each}
use vitastor_operator.Api.{Api, VitastorConfig, OsdPartition}
use vitastor_operator.Api.Laws.{cluster_scoped}
use vitastor_operator.Config.{env_or, parse_int}
use vitastor_operator.Node.{
  agent_options, osd_options, requeue_in, put_node_placement, first_agent, observe, sync_osds,
  reconcile_node, reconcile_named,
}
use vitastor_operator.Node.Osds.{ensure_osd}
use vitastor_operator.Node.Osds.Swept.{Distinct, effect, swept, effect-eq-swept}
use vitastor_operator.Node.Osds.Moved.{All-Moved, Distinct-Moved, contains_osd-Moved, effect-Moved}
use vitastor_operator.Node.Sync.{Held, add, own_osd, paths_of, sync}
use vitastor_operator.Node.Sync.Added.{add_same, Distinct-Apart, Distinct-right}
use vitastor_operator.Node.Sync.Store.{NodeStore, noting, IsOf}
use vitastor_operator.Node.Sync.Stages.{placement_put, loop_added, pruned}
use vitastor_operator.Node.Sync.Observed.{disks, empty_disks, osds, observed}

-- The status of the node does not matter for the second loop.
swept-noting :
    (node : VitastorNode) (s : VitastorNodeStatus) (paths : List String) (items : List VitastorOsd)
    → swept (noting node s) paths items ≡ swept node paths items
unfolding swept
swept-noting node s paths [] = refl
swept-noting node s paths (o ∷ items) = rw (swept-noting node s paths items) refl

module _ {W : Type 0} (api : Api W) (node : VitastorNode) (config : VitastorConfig)
    (store : NodeStore api node (config.vitastor_prefix <> "/config/node_placement")) where
  abbrev pub path : String
  path = config.vitastor_prefix <> "/config/node_placement"

  abbrev pub own : OsdPartition → VitastorOsd
  own = own_osd store.owned node

  abbrev pub found : List OsdPartition
  found = osds api node path store store.agent

  abbrev pub synced : Held → Held
  synced =
      sync api store.owned node (disks api node path store store.agent)
        (empty_disks api node path store store.agent) found

  -- The objects that are there and those that are to be created have names of their own.
  abbrev pub NewNames : Held → Type 0
  NewNames h = Distinct (add own h.osds found [] ++ h.osds)

  pub NewNames-Moved :
      (h : Held) (items : List VitastorOsd)
      → Permᴰ items h.osds
      → NewNames h
      → NewNames (record h { osds = items })
  NewNames-Moved h items order d =
      rw (add_same own items h.osds found [] (λ s. contains_osd-Moved s order))
        (Distinct-Moved (Permᴰ.append_left (add own h.osds found []) (Permᴰ.symm order)) d)

  -- What is held after a run that lists the objects so, but for their order.
  abbrev pub IsAfter : List VitastorOsd → Held → Held → Type 0
  IsAfter items h h' =
      (h'.status ≡ (synced (record h { osds = items })).status)
      × Permᴰ h'.osds (synced (record h { osds = items })).osds

  module _ (named : node.spec.node_name ≡ node.meta.name) where
    osds_synced :
        (later : CtrlResult) (s : VitastorNodeStatus) (items held : List VitastorOsd) (w : W)
        → (store.held w).osds ≡ held
        → Permᴰ items held
        → Distinct (add own items found [] ++ held)
        → Distinct (add own items found [] ++ items)
        → All (IsOf node) items
        → let after = store.held (sync_osds api later path (noting node s) found items w).world in
          (after.status ≡ (store.held w).status)
          × Permᴰ after.osds (add own items found [] ++ swept node (paths_of found) items)
    unfolding sync_osds ◌>>=◌
    osds_synced later s items held w e order d d' of =
        let pre = add own items found [] in
        let (f, h) = loop_added api node path store s items held named found [] w e d in
        let v = (for_each found (ensure_osd api path (noting node s) items) w).world in
        let k = pruned api node path store later s (paths_of found) items v of in
        let swept_all =
          effect-eq-swept (noting node s) (paths_of found) pre items (Distinct-Apart pre items d')
            (Distinct-right pre items d')
          ∙ ap (λ xs. pre ++ xs) (swept-noting node s (paths_of found) items) in
        let moved =
          effect-Moved (noting node s) (paths_of found) items
            (Permᴰ.append_left pre (Permᴰ.symm order)) in
        let all : store.held (sync_osds api later path (noting node s) found items w).world
            ≡ record (store.held w) {
              osds = effect (noting node s) (paths_of found) items (pre ++ held);
            } =
          ground (arith, f, h, k) in
        (
          ap (λ x. x.status) all,
          subst (λ xs. Permᴰ xs (pre ++ swept node (paths_of found) items))
              (sym (ap (λ x. x.osds) all))
              (subst (λ xs. Permᴰ (effect (noting node s) (paths_of found) items (pre ++ held)) xs)
                swept_all moved),
        )

    node_synced :
        (later : CtrlResult) (w : W)
        → NewNames (store.held w)
        → All (IsOf node) (store.held w).osds
        → (items : List VitastorOsd) × Permᴰ items (store.held w).osds
          × IsAfter items (store.held w) (
              store.held
                (reconcile_node api later path (noting node (store.held w).status) w).world)
    unfolding reconcile_node first_agent sync ◌>>=◌
    node_synced later w d of =
        let s = (store.held w).status in
        let s' = (synced (store.held w)).status in
        let v₁ = (api.kube.list_pods (agent_options api node) w).1 in
        let k₁ = store.list_pods_keeps w in
        let v₂ = (observe api (noting node s) store.agent v₁).world in
        let (f, h) = observed api node path store store.agent s v₁ (ap (λ x. x.status) k₁) in
        let v₃ = (api.kube.list_osds (osd_options node) v₂).1 in
        let k₂ : store.held v₂ ≡ record (store.held w) { status = s' } = rw h (rw k₁ refl) in
        let k₃ = store.list_keeps v₂ ∙ k₂ in
        let (items, l, order) = store.lists v₂ in
        let order' : Permᴰ items (store.held w).osds =
          subst (λ xs. Permᴰ items xs) (ap {A = Held} (λ x. x.osds) k₂) order in
        let d' = NewNames-Moved (store.held w) items order' d in
        let same =
          add_same own items (store.held w).osds found [] (λ p. contains_osd-Moved p order') in
        let (e, m) =
          osds_synced later s' items (store.held w).osds v₃ (ap {A = Held} (λ x. x.osds) k₃) order'
            (rw same d) d' (All-Moved (IsOf node) (Permᴰ.symm order') of) in
        let run : store.held (reconcile_node api later path (noting node s) w).world
            ≡ store.held (sync_osds api later path (noting node s') found items v₃).world =
          ground (arith, store.lists_pods w, f, l) in
        (
          items,
          order',
          (
            ap (λ x. x.status) run ∙ e ∙ ap {A = Held} (λ x. x.status) k₃,
            subst (λ xs. Permᴰ xs (add own items found [] ++ swept node (paths_of found) items))
                (sym (ap (λ x. x.osds) run)) m,
          ),
        )

    -- A run of the reconciler that is connected to etcd.
    pub named_synced :
        (interval : ℤ) (w : W)
        → parse_int (env_or api "UPDATE_INTERVAL" "15") ≡ ok interval
        → NewNames (store.held w)
        → All (IsOf node) (store.held w).osds
        → (items : List VitastorOsd) × Permᴰ items (store.held w).osds
          × IsAfter items
              (store.held w)
              (store.held (reconcile_named api node.meta.name config w).world)
    unfolding reconcile_named ◌>>=◌
    named_synced interval w i d of =
        let s = (store.held w).status in
        let v₁ = (api.kube.get_node (cluster_scoped node.meta.name) w).1 in
        let k₁ = store.get_node_keeps w in
        let v₂ = (api.kube.get_kube_node (cluster_scoped node.meta.name) v₁).1 in
        let k₂ = store.get_kube_node_keeps v₁ ∙ k₁ in
        let v₃ = (put_node_placement api path (noting node s) store.kube_node v₂).world in
        let (f, h) = placement_put api node path store s v₂ in
        let k₃ : store.held v₃ ≡ store.held w = h ∙ k₂ in
        let later = requeue_in interval in
        let run : store.held (reconcile_named api node.meta.name config w).world
            ≡ store.held (reconcile_node api later path (noting node s) v₃).world =
          ground (arith, i, store.gets_node w, store.gets_kube_node v₁, f) in
        subst
          (λ h'.
            (items : List VitastorOsd) × Permᴰ items (store.held w).osds
            × IsAfter items (store.held w) h')
          (sym run)
          (subst
            (λ x.
              (items : List VitastorOsd) × Permᴰ items x.osds
              × IsAfter items x
                  (store.held (reconcile_node api later path (noting node x.status) v₃).world))
            k₃ (node_synced later v₃ (rw k₃ d) (rw k₃ of)))
