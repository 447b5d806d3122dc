-- ===== src/Node/Sync/Deployed.antt =====
-- From the agent's list to the containers: the node's and the OSD's reconcilers together
-- (controllers/vitastornode_controller.go, controllers/vitastorosd_controller.go).
use mathlib.Core.List.{Mem, mem-cons_self, mem-cons_of_mem}
use vitastor_operator.Prelude.{
  ℕ, ◌<◌, String, ◌<>◌, ◌≡◌, refl, true, List, [], ◌∷◌, ◌++◌, arith, All, All-map, count, map, ◌==◌,
  eq_iff, Bool-cases, inl, inr,
}
use vitastor_operator.Prelude.Int.{ℤ}
use vitastor_operator.Types.{VitastorNode, VitastorOsd, StatefulSet}
use vitastor_operator.Types.Workload.{Container}
use vitastor_operator.Flow.{ok}
use vitastor_operator.Api.{Api, VitastorConfig, OsdPartition}
use vitastor_operator.Config.{env_or, parse_int}
use vitastor_operator.Config.Connected.{Connection}
use vitastor_operator.Node.Osds.Prune.{is_outdated}
use vitastor_operator.Node.Osds.Swept.{is_settled}
use vitastor_operator.Node.Placement.{contains_osd}
use vitastor_operator.Node.Sync.Store.{NodeStore, IsOf}
use vitastor_operator.Node.Sync.Runs.{found, NewNames}
use vitastor_operator.Node.Sync.UpToDate.{paths}
use vitastor_operator.Node.Sync.Settles.{runs, runs-IsOf, node_settles}
use vitastor_operator.Osd.{stateful_set_of}

-- The commands of the containers of a stateful set with their arguments, each with its image.
abbrev pub commands : StatefulSet → List (String × List String)
commands s = map (λ (c : Container). (c.image, c.command ++ c.args)) s.template.spec.containers

-- Some object on the path is settled, and of the node.
described_settled :
    (node : VitastorNode) (listed : List String) (items : List VitastorOsd) (path : String)
    → contains_osd items path ≡ true
    → All (λ osd. is_settled node listed osd ≡ true) items
    → All (IsOf node) items
    → (osd : VitastorOsd) × Mem osd items
      × (osd.spec.osd_path ≡ path)
      × (osd.spec.osd_image ≡ node.spec.osd_image)
      × IsOf node osd
unfolding contains_osd
described_settled node listed [] path h s of = cc
described_settled node listed (o ∷ items) path h s of =
    elim (Bool-cases (o.spec.osd_path == path)) [
      | inl y ↦ (
        o,
        mem-cons_self,
        ground (arith, eq_iff o.spec.osd_path path),
        ground (arith, s.0, eq_iff o.spec.osd_image node.spec.osd_image),
        of.0,
      )
      | inr n ↦
          let (osd, m, e, i, at) =
            described_settled node listed items path (ground arith) s.1 of.1 in
          (osd, mem-cons_of_mem o m, e, i, at)
    ]

-- An object of `items` runs the OSD of the agent on the node, with the node's image, whatever the
-- namespace and the port.
abbrev pub IsRun : VitastorNode → List VitastorOsd → OsdPartition → Type 0
IsRun node items p =
    (osd : VitastorOsd) × Mem osd items
    × ((ns : String) (port : ℤ)
        → (commands (stateful_set_of ns osd port)
            ≡ (node.spec.osd_image, "vitastor-disk" ∷ "exec-osd" ∷ p.data_device ∷ []) ∷ [])
          × ((stateful_set_of ns osd port).template.spec.node_name ≡ node.meta.name))

module _ {W : Type 0} (api : Api W) (node : VitastorNode) (config : VitastorConfig)
    (store : NodeStore api node (config.vitastor_prefix <> "/config/node_placement"))
    (c : Connection api config store.held) (interval : ℤ)
    (i : parse_int (env_or api "UPDATE_INTERVAL" "15") ≡ ok interval)
    (named : node.spec.node_name ≡ node.meta.name) where
  -- More runs of the node's reconciler than there are outdated objects leave, for every OSD that the
  -- agent lists, an object of which the OSD's reconciler makes a stateful set with one container, that
  -- runs this OSD by `vitastor-disk exec-osd` with the node's image, in a pod of this node. The
  -- configuration and a placement map are to be there, the node's labels to have a slash where they need
  -- one, its `spec.nodeName` to be its name, its agent to give the same answers at any time, etcd and the
  -- server to answer every get and list and to accept what is sent (an object that is created if the
  -- node has none of its name), nobody else is to write to them, and the objects that are there and
  -- those that a run creates are to have different names and the objects that are there to be of the
  -- node.
  pub agent_osds-IsRun :
      (n : ℕ) (w : W)
      → NewNames api node config store (store.held w)
      → All (IsOf node) (store.held w).osds
      → count (is_outdated node (paths api node config store)) (store.held w).osds < n
      → All
          (IsRun node (store.held (runs api node.meta.name n w)).osds)
          (found api node config store)
  unfolding stateful_set_of
  agent_osds-IsRun n w d of h =
      let ((u, described, settled), f, q) =
        node_settles api node config store c interval i named n w d of h in
      let all_of = runs-IsOf api node config store c interval i named n w d of in
      All-map _ _
        (λ p e.
          let (osd, m, path, image, at) =
            described_settled node (paths api node config store) _ p.data_device e settled all_of in
          (osd, m, λ ns port. (rw (image, path) refl, at)))
        (found api node config store) described
