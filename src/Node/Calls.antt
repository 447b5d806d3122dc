-- ===== src/Node/Calls.antt =====
-- Which calls the node's reconciler makes, whatever the world answers.
use vitastor_operator.Prelude.{String, ◌<>◌, ◌≡◌, List, arith}
use vitastor_operator.Prelude.Int.{ℤ}
use vitastor_operator.Types.{VitastorNode, VitastorOsd, KubeNode, Pod}
use vitastor_operator.Types.Object.{Object, vitastor_node, vitastor_osd}
use vitastor_operator.Flow.{
  Event, etcd_put, created, updated, deleted, status_updated, body_opened, body_closed, Action,
  CtrlResult, ◌>>=◌,
}
use vitastor_operator.Flow.Order.{IsConnection}
use vitastor_operator.Flow.Rules.{Emits, emits_rules}
use vitastor_operator.Api.{Api, VitastorConfig, OsdPartition}
use vitastor_operator.Api.Calls.{set_owner}
use vitastor_operator.Config.Rules.{Managed, IsReleased, Emits-with_etcd, with_etcd-IsReleased}
use vitastor_operator.Node.Agent.{Seen, fetch, write_status}
use vitastor_operator.Node.Osds.{place_osd, deploy_osd, ensure_osd, roll_osd, drop_osd, prune_osd}
use vitastor_operator.Node.{
  decode_placements, put_node_placement, first_agent, observe, sync_osds, reconcile_node,
  reconcile_named, reconcile,
}

abbrev pub IsOsd : Object → Type 0
IsOsd (vitastor_osd o) = Unit
IsOsd _ = ⊥

abbrev pub IsNode : Object → Type 0
IsNode (vitastor_node n) = Unit
IsNode _ = ⊥

-- The placement map is put; OSDs are created, updated and deleted; the status of nodes is written;
-- the agent's answers are opened and closed.
abbrev pub NodeCall : String → Event → Type 0
NodeCall prefix (etcd_put k v) = k ≡ prefix <> "/config/node_placement"
NodeCall prefix (created o) = IsOsd o
NodeCall prefix (updated o) = IsOsd o
NodeCall prefix (deleted o) = IsOsd o
NodeCall prefix (status_updated o) = IsNode o
NodeCall prefix (body_opened b) = Unit
NodeCall prefix (body_closed b) = Unit
NodeCall prefix _ = ⊥

module _ {W : Type 0} (api : Api W) (config : VitastorConfig) where
  abbrev Fine : {A : Type 0} → Action W A → Type 0
  Fine m = Emits (NodeCall config.vitastor_prefix) m

  abbrev path : String
  path = config.vitastor_prefix <> "/config/node_placement"

  put_node_placement-Fine :
      (node : VitastorNode) (kube_node : KubeNode)
      → Fine (put_node_placement api path node kube_node)
  unfolding put_node_placement decode_placements ◌>>=◌
  put_node_placement-Fine node kube_node = record { at = λ w. ground arith }

  fetch-Fine : (url : String) → Fine (fetch api url)
  unfolding fetch ◌>>=◌
  fetch-Fine url = record { at = λ w. ground arith }

  write_status-Fine : (s : Seen) → Fine (write_status api s)
  unfolding write_status ◌>>=◌
  write_status-Fine s = record { at = λ w. ground arith }

  place_osd-Fine : (node : VitastorNode) (n : ℤ) → Fine (place_osd api path node n)
  unfolding place_osd ◌>>=◌
  place_osd-Fine node n = record { at = λ w. ground arith }

  deploy_osd-Fine : (node : VitastorNode) (osd : OsdPartition) → Fine (deploy_osd api node osd)
  unfolding deploy_osd set_owner ◌>>=◌
  deploy_osd-Fine node osd = record { at = λ w. ground arith }

  ensure_osd-Fine :
      (node : VitastorNode) (items : List VitastorOsd) (osd : OsdPartition)
      → Fine (ensure_osd api path node items osd)
  unfolding ensure_osd
  ensure_osd-Fine node items osd = search (emits_rules, place_osd-Fine, deploy_osd-Fine)

  prune_osd-Fine :
      (later : CtrlResult) (node : VitastorNode) (paths : List String) (osd : VitastorOsd)
      → Fine (prune_osd api later node paths osd)
  unfolding prune_osd roll_osd drop_osd ◌>>=◌
  prune_osd-Fine later node paths osd = record { at = λ w. ground arith }

  sync_osds-Fine :
      (later : CtrlResult) (node : VitastorNode) (osds : List OsdPartition)
      (items : List VitastorOsd)
      → Fine (sync_osds api later path node osds items)
  unfolding sync_osds
  sync_osds-Fine later node osds items = search (emits_rules, ensure_osd-Fine, prune_osd-Fine)

  observe-Fine : (node : VitastorNode) (agent : Pod) → Fine (observe api node agent)
  unfolding observe
  observe-Fine node agent = search (emits_rules, fetch-Fine, write_status-Fine) depth 12

  first_agent-Fine : (later : CtrlResult) (agents : List Pod) → Fine (first_agent api later agents)
  unfolding first_agent
  first_agent-Fine later List.[] = search emits_rules
  first_agent-Fine later (List.◌∷◌ a as') = search emits_rules

  reconcile_node-Fine :
      (later : CtrlResult) (node : VitastorNode) → Fine (reconcile_node api later path node)
  unfolding reconcile_node
  reconcile_node-Fine later node =
      search (emits_rules, first_agent-Fine, observe-Fine, sync_osds-Fine, tt) depth 15

  reconcile_named-Fine : (name : String) → Fine (reconcile_named api name config)
  unfolding reconcile_named
  reconcile_named-Fine name =
      search (emits_rules, put_node_placement-Fine, reconcile_node-Fine, tt) depth 15

apart : (prefix : String) (e : Event) → NodeCall prefix e → ¬ IsConnection e
apart prefix e h = ground arith

module _ {W : Type 0} (api : Api W) (name : String) where
  -- Whatever the world answers, a run of the node's reconciler makes these calls alone: it opens
  -- and closes the configuration, the etcd client and the agent's answers; it puts the placement
  -- map, below some prefix; it creates, updates and deletes VitastorOSDs; it writes the status of
  -- VitastorNodes.
  pub node_calls : Emits (Managed NodeCall) (reconcile api name)
  unfolding reconcile
  node_calls =
      Emits-with_etcd api NodeCall (reconcile_named api name)
        λ config. reconcile_named-Fine api config name

  -- However the run ends, it has closed as many etcd clients and files as it opened.
  pub node-IsReleased : (w : W) → IsReleased (reconcile api name w).events
  unfolding reconcile
  node-IsReleased w =
      with_etcd-IsReleased api NodeCall (reconcile_named api name)
        (λ config. reconcile_named-Fine api config name) apart w
