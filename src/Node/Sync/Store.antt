-- ===== src/Node/Sync/Store.antt =====
-- The world that the node's reconciler is alone in.
use mathlib.Core.List.{Permᴰ}
use vitastor_operator.Prelude.{ℕ, String, ◌≡◌, false, true, List, ◌∷◌, Option, some, any, nat_eq}
use vitastor_operator.Go.Map.{Entries}
use vitastor_operator.Types.{
  Kind, Meta, VitastorNode, VitastorNodeStatus, VitastorOsd, KubeNode, Pod,
}
use vitastor_operator.Flow.{ok}
use vitastor_operator.Api.{Api, referred, EtcdResponse, VitastorNodePlacement, first_value}
use vitastor_operator.Api.Laws.{is_ok, cluster_scoped}
use vitastor_operator.Node.{agent_options, osd_options}
use vitastor_operator.Node.Osds.Swept.{Absent, replace, remove}
use vitastor_operator.Node.Placement.Tree.{is_malformed}
use vitastor_operator.Node.Written.{read_value}
use vitastor_operator.Node.Sync.{Held}

-- The node with a status.
abbrev pub noting : VitastorNode → VitastorNodeStatus → VitastorNode
noting node status = record node { status = status }

-- The object is of the node: it is among those that a list by the node's name answers.
abbrev pub IsOf : VitastorNode → VitastorOsd → Type 0
IsOf node osd = osd.spec.node_name ≡ node.meta.name

-- A world that holds the node's status and the OSD objects that are of the node, in which the node's
-- labels have a slash where they need one, its agent runs and gives the same answers at any time, etcd
-- has a placement map under the key and takes every put, the server answers each get and list, lists the
-- node's objects in any order, which may differ from one time to the next, creates an object of the node
-- if there is none of its name, and accepts every update and deletion, and nobody else writes. An object
-- that is created or updated is among those that are held if its `spec.nodeName` is the node's name. A
-- list compares as equal to itself.
pub record NodeStore {W : Type 0} (api : Api W) (node : VitastorNode) (path : String) : Type 0 where
  pub held : W → Held
  pub owned : Meta → Meta
  pub sets_owner :
      (m : Meta)
      → api.library.set_controller_reference Kind.vitastor_node node.meta (some m)
        ≡ referred (owned m)
  pub keeps_name : (m : Meta) → (owned m).name ≡ m.name
  pub gets_node :
      (w : W)
      → (api.kube.get_node (cluster_scoped node.meta.name) w).0 ≡ ok (noting node (held w).status)
  pub get_node_keeps :
      (w : W) → held (api.kube.get_node (cluster_scoped node.meta.name) w).1 ≡ held w
  pub kube_node : KubeNode
  pub labelled : any is_malformed kube_node.labels ≡ false
  pub gets_kube_node :
      (w : W) → (api.kube.get_kube_node (cluster_scoped node.meta.name) w).0 ≡ ok kube_node
  pub get_kube_node_keeps :
      (w : W) → held (api.kube.get_kube_node (cluster_scoped node.meta.name) w).1 ≡ held w
  pub reads :
      (w : W)
      → (raw : EtcdResponse) × (m : Entries VitastorNodePlacement) × ((api.etcd.get path w).0
          ≡ ok raw)
        × (nat_eq raw.count 0 ≡ false)
        × (read_value api (first_value raw) ≡ some m)
  pub read_keeps : (w : W) → held (api.etcd.get path w).1 ≡ held w
  pub encodes : (m : Entries VitastorNodePlacement) → is_ok (api.codec.encode_placements m) ≡ true
  pub put_ok : (k v : String) (w : W) → is_ok (api.etcd.put k v w).0 ≡ true
  pub put_keeps : (k v : String) (w : W) → held (api.etcd.put k v w).1 ≡ held w
  pub agent : Pod
  pub agents : List Pod
  pub lists_pods : (w : W) → (api.kube.list_pods (agent_options api node) w).0 ≡ ok (agent ∷ agents)
  pub list_pods_keeps : (w : W) → held (api.kube.list_pods (agent_options api node) w).1 ≡ held w
  pub body : String → ℕ
  pub text : String → String
  pub gets_body : (url : String) (w : W) → (api.host.http_get url w).0 ≡ ok (body url)
  pub get_body_keeps : (url : String) (w : W) → held (api.host.http_get url w).1 ≡ held w
  pub reads_body : (url : String) (w : W) → (api.host.read_all (body url) w).0 ≡ ok (text url)
  pub read_body_keeps : (url : String) (w : W) → held (api.host.read_all (body url) w).1 ≡ held w
  pub same : (xs : Option (List String)) → api.library.equal_sorted xs xs ≡ true
  pub update_status_ok : (n : VitastorNode) (w : W) → (api.kube.update_node_status n w).0 ≡ ok n
  pub updates_status :
      (n : VitastorNode) (w : W)
      → held (api.kube.update_node_status n w).1 ≡ record (held w) { status = n.status }
  pub lists :
      (w : W)
      → (items : List VitastorOsd) × ((api.kube.list_osds (osd_options node) w).0 ≡ ok items)
        × Permᴰ items (held w).osds
  pub list_keeps : (w : W) → held (api.kube.list_osds (osd_options node) w).1 ≡ held w
  pub create_ok :
      (osd : VitastorOsd) (w : W)
      → IsOf node osd
      → Absent osd.meta.name (held w).osds
      → (api.kube.create_osd osd w).0 ≡ ok osd
  pub creates :
      (osd : VitastorOsd) (w : W)
      → IsOf node osd
      → Absent osd.meta.name (held w).osds
      → held (api.kube.create_osd osd w).1 ≡ record (held w) { osds = osd ∷ (held w).osds }
  pub update_ok : (osd : VitastorOsd) (w : W) → is_ok (api.kube.update_osd osd w).0 ≡ true
  pub updates :
      (osd : VitastorOsd) (w : W)
      → IsOf node osd
      → held (api.kube.update_osd osd w).1 ≡ record (held w) { osds = replace osd (held w).osds }
  pub delete_ok : (osd : VitastorOsd) (w : W) → is_ok (api.kube.delete_osd osd w).0 ≡ true
  pub deletes :
      (osd : VitastorOsd) (w : W)
      → held (api.kube.delete_osd osd w).1
        ≡ record (held w) { osds = remove osd.meta.name (held w).osds }
