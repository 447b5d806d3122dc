-- ===== src/Node/Agent.antt =====
-- What the node's reconciler asks of the agent, and the node's status that follows from it.
pub mod Paths
pub mod Status
pub mod Bodies
use vitastor_operator.Prelude.{
  String, true, Bool, Option, some, List, [], ◌∷◌, ◌++◌, map, length, replicate, if◌then◌else◌,
}
use vitastor_operator.Types.{VitastorNode}
use vitastor_operator.Flow.{body_opened, body_closed, Action, pure, ◌>>=◌, ◌>>◌, or_fail}
use vitastor_operator.Api.{Api, SystemDisk, OsdPartition}
use vitastor_operator.Api.Calls.{ask, emit, update_node_status}

-- `make([]string, len(xs))`, and then an `append` for each element
unfoldable pub appended {ℓ} : {A : Type ℓ} → (A → String) → List A → List String
appended name xs = replicate (length xs) "" ++ map name xs

-- The node with the status seen so far, and whether it changed.
pub record Seen : Type 0 where
  pub node : VitastorNode
  pub changed : Bool

module _ {W : Type 0} (api : Api W) where
  -- An answer's body; it is closed after it was read.
  unfoldable pub fetch : String → Action W String
  fetch url = do
    got ← ask (api.host.http_get url)
    body ← or_fail got
    emit (body_opened body ∷ [])
    read ← ask (api.host.read_all body)
    text ← or_fail read
    emit (body_closed body ∷ [])
    pure text

  abbrev pub compare_arrays : Option (List String) → Option (List String) → Bool
  compare_arrays = api.library.equal_sorted

  unfoldable pub see_disks : List SystemDisk → Seen → Seen
  unfolding appended
  see_disks disks s =
      let paths = appended (λ (d : SystemDisk). d.name) disks in
      if compare_arrays (some paths) s.node.status.disks then s else record {
        node = record s.node { status = record s.node.status { disks = some paths } };
        changed = true;
      }

  unfoldable pub see_empty_disks : List SystemDisk → Seen → Seen
  unfolding appended
  see_empty_disks disks s =
      let paths = appended (λ (d : SystemDisk). d.name) disks in
      if compare_arrays (some paths) s.node.status.empty_disks then s else record {
        node = record s.node { status = record s.node.status { empty_disks = some paths } };
        changed = true;
      }

  unfoldable pub see_osds : List OsdPartition → Seen → Seen
  unfolding appended
  see_osds osds s =
      let paths = appended (λ (o : OsdPartition). o.data_device) osds in
      if compare_arrays (some paths) s.node.status.vitastor_disks then s else record {
        node = record s.node { status = record s.node.status { vitastor_disks = some paths } };
        changed = true;
      }

  -- The node as the server answers it, if its status was written.
  unfoldable pub write_status : Seen → Action W VitastorNode
  write_status s =
      if s.changed then (do answer ← update_node_status api s.node; or_fail answer) else pure s.node
