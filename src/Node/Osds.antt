-- ===== src/Node/Osds.antt =====
-- The two loops of the node's reconciler over the OSDs: create what the agent found and no object
-- describes, then update or delete what the objects describe.
pub mod Prune
pub mod Ensure
pub mod Entry
pub mod Scope
pub mod Names
pub mod Placed
pub mod Swept
pub mod Moved
pub mod Rollout
use vitastor_operator.Prelude.{◌*◌, String, ◌<>◌, [], List, none, some, ◌==◌, if◌then◌else◌}
use vitastor_operator.Prelude.Int.{ℤ, pos}
use vitastor_operator.Go.Map.{assign}
use vitastor_operator.Go.Strconv.{itoa}
use vitastor_operator.Types.{Kind, VitastorNode, VitastorOsd}
use vitastor_operator.Flow.{
  minute, Result, ok, err, CtrlResult, Action, no_requeue, pure, return, ◌>>=◌, or_fail, or_crash,
}
use vitastor_operator.Api.{Api, OsdPartition, first_value}
use vitastor_operator.Api.Calls.{ask, put, create_osd, update_osd, delete_osd, set_owner}
use vitastor_operator.Node.Placement.{contains_osd, contains_str_list, at_level}

unfoldable pub get_configuration : String → ℤ → VitastorNode → VitastorOsd
get_configuration osd_path osd_number node = record {
  meta = record { namespace = ""; name = "vitastor-osd-" <> itoa osd_number; owners = [] };
  spec = record {
    node_name = node.spec.node_name;
    osd_path = osd_path;
    osd_number = osd_number;
    osd_image = node.spec.osd_image;
    osd_tags = "";
  };
}

module _ {W : Type 0} (api : Api W) where
  -- The OSD's entry in the placement map, which must be there.
  unfoldable pub place_osd : String → VitastorNode → ℤ → Action W (Unit {0})
  place_osd path node osd_number = do
    got ← ask (api.etcd.get path)
    raw ← or_fail got
    value ← or_crash (first_value raw)
    decoded ← or_fail (api.codec.decode_placements value)
    placements ← or_crash decoded
    encoded ← or_fail (
        api.codec.encode_placements
          (assign (itoa osd_number) (at_level "osd" node.spec.node_name) placements))
    answer ← put api path encoded
    or_fail answer

  unfoldable pub deploy_osd : VitastorNode → OsdPartition → Action W VitastorOsd
  deploy_osd node osd = do
    let new_osd = get_configuration osd.data_device osd.osd_number node
    meta ← set_owner api Kind.vitastor_node node.meta (some new_osd.meta)
    answer ← create_osd api (record new_osd { meta = meta })
    or_fail answer

  -- The body of the first loop.
  unfoldable pub ensure_osd :
      String → VitastorNode → List VitastorOsd → OsdPartition → Action W (Unit {0})
  ensure_osd path node items osd =
      if contains_osd items osd.data_device
      then place_osd path node osd.osd_number
      else do new_osd ← deploy_osd node osd; place_osd path node new_osd.spec.osd_number

  -- Update the image, and come back in three minutes.
  unfoldable pub roll_osd : VitastorNode → VitastorOsd → Action W (Unit {0})
  roll_osd node osd = do
    answer ←
        update_osd api (record osd { spec = record osd.spec { osd_image = node.spec.osd_image } })
    _ ← or_fail answer
    return (record no_requeue { requeue_after = pos (3 * minute) }) none

  deletion : CtrlResult → Result (Unit {0}) → Action W (Unit {0})
  deletion later (ok _) = pure tt
  deletion later (err e) = return later (some e)

  unfoldable pub drop_osd : CtrlResult → VitastorOsd → Action W (Unit {0})
  unfolding deletion
  drop_osd later osd = do answer ← delete_osd api osd; deletion later answer

  -- The body of the second loop.
  unfoldable pub prune_osd :
      CtrlResult → VitastorNode → List String → VitastorOsd → Action W (Unit {0})
  prune_osd later node osd_paths osd =
      if contains_str_list osd_paths osd.spec.osd_path
      then if osd.spec.osd_image == node.spec.osd_image then pure tt else roll_osd node osd
      else drop_osd later osd
