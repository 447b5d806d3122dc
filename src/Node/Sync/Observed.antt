-- ===== src/Node/Sync/Observed.antt =====
-- What the agent's answers do to the status that is held.
use vitastor_operator.Prelude.{String, ◌<>◌, ◌≡◌, ◌∙◌, false, List, arith}
use vitastor_operator.Types.{VitastorNode, VitastorNodeStatus, Pod}
use vitastor_operator.Flow.{next, ◌>>=◌}
use vitastor_operator.Api.{Api, OsdPartition, SystemDisk}
use vitastor_operator.Node.{observe}
use vitastor_operator.Node.Agent.{fetch, write_status, see_disks, see_empty_disks, see_osds}
use vitastor_operator.Node.Agent.Status.{seen, status_of}
use vitastor_operator.Node.Sync.Store.{NodeStore, noting}

module _ {W : Type 0} (api : Api W) (node : VitastorNode) (path : String)
    (store : NodeStore api node path) where
  -- The text of an answer.
  pub fetched :
      (url : String) (w : W)
      → ((fetch api url w).flow ≡ next (store.text url))
        × (store.held (fetch api url w).world ≡ store.held w)
  unfolding fetch ◌>>=◌
  fetched url w =
      let v = (api.host.http_get url w).1 in
      ground (
        arith,
        store.gets_body url w,
        store.get_body_keeps url w,
        store.reads_body url v,
        store.read_body_keeps url v,
      )

  module _ (agent : Pod) where
    abbrev pub url : String
    url = "http://" <> agent.pod_ip <> ":8000/disk"

    abbrev pub disks : List SystemDisk
    disks = api.codec.decode_disks (store.text url)

    abbrev pub empty_disks : List SystemDisk
    empty_disks = api.codec.decode_disks (store.text (url <> "/empty"))

    abbrev pub osds : List OsdPartition
    osds = api.codec.decode_osds (store.text (url <> "/osd"))

    seen_status :
        (s : VitastorNodeStatus)
        → (seen api disks empty_disks osds (noting node s)).node
          ≡ noting node (status_of api disks empty_disks osds s)
    unfolding see_disks see_empty_disks see_osds
    seen_status s = ground arith

    unseen :
        (s : VitastorNodeStatus)
        → (seen api disks empty_disks osds (noting node s)).changed ≡ false
        → status_of api disks empty_disks osds s ≡ s
    unfolding see_disks see_empty_disks see_osds
    unseen s h = ground arith

    status_kept :
        (s : VitastorNodeStatus) (w : W)
        → (store.held w).status ≡ s
        → ((write_status api (seen api disks empty_disks osds (noting node s)) w).flow
            ≡ next (noting node (status_of api disks empty_disks osds s)))
          × (store.held (write_status api (seen api disks empty_disks osds (noting node s)) w).world
              ≡ record (store.held w) { status = status_of api disks empty_disks osds s })
    unfolding write_status ◌>>=◌
    status_kept s w e =
        let t = seen api disks empty_disks osds (noting node s) in
        ground (
          arith,
          seen_status s,
          unseen s,
          store.update_status_ok t.node w,
          store.updates_status t.node w,
        )

    -- The node with the agent's disks noted, and the agent's OSDs.
    pub observed :
        (s : VitastorNodeStatus) (w : W)
        → (store.held w).status ≡ s
        → ((observe api (noting node s) agent w).flow
            ≡ next (noting node (status_of api disks empty_disks osds s), osds))
          × (store.held (observe api (noting node s) agent w).world
              ≡ record (store.held w) { status = status_of api disks empty_disks osds s })
    unfolding observe ◌>>=◌
    observed s w e =
        let v₁ = (fetch api url w).world in
        let v₂ = (fetch api (url <> "/empty") v₁).world in
        let v₃ = (fetch api (url <> "/osd") v₂).world in
        let (f₁, h₁) = fetched url w in
        let (f₂, h₂) = fetched (url <> "/empty") v₁ in
        let (f₃, h₃) = fetched (url <> "/osd") v₂ in
        let k : store.held v₃ ≡ store.held w = h₃ ∙ h₂ ∙ h₁ in
        let (f, h) = status_kept s v₃ (rw k e) in ground (arith, f₁, f₂, f₃, k, f, h)
