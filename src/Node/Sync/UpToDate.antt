-- ===== src/Node/Sync/UpToDate.antt =====
-- How `sync` brings the node's status and objects up to date.
use mathlib.Core.List.{Permᴰ}
use mathlib.Core.List.Permᴰ
use vitastor_operator.Prelude.{
  ◌-◌, String, ◌<>◌, ◌≡◌, refl, ap, ◌∙◌, true, List, [], ◌∷◌, arith, Option, some, All, All-map,
  All-zip, All-append, count, count-append, count-none, eq_refl,
}
use vitastor_operator.Types.{VitastorNode, VitastorNodeStatus, VitastorOsd}
use vitastor_operator.Api.{Api, VitastorConfig, OsdPartition, SystemDisk}
use vitastor_operator.Node.Agent.{appended}
use vitastor_operator.Node.Agent.Status.{status_of, up_to_date}
use vitastor_operator.Node.Osds.{get_configuration}
use vitastor_operator.Node.Osds.Prune.{is_outdated}
use vitastor_operator.Node.Osds.Moved.{All-Moved, count-Moved, contains_osd-Moved}
use vitastor_operator.Node.Osds.Swept.{Distinct, swept, count-swept, is_settled, swept_settled}
use vitastor_operator.Node.Sync.{Held, add, paths_of, sync}
use vitastor_operator.Node.Sync.Added.{
  Described, contains_osd-append, add-All, add_none, add-Described, swept-contains,
  swept_after-Distinct, listed,
}
use vitastor_operator.Node.Sync.Store.{NodeStore, IsOf}
use vitastor_operator.Node.Sync.Observed.{disks, empty_disks}
use vitastor_operator.Node.Sync.Runs.{path, own, found, synced, NewNames, NewNames-Moved, IsAfter}

-- What was noted compares as equal to the agent's answers.
status_noted :
    {W : Type 0} (api : Api W)
    → ((xs : Option (List String)) → api.library.equal_sorted xs xs ≡ true)
    → (disks empty_disks : List SystemDisk) (osds : List OsdPartition) (s : VitastorNodeStatus)
    → up_to_date api disks empty_disks osds (status_of api disks empty_disks osds s) ≡ true
status_noted api same disks empty_disks osds s = ground (
  arith,
  same (some (appended (λ (d : SystemDisk). d.name) disks)),
  same (some (appended (λ (d : SystemDisk). d.name) empty_disks)),
  same (some (appended (λ (o : OsdPartition). o.data_device) osds)),
)

module _ {W : Type 0} (api : Api W) (node : VitastorNode) (config : VitastorConfig)
    (store : NodeStore api node (config.vitastor_prefix <> "/config/node_placement")) where
  abbrev agent_osds : List OsdPartition
  agent_osds = found api node config store

  abbrev pub paths : List String
  paths = paths_of agent_osds

  -- The status notes the agent's answers, every OSD of the agent has an object, and every object has
  -- a path that the agent lists and the node's image.
  abbrev pub UpToDate : Held → Type 0
  UpToDate h =
      (up_to_date api (disks api node (path api node config store) store store.agent)
          (empty_disks api node (path api node config store) store store.agent) agent_osds h.status
        ≡ true)
      × Described agent_osds h.osds
      × All (λ osd. is_settled node paths osd ≡ true) h.osds

  own_settled : All (λ p. is_settled node paths (own api node config store p) ≡ true) agent_osds
  unfolding get_configuration
  own_settled =
      All-map _ _ (λ p h. ground (arith, eq_refl node.spec.osd_image)) agent_osds
        (listed agent_osds)

  module _ (h : Held) where
    abbrev pre : List VitastorOsd
    pre = add (own api node config store) h.osds agent_osds []

    pub synced-Distinct :
        NewNames api node config store h → Distinct (synced api node config store h).osds
    unfolding sync
    synced-Distinct d = swept_after-Distinct node paths pre h.osds d

    pub synced-Described : Described agent_osds (synced api node config store h).osds
    unfolding sync get_configuration
    synced-Described =
        All-zip _ _ _
          (λ p l d. ground (
            arith,
            l,
            d,
            swept-contains node paths h.osds p.data_device l,
            contains_osd-append pre (swept node paths h.osds) p.data_device,
          ))
          agent_osds (listed agent_osds)
          (add-Described (own api node config store) h.osds (λ p. refl) agent_osds [])

    pub synced-NewNames :
        NewNames api node config store h
        → NewNames api node config store (synced api node config store h)
    synced-NewNames d =
        rw
          (add_none (own api node config store) (synced api node config store h).osds agent_osds []
            synced-Described)
          (synced-Distinct d)

    pre_settled : All (λ osd. is_settled node paths osd ≡ true) pre
    pre_settled =
        add-All (own api node config store) h.osds (λ osd. is_settled node paths osd ≡ true)
          agent_osds [] own_settled tt

    -- Each run leaves one outdated object less.
    pub count-synced :
        count (is_outdated node paths) (synced api node config store h).osds
        ≡ count (is_outdated node paths) h.osds - 1
    unfolding sync
    count-synced = omega (
      arith,
      count-append {0} (is_outdated node paths) pre (swept node paths h.osds),
      count-none {0} (is_outdated node paths) pre
          (All-map _ _ (λ o s. ground arith) pre pre_settled),
      count-swept node paths h.osds,
    )

    pub synced-UpToDate :
        count (is_outdated node paths) h.osds ≡ 0 → UpToDate (synced api node config store h)
    unfolding sync
    synced-UpToDate c = (
      status_noted api store.same _ _ agent_osds h.status,
      synced-Described,
      All-append _ pre (swept node paths h.osds) pre_settled (swept_settled node paths h.osds c),
    )

  -- What a run leaves of the objects is of the node.
  swept-IsOf :
      (items : List VitastorOsd) → All (IsOf node) items → All (IsOf node) (swept node paths items)
  unfolding swept
  swept-IsOf [] of = tt
  swept-IsOf (o ∷ items) of = ground (arith, swept-IsOf items of.1)

  -- What is held after a run, whatever the order in which it listed the objects.
  module _ (named : node.spec.node_name ≡ node.meta.name) (h h' : Held) (items : List VitastorOsd)
      (order : Permᴰ items h.osds) (after : IsAfter api node config store items h h') where
    abbrev listed_first : Held
    listed_first = record h { osds = items }

    pub after-NewNames : NewNames api node config store h → NewNames api node config store h'
    after-NewNames d =
        NewNames-Moved api node config store (synced api node config store listed_first) h'.osds
          after.1
          (synced-NewNames listed_first (NewNames-Moved api node config store h items order d))

    pub after-IsOf : All (IsOf node) h.osds → All (IsOf node) h'.osds
    unfolding sync get_configuration
    after-IsOf of = All-Moved (IsOf node) (Permᴰ.symm after.1) (
        All-append (IsOf node) (pre listed_first) (swept node paths items)
          (add-All (own api node config store) items (IsOf node) agent_osds []
            (All-map _ _ (λ p l. named) agent_osds (listed agent_osds)) tt)
          (swept-IsOf items (All-Moved (IsOf node) (Permᴰ.symm order) of)))

    pub count-after :
        count (is_outdated node paths) h'.osds ≡ count (is_outdated node paths) h.osds - 1
    count-after =
        count-Moved (is_outdated node paths) after.1
        ∙ count-synced listed_first
        ∙ ap (λ n. n - 1) (count-Moved (is_outdated node paths) order)

    pub after-UpToDate : count (is_outdated node paths) h.osds ≡ 0 → UpToDate h'
    after-UpToDate c =
        let (noted, described, settled) =
          synced-UpToDate listed_first (count-Moved (is_outdated node paths) order ∙ c) in
        (
          rw after.0 noted,
          All-map _ _ (λ p e. contains_osd-Moved p.data_device after.1 ∙ e) agent_osds described,
          All-Moved _ (Permᴰ.symm after.1) settled,
        )
