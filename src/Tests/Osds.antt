-- ===== src/Tests/Osds.antt =====
-- The two loops over the OSDs at concrete inputs.
use vitastor_operator.Prelude.{
  count, ◌≤◌, arith, some, ◌≡◌, ◌↔◌, refl, false, any, [], ◌∷◌, All, Begins,
}
use vitastor_operator.Prelude.Int.{pos}
use vitastor_operator.Types.Object.{vitastor_osd}
use vitastor_operator.Flow.{ok, Succeeded, next, ◌>>=◌, for_each, updated, deleted, no_requeue}
use vitastor_operator.Go.Map.{Entries, lookup, assign}
use vitastor_operator.Go.Strconv.{itoa}
use vitastor_operator.Api.{Api, VitastorNodePlacement}
use vitastor_operator.Node.Osds.Placed.{PlacementStore, ensure_placed}
use vitastor_operator.Api.Memory.{World, memory, memory-ListsByIndex, memory-RoundTripsPlacements}
use vitastor_operator.Api.Calls.{set_owner}
use vitastor_operator.Node.Placement.{contains_str_list, contains_osd}
use vitastor_operator.Node.Osds.{
  prune_osd, roll_osd, drop_osd, ensure_osd, deploy_osd, place_osd, get_configuration,
}
use vitastor_operator.Node.Osds.Prune.{
  prune, planned, rolled, is_outdated, prune_plan, prune-Begins, prune_one_update, is_update,
  prune_done,
}
use vitastor_operator.Node.Osds.Scope.{Touches, prune_scope}
use vitastor_operator.Node.Osds.Ensure.{ensure, wanted, created_specs, ensure_creates}
use vitastor_operator.Tests.Samples.{at, empty, server, node, gone, old, fresh, partition}

prune_plan_example :
    (prune server no_requeue node ("/dev/a" ∷ []) (gone ∷ old ∷ fresh ∷ []) empty).events
    ≡ deleted (vitastor_osd gone) ∷ updated (vitastor_osd (rolled node old)) ∷ []
unfolding for_each ◌>>=◌ prune_osd roll_osd drop_osd planned contains_str_list
prune_plan_example =
    prune_plan server no_requeue node ("/dev/a" ∷ []) (gone ∷ old ∷ fresh ∷ []) empty refl

prune-Begins_example :
    Begins
      (prune server no_requeue node ("/dev/a" ∷ []) (gone ∷ old ∷ fresh ∷ []) empty).events
      (planned node ("/dev/a" ∷ []) (gone ∷ old ∷ fresh ∷ []))
prune-Begins_example =
    prune-Begins server no_requeue node ("/dev/a" ∷ []) (gone ∷ old ∷ fresh ∷ []) empty

prune_one_update_example :
    count is_update
      (prune server no_requeue node ("/dev/a" ∷ []) (gone ∷ old ∷ fresh ∷ []) empty).events
    ≤ 1
prune_one_update_example =
    prune_one_update server no_requeue node ("/dev/a" ∷ []) (gone ∷ old ∷ fresh ∷ []) empty

prune_done_example :
    Succeeded (prune server no_requeue node ("/dev/a" ∷ []) (gone ∷ fresh ∷ []) empty).flow
    × (((prune server no_requeue node ("/dev/a" ∷ []) (gone ∷ fresh ∷ []) empty).flow ≡ next tt)
        ↔ (any (is_outdated node ("/dev/a" ∷ [])) (gone ∷ fresh ∷ []) ≡ false))
prune_done_example =
    prune_done server no_requeue node ("/dev/a" ∷ []) (λ osd w. refl, λ osd w. refl)
      (gone ∷ fresh ∷ []) empty

abbrev stored : World
stored = record empty { osds = gone ∷ old ∷ [] }

prune_scope_example :
    All (Touches "n1") (prune server no_requeue node ("/dev/a" ∷ []) (gone ∷ old ∷ []) empty).events
unfolding lookup
prune_scope_example =
    prune_scope server no_requeue node ("/dev/a" ∷ []) (memory-ListsByIndex [] [] [])
      (gone ∷ old ∷ []) stored empty refl

-- The codec knows the map with the new OSD's entry, which etcd holds already.
abbrev osd_server : Api World
osd_server = memory (("n1", at "host" "") ∷ ("7", at "osd" "n1") ∷ []) [] []

abbrev placed_world : World
placed_world = record empty { data_of = ("/p", "sample") ∷ [] }

ensure_creates_example :
    created_specs
      (ensure osd_server "/p" node
        (gone ∷ [])
        (partition "/dev/c" (pos 7) ∷ [])
        placed_world).events
    ≡ wanted node (gone ∷ []) (partition "/dev/c" (pos 7) ∷ [])
unfolding for_each ◌>>=◌ ensure_osd deploy_osd place_osd get_configuration set_owner contains_osd
    lookup assign itoa
ensure_creates_example =
    ensure_creates osd_server "/p" node (gone ∷ []) (partition "/dev/c" (pos 7) ∷ []) placed_world
      refl

-- One map of placements, which is held whatever is put.
abbrev sample : Entries VitastorNodePlacement
sample = ("n1", at "host" "") ∷ ("7", at "osd" "n1") ∷ []

abbrev placing : Api World
placing = record osd_server {
  etcd = record osd_server.etcd {
    get = λ k w. (ok (record { count = 1; kvs = "sample" ∷ [] }), w);
  };
}

placing-PlacementStore : PlacementStore placing "/p"
placing-PlacementStore = record {
  held = λ w. sample;
  gets = λ w. (record { count = 1; kvs = "sample" ∷ [] }, refl, refl);
  get_keeps = λ w. refl;
  puts = λ text m w d e. ground arith;
  create_keeps = λ osd w. refl;
  echoes = λ osd osd' w e. ground arith;
}

ensure_placed_example :
    lookup "7" (
      placing-PlacementStore.held
        (ensure placing "/p" node (gone ∷ []) (partition "/dev/c" (pos 7) ∷ []) placed_world).world)
    ≡ some (at "osd" "n1")
unfolding for_each ◌>>=◌ ensure_osd deploy_osd place_osd get_configuration set_owner contains_osd
    lookup assign itoa placing-PlacementStore
ensure_placed_example =
    ensure_placed placing "/p" node (memory-RoundTripsPlacements sample [] [])
      placing-PlacementStore (gone ∷ []) (partition "/dev/c" (pos 7) ∷ []) "7" placed_world refl
