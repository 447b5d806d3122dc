-- ===== src/Tests/Placements.antt =====
-- The placement map at concrete inputs.
use vitastor_operator.Prelude.{◌≡◌, ◌≢◌, ◌↔◌, refl, true, any, [], ◌∷◌, some, none, String}
use vitastor_operator.Go.Map.{Entries, lookup, assign}
use vitastor_operator.Go.Text.{contains, split}
use vitastor_operator.Node.Placement.{
  place_node, apply_labels, apply_label, link_node, ensure_domain, contains_str_list,
}
use vitastor_operator.Node.Placement.Tree.{
  domain, is_malformed, place_node_panics, lookup-place_node,
}
use vitastor_operator.Node.Placement.Laws.{IsClosed}
use vitastor_operator.Prelude.Int.{pos}
use vitastor_operator.Go.Strconv.{itoa}
use vitastor_operator.Prelude.{All}
use vitastor_operator.Node.Placement.History.{
  History, started, node_placed, osd_placed, IsPlaced, history-IsClosed,
}
use mathlib.Core.List.{Perm}
use mathlib.Core.List.Perm
use vitastor_operator.Node.Placement.Orders.{place_node_permuted, place_node_other_order}
use vitastor_operator.Api.{VitastorNodePlacement}
use vitastor_operator.Tests.Samples.{at, labels, placements}

abbrev dc_label : String
dc_label = "fd.vitastor.io/dc"

place_node_runs : place_node "n1" labels [] ≡ some placements
unfolding place_node apply_labels apply_label link_node ensure_domain contains_str_list contains
    split lookup assign
place_node_runs = refl

lookup-place_node_example : lookup "dc1" placements ≡ some (at "dc" "")
unfolding lookup contains split contains_str_list
lookup-place_node_example = lookup-place_node "n1" labels [] placements "dc1" place_node_runs

place_node_panics_example :
    (place_node "n1" (("fd.vitastor.io", "dc1") ∷ []) [] ≡ none)
    ↔ (any is_malformed (("fd.vitastor.io", "dc1") ∷ []) ≡ true)
place_node_panics_example = place_node_panics "n1" (("fd.vitastor.io", "dc1") ∷ []) []

nothing-IsClosed : IsClosed []
unfolding lookup
nothing-IsClosed k p h e missing = cc

-- The node is placed, and then an OSD on it.
abbrev run_twice : History [] ("n1" ∷ []) (assign (itoa (pos 7)) (at "osd" "n1") placements)
run_twice = osd_placed (pos 7) "n1" (node_placed "n1" labels started place_node_runs) refl

history-IsClosed_example :
    IsClosed (assign (itoa (pos 7)) (at "osd" "n1") placements)
    × All (IsPlaced (assign (itoa (pos 7)) (at "osd" "n1") placements)) ("n1" ∷ [])
history-IsClosed_example =
    history-IsClosed [] (assign (itoa (pos 7)) (at "osd" "n1") placements) ("n1" ∷ [])
      nothing-IsClosed run_twice

-- The two labels of the node in the other order.
place_node_permuted_example :
    (m : Entries VitastorNodePlacement) × (place_node "n1"
        (("fd.vitastor.io/dc", "dc1") ∷ ("os", "linux") ∷ [])
        []
      ≡ some m)
    × ((k : String) → lookup k m ≡ lookup k placements)
unfolding contains split contains_str_list
place_node_permuted_example =
    place_node_permuted "n1" "dc1" labels (("fd.vitastor.io/dc", "dc1") ∷ ("os", "linux") ∷ []) []
      placements (Perm.swap ("fd.vitastor.io/dc", "dc1") ("os", "linux") []) refl place_node_runs

-- Two labels that name different datacenters.
abbrev twice_named : Entries String
twice_named = ("rack.fd.vitastor.io/dc", "dc1") ∷ ("fd.vitastor.io/dc", "dc2") ∷ []

twice_named_runs :
    place_node "n1" twice_named []
    ≡ some (("n1", at "host" "dc2") ∷ ("dc1", at "dc" "") ∷ ("dc2", at "dc" "") ∷ [])
unfolding place_node apply_labels apply_label link_node ensure_domain contains_str_list contains
    split lookup assign
twice_named_runs = refl

place_node_other_order_example :
    (labels' : Entries String) × (m : Entries VitastorNodePlacement) × Perm twice_named labels'
    × (place_node "n1" labels' [] ≡ some m)
    × (lookup "n1" m
        ≢ lookup "n1" (("n1", at "host" "dc2") ∷ ("dc1", at "dc" "") ∷ ("dc2", at "dc" "") ∷ []))
unfolding contains split contains_str_list domain
place_node_other_order_example =
    place_node_other_order "n1" twice_named []
      (("n1", at "host" "dc2") ∷ ("dc1", at "dc" "") ∷ ("dc2", at "dc" "") ∷ []) refl
      twice_named_runs
