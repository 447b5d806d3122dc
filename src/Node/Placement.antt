-- ===== src/Node/Placement.antt =====
-- The placement tree that the node's reconciler keeps in etcd, as a function of the map: the node's
-- entry, and the failure domain that the node's labels name.
pub mod Tree
pub mod Laws
pub mod History
pub mod Orders
use vitastor_operator.Prelude.{
  String, List, [], ◌∷◌, Bool, false, ◌||◌, Option, none, some, ◌==◌, if◌then◌else◌,
}
use vitastor_operator.Go.Text.{contains, split}
use vitastor_operator.Go.Map.{Entries, lookup, assign, present}
use vitastor_operator.Types.{VitastorOsd}
use vitastor_operator.Api.{VitastorNodePlacement}

unfoldable pub contains_str_list : List String → String → Bool
contains_str_list [] str = false
contains_str_list (v ∷ s) str = v == str || contains_str_list s str

-- `contains`, over the OSDs' paths
unfoldable pub contains_osd : List VitastorOsd → String → Bool
contains_osd [] str = false
contains_osd (v ∷ s) str = v.spec.osd_path == str || contains_osd s str

abbrev pub placement_levels_static : List String
placement_levels_static = "dc" ∷ []

abbrev pub at_level : String → String → VitastorNodePlacement
at_level level parent = record { level = level; parent = parent }

-- The map with a failure domain, if it is new.
unfoldable pub ensure_domain :
    String → Entries VitastorNodePlacement → Entries VitastorNodePlacement
unfolding lookup assign
ensure_domain value m = if present (lookup value m) then m else assign value (at_level "dc" "") m

-- `splittedLabel[1]`, which panics in a label with no slash
abbrev pub second_part : List String → Option String
second_part [] = none
second_part (part ∷ []) = none
second_part (part ∷ level ∷ parts) = some level

unfoldable pub link_node :
    String → String → Entries VitastorNodePlacement → String → Entries VitastorNodePlacement
unfolding contains_str_list ensure_domain
link_node name value m level =
    if contains_str_list placement_levels_static level
    then assign name (at_level "host" value) (ensure_domain value m)
    else m

-- One round of the loop over the labels; `none` is a panic.
unfoldable pub apply_label :
    String
    → String × String
    → Entries VitastorNodePlacement
    → Option (Entries VitastorNodePlacement)
unfolding link_node
apply_label name (label, value) m =
    if contains label "fd.vitastor.io"
    then elim (second_part (split label b'/')) [
      | none ↦ none
      | some level ↦ some (link_node name value m level)
    ]
    else some m

-- The labels stand in the order in which the loop meets them, which Go does not determine.
unfoldable pub apply_labels :
    String → Entries String → Entries VitastorNodePlacement → Option (Entries VitastorNodePlacement)
apply_labels name [] m = some m
apply_labels name (l ∷ ls) m = elim (apply_label name l m) [
  | none ↦ none
  | some m' ↦ apply_labels name ls m'
]

unfoldable pub place_node :
    String → Entries String → Entries VitastorNodePlacement → Option (Entries VitastorNodePlacement)
place_node name labels m = apply_labels name labels (assign name (at_level "host" "") m)
