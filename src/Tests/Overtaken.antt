-- ===== src/Tests/Overtaken.antt =====
-- A concurrent write to the placement map at a concrete input, and the labels in another order.
use vitastor_operator.Prelude.{
  String, ◌≡◌, refl, ◌∙◌, ap, sym, Bool-cases, inl, inr, Option, none, some, [], ◌∷◌, arith, ◌==◌,
  eq_refl, if◌then◌else◌,
}
use vitastor_operator.Go.Map.{Entries, lookup, assign, lookup-assign}
use vitastor_operator.Flow.{Result, ok, err, failed, ◌>>=◌}
use vitastor_operator.Api.{Api, VitastorNodePlacement}
use vitastor_operator.Api.Laws.{RoundTripsPlacements}
use vitastor_operator.Api.Memory.{
  World, answer_of, same_entries, same_placement, same_entries_sound, same_placement_sound,
}
use vitastor_operator.Node.{put_node_placement, decode_placements}
use vitastor_operator.Node.Placement.{contains_str_list, place_node, apply_labels, apply_label}
use vitastor_operator.Go.Text.{contains, split}
use vitastor_operator.Node.Written.{held}
use vitastor_operator.Node.Overtaken.{MapStore, overtaken, late_write_lost}
use vitastor_operator.Tests.Samples.{empty, server, node, kube_node, at, placements}

-- Three maps with a text: the node's entry alone, another node's alone, and both. Another text
-- stands for the empty map.
abbrev other_entry : Entries VitastorNodePlacement
other_entry = ("n9", at "host" "") ∷ []

abbrev both : Entries VitastorNodePlacement
both = ("n9", at "host" "") ∷ placements

abbrev map_of : String → Entries VitastorNodePlacement
map_of text =
    if text == "node"
    then placements
    else if text == "both"
    then both
    else if text == "other"
    then other_entry
    else []

abbrev text_of : Entries VitastorNodePlacement → Result String
text_of m =
    if same_entries same_placement m placements
    then ok "node"
    else if same_entries same_placement m both
    then ok "both"
    else err (failed "other")

abbrev keeping : Api World
keeping = record server {
  codec = record server.codec {
    decode_placements = λ text. ok (some (map_of text));
    encode_placements = text_of;
  };
}

abbrev stored : Option String → Entries VitastorNodePlacement
stored none = []
stored (some text) = map_of text

decoded :
    (m : Entries VitastorNodePlacement) (text : String) → text_of m ≡ ok text → map_of text ≡ m
decoded m text h = elim (Bool-cases (same_entries same_placement m placements)) [
  | inl y ↦
      let e : text ≡ "node" = ground arith in
      ap map_of e ∙ sym (same_entries_sound same_placement same_placement_sound m placements y)
  | inr n ↦ elim (Bool-cases (same_entries same_placement m both)) [
    | inl y ↦
        let e : text ≡ "both" = ground arith in
        ap map_of e ∙ sym (same_entries_sound same_placement same_placement_sound m both y)
    | inr n' ↦ absurd (ground arith)
  ]
]

keeping-RoundTripsPlacements : RoundTripsPlacements keeping
keeping-RoundTripsPlacements m text h = (map_of text, refl, λ k. ap (lookup k) (decoded m text h))

answers : (o : Option String) → held keeping (answer_of o) ≡ some (stored o)
answers none = refl
answers (some text) = refl

keeping-MapStore : MapStore keeping "/p"
keeping-MapStore = record {
  map_in = λ w. stored (lookup "/p" w.data_of);
  gets = λ w. (answer_of (lookup "/p" w.data_of), refl, answers (lookup "/p" w.data_of));
  get_keeps = λ w. refl;
  puts = λ text m w d h. ground (arith, lookup-assign "/p" "/p" text w.data_of, eq_refl "/p");
}

-- Another process writes its own entry.
abbrev others : World → World
others w = (keeping.etcd.put "/p" "other" w).1

late_write_lost_example :
    (lookup "n9" (
        keeping-MapStore.map_in
          (put_node_placement (overtaken others keeping) "/p" node kube_node empty).world)
      ≡ none)
    × (lookup "n9" (
          keeping-MapStore.map_in
            (put_node_placement keeping "/p" node kube_node (others empty)).world)
        ≡ some (at "host" ""))
unfolding keeping-MapStore contains split assign lookup put_node_placement contains_str_list ◌>>=◌
    decode_placements place_node apply_labels apply_label
late_write_lost_example =
    late_write_lost keeping "/p" node kube_node keeping-RoundTripsPlacements keeping-MapStore others
      empty "n9" (at "host" "") refl refl refl
      (λ v. ground (arith, lookup-assign "/p" "/p" "other" v.data_of, eq_refl "/p")) refl refl
