-- ===== src/Node/Placement/Tree.antt =====
-- What `place_node` leaves at each key, and when it panics.
use Prim.Native.Char.{code}
use vitastor_operator.Prelude.{
  String, ◌≡◌, ◌↔◌, [], ◌∷◌, Bool, true, false, not, ◌&&◌, ◌||◌, Option, none, some, arith, any,
  nat_eq, ◌==◌, eq_iff, eq_refl, if◌then◌else◌, Bool-cases, Option-cases, inl, inr, ◌≢◌,
}
use vitastor_operator.Go.Text.{contains, split}
use vitastor_operator.Go.Map.{Entries, lookup, assign, present, lookup-assign}
use vitastor_operator.Api.{VitastorNodePlacement}
use vitastor_operator.Node.Placement.{
  contains_str_list, at_level, second_part, placement_levels_static, ensure_domain, apply_label,
  apply_labels, place_node,
}

-- A label of the failure domains, by its name alone.
abbrev pub is_domain_key : String → Bool
is_domain_key label = contains label "fd.vitastor.io"

unfoldable pub has_slash : String → Bool
has_slash String.[] = false
has_slash (String.◌∷◌ c s) = nat_eq (code c) b'/' || has_slash s

-- A label of the failure domains that has no slash.
abbrev pub is_malformed : String × String → Bool
is_malformed (label, value) = is_domain_key label && not (has_slash label)

abbrev level_known : Option String → Bool
level_known none = false
level_known (some level) = contains_str_list placement_levels_static level

-- A label that names the node's datacenter: its second part is a known level.
abbrev pub names_dc : String → Bool
names_dc label = is_domain_key label && level_known (second_part (split label b'/'))

-- The parent that the labels give to the node, after `parent`: the last of them decides.
unfoldable pub domain : String → Entries String → String
domain parent [] = parent
domain parent ((label, value) ∷ ls) = domain (if names_dc label then value else parent) ls

abbrev pub is_domain : String → String × String → Bool
is_domain k (label, value) = names_dc label && value == k

lookup-ensure_domain :
    (v k : String) (m : Entries VitastorNodePlacement)
    → lookup k (ensure_domain v m) ≡ (
        if present (lookup k m)
        then lookup k m
        else if v == k
        then some (at_level "dc" "")
        else none)
unfolding ensure_domain
lookup-ensure_domain v k m = ground (arith, lookup-assign v k (at_level "dc" "") m, eq_iff v k)

apply_label-name :
    (name label value parent : String) (m : Entries VitastorNodePlacement)
    {m' : Entries VitastorNodePlacement}
    → lookup name m ≡ some (at_level "host" parent)
    → apply_label name (label, value) m ≡ some m'
    → lookup name m' ≡ some (at_level "host" (if names_dc label then value else parent))
unfolding apply_label
apply_label-name name label value parent m h e =
    ground
      (arith, eq_refl name, lookup-assign name name (at_level "host" value) (ensure_domain value m))

apply_label-other :
    (name label value k : String) (m : Entries VitastorNodePlacement)
    {m' : Entries VitastorNodePlacement}
    → (name == k) ≡ false
    → apply_label name (label, value) m ≡ some m'
    → lookup k m' ≡ (
        if present (lookup k m)
        then lookup k m
        else if is_domain k (label, value)
        then some (at_level "dc" "")
        else none)
unfolding apply_label
apply_label-other name label value k m h e = ground (
  arith,
  lookup-assign name k (at_level "host" value) (ensure_domain value m),
  lookup-ensure_domain value k m,
)

apply_labels-name :
    (name : String) (ls : Entries String) (parent : String) (m : Entries VitastorNodePlacement)
    {m' : Entries VitastorNodePlacement}
    → lookup name m ≡ some (at_level "host" parent)
    → apply_labels name ls m ≡ some m'
    → lookup name m' ≡ some (at_level "host" (domain parent ls))
unfolding apply_labels domain
apply_labels-name name [] parent m h e = ground arith
apply_labels-name name ((label, value) ∷ ls) parent m h e =
    elim (Option-cases (apply_label name (label, value) m)) [
      | inl f ↦ cc (rw (f, apply_labels) at e)
      | inr (m₁, f) ↦
          apply_labels-name name ls (if names_dc label then value else parent) m₁
            (apply_label-name name label value parent m h f) (rw (f, apply_labels) at e)
    ]

apply_labels-other :
    (name k : String) (ls : Entries String) (m : Entries VitastorNodePlacement)
    {m' : Entries VitastorNodePlacement}
    → (name == k) ≡ false
    → apply_labels name ls m ≡ some m'
    → lookup k m' ≡ (
        if present (lookup k m)
        then lookup k m
        else if any (is_domain k) ls
        then some (at_level "dc" "")
        else none)
unfolding apply_labels
apply_labels-other name k [] m h e = ground arith
apply_labels-other name k ((label, value) ∷ ls) m h e =
    elim (Option-cases (apply_label name (label, value) m)) [
      | inl f ↦ cc (rw (f, apply_labels) at e)
      | inr (m₁, f) ↦ ground (
        arith,
        apply_labels-other name k ls m₁ h (rw (f, apply_labels) at e),
        apply_label-other name label value k m h f,
      )
    ]

split-ne-nil : (s : String) → split s b'/' ≢ []
unfolding split
split-ne-nil String.[] h = cc
split-ne-nil (String.◌∷◌ c s) h = ground arith

-- There is a second part exactly when there is a slash.
second_part-split : (s : String) → (second_part (split s b'/') ≡ none) ↔ (has_slash s ≡ false)
unfolding split has_slash
second_part-split String.[] = ground arith
second_part-split (String.◌∷◌ c s) = ground (arith, second_part-split s, split-ne-nil s)

apply_label-panics :
    (name label value : String) (m : Entries VitastorNodePlacement)
    → (apply_label name (label, value) m ≡ none) ↔ (is_malformed (label, value) ≡ true)
unfolding apply_label
apply_label-panics name label value m = ground (arith, second_part-split label)

apply_labels-panics :
    (name : String) (ls : Entries String) (m : Entries VitastorNodePlacement)
    → (apply_labels name ls m ≡ none) ↔ (any is_malformed ls ≡ true)
unfolding apply_labels
apply_labels-panics name [] m = ground arith
apply_labels-panics name ((label, value) ∷ ls) m =
    elim (Option-cases (apply_label name (label, value) m)) [
      | inl f ↦ rw (f, apply_labels) (ground (arith, apply_label-panics name label value m))
      | inr (m₁, f) ↦
          rw (f, apply_labels)
            (ground (arith, apply_label-panics name label value m, apply_labels-panics name ls m₁))
    ]

-- The reconciler panics on a node exactly when a label of the node contains "fd.vitastor.io" and
-- no slash.
pub place_node_panics :
    (name : String) (labels : Entries String) (m : Entries VitastorNodePlacement)
    → (place_node name labels m ≡ none) ↔ (any is_malformed labels ≡ true)
unfolding place_node
place_node_panics name labels m =
    apply_labels-panics name labels (assign name (at_level "host" "") m)

-- What the map has at each key.
abbrev pub placed :
    String → Entries String → Entries VitastorNodePlacement → String → Option VitastorNodePlacement
placed name labels m k =
    if name == k
    then some (at_level "host" (domain "" labels))
    else if present (lookup k m)
    then lookup k m
    else if any (is_domain k) labels
    then some (at_level "dc" "")
    else none

-- When the reconciler does not panic, the new map has at each key: at the node's name a host
-- below the value of the last label that names a datacenter, or below nothing without such a
-- label; at another key the entry that was there; at a key that was not there, a datacenter if
-- some label names it, and else nothing.
pub lookup-place_node :
    (name : String) (labels : Entries String) (m m' : Entries VitastorNodePlacement) (k : String)
    → place_node name labels m ≡ some m'
    → lookup k m' ≡ placed name labels m k
unfolding place_node
lookup-place_node name labels m m' k e = elim (Bool-cases (name == k)) [
  | inl same ↦ ground (
    arith,
    eq_refl name,
    eq_iff name k,
    lookup-assign name name (at_level "host" "") m,
    apply_labels-name name labels "" (assign name (at_level "host" "") m) {m' = m'},
  )
  | inr other ↦ ground (
    arith,
    apply_labels-other name k labels (assign name (at_level "host" "") m) other e,
    lookup-assign name k (at_level "host" "") m,
  )
]
