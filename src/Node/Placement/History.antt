-- ===== src/Node/Placement/History.antt =====
-- The placement map over any sequence of runs, on any nodes, and of OSDs that are placed.
use vitastor_operator.Prelude.{
  String, ◌≡◌, ◌≢◌, List, [], ◌∷◌, none, some, arith, any, true, ◌==◌, All, All-map, eq_iff,
  eq_refl,
}
use vitastor_operator.Prelude.Int.{ℤ}
use vitastor_operator.Go.Map.{Entries, lookup, assign, lookup-assign}
use vitastor_operator.Go.Strconv.{itoa}
use vitastor_operator.Api.{VitastorNodePlacement}
use vitastor_operator.Node.Placement.{at_level, place_node}
use vitastor_operator.Node.Placement.Tree.{lookup-place_node}
use vitastor_operator.Node.Placement.Laws.{IsClosed, place_node-IsClosed, assign-IsClosed}

-- From one map to another by runs, the last one first: a node is placed by its labels, or an OSD
-- below a node that was placed before. The list has the nodes that were placed.
pub data History (start : Entries VitastorNodePlacement)
    : List String → Entries VitastorNodePlacement → Type 0 where
  started : History start [] start
  node_placed :
      {names : List String} {m m' : Entries VitastorNodePlacement}
      → (name : String) (labels : Entries String) → History start names m
      → place_node name labels m ≡ some m'
      → History start (name ∷ names) m'
  osd_placed :
      {names : List String} {m : Entries VitastorNodePlacement}
      → (n : ℤ) (node_name : String) → History start names m
      → any (λ name. name == node_name) names ≡ true
      → History start names (assign (itoa n) (at_level "osd" node_name) m)

-- The name has an entry.
abbrev pub IsPlaced : Entries VitastorNodePlacement → String → Type 0
IsPlaced m name = lookup name m ≢ none

place_node-IsPlaced :
    (name k : String) (labels : Entries String) (m m' : Entries VitastorNodePlacement)
    → place_node name labels m ≡ some m'
    → IsPlaced m k
    → IsPlaced m' k
place_node-IsPlaced name k labels m m' e h q = ground (arith, lookup-place_node name labels m m' k)

own_name-IsPlaced :
    (name : String) (labels : Entries String) (m m' : Entries VitastorNodePlacement)
    → place_node name labels m ≡ some m'
    → IsPlaced m' name
own_name-IsPlaced name labels m m' e q =
    ground (arith, lookup-place_node name labels m m' name, eq_refl name)

assign-IsPlaced :
    (key k : String) (p : VitastorNodePlacement) (m : Entries VitastorNodePlacement)
    → IsPlaced m k
    → IsPlaced (assign key p m) k
assign-IsPlaced key k p m h q = ground (arith, lookup-assign key k p m)

named-IsPlaced :
    (m : Entries VitastorNodePlacement) (names : List String) (k : String)
    → All (IsPlaced m) names
    → any (λ name. name == k) names ≡ true
    → IsPlaced m k
named-IsPlaced m [] k h e q = cc
named-IsPlaced m (name ∷ names) k h e q =
    ground (arith, named-IsPlaced m names k h.1, eq_iff name k)

-- After any sequence of runs of the reconcilers of any nodes, whatever their labels, and of OSDs that
-- they place, no entry names a parent without an entry, and every node that was placed has an entry;
-- if no entry did so at first, and if an OSD is placed below a node that was placed before.
pub history-IsClosed :
    (start m : Entries VitastorNodePlacement) (names : List String)
    → IsClosed start
    → History start names m
    → IsClosed m × All (IsPlaced m) names
history-IsClosed start _ _ c started = (c, tt)
history-IsClosed start m _ c (node_placed {names = names} {m = m₀} name labels h e) =
    let (closed, there) = history-IsClosed start m₀ names c h in
    (
      place_node-IsClosed name labels m₀ m closed e,
      (
        own_name-IsPlaced name labels m₀ m e,
        All-map _ _ (λ k p. place_node-IsPlaced name k labels m₀ m e p) names there,
      ),
    )
history-IsClosed start _ names c (osd_placed {m = m₀} n node_name h e) =
    let (closed, there) = history-IsClosed start m₀ names c h in
    (
      assign-IsClosed (itoa n) "osd" node_name m₀ closed
          (named-IsPlaced m₀ names node_name there e),
      All-map _ _ (λ k p. assign-IsPlaced (itoa n) k (at_level "osd" node_name) m₀ p) names there,
    )
