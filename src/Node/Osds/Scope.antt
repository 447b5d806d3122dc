-- ===== src/Node/Osds/Scope.antt =====
-- Whose OSDs the loops touch.
use vitastor_operator.Prelude.{
  String, ◌≡◌, true, List, [], ◌∷◌, All, any, arith, ◌==◌, eq_iff, Begins,
}
use vitastor_operator.Types.{VitastorNode, VitastorOsd}
use vitastor_operator.Types.Object.{Object, vitastor_osd}
use vitastor_operator.Flow.{Event, CtrlResult, updated, deleted, ok}
use vitastor_operator.Index.{osd_index}
use vitastor_operator.Api.{Api}
use vitastor_operator.Api.Laws.{ListsByIndex}
use vitastor_operator.Node.{osd_options}
use vitastor_operator.Node.Osds.Prune.{prune, planned, prune-Begins}

abbrev OsdOf : String → Object → Type 0
OsdOf name (vitastor_osd o) = o.spec.node_name ≡ name
OsdOf name _ = ⊥

-- A call that updates or deletes an OSD of the node with the name, if it updates or deletes anything.
abbrev pub Touches : String → Event → Type 0
Touches name (updated o) = OsdOf name o
Touches name (deleted o) = OsdOf name o
Touches name _ = Unit

planned-Touches :
    (name : String) (node : VitastorNode) (paths : List String) (items : List VitastorOsd)
    → All (λ osd. any (λ v. v == name) (osd_index osd) ≡ true) items
    → All (Touches name) (planned node paths items)
unfolding planned
planned-Touches name node paths [] h = tt
planned-Touches name node paths (osd ∷ items) h =
    ground (arith, planned-Touches name node paths items h.1, eq_iff osd.spec.node_name name)

Begins-All {κ} : {A : Type 0} (P : A → Type κ) (xs ys : List A) → Begins xs ys → All P ys → All P xs
Begins-All P [] ys b h = tt
Begins-All P (x ∷ xs) [] b h = absurd b
Begins-All P (x ∷ xs) (y ∷ ys) b h = (rw b.0 h.0, Begins-All P xs ys b.1 h.1)

module _ {W : Type 0} (api : Api W) (later : CtrlResult) (node : VitastorNode)
    (paths : List String) where
  -- The loop over the objects that the list of a node's OSDs returned updates and deletes OSDs of
  -- that node alone. The list is to return what the index function selects.
  pub prune_scope :
      ListsByIndex api
      → (items : List VitastorOsd) (v w : W)
      → (api.kube.list_osds (osd_options node) v).0 ≡ ok items
      → All (Touches node.meta.name) (prune api later node paths items w).events
  prune_scope index items v w h =
      Begins-All (Touches node.meta.name) (prune api later node paths items w).events
        (planned node paths items) (prune-Begins api later node paths items w)
        (planned-Touches node.meta.name node paths items (index node.meta.name v items h))
