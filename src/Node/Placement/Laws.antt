-- ===== src/Node/Placement/Laws.antt =====
-- The placement map over many reconciliations, its parents, and the order of the labels.
use vitastor_operator.Prelude.{
  String, ◌≡◌, ◌≢◌, refl, [], ◌∷◌, true, ◌⊎◌, inl, inr, none, some, arith, any, eq_refl,
  Option-cases,
}
use vitastor_operator.Go.Map.{Entries, lookup, assign, lookup-assign}
use vitastor_operator.Api.{VitastorNodePlacement}
use vitastor_operator.Node.Placement.{at_level, place_node}
use vitastor_operator.Node.Placement.Tree.{
  names_dc, domain, is_domain, place_node_panics, lookup-place_node,
}

-- A map that the reconciler has written is written again with the same entry at each key.
place_node_again :
    (name : String) (labels : Entries String) (m m' : Entries VitastorNodePlacement)
    → place_node name labels m ≡ some m'
    → (m'' : Entries VitastorNodePlacement) × (place_node name labels m' ≡ some m'')
      × ((k : String) → lookup k m'' ≡ lookup k m')
place_node_again name labels m m' e = elim (Option-cases (place_node name labels m')) [
  | inl f ↦
      absurd (ground (arith, place_node_panics name labels m, place_node_panics name labels m'))
  | inr (m'', f) ↦ (
    m'',
    f,
    λ k.
        ground
          (arith, lookup-place_node name labels m m' k, lookup-place_node name labels m' m'' k),
  )
]

-- Every parent that an entry names has an entry of its own.
abbrev pub IsClosed : Entries VitastorNodePlacement → Type 0
IsClosed m =
    (k : String) (p : VitastorNodePlacement)
    → lookup k m ≡ some p
    → p.parent ≢ ""
    → lookup p.parent m ≢ none

-- The parent is the one given, or the value of a label.
domain-named :
    (parent : String) (ls : Entries String)
    → (domain parent ls ≡ parent) ⊎ (any (is_domain (domain parent ls)) ls ≡ true)
unfolding domain
domain-named parent [] = inl refl
domain-named parent ((label, value) ∷ ls) =
    ground (arith, domain-named value ls, domain-named parent ls, eq_refl value)

-- The reconciler keeps the map closed: whatever the labels, no entry that it leaves names a parent
-- without an entry.
pub place_node-IsClosed :
    (name : String) (labels : Entries String) (m m' : Entries VitastorNodePlacement)
    → IsClosed m
    → place_node name labels m ≡ some m'
    → IsClosed m'
place_node-IsClosed name labels m m' closed e k p at h missing = ground (
  arith,
  closed k p,
  lookup-place_node name labels m m' k,
  lookup-place_node name labels m m' p.parent,
  domain-named "" labels,
)

-- So does an OSD's entry, if its node has one.
pub assign-IsClosed :
    (key level parent : String) (m : Entries VitastorNodePlacement)
    → IsClosed m
    → lookup parent m ≢ none
    → IsClosed (assign key (at_level level parent) m)
assign-IsClosed key level parent m closed there k p at h missing = ground (
  arith,
  closed k p,
  lookup-assign key k (at_level level parent) m,
  lookup-assign key p.parent (at_level level parent) m,
)

-- Two labels that name different datacenters: the loop's order, which Go leaves open, decides the
-- node's parent.
place_node_order :
    (name l₁ v₁ l₂ v₂ : String) (m m₁ m₂ : Entries VitastorNodePlacement)
    → names_dc l₁ ≡ true
    → names_dc l₂ ≡ true
    → v₁ ≢ v₂
    → place_node name ((l₁, v₁) ∷ (l₂, v₂) ∷ []) m ≡ some m₁
    → place_node name ((l₂, v₂) ∷ (l₁, v₁) ∷ []) m ≡ some m₂
    → (lookup name m₁ ≡ some (at_level "host" v₂))
      × (lookup name m₂ ≡ some (at_level "host" v₁))
      × (lookup name m₁ ≢ lookup name m₂)
unfolding domain
place_node_order name l₁ v₁ l₂ v₂ m m₁ m₂ h₁ h₂ ne e₁ e₂ = ground (
  arith,
  eq_refl name,
  lookup-place_node name ((l₁, v₁) ∷ (l₂, v₂) ∷ []) m m₁ name,
  lookup-place_node name ((l₂, v₂) ∷ (l₁, v₁) ∷ []) m m₂ name,
)
