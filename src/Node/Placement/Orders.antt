-- ===== src/Node/Placement/Orders.antt =====
-- The order in which the loop meets the labels, which Go leaves open.
use mathlib.Core.List.{Perm, Permᴰ}
use mathlib.Core.List.Perm
use mathlib.Core.List.{perm_append_singleton}
use mathlib.Core.Logic.{∥∥₁_elim}
use mathlib.Core.Bool.{Bool-set}
use vitastor_operator.Prelude.{
  String, ◌≡◌, ◌≢◌, ◌++◌, Bool-cases, refl, ◌∙◌, [], ◌∷◌, Bool, true, false, not, ◌&&◌, List, some,
  arith, any, ◌==◌, eq_iff, eq_refl, if◌then◌else◌, Option-cases, inl, inr,
}
use vitastor_operator.Go.Map.{Entries, lookup}
use vitastor_operator.Api.{VitastorNodePlacement}
use vitastor_operator.Node.Placement.{place_node}
use vitastor_operator.Node.Placement.Tree.{
  names_dc, domain, is_domain, is_malformed, place_node_panics, lookup-place_node,
}

-- Whether some element passes a test does not depend on the order.
any_of_moves {ℓ} :
    {A : Type ℓ} (test : A → Bool) {xs ys : List A} → Permᴰ xs ys → any test xs ≡ any test ys
any_of_moves test Permᴰ.nil = refl
any_of_moves test (Permᴰ.cons e d) = ground (arith, any_of_moves test d)
any_of_moves test (Permᴰ.swap e f) = ground arith
any_of_moves test (Permᴰ.trans d e) = any_of_moves test d ∙ any_of_moves test e

any_of_perm {ℓ} :
    {A : Type ℓ} (test : A → Bool) {xs ys : List A} → Perm xs ys → any test xs ≡ any test ys
any_of_perm test p = ∥∥₁_elim p (Bool-set _ _) (any_of_moves test)

-- A label that names another datacenter than `v`.
abbrev pub is_elsewhere : String → String × String → Bool
is_elsewhere v (label, value) = names_dc label && not (value == v)

domain_of_one :
    (v parent : String) (ls : Entries String)
    → any (is_elsewhere v) ls ≡ false
    → domain parent ls ≡ (if any (λ l. names_dc l.0) ls then v else parent)
unfolding domain
domain_of_one v parent [] h = refl
domain_of_one v parent ((label, value) ∷ ls) h =
    ground (arith, eq_iff value v, domain_of_one v value ls, domain_of_one v parent ls)

domain-snoc :
    (parent label value : String) (ls : Entries String)
    → names_dc label ≡ true
    → domain parent (ls ++ (label, value) ∷ []) ≡ value
unfolding domain
domain-snoc parent label value [] h = ground arith
domain-snoc parent label value ((l, v) ∷ ls) h =
    domain-snoc (if names_dc l then v else parent) label value ls h

-- A label that names another datacenter can come last, and then decides.
another_last :
    (v : String) (ls : Entries String)
    → any (is_elsewhere v) ls ≡ true
    → (ls' : Entries String) × Perm ls ls' × ((parent : String) → domain parent ls' ≢ v)
unfolding domain
another_last v [] h = cc
another_last v ((label, value) ∷ ls) h = elim (Bool-cases (is_elsewhere v (label, value))) [
  | inl y ↦ (
    ls ++ (label, value) ∷ [],
    Perm.symm (perm_append_singleton (label, value) ls),
    λ parent e. ground (arith, domain-snoc parent label value ls, eq_iff value v),
  )
  | inr n ↦
      let (ls', p, d) = another_last v ls (ground arith) in
      (
        (label, value) ∷ ls',
        Perm.cons (label, value) p,
        λ parent. d (if names_dc label then value else parent),
      )
]

-- If the labels of a node name no two datacenters, the order in which the reconciler meets them does
-- not matter: in any other order it does not panic either, and leaves the same entry at each key.
pub place_node_permuted :
    (name v : String) (labels labels' : Entries String) (m m' : Entries VitastorNodePlacement)
    → Perm labels labels'
    → any (is_elsewhere v) labels ≡ false
    → place_node name labels m ≡ some m'
    → (m'' : Entries VitastorNodePlacement) × (place_node name labels' m ≡ some m'')
      × ((k : String) → lookup k m'' ≡ lookup k m')
place_node_permuted name v labels labels' m m' p h e =
    elim (Option-cases (place_node name labels' m)) [
      | inl f ↦ absurd (
          ground (
            arith,
            any_of_perm is_malformed p,
            place_node_panics name labels m,
            place_node_panics name labels' m,
          ))
      | inr (m'', f) ↦ (
        m'',
        f,
        λ k. ground (
          arith,
          lookup-place_node name labels m m' k,
          lookup-place_node name labels' m m'' k,
          domain_of_one v "" labels,
          domain_of_one v "" labels',
          any_of_perm (is_elsewhere v) p,
          any_of_perm (λ l. names_dc l.0) p,
          any_of_perm (is_domain k) p,
        ),
      )
    ]

-- If a label names another datacenter than the one that the node was placed below, the order in which
-- the reconciler meets the labels matters: in some other order it leaves another entry of the node.
pub place_node_other_order :
    (name : String) (labels : Entries String) (m m' : Entries VitastorNodePlacement)
    → any (is_elsewhere (domain "" labels)) labels ≡ true
    → place_node name labels m ≡ some m'
    → (labels' : Entries String) × (m'' : Entries VitastorNodePlacement) × Perm labels labels'
      × (place_node name labels' m ≡ some m'')
      × (lookup name m'' ≢ lookup name m')
place_node_other_order name labels m m' h e =
    let (labels', p, d) = another_last (domain "" labels) labels h in
    elim (Option-cases (place_node name labels' m)) [
      | inl f ↦ absurd (
          ground (
            arith,
            any_of_perm is_malformed p,
            place_node_panics name labels m,
            place_node_panics name labels' m,
          ))
      | inr (m'', f) ↦ (
        labels',
        m'',
        p,
        f,
        λ same. d "" (
            ground (
              arith,
              same,
              eq_refl name,
              lookup-place_node name labels m m' name,
              lookup-place_node name labels' m m'' name,
            )),
      )
    ]
