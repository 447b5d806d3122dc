-- ===== src/Node/Osds/Moved.antt =====
-- What does not depend on the order of the objects.
use mathlib.Core.Path.{subst}
use mathlib.Core.List.{Permᴰ}
use mathlib.Core.List.Permᴰ
use vitastor_operator.Prelude.{
  String, ◌≡◌, refl, sym, ap, ◌∙◌, Bool, false, ◌==◌, List, [], ◌∷◌, arith, All, Bool-cases, inl,
  inr, eq_iff, count, if◌then◌else◌,
}
use vitastor_operator.Types.{VitastorNode, VitastorOsd}
use vitastor_operator.Node.Placement.{contains_osd, contains_str_list}
use vitastor_operator.Node.Osds.Prune.{rolled}
use vitastor_operator.Node.Osds.Swept.{Distinct, is_named, replace, remove, effect}

pub All-Moved : {A : Type 0} (Q : A → Type 0) {xs ys : List A} → Permᴰ xs ys → All Q xs → All Q ys
All-Moved Q Permᴰ.nil h = tt
All-Moved Q (Permᴰ.cons e d) h = (rw e at h.0, All-Moved Q d h.1)
All-Moved Q (Permᴰ.swap e f) h = (rw f at h.1.0, (rw e at h.0, h.1.1))
All-Moved Q (Permᴰ.trans d e) h = All-Moved Q e (All-Moved Q d h)

Distinct-swap :
    (a b : VitastorOsd) (l : List VitastorOsd) → Distinct (a ∷ b ∷ l) → Distinct (b ∷ a ∷ l)
Distinct-swap a b l h = (
  (ground (arith, h.0.0, eq_iff a.meta.name b.meta.name, eq_iff b.meta.name a.meta.name), h.1.0),
  (h.0.1, h.1.1),
)

pub Distinct-Moved : {s s' : List VitastorOsd} → Permᴰ s s' → Distinct s → Distinct s'
Distinct-Moved Permᴰ.nil h = tt
Distinct-Moved (Permᴰ.cons {a = a} e d) h =
    rw (sym e) (All-Moved (λ o. is_named a.meta.name o ≡ false) d h.0, Distinct-Moved d h.1)
Distinct-Moved (Permᴰ.swap {a = a} {b = b} {b' = b'} {l = l} e f) h =
    subst (λ o. Distinct (o ∷ b' ∷ l)) f
      (subst (λ o. Distinct (b ∷ o ∷ l)) e (Distinct-swap a b l h))
Distinct-Moved (Permᴰ.trans d e) h = Distinct-Moved e (Distinct-Moved d h)

replace-Moved :
    (osd : VitastorOsd) {s s' : List VitastorOsd}
    → Permᴰ s s'
    → Permᴰ (replace osd s) (replace osd s')
unfolding replace
replace-Moved osd Permᴰ.nil = Permᴰ.nil
replace-Moved osd (Permᴰ.cons e d) =
    Permᴰ.cons (ap (λ o. if is_named osd.meta.name o then osd else o) e) (replace-Moved osd d)
replace-Moved osd (Permᴰ.swap e f) =
    Permᴰ.swap (ap (λ o. if is_named osd.meta.name o then osd else o) e)
      (ap (λ o. if is_named osd.meta.name o then osd else o) f)
replace-Moved osd (Permᴰ.trans d e) = Permᴰ.trans (replace-Moved osd d) (replace-Moved osd e)

remove-Moved :
    (name : String) {s s' : List VitastorOsd} → Permᴰ s s' → Permᴰ (remove name s) (remove name s')
unfolding remove
remove-Moved name Permᴰ.nil = Permᴰ.nil
remove-Moved name (Permᴰ.cons {b = b} e d) = rw e (elim (Bool-cases (is_named name b)) [
  | inl y ↦ rw y (remove-Moved name d)
  | inr n ↦ rw n (Permᴰ.cons refl (remove-Moved name d))
])
remove-Moved name (Permᴰ.swap {a' = a} {b' = b} {l = l} e f) =
    rw (e, f)
      (elim (Bool-cases (is_named name a)) [
        | inl y ↦ rw y (Permᴰ.refl _)
        | inr n ↦ elim (Bool-cases (is_named name b)) [
          | inl y ↦ rw (n, y) (Permᴰ.refl _)
          | inr n' ↦ rw (n, n') (Permᴰ.swap refl refl)
        ]
      ])
remove-Moved name (Permᴰ.trans d e) = Permᴰ.trans (remove-Moved name d) (remove-Moved name e)

pub contains_osd-Moved :
    (path : String) {s s' : List VitastorOsd}
    → Permᴰ s s'
    → contains_osd s path ≡ contains_osd s' path
unfolding contains_osd
contains_osd-Moved path Permᴰ.nil = refl
contains_osd-Moved path (Permᴰ.cons e d) = ground (arith, contains_osd-Moved path d)
contains_osd-Moved path (Permᴰ.swap e f) = ground arith
contains_osd-Moved path (Permᴰ.trans d e) = contains_osd-Moved path d ∙ contains_osd-Moved path e

pub count-Moved :
    (test : VitastorOsd → Bool) {s s' : List VitastorOsd}
    → Permᴰ s s'
    → count test s ≡ count test s'
count-Moved test Permᴰ.nil = refl
count-Moved test (Permᴰ.cons e d) = ground (arith, count-Moved test d)
count-Moved test (Permᴰ.swap e f) = ground arith
count-Moved test (Permᴰ.trans d e) = count-Moved test d ∙ count-Moved test e

module _ (node : VitastorNode) (paths : List String) where
  pub effect-Moved :
      (items : List VitastorOsd) {s s' : List VitastorOsd}
      → Permᴰ s s'
      → Permᴰ (effect node paths items s) (effect node paths items s')
  unfolding effect
  effect-Moved [] d = d
  effect-Moved (osd ∷ items) d = elim (Bool-cases (contains_str_list paths osd.spec.osd_path)) [
    | inl y ↦ elim (Bool-cases (osd.spec.osd_image == node.spec.osd_image)) [
      | inl same ↦ rw (y, same) (effect-Moved items d)
      | inr other ↦ rw (y, other) (replace-Moved (rolled node osd) d)
    ]
    | inr n ↦ rw n (effect-Moved items (remove-Moved osd.meta.name d))
  ]
