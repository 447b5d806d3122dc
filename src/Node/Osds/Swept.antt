-- ===== src/Node/Osds/Swept.antt =====
-- What a run of the loop over the objects leaves of the objects, as a function of the list.
use vitastor_operator.Prelude.{
  ◌-◌, String, ◌≡◌, refl, true, false, Bool, ◌&&◌, List, [], ◌∷◌, ◌++◌, arith, All, All-append,
  ◌==◌, eq_iff, eq_refl, count, if◌then◌else◌,
}
use mathlib.Core.List.{append_assoc}
use vitastor_operator.Types.{VitastorNode, VitastorOsd}
use vitastor_operator.Node.Placement.{contains_str_list}
use vitastor_operator.Node.Osds.Prune.{rolled, is_outdated}

abbrev pub is_named : String → VitastorOsd → Bool
is_named name osd = osd.meta.name == name

-- The list with the object in the place of the one of its name.
unfoldable pub replace : VitastorOsd → List VitastorOsd → List VitastorOsd
replace osd [] = []
replace osd (o ∷ s) = (if is_named osd.meta.name o then osd else o) ∷ replace osd s

-- The list without the object of that name.
unfoldable pub remove : String → List VitastorOsd → List VitastorOsd
remove name [] = []
remove name (o ∷ s) = let rest = remove name s in if is_named name o then rest else o ∷ rest

abbrev pub Absent : String → List VitastorOsd → Type 0
Absent name s = All (λ o. is_named name o ≡ false) s

-- No two objects have one name.
abbrev pub Distinct : List VitastorOsd → Type 0
Distinct [] = Unit
Distinct (o ∷ s) = Absent o.meta.name s × Distinct s

replace-Absent :
    (osd : VitastorOsd) (s : List VitastorOsd) → Absent osd.meta.name s → replace osd s ≡ s
unfolding replace
replace-Absent osd [] h = refl
replace-Absent osd (o ∷ s) h = ground (arith, replace-Absent osd s h.1)

remove-Absent : (name : String) (s : List VitastorOsd) → Absent name s → remove name s ≡ s
unfolding remove
remove-Absent name [] h = refl
remove-Absent name (o ∷ s) h = ground (arith, remove-Absent name s h.1)

replace_at :
    (pre : List VitastorOsd) (o o' : VitastorOsd) (s : List VitastorOsd)
    → o'.meta.name ≡ o.meta.name
    → Absent o'.meta.name pre
    → Absent o'.meta.name s
    → replace o' (pre ++ (o ∷ s)) ≡ pre ++ (o' ∷ s)
unfolding replace
replace_at [] o o' s e h k = ground (arith, eq_iff o.meta.name o'.meta.name, replace-Absent o' s k)
replace_at (p ∷ pre) o o' s e h k = ground (arith, replace_at pre o o' s e h.1 k)

remove_at :
    (pre : List VitastorOsd) (o : VitastorOsd) (s : List VitastorOsd)
    → Absent o.meta.name pre
    → Absent o.meta.name s
    → remove o.meta.name (pre ++ (o ∷ s)) ≡ pre ++ s
unfolding remove
remove_at [] o s h k = ground (arith, eq_refl o.meta.name, remove-Absent o.meta.name s k)
remove_at (p ∷ pre) o s h k = ground (arith, remove_at pre o s h.1 k)

abbrev pub Apart : List VitastorOsd → List VitastorOsd → Type 0
Apart pre items = All (λ o. Absent o.meta.name pre) items

Apart-snoc :
    (pre : List VitastorOsd) (o : VitastorOsd) (items : List VitastorOsd)
    → Apart pre items
    → Absent o.meta.name items
    → Apart (pre ++ (o ∷ [])) items
Apart-snoc pre o [] h k = tt
Apart-snoc pre o (x ∷ items) h k = (
  All-append _ pre (o ∷ []) h.0
      (ground (arith, eq_iff o.meta.name x.meta.name, eq_iff x.meta.name o.meta.name), tt),
  Apart-snoc pre o items h.1 k.1,
)

pub Apart-nil : (items : List VitastorOsd) → Apart [] items
Apart-nil [] = tt
Apart-nil (o ∷ items) = (tt, Apart-nil items)

module _ (node : VitastorNode) (paths : List String) where
  -- What the calls of the loop over `items` make of a store that holds `s`, if each succeeds.
  unfoldable pub effect : List VitastorOsd → List VitastorOsd → List VitastorOsd
  effect [] s = s
  effect (osd ∷ items) s =
      let goes_on = effect items s in
      let without = effect items (remove osd.meta.name s) in
      if contains_str_list paths osd.spec.osd_path
      then if osd.spec.osd_image == node.spec.osd_image
        then goes_on
        else replace (rolled node osd) s
      else without

  -- The same for the list itself: unlisted objects are gone up to the first outdated one, which has
  -- the node's image.
  unfoldable pub swept : List VitastorOsd → List VitastorOsd
  swept [] = []
  swept (osd ∷ items) =
      let rest = swept items in
      if contains_str_list paths osd.spec.osd_path
      then if osd.spec.osd_image == node.spec.osd_image then osd ∷ rest else rolled node osd ∷ items
      else rest

  pub effect-eq-swept :
      (pre items : List VitastorOsd)
      → Apart pre items
      → Distinct items
      → effect items (pre ++ items) ≡ pre ++ swept items
  unfolding effect swept
  effect-eq-swept pre [] h d = refl
  effect-eq-swept pre (o ∷ items) h d = ground (
    arith,
    replace_at pre o (rolled node o) items refl h.0 d.0,
    remove_at pre o items h.0 d.0,
    effect-eq-swept pre items h.1 d.1,
    effect-eq-swept (pre ++ (o ∷ [])) items (Apart-snoc pre o items h.1 d.0) d.1,
    append_assoc pre (o ∷ []) items,
    append_assoc pre (o ∷ []) (swept items),
  )

  -- A store of distinct names that holds the list is left with the swept list.
  pub effect_self : (s : List VitastorOsd) → Distinct s → effect s s ≡ swept s
  effect_self s d = effect-eq-swept [] s (Apart-nil s) d

  pub swept-Absent : (name : String) (s : List VitastorOsd) → Absent name s → Absent name (swept s)
  unfolding swept
  swept-Absent name [] h = tt
  swept-Absent name (o ∷ s) h = ground (arith, swept-Absent name s h.1)

  pub swept-Distinct : (s : List VitastorOsd) → Distinct s → Distinct (swept s)
  unfolding swept
  swept-Distinct [] d = tt
  swept-Distinct (o ∷ s) d = ground (arith, swept-Distinct s d.1, swept-Absent o.meta.name s d.0)

  -- Each sweep leaves one outdated object less.
  pub count-swept :
      (s : List VitastorOsd)
      → count (is_outdated node paths) (swept s) ≡ count (is_outdated node paths) s - 1
  unfolding swept
  count-swept [] = refl
  count-swept (o ∷ s) = ground (arith, count-swept s, eq_refl node.spec.osd_image)

  -- The agent lists the object's path, and the object has the node's image.
  abbrev pub is_settled : VitastorOsd → Bool
  is_settled osd =
      contains_str_list paths osd.spec.osd_path && osd.spec.osd_image == node.spec.osd_image

  -- Where no object is outdated, a sweep leaves settled objects alone.
  pub swept_settled :
      (s : List VitastorOsd)
      → count (is_outdated node paths) s ≡ 0
      → All (λ o. is_settled o ≡ true) (swept s)
  unfolding swept
  swept_settled [] h = tt
  swept_settled (o ∷ s) h = ground (arith, swept_settled s)
