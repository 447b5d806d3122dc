-- ===== src/Node/Sync/Added.antt =====
-- The objects that the first loop adds, in front of those that the second one sweeps.
use vitastor_operator.Prelude.{
  String, ◌≡◌, refl, true, ◌||◌, List, [], ◌∷◌, ◌++◌, map, arith, All, All-map, replicate, length,
  eq_iff, eq_refl, Bool-cases, inl, inr,
}
use vitastor_operator.Types.{VitastorNode, VitastorOsd}
use vitastor_operator.Api.{OsdPartition}
use vitastor_operator.Node.Placement.{contains_osd, contains_str_list}
use vitastor_operator.Node.Agent.{appended}
use vitastor_operator.Node.Osds.Swept.{
  Absent, Distinct, Apart, Apart-nil, swept, swept-Absent, swept-Distinct,
}
use vitastor_operator.Node.Sync.{add, paths_of}

-- Each OSD has an object on its path.
abbrev pub Described : List OsdPartition → List VitastorOsd → Type 0
Described osds items = All (λ (p : OsdPartition). contains_osd items p.data_device ≡ true) osds

pub contains_osd-append :
    (pre items : List VitastorOsd) (s : String)
    → contains_osd (pre ++ items) s ≡ (contains_osd pre s || contains_osd items s)
unfolding contains_osd
contains_osd-append [] items s = refl
contains_osd-append (o ∷ pre) items s = ground (arith, contains_osd-append pre items s)

Absent-append :
    (name : String) (pre items items' : List VitastorOsd)
    → (Absent name items → Absent name items')
    → Absent name (pre ++ items)
    → Absent name (pre ++ items')
Absent-append name [] items items' f h = f h
Absent-append name (o ∷ pre) items items' f h = (h.0, Absent-append name pre items items' f h.1)

Absent-right :
    (name : String) (pre items : List VitastorOsd) → Absent name (pre ++ items) → Absent name items
Absent-right name [] items h = h
Absent-right name (o ∷ pre) items h = Absent-right name pre items h.1

Apart-cons :
    (o : VitastorOsd) (pre items : List VitastorOsd)
    → Absent o.meta.name items
    → Apart pre items
    → Apart (o ∷ pre) items
Apart-cons o pre [] a h = tt
Apart-cons o pre (x ∷ items) a h = (
  (ground (arith, eq_iff o.meta.name x.meta.name, eq_iff x.meta.name o.meta.name), h.0),
  Apart-cons o pre items a.1 h.1,
)

pub Distinct-Apart : (pre items : List VitastorOsd) → Distinct (pre ++ items) → Apart pre items
Distinct-Apart [] items d = Apart-nil items
Distinct-Apart (o ∷ pre) items d =
    Apart-cons o pre items (Absent-right _ pre items d.0) (Distinct-Apart pre items d.1)

pub Distinct-right : (pre items : List VitastorOsd) → Distinct (pre ++ items) → Distinct items
Distinct-right [] items d = d
Distinct-right (o ∷ pre) items d = Distinct-right pre items d.1

module _ (own : OsdPartition → VitastorOsd) (items : List VitastorOsd) where
  pub add-Distinct :
      (held : List VitastorOsd) (osds : List OsdPartition) (pre : List VitastorOsd)
      → Distinct (add own items osds pre ++ held)
      → Distinct (pre ++ held)
  unfolding add
  add-Distinct held [] pre d = d
  add-Distinct held (p ∷ osds) pre d = elim (Bool-cases (contains_osd items p.data_device)) [
    | inl e ↦ add-Distinct held osds pre (rw (e, add) at d)
    | inr e ↦ (add-Distinct held osds (own p ∷ pre) (rw (e, add) at d)).1
  ]

  -- Only the paths of the items matter.
  pub add_same :
      (items' : List VitastorOsd) (osds : List OsdPartition) (pre : List VitastorOsd)
      → ((s : String) → contains_osd items s ≡ contains_osd items' s)
      → add own items osds pre ≡ add own items' osds pre
  unfolding add
  add_same items' [] pre h = refl
  add_same items' (p ∷ osds) pre h = rw (h p.data_device) (add_same items' osds _ h)

  pub add-All :
      (Q : VitastorOsd → Type 0) (osds : List OsdPartition) (pre : List VitastorOsd)
      → All (λ p. Q (own p)) osds
      → All Q pre
      → All Q (add own items osds pre)
  unfolding add
  add-All Q [] pre h k = k
  add-All Q (p ∷ osds) pre h k = elim (Bool-cases (contains_osd items p.data_device)) [
    | inl e ↦ rw e (add-All Q osds pre h.1 k)
    | inr e ↦ rw e (add-All Q osds (own p ∷ pre) h.1 (h.0, k))
  ]

  -- Where all are described, nothing is added.
  pub add_none :
      (osds : List OsdPartition) (pre : List VitastorOsd)
      → Described osds items
      → add own items osds pre ≡ pre
  unfolding add
  add_none [] pre h = refl
  add_none (p ∷ osds) pre h = rw h.0 (add_none osds pre h.1)

  add-keeps :
      (osds : List OsdPartition) (pre : List VitastorOsd) (s : String)
      → contains_osd pre s ≡ true
      → contains_osd (add own items osds pre) s ≡ true
  unfolding add contains_osd
  add-keeps [] pre s h = h
  add-keeps (p ∷ osds) pre s h = add-keeps osds _ s (ground arith)

  -- Afterwards all are described, by what was added or by an item.
  pub add-Described :
      ((p : OsdPartition) → (own p).spec.osd_path ≡ p.data_device)
      → (osds : List OsdPartition) (pre : List VitastorOsd)
      → All
          (λ (p : OsdPartition).
            (contains_osd (add own items osds pre) p.data_device
              || contains_osd items p.data_device)
            ≡ true)
          osds
  unfolding add contains_osd
  add-Described path [] pre = tt
  add-Described path (p ∷ osds) pre = (
    elim (Bool-cases (contains_osd items p.data_device)) [
      | inl e ↦ ground arith
      | inr e ↦ rw e (
          ground (arith, add-keeps osds (own p ∷ pre) p.data_device, path p, eq_refl p.data_device))
    ],
    add-Described path osds _,
  )

module _ (node : VitastorNode) (paths : List String) where
  pub swept-contains :
      (items : List VitastorOsd) (s : String)
      → contains_str_list paths s ≡ true
      → contains_osd items s ≡ true
      → contains_osd (swept node paths items) s ≡ true
  unfolding swept contains_osd
  swept-contains [] s l h = h
  swept-contains (o ∷ items) s l h =
      ground (arith, swept-contains items s l, eq_iff o.spec.osd_path s)

  pub swept_after-Distinct :
      (pre items : List VitastorOsd)
      → Distinct (pre ++ items)
      → Distinct (pre ++ swept node paths items)
  swept_after-Distinct [] items d = swept-Distinct node paths items d
  swept_after-Distinct (o ∷ pre) items d = (
    Absent-append o.meta.name pre items (swept node paths items)
        (swept-Absent node paths o.meta.name items) d.0,
    swept_after-Distinct pre items d.1,
  )

listed_all :
    (osds : List OsdPartition)
    → All
        (λ (p : OsdPartition).
          contains_str_list (map (λ (o : OsdPartition). o.data_device) osds) p.data_device ≡ true)
        osds
unfolding contains_str_list
listed_all [] = tt
listed_all (p ∷ osds) = (
  ground (arith, eq_refl p.data_device),
  All-map _ _ (λ q h. ground arith) osds (listed_all osds),
)

listed_after :
    (ys zs : List String) (s : String)
    → contains_str_list zs s ≡ true
    → contains_str_list (ys ++ zs) s ≡ true
unfolding contains_str_list
listed_after [] zs s h = h
listed_after (y ∷ ys) zs s h = ground (arith, listed_after ys zs s h)

-- The agent lists the paths of its OSDs.
pub listed :
    (osds : List OsdPartition)
    → All (λ (p : OsdPartition). contains_str_list (paths_of osds) p.data_device ≡ true) osds
unfolding appended
listed osds =
    All-map _ _ (λ p h. listed_after (replicate (length osds) "") _ p.data_device h) osds
      (listed_all osds)
