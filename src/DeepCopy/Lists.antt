-- ===== src/DeepCopy/Lists.antt =====
-- The copies of a list of objects: a new array of items, each copied in its turn.
pub mod Laws
pub mod Loop
use vitastor_operator.Prelude.{ℕ, zero, suc, String, List, [], ◌∷◌, length}
use vitastor_operator.Types.{
  VitastorClusterSpec, VitastorNodeSpec, VitastorOsdSpec, VitastorPoolSpec,
}
use vitastor_operator.DeepCopy.Arrays.{Slice, nil, slice, Arrays, make, put_cell, set}
use vitastor_operator.DeepCopy.Status.{StatusOf, copy_node_status}
use vitastor_operator.DeepCopy.Objects.{
  TypeMeta, Custom, ObjectMethods, object_methods, copy_object, assign_into, cluster_methods,
  node_methods, osd_methods, pool_methods,
}

-- The arrays of texts and of items.
pub record Memory (I : Type 0) : Type 0 where
  pub strings : Arrays String
  pub items : Arrays I

pub record ListOf (L : Type 0) : Type 0 where
  pub type_meta : TypeMeta
  pub meta : L
  pub items : Slice

-- The item's method `DeepCopyInto`.
module _ {I : Type 0} (into : I → Arrays String → I × Arrays String) where
  -- `for i := range *in { (*in)[i].DeepCopyInto(&(*out)[i]) }`, from an index on. The loop writes to no
  -- array of the original, so its items are those at the start.
  unfoldable pub fill : ℕ → ℕ → List I → Memory I → Memory I
  fill out i [] mem = mem
  fill out i (x ∷ xs) mem =
      let (y, strings) = into x mem.strings in
      fill out (suc i) xs (record {
        strings = strings;
        items = put_cell out (set (mem.items.cell out) i y) mem.items;
      })

  -- A list of nil items stays so; the new array has zero values at first.
  unfoldable pub copy_items : I → Slice → Memory I → Slice × Memory I
  copy_items zero_value nil mem = (nil, mem)
  copy_items zero_value (slice p) mem =
      let xs = mem.items.cell p in
      let (out, items) = make zero_value (length xs) mem.items in
      (slice out, fill out 0 xs (record mem { items = items }))

  -- The copy of the list's metadata is the library's.
  unfoldable pub copy_list : {L : Type 0} → I → (L → L) → ListOf L → Memory I → ListOf L × Memory I
  unfolding copy_items
  copy_list zero_value copy_list_meta l mem =
      let (items, mem') = copy_items zero_value l.items mem in
      (record { type_meta = l.type_meta; meta = copy_list_meta l.meta; items = items }, mem')

module _ {M L : Type 0} (copy_meta : M → M) (copy_list_meta : L → L) (zero_meta : M) where
  abbrev zero_object : {S T : Type 0} → S → T → Custom M S T
  zero_object spec status = record {
    type_meta = record { kind = ""; api_version = "" };
    meta = zero_meta;
    spec = spec;
    status = status;
  }

  abbrev pub cluster_list_methods :
      VitastorClusterSpec
      → ObjectMethods (Memory (Custom M VitastorClusterSpec (Unit {0}))) (ListOf L)
  cluster_list_methods zero_spec = object_methods (
      copy_list (cluster_methods copy_meta).deep_copy_into (zero_object zero_spec tt)
        copy_list_meta)

  abbrev pub node_list_methods :
      VitastorNodeSpec
      → ObjectMethods (Memory (Custom M VitastorNodeSpec (StatusOf Slice))) (ListOf L)
  node_list_methods zero_spec = object_methods (
      copy_list (node_methods copy_meta).deep_copy_into
        (zero_object zero_spec (record { disks = nil; empty_disks = nil; vitastor_disks = nil }))
        copy_list_meta)

  abbrev pub osd_list_methods :
      VitastorOsdSpec → ObjectMethods (Memory (Custom M VitastorOsdSpec (Unit {0}))) (ListOf L)
  osd_list_methods zero_spec =
      object_methods
        (copy_list (osd_methods copy_meta).deep_copy_into (zero_object zero_spec tt) copy_list_meta)

  abbrev pub pool_list_methods :
      VitastorPoolSpec → ObjectMethods (Memory (Custom M VitastorPoolSpec (Unit {0}))) (ListOf L)
  pool_list_methods zero_spec =
      object_methods (
        copy_list (pool_methods copy_meta).deep_copy_into (zero_object zero_spec tt) copy_list_meta)
