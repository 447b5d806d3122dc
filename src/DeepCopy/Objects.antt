-- ===== src/DeepCopy/Objects.antt =====
-- The copies of one object: the four custom resources, their specifications and statuses.
pub mod Laws
use vitastor_operator.Prelude.{ℕ, ◌≤◌, ◌≡◌, refl, ap, ◌∙◌, String, List, Option, none, some, arith}
use vitastor_operator.Types.{
  VitastorClusterSpec, VitastorNodeSpec, VitastorOsdSpec, VitastorPoolSpec,
}
use vitastor_operator.DeepCopy.Arrays.{Slice, Arrays, Agree}
use vitastor_operator.DeepCopy.Copier.{Copier, plain}
use vitastor_operator.DeepCopy.Status.{StatusOf, copy_node_status, node_status}

pub record TypeMeta : Type 0 where
  pub kind : String
  pub api_version : String

-- A custom resource in memory: its metadata, its specification and its status.
pub record Custom (M S T : Type 0) : Type 0 where
  pub type_meta : TypeMeta
  pub meta : M
  pub spec : S
  pub status : T

-- The generated methods of a type, over a memory. A pointer is nil or stands for the struct that it
-- points to; `new` gives a struct that nothing else points to.
pub record Methods (H A : Type 0) : Type 0 where
  pub deep_copy_into : A → H → A × H
  pub deep_copy : Option A → H → Option A × H

pub record ObjectMethods (H A : Type 0) : Type 0 where
  pub deep_copy_into : A → H → A × H
  pub deep_copy : Option A → H → Option A × H
  pub deep_copy_object : Option A → H → Option A × H

module _ {H A : Type 0} where
  -- `if in == nil { return nil }; out := new(A); in.DeepCopyInto(out); return out`
  abbrev pub copy_pointer : (A → H → A × H) → Option A → H → Option A × H
  copy_pointer into none h = (none, h)
  copy_pointer into (some a) h = let (out, h') = into a h in (some out, h')

  -- `if c := in.DeepCopy(); c != nil { return c }; return nil`
  abbrev pub as_object : Option A × H → Option A × H
  as_object (none, h) = (none, h)
  as_object (some c, h) = (some c, h)

  abbrev pub methods : (A → H → A × H) → Methods H A
  methods into = record { deep_copy_into = into; deep_copy = copy_pointer into }

  abbrev pub object_methods : (A → H → A × H) → ObjectMethods H A
  object_methods into = record {
    deep_copy_into = into;
    deep_copy = copy_pointer into;
    deep_copy_object = λ p h. as_object (copy_pointer into p h);
  }

module _ {A : Type 0} where
  -- `*out = *in`
  abbrev pub assign_into : A → Arrays String → A × Arrays String
  assign_into a h = (a, h)

-- The copy of the metadata is the library's: a value of `M` stands for all that it refers to.
module _ {M : Type 0} (copy_meta : M → M) {S T : Type 0} where
  -- `*out = *in`, and then the fields: the status is copied by `into`.
  unfoldable pub copy_object :
      (T → Arrays String → T × Arrays String)
      → Custom M S T
      → Arrays String
      → Custom M S T × Arrays String
  copy_object into o h =
      let (status, h') = into o.status h in
      (
        record { type_meta = o.type_meta; meta = copy_meta o.meta; spec = o.spec; status = status },
        h',
      )

module _ {M : Type 0} (copy_meta : M → M) where
  abbrev pub cluster_methods :
      ObjectMethods (Arrays String) (Custom M VitastorClusterSpec (Unit {0}))
  cluster_methods = object_methods (copy_object copy_meta assign_into)

  abbrev pub node_methods :
      ObjectMethods (Arrays String) (Custom M VitastorNodeSpec (StatusOf Slice))
  node_methods = object_methods (copy_object copy_meta copy_node_status)

  abbrev pub osd_methods : ObjectMethods (Arrays String) (Custom M VitastorOsdSpec (Unit {0}))
  osd_methods = object_methods (copy_object copy_meta assign_into)

  abbrev pub pool_methods : ObjectMethods (Arrays String) (Custom M VitastorPoolSpec (Unit {0}))
  pool_methods = object_methods (copy_object copy_meta assign_into)

abbrev pub cluster_spec_methods : Methods (Arrays String) VitastorClusterSpec
cluster_spec_methods = methods assign_into

abbrev pub cluster_status_methods : Methods (Arrays String) (Unit {0})
cluster_status_methods = methods assign_into

abbrev pub node_spec_methods : Methods (Arrays String) VitastorNodeSpec
node_spec_methods = methods assign_into

abbrev pub node_status_methods : Methods (Arrays String) (StatusOf Slice)
node_status_methods = methods copy_node_status

abbrev pub osd_spec_methods : Methods (Arrays String) VitastorOsdSpec
osd_spec_methods = methods assign_into

abbrev pub osd_status_methods : Methods (Arrays String) (Unit {0})
osd_status_methods = methods assign_into

abbrev pub pool_spec_methods : Methods (Arrays String) VitastorPoolSpec
pool_spec_methods = methods assign_into

abbrev pub pool_status_methods : Methods (Arrays String) (Unit {0})
pool_status_methods = methods assign_into
