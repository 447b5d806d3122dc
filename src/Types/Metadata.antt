-- ===== src/Types/Metadata.antt =====
-- Object metadata. An owner reference names the kind and the object that it refers to.
use mathlib.Core.List.{List}
use Prim.Native.String.{String}

pub data Kind : Type 0 where
  vitastor_cluster vitastor_node vitastor_osd vitastor_pool : Kind
  deployment daemon_set stateful_set storage_class : Kind

pub record Owner : Type 0 where
  pub kind : Kind
  pub name : String

pub record Meta : Type 0 where
  pub namespace : String
  pub name : String
  pub owners : List Owner

-- types.NamespacedName; the empty namespace is corev1.NamespaceAll.
pub record NamespacedName : Type 0 where
  pub namespace : String
  pub name : String
