-- ===== src/Tests/Copies.antt =====
-- The generated copies at concrete inputs.
use vitastor_operator.Prelude.{◌≡◌, refl, String, [], ◌∷◌, arith, nat_eq, if◌then◌else◌}
use vitastor_operator.Types.{VitastorNodeSpec, Meta}
use vitastor_operator.DeepCopy.Arrays.{Slice, nil, slice, Arrays, put_cell, overwrite, set}
use vitastor_operator.DeepCopy.Status.{StatusOf, copy_strings, copy_node_status}
use vitastor_operator.DeepCopy.Objects.{Custom, copy_object}
use vitastor_operator.DeepCopy.Objects.Laws.{object}
use vitastor_operator.DeepCopy.Lists.{Memory, ListOf, copy_list, copy_items, fill}
use vitastor_operator.DeepCopy.Lists.Laws.{nodes, copied, read_items, node_list_copy_apart}
use vitastor_operator.Tests.Samples.{node}

-- Two lists of paths.
abbrev arrays : Arrays String
arrays = record {
  next = 2;
  cell = λ p. if nat_eq p 0 then "/dev/sda" ∷ [] else "/dev/sda" ∷ "/dev/sdb" ∷ [];
}

abbrev StoredNode : Type 0
StoredNode = Custom Meta VitastorNodeSpec (StatusOf Slice)

abbrev stored : StoredNode
stored = record {
  type_meta = record { kind = "VitastorNode"; api_version = "control.vitastor.io/v1" };
  meta = node.meta;
  spec = node.spec;
  status = record { disks = slice 1; empty_disks = nil; vitastor_disks = slice 0 };
}

abbrev keep : Meta → Meta
keep m = m

-- A list of two such nodes.
abbrev memory : Memory StoredNode
memory = record { strings = arrays; items = record { next = 1; cell = λ p. stored ∷ stored ∷ [] } }

abbrev node_list : ListOf String
node_list = record {
  type_meta = record { kind = "VitastorNodeList"; api_version = "control.vitastor.io/v1" };
  meta = "42";
  items = slice 0;
}

abbrev list_and_memory : ListOf String × Memory StoredNode
list_and_memory = copied keep (λ (l : String). l) node.meta node.spec (λ m. refl) node_list memory

-- The list's own array is cleared, or that of the copy.
abbrev old_cleared : Memory StoredNode
old_cleared = record list_and_memory.1 { items = put_cell 0 [] list_and_memory.1.items }

abbrev new_cleared : Memory StoredNode
new_cleared = record list_and_memory.1 { items = put_cell 1 [] list_and_memory.1.items }

node_list_copy_apart_example :
    let ns = nodes keep (λ (l : String). l) node.meta node.spec (λ m. refl) in
    (read_items ns list_and_memory.0.items old_cleared ≡ read_items ns (slice 0) memory)
    × (read_items ns (slice 0) new_cleared ≡ read_items ns (slice 0) memory)
unfolding copy_list copy_items fill copy_object copy_node_status copy_strings overwrite set nodes
    object
node_list_copy_apart_example =
    node_list_copy_apart keep (λ (l : String). l) node.meta node.spec (λ m. refl) node_list memory
      old_cleared new_cleared
      (omega arith, ((omega arith, tt, omega arith), ((omega arith, tt, omega arith), tt)))
      (λ p l u. refl, λ p l u. ground arith) (λ p l u. refl, λ p l u. ground arith)
