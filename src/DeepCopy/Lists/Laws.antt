-- ===== src/DeepCopy/Lists/Laws.antt =====
-- A copy of a list, and the list, apart from each other.
use vitastor_operator.Prelude.{
  ℕ, ◌<◌, ◌≡◌, refl, ap, ◌∙◌, String, List, [], Option, none, some, arith, map, length, false,
  nat_eq,
}
use vitastor_operator.DeepCopy.Arrays.{Slice, nil, slice, Agree, make}
use vitastor_operator.DeepCopy.Copier.{Copier}
use vitastor_operator.DeepCopy.Lists.{
  Memory, ListOf, fill, copy_items, copy_list, node_list_methods,
}
use vitastor_operator.DeepCopy.Objects.{Custom}
use vitastor_operator.DeepCopy.Objects.Laws.{object}
use vitastor_operator.DeepCopy.Status.{StatusOf, node_status}
use vitastor_operator.Types.{VitastorNodeSpec}
use vitastor_operator.DeepCopy.Lists.Loop.{
  copies, after, AllLive, read_all_local, after_keeps, copies_fresh, copies_same, fill_strings,
  fill_next, fill_other, fill_cell,
}

module _ {I V : Type 0} (c : Copier I V) where
  -- What a slice of items reads as.
  abbrev pub read_items : Slice → Memory I → Option (List V)
  read_items nil mem = none
  read_items (slice p) mem = some (map (λ x. c.read x mem.strings) (mem.items.cell p))

  -- The slice's array and those that its items refer to are there.
  abbrev pub ItemsLive : Slice → Memory I → Type 0
  ItemsLive nil mem = Unit
  ItemsLive (slice p) mem = (p < mem.items.next) × AllLive c 0 mem.strings.next (mem.items.cell p)

  -- The arrays that were there when `mem` was copied to `copied`, or those that are new since, are in
  -- `later` as after the copying.
  abbrev pub OldKept : Memory I → Memory I → Memory I → Type 0
  OldKept mem copied later =
      Agree 0 mem.strings.next copied.strings later.strings
      × Agree 0 mem.items.next copied.items later.items

  abbrev pub NewKept : Memory I → Memory I → Memory I → Type 0
  NewKept mem copied later =
      Agree mem.strings.next copied.strings.next copied.strings later.strings
      × Agree mem.items.next copied.items.next copied.items later.items

  module _ (zero_value : I) (p : ℕ) (mem : Memory I) where
    abbrev xs : List I
    xs = mem.items.cell p

    abbrev out : ℕ
    out = mem.items.next

    abbrev started : Memory I
    started = record mem { items = (make zero_value (length xs) mem.items).1 }

    abbrev done : Memory I
    done = fill c.copy out 0 xs started

    done_cell : done.items.cell out ≡ copies c xs mem.strings
    done_cell = fill_cell c out 0 [] zero_value xs started (refl) (ground arith)

    done_strings : done.strings ≡ after c xs mem.strings
    done_strings = fill_strings c out 0 xs started

    new_items :
        (later : Memory I)
        → AllLive c 0 mem.strings.next xs
        → NewKept mem done later
        → map (λ x. c.read x later.strings) (later.items.cell out)
          ≡ map (λ x. c.read x mem.strings) xs
    new_items later live kept =
        let at_out : later.items.cell out ≡ copies c xs mem.strings =
          kept.1 out (omega arith) (omega (arith, fill_next c out 0 xs started)) ∙ done_cell in
        rw at_out (
          read_all_local c (copies c xs mem.strings) mem.strings.next (after c xs mem.strings).next
            (after c xs mem.strings) later.strings (copies_fresh c xs mem.strings)
            (λ q a b. kept.0 q a (rw done_strings b) ∙ ap (λ h. h.cell q) done_strings)
          ∙ copies_same c xs mem.strings live)

    old_items :
        (later : Memory I)
        → ItemsLive (slice p) mem
        → OldKept mem done later
        → map (λ x. c.read x later.strings) (later.items.cell p)
          ≡ map (λ x. c.read x mem.strings) xs
    old_items later live kept =
        let other : nat_eq out p ≡ false = ground arith in
        let at_p : later.items.cell p ≡ xs =
          kept.1 p (omega arith) live.0 ∙ fill_other c out 0 xs started p other ∙ rw other in
        rw at_p (
          read_all_local c xs 0 mem.strings.next mem.strings later.strings live.1 λ q a b.
            kept.0 q a b ∙ ap (λ h. h.cell q) done_strings ∙ after_keeps c xs mem.strings q a b)

  items_apart :
      (zero_value : I) (s : Slice) (mem later later' : Memory I)
      → ItemsLive s mem
      → NewKept mem (copy_items c.copy zero_value s mem).1 later
      → OldKept mem (copy_items c.copy zero_value s mem).1 later'
      → (read_items (copy_items c.copy zero_value s mem).0 later ≡ read_items s mem)
        × (read_items s later' ≡ read_items s mem)
  unfolding copy_items
  items_apart zero_value nil mem later later' live n o = (refl, refl)
  items_apart zero_value (slice p) mem later later' live n o = (
    ap some (new_items zero_value p mem later live.1 n),
    ap some (old_items zero_value p mem later' live o),
  )

-- The lists of nodes, with the library's copies of the metadata.
module _ {M L : Type 0} (copy_meta : M → M) (copy_list_meta : L → L) (zero_meta : M)
    (zero_spec : VitastorNodeSpec) (same_meta : (m : M) → copy_meta m ≡ m) where
  unfoldable pub nodes :
      Copier
        (Custom M VitastorNodeSpec (StatusOf Slice))
        (Custom M VitastorNodeSpec (StatusOf (Option (List String))))
  unfolding object
  nodes = object copy_meta same_meta node_status

  abbrev pub copied :
      ListOf L
      → Memory (Custom M VitastorNodeSpec (StatusOf Slice))
      → ListOf L × Memory (Custom M VitastorNodeSpec (StatusOf Slice))
  copied l mem =
      (node_list_methods copy_meta copy_list_meta zero_meta zero_spec).deep_copy_into l mem

  -- A copy of a list of nodes has the items' contents of the original, and the two are apart: if
  -- after the copying only arrays were written that had been there before, the items of the copy
  -- read as those of the original did; and if only new arrays were written, those of the original
  -- do. The library's copy of the metadata is to be equal to it.
  pub node_list_copy_apart :
      (l : ListOf L) (mem later later' : Memory (Custom M VitastorNodeSpec (StatusOf Slice)))
      → ItemsLive nodes l.items mem
      → NewKept nodes mem (copied l mem).1 later
      → OldKept nodes mem (copied l mem).1 later'
      → (read_items nodes (copied l mem).0.items later ≡ read_items nodes l.items mem)
        × (read_items nodes l.items later' ≡ read_items nodes l.items mem)
  unfolding copy_list object nodes
  node_list_copy_apart l mem later later' live n o =
      items_apart nodes _ l.items mem later later' live n o
