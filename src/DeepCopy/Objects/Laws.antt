-- ===== src/DeepCopy/Objects/Laws.antt =====
-- A copy of an object, and the object, apart from each other.
use vitastor_operator.Prelude.{ℕ, ◌≤◌, ◌≡◌, String}
use vitastor_operator.Types.{VitastorNodeSpec}
use vitastor_operator.DeepCopy.Arrays.{Slice, Arrays, Agree}
use vitastor_operator.DeepCopy.Copier.{Copier, copy_apart}
use vitastor_operator.DeepCopy.Status.{StatusOf, StatusWithin, node_status}
use vitastor_operator.DeepCopy.Objects.{Custom, copy_object, node_methods}

module _ {M S T U : Type 0} (c : Copier T U) where
  -- What an object reads as.
  abbrev pub read_object : Custom M S T → Arrays String → Custom M S U
  read_object o h = record {
    type_meta = o.type_meta;
    meta = o.meta;
    spec = o.spec;
    status = c.read o.status h;
  }

  pub object_local :
      (o : Custom M S T) (lo hi : ℕ) (h k : Arrays String)
      → c.Lives lo hi o.status
      → Agree lo hi h k
      → read_object o k ≡ read_object o h
  object_local o lo hi h k l e = cc (c.local o.status lo hi h k l e)

module _ {M : Type 0} (copy_meta : M → M) (same_meta : (m : M) → copy_meta m ≡ m) {S T U : Type 0}
    (c : Copier T U) where
  pub object_same :
      (o : Custom M S T) (h : Arrays String)
      → c.Lives 0 h.next o.status
      → read_object c (copy_object copy_meta c.copy o h).0 (copy_object copy_meta c.copy o h).1
        ≡ read_object c o h
  unfolding copy_object
  object_same o h l = cc (same_meta o.meta, c.same o.status h l)

  pub object_keeps :
      (o : Custom M S T) (h : Arrays String) → Agree 0 h.next h (copy_object copy_meta c.copy o h).1
  unfolding copy_object
  object_keeps o h = c.keeps o.status h

  pub object_fresh :
      (o : Custom M S T) (h : Arrays String)
      → c.Lives h.next
          (copy_object copy_meta c.copy o h).1.next
          (copy_object copy_meta c.copy o h).0.status
  unfolding copy_object
  object_fresh o h = c.fresh o.status h

  pub object_grows :
      (o : Custom M S T) (h : Arrays String) → h.next ≤ (copy_object copy_meta c.copy o h).1.next
  unfolding copy_object
  object_grows o h = c.grows o.status h

  -- The interface of the object, from that of its status.
  unfoldable pub object : Copier (Custom M S T) (Custom M S U)
  object = record {
    copy = copy_object copy_meta c.copy;
    read = read_object c;
    Lives = λ lo hi o. c.Lives lo hi o.status;
    widen = λ o. c.widen o.status;
    local = object_local c;
    grows = object_grows;
    keeps = object_keeps;
    same = object_same;
    fresh = object_fresh;
  }

-- A copy of a node has the contents of the original, and the two are apart: if after the copying
-- only arrays were written that had been there before, the copy reads as the original did; and if
-- only new arrays were written, the original does. The library's copy of the metadata is to be equal
-- to it.
node_copy_apart :
    {M : Type 0} (copy_meta : M → M)
    → ((m : M) → copy_meta m ≡ m)
    → (n : Custom M VitastorNodeSpec (StatusOf Slice)) (h after after' : Arrays String)
    → StatusWithin 0 h.next n.status
    → Agree h.next
        ((node_methods copy_meta).deep_copy_into n h).1.next
        ((node_methods copy_meta).deep_copy_into n h).1
        after
    → Agree 0 h.next ((node_methods copy_meta).deep_copy_into n h).1 after'
    → (read_object node_status ((node_methods copy_meta).deep_copy_into n h).0 after
        ≡ read_object node_status n h)
      × (read_object node_status n after' ≡ read_object node_status n h)
unfolding object
node_copy_apart copy_meta same_meta n h after after' l e e' =
    copy_apart (object copy_meta same_meta node_status) n h after after' l e e'
