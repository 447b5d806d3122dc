-- ===== src/DeepCopy/Status.antt =====
-- VitastorNodeStatus, the one struct of the custom resources that has slices.
use vitastor_operator.Prelude.{
  ℕ, ◌≤◌, ◌≡◌, refl, ap, ◌∙◌, String, List, Option, some, arith, length,
}
use vitastor_operator.DeepCopy.Arrays.{
  Slice, nil, slice, Arrays, put_cell, make, view, overwrite, overwrite_fresh, Agree, Within,
}
use vitastor_operator.DeepCopy.Copier.{Copier}

-- `if in.Disks != nil { *out = make([]string, len(*in)); copy(*out, *in) }`, with `*out = *in` before
-- it.
unfoldable pub copy_strings : Slice → Arrays String → Slice × Arrays String
copy_strings nil h = (nil, h)
copy_strings (slice p) h =
    let (q, h') = make "" (length (h.cell p)) h in
    (slice q, put_cell q (overwrite (h'.cell p) (h'.cell q)) h')

strings_grow : (s : Slice) (h : Arrays String) → h.next ≤ (copy_strings s h).1.next
unfolding copy_strings
strings_grow nil h = omega arith
strings_grow (slice p) h = omega arith

strings_keep : (s : Slice) (h : Arrays String) → Agree 0 h.next h (copy_strings s h).1
unfolding copy_strings
strings_keep nil h p l u = refl
strings_keep (slice q) h p l u = ground arith

strings_fresh :
    (s : Slice) (h : Arrays String) → Within h.next (copy_strings s h).1.next (copy_strings s h).0
unfolding copy_strings
strings_fresh nil h = tt
strings_fresh (slice q) h = omega arith

strings_same :
    (s : Slice) (h : Arrays String)
    → Within 0 h.next s
    → view (copy_strings s h).0 (copy_strings s h).1 ≡ view s h
unfolding copy_strings
strings_same nil h l = refl
strings_same (slice q) h l = ground (arith, overwrite_fresh (h.cell q) "")

Within-widen :
    (s : Slice) (lo hi lo' hi' : ℕ) → Within lo hi s → lo' ≤ lo → hi ≤ hi' → Within lo' hi' s
Within-widen nil lo hi lo' hi' w p q = tt
Within-widen (slice a) lo hi lo' hi' w p q = omega arith

view_local :
    (s : Slice) (lo hi : ℕ) (h k : Arrays String)
    → Within lo hi s
    → Agree lo hi h k
    → view s k ≡ view s h
view_local nil lo hi h k w e = refl
view_local (slice p) lo hi h k w e = ap some (e p w.0 w.1)

-- The status in memory, and what it reads as: a list, or nothing for a nil slice.
pub record StatusOf (A : Type 0) : Type 0 where
  pub disks : A
  pub empty_disks : A
  pub vitastor_disks : A

-- VitastorNodeStatus.DeepCopyInto
unfoldable pub copy_node_status : StatusOf Slice → Arrays String → StatusOf Slice × Arrays String
copy_node_status s h =
    let (d, h₁) = copy_strings s.disks h in
    let (e, h₂) = copy_strings s.empty_disks h₁ in
    let (v, h₃) = copy_strings s.vitastor_disks h₂ in
    (record { disks = d; empty_disks = e; vitastor_disks = v }, h₃)

abbrev pub read_status : StatusOf Slice → Arrays String → StatusOf (Option (List String))
read_status s h = record {
  disks = view s.disks h;
  empty_disks = view s.empty_disks h;
  vitastor_disks = view s.vitastor_disks h;
}

abbrev pub StatusWithin : ℕ → ℕ → StatusOf Slice → Type 0
StatusWithin lo hi s =
    Within lo hi s.disks × Within lo hi s.empty_disks × Within lo hi s.vitastor_disks

module _ (s : StatusOf Slice) (h : Arrays String) where
  abbrev h₁ : Arrays String
  h₁ = (copy_strings s.disks h).1

  abbrev h₂ : Arrays String
  h₂ = (copy_strings s.empty_disks h₁).1

  abbrev h₃ : Arrays String
  h₃ = (copy_strings s.vitastor_disks h₂).1

  pub status_grows : h.next ≤ (copy_node_status s h).1.next
  unfolding copy_node_status
  status_grows = omega (
    arith,
    strings_grow s.disks h,
    strings_grow s.empty_disks h₁,
    strings_grow s.vitastor_disks h₂,
  )

  pub status_keeps : Agree 0 h.next h (copy_node_status s h).1
  unfolding copy_node_status
  status_keeps p l u =
      strings_keep s.vitastor_disks h₂ p l
        (omega (arith, strings_grow s.disks h, strings_grow s.empty_disks h₁))
      ∙ strings_keep s.empty_disks h₁ p l (omega (arith, strings_grow s.disks h))
      ∙ strings_keep s.disks h p l u

  pub status_fresh : StatusWithin h.next (copy_node_status s h).1.next (copy_node_status s h).0
  unfolding copy_node_status
  status_fresh =
      let g₁ = strings_grow s.disks h in
      let g₂ = strings_grow s.empty_disks h₁ in
      let g₃ = strings_grow s.vitastor_disks h₂ in
      (
        Within-widen _ h.next h₁.next h.next h₃.next (strings_fresh s.disks h) (omega arith)
            (omega arith),
        Within-widen _ h₁.next h₂.next h.next h₃.next (strings_fresh s.empty_disks h₁) (omega arith)
            (omega arith),
        Within-widen _ h₂.next h₃.next h.next h₃.next (strings_fresh s.vitastor_disks h₂)
            (omega arith) (omega arith),
      )

  keeps₁₃ : Agree 0 h₁.next h₁ h₃
  keeps₁₃ p l u =
      strings_keep s.vitastor_disks h₂ p l (omega (arith, strings_grow s.empty_disks h₁))
      ∙ strings_keep s.empty_disks h₁ p l u

  keeps₀₂ : Agree 0 h.next h h₂
  keeps₀₂ p l u =
      strings_keep s.empty_disks h₁ p l (omega (arith, strings_grow s.disks h))
      ∙ strings_keep s.disks h p l u

  pub status_same :
      StatusWithin 0 h.next s
      → read_status (copy_node_status s h).0 (copy_node_status s h).1 ≡ read_status s h
  unfolding copy_node_status
  status_same l = cc (disks_same, empty_disks_same, vitastor_disks_same)
    where
      disks_same : view (copy_strings s.disks h).0 h₃ ≡ view s.disks h
      disks_same =
          view_local (copy_strings s.disks h).0 h.next h₁.next h₁ h₃ (strings_fresh s.disks h)
            (λ p a b. keeps₁₃ p (omega arith) b)
          ∙ strings_same s.disks h l.0

      empty_disks_same : view (copy_strings s.empty_disks h₁).0 h₃ ≡ view s.empty_disks h
      empty_disks_same =
          view_local (copy_strings s.empty_disks h₁).0 h₁.next h₂.next h₂ h₃
            (strings_fresh s.empty_disks h₁)
            (λ p a b. strings_keep s.vitastor_disks h₂ p (omega arith) b)
          ∙ strings_same s.empty_disks h₁ (
              Within-widen s.empty_disks 0 h.next 0 h₁.next l.1 (omega arith)
                (strings_grow s.disks h))
          ∙ view_local s.empty_disks 0 h.next h h₁ l.1 (strings_keep s.disks h)

      vitastor_disks_same : view (copy_strings s.vitastor_disks h₂).0 h₃ ≡ view s.vitastor_disks h
      vitastor_disks_same =
          strings_same s.vitastor_disks h₂ (
            Within-widen s.vitastor_disks 0 h.next 0 h₂.next l.2 (omega arith)
              (omega (arith, strings_grow s.disks h, strings_grow s.empty_disks h₁)))
          ∙ view_local s.vitastor_disks 0 h.next h h₂ l.2 keeps₀₂

pub status_widen :
    (s : StatusOf Slice) (lo hi lo' hi' : ℕ)
    → StatusWithin lo hi s
    → lo' ≤ lo
    → hi ≤ hi'
    → StatusWithin lo' hi' s
status_widen s lo hi lo' hi' w p q = (
  Within-widen s.disks lo hi lo' hi' w.0 p q,
  Within-widen s.empty_disks lo hi lo' hi' w.1 p q,
  Within-widen s.vitastor_disks lo hi lo' hi' w.2 p q,
)

pub status_local :
    (s : StatusOf Slice) (lo hi : ℕ) (h k : Arrays String)
    → StatusWithin lo hi s
    → Agree lo hi h k
    → read_status s k ≡ read_status s h
status_local s lo hi h k w e = cc (
  view_local s.disks lo hi h k w.0 e,
  view_local s.empty_disks lo hi h k w.1 e,
  view_local s.vitastor_disks lo hi h k w.2 e,
)

abbrev pub node_status : Copier (StatusOf Slice) (StatusOf (Option (List String)))
node_status = record {
  copy = copy_node_status;
  read = read_status;
  Lives = StatusWithin;
  widen = status_widen;
  local = status_local;
  grows = status_grows;
  keeps = status_keeps;
  same = status_same;
  fresh = status_fresh;
}
