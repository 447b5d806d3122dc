-- ===== src/DeepCopy/Lists/Loop.antt =====
-- The loop over the items: what it copies, and where it writes.
use vitastor_operator.Prelude.{
  ℕ, suc, ◌≤◌, ◌≡◌, refl, ◌∙◌, String, List, [], ◌∷◌, ◌++◌, arith, map, length, length-append,
  false, replicate, All, All-map, nat_eq,
}
use mathlib.Core.List.{append_assoc}
use vitastor_operator.DeepCopy.Arrays.{Arrays, Agree, set, set-append, write}
use vitastor_operator.DeepCopy.Copier.{Copier}
use vitastor_operator.DeepCopy.Lists.{Memory, fill}

module _ {I V : Type 0} (c : Copier I V) where
  -- The copies of the items, one after the other, and the memory after them.
  unfoldable pub copies : List I → Arrays String → List I
  copies [] h = []
  copies (x ∷ xs) h = (c.copy x h).0 ∷ copies xs (c.copy x h).1

  unfoldable pub after : List I → Arrays String → Arrays String
  after [] h = h
  after (x ∷ xs) h = after xs (c.copy x h).1

  abbrev pub AllLive : ℕ → ℕ → List I → Type 0
  AllLive lo hi xs = All (λ x. c.Lives lo hi x) xs

  AllLive-widen :
      (xs : List I) (lo hi lo' hi' : ℕ)
      → AllLive lo hi xs
      → lo' ≤ lo
      → hi ≤ hi'
      → AllLive lo' hi' xs
  AllLive-widen xs lo hi lo' hi' l p q = All-map _ _ (λ x k. c.widen x lo hi lo' hi' k p q) xs l

  pub read_all_local :
      (xs : List I) (lo hi : ℕ) (h k : Arrays String)
      → AllLive lo hi xs
      → Agree lo hi h k
      → map (λ x. c.read x k) xs ≡ map (λ x. c.read x h) xs
  read_all_local [] lo hi h k l e = refl
  read_all_local (x ∷ xs) lo hi h k l e =
      cc (c.local x lo hi h k l.0 e, read_all_local xs lo hi h k l.1 e)

  after_grows : (xs : List I) (h : Arrays String) → h.next ≤ (after xs h).next
  unfolding after
  after_grows [] h = omega arith
  after_grows (x ∷ xs) h = omega (arith, c.grows x h, after_grows xs (c.copy x h).1)

  pub after_keeps : (xs : List I) (h : Arrays String) → Agree 0 h.next h (after xs h)
  unfolding after
  after_keeps [] h p l u = refl
  after_keeps (x ∷ xs) h p l u =
      after_keeps xs (c.copy x h).1 p l (omega (arith, c.grows x h)) ∙ c.keeps x h p l u

  pub copies_fresh :
      (xs : List I) (h : Arrays String) → AllLive h.next (after xs h).next (copies xs h)
  unfolding after copies
  copies_fresh [] h = tt
  copies_fresh (x ∷ xs) h =
      let h' = (c.copy x h).1 in
      (
        c.widen _ h.next h'.next h.next (after xs h').next (c.fresh x h) (omega arith)
            (after_grows xs h'),
        AllLive-widen _ h'.next (after xs h').next h.next (after xs h').next (copies_fresh xs h')
            (c.grows x h) (omega arith),
      )

  pub copies_same :
      (xs : List I) (h : Arrays String)
      → AllLive 0 h.next xs
      → map (λ x. c.read x (after xs h)) (copies xs h) ≡ map (λ x. c.read x h) xs
  unfolding after copies
  copies_same [] h l = refl
  copies_same (x ∷ xs) h l =
      let h' = (c.copy x h).1 in
      cc (
        c.local (c.copy x h).0 h.next h'.next h' (after xs h') (c.fresh x h)
            (λ p a b. after_keeps xs h' p (omega arith) b),
        c.same x h l.0,
        copies_same xs h' (AllLive-widen xs 0 h.next 0 h'.next l.1 (omega arith) (c.grows x h)),
        read_all_local xs 0 h.next h h' l.1 (c.keeps x h),
      )

  pub fill_strings :
      (out i : ℕ) (xs : List I) (mem : Memory I)
      → (fill c.copy out i xs mem).strings ≡ after xs mem.strings
  unfolding fill after
  fill_strings out i [] mem = refl
  fill_strings out i (x ∷ xs) mem = fill_strings out (suc i) xs _

  pub fill_next :
      (out i : ℕ) (xs : List I) (mem : Memory I)
      → (fill c.copy out i xs mem).items.next ≡ mem.items.next
  unfolding fill
  fill_next out i [] mem = refl
  fill_next out i (x ∷ xs) mem = fill_next out (suc i) xs _

  pub fill_other :
      (out i : ℕ) (xs : List I) (mem : Memory I) (p : ℕ)
      → nat_eq out p ≡ false
      → (fill c.copy out i xs mem).items.cell p ≡ mem.items.cell p
  unfolding fill
  fill_other out i [] mem p ne = refl
  fill_other out i (x ∷ xs) mem p ne = fill_other out (suc i) xs _ p ne ∙ rw ne

  filled :
      (out i : ℕ) (pre : List I) (z y : I) (rest : List I) (cell : ℕ → List I)
      → i ≡ length pre
      → cell out ≡ pre ++ (z ∷ rest)
      → write cell out (set (cell out) i y) out ≡ (pre ++ (y ∷ [])) ++ rest
  filled out i pre z y rest cell n e =
      ground (arith, set-append pre z y rest, append_assoc pre (y ∷ []) rest)

  -- The new array, filled up to a place, is filled to its end.
  pub fill_cell :
      (out i : ℕ) (pre : List I) (zero_value : I) (xs : List I) (mem : Memory I)
      → i ≡ length pre
      → mem.items.cell out ≡ pre ++ replicate (length xs) zero_value
      → (fill c.copy out i xs mem).items.cell out ≡ pre ++ copies xs mem.strings
  unfolding fill copies
  fill_cell out i pre z [] mem n e = e
  fill_cell out i pre z (x ∷ xs) mem n e =
      let (y, h') = c.copy x mem.strings in
      fill_cell out (suc i) (pre ++ (y ∷ [])) z xs _ (omega (arith, length-append {0} pre (y ∷ [])))
        (filled out i pre z y (replicate (length xs) z) mem.items.cell n e)
      ∙ append_assoc pre (y ∷ []) (copies xs h')
