-- ===== src/DeepCopy/Arrays.antt =====
-- Arrays in memory, and the slices that refer to them.
use vitastor_operator.Prelude.{
  ℕ, zero, suc, ◌≤◌, ◌<◌, ◌≡◌, refl, List, [], ◌∷◌, ◌++◌, Option, none, some, arith, length,
  replicate, nat_eq, if◌then◌else◌,
}

-- A slice is nil, or the address of its elements. A slice of a part of an array is not modelled.
pub data Slice : Type 0 where
  nil : Slice
  slice : ℕ → Slice

-- The slice refers to an array between the addresses, if to any.
abbrev pub Within : ℕ → ℕ → Slice → Type 0
Within lo hi nil = Unit
Within lo hi (slice p) = (lo ≤ p) × (p < hi)

-- The arrays of one element type. The addresses from `next` on are free.
pub record Arrays (A : Type 0) : Type 0 where
  pub next : ℕ
  pub cell : ℕ → List A

module _ {A : Type 0} where
  abbrev pub write : (ℕ → List A) → ℕ → List A → ℕ → List A
  write cell p xs q = if nat_eq p q then xs else cell q

  abbrev pub put_cell : ℕ → List A → Arrays A → Arrays A
  put_cell p xs h = record h { cell = write h.cell p xs }

  -- `make([]A, n)`, of zero values
  abbrev pub make : A → ℕ → Arrays A → ℕ × Arrays A
  make zero_value n h =
      (h.next, record { next = suc h.next; cell = write h.cell h.next (replicate n zero_value) })

  -- What the slice shows.
  abbrev pub view : Slice → Arrays A → Option (List A)
  view nil h = none
  view (slice p) h = some (h.cell p)

  -- `copy(dst, src)` on the elements: as many as both have.
  unfoldable pub overwrite : List A → List A → List A
  overwrite [] ys = ys
  overwrite (x ∷ xs) [] = []
  overwrite (x ∷ xs) (y ∷ ys) = x ∷ overwrite xs ys

  -- `xs[i] = x`, of an index in range
  unfoldable pub set : List A → ℕ → A → List A
  set [] i x = []
  set (y ∷ ys) zero x = x ∷ ys
  set (y ∷ ys) (suc i) x = y ∷ set ys i x

  pub overwrite_fresh :
      (xs : List A) (zero_value : A) → overwrite xs (replicate (length xs) zero_value) ≡ xs
  unfolding overwrite
  overwrite_fresh [] z = refl
  overwrite_fresh (x ∷ xs) z = ground (arith, overwrite_fresh xs z)

  pub set-append :
      (pre : List A) (y x : A) (ys : List A)
      → set (pre ++ (y ∷ ys)) (length pre) x ≡ pre ++ (x ∷ ys)
  unfolding set
  set-append [] y x ys = refl
  set-append (p ∷ pre) y x ys = ground (arith, set-append pre y x ys)

  -- The two memories have the same arrays at the addresses from `lo` to `hi`.
  abbrev pub Agree : ℕ → ℕ → Arrays A → Arrays A → Type 0
  Agree lo hi h k = (p : ℕ) → lo ≤ p → p < hi → k.cell p ≡ h.cell p
