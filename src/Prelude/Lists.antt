-- ===== src/Prelude/Lists.antt =====
-- Lists over the native numbers, and predicates on every element.
use Prim.Native.Nat.{ℕ, zero, suc, ◌+◌, ◌≤◌}
use mathlib.Core.Path.{◌≡◌, refl}
use mathlib.Core.Bool.{Bool, false, ◌||◌}
use mathlib.Core.List.{List, [], ◌∷◌, ◌++◌}
use native.Mathlib.Omega.{arith}
use vitastor_operator.Prelude.Tests.{if◌then◌else◌}

module _ {ℓ} {A : Type ℓ} where
  abbrev pub length : List A → ℕ
  length [] = 0
  length (x ∷ xs) = suc (length xs)

  abbrev pub replicate : ℕ → A → List A
  replicate zero a = []
  replicate (suc n) a = a ∷ replicate n a

  -- How many elements pass the test.
  abbrev pub count : (A → Bool) → List A → ℕ
  count test [] = 0
  count test (x ∷ xs) = (if test x then 1 else 0) + count test xs

  -- The elements that pass the test, in their order.
  abbrev pub select : (A → Bool) → List A → List A
  select test [] = []
  select test (x ∷ xs) = let rest = select test xs in if test x then x ∷ rest else rest

  abbrev pub any : (A → Bool) → List A → Bool
  any test [] = false
  any test (x ∷ xs) = test x || any test xs

  abbrev pub All {κ} : (A → Type κ) → List A → Type κ
  All P [] = Unit
  All P (x ∷ xs) = P x × All P xs

  pub length-append : (xs ys : List A) → length (xs ++ ys) ≡ length xs + length ys
  length-append [] ys = omega arith
  length-append (x ∷ xs) ys = omega (arith, length-append xs ys)

  pub count-append :
      (test : A → Bool) (xs ys : List A) → count test (xs ++ ys) ≡ count test xs + count test ys
  count-append test [] ys = omega arith
  count-append test (x ∷ xs) ys = omega (arith, count-append test xs ys)

  pub All-append {κ} : (P : A → Type κ) (xs ys : List A) → All P xs → All P ys → All P (xs ++ ys)
  All-append P [] ys hx hy = hy
  All-append P (x ∷ xs) ys hx hy = (hx.0, All-append P xs ys hx.1 hy)

  pub All-map {κ κ'} :
      (P : A → Type κ) (Q : A → Type κ')
      → ((x : A) → P x → Q x)
      → (xs : List A) → All P xs
      → All Q xs
  All-map P Q f [] h = tt
  All-map P Q f (x ∷ xs) h = (f x h.0, All-map P Q f xs h.1)

  pub All-zip {κ κ' κ''} :
      (P : A → Type κ) (Q : A → Type κ') (R : A → Type κ'')
      → ((x : A) → P x → Q x → R x)
      → (xs : List A) → All P xs
      → All Q xs
      → All R xs
  All-zip P Q R f [] h k = tt
  All-zip P Q R f (x ∷ xs) h k = (f x h.0 k.0, All-zip P Q R f xs h.1 k.1)

  pub count-none :
      (test : A → Bool) (xs : List A) → All (λ x. test x ≡ false) xs → count test xs ≡ 0
  count-none test [] h = refl
  count-none test (x ∷ xs) h = ground (arith, count-none test xs h.1)

module _ {A : Type 0} where
  -- The first list is a beginning of the second.
  abbrev pub Begins : List A → List A → Type 0
  Begins [] ys = Unit
  Begins (x ∷ xs) [] = ⊥
  Begins (x ∷ xs) (y ∷ ys) = (x ≡ y) × Begins xs ys

  pub Begins-append : (es xs ys : List A) → Begins xs ys → Begins (es ++ xs) (es ++ ys)
  Begins-append [] xs ys h = h
  Begins-append (e ∷ es) xs ys h = (refl, Begins-append es xs ys h)

  pub count-Begins :
      (test : A → Bool) (xs ys : List A) → Begins xs ys → count test xs ≤ count test ys
  count-Begins test [] ys h = omega arith
  count-Begins test (x ∷ xs) [] h = absurd h
  count-Begins test (x ∷ xs) (y ∷ ys) h = rw h.0 (omega (arith, count-Begins test xs ys h.1))
