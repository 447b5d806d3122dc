-- ===== src/Go/Map.antt =====
-- Maps with string keys. A map that was made is the list of its entries; a nil map is `none` of
-- `Option (Entries V)`, and writing to it panics.
use vitastor_operator.Prelude.{
  String, ◌≡◌, refl, List, [], ◌∷◌, Option, none, some, Bool, true, false, arith, ◌==◌, eq_iff,
  if◌then◌else◌,
}

abbrev pub Entries {ℓ} : Type ℓ → Type ℓ
Entries V = List (String × V)

module _ {ℓ} {V : Type ℓ} where
  unfoldable pub lookup : String → Entries V → Option V
  lookup k [] = none
  lookup k ((j, v) ∷ m) = if j == k then some v else lookup k m

  unfoldable pub assign : String → V → Entries V → Entries V
  assign k v [] = (k, v) ∷ []
  assign k v ((j, w) ∷ m) = if j == k then (k, v) ∷ m else (j, w) ∷ assign k v m

  -- Whether the key is there: the second value of `_, ok := m[k]`.
  abbrev pub present : Option V → Bool
  present none = false
  present (some v) = true

  pub lookup-assign :
      (k j : String) (v : V) (m : Entries V)
      → lookup j (assign k v m) ≡ (if k == j then some v else lookup j m)
  unfolding lookup assign
  lookup-assign k j v [] = refl
  lookup-assign k j v ((i, w) ∷ m) =
      ground (arith, eq_iff k j, eq_iff i k, eq_iff i j, lookup-assign k j v m)
