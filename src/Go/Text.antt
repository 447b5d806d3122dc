-- ===== src/Go/Text.antt =====
-- `strings.Contains` and `strings.Split`, the latter at a separator of one character.
use Prim.Native.Char.{Char, code}
use vitastor_operator.Prelude.{
  ℕ, String, ◌≡◌, refl, Bool, ◌||◌, List, [], ◌∷◌, starts_with, nat_eq, if◌then◌else◌,
}

unfoldable pub contains : String → String → Bool
contains String.[] t = starts_with "" t
contains (String.◌∷◌ c s) t = starts_with (String.◌∷◌ c s) t || contains s t

abbrev pub extend_head : Char → List String → List String
extend_head c [] = String.◌∷◌ c "" ∷ []
extend_head c (word ∷ words) = String.◌∷◌ c word ∷ words

unfoldable pub split : String → ℕ → List String
split String.[] sep = "" ∷ []
split (String.◌∷◌ c s) sep =
    let rest = split s sep in if nat_eq (code c) sep then "" ∷ rest else extend_head c rest

contains_inside : contains "x.fd.vitastor.io/dc" "fd.vitastor.io" ≡ Bool.true
unfolding contains
contains_inside = refl

split_twice : split "a/bc/" b'/' ≡ "a" ∷ "bc" ∷ "" ∷ []
unfolding split
split_twice = refl

split_nothing : split "dc" b'/' ≡ "dc" ∷ []
unfolding split
split_nothing = refl
