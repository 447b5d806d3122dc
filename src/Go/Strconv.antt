-- ===== src/Go/Strconv.antt =====
-- `strconv.Itoa` and `strconv.Atoi` on a 64-bit int.
pub mod Digits
use Prim.Native.Char.{code}
use mathlib.Core.Logic.{dite}
use mathlib.Core.WellFounded.{Acc, WellFounded}
use native.Mathlib.Decide.{dec_lt}
use vitastor_operator.Prelude.{
  ℕ, zero, suc, ◌+◌, ◌-◌, ◌*◌, ◌/◌, ◌%◌, ◌^◌, ◌<◌, String, ◌<>◌, ◌≡◌, refl, Option, none, some,
  ◌||◌, arith, ltb, leb, nat_eq, if◌then◌else◌,
}
use vitastor_operator.Prelude.Int.{ℤ, pos, negsuc}

Acc-below : (k n : ℕ) → n < k → Acc ◌<◌ n
Acc-below zero n h = absurd (omega arith)
Acc-below (suc k) n h = Acc.intro n λ m lt. Acc-below k m (omega arith)

lt_wf : WellFounded ◌<◌
unfolding Acc-below
lt_wf = record { apply = λ n. Acc-below (suc n) n (omega arith) }

digit : ℕ → String
digit zero = "0"
digit (suc zero) = "1"
digit (suc (suc zero)) = "2"
digit (suc (suc (suc zero))) = "3"
digit (suc (suc (suc (suc zero)))) = "4"
digit (suc (suc (suc (suc (suc zero))))) = "5"
digit (suc (suc (suc (suc (suc (suc zero)))))) = "6"
digit (suc (suc (suc (suc (suc (suc (suc zero))))))) = "7"
digit (suc (suc (suc (suc (suc (suc (suc (suc zero)))))))) = "8"
digit _ = "9"

pub tenth_lt : {n : ℕ} → 9 < n → n / 10 < n
tenth_lt h = omega arith

-- The decimal digits of `n`, before `out`.
digits : (n : ℕ) → Acc ◌<◌ n → String → String
digits n (Acc.intro _ smaller) out =
    dite (dec_lt 9 n) (λ h. digits (n / 10) (smaller (n / 10) (tenth_lt h)) (digit (n % 10) <> out))
      (λ _. digit n <> out)

unfoldable pub itoa : ℤ → String
unfolding digits digit lt_wf dec_lt
itoa (pos n) = digits n (lt_wf.apply n) ""
itoa (negsuc n) = "-" <> digits (suc n) (lt_wf.apply (suc n)) ""

-- The value of a text of digits after `n`, or nothing if a character is no digit.
scan : ℕ → String → Option ℕ
scan n String.[] = some n
scan n (String.◌∷◌ c s) =
    if ltb (code c) b'0' || ltb b'9' (code c) then none else scan (n * 10 + (code c - b'0')) s

-- The digits, of which there is at least one.
unsigned : String → Option ℕ
unfolding scan
unsigned String.[] = none
unsigned (String.◌∷◌ c s) = scan 0 (String.◌∷◌ c s)

negated : ℕ → ℤ
negated zero = pos zero
negated (suc n) = negsuc n

within : ℕ → (ℕ → ℤ) → Option ℕ → Option ℤ
within limit sign none = none
within limit sign (some n) = if leb n limit then some (sign n) else none

-- `none` is a syntax or a range error.
unfoldable pub atoi : String → Option ℤ
unfolding unsigned negated within
atoi String.[] = none
atoi (String.◌∷◌ c s) =
    if nat_eq (code c) b'-'
    then within (2 ^ 63) negated (unsigned s)
    else if nat_eq (code c) b'+'
    then within (2 ^ 63 - 1) pos (unsigned s)
    else within (2 ^ 63 - 1) pos (unsigned (String.◌∷◌ c s))

itoa_sample : itoa (pos 5070) ≡ "5070"
unfolding itoa
itoa_sample = refl

atoi_sample : atoi "5666" ≡ some (pos 5666)
unfolding atoi
atoi_sample = refl

atoi_range : (atoi "-9223372036854775809" ≡ none) × (atoi "1m" ≡ none) × (atoi "+" ≡ none)
unfolding atoi
atoi_range = (refl, refl, refl)
