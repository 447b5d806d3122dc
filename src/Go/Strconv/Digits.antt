-- ===== src/Go/Strconv/Digits.antt =====
-- The decimal digits of different numbers differ.
use Prim.Native.Char.{Char, code}
use mathlib.Core.Logic.{dif_pos, dif_neg}
use mathlib.Core.WellFounded.{Acc}
use native.Mathlib.Decide.{dec_lt}
use native.Mathlib.Bridge.{le_prop}
use text.Mathlib.TextLemmas.{cons-append, nil-append}
use vitastor_operator.Prelude.{
  ℕ, zero, suc, ◌+◌, ◌*◌, ◌/◌, ◌%◌, ◌<◌, ◌≤◌, String, ◌<>◌, ◌≡◌, refl, ap, sym, ◌∙◌, none, some,
  arith,
}
use vitastor_operator.Prelude.Int.{ℤ, pos, negsuc}
use vitastor_operator.Go.Strconv.{digit, digits, scan, itoa, tenth_lt, lt_wf}

-- A digit is one character, with the digit's value.
digit_head : (d : ℕ) → d ≤ 9 → (c : Char) × (digit d ≡ String.◌∷◌ c "") × (code c ≡ 48 + d)
unfolding digit
digit_head zero h = ("0", refl, refl)
digit_head (suc zero) h = ("1", refl, refl)
digit_head (suc (suc zero)) h = ("2", refl, refl)
digit_head (suc (suc (suc zero))) h = ("3", refl, refl)
digit_head (suc (suc (suc (suc zero)))) h = ("4", refl, refl)
digit_head (suc (suc (suc (suc (suc zero))))) h = ("5", refl, refl)
digit_head (suc (suc (suc (suc (suc (suc zero)))))) h = ("6", refl, refl)
digit_head (suc (suc (suc (suc (suc (suc (suc zero))))))) h = ("7", refl, refl)
digit_head (suc (suc (suc (suc (suc (suc (suc (suc zero)))))))) h = ("8", refl, refl)
digit_head (suc (suc (suc (suc (suc (suc (suc (suc (suc zero))))))))) h = ("9", refl, refl)
digit_head (suc (suc (suc (suc (suc (suc (suc (suc (suc (suc d)))))))))) h = absurd (omega arith)

single-append : (c : Char) (s : String) → String.◌∷◌ c "" <> s ≡ String.◌∷◌ c s
single-append c s = cons-append c "" s ∙ ap (λ t. String.◌∷◌ c t) (nil-append s)

-- Reading the digits of a number gives the number.
scan-digit : (a d : ℕ) (s : String) → d ≤ 9 → scan a (digit d <> s) ≡ scan (a * 10 + d) s
unfolding scan
scan-digit a d s h =
    let (c, e, k) = digit_head d h in
    ap (λ t. scan a (t <> s)) e ∙ ap (scan a) (single-append c s) ∙ ground arith

scan-digits : (n : ℕ) (w : Acc ◌<◌ n) (out : String) → scan 0 (digits n w out) ≡ scan n out
unfolding digits
scan-digits n (Acc.intro _ smaller) out = elim (dec_lt 9 n) [
  | yes h ↦
      ap (scan 0) (dif_pos (dec_lt 9 n) le_prop h _ _)
      ∙ scan-digits (n / 10) (smaller (n / 10) (tenth_lt h)) (digit (n % 10) <> out)
      ∙ scan-digit (n / 10) (n % 10) out (omega arith)
      ∙ ap (λ m. scan m out) (omega arith)
  | no h ↦
      ap (scan 0) (dif_neg (dec_lt 9 n) h _ _)
      ∙ scan-digit 0 n out (omega arith)
      ∙ ap (λ m. scan m out) (omega arith)
]

whole_scan : (n : ℕ) (w : Acc ◌<◌ n) → scan 0 (digits n w "") ≡ some n
unfolding scan
whole_scan n w = scan-digits n w ""

pos_scan : (n : ℕ) → scan 0 (itoa (pos n)) ≡ some n
unfolding itoa
pos_scan n = whole_scan n (lt_wf.apply n)

minus_scan : (s : String) → scan 0 ("-" <> s) ≡ none
unfolding scan
minus_scan s = ap (scan 0) (single-append "-" s) ∙ refl

minus_injective : (s t : String) → "-" <> s ≡ "-" <> t → s ≡ t
minus_injective s t e = cc (sym (single-append "-" s) ∙ e ∙ single-append "-" t)

-- Two integers have the same decimal text only if they are the same.
pub itoa_injective : (a b : ℤ) → itoa a ≡ itoa b → a ≡ b
unfolding itoa
itoa_injective (pos a) (pos b) e = cc (sym (pos_scan a) ∙ ap (scan 0) e ∙ pos_scan b)
itoa_injective (pos a) (negsuc b) e =
    cc (sym (pos_scan a) ∙ ap (scan 0) e ∙ minus_scan (digits (suc b) (lt_wf.apply (suc b)) ""))
itoa_injective (negsuc a) (pos b) e =
    cc (
      sym (pos_scan b) ∙ ap (scan 0) (sym e) ∙ minus_scan (digits (suc a) (lt_wf.apply (suc a)) ""))
itoa_injective (negsuc a) (negsuc b) e =
    let same = minus_injective _ _ e in
    cc (
      sym (whole_scan (suc a) (lt_wf.apply (suc a)))
      ∙ ap (scan 0) same
      ∙ whole_scan (suc b) (lt_wf.apply (suc b)))
