-- ===== src/Prelude/Int.antt =====
-- Go's signed integers. A value is an integer of ℤ; a conversion to w bits keeps its low w bits and
-- reads them as two's complement.
use Prim.Native.Nat.{ℕ, suc, ◌-◌, ◌*◌, ◌%◌, ◌^◌, ◌<◌}
use mathlib.Core.Path.{◌≡◌}
use mathlib.Core.Bool.{Bool, true, false}
use native.Mathlib.Omega.{arith}
use vitastor_operator.Prelude.Tests.{ltb, nat_eq, if◌then◌else◌}

-- `negsuc n` is -(n + 1).
pub data ℤ : Type 0 where
  pos : ℕ → ℤ
  negsuc : ℕ → ℤ

abbrev pub int_eq : ℤ → ℤ → Bool
int_eq (pos a) (pos b) = nat_eq a b
int_eq (negsuc a) (negsuc b) = nat_eq a b
int_eq _ _ = false

pub int_eq_sound : (a b : ℤ) → int_eq a b ≡ true → a ≡ b
int_eq_sound a b h = ground arith

pub int_eq_refl : (a : ℤ) → int_eq a a ≡ true
int_eq_refl a = ground arith

-- The bits of an integer, below `m` = 2 ^ w, and the integer of such bits, with `half` = 2 ^ (w - 1).
abbrev pub pattern_of : ℕ → ℤ → ℕ
pattern_of m (pos n) = n % m
pattern_of m (negsuc n) = m - 1 - n % m

abbrev pub signed : ℕ → ℕ → ℤ
signed half p = if ltb p half then pos p else negsuc (2 * half - p - 1)

-- int32(x)
unfoldable pub int32 : ℤ → ℤ
int32 z = signed (2 ^ 31) (pattern_of (2 ^ 32) z)

-- int64(x), which a product of two int64 values is taken to
unfoldable pub int64 : ℤ → ℤ
int64 z = signed (2 ^ 63) (pattern_of (2 ^ 64) z)

-- The product with a positive number.
abbrev pub scale : ℤ → ℕ → ℤ
scale (pos n) k = pos (n * k)
scale (negsuc n) k = negsuc (suc n * k - 1)

-- A conversion keeps a value that fits.
pub int32_fits : (n : ℕ) → n < 2 ^ 31 → int32 (pos n) ≡ pos n
unfolding int32
int32_fits n h = ground arith
