-- ===== src/Common/Word.antt =====
-- Go's int64 (and int, on the 64-bit targets of the program): every result wraps round to
-- two's complement. A column of type BIGINT does not wrap: a result out of range is an error.
use Prim.Native.Nat.{ℕ, suc, ◌+◌, ◌-◌, ◌*◌, ◌/◌, ◌%◌, ◌≤◌, ◌<◌}
use mathlib.Core.Path.{◌≡◌, refl}
use mathlib.Core.Bool.{Bool, true, ◌&&◌}
use native.Mathlib.Omega.{arith}
use orbit_api.Common.Tests.{ltb, leb, if◌then◌else◌}
use orbit_api.Common.Int.{ℤ, pos, negsuc, pos_part, neg_part, ◌+ℤ◌, ◌-ℤ◌, ◌*ℤ◌}

abbrev pub two63 : ℕ
two63 = 9223372036854775808

abbrev pub two64 : ℕ
two64 = 18446744073709551616

-- The integer that a bit pattern below 2 ^ 64 stands for.
abbrev signed : ℕ → ℤ
signed m = if ltb m two63 then pos m else negsuc (two64 - 1 - m)

unfoldable pub wrap64 : ℤ → ℤ
wrap64 (pos n) = signed (n % two64)
wrap64 (negsuc n) = signed (two64 - 1 - n % two64)

-- The range of an int64.
abbrev pub InRange : ℤ → Type 0
InRange a = (pos_part a < two63) × (neg_part a ≤ two63)

pub wrap64-InRange : (a : ℤ) → InRange (wrap64 a)
unfolding wrap64
wrap64-InRange a = ground arith

pub wrap64_id : (a : ℤ) → InRange a → wrap64 a ≡ a
unfolding wrap64
wrap64_id a h = ground arith

unfoldable pub add64 : ℤ → ℤ → ℤ
add64 a b = wrap64 (a +ℤ b)

unfoldable pub sub64 : ℤ → ℤ → ℤ
sub64 a b = wrap64 (a -ℤ b)

unfoldable pub mul64 : ℤ → ℤ → ℤ
mul64 a b = wrap64 (a *ℤ b)

abbrev neg : ℕ → ℤ
neg n = if leb n 0 then pos 0 else negsuc (n - 1)

-- Division rounds towards zero. The program divides by positive numbers only.
unfoldable pub div64 : ℤ → ℤ → ℤ
unfolding wrap64
div64 (pos a) (pos b) = pos (a / b)
div64 (pos a) (negsuc b) = neg (a / suc b)
div64 (negsuc a) (pos b) = neg (suc a / b)
div64 (negsuc a) (negsuc b) = wrap64 (pos (suc a / suc b))

-- A BIGINT result: `none` is the error "bigint out of range".
unfoldable pub in_range : ℤ → Bool
in_range a = ltb (pos_part a) two63 && leb (neg_part a) two63

pub in_range-InRange : (a : ℤ) → in_range a ≡ true → InRange a
unfolding in_range
in_range-InRange a h = ground arith

pub InRange-in_range : (a : ℤ) → InRange a → in_range a ≡ true
unfolding in_range
InRange-in_range a h = ground arith

-- On numbers, within range, the operations are those of ℕ.
pub mul64-pos : (a b : ℕ) → a * b < two63 → mul64 (pos a) (pos b) ≡ pos (a * b)
unfolding mul64 wrap64 ◌*ℤ◌
mul64-pos a b h = ground arith

pub add64-pos : (a b : ℕ) → a + b < two63 → add64 (pos a) (pos b) ≡ pos (a + b)
unfolding add64 wrap64 ◌+ℤ◌
add64-pos a b h = ground arith

pub sub64-pos : (a b : ℕ) → b ≤ a → a < two63 → sub64 (pos a) (pos b) ≡ pos (a - b)
unfolding sub64 wrap64 ◌-ℤ◌
sub64-pos a b h k = ground arith

pub div64-pos : (a b : ℕ) → div64 (pos a) (pos b) ≡ pos (a / b)
unfolding div64
div64-pos a b = refl

pub sub64-in_range : (a b : ℤ) → in_range (a -ℤ b) ≡ true → sub64 a b ≡ a -ℤ b
unfolding sub64
sub64-in_range a b h = wrap64_id (a -ℤ b) (in_range-InRange (a -ℤ b) h)
