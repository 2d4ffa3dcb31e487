-- ===== src/Prelude/Int64.antt =====
-- Go's `int64` (and 64-bit `int`) as a bit pattern below 2 ^ 64, in two's complement.
use Prim.Native.Nat.{ℕ, ◌+◌, ◌*◌, ◌%◌, ◌<◌}
use mathlib.Core.Path.{◌≡◌}
use mathlib.Core.Bool.{Bool, ◌||◌}
use native.Mathlib.Omega.{arith}
use native.Mathlib.Nat.{mod-eq_of_lt}
use fulfillhub_go_commerce_p.Prelude.Tests.{leb, ltb, ◌==◌}

abbrev pub Int64 : Type 0
Int64 = ℕ

-- 2 ^ 63, the first pattern of a negative number.
abbrev pub sign_bit : ℕ
sign_bit = 0x8000000000000000

abbrev pub modulus : ℕ
modulus = 0x10000000000000000

unfoldable pub add : Int64 → Int64 → Int64
add a b = (a + b) % modulus

unfoldable pub mul : Int64 → Int64 → Int64
mul a b = (a * b) % modulus

-- The signed test `a < 0`.
abbrev pub is_negative : Int64 → Bool
is_negative a = leb sign_bit a

-- The signed test `a < 1`.
abbrev pub is_below_one : Int64 → Bool
is_below_one a = is_negative a || a == 0

pub add-eq : (a b : Int64) → a + b < sign_bit → add a b ≡ a + b
unfolding add
add-eq a b h = omega arith

pub mul-eq : (a b : Int64) → a * b < sign_bit → mul a b ≡ a * b
unfolding mul
mul-eq a b h = mod-eq_of_lt (omega arith)

-- The signed order: negative patterns come first.
unfoldable pub less : Int64 → Int64 → Bool
less a b = ltb ((a + sign_bit) % modulus) ((b + sign_bit) % modulus)
