-- ===== src/Base/Words.antt =====
-- Go's fixed-width integers: a `uintN` is a number below 2 ^ N, an `intN` an integer.
use goh.Base.Tests.{ltb, ◌==◌, if◌then◌else◌}
use goh.Base.Int.{ℤ, pos, negsuc}
use Prim.Native.Nat.{ℕ, zero, suc, ◌-◌, ◌*◌, ◌/◌, ◌%◌, ◌^◌, bit_and}

abbrev pub u8 : ℕ → ℕ
u8 n = n % 2 ^ 8

abbrev pub u32 : ℕ → ℕ
u32 n = n % 2 ^ 32

abbrev pub u64 : ℕ → ℕ
u64 n = n % 2 ^ 64

abbrev pub max_u32 : ℕ
max_u32 = 2 ^ 32 - 1

infixl 75 ◌<<<◌ ◌>>>◌
abbrev pub ◌<<<◌ : ℕ → ℕ → ℕ
x <<< k = x * 2 ^ k

abbrev pub ◌>>>◌ : ℕ → ℕ → ℕ
x >>> k = x / 2 ^ k

-- `x &^ m`
abbrev pub and_not : ℕ → ℕ → ℕ
and_not x m = x - bit_and x m

-- The integer that a pattern of `w` bits stands for.
abbrev pub signed : ℕ → ℕ → ℤ
signed w n = if ltb n (2 ^ (w - 1)) then pos n else negsuc (2 ^ w - n - 1)

-- The pattern of `w` bits of an integer: `uintW(x)`.
abbrev pub pattern_of : ℕ → ℤ → ℕ
pattern_of w (pos n) = n % 2 ^ w
pattern_of w (negsuc n) = 2 ^ w - 1 - n % 2 ^ w

-- Arithmetic of an `intW` wraps to this.
abbrev pub wrap : ℕ → ℤ → ℤ
wrap w x = signed w (pattern_of w x)

-- `int32(x)` of a `uint32` x.
abbrev pub int32 : ℕ → ℤ
int32 n = signed 32 (n % 2 ^ 32)

-- `bits.Len32`, by the number of bits left to look at.
unfoldable pub len_from : ℕ → ℕ → ℕ
len_from zero v = 0
len_from (suc k) v = let rest = len_from k (v / 2) in if v == 0 then 0 else suc rest

unfoldable pub len_32 : ℕ → ℕ
len_32 v = len_from 32 v
