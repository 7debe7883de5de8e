-- ===== src/Prelude/Word.antt =====
-- Python's shifts and low masks, on numbers that are not negative and on integers.
use Prim.Native.Nat.{ℕ, zero, suc, ◌+◌, ◌-◌, ◌*◌, ◌/◌, ◌%◌, ◌^◌}

infixl 75 ◌<<<◌ ◌>>>◌
abbrev pub ◌<<<◌ : ℕ → ℕ → ℕ
x <<< k = x * 2 ^ k

abbrev pub ◌>>>◌ : ℕ → ℕ → ℕ
x >>> k = x / 2 ^ k

-- `x & (2 ** k - 1)`
abbrev pub low_bits : ℕ → ℕ → ℕ
low_bits x k = x % 2 ^ k

-- `negsuc n` is -(n + 1).
pub data ℤ : Type 0 where
  pos : ℕ → ℤ
  negsuc : ℕ → ℤ

-- `x - 1` of a number.
abbrev pub pred_ℤ : ℕ → ℤ
pred_ℤ zero = negsuc 0
pred_ℤ (suc n) = pos n

-- `(x >> k) & (2 ** w - 1)`. Python shifts towards minus infinity, and masks two's complement.
abbrev pub field_ℤ : ℤ → ℕ → ℕ → ℕ
field_ℤ (pos n) k w = n / 2 ^ k % 2 ^ w
field_ℤ (negsuc n) k w = 2 ^ w - 1 - n / 2 ^ k % 2 ^ w

-- `(a - b) & (2 ** w - 1)` for numbers `a` and `b`.
abbrev pub sub_wrap : ℕ → ℕ → ℕ → ℕ
sub_wrap a b w = (a + (2 ^ w - b % 2 ^ w)) % 2 ^ w
