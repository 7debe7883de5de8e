-- ===== src/Mersenne/Outputs.antt =====
-- What `int32`, `int32b`, `int64` and `int64b` of src/math/tb/mt19937.py and mt19937_64.py return fits
-- the width in their names.
use taxi.Prelude.{ℕ, ◌^◌, ◌<◌, ◌>>>◌, bit_and, bit_xor, arith}
use taxi.Prelude.Bits.{bit_xor-lt, bit_and-le_right}
use taxi.Mersenne.{Twister}
use taxi.Mersenne.Generators.{
  temper_32, temper_64, mt19937, mt19937_64, int32, int32b, int64, int64b,
}
use taxi.Mersenne.Bounds.{HasWords, IsValid, Drawn, next-Drawn, next_b-Drawn}

bit_and-lt : (k a b : ℕ) → b < 2 ^ k → bit_and a b < 2 ^ k
bit_and-lt k a b h = omega (arith, bit_and-le_right a b)

-- `y ^ (x & mask)`
xor_masked-lt : (k y x mask : ℕ) → y < 2 ^ k → mask < 2 ^ k → bit_xor y (bit_and x mask) < 2 ^ k
xor_masked-lt k y x mask p q = bit_xor-lt k y _ p (bit_and-lt k x mask q)

-- `y ^ (y >> shift)`
xor_shifted-lt : (k y shift : ℕ) → y < 2 ^ k → bit_xor y (y >>> shift) < 2 ^ k
xor_shifted-lt k y shift p = bit_xor-lt k y _ p (grind arith)

temper_32-lt : (y : ℕ) → y < 2 ^ 32 → temper_32 y < 2 ^ 32
unfolding temper_32
temper_32-lt y h = xor_shifted-lt 32 _ 18 (
    xor_masked-lt 32 _ _ 0xefc60000
      (xor_masked-lt 32 _ _ 0x9d2c5680 (xor_shifted-lt 32 y 11 h) (omega arith)) (omega arith))

temper_64-lt : (y : ℕ) → y < 2 ^ 64 → temper_64 y < 2 ^ 64
unfolding temper_64
temper_64-lt y h = xor_shifted-lt 64 _ 43 (
    xor_masked-lt 64 _ _ 0xFFF7EEE000000000
      (xor_masked-lt 64 _ _ 0x71D67FFFEDA60000
        (xor_masked-lt 64 y _ 0x5555555555555555 h (omega arith)) (omega arith))
      (omega arith))

mt19937-HasWords : HasWords mt19937
unfolding mt19937
mt19937-HasWords = (omega arith, (omega arith, temper_32-lt))

mt19937_64-HasWords : HasWords mt19937_64
unfolding mt19937_64
mt19937_64-HasWords = (omega arith, (omega arith, temper_64-lt))

-- From a valid state (624 words below 2^32 and an index up to 625) `int32` and `int32b` each return a
-- number below 2^32, and leave 624 such words and an index from 1 to 624.
int32-Drawn : (s : Twister) → IsValid mt19937 s → Drawn mt19937 (int32 s) × Drawn mt19937 (int32b s)
unfolding int32 int32b mt19937
int32-Drawn s h = (
  next-Drawn mt19937 s mt19937-HasWords (omega arith) h,
  next_b-Drawn mt19937 s mt19937-HasWords (omega arith) h,
)

-- From a valid state (312 words below 2^64 and an index up to 313) `int64` and `int64b` each return a
-- number below 2^64, and leave 312 such words and an index from 1 to 312.
int64-Drawn :
    (s : Twister) → IsValid mt19937_64 s → Drawn mt19937_64 (int64 s) × Drawn mt19937_64 (int64b s)
unfolding int64 int64b mt19937_64
int64-Drawn s h = (
  next-Drawn mt19937_64 s mt19937_64-HasWords (omega arith) h,
  next_b-Drawn mt19937_64 s mt19937_64-HasWords (omega arith) h,
)
