-- ===== src/Prelude/Bits.antt =====
-- `|` of disjoint fields, `&` with a low mask, and `^`, as arithmetic, at every width.
mod Step
pub use Step.*
use native.Mathlib.Nat.{pow-suc, one-le-pow, pow-le-pow_right}
use mathlib.Core.Path.{◌≡◌, refl, ap}
use native.Mathlib.Omega.{arith}
use Prim.Native.Nat.{
  ℕ, zero, suc, ◌+◌, ◌-◌, ◌*◌, ◌/◌, ◌%◌, ◌^◌, ◌≤◌, ◌<◌, bit_and, bit_or, bit_xor, bit_and-bitwise,
}

-- Every number is below some power of two, and the laws go by induction on the exponent.
pub lt-two-pow : (n : ℕ) → n < 2 ^ n
lt-two-pow zero = omega arith
lt-two-pow (suc n) = omega (arith, pow-suc 2 n, lt-two-pow n)

bit_or-zero_below : (k a : ℕ) → a < 2 ^ k → bit_or a 0 ≡ a
bit_or-zero_below zero a h = let e : a ≡ 0 = omega arith in rw e
bit_or-zero_below (suc k) a h =
    omega (
      arith,
      pow-suc 2 k,
      bit_or_step a 0,
      bit_or-zero_below k (a / 2) (omega (arith, pow-suc 2 k)),
    )

pub bit_or-zero : (a : ℕ) → bit_or a 0 ≡ a
bit_or-zero a = bit_or-zero_below a a (lt-two-pow a)

bit_and-zero_below : (k a : ℕ) → a < 2 ^ k → bit_and a 0 ≡ 0
bit_and-zero_below zero a h = let e : a ≡ 0 = omega arith in rw e
bit_and-zero_below (suc k) a h =
    omega (arith, bit_and_step a 0, bit_and-zero_below k (a / 2) (omega (arith, pow-suc 2 k)))

pub bit_and-zero : (a : ℕ) → bit_and a 0 ≡ 0
bit_and-zero a = bit_and-zero_below a a (lt-two-pow a)

pub double : (n k : ℕ) → n * 2 ^ suc k ≡ 2 * (n * 2 ^ k)
double n k = rw pow-suc (omega arith)

-- `(high << k) | low` is a sum when `low` fits `k` bits.
pub bit_or_fields : (k high low : ℕ) → low < 2 ^ k → bit_or (high * 2 ^ k) low ≡ high * 2 ^ k + low
bit_or_fields zero high low h =
    let e : low ≡ 0 = omega arith in rw e (omega (arith, bit_or-zero (high * 1)))
bit_or_fields (suc k) high low h =
    let ih = bit_or_fields k high (low / 2) (omega (arith, pow-suc 2 k)) in
    let shifted = double high k in ground (arith, ih, shifted, bit_or_step (high * 2 ^ suc k) low)

bit_or_comm_below : (k a b : ℕ) → a < 2 ^ k → b < 2 ^ k → bit_or a b ≡ bit_or b a
bit_or_comm_below zero a b p q =
    let e : a ≡ 0 = omega arith in let f : b ≡ 0 = omega arith in rw (e, f)
bit_or_comm_below (suc k) a b p q = omega (
  arith,
  bit_or_step a b,
  bit_or_step b a,
  bit_or_comm_below k (a / 2) (b / 2) (omega (arith, pow-suc 2 k)) (omega (arith, pow-suc 2 k)),
)

low_part : (k high low : ℕ) → low < 2 ^ k → bit_and (high * 2 ^ k + low) (2 ^ k - 1) ≡ low
low_part zero high low h = rw bit_and-zero (omega arith)
low_part (suc k) high low h =
    let ih = low_part k high (low / 2) (omega (arith, pow-suc 2 k)) in
    let digit = bit_and_step (high * 2 ^ suc k + low) (2 ^ suc k - 1) in
    ground (arith, ih, digit, double high k, pow-suc 2 k)

-- A mask of `k` ones keeps the remainder by `2 ^ k`.
pub bit_and_mask : (k n : ℕ) → bit_and n (2 ^ k - 1) ≡ n % 2 ^ k
bit_and_mask k n =
    let split = low_part k (n / 2 ^ k) (n % 2 ^ k) in ground (arith, split, one-le-pow k 2)

half-two-pow : (k : ℕ) → 2 ^ suc k / 2 ≡ 2 ^ k
half-two-pow k = omega (arith, pow-suc 2 k)

pub div-two-pow-suc : (k a : ℕ) → a / 2 ^ suc k ≡ a / 2 / 2 ^ k
div-two-pow-suc k a = rw pow-suc (grind (arith, one-le-pow k 2))

pub bit_and-two-pow : (k a : ℕ) → bit_and a (2 ^ k) ≡ a / 2 ^ k % 2 * 2 ^ k
bit_and-two-pow zero a = omega (arith, bit_and_step a 1, bit_and-zero (a / 2))
bit_and-two-pow (suc k) a = ground (
  arith,
  bit_and_step a (2 ^ suc k),
  pow-suc 2 k,
  half-two-pow k,
  div-two-pow-suc k a,
  bit_and-two-pow k (a / 2),
  double (a / 2 / 2 ^ k % 2) k,
)

bit_xor-half : (a b : ℕ) → bit_xor a b / 2 ≡ bit_xor (a / 2) (b / 2)
bit_xor-half a b = omega (arith, bit_xor_step a b)

bit_xor_cancel_below : (k a b : ℕ) → a < 2 ^ k → b < 2 ^ k → bit_xor (bit_xor a b) b ≡ a
bit_xor_cancel_below zero a b p q =
    let e : a ≡ 0 = omega arith in let f : b ≡ 0 = omega arith in rw (e, f)
bit_xor_cancel_below (suc k) a b p q = omega (
  arith,
  bit_xor_step a b,
  bit_xor_step (bit_xor a b) b,
  ap (λ (t : ℕ). bit_xor t (b / 2)) (bit_xor-half a b),
  bit_xor_cancel_below k (a / 2) (b / 2) (omega (arith, pow-suc 2 k)) (omega (arith, pow-suc 2 k)),
)

-- `^` with a number of `k` bits stays within `k` bits.
pub bit_xor-lt : (k a b : ℕ) → a < 2 ^ k → b < 2 ^ k → bit_xor a b < 2 ^ k
bit_xor-lt zero a b p q =
    let e : a ≡ 0 = omega arith in let f : b ≡ 0 = omega arith in rw (e, f) (omega arith)
bit_xor-lt (suc k) a b p q = omega (
  arith,
  pow-suc 2 k,
  bit_xor_step a b,
  bit_xor-lt k (a / 2) (b / 2) (omega (arith, pow-suc 2 k)) (omega (arith, pow-suc 2 k)),
)

-- `|` too.
pub bit_or-lt : (k a b : ℕ) → a < 2 ^ k → b < 2 ^ k → bit_or a b < 2 ^ k
bit_or-lt zero a b p q =
    let e : a ≡ 0 = omega arith in let f : b ≡ 0 = omega arith in rw (e, f) (omega arith)
bit_or-lt (suc k) a b p q = omega (
  arith,
  pow-suc 2 k,
  bit_or_step a b,
  bit_or-lt k (a / 2) (b / 2) (omega (arith, pow-suc 2 k)) (omega (arith, pow-suc 2 k)),
)

zero-bit_and : (b : ℕ) → bit_and 0 b ≡ 0
zero-bit_and b = bit_and-bitwise 0 b

-- `&` is at most its left side.
bit_and-le_below : (k a b : ℕ) → a < 2 ^ k → bit_and a b ≤ a
bit_and-le_below zero a b p = let e : a ≡ 0 = omega arith in rw e (omega (arith, zero-bit_and b))
bit_and-le_below (suc k) a b p = omega (
  arith,
  pow-suc 2 k,
  bit_and_step a b,
  bit_and-le_below k (a / 2) (b / 2) (omega (arith, pow-suc 2 k)),
)

pub bit_and-le : (a b : ℕ) → bit_and a b ≤ a
bit_and-le a b = bit_and-le_below a a b (lt-two-pow a)

bit_and-le_right_below : (k a b : ℕ) → b < 2 ^ k → bit_and a b ≤ b
bit_and-le_right_below zero a b p =
    let e : b ≡ 0 = omega arith in rw e (omega (arith, bit_and-zero a))
bit_and-le_right_below (suc k) a b p = omega (
  arith,
  pow-suc 2 k,
  bit_and_step a b,
  bit_and-le_right_below k (a / 2) (b / 2) (omega (arith, pow-suc 2 k)),
)

pub bit_and-le_right : (a b : ℕ) → bit_and a b ≤ b
bit_and-le_right a b = bit_and-le_right_below b a b (lt-two-pow b)

two-pow-add : (a b : ℕ) → 2 ^ a ≤ 2 ^ (a + b)
two-pow-add a b = pow-le-pow_right (omega arith) (omega arith)

pub bit_or_comm : (a b : ℕ) → bit_or a b ≡ bit_or b a
bit_or_comm a b =
    bit_or_comm_below (a + b) a b (omega (arith, lt-two-pow a, two-pow-add a b))
      (let e : a + b ≡ b + a = omega arith in rw e (omega (arith, lt-two-pow b, two-pow-add b a)))

pub bit_xor_cancel : (a b : ℕ) → bit_xor (bit_xor a b) b ≡ a
bit_xor_cancel a b =
    bit_xor_cancel_below (a + b) a b (omega (arith, lt-two-pow a, two-pow-add a b))
      (let e : a + b ≡ b + a = omega arith in rw e (omega (arith, lt-two-pow b, two-pow-add b a)))

-- Two and three fields of 16 bits.
pub join_two : (a b : ℕ) → b < 2 ^ 16 → bit_or (a * 2 ^ 16) b ≡ a * 2 ^ 16 + b
join_two a b h = bit_or_fields 16 a b h

pub join_three :
    (a b c : ℕ)
    → b < 2 ^ 16
    → c < 2 ^ 16
    → bit_or (bit_or (a * 2 ^ 32) (b * 2 ^ 16)) c ≡ a * 2 ^ 32 + b * 2 ^ 16 + c
join_three a b c hb hc =
    let upper = bit_or_fields 32 a (b * 2 ^ 16) (omega arith) in
    let e : a * 2 ^ 32 + b * 2 ^ 16 ≡ (a * 2 ^ 16 + b) * 2 ^ 16 = omega arith in
    rw (upper, e) (omega (arith, bit_or_fields 16 (a * 2 ^ 16 + b) c hc))
