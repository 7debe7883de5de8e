-- ===== src/Prelude/Digits.antt =====
-- Single binary digits: a test, a digit set, and words that are split at a digit.
use Prim.Native.Nat.{ℕ, zero, suc, ◌+◌, ◌-◌, ◌*◌, ◌/◌, ◌%◌, ◌^◌, ◌<◌, bit_and, bit_or}
use mathlib.Core.Path.{◌≡◌, sym, ap, ap₂, ◌∙◌}
use mathlib.Core.Bool.{Bool, true, false, not}
use native.Mathlib.Nat.{pow-suc}
use native.Mathlib.Omega.{arith}
use taxi.Prelude.Tests.{◌==◌, if◌then◌else◌}
use taxi.Prelude.Word.{◌<<<◌}
use taxi.Prelude.Bits.{
  bit_and_mask, div-two-pow-suc, bit_and_step, double, lt-two-pow, bit_and-two-pow, bit_or_fields,
  bit_or_comm, bit_or_step, bit_or-zero,
}

-- `bool(x & (1 << k))`
unfoldable pub test_bit : ℕ → ℕ → Bool
test_bit x k = not (bit_and x (1 <<< k) == 0)

abbrev pub digit : Bool → ℕ
digit true = 1
digit false = 0

pub digit_lt : (b : Bool) → digit b < 2
digit_lt true = omega arith
digit_lt false = omega arith

one_digit : (y r m : ℕ) → r < 2 → 0 < m → y ≡ r * m → digit (not (y == 0)) ≡ r
one_digit y zero m p q e = let none_set : y ≡ 0 = omega arith in rw none_set
one_digit y (suc zero) m p q e = ground arith
one_digit y (suc (suc r)) m p q e = absurd (omega arith)

pub digit-test_bit : (x k : ℕ) → digit (test_bit x k) ≡ x / 2 ^ k % 2
unfolding test_bit
digit-test_bit x k =
    let one : 1 * 2 ^ k ≡ 2 ^ k = omega arith in
    let masked : bit_and x (1 * 2 ^ k) ≡ x / 2 ^ k % 2 * 2 ^ k =
      ap (bit_and x) one ∙ bit_and-two-pow k x in
    one_digit _ (x / 2 ^ k % 2) (2 ^ k) (omega arith) (omega (arith, lt-two-pow k)) masked

pub bit_or-bit :
    (acc i : ℕ) (b : Bool)
    → acc < 2 ^ i
    → (if b then bit_or acc (1 <<< i) else acc) ≡ acc + digit b * 2 ^ i
bit_or-bit acc i true h = omega (arith, bit_or_comm acc (1 * 2 ^ i), bit_or_fields i 1 acc h)
bit_or-bit acc i false h = omega arith

-- `|` of two words that are cut at the same digit.
pub bit_or_split :
    (k a b c d : ℕ)
    → b < 2 ^ k
    → d < 2 ^ k
    → bit_or (a * 2 ^ k + b) (c * 2 ^ k + d) ≡ bit_or a c * 2 ^ k + bit_or b d
bit_or_split zero a b c d p q =
    let e : b ≡ 0 = omega arith in
    let f : d ≡ 0 = omega arith in
    let g : a * 2 ^ 0 + b ≡ a = omega arith in
    let h : c * 2 ^ 0 + d ≡ c = omega arith in rw (g, h, e, f) (omega (arith, bit_or-zero 0))
bit_or_split (suc k) a b c d p q =
    let two = pow-suc 2 k in
    let a_two = double a k in
    let c_two = double c k in
    let o_two = double (bit_or a c) k in
    let left : (a * 2 ^ suc k + b) / 2 ≡ a * 2 ^ k + b / 2 = omega arith in
    let right : (c * 2 ^ suc k + d) / 2 ≡ c * 2 ^ k + d / 2 = omega arith in
    let b_fits : b / 2 < 2 ^ k = omega arith in
    let d_fits : d / 2 < 2 ^ k = omega arith in
    let halves : bit_or ((a * 2 ^ suc k + b) / 2) ((c * 2 ^ suc k + d) / 2)
        ≡ bit_or a c * 2 ^ k + bit_or (b / 2) (d / 2) =
      ap₂ bit_or left right ∙ bit_or_split k a (b / 2) c (d / 2) b_fits d_fits in
    omega (arith, bit_or_step (a * 2 ^ suc k + b) (c * 2 ^ suc k + d), bit_or_step b d, halves)

-- A field set above the low part of a word, and below the high part.
pub bit_or_middle :
    (k w high field low : ℕ)
    → low < 2 ^ k
    → field < 2 ^ w
    → bit_or (high * 2 ^ w * 2 ^ k + low) (field * 2 ^ k)
      ≡ high * 2 ^ w * 2 ^ k + field * 2 ^ k + low
bit_or_middle k w high field low p q =
    let none : field * 2 ^ k ≡ field * 2 ^ k + 0 = omega arith in
    let apart : (high * 2 ^ w + field) * 2 ^ k ≡ high * 2 ^ w * 2 ^ k + field * 2 ^ k =
      grind arith in
    ap (bit_or (high * 2 ^ w * 2 ^ k + low)) none
    ∙ bit_or_split k (high * 2 ^ w) low field 0 p (omega (arith, lt-two-pow k))
    ∙ omega
        (arith, bit_or-zero low, ap (λ (x : ℕ). x * 2 ^ k) (bit_or_fields w high field q), apart)

-- A byte more.
pub lane_width : (j : ℕ) → 2 ^ (suc j * 8) ≡ 2 ^ (j * 8) * 2 ^ 8
lane_width j =
    let n : ℕ = j * 8 in
    let wide : suc j * 8 ≡ suc (suc (suc (suc (suc (suc (suc (suc n))))))) = omega arith in
    ap (λ (x : ℕ). 2 ^ x) wide
    ∙ omega (
      arith,
      pow-suc 2 n,
      pow-suc 2 (suc n),
      pow-suc 2 (suc (suc n)),
      pow-suc 2 (suc (suc (suc n))),
      pow-suc 2 (suc (suc (suc (suc n)))),
      pow-suc 2 (suc (suc (suc (suc (suc n))))),
      pow-suc 2 (suc (suc (suc (suc (suc (suc n)))))),
      pow-suc 2 (suc (suc (suc (suc (suc (suc (suc n))))))),
    )

-- `&` with a mask of `w` ones above `a` zeros.
pub bit_and_high : (a w x : ℕ) → bit_and x ((2 ^ w - 1) * 2 ^ a) ≡ x / 2 ^ a % 2 ^ w * 2 ^ a
bit_and_high zero w x =
    let one : (2 ^ w - 1) * 2 ^ 0 ≡ 2 ^ w - 1 = omega arith in
    let whole : x / 2 ^ 0 ≡ x = omega arith in
    ap (bit_and x) one ∙ bit_and_mask w x ∙ ap (λ (y : ℕ). y % 2 ^ w) (sym whole) ∙ (omega arith)
bit_and_high (suc a) w x =
    let m : ℕ = (2 ^ w - 1) * 2 ^ a in
    let even : (2 ^ w - 1) * 2 ^ suc a ≡ 2 * m = double (2 ^ w - 1) a in
    let halves : 2 * m / 2 ≡ m = omega arith in
    let shifted : x / 2 ^ suc a ≡ x / 2 / 2 ^ a = div-two-pow-suc a x in
    ap (bit_and x) even
    ∙ bit_and_step x (2 * m)
    ∙ omega (
      arith,
      ap (bit_and (x / 2)) halves,
      bit_and_high a w (x / 2),
      double (x / 2 ^ suc a % 2 ^ w) a,
      ap (λ (y : ℕ). y % 2 ^ w * 2 ^ a) shifted,
    )
