-- ===== src/Pcie/Parity/Digits.antt =====
-- `parity` and `dword_parity` of src/pcie/tb/pcie_if.py, digit by digit.
use taxi.Prelude.{
  ℕ, zero, suc, ◌+◌, ◌*◌, ◌/◌, ◌%◌, ◌^◌, ◌≤◌, ◌<◌, ◌≡◌, refl, sym, ap, ap₂, ◌∙◌, bit_and, bit_or,
  bit_xor, ◌<<<◌, ◌==◌, Bool-cases, inl, inr, if◌then◌else◌, arith,
}
use taxi.Prelude.Digits.{test_bit, digit, digit-test_bit, bit_or-bit}
use taxi.Prelude.Bits.{bit_xor_step, bit_xor-lt, bit_and_mask, div-two-pow-suc}
use taxi.Prelude.Powers.{pow_sum}
use native.Mathlib.Nat.{pow-suc, div-div-eq-div-mul, div-le_self, mul_comm}
use taxi.Pcie.Parity.{fold_by, fold_bytes, dword_parity, parity_rounds, parity}

-- The lowest bit of each of `n` bytes, side by side.
abbrev pub low_digits : ℕ → ℕ → ℕ
low_digits zero e = 0
low_digits (suc n) e = e % 2 + 2 * low_digits n (e / 256)

low_digits-zero : (n : ℕ) → low_digits n 0 ≡ 0
low_digits-zero zero = refl
low_digits-zero (suc n) = omega (arith, low_digits-zero n)

pub low_digits-lt : (n e : ℕ) → low_digits n e < 2 ^ n
low_digits-lt zero e = omega arith
low_digits-lt (suc n) e = omega (arith, low_digits-lt n (e / 256), pow-suc 2 n)

-- So many bytes as the number has are enough.
low_digits_enough : (n fuel e : ℕ) → e < 256 ^ n → e ≤ fuel → low_digits fuel e ≡ low_digits n e
low_digits_enough n zero e h l =
    let none_set : e ≡ 0 = omega arith in
    ap (low_digits zero) none_set ∙ (sym (low_digits-zero n) ∙ ap (low_digits n) (sym none_set))
low_digits_enough zero (suc fuel) e h l =
    let none_set : e ≡ 0 = omega arith in
    ap (low_digits (suc fuel)) none_set ∙ low_digits-zero (suc fuel)
low_digits_enough (suc n) (suc fuel) e h l =
    omega (arith, low_digits_enough n fuel (e / 256) (omega (arith, pow-suc 256 n)) (omega arith))

at_most_one : (b n : ℕ) → b < 2 → b * n ≤ n
at_most_one zero n h = omega arith
at_most_one (suc zero) n h = omega arith
at_most_one (suc (suc b)) n h = absurd (omega arith)

parity_rounds_lem :
    (fuel e i p : ℕ)
    → e ≤ fuel
    → p < 2 ^ i
    → parity_rounds fuel e i p ≡ p + low_digits fuel e * 2 ^ i
unfolding parity_rounds
parity_rounds_lem zero e i p h l = omega arith
parity_rounds_lem (suc fuel) e i p h l = elim (Bool-cases (e == 0)) [
  | inl t ↦
      (let none_set : e ≡ 0 = ground (arith, t) in
        let same : low_digits (suc fuel) e * 2 ^ i ≡ 0 =
          ap (λ (n : ℕ). n * 2 ^ i)
            (ap (low_digits (suc fuel)) none_set ∙ low_digits-zero (suc fuel))
          ∙ omega arith in
        rw t (omega (arith, same)))
  | inr t ↦
      (let more : 0 < e = ground (arith, t) in
        let b = test_bit e 0 in
        let low : digit b ≡ e % 2 = digit-test_bit e 0 ∙ omega arith in
        let p' : ℕ = if b then bit_or p (1 <<< i) else p in
        let put : p' ≡ p + e % 2 * 2 ^ i = bit_or-bit p i b l ∙ ap (λ (n : ℕ). p + n * 2 ^ i) low in
        let next : i + 1 ≡ suc i = omega arith in
        let double : 2 ^ (i + 1) ≡ 2 * 2 ^ i =
          ap (λ (n : ℕ). 2 ^ n) next ∙ (pow-suc 2 i ∙ omega arith) in
        let below : e % 2 * 2 ^ i ≤ 2 ^ i = at_most_one (e % 2) (2 ^ i) (omega arith) in
        let high : ℕ = low_digits fuel (e / 256) in
        let rest =
          parity_rounds_lem fuel (e / 256) (i + 1) p' (omega (arith, h, more))
            (omega (arith, put, double, below, l)) in
        let spread : high * 2 ^ (i + 1) ≡ 2 * (high * 2 ^ i) =
          ap (λ (n : ℕ). high * n) double ∙ grind arith in
        let whole : (e % 2 + 2 * high) * 2 ^ i ≡ e % 2 * 2 ^ i + 2 * (high * 2 ^ i) = grind arith in
        rw t (rest ∙ omega (arith, put, spread, whole)))
]

bit_xor-half : (a b : ℕ) → bit_xor a b / 2 ≡ bit_xor (a / 2) (b / 2)
bit_xor-half a b = omega (arith, bit_xor_step a b)

fold_by-lt : (k n d : ℕ) → d < 2 ^ n → fold_by k d < 2 ^ n
fold_by-lt k n d h = bit_xor-lt n d (d / 2 ^ k) h (omega (arith, div-le_self d (2 ^ k)))

fold_bytes-lt : (n d : ℕ) → d < 2 ^ n → fold_bytes d < 2 ^ n
unfolding fold_bytes
fold_bytes-lt n d h = fold_by-lt 1 n _ (fold_by-lt 2 n _ (fold_by-lt 4 n d h))

byte_width : (n : ℕ) → 2 ^ (n * 8) ≡ 256 ^ n
byte_width zero = refl
byte_width (suc n) =
    let e : suc n * 8 ≡ n * 8 + 8 = omega arith in
    ap (λ (k : ℕ). 2 ^ k) e ∙ (pow_sum (n * 8) 8 ∙ omega (arith, byte_width n, pow-suc 256 n))

pub parity-low_digits : (n d : ℕ) → d < 2 ^ (n * 8) → parity d ≡ low_digits n (fold_bytes d)
unfolding parity
parity-low_digits n d h =
    let e : ℕ = fold_bytes d in
    let small : e < 256 ^ n = omega (arith, fold_bytes-lt (n * 8) d h, byte_width n) in
    parity_rounds_lem e e 0 0 (omega arith) (omega arith)
    ∙ (omega arith ∙ low_digits_enough n e e small (omega arith))

pub dword_parity-low_digits : (d : ℕ) → dword_parity d ≡ low_digits 4 (fold_bytes d)
unfolding dword_parity
dword_parity-low_digits d =
    let e : ℕ = fold_bytes d in
    let p0 : ℕ = bit_and e 1 in
    let p1 : ℕ = if test_bit e 8 then bit_or p0 (1 <<< 1) else p0 in
    let p2 : ℕ = if test_bit e 16 then bit_or p1 (1 <<< 2) else p1 in
    let a : p0 ≡ e % 2 = bit_and_mask 1 e in
    let b = bit_or-bit p0 1 (test_bit e 8) (omega (arith, a)) in
    let b_at = digit-test_bit e 8 in
    let c = bit_or-bit p1 2 (test_bit e 16) (omega (arith, a, b, b_at)) in
    let c_at = digit-test_bit e 16 in
    let g = bit_or-bit p2 3 (test_bit e 24) (omega (arith, a, b, b_at, c, c_at)) in
    let g_at = digit-test_bit e 24 in omega (arith, a, b, b_at, c, c_at, g, g_at)

xor-digit : (k a b : ℕ) → bit_xor a b / 2 ^ k % 2 ≡ (a / 2 ^ k + b / 2 ^ k) % 2
xor-digit zero a b = omega (arith, bit_xor_step a b)
xor-digit (suc k) a b =
    let half = div-two-pow-suc k (bit_xor a b) ∙ ap (λ (n : ℕ). n / 2 ^ k) (bit_xor-half a b) in
    ap (λ (n : ℕ). n % 2) half
    ∙ (xor-digit k (a / 2) (b / 2)
        ∙ ap₂ (λ (m n : ℕ). (m + n) % 2) (sym (div-two-pow-suc k a)) (sym (div-two-pow-suc k b)))

-- The digits of a byte.
abbrev pub ones : ℕ → ℕ
ones d =
    d % 2 + d / 2 % 2 + d / 4 % 2 + d / 8 % 2 + d / 16 % 2 + d / 32 % 2 + d / 64 % 2 + d / 128 % 2

fold_by-digit : (j k d : ℕ) → fold_by j d / 2 ^ k % 2 ≡ (d / 2 ^ k + d / 2 ^ k / 2 ^ j) % 2
fold_by-digit j k d =
    let moved : d / 2 ^ j / 2 ^ k ≡ d / 2 ^ k / 2 ^ j =
      div-div-eq-div-mul d (2 ^ j) (2 ^ k)
      ∙ (ap (λ (n : ℕ). d / n) (mul_comm (2 ^ j) (2 ^ k))
          ∙ sym (div-div-eq-div-mul d (2 ^ k) (2 ^ j))) in
    xor-digit k d (d / 2 ^ j) ∙ ap (λ (n : ℕ). (d / 2 ^ k + n) % 2) moved

fold_by_at :
    (j k i d : ℕ)
    → fold_by j d / 2 ^ k / 2 ^ i % 2 ≡ (d / 2 ^ k / 2 ^ i + d / 2 ^ k / 2 ^ i / 2 ^ j) % 2
fold_by_at j k i d =
    let split =
      λ (x : ℕ). div-div-eq-div-mul x (2 ^ k) (2 ^ i) ∙ ap (λ (n : ℕ). x / n) (sym (pow_sum k i)) in
    ap (λ (n : ℕ). n % 2) (split (fold_by j d))
    ∙ (fold_by-digit j (k + i) d ∙ ap (λ (n : ℕ). (n + n / 2 ^ j) % 2) (sym (split d)))

eighth : (a : ℕ) → a / 2 / 4 % 2 ≡ a / 8 % 2
eighth a = omega arith

digits :
    (a b c d e f g h : ℕ)
    → (a + e + (c + g) + (b + f + (d + h))) % 2
      ≡ (a % 2 + b % 2 + c % 2 + d % 2 + e % 2 + f % 2 + g % 2 + h % 2) % 2
digits a b c d e f g h = omega arith

eight :
    (y : ℕ)
    → (y + y / 16 + (y / 4 + y / 4 / 16) + (y / 2 + y / 2 / 16 + (y / 8 + y / 8 / 16))) % 2
      ≡ ones y % 2
eight y =
    let a : y / 2 / 16 ≡ y / 32 = omega arith in
    let b : y / 4 / 16 ≡ y / 64 = omega arith in
    let c : y / 8 / 16 ≡ y / 128 = omega arith in
    digits y (y / 2) (y / 4) (y / 8) (y / 16) (y / 2 / 16) (y / 4 / 16) (y / 8 / 16) ∙ λ i.
    (y % 2 + y / 2 % 2 + y / 4 % 2 + y / 8 % 2 + y / 16 % 2 + a i % 2 + b i % 2 + c i % 2) % 2

sum_two :
    (z a b x y : ℕ) → z % 2 ≡ (a + b) % 2 → a % 2 ≡ x % 2 → b % 2 ≡ y % 2 → z % 2 ≡ (x + y) % 2
sum_two z a b x y h p q = omega arith

fold_bytes-digit : (k d : ℕ) → fold_bytes d / 2 ^ k % 2 ≡ ones (d / 2 ^ k) % 2
unfolding fold_bytes
fold_bytes-digit k d =
    let a : ℕ = fold_by 4 d in
    let b : ℕ = fold_by 2 a in
    let y : ℕ = d / 2 ^ k in
    let low = fold_by-digit 1 k b in
    let b0 =
      sum_two (b / 2 ^ k) (a / 2 ^ k) (a / 2 ^ k / 4) (y + y / 16) (y / 4 + y / 4 / 16)
        (fold_by-digit 2 k a) (fold_by-digit 4 k d) (fold_by_at 4 k 2 d) in
    let b1 =
      sum_two (b / 2 ^ k / 2) (a / 2 ^ k / 2) (a / 2 ^ k / 2 / 4) (y / 2 + y / 2 / 16)
        (y / 8 + y / 8 / 16) (fold_by_at 2 k 1 a) (fold_by_at 4 k 1 d)
        (eighth (a / 2 ^ k) ∙ fold_by_at 4 k 3 d) in
    let all = sum_two (fold_bytes d / 2 ^ k) (b / 2 ^ k) (b / 2 ^ k / 2) _ _ low b0 b1 in
    all ∙ eight y

low_digits-digit : (n j e : ℕ) → j < n → low_digits n e / 2 ^ j % 2 ≡ e / 2 ^ (j * 8) % 2
low_digits-digit zero j e h = absurd (omega arith)
low_digits-digit (suc n) zero e h = omega arith
low_digits-digit (suc n) (suc j) e h =
    let high : ℕ = low_digits n (e / 256) in
    let half : (e % 2 + 2 * high) / 2 ≡ high = omega arith in
    let left = div-two-pow-suc j (e % 2 + 2 * high) ∙ ap (λ (n : ℕ). n / 2 ^ j) half in
    let far : 8 + j * 8 ≡ suc j * 8 = omega arith in
    let right : e / 256 / 2 ^ (j * 8) ≡ e / 2 ^ (suc j * 8) =
      div-div-eq-div-mul e 256 (2 ^ (j * 8))
      ∙ ap (λ (n : ℕ). e / n) (sym (pow_sum 8 (j * 8)) ∙ ap (λ (n : ℕ). 2 ^ n) far) in
    ap (λ (n : ℕ). n % 2) left
    ∙ (low_digits-digit n j (e / 256) (omega arith) ∙ ap (λ (n : ℕ). n % 2) right)

-- Of a number of `n` bytes, digit `j` of `parity` is the parity of byte `j`.
pub parity-ones :
    (n j d : ℕ) → d < 2 ^ (n * 8) → j < n → parity d / 2 ^ j % 2 ≡ ones (d / 2 ^ (j * 8)) % 2
parity-ones n j d h l =
    ap (λ (x : ℕ). x / 2 ^ j % 2) (parity-low_digits n d h)
    ∙ (low_digits-digit n j (fold_bytes d) l ∙ fold_bytes-digit (j * 8) d)

-- The two functions agree on 32 bits.
pub parity-dword_parity : (d : ℕ) → d < 2 ^ 32 → parity d ≡ dword_parity d
parity-dword_parity d h = parity-low_digits 4 d h ∙ sym (dword_parity-low_digits d)
