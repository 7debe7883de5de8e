-- ===== src/Baser/Pack/Bits.antt =====
-- Reversed bits and words that are joined (src/eth/tb/baser.py).
use taxi.Prelude.{
  ℕ, zero, suc, ◌+◌, ◌*◌, ◌-◌, ◌/◌, ◌%◌, ◌^◌, ◌≤◌, ◌<◌, ◌≡◌, refl, sym, ap, ◌∙◌, Bool, true, false,
  ◌==◌, low_bits, bit_or, Bool-cases, inl, inr, arith,
}
use taxi.Prelude.Digits.{test_bit, digit, digit-test_bit}
use taxi.Prelude.Bits.{lt-two-pow, double, bit_or_fields, bit_or_comm}
use native.Mathlib.Nat.{pow-suc, mod-lt, div-div-eq-div-mul, mod-eq_of_lt}
use taxi.Prelude.Powers.{pow_sum, mod_product}
use taxi.Baser.Pack.{reverse_bits, reversed}

-- The low `n` digits, the first one on top.
unfoldable mirror : ℕ → ℕ → ℕ
mirror zero y = 0
mirror (suc n) y = y % 2 * 2 ^ n + mirror n (y / 2)

mirror-lt : (n y : ℕ) → mirror n y < 2 ^ n
unfolding mirror
mirror-lt zero y = omega arith
mirror-lt (suc n) y =
    let two = pow-suc 2 n in
    let ih = mirror-lt n (y / 2) in
    let bit : y % 2 * 2 ^ n ≤ 2 ^ n = elim (Bool-cases (y % 2 == 0)) [
      | inl e ↦ (let z : y % 2 ≡ 0 = ground (arith, e) in rw z (omega arith))
      | inr e ↦ (let z : y % 2 ≡ 1 = ground (arith, e) in rw z (omega arith))
    ] in
    omega (arith, two, ih, bit)

mirror_top : (n b z : ℕ) → b < 2 → z < 2 ^ n → mirror (suc n) (b * 2 ^ n + z) ≡ 2 * mirror n z + b
unfolding mirror
mirror_top zero b z h k = omega arith
mirror_top (suc n) b z h k =
    let two = pow-suc 2 n in
    let b_two = double b n in
    let z_two = double (z % 2) n in
    let half : (b * 2 ^ suc n + z) / 2 ≡ b * 2 ^ n + z / 2 = omega arith in
    let last : (b * 2 ^ suc n + z) % 2 ≡ z % 2 = omega arith in
    let ih = mirror_top n b (z / 2) h (omega (arith, k, two)) in
    let step : mirror (suc n) ((b * 2 ^ suc n + z) / 2) ≡ 2 * mirror n (z / 2) + b =
      ap (mirror (suc n)) half ∙ ih in
    rw last (omega (arith, step, z_two))

mirror_twice : (n y : ℕ) → mirror n (mirror n y) ≡ y % 2 ^ n
unfolding mirror
mirror_twice zero y = omega arith
mirror_twice (suc n) y =
    let two = pow-suc 2 n in
    let top = mirror_top n (y % 2) (mirror n (y / 2)) (omega arith) (mirror-lt n (y / 2)) in
    let ih = mirror_twice n (y / 2) in
    let swapped : 2 ^ suc n ≡ 2 * 2 ^ n = omega (arith, two) in
    let split : y % 2 ^ suc n ≡ 2 * (y / 2 % 2 ^ n) + y % 2 =
      ap (λ (m : ℕ). y % m) swapped
      ∙ (mod_product y 2 (2 ^ n) (omega arith) (omega (arith, lt-two-pow n)) ∙ omega arith) in
    top ∙ omega (arith, ih, split)

reverse_bits-mirror :
    (count i width x : ℕ)
    → i + count ≡ width
    → reverse_bits count i width x ≡ mirror count (x / 2 ^ i)
unfolding reverse_bits mirror
reverse_bits-mirror zero i width x h = refl
reverse_bits-mirror (suc count) i width x h =
    let place : width - 1 - i ≡ count = omega (arith, h) in
    let ih = reverse_bits-mirror count (suc i) width x (omega (arith, h)) in
    let next : x / 2 ^ suc i ≡ x / 2 ^ i / 2 = rw pow-suc (sym (div-div-eq-div-mul x (2 ^ i) 2)) in
    let rest : reverse_bits count (suc i) width x ≡ mirror count (x / 2 ^ i / 2) =
      ih ∙ ap (mirror count) next in
    let bit = digit-test_bit x i in
    elim (Bool-cases (test_bit x i)) [
      | inl e ↦
          (let set : x / 2 ^ i % 2 ≡ 1 = sym bit ∙ ap digit e in
            rw (e, set, place, rest) (omega arith))
      | inr e ↦
          (let clear : x / 2 ^ i % 2 ≡ 0 = sym bit ∙ ap digit e in
            rw (e, clear, rest) (omega arith))
    ]

reversed-mirror : (width x : ℕ) → reversed true width x ≡ mirror width x
reversed-mirror width x =
    let whole : x / 2 ^ 0 ≡ x = omega arith in
    reverse_bits-mirror width 0 width x (omega arith) ∙ ap (mirror width) whole

pub reversed_twice :
    (reverse : Bool) (width x : ℕ)
    → reversed reverse width (low_bits (reversed reverse width x) width) ≡ x % 2 ^ width
reversed_twice false width x = refl
reversed_twice true width x =
    let inner : low_bits (reversed true width x) width ≡ mirror width x =
      ap (λ (y : ℕ). low_bits y width) (reversed-mirror width x)
      ∙ mod-eq_of_lt (mirror-lt width x) in
    ap (reversed true width) inner ∙ reversed-mirror width (mirror width x) ∙ mirror_twice width x

pub bit_or-field : (y a b : ℕ) → bit_or (y % 2 ^ a) (y / 2 ^ a % 2 ^ b * 2 ^ a) ≡ y % 2 ^ (a + b)
bit_or-field y a b =
    let pos_a : 0 < 2 ^ a = omega (arith, lt-two-pow a) in
    let pos_b : 0 < 2 ^ b = omega (arith, lt-two-pow b) in
    bit_or_comm (y % 2 ^ a) (y / 2 ^ a % 2 ^ b * 2 ^ a)
    ∙ bit_or_fields a (y / 2 ^ a % 2 ^ b) (y % 2 ^ a) (mod-lt y pos_a)
    ∙ sym (ap (λ (m : ℕ). y % m) (pow_sum a b) ∙ mod_product y (2 ^ a) (2 ^ b) pos_a pos_b)

pub hdr_twice :
    (reverse : Bool) (hdr : ℕ) → hdr < 4 → reversed reverse 2 (reversed reverse 2 hdr) ≡ hdr
hdr_twice false hdr h = refl
hdr_twice true hdr h =
    let low : hdr % 2 ^ 2 ≡ hdr = omega (arith, h) in
    ap (reversed true 2) (reversed-mirror 2 hdr)
    ∙ (reversed-mirror 2 (mirror 2 hdr) ∙ (mirror_twice 2 hdr ∙ low))
