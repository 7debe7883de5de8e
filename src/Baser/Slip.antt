-- ===== src/Baser/Slip.antt =====
-- The bit slip of `BaseRSerdesSource._run` (src/eth/tb/baser.py).
use taxi.Prelude.{
  ℕ, ◌+◌, ◌*◌, ◌-◌, ◌/◌, ◌%◌, ◌^◌, ◌<◌, ◌≤◌, ◌≡◌, sym, ap, ◌∙◌, subst, Bool, ◌==◌, if◌then◌else◌,
  ◌<<<◌, ◌>>>◌, low_bits, bit_or, arith,
}
use taxi.Prelude.Bits.{bit_or_fields, bit_or_comm, lt-two-pow}
use native.Mathlib.Nat.{
  add-mul-div_right, div-eq_of_lt, mod-eq_of_lt, add-mul-mod_self_right, div-lt_iff_lt-mul,
}
use taxi.Baser.Encode.{Block}
use taxi.Prelude.Powers.{mod_product, pow_sum}

-- `bit_offset`, and the local variable `last_d`.
pub record Slip : Type 0 where
  pub bit_offset : ℕ
  pub last_d : ℕ

-- The 66 bits that begin `offset` bits before the end of the last block.
unfoldable pub window : (offset last_d d : ℕ) → ℕ
window offset last_d d = low_bits (bit_or last_d (d <<< 66) >>> (66 - offset)) 66

-- What a block is sent as at an offset.
unfoldable pub slip_block : Slip → Block → Block × Slip
unfolding window
slip_block s b =
    let d = bit_or (b.payload <<< 2) b.hdr in
    let out_d = window s.bit_offset s.last_d d in
    if s.bit_offset == 0
    then (b, s)
    else (record { hdr = low_bits out_d 2; payload = out_d >>> 2 }, record s { last_d = d })

-- `slip` is the signal of that name, low where there is none.
unfoldable pub apply_slip : Bool → Slip → Block → Block × Slip
apply_slip slip s b =
    slip_block (record s { bit_offset = (if slip then s.bit_offset + 1 else s.bit_offset) % 66 }) b

-- The window holds the last `offset` bits of the block before, below the first bits of the new one.
pub window_lem :
    (offset last_d d : ℕ)
    → offset ≤ 66
    → last_d < 2 ^ 66
    → window offset last_d d ≡ d % 2 ^ (66 - offset) * 2 ^ offset + last_d / 2 ^ (66 - offset)
unfolding window
window_lem offset last_d d h l =
    let m : ℕ = 2 ^ (66 - offset) in
    let w : ℕ = 2 ^ offset in
    let m_pos : 0 < m = omega (arith, lt-two-pow (66 - offset)) in
    let w_pos : 0 < w = omega (arith, lt-two-pow offset) in
    let whole : offset + (66 - offset) ≡ 66 = omega (arith, h) in
    let size : 2 ^ 66 ≡ w * m = sym (ap (λ (n : ℕ). 2 ^ n) whole) ∙ pow_sum offset (66 - offset) in
    let q : ℕ = last_d / m in
    let joined : bit_or last_d (d * 2 ^ 66) ≡ d * 2 ^ 66 + last_d =
      bit_or_comm last_d (d * 2 ^ 66) ∙ bit_or_fields 66 d last_d l in
    let spread : d * (w * m) ≡ d * w * m = grind arith in
    let sum : bit_or last_d (d * 2 ^ 66) ≡ last_d + d * w * m =
      omega (arith, joined, ap (λ (n : ℕ). d * n) size, spread) in
    let shifted : bit_or last_d (d * 2 ^ 66) / m ≡ q + d * w =
      ap (λ (n : ℕ). n / m) sum ∙ add-mul-div_right last_d (d * w) m_pos in
    let q_lt : q < w = (div-lt_iff_lt-mul m_pos).1 (subst (λ (n : ℕ). last_d < n) size l) in
    let high : (q + d * w) / w ≡ d =
      add-mul-div_right q d w_pos ∙ ap (λ (n : ℕ). n + d) (div-eq_of_lt q_lt) ∙ omega arith in
    let low : (q + d * w) % w ≡ q = add-mul-mod_self_right q d w ∙ mod-eq_of_lt q_lt in
    ap (λ (n : ℕ). n % 2 ^ 66) shifted
    ∙ (ap (λ (n : ℕ). (q + d * w) % n) size
        ∙ (mod_product (q + d * w) w m w_pos m_pos
            ∙ (ap (λ (n : ℕ). n % m * w + (q + d * w) % w) high
                ∙ ap (λ (n : ℕ). d % m * w + n) low)))
